-- ===== src/Frames/Boot/Append.antt =====
-- A page goes to the end of the free list that `create_page_list` builds.
use nascent_os.Prelude.{
  ℕ, ◌+◌, ◌*◌, ◌≤◌, ◌<◌, ◌≡◌, refl, ap, sym, ◌∙◌, ◌≢◌, false, List, [], ◌∷◌, ◌++◌, arith, ◌==◌, All,
}
use nascent_os.Chain
use nascent_os.Chain.{Chain, Distinct, Distinct-snoc, has, last, last_mem}
use nascent_os.Frames.{Frames, null, write, get_viraddr}
use nascent_os.Frames.Alloc.{struct_of, struct_vir, IsPlaced, IsFree, IsFreeList, All-mem}
use nascent_os.Frames.Boot.{page_at, set_count, append_page}

-- The free list after the pages below `n`, with its end.
pub record Built (s : Frames) (n : ℕ) (is : List ℕ) : Type 0 where
  pub list : IsFreeList s is
  pub below : All (λ i. i < n) is
  pub tail : (x : ℕ) (xs : List ℕ) → is ≡ x ∷ xs → s.free_page_end ≡ struct_of s (last x xs)

vir :
    (s : Frames) (i : ℕ)
    → IsPlaced s
    → i < s.page_count
    → get_viraddr (page_at s i) ≡ struct_vir s i
unfolding get_viraddr
vir s i p h = omega arith

pub All-weaken : (n : ℕ) (is : List ℕ) → All (λ i. i < n) is → All (λ i. i < n + 1) is
All-weaken n [] a = tt
All-weaken n (i ∷ is) a = (omega (arith, a.0), All-weaken n is a.1)

All-snoc : (P : ℕ → Type 0) (is : List ℕ) (n : ℕ) → All P is → P n → All P (is ++ (n ∷ []))
All-snoc P [] n a p = (p, tt)
All-snoc P (i ∷ is) n a p = (a.0, All-snoc P is n a.1 p)

out_below : (n : ℕ) (is : List ℕ) → All (λ i. i < n) is → has n is ≡ false
out_below n [] a = refl
out_below n (i ∷ is) a =
    let ne : (n == i) ≡ false = ground (arith, a.0) in ground (arith, out_below n is a.1)

-- Writing a count changes no link.
pub set_count-Built :
    (s : Frames) (n c : ℕ) (is : List ℕ)
    → n < s.page_count
    → Built s n is
    → Built (set_count s n c) n is
unfolding set_count
set_count-Built s n c is h b =
    let p = b.list.placed in
    record {
      list = record {
        placed = record { nonnull = p.nonnull; few = p.few; window = p.window };
        chain =
            Chain.frame (struct_of s) null (λ i. s.mem (struct_vir s i))
              (λ i. (set_count s n c).mem (struct_vir s i)) s.free_page_head is b.list.chain
              (λ a m. rw (vir s n p h) (ground arith));
        free = b.list.free;
        distinct = b.list.distinct;
      };
      below = b.below;
      tail = b.tail;
    }

-- `append_page` in terms of the addresses that it writes.
append_first :
    (s : Frames) (n : ℕ)
    → IsPlaced s
    → n < s.page_count
    → s.free_page_head ≡ null
    → append_page s n ≡ record s {
      mem = write (write s.mem (struct_vir s n + 8) 0) (struct_vir s n) null;
      free_page_head = struct_of s n;
      free_page_end = struct_of s n;
    }
unfolding append_page
append_first s n p h e = rw (vir s n p h, e)

append_behind :
    (s : Frames) (n e : ℕ)
    → IsPlaced s
    → n < s.page_count
    → e < s.page_count
    → s.free_page_head ≢ null
    → s.free_page_end ≡ struct_of s e
    → append_page s n ≡ record s {
      mem =
          write
            (write (write s.mem (struct_vir s n + 8) 0) (struct_vir s e) (struct_of s n))
            (struct_vir s n)
            null;
      free_page_end = struct_of s n;
    }
unfolding append_page
append_behind s n e p h he ne q =
    let test : (s.free_page_head == null) ≡ false = ground arith in
    rw (vir s n p h, test, q, vir s e p he)

-- The memory once page `n` is linked behind page `e`.
abbrev appended_mem : Frames → ℕ → ℕ → ℕ → ℕ
appended_mem s n e =
    write (write (write s.mem (struct_vir s n + 8) 0) (struct_vir s e) (struct_of s n))
      (struct_vir s n) null

last_or : List ℕ → ℕ
last_or [] = 0
last_or (x ∷ xs) = last x xs

last-snoc : (x : ℕ) (xs : List ℕ) (n : ℕ) → last x (xs ++ (n ∷ [])) ≡ n
last-snoc x [] n = refl
last-snoc x (y ∷ ys) n = last-snoc y ys n

end_of_snoc : (is : List ℕ) (n x : ℕ) (xs : List ℕ) → is ++ (n ∷ []) ≡ x ∷ xs → n ≡ last x xs
unfolding last_or
end_of_snoc [] n x xs e = ap last_or e
end_of_snoc (i ∷ is) n x xs e = sym (last-snoc i is n) ∙ ap last_or e

pub append_page-Built :
    (s : Frames) (n : ℕ) (is : List ℕ)
    → n < s.page_count
    → s.pages + 16 * s.page_count ≤ 4096 * n
    → Built s n is
    → Built (append_page s n) (n + 1) (is ++ (n ∷ []))
append_page-Built s n [] h fr b =
    let p = b.list.placed in
    rw (append_first s n p h b.list.chain) (record {
      list = record {
        placed = record { nonnull = p.nonnull; few = p.few; window = p.window };
        chain = (refl, ground arith);
        free = ((h, fr), tt);
        distinct = (refl, tt);
      };
      below = (omega arith, tt);
      tail = λ x xs e. ap (struct_of s) (end_of_snoc [] n x xs e);
    })
append_page-Built s n (x ∷ xs) h fr b =
    let p = b.list.placed in
    let out = out_below n (x ∷ xs) b.below in
    let e = last x xs in
    let fe = All-mem (IsFree s) e (x ∷ xs) b.list.free (last_mem x xs) in
    let ne : s.free_page_head ≢ null = λ z. omega (arith, b.list.chain.0, p.nonnull) in
    rw (append_behind s n e p h fe.0 ne (b.tail x xs refl)) (record {
      list = record {
        placed = record { nonnull = p.nonnull; few = p.few; window = p.window };
        chain =
            Chain.snoc (struct_of s) null (λ i. s.mem (struct_vir s i))
              (λ i. appended_mem s n e (struct_vir s i)) s.free_page_head x xs n b.list.chain
              b.list.distinct (ground arith)
              (let en : e ≢ n =
                  omega (arith, All-mem (λ i. i < n) e (x ∷ xs) b.below (last_mem x xs)) in
                ground arith)
              (λ a m ae. let an = All-mem (λ i. i < n) a (x ∷ xs) b.below m in ground arith);
        free = All-snoc (IsFree s) (x ∷ xs) n b.list.free (h, fr);
        distinct = Distinct-snoc (x ∷ xs) n b.list.distinct out;
      };
      below = All-snoc (λ i. i < n + 1) (x ∷ xs) n (All-weaken n (x ∷ xs) b.below) (omega arith);
      tail = λ y ys q. ap (struct_of s) (end_of_snoc (x ∷ xs) n y ys q);
    })
