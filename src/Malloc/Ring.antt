-- ===== src/Malloc/Ring.antt =====
-- The ring of free blocks when a block is taken from it and given back.
use nascent_os.Prelude.{
  ℕ, suc, ◌+◌, ◌-◌, ◌≤◌, ◌<◌, ◌≡◌, refl, ap, sym, ◌∙◌, ◌≢◌, ◌⊎◌, inl, inr, true, false, arith, ◌==◌,
  leb, some, ℕ_discrete,
}
use nascent_os.Malloc.{
  Heap, put, find_place, insert, join_upper, join_lower, free, take_block, taken, search, units_of,
  start_ring, search_from, malloc,
}
use nascent_os.Proc.TaskList.{◌>>=◌}

-- The heap without the end of the block at `q`.
abbrev cut : Heap → ℕ → ℕ → ℕ → Heap
cut h p q n = record h {
  size = put (put h.size q (h.size q - n)) (q + (h.size q - n)) n;
  freeptr = some p;
}

search-cut :
    (k n : ℕ) (h : Heap) (p q : ℕ)
    → n < h.size q
    → p < q
    → search (suc k) n h p q ≡ some (q + (h.size q - n) + 1, cut h p q n)
unfolding search taken take_block
search-cut k n h p q l d =
    let e : leb n (h.size q) ≡ true = ground (arith, l) in
    let e1 : (h.size q == n) ≡ false = ground (arith, l) in
    let e2 : (q + (h.size q - n) == p) ≡ false = ground (arith, d) in rw (e, e1, e2) refl

malloc-cut :
    (k : ℕ) (h : Heap) (base nbytes p : ℕ)
    → h.freeptr ≡ some p
    → units_of nbytes < h.size (h.ptr p)
    → p < h.ptr p
    → let q = h.ptr p in
      malloc (suc k) h base nbytes
      ≡ some (q + (h.size q - units_of nbytes) + 1, cut h p q (units_of nbytes))
unfolding malloc start_ring search_from
malloc-cut k h base nbytes p f l d =
    ap (λ s. search_from (suc k) (units_of nbytes) (start_ring h base s)) f
    ∙ search-cut k (units_of nbytes) h p (h.ptr p) l d

place_found :
    (n : ℕ) (h : Heap) (b p : ℕ)
    → p < b
    → (b < h.ptr p) ⊎ (h.ptr p ≤ p)
    → find_place (suc n) h b p ≡ some p
unfolding find_place
place_found n h b p l (inl r) = ground (arith, l, r)
place_found n h b p l (inr r) = ground (arith, l, r)

place_next :
    (n : ℕ) (h : Heap) (b p : ℕ)
    → p < h.ptr p
    → h.ptr p < b
    → find_place (suc n) h b p ≡ find_place n h b (h.ptr p)
unfolding find_place
place_next n h b p l r = ground (arith, l, r)

-- The block at `b` joined with the one at `q` in front of it.
abbrev joined : Heap → ℕ → ℕ → Heap
joined h b q = record h {
  ptr = put (put h.ptr b (h.ptr q)) q (put h.ptr b (h.ptr q) b);
  size = put h.size q (h.size q + h.size b);
  freeptr = some q;
}

insert-joined :
    (h : Heap) (b q : ℕ) → b + h.size b ≢ h.ptr q → q + h.size q ≡ b → insert h b q ≡ joined h b q
unfolding insert join_upper join_lower
insert-joined h b q u l =
    let e : (b + h.size b == h.ptr q) ≡ false = ground (arith, u) in
    let e1 : (q + h.size q == b) ≡ true = ground (arith, l) in rw (e, e1) refl

free_joined :
    (n : ℕ) (h : Heap) (p q b : ℕ)
    → h.freeptr ≡ some p
    → find_place n h b p ≡ some q
    → free n h (b + 1) ≡ some (insert h b q)
unfolding free
free_joined n h p q b f e =
    let z : b + 1 - 1 ≡ b = omega arith in
    ap
      (λ s.
        s >>= (λ start. find_place n h (b + 1 - 1) start >>= (λ x. some (insert h (b + 1 - 1) x))))
      f
    ∙ ap (λ c. find_place n h c p >>= (λ x. some (insert h c x))) z
    ∙ ap (λ s. s >>= (λ x. some (insert h b x))) e

put_ne : (f : ℕ → ℕ) (a v b : ℕ) → b ≢ a → put f a v b ≡ f b
put_ne f a v b n = ground (arith, n)

put_self : (f : ℕ → ℕ) (a v : ℕ) → put f a v a ≡ v
put_self f a v = ground arith

links_back : (f : ℕ → ℕ) (b q x : ℕ) → x ≢ b → put (put f b (f q)) q (put f b (f q) b) x ≡ f x
links_back f b q x n = elim (ℕ_discrete x q) [
  | yes e ↦
      ap (put (put f b (f q)) q (put f b (f q) b)) e
      ∙ put_self (put f b (f q)) q (put f b (f q) b)
      ∙ put_self f b (f q)
      ∙ ap f (sym e)
  | no d ↦ put_ne (put f b (f q)) q (put f b (f q) b) x d ∙ put_ne f b (f q) x n
]

sizes_back :
    (f : ℕ → ℕ) (b q u x : ℕ)
    → let g = put (put f q (f q - u)) b u in g q + g b ≡ f q → x ≢ b → put g q (g q + g b) x ≡ f x
sizes_back f b q u x s n =
    let g = put (put f q (f q - u)) b u in
    elim (ℕ_discrete x q) [
      | yes e ↦ ap (put g q (g q + g b)) e ∙ put_self g q (g q + g b) ∙ s ∙ ap f (sym e)
      | no d ↦
          put_ne g q (g q + g b) x d ∙ put_ne (put f q (f q - u)) b u x n ∙ put_ne f q (f q - u) x d
    ]

-- The block behind in the ring does not touch the one at `q`.
abbrev pub IsApart : Heap → ℕ → ℕ → Type 0
IsApart h p q = (q + h.size q < h.ptr q) ⊎ (h.ptr q ≤ p)

behind_end :
    (h : Heap) (p q b : ℕ)
    → IsApart h p q
    → p < q
    → b < q + h.size q
    → (b < h.ptr q) ⊎ (h.ptr q ≤ q)
behind_end h p q b (inl r) d l = inl (omega (arith, r, l))
behind_end h p q b (inr r) d l = inr (omega (arith, r, d))

no_touch : (h : Heap) (p q e : ℕ) → IsApart h p q → p < q → e ≡ q + h.size q → e ≢ h.ptr q
no_touch h p q e (inl r) d l z = omega (arith, r, l, z)
no_touch h p q e (inr r) d l z = omega (arith, r, d, l, z)

-- A block that is taken from the end of a larger free one, and given back at once: both calls end, the
-- block is joined with the one that it was taken from, and the headers of the ring are as they were: only the
-- header of the block itself is written. The free block is the one that the search begins with, it lies
-- above the place from which the search starts, and the block behind it in the ring does not touch it.
pub free-malloc :
    (k n : ℕ) (h : Heap) (base nbytes p : ℕ)
    → h.freeptr ≡ some p
    → units_of nbytes < h.size (h.ptr p)
    → p < h.ptr p
    → IsApart h p (h.ptr p)
    → (a : ℕ) × (h1 h2 : Heap) × (malloc (suc k) h base nbytes ≡ some (a, h1))
      × (free (suc (suc n)) h1 a ≡ some h2)
      × (h2.freeptr ≡ some (h.ptr p))
      × ((x : ℕ) → x + 1 ≢ a → (h2.ptr x ≡ h.ptr x) × (h2.size x ≡ h.size x))
unfolding units_of
free-malloc k n h base nbytes p f l d apart =
    let q = h.ptr p in
    let u = units_of nbytes in
    let b = q + (h.size q - u) in
    let h1 = cut h p q u in
    let at_q : h1.size q ≡ h.size q - u =
      put_ne (put h.size q (h.size q - u)) b u q (λ z. omega (arith, z, l))
      ∙ put_self h.size q (h.size q - u) in
    let at_b : h1.size b ≡ u = put_self (put h.size q (h.size q - u)) b u in
    let place : find_place (suc (suc n)) h1 b p ≡ some q =
      place_next (suc n) h1 b p d (omega (arith, l))
      ∙ place_found n h1 b q (omega (arith, l)) (behind_end h p q b apart d (omega (arith, l))) in
    (
      b + 1,
      h1,
      joined h1 b q,
      malloc-cut k h base nbytes p f l d,
      free_joined (suc (suc n)) h1 p q b refl place
          ∙ ap some (
              insert-joined h1 b q (no_touch h p q (b + h1.size b) apart d (omega (arith, at_b, l)))
                (ap (λ s. q + s) at_q)),
      refl,
      λ x ne.
          let nb : x ≢ b = λ z. ne (ap (λ y. y + 1) z) in
          (links_back h.ptr b q x nb, sizes_back h.size b q u x (omega (arith, at_q, at_b, l)) nb),
    )
