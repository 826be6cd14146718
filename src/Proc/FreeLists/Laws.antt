-- ===== src/Proc/FreeLists/Laws.antt =====
-- The free lists as lists of blocks.
use nascent_os.Prelude.{
  ℕ, zero, suc, ◌+◌, ◌≤◌, ◌<◌, ◌≡◌, refl, ◌∙◌, ◌≢◌, inl, inr, false, Option, none, some, List, [],
  ◌∷◌, ◌++◌, arith, length, length-append, Option-cases,
}
use nascent_os.Chain
use nascent_os.Chain.{
  Chain, counting, Above, Above-push, Distinct, has, last, last_mem, Distinct-snoc,
}
use nascent_os.Proc.{Proc, set_next, set_task, num_pcb, num_vma}
use nascent_os.Proc.FreeLists.{
  push_vma, vma_loop, initialise_vma, push_pcb, pcb_loop, create_pcb_list, append_behind,
  append_in_free_list,
}
use nascent_os.Proc.TaskList.Queue.{link, last_of-last}

-- The free list holds the blocks `xs`, in this order, and no block twice.
pub record IsFreePcbs (s : Proc) (xs : List ℕ) : Type 0 where
  pub chain : Chain some none (link s) s.free_pcb_head xs
  pub distinct : Distinct xs
  pub few : length xs ≤ num_pcb

abbrev pub vma_link : Proc → ℕ → Option ℕ
vma_link s i = (s.vma i).next

pub record IsFreeVmas (s : Proc) (xs : List ℕ) : Type 0 where
  pub chain : Chain some none (vma_link s) s.free_vma_head xs
  pub distinct : Distinct xs

push_pcb-head : (s : Proc) (n : ℕ) → (push_pcb s n).free_pcb_head ≡ some n
unfolding push_pcb
push_pcb-head s n = elim (Option-cases s.free_pcb_head) [ inl e ↦ rw e refl | inr e ↦ rw e.1 refl ]

push_pcb_self : (s : Proc) (n : ℕ) → link (push_pcb s n) n ≡ s.free_pcb_head
unfolding push_pcb
push_pcb_self s n = elim (Option-cases s.free_pcb_head) [
  | inl e ↦ ground (arith, e)
  | inr e ↦ ground (arith, e.1)
]

push_pcb-others : (s : Proc) (n b : ℕ) → b ≢ n → link (push_pcb s n) b ≡ link s b
unfolding push_pcb
push_pcb-others s n b ne = elim (Option-cases s.free_pcb_head) [
  | inl e ↦ ground (arith, e)
  | inr e ↦ ground (arith, e.1)
]

push_vma-head : (s : Proc) (n : ℕ) → (push_vma s n).free_vma_head ≡ some n
unfolding push_vma
push_vma-head s n = elim (Option-cases s.free_vma_head) [ inl e ↦ rw e refl | inr e ↦ rw e.1 refl ]

push_vma_self : (s : Proc) (n : ℕ) → vma_link (push_vma s n) n ≡ s.free_vma_head
unfolding push_vma
push_vma_self s n = elim (Option-cases s.free_vma_head) [
  | inl e ↦ ground (arith, e)
  | inr e ↦ ground (arith, e.1)
]

push_vma-others : (s : Proc) (n b : ℕ) → b ≢ n → vma_link (push_vma s n) b ≡ vma_link s b
unfolding push_vma
push_vma-others s n b ne = elim (Option-cases s.free_vma_head) [
  | inl e ↦ ground (arith, e)
  | inr e ↦ ground (arith, e.1)
]

pcb_loop-IsFreePcbs :
    (n : ℕ) (s : Proc) (xs : List ℕ)
    → IsFreePcbs s xs
    → Above n xs
    → n + length xs ≤ num_pcb
    → IsFreePcbs (pcb_loop n s) (counting n xs)
unfolding pcb_loop
pcb_loop-IsFreePcbs zero s xs f a few = f
pcb_loop-IsFreePcbs (suc n) s xs f a few =
    let out = a n (omega arith) in
    pcb_loop-IsFreePcbs n (push_pcb s n) (n ∷ xs)
      (record {
        chain =
            Chain.push some none (link s) (link (push_pcb s n)) s.free_pcb_head
              (push_pcb s n).free_pcb_head n xs f.chain out (push_pcb-head s n) (push_pcb_self s n)
              (push_pcb-others s n);
        distinct = (out, f.distinct);
        few = omega arith;
      })
      (Above-push n xs a) (omega arith)

vma_loop-IsFreeVmas :
    (n : ℕ) (s : Proc) (xs : List ℕ)
    → IsFreeVmas s xs
    → Above n xs
    → IsFreeVmas (vma_loop n s) (counting n xs)
unfolding vma_loop
vma_loop-IsFreeVmas zero s xs f a = f
vma_loop-IsFreeVmas (suc n) s xs f a =
    let out = a n (omega arith) in
    vma_loop-IsFreeVmas n (push_vma s n) (n ∷ xs)
      (record {
        chain =
            Chain.push some none (vma_link s) (vma_link (push_vma s n)) s.free_vma_head
              (push_vma s n).free_vma_head n xs f.chain out (push_vma-head s n) (push_vma_self s n)
              (push_vma-others s n);
        distinct = (out, f.distinct);
      })
      (Above-push n xs a)

-- At boot every block is free: the two lists hold the blocks 0 to 999 of `pcb_arr` and 0 to 4999 of
-- `vma_arr`, in this order, and each one once.
pub create_pcb_list_lem :
    (s : Proc)
    → s.free_pcb_head ≡ none
    → s.free_vma_head ≡ none
    → IsFreePcbs (create_pcb_list s) (counting num_pcb [])
      × IsFreeVmas (initialise_vma s) (counting num_vma [])
unfolding create_pcb_list initialise_vma
create_pcb_list_lem s e f = (
  pcb_loop-IsFreePcbs num_pcb s [] (record { chain = e; distinct = tt; few = omega arith })
      (λ i l. refl) (omega arith),
  vma_loop-IsFreeVmas num_vma s [] (record { chain = f; distinct = tt }) (λ i l. refl),
)

-- The block `t` behind the block `q`.
abbrev behind : Proc → ℕ → ℕ → Proc
behind s t q =
    let s1 = set_next (set_next s q (some t)) t none in
    set_task s1 t (record (s1.pcb t) { prev = some q })

append_behind-last :
    (s : Proc) (t x : ℕ) (xs : List ℕ)
    → IsFreePcbs s (x ∷ xs)
    → append_behind s x t ≡ some (behind s t (last x xs))
unfolding append_behind
append_behind-last s t x xs f =
    rw (last_of-last (suc num_pcb) s x xs f.chain.1 (omega (arith, f.few)))

append_some :
    (s : Proc) (t x : ℕ) → s.free_pcb_head ≡ some x → append_in_free_list s t ≡ append_behind s x t
unfolding append_in_free_list
append_some s t x e = ground arith

-- The state after the block `t` came back.
abbrev pub returned : Proc → List ℕ → ℕ → Proc
returned s [] t = set_next (record s { free_pcb_head = some t }) t none
returned s (x ∷ xs) t = behind s t (last x xs)

pub append-returned :
    (s : Proc) (t : ℕ) (xs : List ℕ)
    → IsFreePcbs s xs
    → append_in_free_list s t ≡ some (returned s xs t)
unfolding append_in_free_list
append-returned s t [] f = ground (arith, f.chain)
append-returned s t (x ∷ xs) f = append_some s t x f.chain.0 ∙ append_behind-last s t x xs f

-- A block that comes back goes to the end of the free list, the walk to which ends; the order of the
-- others stays.
pub append_in_free_list_lem :
    (s : Proc) (t : ℕ) (xs : List ℕ)
    → IsFreePcbs s xs
    → has t xs ≡ false
    → length xs < num_pcb
    → (s' : Proc) × (append_in_free_list s t ≡ some s') × IsFreePcbs s' (xs ++ (t ∷ []))
append_in_free_list_lem s t [] f out few = (
  returned s [] t,
  append-returned s t [] f,
  record { chain = (refl, ground arith); distinct = (refl, tt); few = omega arith },
)
append_in_free_list_lem s t (x ∷ xs) f out few =
    let mem = last_mem x xs in
    let ne : last x xs ≢ t = λ e. cc (mem, out, e) in
    (
      returned s (x ∷ xs) t,
      append-returned s t (x ∷ xs) f,
      record {
        chain =
            Chain.snoc some none (link s) (link (behind s t (last x xs))) s.free_pcb_head x xs t
              f.chain f.distinct (ground arith) (ground arith)
              (λ b i nl. let nt : b ≢ t = λ e. cc (i, out, e) in ground arith);
        distinct = Distinct-snoc (x ∷ xs) t f.distinct out;
        few = omega (arith, few, length-append (x ∷ xs) (t ∷ []));
      },
    )
