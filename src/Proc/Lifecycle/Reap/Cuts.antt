-- ===== src/Proc/Lifecycle/Reap/Cuts.antt =====
-- What the reaping of a block does that is still in the task list, as one is that was killed while it was ready.
use mathlib.Core.Path.{subst}
use nascent_os.Prelude.{
  ℕ, ◌<◌, ◌≡◌, refl, sym, ◌∙◌, ◌≢◌, true, false, Option, none, some, List, [], ◌∷◌, ◌++◌, arith,
  ◌==◌, length, length-append,
}
use nascent_os.Chain.{Chain, Distinct, has, has-append}
use nascent_os.Proc.{ready, num_pcb}
use nascent_os.Proc.Lifecycle.{Kernel, reap}
use nascent_os.Proc.FreeLists.Laws.{IsFreePcbs, returned, append-returned, append_in_free_list_lem}
use nascent_os.Proc.TaskList.Queue.{link, state_of, IsQueue}
use nascent_os.Proc.Lifecycle.Reap.{
  wiped, wiped-state, wiped-IsFreePcbs, returned_self, returned-list, returned-state, reaped,
  reap-reaped, reaped-link, Apart,
}

-- A chain through `t` ends there once the link of `t` is NULL.
cut-Chain :
    (nx nx' : ℕ → Option ℕ) (h : Option ℕ) (before : List ℕ) (t : ℕ) (behind : List ℕ)
    → Chain some none nx h (before ++ (t ∷ behind))
    → nx' t ≡ none
    → ((i : ℕ) → has i before ≡ true → nx' i ≡ nx i)
    → Chain some none nx' h (before ++ (t ∷ []))
cut-Chain nx nx' h [] t behind c e same = (c.0, e)
cut-Chain nx nx' h (x ∷ xs) t behind c e same = (
  c.0,
  subst (λ p. Chain some none nx' p (xs ++ (t ∷ []))) (sym (same x (ground arith)))
      (cut-Chain nx nx' (nx x) xs t behind c.1 e (λ i m. same i (ground arith))),
)

Distinct-before :
    (before : List ℕ) (t : ℕ) (behind : List ℕ)
    → Distinct (before ++ (t ∷ behind))
    → Distinct (before ++ (t ∷ [])) × (has t before ≡ false)
Distinct-before [] t behind d = ((refl, tt), refl)
Distinct-before (x ∷ xs) t behind d =
    let (rest, out) = Distinct-before xs t behind d.1 in
    let e : has x (xs ++ (t ∷ [])) ≡ false =
      ground (arith, d.0, has-append x xs (t ∷ []), has-append x xs (t ∷ behind)) in
    let f : (t == x) ≡ false = ground (arith, d.0, has-append x xs (t ∷ behind)) in
    ((e, rest), ground arith)

not_behind :
    (before : List ℕ) (t : ℕ) (behind : List ℕ) (i : ℕ)
    → Distinct (before ++ (t ∷ behind))
    → has i behind ≡ true
    → has i (before ++ (t ∷ [])) ≡ false
not_behind [] t behind i d m = let ne : i ≢ t = λ e. cc (e, m, d.0) in ground (arith, ne)
not_behind (x ∷ xs) t behind i d m =
    let rest = not_behind xs t behind i d.1 m in
    let inside : has i (xs ++ (t ∷ behind)) ≡ true =
      ground (arith, m, has-append i xs (t ∷ behind)) in
    let ne : i ≢ x = λ e. cc (e, inside, d.0) in ground (arith, ne, rest)

has_end : (t : ℕ) (xs : List ℕ) → has t (xs ++ (t ∷ [])) ≡ true
has_end t [] = ground arith
has_end t (x ∷ xs) = ground (arith, has_end t xs)

-- Reaping a block that still stands in the task list cuts the list behind it: the block goes to the end of
-- the free list, the task list ends with it, and the tasks that followed it are in neither of the two. The
-- freed block is ready, and so it can be scheduled.
pub reap-cuts :
    (k : Kernel) (t : ℕ) (before behind fs : List ℕ)
    → IsQueue k.proc (before ++ (t ∷ behind))
    → IsFreePcbs k.proc fs
    → Apart (before ++ (t ∷ behind)) fs
    → length fs < num_pcb
    → (k' : Kernel) × (reap k t ≡ some k')
      × IsQueue k'.proc (before ++ (t ∷ []))
      × IsFreePcbs k'.proc (fs ++ (t ∷ []))
      × ((i : ℕ)
          → has i behind ≡ true
          → (has i (before ++ (t ∷ [])) ≡ false) × (has i (fs ++ (t ∷ [])) ≡ false))
      × (state_of k'.proc t ≡ ready)
reap-cuts k t before behind fs q f apart few =
    let w = wiped k.proc t in
    let s' = returned w fs t in
    let (d, nt) = Distinct-before before t behind q.distinct in
    let mt : has t (before ++ (t ∷ behind)) ≡ true =
      ground (arith, has-append t before (t ∷ behind)) in
    let fw = wiped-IsFreePcbs k.proc t fs f (apart t mt) in
    let (sf, runs, free) = append_in_free_list_lem w t fs fw (apart t mt) few in
    let same : returned w fs t ≡ sf = cc (append-returned w t fs fw, runs) in
    let behind_in : (i : ℕ) → has i behind ≡ true → has i (before ++ (t ∷ behind)) ≡ true =
      λ i m. ground (arith, m, has-append i before (t ∷ behind)) in
    let mb : (i : ℕ) → has i before ≡ true → has i (before ++ (t ∷ behind)) ≡ true =
      λ i m. ground (arith, has-append i before (t ∷ behind)) in
    (
      reaped k fs t,
      reap-reaped k t fs f (apart t mt),
      record {
        chain =
            subst (λ h. Chain some none (link s') h (before ++ (t ∷ [])))
              (sym (returned-list w fs t))
              (cut-Chain (link k.proc) (link s') k.proc.overall_task_list before t behind q.chain
                (returned_self w fs t)
                (λ i m. reaped-link k.proc fs t i (λ e. cc (e, m, nt)) (apart i (mb i m))));
        distinct = d;
        few =
            omega (arith, q.few, length-append before (t ∷ []), length-append before (t ∷ behind));
      },
      subst (λ p. IsFreePcbs p (fs ++ (t ∷ []))) (sym same) free,
      λ i m.
          let cut = not_behind before t behind i q.distinct m in
          let ne : i ≢ t = λ e. cc (e, cut, has_end t before) in
          (cut, ground (arith, ne, apart i (behind_in i m), has-append i fs (t ∷ []))),
      returned-state w fs t t ∙ wiped-state k.proc t,
    )
