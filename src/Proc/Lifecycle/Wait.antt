-- ===== src/Proc/Lifecycle/Wait.antt =====
-- `wait_for_child`: the first dead child of the running task, or the task is suspended.
use nascent_os.Prelude.{
  ℕ, zero, suc, ◌+◌, ◌≤◌, ◌<◌, ◌≡◌, refl, ap, ◌∙◌, ◌⊎◌, inl, inr, true, false, Option, none, some,
  arith,
}
use mathlib.Core.Path.{subst}
use nascent_os.Prelude.{List, [], ◌∷◌, ◌++◌, length, sym, ◌≢◌}
use nascent_os.Chain
use nascent_os.Chain.{has}
use nascent_os.Proc.{Proc, ready, running, suspended, eq_state, num_pcb, set_state}
use nascent_os.Proc.FreeLists.Laws.{IsFreePcbs}
use nascent_os.Proc.TaskList.Queue.{link, state_of, IsQueue, stopped}
use nascent_os.Proc.TaskList.Fetch.{first_ready, without_ready, is_ready}
use nascent_os.Proc.TaskList.Schedule.{schedule-rotates}
use nascent_os.Proc.Lifecycle.Reap.{reap_lem, IsBlank, Apart}
use nascent_os.Proc.Lifecycle.{
  Kernel, with_proc, dead_child, reap, reap_first, suspend, wait_for_child,
}
use nascent_os.Proc.TaskList.{◌>>=◌, schedule}

dead_step :
    (n i : ℕ) (k : Kernel)
    → dead_child k.proc i ≡ true
    → reap_first (suc n) i k ≡ (reap k i >>= (λ k1. some (some i, k1)))
unfolding reap_first
dead_step n i k d = ground (arith, d)

live_step :
    (n i : ℕ) (k : Kernel)
    → dead_child k.proc i ≡ false
    → reap_first (suc n) i k ≡ reap_first n (suc i) k
unfolding reap_first
live_step n i k d = ground (arith, d)

reap_first-child :
    (n i : ℕ) (k : Kernel) (t : ℕ)
    → i ≤ t
    → t < i + n
    → dead_child k.proc t ≡ true
    → ((j : ℕ) → j < t → dead_child k.proc j ≡ false)
    → reap_first n i k ≡ (reap k t >>= (λ k1. some (some t, k1)))
reap_first-child zero i k t lo hi d before = absurd (omega arith)
reap_first-child (suc n) i k t lo hi d before = elim (at_or_behind i t lo) [
  | inl f ↦ rw f (dead_step n t k d)
  | inr b ↦
      live_step n i k (before i (omega arith))
      ∙ reap_first-child n (suc i) k t b (omega arith) d before
]
  where
    at_or_behind : (i j : ℕ) → i ≤ j → (i ≡ j) ⊎ (suc i ≤ j)
    at_or_behind i j le = omega arith

reap_first-none :
    (n i : ℕ) (k : Kernel)
    → ((j : ℕ) → j < i + n → dead_child k.proc j ≡ false)
    → reap_first n i k ≡ some (none, k)
unfolding reap_first
reap_first-none zero i k live = refl
reap_first-none (suc n) i k live =
    live_step n i k (live i (omega arith))
    ∙ reap_first-none n (suc i) k (λ j l. live j (omega arith))

suspend-some :
    (o : Option Kernel) (t : ℕ)
    → (o >>= (λ k1. some (some t, k1)) >>= suspend) ≡ (o >>= (λ k1. some (some t, k1)))
unfolding suspend
suspend-some none t = refl
suspend-some (some k1) t = refl

suspend-none :
    (k : Kernel)
    → suspend (none, k) ≡ (
        schedule (set_state k.proc k.proc.running_task suspended)
        >>= (λ p. some (none, with_proc k p)))
unfolding suspend
suspend-none k = refl

reaps_first :
    (k : Kernel) (t : ℕ)
    → t < num_pcb
    → dead_child k.proc t ≡ true
    → ((j : ℕ) → j < t → dead_child k.proc j ≡ false)
    → wait_for_child k ≡ (reap k t >>= (λ k1. some (some t, k1)))
unfolding wait_for_child
reaps_first k t l d before =
    ap (λ o. o >>= suspend) (reap_first-child num_pcb 0 k t (omega arith) (omega arith) d before)
    ∙ suspend-some (reap k t) t

suspends :
    (k : Kernel)
    → ((j : ℕ) → j < num_pcb → dead_child k.proc j ≡ false)
    → wait_for_child k ≡ (
        schedule (set_state k.proc k.proc.running_task suspended)
        >>= (λ p. some (none, with_proc k p)))
unfolding wait_for_child
suspends k live =
    ap (λ o. o >>= suspend) (reap_first-none num_pcb 0 k (λ j l. live j (omega arith)))
    ∙ suspend-none k

-- `wait_for_child` of a task with dead children reaps the first one of the array and returns its index: the
-- block is cleared and goes to the end of the free list, the task list is as before, and the caller goes on
-- running. The child is in neither list before, as one is that ended itself.
pub wait_for_child-child :
    (k : Kernel) (t : ℕ) (xs fs : List ℕ)
    → t < num_pcb
    → dead_child k.proc t ≡ true
    → ((j : ℕ) → j < t → dead_child k.proc j ≡ false)
    → IsQueue k.proc xs
    → IsFreePcbs k.proc fs
    → Apart xs fs
    → (has t xs ≡ false) × (has t fs ≡ false)
    → length fs < num_pcb
    → (k' : Kernel) × (wait_for_child k ≡ some (some t, k'))
      × (k'.proc.running_task ≡ k.proc.running_task)
      × IsQueue k'.proc xs
      × IsFreePcbs k'.proc (fs ++ (t ∷ []))
      × IsBlank (k'.proc.pcb t)
wait_for_child-child k t xs fs l d before q f apart out few =
    let (k', runs, queue, free, blank, frames, same) = reap_lem k t xs fs q f apart out few in
    (
      k',
      reaps_first k t l d before ∙ ap (λ o. o >>= (λ k1. some (some t, k1))) runs,
      same,
      queue,
      free,
      blank,
    )

waiting-link : (s : Proc) (t i : ℕ) → link (set_state s t suspended) i ≡ link s i
waiting-link s t i = ground arith

waiting-IsQueue :
    (s : Proc) (t : ℕ) (xs : List ℕ) → IsQueue s xs → IsQueue (set_state s t suspended) xs
waiting-IsQueue s t xs q = record {
  chain =
      Chain.frame some none (link s) (link (set_state s t suspended)) s.overall_task_list xs q.chain
        (λ i m. waiting-link s t i);
  distinct = q.distinct;
  few = q.few;
}

waiting_self : (s : Proc) (t : ℕ) → state_of (set_state s t suspended) t ≡ suspended
waiting_self s t = ground arith

waiting-others : (s : Proc) (t i : ℕ) → i ≢ t → state_of (set_state s t suspended) i ≡ state_of s i
waiting-others s t i n = ground (arith, n)

waiting-first :
    (s : Proc) (t : ℕ) (xs : List ℕ)
    → has t xs ≡ false
    → (first_ready (set_state s t suspended) xs ≡ first_ready s xs)
      × (without_ready (set_state s t suspended) xs ≡ without_ready s xs)
waiting-first s t [] out = (refl, refl)
waiting-first s t (x ∷ xs) out =
    let ne : x ≢ t = ground (arith, out) in
    let e : is_ready (set_state s t suspended) x ≡ is_ready s x =
      ap (λ st. eq_state st ready) (waiting-others s t x ne) in
    let (a, b) = waiting-first s t xs (ground (arith, out)) in (rw (e, a) refl, rw (e, b) refl)

-- `wait_for_child` of a task without a dead child, with a ready task in the list: the first ready task runs, and
-- the caller stands at the end of the list, suspended. The caller is not in the list before, and if the chosen task is
-- the only one there, the caller has no stale `next`.
pub wait_for_child-none :
    (k : Kernel) (xs : List ℕ) (t : ℕ)
    → ((j : ℕ) → j < num_pcb → dead_child k.proc j ≡ false)
    → IsQueue k.proc xs
    → first_ready k.proc xs ≡ some t
    → has k.proc.running_task xs ≡ false
    → (without_ready k.proc xs ≡ [] → link k.proc k.proc.running_task ≡ none)
    → (k' : Kernel) × (wait_for_child k ≡ some (none, k'))
      × ((k'.proc.running_task ≡ t) × (state_of k'.proc t ≡ running))
      × (state_of k'.proc k.proc.running_task ≡ suspended)
      × IsQueue k'.proc (without_ready k.proc xs ++ (k.proc.running_task ∷ []))
wait_for_child-none k xs t live q e out alone =
    let c = k.proc.running_task in
    let s = set_state k.proc c suspended in
    let (same, rest) = waiting-first k.proc c xs out in
    let self = waiting_self k.proc c in
    let (s', runs, queue, (now, _, st), old, others) =
      schedule-rotates s xs t (waiting-IsQueue k.proc c xs q) (same ∙ e) out (λ z. cc (self, z))
        (λ z. waiting-link k.proc c c ∙ alone (sym rest ∙ z)) in
    (
      with_proc k s',
      suspends k live ∙ ap (λ o. o >>= (λ p. some (none, with_proc k p))) runs,
      (now, st),
      old ∙ ap stopped self,
      subst (λ l. IsQueue s' (l ++ (c ∷ []))) rest queue,
    )
