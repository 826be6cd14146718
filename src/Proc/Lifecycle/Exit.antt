-- ===== src/Proc/Lifecycle/Exit.antt =====
-- `sys_exit`: what becomes of the task, its parent and its children.
use mathlib.Core.Path.{subst}
use nascent_os.Prelude.{
  ℕ, ◌<◌, ◌≡◌, refl, ap, sym, ◌∙◌, ◌≢◌, inl, inr, Bool, true, false, ◌&&◌, Option, none, some, List,
  arith, ◌==◌, if◌then◌else◌, Option-cases,
}
use nascent_os.Prelude.Int.{pos, eq_ℤ}
use nascent_os.Chain
use nascent_os.Chain.{Chain, has}
use nascent_os.Proc.{
  TaskState, Proc, running, ready, zombie, suspended, eq_state, num_pcb, set_state,
}
use nascent_os.Proc.Lifecycle.{wake_parent, exited, sys_exit}
use nascent_os.Proc.TaskList.Queue.{link, state_of, IsQueue}
use nascent_os.Proc.TaskList.Fetch.{first_ready, without_ready}
use nascent_os.Proc.TaskList.Schedule.{has-first_ready, schedule-zombie}
use nascent_os.Proc.Lifecycle.Children.{
  ppid_of, pid_of, new_ppid, reparent_loop-Same, reparent_loop-new,
}

-- The state in which the children are looked at: the task is a zombie, and its parent awake.
abbrev pub left_behind : Proc → ℕ → Proc
left_behind s t = wake_parent (set_state s t zombie) t

wake_parent-keeps :
    (s : Proc) (t : ℕ)
    → ((i : ℕ) → link (wake_parent s t) i ≡ link s i)
      × ((i : ℕ) → ppid_of (wake_parent s t) i ≡ ppid_of s i)
      × ((i : ℕ) → pid_of (wake_parent s t) i ≡ pid_of s i)
      × ((wake_parent s t).overall_task_list ≡ s.overall_task_list)
      × ((wake_parent s t).running_task ≡ s.running_task)
      × ((wake_parent s t).init_task ≡ s.init_task)
unfolding wake_parent
wake_parent-keeps s t = elim (Option-cases (s.pcb t).parent_task) [
  | inl e ↦ (
    λ i. ground (arith, e),
    λ i. ground (arith, e),
    λ i. ground (arith, e),
    ground (arith, e),
    ground (arith, e),
    ground (arith, e),
  )
  | inr (p, e) ↦ (
    λ i. ground (arith, e),
    λ i. ground (arith, e),
    λ i. ground (arith, e),
    ground (arith, e),
    ground (arith, e),
    ground (arith, e),
  )
]

abbrev pub is_parent : Option ℕ → ℕ → Bool
is_parent none i = false
is_parent (some p) i = i == p

-- A task that is suspended is woken, if it is the parent; no other state changes.
abbrev pub woken_state : Proc → ℕ → ℕ → TaskState
woken_state s t i =
    if is_parent (s.pcb t).parent_task i && eq_state (state_of s i) suspended
    then ready
    else state_of s i

wake_parent-state : (s : Proc) (t i : ℕ) → state_of (wake_parent s t) i ≡ woken_state s t i
unfolding wake_parent
wake_parent-state s t i = elim (Option-cases (s.pcb t).parent_task) [
  | inl e ↦ ground (arith, e)
  | inr (p, e) ↦ ground (arith, e)
]

not_ready : (st : TaskState) → st ≢ ready → eq_state st ready ≡ false
not_ready ready n = absurd (n refl)
not_ready st n = refl

abbrev pub marked : Proc → ℕ → Proc
marked s t = set_state s t zombie

marked-link : (s : Proc) (t i : ℕ) → link (marked s t) i ≡ link s i
marked-link s t i = ground arith

marked-ppid : (s : Proc) (t i : ℕ) → ppid_of (marked s t) i ≡ ppid_of s i
marked-ppid s t i = ground arith

marked-pid : (s : Proc) (t i : ℕ) → pid_of (marked s t) i ≡ pid_of s i
marked-pid s t i = ground arith

marked_self : (s : Proc) (t : ℕ) → woken_state (marked s t) t t ≡ zombie
marked_self s t = ground arith

marked-others : (s : Proc) (t i : ℕ) → i ≢ t → woken_state (marked s t) t i ≡ woken_state s t i
marked-others s t i ne = ground arith

new_ppid-child :
    (s : Proc) (t i : ℕ)
    → state_of s i ≢ ready
    → ppid_of s i ≡ pos (pid_of s t)
    → new_ppid s t i ≡ pos (pid_of s s.init_task)
new_ppid-child s t i nr child =
    let e : eq_ℤ (ppid_of s i) (pos (pid_of s t)) ≡ true = rw child (ground arith) in
    rw (e, not_ready (state_of s i) nr) refl

new_ppid-ready : (s : Proc) (t i : ℕ) → state_of s i ≡ ready → new_ppid s t i ≡ ppid_of s i
new_ppid-ready s t i r = ground (arith, r)

-- What `sys_exit` does before another task is scheduled: the task becomes a zombie; its parent, if it is
-- suspended, becomes ready, and no other task changes its state; of the children of the task, those that
-- are not ready get the init task as parent, and the ready ones keep the pid of the dead task.
pub exited_lem :
    (s : Proc) (t : ℕ)
    → (state_of (exited s t) t ≡ zombie)
      × ((i : ℕ) → i ≢ t → state_of (exited s t) i ≡ woken_state s t i)
      × ((i : ℕ)
          → i < num_pcb
          → state_of (left_behind s t) i ≢ ready
          → ppid_of s i ≡ pos (pid_of s t)
          → ppid_of (exited s t) i ≡ pos (pid_of s s.init_task))
      × ((i : ℕ)
          → i < num_pcb
          → state_of (left_behind s t) i ≡ ready
          → ppid_of (exited s t) i ≡ ppid_of s i)
unfolding exited
exited_lem s t =
    let w = left_behind s t in
    let (_, ppids, pids, _, _, first) = wake_parent-keeps (marked s t) t in
    let same = reparent_loop-Same num_pcb 0 w t in
    (
      same.states t ∙ wake_parent-state (marked s t) t t ∙ marked_self s t,
      λ i ne. same.states i ∙ wake_parent-state (marked s t) t i ∙ marked-others s t i ne,
      λ i l nr child.
          reparent_loop-new num_pcb 0 w t i (omega arith) (omega arith)
          ∙ new_ppid-child w t i nr
              (ppids i ∙ marked-ppid s t i ∙ child ∙ ap pos (sym (pids t ∙ marked-pid s t t)))
          ∙ ap pos (ap (pid_of w) first ∙ pids s.init_task ∙ marked-pid s t s.init_task),
      λ i l r.
          reparent_loop-new num_pcb 0 w t i (omega arith) (omega arith)
          ∙ new_ppid-ready w t i r
          ∙ ppids i
          ∙ marked-ppid s t i,
    )

exited-IsQueue : (s : Proc) (t : ℕ) (xs : List ℕ) → IsQueue s xs → IsQueue (exited s t) xs
unfolding exited
exited-IsQueue s t xs q =
    let w = left_behind s t in
    let (links, _, _, list, _, _) = wake_parent-keeps (marked s t) t in
    let same = reparent_loop-Same num_pcb 0 w t in
    let l : (i : ℕ) → link (exited s t) i ≡ link s i =
      λ i. same.links i ∙ links i ∙ marked-link s t i in
    record {
      chain =
          subst (λ h. Chain some none (link (exited s t)) h xs) (sym (same.list ∙ list))
            (Chain.frame some none (link s) (link (exited s t)) s.overall_task_list xs q.chain
              (λ i m. l i));
      distinct = q.distinct;
      few = q.few;
    }

exited-current : (s : Proc) (t : ℕ) → (exited s t).running_task ≡ s.running_task
unfolding exited
exited-current s t =
    (reparent_loop-Same num_pcb 0 (left_behind s t) t).current
    ∙ (wake_parent-keeps (marked s t) t).4

-- A running task that exits, with a ready task in the list (which may be the parent that it wakes), becomes a zombie
-- and is not put back: the first ready task leaves the list and runs, and the others keep their order.
pub sys_exit_lem :
    (s : Proc) (xs : List ℕ) (t : ℕ)
    → IsQueue s xs
    → has s.running_task xs ≡ false
    → first_ready (exited s s.running_task) xs ≡ some t
    → (s' : Proc) × (sys_exit s s.running_task ≡ some s')
      × IsQueue s' (without_ready (exited s s.running_task) xs)
      × ((s'.running_task ≡ t) × (state_of s' t ≡ running))
      × (state_of s' s.running_task ≡ zombie)
unfolding sys_exit
sys_exit_lem s xs t q out e =
    let r = s.running_task in
    let cur = exited-current s r in
    let z = (exited_lem s r).0 in
    let (s', runs, queue, now, others) =
      schedule-zombie (exited s r) xs t (exited-IsQueue s r xs q) e (rw cur out) (rw cur z) in
    let ne : r ≢ t = λ f. cc (f, has-first_ready (exited s r) xs t e, out) in
    (s', runs, queue, now, others r ne ∙ z)
