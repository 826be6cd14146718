-- ===== src/Proc/Lifecycle/Children.antt =====
-- The children of a task that exits: the loop that gives them to the init task.
use nascent_os.Prelude.{
  ℕ, zero, suc, ◌+◌, ◌≤◌, ◌<◌, ◌≡◌, refl, sym, ◌∙◌, ◌≢◌, ◌⊎◌, inl, inr, ◌&&◌, not, arith,
  if◌then◌else◌,
}
use nascent_os.Prelude.Int.{ℤ, pos, eq_ℤ}
use nascent_os.Proc.{Proc, ready, eq_state}
use nascent_os.Proc.Lifecycle.{reparent, reparent_loop}
use nascent_os.Proc.TaskList.Queue.{link, state_of}

abbrev pub ppid_of : Proc → ℕ → ℤ
ppid_of s i = (s.pcb i).ppid

abbrev pub pid_of : Proc → ℕ → ℕ
pid_of s i = (s.pcb i).pid

-- The parent's pid of task `i` once the children of `t` have gone to the init task.
abbrev pub new_ppid : Proc → ℕ → ℕ → ℤ
new_ppid s t i =
    if eq_ℤ (ppid_of s i) (pos (pid_of s t)) && not (eq_state (state_of s i) ready)
    then pos (pid_of s s.init_task)
    else ppid_of s i

-- What the walk over the children leaves as it is.
pub record Same (s s' : Proc) : Type 0 where
  pub links : (i : ℕ) → link s' i ≡ link s i
  pub states : (i : ℕ) → state_of s' i ≡ state_of s i
  pub pids : (i : ℕ) → pid_of s' i ≡ pid_of s i
  pub list : s'.overall_task_list ≡ s.overall_task_list
  pub current : s'.running_task ≡ s.running_task
  pub first : s'.init_task ≡ s.init_task

reparent-Same : (s : Proc) (t i : ℕ) → Same s (reparent s t i)
unfolding reparent
reparent-Same s t i = record {
  links = λ j. ground arith;
  states = λ j. ground arith;
  pids = λ j. ground arith;
  list = ground arith;
  current = ground arith;
  first = ground arith;
}

reparent_self : (s : Proc) (t i : ℕ) → ppid_of (reparent s t i) i ≡ new_ppid s t i
unfolding reparent
reparent_self s t i = ground arith

reparent-others : (s : Proc) (t i j : ℕ) → j ≢ i → ppid_of (reparent s t i) j ≡ ppid_of s j
unfolding reparent
reparent-others s t i j ne = ground arith

Same-trans : (s s1 s2 : Proc) → Same s s1 → Same s1 s2 → Same s s2
Same-trans s s1 s2 a b = record {
  links = λ i. b.links i ∙ a.links i;
  states = λ i. b.states i ∙ a.states i;
  pids = λ i. b.pids i ∙ a.pids i;
  list = b.list ∙ a.list;
  current = b.current ∙ a.current;
  first = b.first ∙ a.first;
}

pub reparent_loop-Same : (n i : ℕ) (s : Proc) (t : ℕ) → Same s (reparent_loop n i s t)
unfolding reparent_loop
reparent_loop-Same zero i s t = record {
  links = λ j. refl;
  states = λ j. refl;
  pids = λ j. refl;
  list = refl;
  current = refl;
  first = refl;
}
reparent_loop-Same (suc n) i s t =
    Same-trans s (reparent s t i) (reparent_loop n (suc i) (reparent s t i) t) (reparent-Same s t i)
      (reparent_loop-Same n (suc i) (reparent s t i) t)

reparent_loop-before :
    (n i : ℕ) (s : Proc) (t j : ℕ) → j < i → ppid_of (reparent_loop n i s t) j ≡ ppid_of s j
unfolding reparent_loop
reparent_loop-before zero i s t j l = refl
reparent_loop-before (suc n) i s t j l =
    let ne : j ≢ i = omega arith in
    reparent_loop-before n (suc i) (reparent s t i) t j (omega arith) ∙ reparent-others s t i j ne

new_ppid-reparent : (s : Proc) (t i j : ℕ) → j ≢ i → new_ppid (reparent s t i) t j ≡ new_ppid s t j
new_ppid-reparent s t i j ne =
    let same = reparent-Same s t i in
    rw (reparent-others s t i j ne, same.states j, same.pids t, same.first, same.pids s.init_task)
      refl

pub reparent_loop-new :
    (n i : ℕ) (s : Proc) (t j : ℕ)
    → i ≤ j
    → j < i + n
    → ppid_of (reparent_loop n i s t) j ≡ new_ppid s t j
unfolding reparent_loop
reparent_loop-new zero i s t j le l = absurd (omega arith)
reparent_loop-new (suc n) i s t j le l = elim (at_or_behind i j le) [
  | inl e ↦
      rw (sym e)
        (reparent_loop-before n (suc i) (reparent s t i) t i (omega arith) ∙ reparent_self s t i)
  | inr b ↦
      let ne : j ≢ i = omega arith in
      reparent_loop-new n (suc i) (reparent s t i) t j b (omega arith)
      ∙ new_ppid-reparent s t i j ne
]
  where
    at_or_behind : (i j : ℕ) → i ≤ j → (i ≡ j) ⊎ (suc i ≤ j)
    at_or_behind i j le = omega arith
