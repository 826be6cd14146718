-- ===== src/Proc/TaskList/Schedule.antt =====
-- `schedule`: a round robin over the ready tasks, and how a stale `next` breaks it.
use mathlib.Core.Path.{subst}
use nascent_os.Prelude.{
  ℕ, zero, suc, ◌<◌, ◌≡◌, refl, ap, sym, ◌∙◌, ◌≢◌, true, false, Option, none, some, List, [], ◌∷◌,
  ◌++◌, arith, if◌then◌else◌, length,
}
use nascent_os.Chain
use nascent_os.Chain.{Chain, Distinct, has}
use nascent_os.Proc.{Proc, running, ready, wait, zombie, eq_state, num_pcb, set_state}
use nascent_os.Proc.TaskList.{fetch_ready_task, add_to_task_list, schedule, wake_loop, wake_up_task}
use nascent_os.Proc.TaskList.Queue.{
  link, state_of, IsQueue, stopped, add_to_task_list-append, add_to_task_list-empty,
  add_to_task_list-zombie,
}
use nascent_os.Proc.TaskList.Fetch.{
  is_ready, first_ready, without_ready, fetch_ready_task-first, fetch_ready_task-head,
}

-- `s` with another running task, as `schedule` leaves it.
abbrev runs_now : Proc → ℕ → Proc
runs_now s t = record s { running_task = t; tss_rsp = t }

abbrev turned : Proc → ℕ → Proc
turned s t = record s { running_task = t }

schedule_steps :
    (s s1 s2 : Proc) (t : ℕ)
    → fetch_ready_task s ≡ some (t, s1)
    → add_to_task_list (turned s1 t) s.running_task ≡ some s2
    → schedule s ≡ some (record s2 { tss_rsp = s2.running_task })
unfolding schedule
schedule_steps s s1 s2 t f a = rw f (rw a)

turned-IsQueue : (s : Proc) (t : ℕ) (xs : List ℕ) → IsQueue s xs → IsQueue (turned s t) xs
turned-IsQueue s t xs q = record { chain = q.chain; distinct = q.distinct; few = q.few }

pub has-first_ready : (s : Proc) (xs : List ℕ) (t : ℕ) → first_ready s xs ≡ some t → has t xs ≡ true
has-first_ready s [] t e = cc
has-first_ready s (x ∷ xs) t e = ground (arith, has-first_ready s xs t)

ready-first_ready :
    (s : Proc) (xs : List ℕ) (t : ℕ) → first_ready s xs ≡ some t → is_ready s t ≡ true
ready-first_ready s [] t e = cc
ready-first_ready s (x ∷ xs) t e = ground (arith, ready-first_ready s xs t)

length-without :
    (s : Proc) (xs : List ℕ) (t : ℕ)
    → first_ready s xs ≡ some t
    → length (without_ready s xs) < length xs
length-without s [] t e = absurd (cc)
length-without s (x ∷ xs) t e = ground (arith, length-without s xs t)

has-without :
    (s : Proc) (xs : List ℕ) (a : ℕ) → has a xs ≡ false → has a (without_ready s xs) ≡ false
has-without s [] a h = refl
has-without s (x ∷ xs) a h = ground (arith, has-without s xs a)

-- `schedule`, with a ready task in the list and a current task that is outside it and no zombie: the
-- first ready task runs, with its kernel stack in the TSS, the current one goes to the end of the list,
-- ready again if it was running, and all others keep their states and their order. If the chosen task is
-- the only one of the list, the current task must not have a stale `next`.
pub schedule-rotates :
    (s : Proc) (xs : List ℕ) (t : ℕ)
    → IsQueue s xs
    → first_ready s xs ≡ some t
    → has s.running_task xs ≡ false
    → state_of s s.running_task ≢ zombie
    → (without_ready s xs ≡ [] → link s s.running_task ≡ none)
    → (s' : Proc) × (schedule s ≡ some s')
      × IsQueue s' (without_ready s xs ++ (s.running_task ∷ []))
      × ((s'.running_task ≡ t) × (s'.tss_rsp ≡ t) × (state_of s' t ≡ running))
      × (state_of s' s.running_task ≡ stopped (state_of s s.running_task))
      × ((i : ℕ) → i ≢ t → i ≢ s.running_task → state_of s' i ≡ state_of s i)
schedule-rotates s xs t q e out nz alone =
    let r = s.running_task in
    let mt = has-first_ready s xs t e in
    let ne : r ≢ t = λ f. cc (f, mt, out) in
    let nt : t ≢ r = λ f. cc (f, mt, out) in
    let (s1, runs, (queue, st, others, links)) = fetch_ready_task-first s xs t q e in
    let (s2, adds, added) =
      add_to_task_list-append (turned s1 t) r (without_ready s xs)
        (turned-IsQueue s1 t (without_ready s xs) queue) (has-without s xs r out)
        (omega (arith, length-without s xs t e, q.few)) (λ z. nz (sym (others r ne) ∙ z))
        (λ z. links r out ∙ alone z) in
    (
      record s2 { tss_rsp = s2.running_task },
      schedule_steps s s1 s2 t runs adds,
      record { chain = added.queue.chain; distinct = added.queue.distinct; few = added.queue.few },
      (added.current, added.current, added.others t nt ∙ st),
      added.state ∙ ap stopped (others r ne),
      λ i it ir. added.others i ir ∙ others i it,
    )

-- The current task was once taken from the front of the list, and its `next` still names the task
-- behind it. If that task is now the only one of the list, and ready, `schedule` makes it the running
-- task and leaves it in the list, behind the current one.
pub schedule-duplicates :
    (s : Proc) (t : ℕ)
    → IsQueue s (t ∷ [])
    → state_of s t ≡ ready
    → link s s.running_task ≡ some t
    → s.running_task ≢ t
    → state_of s s.running_task ≡ running
    → (s' : Proc) × (schedule s ≡ some s')
      × (s'.running_task ≡ t)
      × IsQueue s' (s.running_task ∷ t ∷ [])
schedule-duplicates s t q st l ne run =
    let r = s.running_task in
    let (s1, runs, (queue, _, others, _), links) = fetch_ready_task-head s t [] q st in
    let w : without_ready s (t ∷ []) ≡ [] = ground arith in
    let empty : s1.overall_task_list ≡ none =
      subst (λ l. Chain some none (link s1) s1.overall_task_list l) w queue.chain in
    let (s2, adds, first, links', current) =
      add_to_task_list-empty (turned s1 t) r empty (λ z. cc (others r ne, run, z)) in
    (
      record s2 { tss_rsp = s2.running_task },
      schedule_steps s s1 s2 t runs adds,
      current,
      record {
        chain = (first, (links' r ∙ links r ∙ l, links' t ∙ links t ∙ q.chain.1));
        distinct = (ground arith, (refl, tt));
        few = omega arith;
      },
    )

-- The first waiting task of the list, made ready.
abbrev pub woken : Proc → List ℕ → Proc
woken s [] = s
woken s (x ∷ xs) = if eq_state (state_of s x) wait then set_state s x ready else woken s xs

wake_loop-woken :
    (k : ℕ) (s : Proc) (h : Option ℕ) (xs : List ℕ)
    → Chain some none (link s) h xs
    → length xs < k
    → wake_loop k s h ≡ some (woken s xs)
unfolding wake_loop
wake_loop-woken zero s h xs c l = absurd (omega arith)
wake_loop-woken (suc k) s h [] c l = rw c
wake_loop-woken (suc k) s h (x ∷ xs) c l =
    let rest = wake_loop-woken k s (link s x) xs c.1 (omega arith) in rw c.0 (ground (arith, rest))

woken-link : (s : Proc) (xs : List ℕ) (a : ℕ) → link (woken s xs) a ≡ link s a
woken-link s [] a = refl
woken-link s (x ∷ xs) a = ground (arith, woken-link s xs a)

woken-list : (s : Proc) (xs : List ℕ) → (woken s xs).overall_task_list ≡ s.overall_task_list
woken-list s [] = refl
woken-list s (x ∷ xs) = ground (arith, woken-list s xs)

-- A key press at the end of a line wakes the first task of the list that waits for input, and that
-- task alone; the list keeps its tasks and its order.
pub wake_up_task-woken :
    (s : Proc) (xs : List ℕ)
    → IsQueue s xs
    → (wake_up_task s ≡ some (woken s xs)) × IsQueue (woken s xs) xs
unfolding wake_up_task
wake_up_task-woken s xs q = (
  wake_loop-woken (suc num_pcb) s s.overall_task_list xs q.chain (omega (arith, q.few)),
  record {
    chain = rw (woken-list s xs) (
        Chain.frame some none (link s) (link (woken s xs)) s.overall_task_list xs q.chain
          (λ a m. woken-link s xs a));
    distinct = q.distinct;
    few = q.few;
  },
)

-- When the current task is a zombie, `schedule` runs the first ready task and does not put the zombie
-- back.
pub schedule-zombie :
    (s : Proc) (xs : List ℕ) (t : ℕ)
    → IsQueue s xs
    → first_ready s xs ≡ some t
    → has s.running_task xs ≡ false
    → state_of s s.running_task ≡ zombie
    → (s' : Proc) × (schedule s ≡ some s')
      × IsQueue s' (without_ready s xs)
      × ((s'.running_task ≡ t) × (state_of s' t ≡ running))
      × ((i : ℕ) → i ≢ t → state_of s' i ≡ state_of s i)
schedule-zombie s xs t q e out z =
    let r = s.running_task in
    let mt = has-first_ready s xs t e in
    let ne : r ≢ t = λ f. cc (f, mt, out) in
    let (s1, runs, (queue, st, others, links)) = fetch_ready_task-first s xs t q e in
    (
      record (turned s1 t) { tss_rsp = t },
      schedule_steps s s1 (turned s1 t) t runs
          (add_to_task_list-zombie (turned s1 t) r (others r ne ∙ z)),
      record { chain = queue.chain; distinct = queue.distinct; few = queue.few },
      (refl, st),
      others,
    )
