-- ===== src/Proc/TaskList/Queue.antt =====
-- The task list as a list of tasks, and what is appended to it.
use nascent_os.Prelude.{
  ℕ, zero, suc, ◌≤◌, ◌<◌, ◌≡◌, refl, ◌∙◌, ◌≢◌, false, Option, none, some, List, [], ◌∷◌, ◌++◌,
  arith, length, length-append,
}
use nascent_os.Chain
use nascent_os.Chain.{Chain, Distinct, has, last, last_mem, Distinct-snoc}
use nascent_os.Proc.{Proc, TaskState, running, ready, zombie, eq_state, num_pcb, set_next}
use nascent_os.Proc.TaskList.{last_of, halted, link_last, append_task, add_to_task_list}

abbrev pub link : Proc → ℕ → Option ℕ
link s i = (s.pcb i).next

abbrev pub state_of : Proc → ℕ → TaskState
state_of s i = (s.pcb i).task_state

-- The task list holds the tasks `xs`, in this order, and no task twice.
pub record IsQueue (s : Proc) (xs : List ℕ) : Type 0 where
  pub chain : Chain some none (link s) s.overall_task_list xs
  pub distinct : Distinct xs
  pub few : length xs ≤ num_pcb

pub last_of-last :
    (k : ℕ) (s : Proc) (x : ℕ) (xs : List ℕ)
    → Chain some none (link s) (link s x) xs
    → length xs < k
    → last_of k s x ≡ some (last x xs)
unfolding last_of
last_of-last zero s x xs c h = absurd (omega arith)
last_of-last (suc k) s x [] c h = rw (c, last_of)
last_of-last (suc k) s x (y ∷ ys) c h = rw (c.0, last_of) (last_of-last k s y ys c.1 (omega arith))

-- What becomes of a task's state on its way into the list: only `running` changes, to `ready`.
abbrev pub stopped : TaskState → TaskState
stopped running = ready
stopped st = st

pub record Added (s : Proc) (t : ℕ) (xs : List ℕ) (s' : Proc) : Type 0 where
  pub queue : IsQueue s' (xs ++ (t ∷ []))
  pub state : state_of s' t ≡ stopped (state_of s t)
  pub others : (i : ℕ) → i ≢ t → state_of s' i ≡ state_of s i
  pub current : s'.running_task ≡ s.running_task

module _ (s : Proc) (t : ℕ) where
  halted-link : (i : ℕ) → link (halted s t) i ≡ link s i
  unfolding halted
  halted-link i = ground arith

  halted-state : state_of (halted s t) t ≡ stopped (state_of s t)
  unfolding halted
  halted-state = ground arith

  halted-others : (i : ℕ) → i ≢ t → state_of (halted s t) i ≡ state_of s i
  unfolding halted
  halted-others i h = ground arith

  halted-current : (halted s t).running_task ≡ s.running_task
  unfolding halted
  halted-current = ground arith

  halted-list : (halted s t).overall_task_list ≡ s.overall_task_list
  unfolding halted
  halted-list = ground arith

  halted-IsQueue : (xs : List ℕ) → IsQueue s xs → IsQueue (halted s t) xs
  halted-IsQueue xs q = record {
    chain = rw halted-list (
        Chain.frame some none (link s) (link (halted s t)) s.overall_task_list xs q.chain
          (λ i m. halted-link i));
    distinct = q.distinct;
    few = q.few;
  }

-- The list after the two writes of `next`.
abbrev linked : Proc → ℕ → ℕ → Proc
linked h t p = set_next (set_next h p (some t)) t none

linked-state : (h : Proc) (t p i : ℕ) → state_of (linked h t p) i ≡ state_of h i
linked-state h t p i = ground arith

linked-IsQueue :
    (h : Proc) (t y : ℕ) (ys : List ℕ)
    → IsQueue h (y ∷ ys)
    → has t (y ∷ ys) ≡ false
    → suc (length ys) < num_pcb
    → IsQueue (linked h t (last y ys)) (y ∷ ys ++ (t ∷ []))
linked-IsQueue h t y ys q out room =
    let mem = last_mem y ys in
    let ne : last y ys ≢ t = λ e. cc (mem, out, e) in
    record {
      chain =
          Chain.snoc some none (link h) (link (linked h t (last y ys))) h.overall_task_list y ys t
            q.chain q.distinct (ground arith) (ground arith)
            (λ b i nl. let nt : b ≢ t = λ e. cc (i, out, e) in ground arith);
      distinct = Distinct-snoc (y ∷ ys) t q.distinct out;
      few = omega (arith, length-append (y ∷ ys) (t ∷ []));
    }

not_zombie : (st : TaskState) → st ≢ zombie → eq_state (stopped st) zombie ≡ false
not_zombie running n = refl
not_zombie zombie n = absurd (n refl)
not_zombie st n = refl

link_last-linked :
    (h : Proc) (t y : ℕ) (ys : List ℕ)
    → IsQueue h (y ∷ ys)
    → link_last h y t ≡ some (linked h t (last y ys))
unfolding link_last
link_last-linked h t y ys q =
    rw (last_of-last (suc num_pcb) h y ys q.chain.1 (omega (arith, q.few)))

Appended : Proc → ℕ → List ℕ → Proc → Type 0
Appended h t xs s' =
    IsQueue s' (xs ++ (t ∷ []))
    × ((i : ℕ) → state_of s' i ≡ state_of h i)
    × (s'.running_task ≡ h.running_task)

append_task-some :
    (h : Proc) (t y : ℕ)
    → eq_state (state_of h t) zombie ≡ false
    → h.overall_task_list ≡ some y
    → append_task h t ≡ link_last h y t
unfolding append_task
append_task-some h t y z e = ground arith

append_task-none :
    (h : Proc) (t : ℕ)
    → eq_state (state_of h t) zombie ≡ false
    → h.overall_task_list ≡ none
    → append_task h t ≡ some (record h { overall_task_list = some t })
unfolding append_task
append_task-none h t z e = ground arith

append_task-Appended :
    (h : Proc) (t : ℕ) (xs : List ℕ)
    → IsQueue h xs
    → has t xs ≡ false
    → length xs < num_pcb
    → eq_state (state_of h t) zombie ≡ false
    → (xs ≡ [] → link h t ≡ none)
    → (s' : Proc) × (append_task h t ≡ some s') × Appended h t xs s'
unfolding append_task Appended
append_task-Appended h t [] q out room z alone = (
  record h { overall_task_list = some t },
  rw (z, q.chain),
  (
    record { chain = (refl, alone refl); distinct = (refl, tt); few = omega arith },
    λ i. refl,
    refl,
  ),
)
append_task-Appended h t (y ∷ ys) q out room z alone = (
  linked h t (last y ys),
  append_task-some h t y z q.chain.0 ∙ link_last-linked h t y ys q,
  (linked-IsQueue h t y ys q out room, linked-state h t (last y ys), refl),
)

-- A task that is not a zombie and is not in the list goes to its end: the list keeps its order, a
-- running task becomes ready, and no other task changes its state. Into an empty list the task takes
-- its own `next` along, so it has to be NULL.
pub add_to_task_list-append :
    (s : Proc) (t : ℕ) (xs : List ℕ)
    → IsQueue s xs
    → has t xs ≡ false
    → length xs < num_pcb
    → state_of s t ≢ zombie
    → (xs ≡ [] → link s t ≡ none)
    → (s' : Proc) × (add_to_task_list s t ≡ some s') × Added s t xs s'
unfolding add_to_task_list Appended
add_to_task_list-append s t xs q out room nz alone =
    let z : eq_state (state_of (halted s t) t) zombie ≡ false =
      rw (halted-state s t) (not_zombie (state_of s t) nz) in
    let (s', runs, (queue, same, cur)) =
      append_task-Appended (halted s t) t xs (halted-IsQueue s t xs q) out room z
        (λ e. halted-link s t t ∙ alone e) in
    (
      s',
      runs,
      record {
        queue = queue;
        state = same t ∙ halted-state s t;
        others = λ i ne. same i ∙ halted-others s t i ne;
        current = cur ∙ halted-current s t;
      },
    )

-- A zombie is not added: nothing changes.
pub add_to_task_list-zombie :
    (s : Proc) (t : ℕ) → state_of s t ≡ zombie → add_to_task_list s t ≡ some s
unfolding add_to_task_list halted append_task
add_to_task_list-zombie s t z = ground arith

-- Into an empty list a task goes with the `next` that it has.
pub add_to_task_list-empty :
    (s : Proc) (t : ℕ)
    → s.overall_task_list ≡ none
    → state_of s t ≢ zombie
    → (s' : Proc) × (add_to_task_list s t ≡ some s')
      × (s'.overall_task_list ≡ some t)
      × ((i : ℕ) → link s' i ≡ link s i)
      × (s'.running_task ≡ s.running_task)
unfolding add_to_task_list append_task
add_to_task_list-empty s t e nz =
    let z : eq_state (state_of (halted s t) t) zombie ≡ false =
      rw (halted-state s t) (not_zombie (state_of s t) nz) in
    (
      record (halted s t) { overall_task_list = some t },
      append_task-none (halted s t) t z (halted-list s t ∙ e),
      refl,
      halted-link s t,
      halted-current s t,
    )
