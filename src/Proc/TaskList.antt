-- ===== src/Proc/TaskList.antt =====
-- The task list of sys/proc_mngr.c, and `schedule` of sys/process.c. A `while` loop along `next`
-- takes fuel, one round for each block of `pcb_arr` and one more; `none` is a loop that the fuel does
-- not see the end of. On a list without repetitions it always ends (`Queue` and its theorems).
pub mod Queue
pub mod Fetch
pub mod Schedule
pub mod Rota
pub mod Refine
use nascent_os.Prelude.{
  ℕ, zero, suc, ◌+◌, Bool, true, false, Option, none, some, List, [], ◌∷◌, ◌==◌, if◌then◌else◌, ltb,
}
use nascent_os.Proc.{
  Proc, Task, TaskState, running, ready, wait, zombie, eq_state, num_pcb, set_task, set_next,
  set_state,
}

infixl 5 ◌>>=◌
abbrev pub ◌>>=◌ {ℓ κ} : {A : Type ℓ} {B : Type κ} → Option A → (A → Option B) → Option B
none >>= f = none
some a >>= f = f a

-- temp = list; while (temp->next != NULL) temp = temp->next;
pub last_of : ℕ → Proc → ℕ → Option ℕ
last_of zero s temp = none
last_of (suc k) s temp = elim (s.pcb temp).next [ none ↦ some temp | some n ↦ last_of k s n ]

-- A running task on its way into the list becomes ready.
pub halted : Proc → ℕ → Proc
halted s task = if eq_state (s.pcb task).task_state running then set_state s task ready else s

-- The list is not empty: behind its last task.
pub link_last : Proc → ℕ → ℕ → Option Proc
unfolding last_of
link_last s first task = do
  temp ← last_of (suc num_pcb) s first
  some (set_next (set_next s temp (some task)) task none)

-- The rest of `add_to_task_list`; a zombie is not added.
pub append_task : Proc → ℕ → Option Proc
unfolding link_last
append_task s task =
    if eq_state (s.pcb task).task_state zombie then some s else (elim s.overall_task_list [
      | none ↦ some (record s { overall_task_list = some task })
      | some first ↦ link_last s first task
    ])

pub add_to_task_list : Proc → ℕ → Option Proc
unfolding halted append_task
add_to_task_list s task = append_task (halted s task) task

-- The first waiting task of the list becomes ready.
wake_loop : ℕ → Proc → Option ℕ → Option Proc
wake_loop zero s task = none
wake_loop (suc k) s none = some s
wake_loop (suc k) s (some t) = elim (eq_state (s.pcb t).task_state wait) [
  | true ↦ some (set_state s t ready)
  | false ↦ wake_loop k s (s.pcb t).next
]

pub wake_up_task : Proc → Option Proc
wake_up_task s = wake_loop (suc num_pcb) s s.overall_task_list

-- The walk of `fetch_ready_task`: the first ready task, and the task before it.
pub ready_loop : ℕ → Proc → Option ℕ → Option ℕ → Option (Option ℕ × Option ℕ)
ready_loop zero s next_task prev = none
ready_loop (suc k) s none prev = some (none, prev)
ready_loop (suc k) s (some t) prev = elim (eq_state (s.pcb t).task_state ready) [
  | true ↦ some (some t, prev)
  | false ↦ ready_loop k s (s.pcb t).next (some t)
]

-- What is unlinked. A task that stands first keeps its own `next`.
pub unlink : Proc → ℕ → Option ℕ → Proc
unlink s next_task none = record s { overall_task_list = (s.pcb next_task).next }
unlink s next_task (some prev) =
    let s1 = set_next s prev (s.pcb next_task).next in set_next s1 next_task none

fetch_found : Proc → Option ℕ × Option ℕ → ℕ × Proc
fetch_found s (none, prev) = (s.idle_task, s)
fetch_found s (some t, prev) = (t, unlink (set_state s t running) t prev)

pub fetch_ready_task : Proc → Option (ℕ × Proc)
unfolding fetch_found ready_loop unlink
fetch_ready_task s = do
  found ← ready_loop (suc num_pcb) s s.overall_task_list none
  some (fetch_found s found)

-- The context switch saves and loads the machine's registers; control goes on in `running_task`.
pub schedule : Proc → Option Proc
unfolding fetch_ready_task add_to_task_list
schedule s = do
  (next_task, s1) ← fetch_ready_task s
  s2 ← add_to_task_list (record s1 { running_task = next_task }) s.running_task
  some (record s2 { tss_rsp = s2.running_task })
