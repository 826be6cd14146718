-- ===== src/Proc/Tests.antt =====
-- The task list with three tasks, 2, 3 and 4, while task 7 runs.
use nascent_os.Prelude.{ℕ, ◌≤◌, ◌≡◌, refl, ◌≢◌, none, some, [], ◌∷◌, arith}
use nascent_os.Prelude.Int.{pos}
use nascent_os.Proc.{Proc, Task, running, ready, wait, exit, eq_state, set_task, set_next}
use nascent_os.Proc.TaskList.{add_to_task_list, fetch_ready_task, schedule}
use nascent_os.Proc.TaskList.Queue.{state_of, IsQueue, Added, add_to_task_list-append}
use nascent_os.Proc.TaskList.Fetch.{Fetched, fetch_ready_task-first}
use nascent_os.Proc.TaskList.Rota.{Rota, first, turns}
use nascent_os.Proc.TaskList.Refine.{Shows, rounds, rounds-Shows, schedule-reaches}
use nascent_os.Proc.TaskList.Schedule.{schedule-rotates, schedule-duplicates}

abbrev pub blank : Task
blank = record {
  regs = record { rip = 0; rsp = 0; krsp = 0; cr3 = 0 };
  filename = [];
  task_mm = record { vma_head = none; count = 0; begin_stack = 0; argv_start = 0; argv_end = 0 };
  kstack = λ i. 0;
  next = none;
  prev = none;
  fd_array = [];
  pid = 0;
  ppid = pos 0;
  parent_task = none;
  sleep_sec = pos 0;
  task_state = exit;
  cwd = [];
}

abbrev pub nothing : Proc
nothing = record {
  pcb = λ i. blank;
  vma = λ i. record {
    start_addr = 0;
    end_addr = 0;
    next = none;
    prev = none;
    vm_flags = 0;
    vmtype = 0;
    p_filesz = 0;
    tarfs_base = 0;
  };
  free_pcb_head = none;
  free_vma_head = none;
  overall_task_list = none;
  running_task = 7;
  idle_task = 0;
  init_task = 1;
  tss_rsp = 7;
  log = [];
}

-- 2 waits, 3 and 4 are ready
abbrev pub three : Proc
three =
    let s2 = set_task nothing 2 (record blank { next = some 3; task_state = wait }) in
    let s3 = set_task s2 3 (record blank { next = some 4; task_state = ready }) in
    let s4 = set_task s3 4 (record blank { task_state = ready }) in
    let s7 = set_task s4 7 (record blank { task_state = running }) in
    record s7 { overall_task_list = some 2 }

pub three-IsQueue : IsQueue three (2 ∷ 3 ∷ 4 ∷ [])
three-IsQueue = record {
  chain = (refl, (refl, (refl, refl)));
  distinct = (refl, (refl, (refl, tt)));
  few = omega arith;
}

-- 7 was taken from the front, where 4 stood behind it
abbrev stale : Proc
stale = record (set_next three 7 (some 4)) { overall_task_list = some 4 }

stale-IsQueue : IsQueue stale (4 ∷ [])
stale-IsQueue = record { chain = (refl, refl); distinct = (refl, tt); few = omega arith }

add_to_task_list-append_example :
    (s' : Proc) × (add_to_task_list three 7 ≡ some s') × Added three 7 (2 ∷ 3 ∷ 4 ∷ []) s'
add_to_task_list-append_example =
    add_to_task_list-append three 7 (2 ∷ 3 ∷ 4 ∷ []) three-IsQueue refl (omega arith) (λ e. cc)
      (λ e. cc)

fetch_ready_task-first_example :
    (s' : Proc) × (fetch_ready_task three ≡ some (3, s')) × Fetched three (2 ∷ 3 ∷ 4 ∷ []) 3 s'
fetch_ready_task-first_example = fetch_ready_task-first three (2 ∷ 3 ∷ 4 ∷ []) 3 three-IsQueue refl

schedule-rotates_example :
    (s' : Proc) × (schedule three ≡ some s')
    × IsQueue s' (2 ∷ 4 ∷ 7 ∷ [])
    × ((s'.running_task ≡ 3) × (s'.tss_rsp ≡ 3) × (state_of s' 3 ≡ running))
    × (state_of s' 7 ≡ ready)
    × ((i : ℕ) → i ≢ 3 → i ≢ 7 → state_of s' i ≡ state_of three i)
schedule-rotates_example =
    schedule-rotates three (2 ∷ 3 ∷ 4 ∷ []) 3 three-IsQueue refl refl (λ e. cc) (λ e. cc)

schedule-duplicates_example :
    (s' : Proc) × (schedule stale ≡ some s') × (s'.running_task ≡ 4) × IsQueue s' (7 ∷ 4 ∷ [])
schedule-duplicates_example = schedule-duplicates stale 4 stale-IsQueue refl refl (omega arith) refl

abbrev three_rota : Rota
three_rota = record {
  current = 7;
  waiting = 2 ∷ 3 ∷ 4 ∷ [];
  can_run = λ i. eq_state (state_of three i) ready;
}

three_first : first three_rota.can_run three_rota.waiting ≡ some 3
unfolding first
three_first = refl

three-Shows : Shows three three_rota
three-Shows = record {
  queue = three-IsQueue;
  current = refl;
  runs = refl;
  outside = refl;
  flags = λ i n. refl;
  pair = omega arith;
  busy = (3, three_first);
}

rounds-Shows_example : (s' : Proc) × (rounds 3 three ≡ some s') × Shows s' (turns 3 three_rota)
rounds-Shows_example = rounds-Shows 3 three three_rota three-Shows

schedule-reaches_example :
    (n : ℕ) × (s' : Proc) × (n ≤ 2)
    × (rounds n three ≡ some s')
    × ((s'.running_task ≡ 3) × (state_of s' 3 ≡ running))
schedule-reaches_example =
    schedule-reaches three three_rota (2 ∷ []) (4 ∷ []) 3 three-Shows refl refl
