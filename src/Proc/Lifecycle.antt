-- ===== src/Proc/Lifecycle.antt =====
-- The life of a process, sys/proc_mngr.c, `sys_exit` of sys/process.c, `timer_int` of sys/pit.c and the
-- system call that sleeps: a block taken and initialised, exit, the wait of the parent, and the block
-- cleared and given back. `schedule` ends in the context switch: where code follows it that the same
-- task runs when it is chosen again, that code is a definition of its own.
mod Tests
pub mod Exit
pub mod Children
pub mod Wait
pub mod Create
pub mod Reap
pub mod Tick
use nascent_os.Prelude.{
  ℕ, zero, suc, ◌*◌, Bool, true, false, ◌&&◌, not, ◌==◌, if◌then◌else◌, Option, none, some, List,
  [], ◌∷◌, ◌++◌, replicate, ltb,
}
use nascent_os.Prelude.Int.{ℤ, pos, negsuc, eq_ℤ, pred_ℤ}
use nascent_os.Prelude.Word.{add64, sub64}
use nascent_os.Frames.{Frames, kernbase, write, page_alloc}
use nascent_os.VirMem.{clear_mapping}
use nascent_os.Text.{str_copy}
use nascent_os.Proc.{
  Proc, Task, Fd, ready, sleep, zombie, suspended, eq_state, num_pcb, max_fds, std_fd, other_fd,
  set_task, set_state,
}
use nascent_os.Proc.TaskList.{◌>>=◌, add_to_task_list, schedule}
use nascent_os.Proc.FreeLists.{append_in_free_list}

-- The globals of the allocator and of the process manager, and the kernel's own page table.
pub record Kernel : Type 0 where
  pub frames : Frames
  pub proc : Proc
  pub kpml_addr : ℕ

abbrev pub with_proc : Kernel → Proc → Kernel
with_proc k p = record k { proc = p }

-- The last entry, the kernel's window, is shared.
pub create_new_pml_table : Kernel → ℕ × Kernel
create_new_pml_table k =
    let (pml_addr, f) = page_alloc k.frames in
    let mem1 = write f.mem (add64 pml_addr (8 * 511)) (f.mem (add64 k.kpml_addr (8 * 511))) in
    (pml_addr, record k { frames = record f { mem = mem1 } })

-- A descriptor of a new process; the first three are the standard ones.
abbrev pub fresh_fd : ℕ → ℕ → Fd
fresh_fd fdtype alloted = record {
  alloted = alloted;
  file_sz = 0;
  num_bytes_read = 0;
  file_ptr = 0;
  last_matched_header = 0;
  is_dir = 0;
  fdtype = fdtype;
}

abbrev pub fresh_fds : List Fd
fresh_fds = replicate 3 (fresh_fd std_fd 1) ++ replicate 7 (fresh_fd other_fd 0)

-- The page for the `mm_struct` is cleared, so its other fields are zero; `krsp` is the index of a word
-- of the task's own kernel stack.
pub initialised : Task → ℕ → ℕ → Task
initialised t i cr3 = record t {
  task_mm = record { vma_head = none; count = 0; begin_stack = 0; argv_start = 0; argv_end = 0 };
  regs = record t.regs { cr3 = cr3; krsp = 509 };
  next = none;
  prev = none;
  parent_task = none;
  pid = i;
  ppid = negsuc 0;
  task_state = ready;
  cwd = str_copy (32 ∷ []) t.cwd;
  fd_array = fresh_fds;
}

pub fetch_free_pcb : Kernel → Option ℕ × Kernel
fetch_free_pcb k = elim k.proc.free_pcb_head [
  | none ↦ (none, with_proc k (record k.proc { log = "Uh Oh! No PCB's left!!" ∷ k.proc.log }))
  | some i ↦
      let p = record k.proc { free_pcb_head = (k.proc.pcb i).next } in
      let (mm, f) = page_alloc k.frames in
      let (pml, k1) = create_new_pml_table (record k { frames = f; proc = p }) in
      (some i, with_proc k1 (set_task p i (initialised (p.pcb i) i (sub64 pml kernbase))))
]

-- `memset` of `KSTACK_SIZE` bytes reaches 64 of the 512 words of the kernel stack.
pub cleared : Task → Task
cleared t = record t {
  next = none;
  prev = none;
  parent_task = none;
  sleep_sec = pos 0;
  task_state = ready;
  ppid = negsuc 0;
  filename = replicate 75 0;
  task_mm = record { vma_head = none; count = 0; begin_stack = 0; argv_start = 0; argv_end = 0 };
  fd_array = replicate max_fds (fresh_fd 0 0);
  kstack = λ w. if ltb w 64 then 0 else t.kstack w;
}

pub clear_pcb : Kernel → ℕ → Kernel
clear_pcb k i = record k {
  proc = set_task k.proc i (cleared (k.proc.pcb i));
  frames = clear_mapping k.frames (add64 (k.proc.pcb i).regs.cr3 kernbase);
}

-- A zombie whose parent is the running task.
abbrev pub dead_child : Proc → ℕ → Bool
dead_child s i =
    eq_state (s.pcb i).task_state zombie && eq_ℤ (s.pcb i).ppid (pos (s.pcb s.running_task).pid)

pub reap : Kernel → ℕ → Option Kernel
reap k i = do p ← append_in_free_list (clear_pcb k i).proc i; some (with_proc (clear_pcb k i) p)

-- The loop of `wait_for_child` over `pcb_arr`, at index `i` and with `n` blocks to go.
pub reap_first : ℕ → ℕ → Kernel → Option (Option ℕ × Kernel)
reap_first zero i k = some (none, k)
reap_first (suc n) i k = elim (dead_child k.proc i) [
  | true ↦ reap k i >>= (λ k1. some (some i, k1))
  | false ↦ reap_first n (suc i) k
]

suspend : Option ℕ × Kernel → Option (Option ℕ × Kernel)
suspend (some i, k) = some (some i, k)
suspend (none, k) =
    schedule (set_state k.proc k.proc.running_task suspended) >>= (λ p. some (none, with_proc k p))

-- Up to the context switch: the child that is returned, or none, and another task runs.
pub wait_for_child : Kernel → Option (Option ℕ × Kernel)
unfolding suspend
wait_for_child k = reap_first num_pcb 0 k >>= suspend

or_zero : Option ℕ × Kernel → ℕ × Kernel
or_zero (some i, k) = (i, k)
or_zero (none, k) = (0, k)

-- What the task does when it runs again.
pub wait_for_child_resumed : Kernel → Option (ℕ × Kernel)
unfolding or_zero
wait_for_child_resumed k = reap_first num_pcb 0 k >>= (λ r. some (or_zero r))

pub reap_all : ℕ → ℕ → Kernel → Option Kernel
reap_all zero i k = some k
reap_all (suc n) i k = elim (dead_child k.proc i) [
  | true ↦ reap k i >>= (λ k1. reap_all n (suc i) k1)
  | false ↦ reap_all n (suc i) k
]

pub clean_child_pcb : Kernel → Option Kernel
clean_child_pcb k = reap_all num_pcb 0 k

-- A process of the kernel itself: its name and the address where it starts.
kernel_task : Kernel → ℕ → List ℕ → ℕ → Option Kernel
kernel_task k i name rip =
    let t = k.proc.pcb i in
    let p = set_task k.proc i (record t {
      task_state = ready;
      regs = record t.regs { rip = rip };
      filename = str_copy name t.filename;
    }) in
    add_to_task_list p i >>= (λ q. some (with_proc k q))

-- `none` also where there is no block: the source writes through NULL then.
pub create_idle_process : Kernel → ℕ → Option Kernel
unfolding kernel_task
create_idle_process k idle_process = do
  let r = fetch_free_pcb k
  i ← r.0
  kernel_task (with_proc r.1 (record r.1.proc { idle_task = i })) i (73 ∷ 100 ∷ 108 ∷ 101 ∷ [])
      idle_process

pub create_init_process : Kernel → ℕ → Option Kernel
unfolding kernel_task
create_init_process k init_process = do
  let r = fetch_free_pcb k
  i ← r.0
  kernel_task (with_proc r.1 (record r.1.proc { init_task = i })) i (73 ∷ 110 ∷ 105 ∷ 116 ∷ [])
      init_process

-- The parent of `t` is made ready if it waits for a child.
pub wake_parent : Proc → ℕ → Proc
wake_parent s t = elim (s.pcb t).parent_task [
  | none ↦ s
  | some p ↦ if eq_state (s.pcb p).task_state suspended then set_state s p ready else s
]

-- A child of `t` that is not ready goes to the init task.
pub reparent : Proc → ℕ → ℕ → Proc
reparent s t i =
    if eq_ℤ (s.pcb i).ppid (pos (s.pcb t).pid) && not (eq_state (s.pcb i).task_state ready)
    then set_task s i (record (s.pcb i) { ppid = pos (s.pcb s.init_task).pid })
    else s

pub reparent_loop : ℕ → ℕ → Proc → ℕ → Proc
unfolding reparent
reparent_loop zero i s t = s
reparent_loop (suc n) i s t = reparent_loop n (suc i) (reparent s t i) t

-- Up to the call of `schedule`.
pub exited : Proc → ℕ → Proc
exited s pid = reparent_loop num_pcb 0 (wake_parent (set_state s pid zombie) pid) pid

pub sys_exit : Proc → ℕ → Option Proc
sys_exit s pid = schedule (exited s pid)

-- SYS_sleep_s
pub sleep_s : Proc → ℤ → Option Proc
sleep_s s seconds =
    let t = s.running_task in
    schedule (set_task s t (record (s.pcb t) { sleep_sec = seconds; task_state = sleep }))

-- One second of a sleeping task.
pub tick : Proc → ℕ → Proc
tick s p =
    let t = s.pcb p in
    let left = pred_ℤ t.sleep_sec in
    if eq_state t.task_state sleep
    then set_task s p (record t {
      sleep_sec = left;
      task_state = if eq_ℤ left (pos 0) then ready else t.task_state;
    })
    else s

pub tick_loop : ℕ → Proc → Option ℕ → Option Proc
unfolding tick
tick_loop zero s p = none
tick_loop (suc k) s none = some s
tick_loop (suc k) s (some p) = tick_loop k (tick s p) (s.pcb p).next

-- The interrupt, with the counters `timer_count` and `time_from_reboot`. Every nineteenth one is a
-- second: the clock is printed, the sleeping tasks are counted down, and another task is scheduled.
pub timer_int : Proc → ℕ → ℕ → Option ((ℕ × ℕ) × Proc)
timer_int s timer_count time_from_reboot =
    if timer_count == 18
    then (do
      s1 ← tick_loop (suc num_pcb) s s.overall_task_list
      s2 ← schedule s1
      some ((0, suc time_from_reboot), s2))
    else some ((suc timer_count, time_from_reboot), s)
