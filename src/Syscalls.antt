-- ===== src/Syscalls.antt =====
-- sys/syscalls.c: the system calls, put together from the parts that carry them out. A call comes with its
-- registers and with what they point at, and leaves them with `rax` and the buffers changed. What the tar
-- file system prints is left out, as it is there.
pub mod Output
pub mod Files
mod Tests
use nascent_os.Prelude.{
  ℕ, zero, suc, ◌+◌, ◌-◌, ◌^◌, ◌%◌, List, [], ◌∷◌, ◌==◌, ltb, not, if◌then◌else◌, Option, none,
  some, Bool, true, false, ◌⊎◌, inl, inr,
}
use nascent_os.Prelude.Int.{ℤ, pos, negsuc}
use nascent_os.Frames.{Frames, page_alloc}
use nascent_os.Proc.{
  running, ready, sleep, wait, idle, exit, zombie, suspended, Proc, Task, TaskState, num_pcb,
  eq_state, set_task,
}
use nascent_os.Proc.TaskList.{◌>>=◌, schedule}
use nascent_os.Proc.Lifecycle.{Kernel, wait_for_child, wait_for_child_resumed, sys_exit, sleep_s}
use nascent_os.Proc.Fork.{fork_process}
use nascent_os.Tarfs.{Archive}
use nascent_os.Tarfs.Files.{Opened, read_s, close_s, close_dir, fetch_cwd}
use nascent_os.Tarfs.Calls.{open_file, open_directory, read_directory, change_dir}
use nascent_os.Terminal.{Terminal, terminal_round}
use nascent_os.Kprintf.{Console, Arg, char_arg, int_arg, string_arg, kprintf}
use nascent_os.Exec.{sys_execvpe}
pub use nascent_os.Syscalls.Output.{write_to_console, sys_ps}

-- All the globals; those of the process manager and the console are the terminal's too.
pub record System : Type 0 where
  pub frames : Frames
  pub kpml_addr : ℕ
  pub terminal : Terminal

-- The registers of a call, and what they point at: the string at `rdi`, the bytes at `rsi`, the text at the
-- pointer of the calls that give a name, and the strings of the two arrays.
pub record Registers1 : Type 0 where
  pub rax : ℕ
  pub rdi : ℕ
  pub rdx : ℕ
  pub string : List ℕ
  pub buffer : ℕ → ℕ
  pub name : List ℕ
  pub argv : List (List ℕ)
  pub envp : Option (List (List ℕ))

-- What the source finds on the stack or in registers that nobody set: the return address and the stack
-- pointer that a fork takes, two missing arguments of `fetch_free_vma`, and a local buffer.
pub record Leftover : Type 0 where
  pub return_address : ℕ
  pub child_stack : ℕ
  pub filesz : ℕ
  pub base : ℕ
  pub local : List ℕ

-- The registers that the call returns with, at once or, if another task was scheduled, when its own runs
-- again. `none`: they are not known yet, since the call goes on when its task runs again, or it never
-- returns.
pub record Answer : Type 0 where
  pub regs : Option Registers1
  pub system : System

abbrev pub proc_of : System → Proc
proc_of s = s.terminal.proc

abbrev pub with_procs : System → Proc → System
with_procs s p = record s { terminal = record s.terminal { proc = p } }

abbrev pub kernel_of : System → Kernel
kernel_of s = record { frames = s.frames; proc = proc_of s; kpml_addr = s.kpml_addr }

abbrev pub with_kernel : System → Kernel → System
with_kernel s k = record (with_procs s k.proc) { frames = k.frames; kpml_addr = k.kpml_addr }

-- An `int` in a 64-bit register, and the other way round.
pub to_rax : ℤ → ℕ
to_rax (pos n) = n
to_rax (negsuc n) = 2 ^ 64 - suc n

pub to_int : ℕ → ℤ
to_int w = let v = w % 2 ^ 32 in if ltb v (2 ^ 31) then pos v else negsuc (2 ^ 32 - 1 - v)

abbrev pub answer : Registers1 → ℕ → System → Answer
answer r v s = record { regs = some (record r { rax = v }); system = s }

abbrev pub away : System → Answer
away s = record { regs = none; system = s }

-- A descriptor or -1
pub opened : Registers1 → System → Opened → Answer
opened r s (some fd, p) = answer r fd (with_procs s p)
opened r s (none, p) = answer r (to_rax (negsuc 0)) (with_procs s p)

-- The task that a fork made takes the number off its stack and returns 0.
pub forked : Registers1 → System → ℕ → Answer
forked r s child_pid =
    let p = proc_of s in
    let t = p.pcb p.running_task in
    let t1 = record t { kstack = λ w. if w == 511 then 0 else t.kstack w } in
    if t.kstack 511 == 10101
    then answer r 0 (with_procs s (set_task p p.running_task t1))
    else answer r child_pid s

abbrev with_console : System → Console → System
with_console s c = record s { terminal = record s.terminal { console = c } }

-- SYS_fork
fork_call : Leftover → Registers1 → System → Option Answer
unfolding forked
fork_call e r s =
    fork_process (kernel_of s) e.return_address e.child_stack
    >>= (λ f. some (forked r (with_kernel s f.1) f.0))

-- A round of a read of the terminal: a line, with 0 for its length, or another task runs.
line_read : Registers1 → System → ((ℕ × (ℕ → ℕ)) × Terminal) ⊎ Terminal → Answer
line_read r s (inl ((v, buffer), t)) =
    answer (record r { buffer = buffer }) 0 (record s { terminal = t })
line_read r s (inr t) = away (record s { terminal = t })

-- The lower half of a register, cast to an `int` that is not negative. A negative one is `none`: as a descriptor it
-- reaches in front of the array, and as a count of bytes it is a huge one.
pub cast_int : ℕ → Option ℕ
cast_int w = let v = w % 2 ^ 32 in if ltb v (2 ^ 31) then some v else none

pub file_read : Registers1 → System → (ℕ × (ℕ → ℕ)) × Proc → Answer
file_read r s ((count, buffer), p) = answer (record r { buffer = buffer }) count (with_procs s p)

-- SYS_read, with the descriptor and the bytes asked for cast
pub read_cast : Archive → Registers1 → System → ℕ → Option Answer
unfolding line_read file_read
read_cast a r s fd =
    let line =
      cast_int r.rdx
      >>= (λ n. terminal_round s.terminal r.buffer n >>= (λ x. some (line_read r s x))) in
    let file =
      read_s a (proc_of s) fd r.buffer (r.rdx % 2 ^ 32) >>= (λ x. some (file_read r s x)) in
    if fd == 0 then line else file

pub read_call : Archive → Registers1 → System → Option Answer
unfolding cast_int read_cast
read_call a r s = cast_int r.rdi >>= read_cast a r s

-- SYS_read_dir
read_dir_call : Archive → Registers1 → System → Option Answer
read_dir_call a r s =
    cast_int r.rdi
    >>= (λ fd. read_directory a (proc_of s) fd r.name)
    >>= (λ d. some (answer (record r { name = d.0.1 }) d.0.0 (with_procs s d.1)))

-- A child that was there to be reaped, then the call of `schedule`; without one the task waits.
waited : Registers1 → System → Option ℕ × Kernel → Option Answer
waited r s (some i, k) =
    schedule k.proc >>= (λ p. some (answer r i (with_procs (with_kernel s k) p)))
waited r s (none, k) = some (away (with_kernel s k))

-- SYS_wait_s
wait_call : Registers1 → System → Option Answer
unfolding waited
wait_call r s = wait_for_child (kernel_of s) >>= waited r s

-- SYS_wait_s of a task that is woken: the child that died, then the call of `schedule`.
pub wait_resumed : Registers1 → System → Option Answer
wait_resumed r s = do
  w ← wait_for_child_resumed (kernel_of s)
  p ← schedule w.1.proc
  some (answer r w.0 (with_procs (with_kernel s w.1) p))

-- SYS_execve: the new program runs, or -1.
execve_call : Archive → Leftover → Registers1 → System → Option Answer
execve_call a e r s =
    sys_execvpe a (kernel_of s) false r.string r.argv r.envp e.local e.filesz e.base >>= (λ x.
      some (
        if x.0 then away (with_kernel s x.1) else answer r (to_rax (negsuc 0)) (with_kernel s x.1)))

-- SYS_sbrk: one page, whatever the size.
sbrk_call : Registers1 → System → Answer
sbrk_call r s = let (p, f) = page_alloc s.frames in answer r p (record s { frames = f })

-- SYS_kill_s; `none` also for a negative number, which the source takes as an index all the same.
kill_call : Registers1 → System → ℤ → Option Answer
kill_call r s (negsuc n) = none
kill_call r s (pos t) = sys_exit (proc_of s) t >>= (λ p. some (answer r r.rax (with_procs s p)))

-- SYS_exit
exit_call : System → Option Answer
exit_call s =
    let p = proc_of s in
    sys_exit p (p.pcb p.running_task).pid >>= (λ p1. some (away (with_procs s p1)))

-- SYS_open_dir, SYS_open
open_call : Registers1 → System → Option Opened → Option Answer
unfolding opened
open_call r s o = o >>= (λ x. some (opened r s x))

-- A call that leaves `rax` as it is.
kept : Registers1 → System → Option Proc → Option Answer
kept r s o = o >>= (λ p. some (answer r r.rax (with_procs s p)))

-- The calls on files and directories, and the number of each.
pub file_call : Archive → Leftover → Registers1 → System → Option (Option Answer)
unfolding open_call read_call read_dir_call kept
file_call a e r s =
    let p = proc_of s in
    if r.rax == 70
    then some (open_call r s (open_directory a p r.string e.local))
    else if r.rax == 71
    then some (read_dir_call a r s)
    else if r.rax == 72
    then some (cast_int r.rdi >>= (λ fd. some (answer r 0 (with_procs s (close_dir p fd)))))
    else if r.rax == 2
    then some (open_call r s (open_file a p r.string e.local))
    else if r.rax == 0
    then some (read_call a r s)
    else if r.rax == 3
    then some (cast_int r.rdi >>= (λ fd. some (answer r 0 (with_procs s (close_s p fd)))))
    else if r.rax == 50
    then some (kept r s (change_dir a p r.string e.local))
    else if r.rax == 51
    then some (some (answer (record r { name = fetch_cwd p r.name }) r.rax s))
    else none

-- The calls on processes.
pub process_call : Archive → Leftover → Registers1 → System → Option (Option Answer)
unfolding fork_call wait_call exit_call kill_call kept execve_call
process_call a e r s =
    let p = proc_of s in
    let t = p.pcb p.running_task in
    if r.rax == 57
    then some (fork_call e r s)
    else if r.rax == 39
    then some (some (answer r t.pid s))
    else if r.rax == 110
    then some (some (answer r (to_rax t.ppid) s))
    else if r.rax == 61
    then some (wait_call r s)
    else if r.rax == 60
    then some (exit_call s)
    else if r.rax == 73
    then some (kept r s (sleep_s p (to_int r.rdi)))
    else if r.rax == 76
    then some (kill_call r s (to_int r.rdi))
    else if r.rax == 59
    then some (execve_call a e r s)
    else if r.rax == 99
    then some (kept r s (schedule p))
    else none

-- The calls that print or give memory, and those that there are not.
other_call : Registers1 → System → Option Answer
unfolding sbrk_call
other_call r s =
    let c = s.terminal.console in
    if r.rax == 1
    then (write_to_console r.rdx 0 c r.buffer >>= (λ c1. some (answer r 0 (with_console s c1))))
    else if r.rax == 75
    then (sys_ps (proc_of s) c >>= (λ c1. some (answer r r.rax (with_console s c1))))
    else if r.rax == 100
    then some (sbrk_call r s)
    else some (answer r 0 s)

or_else : Option (Option Answer) → Option Answer → Option Answer
or_else (some x) y = x
or_else none y = y

-- `none` is code that goes wrong: a walk without end, or a write through NULL.
pub syscall_handler : Archive → Leftover → Registers1 → System → Option Answer
unfolding or_else other_call
syscall_handler a e r s =
    or_else (file_call a e r s) (or_else (process_call a e r s) (other_call r s))
