-- ===== src/Syscalls/Output.antt =====
-- What the system calls print, sys/syscalls.c: `write_to_console` and `sys_ps`.
use nascent_os.Prelude.{ℕ, zero, suc, List, [], ◌∷◌, Option, none, some, true, false}
use nascent_os.Prelude.Int.{pos}
use nascent_os.Proc.{
  running, ready, sleep, wait, idle, exit, zombie, suspended, Proc, Task, TaskState, num_pcb,
  eq_state,
}
use nascent_os.Proc.TaskList.{◌>>=◌}
use nascent_os.Kprintf.{Console, Arg, char_arg, int_arg, string_arg, kprintf}

-- for (int i = 0; i < count; i++), from `i` on
pub write_to_console : ℕ → ℕ → Console → (ℕ → ℕ) → Option Console
write_to_console zero i c buffer = some c
write_to_console (suc n) i c buffer =
    kprintf c (37 ∷ 99 ∷ []) (char_arg (buffer i) ∷ [])
    >>= (λ c1. write_to_console n (suc i) c1 buffer)

-- The array of names that `sys_ps` prints the states with.
abbrev state_name : TaskState → List ℕ
state_name running = b'R' ∷ b'U' ∷ b'N' ∷ b'N' ∷ b'I' ∷ b'N' ∷ b'G' ∷ []
state_name ready = b'R' ∷ b'E' ∷ b'A' ∷ b'D' ∷ b'Y' ∷ []
state_name sleep = b'S' ∷ b'L' ∷ b'E' ∷ b'E' ∷ b'P' ∷ []
state_name wait =
    b'W' ∷ b'A' ∷ b'I' ∷ b'T' ∷ b' ' ∷ b'F' ∷ b'O' ∷ b'R' ∷ b' ' ∷ b'I' ∷ b'N' ∷ b'P' ∷ b'U' ∷ b'T'
    ∷ []
state_name idle = b'I' ∷ b'D' ∷ b'L' ∷ b'E' ∷ []
state_name exit = b'E' ∷ b'X' ∷ b'I' ∷ b'T' ∷ []
state_name zombie = b'Z' ∷ b'O' ∷ b'M' ∷ b'B' ∷ b'I' ∷ b'E' ∷ []
state_name suspended = b'W' ∷ b'A' ∷ b'I' ∷ b'T' ∷ b'I' ∷ b'N' ∷ b'G' ∷ []

-- "PID   PROCESS      MODE \n"
abbrev ps_head : List ℕ
ps_head =
    b'P' ∷ b'I' ∷ b'D' ∷ b' ' ∷ b' ' ∷ b' ' ∷ b'P' ∷ b'R' ∷ b'O' ∷ b'C' ∷ b'E' ∷ b'S' ∷ b'S' ∷ b' '
    ∷ b' ' ∷ b' ' ∷ b' ' ∷ b' ' ∷ b' ' ∷ b'M' ∷ b'O' ∷ b'D' ∷ b'E' ∷ b' ' ∷ 10 ∷ []

-- "%d     %s           %s\n"
abbrev ps_row : List ℕ
ps_row =
    b'%' ∷ b'd' ∷ b' ' ∷ b' ' ∷ b' ' ∷ b' ' ∷ b' ' ∷ b'%' ∷ b's' ∷ b' ' ∷ b' ' ∷ b' ' ∷ b' ' ∷ b' '
    ∷ b' ' ∷ b' ' ∷ b' ' ∷ b' ' ∷ b' ' ∷ b' ' ∷ b'%' ∷ b's' ∷ 10 ∷ []

-- "%d     %s         %s\n"
abbrev ps_last : List ℕ
ps_last =
    b'%' ∷ b'd' ∷ b' ' ∷ b' ' ∷ b' ' ∷ b' ' ∷ b' ' ∷ b'%' ∷ b's' ∷ b' ' ∷ b' ' ∷ b' ' ∷ b' ' ∷ b' '
    ∷ b' ' ∷ b' ' ∷ b' ' ∷ b' ' ∷ b'%' ∷ b's' ∷ 10 ∷ []

abbrev ps_args : Task → List Arg
ps_args t = int_arg (pos t.pid) ∷ string_arg t.filename ∷ string_arg (state_name t.task_state) ∷ []

-- while (p != NULL); a zombie is not shown. `none` also if the fuel does not see the end of the list.
pub ps_loop : ℕ → Proc → Console → Option ℕ → Option Console
ps_loop zero s c p = none
ps_loop (suc n) s c none = some c
ps_loop (suc n) s c (some p) = elim (eq_state (s.pcb p).task_state zombie) [
  | true ↦ ps_loop n s c (s.pcb p).next
  | false ↦ kprintf c ps_row (ps_args (s.pcb p)) >>= (λ c1. ps_loop n s c1 (s.pcb p).next)
]

pub sys_ps : Proc → Console → Option Console
sys_ps s c = do
  c1 ← kprintf c ps_head []
  c2 ← ps_loop (suc num_pcb) s c1 s.overall_task_list
  kprintf c2 ps_last (ps_args (s.pcb s.running_task))
