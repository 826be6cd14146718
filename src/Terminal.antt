-- ===== src/Terminal.antt =====
-- sys/terminal.c: the line buffer between the keyboard and the tasks that read. The pointers are `int`s
-- that are not negative here: a key that makes `w_buff_ptr` negative ends in `none` (in Keyboard). A
-- caller's buffer is a function from the index to the byte.

pub mod Lines
pub mod Keyboard
pub mod Tests
use nascent_os.Prelude.{
  ℕ, zero, suc, ◌+◌, ◌-◌, ◌%◌, [], ◌∷◌, ◌==◌, ltb, not, inl, inr, ◌⊎◌, if◌then◌else◌, Option, some,
}
use nascent_os.Kprintf.{Console, char_arg, kprintf, put}
use nascent_os.Proc.{Proc, wait, set_state}
use nascent_os.Proc.TaskList.{◌>>=◌, wake_up_task, schedule}

-- BUFF_SIZE
abbrev pub buff_size : ℕ
buff_size = 2048

pub record Terminal : Type 0 where
  pub term_buff : ℕ → ℕ
  pub r_buff_ptr : ℕ
  pub w_buff_ptr : ℕ
  pub terminal_line_count : ℕ
  pub proc : Proc
  pub console : Console

-- The end of a line is counted, and the first task that waits for input is woken.
line_end : Terminal → ℕ → Option Terminal
line_end s c =
    if c == 10
    then (do
      p ← wake_up_task s.proc
      some (record s { terminal_line_count = suc s.terminal_line_count; proc = p }))
    else some s

-- The character goes into the ring buffer, unless it is a carriage return.
pub store : Terminal → ℕ → Terminal
store s c =
    let w = if ltb (buff_size - 2) s.w_buff_ptr then s.w_buff_ptr % buff_size else s.w_buff_ptr in
    if c == 13
    then record s { w_buff_ptr = w }
    else record s { term_buff = put s.term_buff w c; w_buff_ptr = suc w }

-- `none` is a walk along the task list that its fuel does not see the end of.
pub terminal_handler : Terminal → ℕ → Option Terminal
unfolding line_end store
terminal_handler s c = do
  s1 ← line_end s c
  console ← kprintf s1.console (37 ∷ 99 ∷ []) (char_arg c ∷ [])
  some (store (record s1 { console = console }) c)

-- while (term_buff[r_buff_ptr] != '\n' && i < size - 1), with `n` the rest of `size - 1`: the values of
-- `i` and `r_buff_ptr`, and the buffer.
pub read_loop : ℕ → (ℕ → ℕ) → ℕ → ℕ → (ℕ → ℕ) → (ℕ × ℕ) × (ℕ → ℕ)
read_loop zero term r i buffer = ((i, r), buffer)
read_loop (suc n) term r i buffer =
    let rest = read_loop n term (suc r % buff_size) (suc i) (put buffer i (term r)) in
    if term r == 10 then ((i, r), buffer) else rest

read_end : Terminal → (ℕ × ℕ) × (ℕ → ℕ) → (ℕ × (ℕ → ℕ)) × Terminal
read_end s ((i, r), buffer) = (
  (0, put buffer (i + 1) 0),
  record s { r_buff_ptr = suc r; terminal_line_count = s.terminal_line_count - 1 },
)

-- The value that is returned, the buffer and the state; `size` is at least 1.
pub read_buffer : Terminal → (ℕ → ℕ) → ℕ → (ℕ × (ℕ → ℕ)) × Terminal
unfolding read_end
read_buffer s buffer size =
    if not (s.terminal_line_count == 0)
    then read_end s (read_loop (size - 1) s.term_buff s.r_buff_ptr 0 buffer)
    else ((1, buffer), s)

-- One round of the endless loop of `schedule_terminal_task`: a line is read, or the task waits and
-- another one runs. `inl` is the round that returns.
pub terminal_round : Terminal → (ℕ → ℕ) → ℕ → Option (((ℕ × (ℕ → ℕ)) × Terminal) ⊎ Terminal)
unfolding read_buffer
terminal_round s buffer size =
    if not (s.terminal_line_count == 0) then some (inl (read_buffer s buffer size)) else (do
      p ← schedule (set_state s.proc s.proc.running_task wait)
      some (inr (record s { proc = p })))
