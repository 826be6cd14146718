-- ===== src/Exec.antt =====
-- `sys_execvpe` of sys/process.c with what it calls: the arguments written to the new stack, the task
-- cleared, the program loaded. A string is the list of its bytes. The kernel's `args` has ten rows of a
-- hundred bytes, so that there are at most ten arguments here, of less than a hundred bytes each, and at most
-- ten strings of the environment.
pub mod Stack
pub mod Written
pub mod Strings
mod Tests
use nascent_os.Prelude.{
  ℕ, zero, suc, ◌+◌, ◌-◌, ◌*◌, ◌/◌, ◌%◌, ◌==◌, ltb, if◌then◌else◌, Option, none, some, List, [],
  ◌∷◌, ◌++◌, Bool, true, false, length, replicate,
}
use nascent_os.Prelude.Int.{pos}
use nascent_os.Prelude.Word.{add64, sub64}
use nascent_os.Frames.{Frames, kernbase, page_size, page_alloc}
use nascent_os.Memory.{set_byte}
use nascent_os.VirMem.{clear_mapping, set_mapping}
use nascent_os.Text.{str_len, str_copy, tail}
use nascent_os.Proc.{Proc, Task, vma_stack, num_vma, num_pcb, set_task}
use nascent_os.Proc.TaskList.{◌>>=◌}
use nascent_os.Proc.FreeLists.{set_vma, fetch_free_vma}
use nascent_os.Proc.Lifecycle.{Kernel, with_proc, fresh_fds}
use nascent_os.Tarfs.{Archive}
use nascent_os.Tarfs.Files.{validate_binary}
use nascent_os.Tarfs.Path.{path_sanitize}
use nascent_os.Elf.{load_elf1, last_area, count_area, vm_rw}

-- memcopy of the string and its NUL to `p`
pub put_string : (ℕ → ℕ) → ℕ → List ℕ → ℕ → ℕ
put_string mem p [] = set_byte mem p 0
put_string mem p (c ∷ s) =
    let rest = put_string (set_byte mem p c) (add64 p 1) s in
    if c == 0 then set_byte mem p 0 else rest

-- What the loops over strings and pointers leave: the stack pointer, the addresses, in the order of the
-- strings, and the memory.
pub record Pushed : Type 0 where
  pub user_stack : ℕ
  pub argv : List ℕ
  pub mem : ℕ → ℕ

-- for (i = n - 1; i >= 0; i--): the last string first. Each takes `unit` bytes for every one of its
-- own: the environment's strings are placed by arithmetic on a pointer to words.
pub push_strings : ℕ → List (List ℕ) → ℕ → (ℕ → ℕ) → Pushed
push_strings unit [] user_stack mem = record { user_stack = user_stack; argv = []; mem = mem }
push_strings unit (s ∷ ss) user_stack mem =
    let later = push_strings unit ss user_stack mem in
    let p = sub64 later.user_stack (unit * (str_len s + 1)) in
    record { user_stack = p; argv = p ∷ later.argv; mem = put_string later.mem p s }

-- `*p = w`, for a pointer that need not be aligned: `n` bytes of `w`, the lowest one first
pub put_word : ℕ → (ℕ → ℕ) → ℕ → ℕ → ℕ → ℕ
put_word zero mem p w = mem
put_word (suc n) mem p w = put_word n (set_byte mem p (w % 256)) (add64 p 1) (w / 256)

-- user_stack--; *user_stack = w
pub push_word : ℕ → ℕ × (ℕ → ℕ) → ℕ × (ℕ → ℕ)
unfolding put_word
push_word w (user_stack, mem) = (sub64 user_stack 8, put_word 8 mem (sub64 user_stack 8) w)

-- The pointers, the last one first.
pub push_words : List ℕ → ℕ × (ℕ → ℕ) → ℕ × (ℕ → ℕ)
unfolding push_word
push_words [] s = s
push_words (p ∷ ps) s = push_word p (push_words ps s)

-- user_stack - 0x8, which is a gap of eight words
abbrev pub gap : ℕ → ℕ
gap user_stack = sub64 user_stack 64

-- `none` is an environment that is NULL. The pointers are kept in arrays of ten, and the arguments in the array
-- `args` of ten rows with 100 bytes: more or longer ones overflow them, which is not followed here.
pub copy_arg_to_stack : (ℕ → ℕ) → ℕ → List (List ℕ) → Option (List (List ℕ)) → ℕ × (ℕ → ℕ)
copy_arg_to_stack mem user_stack args envp =
    let env_strings : List (List ℕ) = elim envp [ none ↦ [] | some ss ↦ ss ] in
    let env = push_strings 8 env_strings (gap user_stack) mem in
    let arg = push_strings 1 args env.user_stack env.mem in
    let (p1, mem1) = push_words env.argv (gap arg.user_stack, arg.mem) in
    push_word (length args) (push_words arg.argv (gap p1, mem1))

-- The fields of a task that a new program starts with. As in `clear_pcb`, 64 words of the stack are reset.
pub cleaned : Task → Task
cleaned t = record t {
  next = none;
  prev = none;
  sleep_sec = pos 0;
  filename = replicate 75 0;
  task_mm = record { vma_head = none; count = 0; begin_stack = 0; argv_start = 0; argv_end = 0 };
  fd_array = fresh_fds;
  kstack = λ w. if ltb w 64 then 0 else t.kstack w;
}

pub clean_task_for_exec : Kernel → ℕ → Kernel
unfolding cleaned
clean_task_for_exec k i = record k {
  proc = set_task k.proc i (cleaned (k.proc.pcb i));
  frames = clear_mapping k.frames (add64 (k.proc.pcb i).regs.cr3 kernbase);
}

-- USTACK and USTACK_SIZE
abbrev pub ustack : ℕ
ustack = 0xffff_fe00_0000_0000

abbrev pub ustack_size : ℕ
ustack_size = 0x10000

-- The first tasks work in the root directory.
pub root_cwd : Proc → Proc
root_cwd s =
    let t = s.pcb s.running_task in
    if ltb t.pid 3
    then set_task s s.running_task (record t { cwd = 47 ∷ 0 ∷ tail (tail t.cwd) })
    else s

-- The area of the stack, behind the last area of the program, and the first page of it.
pub add_stack : Kernel → ℕ → ℕ → ℕ → Option Kernel
add_stack k t stack_base stack_start = do
  first ← (k.proc.pcb t).task_mm.vma_head
  tmp ← last_area (suc num_vma) k.proc first
  let fetched = fetch_free_vma k.proc (ustack - ustack_size) ustack vm_rw vma_stack 0 0
  let s1 = count_area (set_vma fetched.1 tmp (record (fetched.1.vma tmp) { next = fetched.0 })) t
  let task = s1.pcb t
  let rsp = sub64 ustack (page_size - sub64 stack_start stack_base)
  let f =
      set_mapping k.frames (add64 task.regs.cr3 kernbase) (ustack - page_size)
        (sub64 stack_base kernbase) 7
  some
      (record (with_proc k
        (set_task s1 t (record task { regs = record task.regs { rsp = rsp } }))) { frames = f })

-- return_to_user, up to the jump
pub return_to_user : Proc → Proc
return_to_user s =
    let t = s.pcb s.running_task in
    record (set_task s s.running_task (record t { regs = record t.regs { krsp = 509 } })) {
      tss_rsp = s.running_task;
    }

-- The rest of `sys_execvpe` once the stack is written, up to the jump into the program. `none` also where the
-- file is no program: the source goes on with -1 as the address of the program, and reads through NULL.
pub start_program : Archive → Kernel → Bool → ℕ → ℕ → List ℕ → ℕ → ℕ → Option Kernel
start_program a k is_first_proc stack_base stack_start path fsz base =
    let t = k.proc.running_task in
    let k1 = if is_first_proc then k else clean_task_for_exec k t in
    do
      loaded ← load_elf1 a k1 t path fsz base
      r ← loaded
      let task = r.1.proc.pcb t
      let p = set_task r.1.proc t (record task { regs = record task.regs { rip = r.0 } })
      k3 ← add_stack (with_proc r.1 p) t stack_base stack_start
      some (with_proc k3 (return_to_user k3.proc))

-- load_elf's path, without its slash
pub program_path : Proc → List ℕ → List ℕ → Option (List ℕ)
program_path s name b = do buff ← path_sanitize s name (replicate 100 0) b; some (tail buff)

-- A new page with the arguments: its address, and that of the word with their number.
pub with_args : Kernel → List (List ℕ) → Option (List (List ℕ)) → (ℕ × ℕ) × Kernel
with_args k args envp =
    let (stack_base, f) = page_alloc k.frames in
    let (stack_start, mem) = copy_arg_to_stack f.mem (add64 stack_base page_size) args envp in
    ((stack_base, stack_start), record k { frames = record f { mem = mem } })

-- `true` is the jump into the program, `false` the return of -1. `b` is what the local buffer of `path_sanitize` holds, and `args` the
-- strings of `argv`, none of them if it is NULL.
pub sys_execvpe :
    Archive
    → Kernel
    → Bool
    → List ℕ
    → List (List ℕ)
    → Option (List (List ℕ))
    → List ℕ
    → ℕ
    → ℕ
    → Option (Bool × Kernel)
sys_execvpe a k0 is_first_proc file_name args envp b fsz base =
    let k = with_proc k0 (root_cwd k0.proc) in
    do
      path ← program_path k.proc file_name b
      valid ← validate_binary a path
      if valid
          then (start_program a (with_args k args envp).1 is_first_proc (with_args k args envp).0.0
                (with_args k args envp).0.1 path fsz base
              >>= (λ k2. some (true, k2)))
          else some (false, k)
