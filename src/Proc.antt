-- ===== src/Proc.antt =====
-- sys/process.h and sys/proc_mngr.h: the process control blocks, the memory areas and the globals of
-- the process manager. A `Task *` is an index into `pcb_arr`, a `struct vma *` one into `vma_arr`, and
-- NULL is `none`. The arrays are functions, so an index past their end reads as some block here: the
-- theorems say which indices they are about. A `mm_struct` belongs to one task and is held by value.
pub mod TaskList
pub mod FreeLists
pub mod Lifecycle
pub mod Fork
pub mod Tests
use Prim.Native.String.{String}
use nascent_os.Prelude.{ℕ, Bool, true, false, Option, List, ◌==◌, if◌then◌else◌}
use nascent_os.Prelude.Int.{ℤ}

-- TASK_STATES
pub data TaskState : Type 0 where
  running ready sleep wait idle exit zombie suspended : TaskState

abbrev pub eq_state : TaskState → TaskState → Bool
eq_state running running = true
eq_state ready ready = true
eq_state sleep sleep = true
eq_state wait wait = true
eq_state idle idle = true
eq_state exit exit = true
eq_state zombie zombie = true
eq_state suspended suspended = true
eq_state _ _ = false

-- FD_TYPE
abbrev pub std_fd : ℕ
std_fd = 1

abbrev pub other_fd : ℕ
other_fd = 2

-- struct fd; `file_ptr` and `last_matched_header` are addresses, 0 the NULL.
pub record Fd : Type 0 where
  pub alloted : ℕ
  pub file_sz : ℕ
  pub num_bytes_read : ℕ
  pub file_ptr : ℕ
  pub last_matched_header : ℕ
  pub is_dir : ℕ
  pub fdtype : ℕ

-- enum vmatype
abbrev pub vma_text : ℕ
vma_text = 0

abbrev pub vma_data : ℕ
vma_data = 1

abbrev pub vma_heap : ℕ
vma_heap = 2

abbrev pub vma_stack : ℕ
vma_stack = 3

abbrev pub vma_anon : ℕ
vma_anon = 4

pub record Vma : Type 0 where
  pub start_addr : ℕ
  pub end_addr : ℕ
  pub next : Option ℕ
  pub prev : Option ℕ
  pub vm_flags : ℕ
  pub vmtype : ℕ
  pub p_filesz : ℕ
  pub tarfs_base : ℕ

-- struct mm_struct
pub record Mm : Type 0 where
  pub vma_head : Option ℕ
  pub count : ℕ
  pub begin_stack : ℕ
  pub argv_start : ℕ
  pub argv_end : ℕ

-- The registers that the kernel's C code sets; the context switch saves the others.
pub record Registers : Type 0 where
  pub rip : ℕ
  pub rsp : ℕ
  pub krsp : ℕ
  pub cr3 : ℕ

pub record Task : Type 0 where
  pub regs : Registers
  pub filename : List ℕ
  pub task_mm : Mm
  pub kstack : ℕ → ℕ
  pub next : Option ℕ
  pub prev : Option ℕ
  pub fd_array : List Fd
  pub pid : ℕ
  pub ppid : ℤ
  pub parent_task : Option ℕ
  pub sleep_sec : ℤ
  pub task_state : TaskState
  pub cwd : List ℕ

abbrev pub num_pcb : ℕ
num_pcb = 1000

abbrev pub num_vma : ℕ
num_vma = 5000

abbrev pub max_fds : ℕ
max_fds = 10

-- The globals: the arrays, the heads of the free lists and of the task list, the tasks by name, the
-- task whose kernel stack the TSS points at, and what `kprintf` was told, newest first.
pub record Proc : Type 0 where
  pub pcb : ℕ → Task
  pub vma : ℕ → Vma
  pub free_pcb_head : Option ℕ
  pub free_vma_head : Option ℕ
  pub overall_task_list : Option ℕ
  pub running_task : ℕ
  pub idle_task : ℕ
  pub init_task : ℕ
  pub tss_rsp : ℕ
  pub log : List String

-- One block of an array is changed.
abbrev pub update {ℓ} : {A : Type ℓ} → (ℕ → A) → ℕ → A → ℕ → A
update f i a j = if j == i then a else f j

abbrev pub set_task : Proc → ℕ → Task → Proc
set_task s i t = record s { pcb = update s.pcb i t }

abbrev pub set_next : Proc → ℕ → Option ℕ → Proc
set_next s i q = set_task s i (record (s.pcb i) { next = q })

abbrev pub set_state : Proc → ℕ → TaskState → Proc
set_state s i st = set_task s i (record (s.pcb i) { task_state = st })
