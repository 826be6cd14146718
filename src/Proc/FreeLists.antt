-- ===== src/Proc/FreeLists.antt =====
-- The free lists of sys/proc_mngr.c: the blocks of `pcb_arr` and of `vma_arr` that nobody uses.
pub mod Laws
pub mod Areas
use nascent_os.Prelude.{ℕ, zero, suc, Option, none, some, List, [], ◌∷◌}
use nascent_os.Proc.{Proc, Task, Vma, num_pcb, num_vma, vma_anon, update, set_task, set_next}
use nascent_os.Proc.TaskList.{◌>>=◌, last_of}

abbrev pub set_vma : Proc → ℕ → Vma → Proc
set_vma s i v = record s { vma = update s.vma i v }

-- The body of the loop of `initialise_vma`.
pub push_vma : Proc → ℕ → Proc
push_vma s i = elim s.free_vma_head [
  | none ↦ record (set_vma s i (record (s.vma i) { next = none; prev = none })) {
    free_vma_head = some i;
  }
  | some h ↦
      let s1 = set_vma s h (record (s.vma h) { prev = some i }) in
      record (set_vma s1 i (record (s1.vma i) { next = some h })) { free_vma_head = some i }
]

-- for (i = n - 1; i >= 0; i--)
pub vma_loop : ℕ → Proc → Proc
vma_loop zero s = s
vma_loop (suc n) s = vma_loop n (push_vma s n)

pub initialise_vma : Proc → Proc
initialise_vma s = vma_loop num_vma s

pub fetch_free_vma : Proc → ℕ → ℕ → ℕ → ℕ → ℕ → ℕ → Option ℕ × Proc
fetch_free_vma s start_addr end_addr vm_flags vmtype fsz base = elim s.free_vma_head [
  | none ↦ (none, record s { log = "Caution! Out of VMA's.." ∷ s.log })
  | some i ↦
      let v : Vma = record {
        start_addr = start_addr;
        end_addr = end_addr;
        next = none;
        prev = none;
        vm_flags = vm_flags;
        vmtype = vmtype;
        p_filesz = fsz;
        tarfs_base = base;
      } in
      (some i, set_vma (record s { free_vma_head = (s.vma i).next }) i v)
]

pub get_free_vma : Proc → Option ℕ × Proc
get_free_vma s = elim s.free_vma_head [
  | none ↦ (none, record s { log = "Caution! Out of VMA's.." ∷ s.log })
  | some i ↦
      let v : Vma = record {
        start_addr = 0;
        end_addr = 0;
        next = none;
        prev = none;
        vm_flags = 0;
        vmtype = vma_anon;
        p_filesz = 0;
        tarfs_base = 0;
      } in
      (some i, set_vma (record s { free_vma_head = (s.vma i).next }) i v)
]

-- The body of the loop of `create_pcb_list`.
pub push_pcb : Proc → ℕ → Proc
push_pcb s i = elim s.free_pcb_head [
  | none ↦ record (set_task s i (record (s.pcb i) { next = none; prev = none })) {
    free_pcb_head = some i;
  }
  | some h ↦
      let s1 = set_task s h (record (s.pcb h) { prev = some i }) in
      record (set_next s1 i (some h)) { free_pcb_head = some i }
]

-- for (i = n - 1; i >= 0; i--)
pub pcb_loop : ℕ → Proc → Proc
pcb_loop zero s = s
pcb_loop (suc n) s = pcb_loop n (push_pcb s n)

pub create_pcb_list : Proc → Proc
create_pcb_list s = pcb_loop num_pcb s

-- The list is not empty: behind its last block.
pub append_behind : Proc → ℕ → ℕ → Option Proc
append_behind s first task = do
  temp ← last_of (suc num_pcb) s first
  let s1 = set_next (set_next s temp (some task)) task none
  some (set_task s1 task (record (s1.pcb task) { prev = some temp }))

-- `none` is a walk that the fuel does not see the end of.
pub append_in_free_list : Proc → ℕ → Option Proc
append_in_free_list s task = elim s.free_pcb_head [
  | none ↦ some (set_next (record s { free_pcb_head = some task }) task none)
  | some first ↦ append_behind s first task
]
