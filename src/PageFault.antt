-- ===== src/PageFault.antt =====
-- sys/pagefault.c: the memory area of a faulting address, and `page_fault_handler` with its cases: copy on
-- write, the loading of a segment of the program, a page of zeros below the bss and on the stack, and the
-- end of a process that has no area there. What is printed is left out. A write to the process's memory
-- goes through its page tables; where they have no page for it, the processor would call the handler again
-- from within, which is not modelled: `none`.
pub mod ZeroFill
pub mod Cow
pub mod Copied
pub mod Segv
mod Tests
mod CowTests
use Prim.Native.Nat.{bit_or}
use nascent_os.Prelude.{
  ℕ, zero, suc, ◌+◌, ◌-◌, ◌*◌, ◌/◌, ◌%◌, Bool, true, false, ◌&&◌, ◌||◌, ◌==◌, ltb, leb,
  if◌then◌else◌, Option, none, some,
}
use nascent_os.Prelude.Word.{add64, sub64}
use nascent_os.Frames.{
  Frames, kernbase, page_size, write, kmalloc, page_alloc, scale_down, get_page_from_pa,
}
use nascent_os.Memory.{get_byte, set_byte}
use nascent_os.VirMem.{set_mapping, get_pte_entry, get_mapping}
use nascent_os.Proc.{Proc, num_vma, vma_text, vma_data, vma_stack}
use nascent_os.Proc.TaskList.{◌>>=◌}
use nascent_os.Proc.Lifecycle.{Kernel, with_proc, sys_exit}

-- UNSET_WRITE: the bit of weight 2 is cleared.
abbrev pub unset_write : ℕ → ℕ
unset_write e = e - e / 2 % 2 * 2

-- SET_WRITE
abbrev pub set_write : ℕ → ℕ
set_write e = bit_or e 2

-- BIT_COW
abbrev pub bit_cow : ℕ
bit_cow = 0x100

-- SET_COW
abbrev pub set_cow : ℕ → ℕ
set_cow e = bit_or e bit_cow

-- UNSET_COW: the bit of weight BIT_COW is cleared.
abbrev pub unset_cow : ℕ → ℕ
unset_cow e = e - e / 256 % 2 * 256

-- v_addr >= start_addr && v_addr <= end_addr
abbrev pub in_vma : Proc → ℕ → ℕ → Bool
in_vma s v_addr i = leb (s.vma i).start_addr v_addr && leb v_addr (s.vma i).end_addr

-- while (itr != NULL); `none` is a list that the fuel does not see the end of.
pub vma_walk : ℕ → Proc → ℕ → Option ℕ → Option (Option ℕ)
vma_walk zero s v_addr itr = none
vma_walk (suc k) s v_addr none = some none
vma_walk (suc k) s v_addr (some i) =
    let rest = vma_walk k s v_addr (s.vma i).next in
    if in_vma s v_addr i then some (some i) else rest

pub check_vma : Proc → ℕ → Option (Option ℕ)
check_vma s v_addr = vma_walk (suc num_vma) s v_addr (s.pcb s.running_task).task_mm.vma_head

-- A page of zeros at the faulting address, readable and writable by the user.
pub zero_fill : Frames → ℕ → ℕ → Frames
zero_fill f pml_addr faulting_addr =
    let (phys_addr, f1) = kmalloc f in
    let s_d_a = scale_down faulting_addr in set_mapping f1 pml_addr s_d_a phys_addr 7

-- memcopy of a page between two addresses of whole pages, in words: from `source` on, to `buff` on.
abbrev pub copy_page : (ℕ → ℕ) → ℕ → ℕ → ℕ → ℕ
copy_page mem source buff a =
    if leb buff a && ltb a (buff + page_size) then mem (source + (a - buff)) else mem a

-- The kernel's address of a byte of the process.
abbrev pub user_at : Frames → ℕ → ℕ → ℕ
user_at f pml_addr a = add64 kernbase (get_mapping f pml_addr a)

-- The last holder of a page writes to it.
pub cow_last : Frames → ℕ → ℕ → ℕ → Frames
cow_last f pml_addr faulting_addr page_phyaddr =
    set_mapping f pml_addr faulting_addr (set_write (unset_cow page_phyaddr)) 1

-- A page that others hold too is copied.
pub cow_copy : Frames → ℕ → ℕ → ℕ → Frames
cow_copy f pml_addr faulting_addr page_addr =
    let (buff_page, f1) = page_alloc f in
    let source = user_at f1 pml_addr (scale_down faulting_addr) in
    let f2 = record f1 { mem = copy_page f1.mem source buff_page } in
    let f3 = set_mapping f2 pml_addr faulting_addr (sub64 buff_page kernbase) 7 in
    record f3 { mem = write f3.mem (page_addr + 8) (f3.mem (page_addr + 8) - 1) }

pub cow_found : Frames → ℕ → ℕ → Option ℕ → Frames
cow_found f pml_addr faulting_addr none = f
cow_found f pml_addr faulting_addr (some page_phyaddr) =
    let page_addr = get_page_from_pa f page_phyaddr in
    let ref_count = f.mem (page_addr + 8) in
    if ref_count == 1
    then cow_last f pml_addr faulting_addr page_phyaddr
    else if ltb 1 ref_count
    then cow_copy f pml_addr faulting_addr page_addr
    else f

-- The case of the error code 7, a write to a page that is there.
pub cow_fault : Frames → ℕ → ℕ → Frames
unfolding cow_found
cow_fault f pml_addr faulting_addr =
    cow_found f pml_addr faulting_addr (get_pte_entry f pml_addr faulting_addr)

-- memcopy to the process, byte by byte.
pub copy_to_user : ℕ → ℕ → Frames → ℕ → ℕ → ℕ → Option Frames
copy_to_user zero i f pml_addr source destination = some f
copy_to_user (suc n) i f pml_addr source destination =
    let a = add64 destination i in
    let byte = get_byte f.mem (add64 source i) in
    elim (get_pte_entry f pml_addr a) [
      | none ↦ none
      | some e ↦
          copy_to_user n (suc i) (record f { mem = set_byte f.mem (user_at f pml_addr a) byte })
            pml_addr source destination
    ]

-- MIN of 64-bit values
abbrev pub min64 : ℕ → ℕ → ℕ
min64 a b = if ltb a b then a else b

-- A page of a segment: where the bytes come from, where they go, and how many they are. The area starts
-- at `vma_start`, its bytes in the file are `p_filesz` from `tarfs_base` on, and `s_d_a` is the page.
pub segment_part : ℕ → ℕ → ℕ → ℕ → (ℕ × ℕ) × ℕ
segment_part vma_start p_filesz tarfs_base s_d_a =
    let bss_addr = add64 vma_start p_filesz in
    let offset = sub64 s_d_a vma_start in
    let page_end = add64 s_d_a page_size in
    if ltb s_d_a vma_start && ltb bss_addr page_end
    then ((tarfs_base, vma_start), p_filesz)
    else if leb s_d_a vma_start
    then ((tarfs_base, vma_start), min64 p_filesz (sub64 page_size vma_start))
    else if ltb bss_addr page_end
    then ((add64 tarfs_base offset, s_d_a), sub64 bss_addr s_d_a)
    else ((add64 tarfs_base offset, s_d_a), page_size)

-- The page of the bss, or one with the bytes of the file.
pub load_fault : Frames → Proc → ℕ → ℕ → ℕ → Option Frames
load_fault f s i pml_addr faulting_addr =
    let v = s.vma i in
    let bss_addr = add64 v.start_addr v.p_filesz in
    let f1 = zero_fill f pml_addr faulting_addr in
    let part = segment_part v.start_addr v.p_filesz v.tarfs_base (scale_down faulting_addr) in
    if ltb faulting_addr bss_addr
    then copy_to_user part.1 0 f1 pml_addr part.0.0 part.0.1
    else some f1

-- The cases of an area that has been found; the last one only prints.
pub area_fault : Kernel → ℕ → ℕ → ℕ → Option Kernel
area_fault k i error_code faulting_addr =
    let s = k.proc in
    let pml_addr = add64 (s.pcb s.running_task).regs.cr3 kernbase in
    let kind = (s.vma i).vmtype in
    if error_code == 7
    then some (record k { frames = cow_fault k.frames pml_addr faulting_addr })
    else if (kind == vma_text) || (kind == vma_data)
    then (do f ← load_fault k.frames s i pml_addr faulting_addr; some (record k { frames = f }))
    else if kind == vma_stack
    then some (record k { frames = zero_fill k.frames pml_addr faulting_addr })
    else some k

-- `faulting_addr` is CR2. Without an area the process is ended.
pub page_fault_handler : Kernel → ℕ → ℕ → Option Kernel
page_fault_handler k error_code faulting_addr = check_vma k.proc faulting_addr >>= (λ vma_v.
    elim vma_v [
      | none ↦ sys_exit k.proc (k.proc.pcb k.proc.running_task).pid >>= (λ p. some (with_proc k p))
      | some i ↦ area_fault k i error_code faulting_addr
    ])
