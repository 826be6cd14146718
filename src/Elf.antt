-- ===== src/Elf.antt =====
-- sys/elf.c, and `load_elf1` and `load_elf` of sys/tarfs.c: the areas of a program, its pages, and the bytes
-- of the file. The file lies in the archive. The source calls `fetch_free_vma` with four of its six
-- arguments: what the other two registers hold is an argument, `fsz` and `base`.
use nascent_os.Prelude.{
  ℕ, zero, suc, true, false, ◌+◌, ◌-◌, ◌*◌, ◌/◌, ◌%◌, ◌^◌, ◌==◌, ltb, if◌then◌else◌, Option, none,
  some, List,
}
use nascent_os.Prelude.Word.{add64, sub64}
use nascent_os.Frames.{Frames, kernbase, page_size, kmalloc, scale_down}
use nascent_os.Memory.{set_byte}
use nascent_os.VirMem.{get_pte_entry, set_mapping}
use nascent_os.PageFault.{user_at}
use nascent_os.Text.{str_copy, str_compare}
use nascent_os.Proc.{Proc, vma_text, vma_data, vma_heap, num_vma, set_task}
use nascent_os.Proc.TaskList.{◌>>=◌}
use nascent_os.Proc.FreeLists.{set_vma, fetch_free_vma}
use nascent_os.Proc.Lifecycle.{Kernel, with_proc}
use nascent_os.Tarfs.{Archive, name_at, search}
use nascent_os.Tarfs.Files.{is_elf_format}

-- The little-endian number of `n` bytes at `p`.
pub number_at : (ℕ → ℕ) → ℕ → ℕ → ℕ
number_at byte p zero = 0
number_at byte p (suc n) = byte p + 256 * number_at byte (suc p) n

-- Fields of the header of the file.
abbrev pub e_entry : Archive → ℕ → ℕ
e_entry a h = number_at a.byte (h + 24) 8

abbrev pub e_phoff : Archive → ℕ → ℕ
e_phoff a h = number_at a.byte (h + 32) 8

abbrev pub e_phnum : Archive → ℕ → ℕ
e_phnum a h = number_at a.byte (h + 56) 2

-- Fields of a program header.
pub record Phdr : Type 0 where
  pub p_type : ℕ
  pub p_flags : ℕ
  pub p_offset : ℕ
  pub p_vaddr : ℕ
  pub p_filesz : ℕ
  pub p_memsz : ℕ

-- The program header at `p`, which has 56 bytes.
pub phdr_at : Archive → ℕ → Phdr
unfolding number_at
phdr_at a p = record {
  p_type = number_at a.byte p 4;
  p_flags = number_at a.byte (p + 4) 4;
  p_offset = number_at a.byte (p + 8) 8;
  p_vaddr = number_at a.byte (p + 16) 8;
  p_filesz = number_at a.byte (p + 32) 8;
  p_memsz = number_at a.byte (p + 40) 8;
}

-- NONE, a permission, used as the type of an area: it is the value of TEXT.
abbrev pub vm_none : ℕ
vm_none = 0

pub vm_type_of : ℕ → ℕ
vm_type_of p_flags = if p_flags == 5 then vma_text else if p_flags == 6 then vma_data else vm_none

-- for (pres = start; pres < end; pres += 4096), for `n` rounds at most
pub map_segment : ℕ → Frames → ℕ → ℕ → ℕ → Frames
map_segment zero f pml_addr pres end_address = f
map_segment (suc n) f pml_addr pres end_address =
    let (phys_addr, f1) = kmalloc f in
    let rest =
      map_segment n (set_mapping f1 pml_addr (scale_down pres) phys_addr 7) pml_addr
        (pres + page_size) end_address in
    if ltb pres end_address then rest else f

-- The last area of the list that starts at `tmp`; `none` is a list that the fuel does not see the end of.
pub last_area : ℕ → Proc → ℕ → Option ℕ
last_area zero s tmp = none
last_area (suc k) s tmp = elim (s.vma tmp).next [ none ↦ some tmp | some n ↦ last_area k s n ]

-- The area goes to the end of the process's list.
pub append_area : Proc → ℕ → ℕ → Option Proc
append_area s t i = elim (s.pcb t).task_mm.vma_head [
  | none ↦
      let task = s.pcb t in
      some (set_task s t (record task { task_mm = record task.task_mm { vma_head = some i } }))
  | some first ↦ do
    tmp ← last_area (suc num_vma) s first
    some (set_vma s tmp (record (s.vma tmp) { next = some i }))
]

abbrev pub count_area : Proc → ℕ → Proc
count_area s t =
    let task = s.pcb t in
    set_task s t (record task { task_mm = record task.task_mm { count = task.task_mm.count + 1 } })

-- Bytes of the archive, or zeros behind them, into the new process: `byte i` for i < n. `none` is a page
-- that the process does not have, where the page-fault handler would be called.
pub fill_user : ℕ → ℕ → (ℕ → ℕ) → Frames → ℕ → ℕ → Option Frames
fill_user zero i byte f pml_addr destination = some f
fill_user (suc n) i byte f pml_addr destination =
    let a = add64 destination i in
    elim (get_pte_entry f pml_addr a) [
      | none ↦ none
      | some e ↦
          fill_user n (suc i) byte
            (record f { mem = set_byte f.mem (user_at f pml_addr a) (byte i) }) pml_addr destination
    ]

-- memcopy of the file's part of a segment, and memset of its bss.
pub fill_segment : Archive → ℕ → Phdr → Frames → ℕ → Option Frames
fill_segment a elf_header ph f pml_addr = do
  f1 ← fill_user ph.p_filesz 0 (λ i. a.byte (elf_header + ph.p_offset + i)) f pml_addr ph.p_vaddr
  fill_user (ph.p_memsz - ph.p_filesz) 0 (λ i. 0) f1 pml_addr (add64 ph.p_vaddr ph.p_filesz)

-- One loadable segment: its area, its pages, its bytes. `none` also if there is no area left.
pub load_segment : Archive → ℕ → Kernel → ℕ → Phdr → ℕ → ℕ → Option Kernel
load_segment a elf_header k t ph fsz base =
    let end_address = add64 ph.p_vaddr ph.p_memsz in
    let pml_addr = add64 (k.proc.pcb t).regs.cr3 kernbase in
    let fetched =
      fetch_free_vma k.proc ph.p_vaddr end_address ph.p_type (vm_type_of ph.p_flags) fsz base in
    do
      i ← fetched.0
      let f = map_segment (suc (ph.p_memsz / page_size)) k.frames pml_addr ph.p_vaddr end_address
      p ← append_area (count_area fetched.1 t) t i
      f1 ← fill_segment a elf_header ph f pml_addr
      some (record (with_proc k p) { frames = f1 })

-- The loop over the program headers from the one at `p` on, with `max_addr`.
pub load_loop : ℕ → Archive → ℕ → ℕ → Kernel → ℕ → ℕ → ℕ → ℕ → Option (ℕ × Kernel)
load_loop zero a elf_header p k t max_addr fsz base = some (max_addr, k)
load_loop (suc n) a elf_header p k t max_addr fsz base =
    let ph = phdr_at a p in
    let end_address = add64 ph.p_vaddr ph.p_memsz in
    elim (ph.p_type == 1) [
      | false ↦ load_loop n a elf_header (p + 56) k t max_addr fsz base
      | true ↦ load_segment a elf_header k t ph fsz base >>= (λ k1.
          load_loop n a elf_header (p + 56) k1 t
            (if ltb max_addr end_address then end_address else max_addr) fsz base)
    ]

-- The heap begins nine pages above the last byte of the program, and is empty.
pub heap_start : ℕ → ℕ
heap_start max_addr = (sub64 max_addr 1 / 2 ^ 12 + 10) * 2 ^ 12 % 2 ^ 64

-- RW
abbrev pub vm_rw : ℕ
vm_rw = 6

pub add_heap : Proc → ℕ → ℕ → ℕ → ℕ → Option Proc
add_heap s t max_addr fsz base = do
  first ← (s.pcb t).task_mm.vma_head
  tmp ← last_area (suc num_vma) s first
  let start = heap_start max_addr
  let fetched = fetch_free_vma s start start vm_rw vma_heap fsz base
  let s1 = set_vma fetched.1 tmp (record (fetched.1.vma tmp) { next = fetched.0 })
  some (count_area s1 t)

-- The inner result is `none` for the return of -1. A program without a loadable segment has no list for
-- the heap to go to: `none`, where the source reads through NULL.
pub elf_read : Archive → ℕ → Kernel → ℕ → List ℕ → ℕ → ℕ → Option (Option Kernel)
elf_read a elf_header k t filename fsz base =
    let task = k.proc.pcb t in
    let p = set_task k.proc t (record task { filename = str_copy filename task.filename }) in
    if is_elf_format a elf_header
    then (load_loop (e_phnum a elf_header) a elf_header (elf_header + e_phoff a elf_header)
          (with_proc k p) t 0 fsz base
        >>= (λ r. add_heap r.1.proc t r.0 fsz base >>= (λ q. some (some (with_proc r.1 q)))))
    else some none

-- The address where the program starts, or `none` for the return of -1.
pub load_elf1 : Archive → Kernel → ℕ → List ℕ → ℕ → ℕ → Option (Option (ℕ × Kernel))
load_elf1 a k t binary_name fsz base =
    search (λ h. str_compare (name_at a h) binary_name == 0) a >>= (λ r. elim r [
      | none ↦ some none
      | some h ↦ elf_read a (h + 512) k t binary_name fsz base >>= (λ loaded. elim loaded [
        | none ↦ some none
        | some k1 ↦ some (some (e_entry a (h + 512), k1))
      ])
    ])
