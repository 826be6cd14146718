-- ===== src/Proc/Fork.antt =====
-- `fork_process` of sys/process.c: a new block, the descriptors, names, memory areas and page-table
-- entries of the parent, and the place in the task list. The entries of both tables lose the write
-- permission and get the copy-on-write bit, and the page is counted once more. The return of the child
-- through the copied kernel stack is assembly.
pub mod Share
pub mod Areas
pub mod Loop
mod Tests
use nascent_os.Prelude.{
  ℕ, zero, suc, ◌+◌, ◌-◌, ◌*◌, ◌/◌, ◌%◌, ◌==◌, if◌then◌else◌, Option, none, some, List, ltb,
}
use nascent_os.Prelude.Int.{pos}
use nascent_os.Prelude.Word.{add64, sub64}
use nascent_os.Frames.{Frames, kernbase, page_size, write, scale_down, scale_up, get_page_from_pa}
use nascent_os.VirMem.{get_pte_entry, set_mapping}
use nascent_os.Text.{str_copy}
use nascent_os.PageFault.{unset_write, set_cow}
use nascent_os.Proc.{Proc, Task, Vma, num_vma, set_task}
use nascent_os.Proc.TaskList.{◌>>=◌, add_to_task_list}
use nascent_os.Proc.FreeLists.{set_vma, get_free_vma}
use nascent_os.Proc.Lifecycle.{Kernel, with_proc, fetch_free_pcb}

-- What the child takes over before its areas: names, parent, descriptors, and the `mm_struct`
-- without its list. The source copies the file name twice.
pub inherited : Task → Task → ℕ → Task
inherited parent child parent_index = record child {
  filename = str_copy parent.filename child.filename;
  parent_task = some parent_index;
  ppid = pos parent.pid;
  cwd = str_copy parent.cwd child.cwd;
  fd_array = parent.fd_array;
  task_mm = record parent.task_mm { vma_head = none };
}

-- One page of an area: what the parent maps there, both map without the permission to write.
pub share_found : Frames → ℕ → ℕ → ℕ → Option ℕ → Frames
share_found f ppml4 cpml4 viraddr none = f
share_found f ppml4 cpml4 viraddr (some page_phyaddr) =
    let page_addr = get_page_from_pa f page_phyaddr in
    let shared = set_cow (unset_write page_phyaddr) in
    let f1 = set_mapping f ppml4 viraddr shared 0 in
    let f2 = set_mapping f1 cpml4 viraddr shared 0 in
    record f2 { mem = write f2.mem (page_addr + 8) (f2.mem (page_addr + 8) + 1) }

pub share_page : Frames → ℕ → ℕ → ℕ → Frames
unfolding share_found
share_page f ppml4 cpml4 viraddr = share_found f ppml4 cpml4 viraddr (get_pte_entry f ppml4 viraddr)

-- for (i = i; i < i + n; i++), for the page at `start + i * PAGE_SIZE`
pub share_pages : ℕ → ℕ → Frames → ℕ → ℕ → ℕ → Frames
share_pages zero i f ppml4 cpml4 start = f
share_pages (suc n) i f ppml4 cpml4 start =
    share_pages n (suc i) (share_page f ppml4 cpml4 (add64 start (i * page_size))) ppml4 cpml4 start

-- cnt, which is an `int`; an area is smaller than 2 ^ 31 pages
pub page_cnt : Vma → ℕ
page_cnt v = sub64 (scale_up v.end_addr) (scale_down v.start_addr) / page_size

-- `child_vmas`, the last area of the child so far, is linked to the copy; without one the copy is the
-- head of the list.
pub link_copy : Proc → ℕ → Option ℕ → ℕ → Proc
link_copy s child none i =
    let t = s.pcb child in
    set_task s child (record t { task_mm = record t.task_mm { vma_head = some i } })
link_copy s child (some last) i = set_vma s last (record (s.vma last) { next = some i })

-- The copy is made of all fields, the link to the parent's next area included. `none` where there is no
-- area left: the source writes through NULL then.
pub copy_into : Proc → ℕ → Option ℕ → ℕ → Option ℕ → Option (ℕ × Proc)
copy_into s child last parent_vma none = none
copy_into s child last parent_vma (some i) =
    let s1 = link_copy s child last i in some (i, set_vma s1 i (s1.vma parent_vma))

pub copy_vma : Proc → ℕ → Option ℕ → ℕ → Option (ℕ × Proc)
unfolding copy_into
copy_vma s child last parent_vma =
    let (fresh, s1) = get_free_vma s in copy_into s1 child last parent_vma fresh

-- while (parent_vma); `none` also if the fuel does not see the end of the list.
pub copy_areas : ℕ → Kernel → ℕ → ℕ → ℕ → Option ℕ → Option ℕ → Option Kernel
copy_areas zero k child ppml4 cpml4 last parent_vma = none
copy_areas (suc n) k child ppml4 cpml4 last none = some k
copy_areas (suc n) k child ppml4 cpml4 last (some p) = copy_vma k.proc child last p >>= (λ r.
    let v = r.1.vma p in
    let f = share_pages (page_cnt v) 0 k.frames ppml4 cpml4 (scale_down v.start_addr) in
    copy_areas n (record k { proc = r.1; frames = f }) child ppml4 cpml4 (some r.0) v.next)

-- The kernel stack, with the number that marks the child.
pub stack_copied : Task → Task → Task
stack_copied parent child = record child {
  kstack = λ w. if w == 511 then 10101 else if ltb w 512 then parent.kstack w else child.kstack w;
}

-- The pid that the parent returns. `rip` is the return address that the source finds on the stack, and
-- `krsp` the child's stack pointer.
pub fork_process : Kernel → ℕ → ℕ → Option (ℕ × Kernel)
fork_process k rip krsp = do
  let parent = k.proc.running_task
  let fetched = fetch_free_pcb k
  child ← fetched.0
  let p = fetched.1.proc
  let p1 = set_task p child (inherited (p.pcb parent) (p.pcb child) parent)
  let ppml4 = add64 (p1.pcb parent).regs.cr3 kernbase
  let cpml4 = add64 (p1.pcb child).regs.cr3 kernbase
  k2 ←
      copy_areas (suc num_vma) (with_proc fetched.1 p1) child ppml4 cpml4 none
        (p1.pcb parent).task_mm.vma_head
  let p2 = set_task k2.proc child (stack_copied (k2.proc.pcb parent) (k2.proc.pcb child))
  p3 ← add_to_task_list p2 child
  let t = p3.pcb child
  let p4 = set_task p3 child (record t { regs = record t.regs { rip = rip; krsp = krsp } })
  some (t.pid, with_proc k2 p4)
