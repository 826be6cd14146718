-- ===== src/PageFault/Segv.antt =====
-- A fault at an address of no memory area.
use nascent_os.Prelude.{ℕ, ◌≤◌, ◌≡◌, refl, ap, ◌∙◌, false, none, some, List, length}
use nascent_os.Chain.{Chain, has}
use nascent_os.Proc.{Proc, running, zombie, num_vma}
use nascent_os.Proc.TaskList.Queue.{state_of, IsQueue}
use nascent_os.Proc.TaskList.Fetch.{first_ready, without_ready}
use nascent_os.Proc.FreeLists.Laws.{vma_link}
use nascent_os.Proc.Lifecycle.{Kernel, with_proc, exited, sys_exit}
use nascent_os.Proc.Lifecycle.Exit.{sys_exit_lem}
use nascent_os.PageFault.{check_vma, page_fault_handler}
use nascent_os.PageFault.ZeroFill.{first_area, check_vma-first}

segv_step :
    (k : Kernel) (error_code addr pid : ℕ) (p : Proc)
    → check_vma k.proc addr ≡ some none
    → (k.proc.pcb k.proc.running_task).pid ≡ pid
    → sys_exit k.proc pid ≡ some p
    → page_fault_handler k error_code addr ≡ some (with_proc k p)
unfolding page_fault_handler
segv_step k error_code addr pid p e i x = rw (e, i, x) refl

-- A process that touches an address of none of its memory areas, whatever the kind of the access, is ended:
-- it becomes a zombie, it is not put back into the task list, and the first ready task runs. The page
-- frames and the page tables are as before. The pid of a process is its index, and its areas are a list.
pub page_fault_handler-segv :
    (k : Kernel) (error_code addr : ℕ) (is xs : List ℕ) (t : ℕ)
    → Chain some none (vma_link k.proc) (k.proc.pcb k.proc.running_task).task_mm.vma_head is
    → length is ≤ num_vma
    → first_area k.proc addr is ≡ none
    → (k.proc.pcb k.proc.running_task).pid ≡ k.proc.running_task
    → IsQueue k.proc xs
    → has k.proc.running_task xs ≡ false
    → first_ready (exited k.proc k.proc.running_task) xs ≡ some t
    → (k' : Kernel) × (page_fault_handler k error_code addr ≡ some k')
      × IsQueue k'.proc (without_ready (exited k.proc k.proc.running_task) xs)
      × ((k'.proc.running_task ≡ t) × (state_of k'.proc t ≡ running))
      × (state_of k'.proc k.proc.running_task ≡ zombie)
      × (k'.frames ≡ k.frames)
page_fault_handler-segv k error_code addr is xs t c l n i q out f =
    let (p, runs, queue, now, dead) = sys_exit_lem k.proc xs t q out f in
    (
      with_proc k p,
      segv_step k error_code addr k.proc.running_task p
          (check_vma-first k.proc addr is c l ∙ ap (λ r. some r) n) i runs,
      queue,
      now,
      dead,
      refl,
    )
