-- ===== src/Proc/Lifecycle/Tests.antt =====
-- Processes that come and go: 2, 3 and 4 are in the task list, 7 runs, 20 and 21 are free blocks, and 9 is
-- a zombie whose parent is 7.
use nascent_os.PageFault.{page_fault_handler}
use nascent_os.PageFault.Segv.{page_fault_handler-segv}
use nascent_os.Proc.Lifecycle.{exited, sys_exit}
use nascent_os.Proc.{running}
use nascent_os.Proc.TaskList.Fetch.{first_ready, without_ready}
use nascent_os.Proc.Lifecycle.Exit.{sys_exit_lem}
use nascent_os.Prelude.{
  ℕ, ◌==◌, if◌then◌else◌, ◌+◌, ◌*◌, ◌<◌, ◌≡◌, refl, ◌≢◌, inr, true, false, none, some, [], ◌∷◌,
  arith,
}
use nascent_os.Prelude.Int.{pos, negsuc}
use nascent_os.Frames.Alloc.{IsFreeList, frame_vir}
use nascent_os.Frames.Tests.{small, small-IsFreeList}
use nascent_os.VirMem.Table.{Safe}
use nascent_os.VirMem.{clear_mapping}
use nascent_os.Prelude.Word.{add64}
use nascent_os.Prelude.{◌≤◌}
use nascent_os.Frames.{kernbase}
use nascent_os.Proc.{Proc, ready, zombie, suspended, num_pcb, num_vma, set_task, set_state}
use nascent_os.Proc.Tests.{blank, nothing, three, three-IsQueue}
use nascent_os.Proc.TaskList.{◌>>=◌, schedule}
use nascent_os.Proc.TaskList.Queue.{link, state_of, IsQueue}
use nascent_os.Proc.FreeLists.{create_pcb_list, initialise_vma}
use nascent_os.Proc.FreeLists.Laws.{IsFreePcbs, IsFreeVmas, create_pcb_list_lem}
use nascent_os.Chain.{counting, has}
use nascent_os.Proc.Lifecycle.{Kernel, reap, wait_for_child, fetch_free_pcb, exited}
use nascent_os.Proc.Lifecycle.Exit.{exited_lem, woken_state, left_behind}
use nascent_os.Proc.Lifecycle.Children.{ppid_of, pid_of}
use nascent_os.Proc.Lifecycle.Reap.{reap_lem, Apart, IsBlank}
use nascent_os.Proc.Lifecycle.Reap.Cuts.{reap-cuts}
use nascent_os.Proc.Lifecycle.Wait.{wait_for_child-child, wait_for_child-none}
use nascent_os.Proc.Lifecycle.Tick.{aged, interrupts, timer_int_lem}
use nascent_os.Proc.Lifecycle.Create.{fetch_free_pcb_lem, StandardFds}

-- 2 is the parent of 7 and suspended; 9 is a child of 7
abbrev family : Proc
family =
    let s2 = set_state three 2 suspended in
    let s7 = set_task s2 7 (record (s2.pcb 7) { pid = 7; parent_task = some 2 }) in
    let s9 = set_task s7 9 (record blank { pid = 9; ppid = pos 7; task_state = zombie }) in
    let s20 = set_task s9 20 (record blank { pid = 20; next = some 21 }) in
    let s21 = set_task s20 21 (record blank { pid = 21 }) in record s21 { free_pcb_head = some 20 }

family-IsQueue : IsQueue family (2 ∷ 3 ∷ 4 ∷ [])
family-IsQueue = record {
  chain = (refl, (refl, (refl, refl)));
  distinct = (refl, (refl, (refl, tt)));
  few = omega arith;
}

family-IsFreePcbs : IsFreePcbs family (20 ∷ 21 ∷ [])
family-IsFreePcbs = record {
  chain = (refl, (refl, refl));
  distinct = (refl, (refl, tt));
  few = omega arith;
}

family-Apart : Apart (2 ∷ 3 ∷ 4 ∷ []) (20 ∷ 21 ∷ [])
family-Apart i m = ground (arith, m)

abbrev machine : Kernel
machine = record { frames = small; proc = family; kpml_addr = frame_vir 10 }

kernel_entry-Safe : Safe small (5 ∷ 6 ∷ 7 ∷ []) (frame_vir 10 + 8 * 511)
kernel_entry-Safe = record {
  array = inr (omega arith);
  frames = (inr (omega arith), (inr (omega arith), (inr (omega arith), tt)));
}

create_pcb_list_lem_example :
    IsFreePcbs (create_pcb_list nothing) (counting num_pcb [])
    × IsFreeVmas (initialise_vma nothing) (counting num_vma [])
create_pcb_list_lem_example = create_pcb_list_lem nothing refl refl

-- two free memory areas, 1 and 2
abbrev areas : Proc
areas = record nothing {
  free_vma_head = some 1;
  vma = λ i. record {
    start_addr = 0;
    end_addr = 0;
    next = if i == 1 then some 2 else none;
    prev = none;
    vm_flags = 0;
    vmtype = 0;
    p_filesz = 0;
    tarfs_base = 0;
  };
}

areas-IsFreeVmas : IsFreeVmas areas (1 ∷ 2 ∷ [])
areas-IsFreeVmas = record { chain = (refl, (refl, refl)); distinct = (refl, (refl, tt)) }

exited_lem_example :
    (state_of (exited family 7) 7 ≡ zombie)
    × ((i : ℕ) → i ≢ 7 → state_of (exited family 7) i ≡ woken_state family 7 i)
    × ((i : ℕ)
        → i < num_pcb
        → state_of (left_behind family 7) i ≢ ready
        → ppid_of family i ≡ pos (pid_of family 7)
        → ppid_of (exited family 7) i ≡ pos (pid_of family family.init_task))
    × ((i : ℕ)
        → i < num_pcb
        → state_of (left_behind family 7) i ≡ ready
        → ppid_of (exited family 7) i ≡ ppid_of family i)
exited_lem_example = exited_lem family 7

reap_lem_example :
    (k' : Kernel) × (reap machine 9 ≡ some k')
    × IsQueue k'.proc (2 ∷ 3 ∷ 4 ∷ [])
    × IsFreePcbs k'.proc (20 ∷ 21 ∷ 9 ∷ [])
    × IsBlank (k'.proc.pcb 9)
    × (k'.frames ≡ clear_mapping small (add64 (family.pcb 9).regs.cr3 kernbase))
    × (k'.proc.running_task ≡ 7)
reap_lem_example =
    reap_lem machine 9 (2 ∷ 3 ∷ 4 ∷ []) (20 ∷ 21 ∷ []) family-IsQueue family-IsFreePcbs family-Apart
      (refl, refl) (omega arith)

reap-cuts_example :
    (k' : Kernel) × (reap machine 3 ≡ some k')
    × IsQueue k'.proc (2 ∷ 3 ∷ [])
    × IsFreePcbs k'.proc (20 ∷ 21 ∷ 3 ∷ [])
    × ((i : ℕ)
        → has i (4 ∷ []) ≡ true
        → (has i (2 ∷ 3 ∷ []) ≡ false) × (has i (20 ∷ 21 ∷ 3 ∷ []) ≡ false))
    × (state_of k'.proc 3 ≡ ready)
reap-cuts_example =
    reap-cuts machine 3 (2 ∷ []) (4 ∷ []) (20 ∷ 21 ∷ []) family-IsQueue family-IsFreePcbs
      family-Apart (omega arith)

-- ten interrupts of a second have passed
timer_int_lem_example :
    ((n : ℕ) → n + 10 ≤ 18 → interrupts n ((10, 60), family) ≡ some ((n + 10, 60), family))
    × ((s1 : Proc) × (interrupts 9 ((10, 60), family)
          ≡ (schedule s1 >>= (λ s2. some ((0, 61), s2))))
        × IsQueue s1 (2 ∷ 3 ∷ 4 ∷ [])
        × ((i : ℕ) → has i (2 ∷ 3 ∷ 4 ∷ []) ≡ true → s1.pcb i ≡ aged (family.pcb i))
        × ((i : ℕ) → has i (2 ∷ 3 ∷ 4 ∷ []) ≡ false → s1.pcb i ≡ family.pcb i))
timer_int_lem_example = timer_int_lem family (2 ∷ 3 ∷ 4 ∷ []) 10 60 family-IsQueue (omega arith)

fetch_free_pcb_lem_example :
    let (r, k') = fetch_free_pcb machine in
    (r ≡ some 20)
    × IsFreePcbs k'.proc (21 ∷ [])
    × IsFreeList k'.frames (7 ∷ [])
    × (((k'.proc.pcb 20).pid ≡ 20)
        × ((k'.proc.pcb 20).ppid ≡ negsuc 0)
        × ((k'.proc.pcb 20).parent_task ≡ none)
        × ((k'.proc.pcb 20).task_mm.vma_head ≡ none)
        × (state_of k'.proc 20 ≡ ready)
        × (link k'.proc 20 ≡ none)
        × StandardFds (k'.proc.pcb 20).fd_array
        × ((k'.proc.pcb 20).regs.cr3 ≡ 4096 * 6))
    × ((k'.frames.mem (frame_vir 6 + 8 * 511) ≡ small.mem (frame_vir 10 + 8 * 511))
        × ((o : ℕ) → o < 511 → k'.frames.mem (frame_vir 6 + 8 * o) ≡ 0))
    × ((j : ℕ) → j ≢ 20 → k'.proc.pcb j ≡ family.pcb j)
fetch_free_pcb_lem_example =
    fetch_free_pcb_lem machine 20 5 6 (21 ∷ []) (7 ∷ []) family-IsFreePcbs small-IsFreeList
      (omega arith) kernel_entry-Safe

wait_for_child-child_example :
    (k' : Kernel) × (wait_for_child machine ≡ some (some 9, k'))
    × (k'.proc.running_task ≡ 7)
    × IsQueue k'.proc (2 ∷ 3 ∷ 4 ∷ [])
    × IsFreePcbs k'.proc (20 ∷ 21 ∷ 9 ∷ [])
    × IsBlank (k'.proc.pcb 9)
wait_for_child-child_example =
    wait_for_child-child machine 9 (2 ∷ 3 ∷ 4 ∷ []) (20 ∷ 21 ∷ []) (omega arith) refl
      (λ j l. ground (arith, l)) family-IsQueue family-IsFreePcbs family-Apart (refl, refl)
      (omega arith)

-- nobody has died
abbrev alive : Kernel
alive = record machine { proc = three }

wait_for_child-none_example :
    (k' : Kernel) × (wait_for_child alive ≡ some (none, k'))
    × ((k'.proc.running_task ≡ 3) × (state_of k'.proc 3 ≡ running))
    × (state_of k'.proc 7 ≡ suspended)
    × IsQueue k'.proc (2 ∷ 4 ∷ 7 ∷ [])
wait_for_child-none_example =
    wait_for_child-none alive (2 ∷ 3 ∷ 4 ∷ []) 3 (λ j l. ground (arith, l)) three-IsQueue refl refl
      (λ e. absurd (cc))

parent_next : first_ready (exited family 7) (2 ∷ 3 ∷ 4 ∷ []) ≡ some 2
parent_next = let e = (exited_lem family 7).1 2 (omega arith) in ground (arith, e)

sys_exit_lem_example :
    (s' : Proc) × (sys_exit family 7 ≡ some s')
    × IsQueue s' (without_ready (exited family 7) (2 ∷ 3 ∷ 4 ∷ []))
    × ((s'.running_task ≡ 2) × (state_of s' 2 ≡ running))
    × (state_of s' 7 ≡ zombie)
sys_exit_lem_example = sys_exit_lem family (2 ∷ 3 ∷ 4 ∷ []) 2 family-IsQueue refl parent_next

-- 7 has no memory area at all.
page_fault_handler-segv_example :
    (k' : Kernel) × (page_fault_handler machine 4 0x1000 ≡ some k')
    × IsQueue k'.proc (without_ready (exited family 7) (2 ∷ 3 ∷ 4 ∷ []))
    × ((k'.proc.running_task ≡ 2) × (state_of k'.proc 2 ≡ running))
    × (state_of k'.proc 7 ≡ zombie)
    × (k'.frames ≡ small)
page_fault_handler-segv_example =
    page_fault_handler-segv machine 4 0x1000 [] (2 ∷ 3 ∷ 4 ∷ []) 2 refl (omega arith) refl refl
      family-IsQueue refl parent_next
