-- ===== src/PageFault/Tests.antt =====
-- A fault on a machine with the free frames 5, 6, 7 and 8, and the walk over two memory areas.
use Prim.Native.Nat.{bit_or}
use nascent_os.Prelude.{
  ◌≤◌, ◌<◌, ℕ, ◌+◌, ◌*◌, ◌%◌, ◌^◌, ◌≡◌, refl, inr, none, some, [], ◌∷◌, arith, false, ◌==◌,
  if◌then◌else◌,
}
use nascent_os.Frames.{Frames, kernbase, write, scale_down}
use nascent_os.Frames.Alloc.{IsFreeList, frame_vir}
use nascent_os.Frames.Tests.{small, array}
use nascent_os.VirMem.{get_mapping, get_pte_entry, pml4_id, present}
use nascent_os.VirMem.Table.{Safe}
use nascent_os.Proc.{Proc, set_task}
use nascent_os.Proc.Tests.{blank, nothing}
use nascent_os.PageFault.{zero_fill}
use nascent_os.PageFault.ZeroFill.{zero_fill_lem}

abbrev roomy : Frames
roomy = record small {
  mem = write small.mem (kernbase + array + 16 * 7) (array + 16 * 8);
  free_page_end = array + 16 * 8;
}

roomy-IsFreeList : IsFreeList roomy (5 ∷ 6 ∷ 7 ∷ 8 ∷ [])
roomy-IsFreeList = record {
  placed = omega arith;
  chain = (refl, (refl, (refl, (refl, refl))));
  free = omega arith;
  distinct = (refl, (refl, (refl, (refl, tt))));
}

abbrev fault : ℕ
fault = 0x400123

roomy-Safe : Safe roomy (5 ∷ 6 ∷ 7 ∷ 8 ∷ []) (frame_vir 10 + 8 * pml4_id (scale_down fault))
unfolding scale_down
roomy-Safe = record {
  array = inr (omega arith);
  frames = (inr (omega arith), (inr (omega arith), (inr (omega arith), (inr (omega arith), tt))));
}

roomy_empty : present (roomy.mem (frame_vir 10 + 8 * pml4_id (scale_down fault))) ≡ false
unfolding scale_down
roomy_empty = refl

zero_fill_lem_example :
    let f' = zero_fill roomy (frame_vir 10) fault in
    (get_pte_entry f' (frame_vir 10) (scale_down fault) ≡ some (bit_or (4096 * 5) 7))
    × (get_mapping f' (frame_vir 10) (scale_down fault) ≡ 4096 * 5 + scale_down fault % 2 ^ 12)
    × ((x : ℕ) → frame_vir 5 ≤ x → x < frame_vir 5 + 4096 → f'.mem x ≡ 0)
zero_fill_lem_example =
    zero_fill_lem roomy 5 6 7 8 [] (frame_vir 10) fault roomy-IsFreeList (omega arith) roomy-Safe
      roomy_empty

-- area 1 from 0x1000 to 0x2000, then area 2 from 0x400000 to 0x402000
abbrev areas : Proc
areas =
    record (set_task nothing 7 (record blank {
      task_mm = record {
        vma_head = some 1;
        count = 2;
        begin_stack = 0;
        argv_start = 0;
        argv_end = 0;
      };
    })) {
      vma = λ i. record {
        start_addr = if i == 1 then 0x1000 else 0x400000;
        end_addr = if i == 1 then 0x2000 else 0x402000;
        next = if i == 1 then some 2 else none;
        prev = none;
        vm_flags = 0;
        vmtype = 3;
        p_filesz = 0;
        tarfs_base = 0;
      };
    }
