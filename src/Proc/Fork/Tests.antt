-- ===== src/Proc/Fork/Tests.antt =====
-- A page that parent and child share: the tables of the parent are the frames 10 to 13, those of the child 2
-- to 4 and 15.
use nascent_os.Prelude.{
  none, [], ◌∷◌, ◌==◌, if◌then◌else◌, ℕ, ◌+◌, ◌*◌, ◌/◌, ◌%◌, ◌≡◌, refl, some, arith,
}
use nascent_os.Frames.{Frames, write, get_page_from_pa, scale_down}
use nascent_os.Frames.Alloc.{struct_vir, frame_vir}
use nascent_os.Frames.Tests.{small}
use nascent_os.VirMem.{get_pte_entry}
use nascent_os.VirMem.Present.{at1, HasTables}
use nascent_os.Chain.{Chain}
use nascent_os.Proc.{Proc}
use nascent_os.Proc.Tests.{nothing}
use nascent_os.Proc.Lifecycle.{Kernel}
use nascent_os.Proc.FreeLists.Laws.{vma_link}
use nascent_os.Proc.Fork.Areas.{CanCopy, Copies}
use nascent_os.Proc.Fork.Loop.{copy_areas_lem}
use nascent_os.Proc.Fork.{copy_areas, share_page}
use nascent_os.Proc.Fork.Share.{Pair, share_page_lem}

abbrev address : ℕ
address = 0x400000

abbrev tables : (ℕ → ℕ) → ℕ → ℕ → ℕ → ℕ → ℕ → ℕ
tables mem a b c d =
    write (write (write mem (frame_vir a) (4096 * b + 7)) (frame_vir b) (4096 * c + 7))
      (frame_vir c + 16) (4096 * d + 7)

-- The parent maps the page of frame 9.
abbrev forked : Frames
forked = record small {
  mem = write (tables (tables small.mem 10 11 12 13) 2 3 4 15) (frame_vir 13) (4096 * 9 + 7);
}

forked-HasTables_parent : HasTables forked (frame_vir 10) address
forked-HasTables_parent = record {
  aligned = omega arith;
  window = omega arith;
  points4 = record { present = refl; window = omega arith };
  points3 = record { present = refl; window = omega arith };
  points2 = record { present = refl; window = omega arith };
}

forked-HasTables_child : HasTables forked (frame_vir 2) address
forked-HasTables_child = record {
  aligned = omega arith;
  window = omega arith;
  points4 = record { present = refl; window = omega arith };
  points3 = record { present = refl; window = omega arith };
  points2 = record { present = refl; window = omega arith };
}

abbrev counted_at : ℕ
counted_at = struct_vir forked 9 + 8

forked-Pair : Pair forked (frame_vir 10) (frame_vir 2) address counted_at
forked-Pair = record {
  parent = forked-HasTables_parent;
  child = forked-HasTables_child;
  parent_off = (
    record { off4 = omega arith; off3 = omega arith; off2 = omega arith },
    record { off4 = omega arith; off3 = omega arith; off2 = omega arith },
    record { off4 = omega arith; off3 = omega arith; off2 = omega arith },
  );
  child_off = (
    record { off4 = omega arith; off3 = omega arith; off2 = omega arith },
    record { off4 = omega arith; off3 = omega arith; off2 = omega arith },
    record { off4 = omega arith; off3 = omega arith; off2 = omega arith },
  );
  apart = omega arith;
  counts = omega arith;
}

forked_page :
    get_page_from_pa forked (forked.mem (at1 forked (frame_vir 10) address)) + 8 ≡ counted_at
unfolding get_page_from_pa scale_down
forked_page = refl

share_page_lem_example :
    let f' = share_page forked (frame_vir 10) (frame_vir 2) address in
    let e = forked.mem (at1 forked (frame_vir 10) address) in
    (e' : ℕ) × (get_pte_entry f' (frame_vir 10) address ≡ some e')
    × (get_pte_entry f' (frame_vir 2) address ≡ some e')
    × ((e' / 4096 ≡ e / 4096) × (e' % 2 ≡ 1) × (e' / 2 % 2 ≡ 0) × (e' / 256 % 2 ≡ 1))
    × (f'.mem counted_at ≡ forked.mem counted_at + 1)
share_page_lem_example =
    share_page_lem forked (frame_vir 10) (frame_vir 2) address counted_at forked-Pair refl
      forked_page

-- The parent's areas are 1 and 2; the blocks 3, 4 and 5 are free.
abbrev family : Proc
family = record nothing {
  vma = λ i. record {
    start_addr = 4096 * i;
    end_addr = 4096 * i + 100;
    next = if i == 1 then some 2 else if i == 3 then some 4 else if i == 4 then some 5 else none;
    prev = none;
    vm_flags = i;
    vmtype = 3;
    p_filesz = 0;
    tarfs_base = 0;
  };
  free_vma_head = some 3;
}

abbrev family_kernel : Kernel
family_kernel = record { frames = forked; proc = family; kpml_addr = 0 }

family-CanCopy : CanCopy family (some 1) (1 ∷ 2 ∷ []) (3 ∷ 4 ∷ 5 ∷ [])
family-CanCopy = record {
  areas = (refl, (refl, refl));
  distinct = (refl, (refl, tt));
  free = record { chain = (refl, (refl, (refl, refl))); distinct = (refl, (refl, (refl, tt))) };
  apart = λ p m. ground arith;
  enough = omega arith;
}

copy_areas_lem_example :
    (k' : Kernel) × (copy_areas 5 family_kernel 9 (frame_vir 10) (frame_vir 2) none (some 1)
      ≡ some k')
    × Chain some none (vma_link k'.proc) (k'.proc.pcb 9).task_mm.vma_head (3 ∷ 4 ∷ [])
    × Copies family k'.proc (1 ∷ 2 ∷ []) (3 ∷ 4 ∷ 5 ∷ [])
    × Chain some none (vma_link k'.proc) (some 1) (1 ∷ 2 ∷ [])
copy_areas_lem_example =
    copy_areas_lem 5 family_kernel 9 (frame_vir 10) (frame_vir 2) (some 1) (1 ∷ 2 ∷ [])
      (3 ∷ 4 ∷ 5 ∷ []) family-CanCopy refl (omega arith)
