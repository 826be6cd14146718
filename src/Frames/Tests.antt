-- ===== src/Frames/Tests.antt =====
-- The allocator on a machine with sixteen frames, of which 5, 6 and 7 are free.
use nascent_os.Prelude.{ℕ, ◌≡◌, refl, ◌<◌, ◌+◌, ◌*◌, [], ◌∷◌, arith, ◌/◌}
use nascent_os.Frames.{Frames, kernbase, null, write, page_alloc, free_page, scale_up}
use nascent_os.Frames.Alloc.{frame_vir, IsPlaced, IsFreeList, Took, page_alloc_lem}
use nascent_os.Frames.Free.{free_page_not_reused}
use nascent_os.Frames.Boot.{Smap, create_page_list}
use nascent_os.Frames.Boot.FreeList.{usable_pages, create_page_list_lem}

abbrev pub array : ℕ
array = 4096

abbrev pub small : Frames
small = record {
  mem =
      write
        (write (write (λ a. 0) (kernbase + array + 16 * 5) (array + 16 * 6))
          (kernbase + array + 16 * 6) (array + 16 * 7))
        (kernbase + array + 16 * 9 + 8) 3;
  free_page_head = array + 16 * 5;
  free_page_end = array + 16 * 7;
  pages = array;
  page_count = 16;
  log = [];
}

small-IsPlaced : IsPlaced small
small-IsPlaced = omega arith

pub small-IsFreeList : IsFreeList small (5 ∷ 6 ∷ 7 ∷ [])
small-IsFreeList = record {
  placed = small-IsPlaced;
  chain = (refl, (refl, (refl, refl)));
  free = omega arith;
  distinct = (refl, (refl, (refl, tt)));
}

-- only frame 7 is left
abbrev last_one : Frames
last_one = record small { free_page_head = array + 16 * 7 }

last_one-IsFreeList : IsFreeList last_one (7 ∷ [])
last_one-IsFreeList = record {
  placed = omega arith;
  chain = (refl, refl);
  free = omega arith;
  distinct = (refl, tt);
}

page_alloc_lem_example :
    let (va, s') = page_alloc small in (va ≡ frame_vir 5) × Took small 5 (6 ∷ 7 ∷ []) s'
page_alloc_lem_example = page_alloc_lem small 5 (6 ∷ 7 ∷ []) small-IsFreeList

free_page_not_reused_example :
    let s1 = free_page last_one (frame_vir 10) in
    let (va, s2) = page_alloc s1 in
    let (vb, s3) = page_alloc s2 in (va ≡ frame_vir 7) × (vb < kernbase)
free_page_not_reused_example =
    free_page_not_reused last_one 10 7 last_one-IsFreeList (omega arith) (omega arith) refl
      (omega arith) (omega arith)

-- A machine of sixteen pages, with one region of memory from 0x3000 to 0x9000.
abbrev cold : Frames
cold = record {
  mem = λ a. 7;
  free_page_head = null;
  free_page_end = null;
  pages = array;
  page_count = 0;
  log = [];
}

abbrev region : Smap
region = record { base = 0x3000; len = 0x6000; kind = 1 }

-- The first page of the region, 3, and the last one, 8, whose last byte is 0x8fff: 4 to 8 are usable.
usable_run : usable_pages (region ∷ []) 8192 16 0 ≡ 4 ∷ 5 ∷ 6 ∷ 7 ∷ 8 ∷ []
usable_run = refl

create_page_list_lem_example :
    IsFreeList
      (create_page_list cold array (region ∷ []) 65536)
      (usable_pages (region ∷ []) (scale_up (array + 16 * (65536 / 4096))) (65536 / 4096) 0)
create_page_list_lem_example =
    create_page_list_lem cold (region ∷ []) array 65536 (refl, omega arith, refl) (omega arith)
      (omega arith, tt) (λ i. ground arith)
