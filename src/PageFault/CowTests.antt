-- ===== src/PageFault/CowTests.antt =====
-- Writes to a page that is shared: the tables of the walk are the frames 10 to 13, the page is frame 9.
use nascent_os.Prelude.{
  ℕ, ◌+◌, ◌-◌, ◌*◌, ◌/◌, ◌%◌, ◌^◌, ◌≡◌, ◌≢◌, ◌<◌, refl, inr, some, [], ◌∷◌, arith,
}
use nascent_os.Frames.{Frames, kernbase, write, get_page_from_pa, scale_down}
use nascent_os.Frames.Alloc.{struct_vir, frame_vir}
use nascent_os.Frames.Tests.{small, array}
use nascent_os.VirMem.{get_mapping, get_pte_entry}
use nascent_os.VirMem.Table.{Safe}
use nascent_os.VirMem.Present.{at1, HasTables, IsApart}
use nascent_os.PageFault.{cow_fault}
use nascent_os.PageFault.Cow.{cow_fault_last}
use nascent_os.PageFault.Copied.{Shared, cow_fault-Shared}

abbrev address : ℕ
address = 0x400123

abbrev cow_entry : ℕ
cow_entry = 4096 * 9 + 0x105

abbrev mapped : Frames
mapped = record small {
  mem =
      write
        (write
          (write (write small.mem (frame_vir 10) (4096 * 11 + 7)) (frame_vir 11) (4096 * 12 + 7))
          (frame_vir 12 + 16) (4096 * 13 + 7))
        (frame_vir 13) cow_entry;
}

mapped-HasTables : HasTables mapped (frame_vir 10) address
mapped-HasTables = record {
  aligned = omega arith;
  window = omega arith;
  points4 = record { present = refl; window = omega arith };
  points3 = record { present = refl; window = omega arith };
  points2 = record { present = refl; window = omega arith };
}

mapped-IsApart : IsApart mapped (frame_vir 10) address
mapped-IsApart = record { apart4 = omega arith; apart3 = omega arith; apart2 = omega arith }

-- A word that allocations spare: it is behind the array, and behind the free frames.
spared : (i o : ℕ) → 9 < i → o < 512 → Safe mapped (5 ∷ 6 ∷ 7 ∷ []) (frame_vir i + 8 * o)
spared i o h l = record {
  array = inr (omega arith);
  frames = (inr (omega arith), (inr (omega arith), (inr (omega arith), tt)));
}

mapped-Shared : Shared mapped 5 (6 ∷ 7 ∷ []) (frame_vir 10) address 9
mapped-Shared = record {
  free = record {
    placed = omega arith;
    chain = (refl, (refl, (refl, refl)));
    free = omega arith;
    distinct = (refl, (refl, (refl, tt)));
  };
  tables = mapped-HasTables;
  apart = mapped-IsApart;
  safe4 = spared 10 0 (omega arith) (omega arith);
  safe3 = spared 11 0 (omega arith) (omega arith);
  safe2 = spared 12 2 (omega arith) (omega arith);
  safe1 = spared 13 0 (omega arith) (omega arith);
  present = refl;
  page = refl;
  used = omega arith;
  other = omega arith;
  count = omega arith;
}

cow_fault-Shared_example :
    let f' = cow_fault mapped (frame_vir 10) address in
    (get_mapping f' (frame_vir 10) address ≡ 4096 * 5 + address % 2 ^ 12)
    × ((o : ℕ) → o < 4096 → f'.mem (frame_vir 5 + o) ≡ mapped.mem (frame_vir 9 + o))
    × (f'.mem (struct_vir mapped 9 + 8) ≡ mapped.mem (struct_vir mapped 9 + 8) - 1)
cow_fault-Shared_example =
    cow_fault-Shared mapped 5 (6 ∷ 7 ∷ []) (frame_vir 10) address 9 mapped-Shared

-- The same page with the count 1.
abbrev single : Frames
single = record mapped { mem = write mapped.mem (kernbase + array + 16 * 9 + 8) 1 }

single-HasTables : HasTables single (frame_vir 10) address
single-HasTables = record {
  aligned = omega arith;
  window = omega arith;
  points4 = record { present = refl; window = omega arith };
  points3 = record { present = refl; window = omega arith };
  points2 = record { present = refl; window = omega arith };
}

single_count :
    single.mem (get_page_from_pa single (single.mem (at1 single (frame_vir 10) address)) + 8) ≡ 1
unfolding get_page_from_pa scale_down
single_count = refl

cow_fault_last_example :
    let f' = cow_fault single (frame_vir 10) address in
    let e = single.mem (at1 single (frame_vir 10) address) in
    (e' : ℕ) × (get_pte_entry f' (frame_vir 10) address ≡ some e')
    × ((e' / 4096 ≡ e / 4096)
        × (e' % 2 ≡ 1)
        × (e' / 2 % 2 ≡ 1)
        × (e' / 4 % 2 ≡ e / 4 % 2)
        × (e' / 256 % 2 ≡ 0))
    × ((b : ℕ) → b ≢ at1 single (frame_vir 10) address → f'.mem b ≡ single.mem b)
cow_fault_last_example =
    cow_fault_last single (frame_vir 10) address single-HasTables
      (record { apart4 = omega arith; apart3 = omega arith; apart2 = omega arith }) refl
      single_count
