-- ===== src/VirMem/Mapping.antt =====
-- What `set_mapping` maps is what the walks find.
use Prim.Native.Nat.{bit_or}
use nascent_os.Prelude.{
  ℕ, ◌+◌, ◌*◌, ◌%◌, ◌^◌, ◌≤◌, ◌<◌, ◌≡◌, ap, ◌∙◌, ◌≢◌, true, List, arith, some, All,
}
use nascent_os.Prelude.Word.{add64}
use nascent_os.Prelude.Bits.{bit_or_page, bit_or_low}
use nascent_os.Frames.{Frames, kernbase, write}
use nascent_os.Frames.Alloc.{IsFreeList}
use nascent_os.VirMem.{
  present, scldn, table_at, pml4_id, pdpte_id, pde_id, pte_id, create_dir_table, set_mapping,
  get_pte_entry, get_mapping,
}
use nascent_os.VirMem.Table.{
  Usable, HasDir, left, create_dir_table_lem, news, Spared, Spared-pages, create_dir_table_keeps,
}

-- The addresses of the four entries that `set_mapping` goes through, and the states between.
module _ (s : Frames) (pml4 va : ℕ) where
  abbrev pub slot4 : ℕ
  slot4 = pml4 + 8 * pml4_id va

  abbrev pub dir3 : ℕ × Frames
  dir3 = create_dir_table s slot4

  abbrev pub slot3 : ℕ
  slot3 = kernbase + dir3.0 + 8 * pdpte_id va

  abbrev pub dir2 : ℕ × Frames
  dir2 = create_dir_table dir3.1 slot3

  abbrev pub slot2 : ℕ
  slot2 = kernbase + dir2.0 + 8 * pde_id va

  abbrev pub dir1 : ℕ × Frames
  dir1 = create_dir_table dir2.1 slot2

  abbrev pub slot1 : ℕ
  slot1 = kernbase + dir1.0 + 8 * pte_id va

-- The walk can be made: on each level there is a table or a free frame for it, and no entry of the walk
-- is another entry of it.
pub record Walk (s : Frames) (is : List ℕ) (pml4 va : ℕ) : Type 0 where
  pub aligned : pml4 % 4096 ≡ 0
  pub window : (kernbase ≤ pml4) × (pml4 < 2 ^ 64)
  pub use4 : Usable s is (slot4 s pml4 va)
  pub use3 : Usable (dir3 s pml4 va).1 (left s is (slot4 s pml4 va)) (slot3 s pml4 va)
  pub use2 :
      Usable
        (dir2 s pml4 va).1
        (left (dir3 s pml4 va).1 (left s is (slot4 s pml4 va)) (slot3 s pml4 va))
        (slot2 s pml4 va)
  pub apart4 :
      (slot4 s pml4 va ≢ slot3 s pml4 va)
      × (slot4 s pml4 va ≢ slot2 s pml4 va)
      × (slot4 s pml4 va ≢ slot1 s pml4 va)
  pub apart3 : (slot3 s pml4 va ≢ slot2 s pml4 va) × (slot3 s pml4 va ≢ slot1 s pml4 va)
  pub apart2 : slot2 s pml4 va ≢ slot1 s pml4 va

module _ (s : Frames) (is : List ℕ) (pml4 va : ℕ) (f : IsFreeList s is)
    (w : Walk s is pml4 va) where
  h3 :
      HasDir s is
        (slot4 s pml4 va)
        (dir3 s pml4 va).0
        (dir3 s pml4 va).1
        (left s is (slot4 s pml4 va))
  h3 = create_dir_table_lem s is (slot4 s pml4 va) f w.use4

  h2 :
      HasDir
        (dir3 s pml4 va).1
        (left s is (slot4 s pml4 va))
        (slot3 s pml4 va)
        (dir2 s pml4 va).0
        (dir2 s pml4 va).1
        (left (dir3 s pml4 va).1 (left s is (slot4 s pml4 va)) (slot3 s pml4 va))
  h2 =
      create_dir_table_lem (dir3 s pml4 va).1 (left s is (slot4 s pml4 va)) (slot3 s pml4 va)
        h3.free w.use3

  h1 :
      HasDir
        (dir2 s pml4 va).1
        (left (dir3 s pml4 va).1 (left s is (slot4 s pml4 va)) (slot3 s pml4 va))
        (slot2 s pml4 va)
        (dir1 s pml4 va).0
        (dir1 s pml4 va).1
        (left
          (dir2 s pml4 va).1
          (left (dir3 s pml4 va).1 (left s is (slot4 s pml4 va)) (slot3 s pml4 va))
          (slot2 s pml4 va))
  h1 =
      create_dir_table_lem (dir2 s pml4 va).1
        (left (dir3 s pml4 va).1 (left s is (slot4 s pml4 va)) (slot3 s pml4 va)) (slot2 s pml4 va)
        h2.free w.use2

  -- The addresses that the code computes in 64 bits do not wrap.
  no_wrap4 : add64 pml4 (8 * pml4_id va) ≡ slot4 s pml4 va
  no_wrap4 = omega (arith, w.aligned, w.window)

  no_wrap :
      (p o : ℕ)
      → p < 2 ^ 31
      → p % 4096 ≡ 0
      → o < 512
      → add64 (add64 p kernbase) (8 * o) ≡ kernbase + p + 8 * o
  no_wrap p o h al lt = omega arith

  abbrev mapped : ℕ → ℕ → Frames
  mapped pa flags = record (dir1 s pml4 va).1 {
    mem = write (dir1 s pml4 va).1.mem (slot1 s pml4 va) (bit_or pa flags);
  }

  set_mapping-mapped : (pa flags : ℕ) → set_mapping s pml4 va pa flags ≡ mapped pa flags
  unfolding set_mapping
  set_mapping-mapped pa flags = rw (
    no_wrap4,
    no_wrap (dir3 s pml4 va).0 (pdpte_id va) h3.below h3.aligned (omega arith),
    no_wrap (dir2 s pml4 va).0 (pde_id va) h2.below h2.aligned (omega arith),
    no_wrap (dir1 s pml4 va).0 (pte_id va) h1.below h1.aligned (omega arith),
  )

  -- The three directory entries of the walk, in the state after the mapping.
  module _ (pa flags : ℕ) where
    entry4 : (mapped pa flags).mem (slot4 s pml4 va) ≡ (dir3 s pml4 va).1.mem (slot4 s pml4 va)
    entry4 =
        let sf = h3.spares (slot4 s pml4 va) w.use4.safe in
        let k2 = h2.keeps (slot4 s pml4 va) w.apart4.0 sf in
        let k1 = h1.keeps (slot4 s pml4 va) w.apart4.1 (h2.spares (slot4 s pml4 va) sf) in
        let k0 : (mapped pa flags).mem (slot4 s pml4 va)
            ≡ (dir1 s pml4 va).1.mem (slot4 s pml4 va) =
          ground (arith, w.apart4.2) in
        k0 ∙ k1 ∙ k2

    entry3 : (mapped pa flags).mem (slot3 s pml4 va) ≡ (dir2 s pml4 va).1.mem (slot3 s pml4 va)
    entry3 =
        let k1 = h1.keeps (slot3 s pml4 va) w.apart3.0 (h2.spares (slot3 s pml4 va) w.use3.safe) in
        let k0 : (mapped pa flags).mem (slot3 s pml4 va)
            ≡ (dir1 s pml4 va).1.mem (slot3 s pml4 va) =
          ground (arith, w.apart3.1) in
        k0 ∙ k1

    entry2 : (mapped pa flags).mem (slot2 s pml4 va) ≡ (dir1 s pml4 va).1.mem (slot2 s pml4 va)
    entry2 = ground (arith, w.apart2)

    others : (b : ℕ) → b ≢ slot1 s pml4 va → (mapped pa flags).mem b ≡ (dir1 s pml4 va).1.mem b
    others b ne = ground arith

    entry1 : (mapped pa flags).mem (slot1 s pml4 va) ≡ bit_or pa flags
    entry1 = ground arith

    top : scldn pml4 ≡ pml4
    top = omega (arith, w.aligned)

    set4 : present ((mapped pa flags).mem (slot4 s pml4 va)) ≡ true
    set4 = rw entry4 (ground (arith, h3.set))

    set3 : present ((mapped pa flags).mem (slot3 s pml4 va)) ≡ true
    set3 = rw entry3 (ground (arith, h2.set))

    set2 : present ((mapped pa flags).mem (slot2 s pml4 va)) ≡ true
    set2 = rw entry2 (ground (arith, h1.set))

    table3 : table_at ((mapped pa flags).mem (slot4 s pml4 va)) ≡ kernbase + (dir3 s pml4 va).0
    table3 = rw entry4 h3.points

    table2 : table_at ((mapped pa flags).mem (slot3 s pml4 va)) ≡ kernbase + (dir2 s pml4 va).0
    table2 = rw entry3 h2.points

    table1 : table_at ((mapped pa flags).mem (slot2 s pml4 va)) ≡ kernbase + (dir1 s pml4 va).0
    table1 = rw entry2 h1.points

    walk_finds :
        bit_or pa flags % 2 ≡ 1 → get_pte_entry (mapped pa flags) pml4 va ≡ some (bit_or pa flags)
    unfolding get_pte_entry
    walk_finds odd =
        let set1 : present (bit_or pa flags) ≡ true = ground (arith, odd) in
        rw (top, table3, table2, table1, set4, set3, set2, entry1, set1)

    walk_maps :
        get_mapping (mapped pa flags) pml4 va ≡ add64 (scldn (bit_or pa flags)) (va % 2 ^ 12)
    unfolding get_mapping
    walk_maps = rw (top, table3, table2, table1, entry1)

-- After `set_mapping` of an aligned physical address, with flags of twelve bits of which the present one is set,
-- the page-table walk finds the entry, and `get_mapping` translates the virtual address to that page, at the
-- same offset. The walk has to be possible: on each level there is a table or a free frame for one, and its
-- four entries are four different words that allocations spare.
pub set_mapping_lem :
    (s : Frames) (is : List ℕ) (pml4 va pa flags : ℕ)
    → IsFreeList s is
    → Walk s is pml4 va
    → (pa % 4096 ≡ 0) × (pa < 2 ^ 63)
    → (flags < 4096) × (flags % 2 ≡ 1)
    → (get_pte_entry (set_mapping s pml4 va pa flags) pml4 va ≡ some (bit_or pa flags))
      × (get_mapping (set_mapping s pml4 va pa flags) pml4 va ≡ pa + va % 2 ^ 12)
set_mapping_lem s is pml4 va pa flags f w al fl =
    rw (set_mapping-mapped s is pml4 va f w pa flags) (
      walk_finds s is pml4 va f w pa flags (bit_or_low pa flags fl.1),
      walk_maps s is pml4 va f w pa flags ∙ offset,
    )
  where
    offset : add64 (scldn (bit_or pa flags)) (va % 2 ^ 12) ≡ pa + va % 2 ^ 12
    offset = omega (arith, bit_or_page pa flags fl.0)

-- The frames that `set_mapping` takes for new tables, one at most on each level.
abbrev pub new_tables : Frames → List ℕ → ℕ → ℕ → List ℕ × (List ℕ × List ℕ)
new_tables s is pml4 va =
    let is3 = left s is (slot4 s pml4 va) in
    let is2 = left (dir3 s pml4 va).1 is3 (slot3 s pml4 va) in
    (
      news s is (slot4 s pml4 va),
      (
        news (dir3 s pml4 va).1 is3 (slot3 s pml4 va),
        news (dir2 s pml4 va).1 is2 (slot2 s pml4 va),
      ),
    )

-- `set_mapping` writes no words but the four entries on its way, those of the frames that it takes for new tables,
-- and the counts of these frames: every other word is as it was, in the array of `struct page`s and in the frames
-- that stay free, too. The walk has to be possible: on each level there is a table or a free frame for one, and its
-- four entries are four different words that allocations spare.
pub set_mapping_keeps :
    (s : Frames) (is : List ℕ) (pml4 va pa flags b : ℕ)
    → IsFreeList s is
    → Walk s is pml4 va
    → (b ≢ slot4 s pml4 va) × (b ≢ slot3 s pml4 va) × (b ≢ slot2 s pml4 va) × (b ≢ slot1 s pml4 va)
    → All (Spared s b) (new_tables s is pml4 va).0
    → All (Spared s b) (new_tables s is pml4 va).1.0
    → All (Spared s b) (new_tables s is pml4 va).1.1
    → (set_mapping s pml4 va pa flags).mem b ≡ s.mem b
set_mapping_keeps s is pml4 va pa flags b f w ne n4 n3 n2 =
    let s3 = (dir3 s pml4 va).1 in
    let s2 = (dir2 s pml4 va).1 in
    let is3 = left s is (slot4 s pml4 va) in
    let is2 = left s3 is3 (slot3 s pml4 va) in
    let g3 = h3 s is pml4 va f w in
    let g2 = h2 s is pml4 va f w in
    let k3 = create_dir_table_keeps s is (slot4 s pml4 va) b f w.use4 ne.0 n4 in
    let k2 =
      create_dir_table_keeps s3 is3 (slot3 s pml4 va) b g3.free w.use3 ne.1
        (Spared-pages s s3 b (new_tables s is pml4 va).1.0 k3.1 n3) in
    let k1 =
      create_dir_table_keeps s2 is2 (slot2 s pml4 va) b g2.free w.use2 ne.2
        (Spared-pages s s2 b (new_tables s is pml4 va).1.1 (k2.1 ∙ k3.1) n2) in
    ap (λ g. g.mem b) (set_mapping-mapped s is pml4 va f w pa flags)
    ∙ others s is pml4 va f w pa flags b ne.3
    ∙ k1.0
    ∙ k2.0
    ∙ k3.0
