-- ===== src/VirMem/Tests.antt =====
-- The page tables on a machine with sixteen frames: the top table is frame 10, and it is empty.
use nascent_os.Prelude.{ℕ, ◌≡◌, refl, ◌+◌, ◌*◌, ◌%◌, ◌^◌, ◌≢◌, [], ◌∷◌, arith, some, inl, inr, All}
use Prim.Native.Nat.{bit_or}
use nascent_os.Frames.{
  fetch_free_page, kmalloc, get_viraddr, convert_va, get_pa, scale_up, scale_down,
}
use nascent_os.Frames.Alloc.{frame_vir, struct_vir}
use nascent_os.Frames.Tests.{small, small-IsFreeList}
use nascent_os.VirMem.{create_dir_table, set_mapping, get_mapping, get_pte_entry, pml4_id}
use nascent_os.VirMem.Table.{Safe, Spared, left, All-news, All-left}
use nascent_os.VirMem.Mapping.{
  Walk, slot4, slot3, slot2, slot1, dir3, dir2, set_mapping_lem, set_mapping_keeps,
}
use nascent_os.VirMem.Fresh.{fresh-Tables}

abbrev top : ℕ
top = frame_vir 10

abbrev user : ℕ
user = 0x400123

small-Safe : Safe small (5 ∷ 6 ∷ 7 ∷ []) (top + 8 * pml4_id user)
small-Safe = record {
  array = inr (omega arith);
  frames = (inr (omega arith), (inr (omega arith), (inr (omega arith), tt)));
}

small-Walk : Walk small (5 ∷ 6 ∷ 7 ∷ []) top user
small-Walk =
    (fresh-Tables small 5 6 7 [] top user small-IsFreeList (omega arith) small-Safe refl).walk

set_mapping_lem_example :
    (get_pte_entry (set_mapping small top user 0xb000 7) top user ≡ some (bit_or 0xb000 7))
    × (get_mapping (set_mapping small top user 0xb000 7) top user ≡ 0xb000 + user % 2 ^ 12)
set_mapping_lem_example =
    set_mapping_lem small (5 ∷ 6 ∷ 7 ∷ []) top user 0xb000 7 small-IsFreeList small-Walk
      (omega arith) (omega arith)

-- The count of frame 9
abbrev other : ℕ
other = struct_vir small 9 + 8

other-Spared : All (Spared small other) (5 ∷ 6 ∷ 7 ∷ [])
other-Spared = (
  (omega arith, inl (omega arith)),
  ((omega arith, inl (omega arith)), ((omega arith, inl (omega arith)), tt)),
)

other_apart :
    (other ≢ slot4 small top user)
    × (other ≢ slot3 small top user)
    × (other ≢ slot2 small top user)
    × (other ≢ slot1 small top user)
unfolding create_dir_table fetch_free_page kmalloc get_viraddr convert_va get_pa scale_up scale_down
other_apart = omega arith

set_mapping_keeps_example : (set_mapping small top user 0xb000 7).mem other ≡ small.mem other
set_mapping_keeps_example =
    let is = 5 ∷ 6 ∷ 7 ∷ [] in
    let is3 = left small is (slot4 small top user) in
    let sp3 = All-left (Spared small other) small is (slot4 small top user) other-Spared in
    let s3 = (dir3 small top user).1 in
    let sp2 = All-left (Spared small other) s3 is3 (slot3 small top user) sp3 in
    set_mapping_keeps small is top user 0xb000 7 other small-IsFreeList small-Walk other_apart
      (All-news (Spared small other) small is (slot4 small top user) other-Spared)
      (All-news (Spared small other) s3 is3 (slot3 small top user) sp3)
      (All-news (Spared small other) (dir2 small top user).1 (left s3 is3 (slot3 small top user))
        (slot2 small top user) sp2)
