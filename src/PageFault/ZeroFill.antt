-- ===== src/PageFault/ZeroFill.antt =====
-- What the walk over the areas finds, and where the new page is mapped.
use Prim.Native.Nat.{bit_or}
use nascent_os.Prelude.{
  ℕ, zero, suc, ◌+◌, ◌*◌, ◌%◌, ◌^◌, ◌≤◌, ◌<◌, ◌≡◌, refl, ap, ◌∙◌, ◌≢◌, ◌⊎◌, inr, All, false, Option,
  none, some, List, [], ◌∷◌, arith, if◌then◌else◌, length,
}
use nascent_os.Chain.{Chain, has}
use nascent_os.Frames.{Frames, kernbase, scale_down}
use nascent_os.Frames.Alloc.{
  struct_vir, frame_vir, IsFree, IsFreeList, taken, taken-Took, kmalloc-taken,
}
use nascent_os.VirMem.{get_mapping, get_pte_entry, set_mapping, pml4_id, present}
use nascent_os.VirMem.Table.{Safe, Apart, Spared, left, All-news, All-left}
use nascent_os.VirMem.Mapping.{slot4, slot3, slot2, dir3, dir2, set_mapping_lem, set_mapping_keeps}
use nascent_os.VirMem.Fresh.{Tables, fresh-Tables}
use nascent_os.Proc.{Proc, num_vma}
use nascent_os.Proc.FreeLists.Laws.{vma_link}
use nascent_os.PageFault.{in_vma, vma_walk, check_vma, zero_fill}

-- The first area of the list that the address lies in.
abbrev pub first_area : Proc → ℕ → List ℕ → Option ℕ
first_area s v [] = none
first_area s v (i ∷ is) = if in_vma s v i then some i else first_area s v is

vma_walk-first :
    (k : ℕ) (s : Proc) (v : ℕ) (h : Option ℕ) (is : List ℕ)
    → Chain some none (vma_link s) h is
    → length is < k
    → vma_walk k s v h ≡ some (first_area s v is)
unfolding vma_walk
vma_walk-first zero s v h is c l = absurd (omega arith)
vma_walk-first (suc k) s v h [] c l = rw c refl
vma_walk-first (suc k) s v h (i ∷ is) c l =
    let rest = vma_walk-first k s v (vma_link s i) is c.1 (omega arith) in
    rw c.0 (ground (arith, rest))

-- `check_vma` finds the first memory area of the running task that the address lies in, the bounds
-- included, or NULL if there is none; the walk ends.
pub check_vma-first :
    (s : Proc) (v : ℕ) (is : List ℕ)
    → Chain some none (vma_link s) (s.pcb s.running_task).task_mm.vma_head is
    → length is ≤ num_vma
    → check_vma s v ≡ some (first_area s v is)
unfolding check_vma
check_vma-first s v is c l =
    vma_walk-first (suc num_vma) s v (s.pcb s.running_task).task_mm.vma_head is c (omega arith)

All-Spared :
    (f : Frames) (a x : ℕ) (is : List ℕ)
    → (x < kernbase + f.pages) ⊎ (kernbase + (f.pages + 16 * f.page_count) ≤ x)
    → (frame_vir a ≤ x) × (x < frame_vir a + 4096)
    → All (IsFree f) is
    → has a is ≡ false
    → All (Spared f x) is
All-Spared f a x [] ar inside fr out = tt
All-Spared f a x (i ∷ is) ar inside (fi, fr) out =
    let ne : a ≢ i = ground arith in
    (
      (omega (arith, ar, fi), omega (arith, ne, inside)),
      All-Spared f a x is ar inside fr (ground arith),
    )

-- A word of the page is not on the way of the mapping.
zero_kept :
    (f : Frames) (a i j k : ℕ) (is : List ℕ) (pml v : ℕ)
    → IsFreeList f (a ∷ i ∷ j ∷ k ∷ is)
    → (x : ℕ) → (frame_vir a ≤ x) × (x < frame_vir a + 4096)
    → Apart (pml + 8 * pml4_id v) a
    → Tables (taken f a) i j k is pml v
    → (set_mapping (taken f a) pml v (4096 * a) 7).mem x ≡ (taken f a).mem x
zero_kept f a i j k is pml v l x inside top tables =
    let f1 = taken f a in
    let is1 = i ∷ j ∷ k ∷ is in
    let t = taken-Took f a is1 l in
    let ai : a ≢ i = λ h. ground (arith, l.distinct.0) in
    let aj : a ≢ j = λ h. ground (arith, l.distinct.0) in
    let ak : a ≢ k = λ h. ground (arith, l.distinct.0) in
    let sp =
      All-Spared f1 a x is1 (inr (omega (arith, l.free.0, inside))) inside l.free.1 l.distinct.0 in
    let is3 = left f1 is1 (slot4 f1 pml v) in
    let sp3 = All-left (Spared f1 x) f1 is1 (slot4 f1 pml v) sp in
    let s3 = (dir3 f1 pml v).1 in
    let sp2 = All-left (Spared f1 x) s3 is3 (slot3 f1 pml v) sp3 in
    set_mapping_keeps f1 is1 pml v (4096 * a) 7 x t.rest tables.walk
      (
        omega (arith, top, inside),
        omega (arith, tables.table3, ai, inside),
        omega (arith, tables.table2, aj, inside),
        omega (arith, tables.table1, ak, inside),
      )
      (All-news (Spared f1 x) f1 is1 (slot4 f1 pml v) sp)
      (All-news (Spared f1 x) s3 is3 (slot3 f1 pml v) sp3)
      (All-news (Spared f1 x) (dir2 f1 pml v).1 (left s3 is3 (slot3 f1 pml v)) (slot2 f1 pml v) sp2)

-- A fault in a region of which the top table has no entry yet, with four frames free: the first one is the
-- new page. The walk finds the page's address with the flags 7 for the faulting page, so that the page is mapped
-- at its start, and after that the page is still all zeros.
pub zero_fill_lem :
    (f : Frames) (a i j k : ℕ) (is : List ℕ) (pml addr : ℕ)
    → IsFreeList f (a ∷ i ∷ j ∷ k ∷ is)
    → (pml % 4096 ≡ 0) × (kernbase ≤ pml) × (pml < 2 ^ 64)
    → Safe f (a ∷ i ∷ j ∷ k ∷ is) (pml + 8 * pml4_id (scale_down addr))
    → present (f.mem (pml + 8 * pml4_id (scale_down addr))) ≡ false
    → let f' = zero_fill f pml addr in
      (get_pte_entry f' pml (scale_down addr) ≡ some (bit_or (4096 * a) 7))
      × (get_mapping f' pml (scale_down addr) ≡ 4096 * a + scale_down addr % 2 ^ 12)
      × ((x : ℕ) → frame_vir a ≤ x → x < frame_vir a + 4096 → f'.mem x ≡ 0)
unfolding zero_fill
zero_fill_lem f a i j k is pml addr l al sf e =
    let v = scale_down addr in
    let slot = pml + 8 * pml4_id v in
    let t = taken-Took f a (i ∷ j ∷ k ∷ is) l in
    let f1 = taken f a in
    let ne : slot ≢ struct_vir f a + 8 = omega (arith, sf.array, l.free.0) in
    let same = t.others slot ne sf.frames.0 in
    let sf1 : Safe f1 (i ∷ j ∷ k ∷ is) slot = record { array = sf.array; frames = sf.frames.1 } in
    let e1 : present (f1.mem slot) ≡ false = ap present same ∙ e in
    let tables = fresh-Tables f1 i j k is pml v t.rest al sf1 e1 in
    let maps =
      set_mapping_lem f1 (i ∷ j ∷ k ∷ is) pml v (4096 * a) 7 t.rest tables.walk
        (omega (arith, l.free.0, l.placed.few)) (omega arith) in
    rw (kmalloc-taken f a l.placed l.free.0.0 l.chain.0) (
      maps.0,
      maps.1,
      λ x lo hi. zero_kept f a i j k is pml v l x (lo, hi) sf.frames.0 tables ∙ t.cleared x lo hi,
    )
