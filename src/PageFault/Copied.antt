-- ===== src/PageFault/Copied.antt =====
-- Copy on write of a page that others hold too.
use Prim.Native.Nat.{bit_or}
use nascent_os.Prelude.{
  ℕ, ◌+◌, ◌-◌, ◌*◌, ◌/◌, ◌%◌, ◌^◌, ◌≤◌, ◌<◌, ◌≡◌, refl, ap, ◌∙◌, ◌≢◌, sym, true, false, arith, List,
  ◌∷◌, ◌⊎◌, ltb, ◌==◌,
}
use nascent_os.Prelude.Bits.{bit_or_page}
use nascent_os.Prelude.Word.{add64, sub64}
use nascent_os.Frames.{Frames, kernbase, write, get_page_from_pa, scale_down}
use nascent_os.Frames.Alloc.{
  IsFree, IsFreeList, struct_vir, frame_vir, taken, taken-Took, page_alloc-taken,
  get_page_from_pa_lem,
}
use nascent_os.VirMem.{get_mapping, scldn, pml4_id, pdpte_id, pde_id, pte_id}
use nascent_os.VirMem.Table.{Safe}
use nascent_os.VirMem.Present.{
  at1, at2, at3, at4, HasTables, IsApart, Kept, tables-Kept, set_mapping_present,
  get_pte_entry_present, get_mapping_present,
}
use nascent_os.PageFault.{cow_copy, cow_found, cow_fault, copy_page, user_at}

-- The address of the page that the process sees at `va`.
mapping_base :
    (s : Frames) (pml va : ℕ)
    → HasTables s pml va
    → get_mapping s pml (scale_down va) ≡ add64 (scldn (s.mem (at1 s pml va))) 0
unfolding get_mapping scale_down
mapping_base s pml va h =
    let e4 : pml4_id (va - va % 4096) ≡ pml4_id va = omega arith in
    let e3 : pdpte_id (va - va % 4096) ≡ pdpte_id va = omega arith in
    let e2 : pde_id (va - va % 4096) ≡ pde_id va = omega arith in
    let e1 : pte_id (va - va % 4096) ≡ pte_id va = omega arith in
    let z : (va - va % 4096) % 2 ^ 12 ≡ 0 = omega arith in
    let e : scldn pml ≡ pml = omega (arith, h.aligned) in rw (e4, e3, e2, e1, z, e) refl

copy_page_out :
    (mem : ℕ → ℕ) (src buff b : ℕ)
    → (b < buff) ⊎ (buff + 4096 ≤ b)
    → copy_page mem src buff b ≡ mem b
copy_page_out mem src buff b o = ground arith

copy_page_in :
    (mem : ℕ → ℕ) (src buff o : ℕ) → o < 4096 → copy_page mem src buff (buff + o) ≡ mem (src + o)
copy_page_in mem src buff o h = let e : buff + o - buff ≡ o = omega arith in ground (arith, e)

-- The memory after the page `p` is copied to the frame `a` and the entry at `w` names it.
abbrev copied : Frames → ℕ → ℕ → ℕ → ℕ → ℕ
copied f a p w =
    let mem1 =
      write (copy_page (taken f a).mem (frame_vir p) (frame_vir a)) w (bit_or (4096 * a) 7) in
    write mem1 (struct_vir f p + 8) (mem1 (struct_vir f p + 8) - 1)

written_out :
    (mem : ℕ → ℕ) (w c v b : ℕ)
    → b ≢ w
    → b ≢ c
    → write (write mem w v) c (write mem w v c - 1) b ≡ mem b
written_out mem w c v b n m = ground arith

written_in : (mem : ℕ → ℕ) (w c v : ℕ) → w ≢ c → write (write mem w v) c (write mem w v c - 1) w ≡ v
written_in mem w c v n = ground arith

counted_down :
    (mem : ℕ → ℕ) (w c v : ℕ) → c ≢ w → write (write mem w v) c (write mem w v c - 1) c ≡ mem c - 1
counted_down mem w c v n = ground arith

-- What a copy needs: the free frame `a`, the tables of the walk, which allocations spare, and the page `p`
-- in the last entry, which others hold too.
pub record Shared (f : Frames) (a : ℕ) (is : List ℕ) (pml va p : ℕ) : Type 0 where
  pub free : IsFreeList f (a ∷ is)
  pub tables : HasTables f pml va
  pub apart : IsApart f pml va
  pub safe4 : Safe f (a ∷ is) (at4 f pml va)
  pub safe3 : Safe f (a ∷ is) (at3 f pml va)
  pub safe2 : Safe f (a ∷ is) (at2 f pml va)
  pub safe1 : Safe f (a ∷ is) (at1 f pml va)
  pub present : f.mem (at1 f pml va) % 2 ≡ 1
  pub page : f.mem (at1 f pml va) / 4096 ≡ p
  pub used : IsFree f p
  pub other : p ≢ a
  pub count : 1 < f.mem (struct_vir f p + 8)

module _ (f : Frames) (a : ℕ) (is : List ℕ) (pml va p : ℕ) (h : Shared f a is pml va p) where
  spared : (b : ℕ) → Safe f (a ∷ is) b → (taken f a).mem b ≡ f.mem b
  spared b s =
      let t = taken-Took f a is h.free in
      t.others b (omega (arith, s.array, h.free.free.0)) s.frames.0

  spared_copy :
      (b src : ℕ) → Safe f (a ∷ is) b → copy_page (taken f a).mem src (frame_vir a) b ≡ f.mem b
  spared_copy b src s = copy_page_out (taken f a).mem src (frame_vir a) b s.frames.0 ∙ spared b s

  kept : Kept f (taken f a) pml va
  kept =
      tables-Kept f (taken f a) pml va h.tables (spared (at4 f pml va) h.safe4)
        (spared (at3 f pml va) h.safe3) (spared (at2 f pml va) h.safe2)

  abbrev frame_copied : Frames
  frame_copied = record (taken f a) { mem = copy_page (taken f a).mem (frame_vir p) (frame_vir a) }

  Kept-copy : Kept f frame_copied pml va
  Kept-copy =
      tables-Kept f frame_copied pml va h.tables (spared_copy (at4 f pml va) (frame_vir p) h.safe4)
        (spared_copy (at3 f pml va) (frame_vir p) h.safe3)
        (spared_copy (at2 f pml va) (frame_vir p) h.safe2)

  source_at : user_at (taken f a) pml (scale_down va) ≡ frame_vir p
  source_at =
      let e = ap (taken f a).mem kept.same ∙ spared (at1 f pml va) h.safe1 in
      omega (arith, mapping_base (taken f a) pml va kept.tables, e, h.page, h.used, h.free.placed)

  struct_at : get_page_from_pa f (f.mem (at1 f pml va)) ≡ struct_vir f p
  struct_at =
      let e = f.mem (at1 f pml va) in
      let s : e ≡ 4096 * p + e % 4096 = omega (arith, h.page) in
      ap (get_page_from_pa f) s
      ∙ (get_page_from_pa_lem f p (e % 4096) h.free.placed h.used.0 (omega arith)).0

  copy-Step : cow_fault f pml va ≡ record (taken f a) { mem = copied f a p (at1 f pml va) }
  unfolding cow_fault cow_found cow_copy
  copy-Step =
      let n1 : (f.mem (struct_vir f p + 8) == 1) ≡ false = ground (arith, h.count) in
      let n2 : ltb 1 (f.mem (struct_vir f p + 8)) ≡ true = ground (arith, h.count) in
      let pa : sub64 (frame_vir a) kernbase ≡ 4096 * a =
        omega (arith, h.free.free.0, h.free.placed) in
      ap (cow_found f pml va) (get_pte_entry_present f pml va h.tables h.present)
      ∙ rw
          (
            struct_at,
            n1,
            n2,
            page_alloc-taken f a h.free.placed h.free.free.0.0 h.free.chain.0,
            source_at,
            pa,
            set_mapping_present frame_copied pml va (4096 * a) 7 Kept-copy.tables,
            Kept-copy.same,
          )
          refl

  not_struct : (b : ℕ) → Safe f (a ∷ is) b → b ≢ struct_vir f p + 8
  not_struct b s = omega (arith, s.array, h.used)

  copied_upper :
      (b : ℕ) → Safe f (a ∷ is) b → at1 f pml va ≢ b → copied f a p (at1 f pml va) b ≡ f.mem b
  copied_upper b s n =
      written_out (copy_page (taken f a).mem (frame_vir p) (frame_vir a)) (at1 f pml va)
        (struct_vir f p + 8) (bit_or (4096 * a) 7) b (λ q. n (sym q)) (not_struct b s)
      ∙ spared_copy b (frame_vir p) s

  abbrev after : Frames
  after = record (taken f a) { mem = copied f a p (at1 f pml va) }

  Kept-after : Kept f after pml va
  Kept-after =
      tables-Kept f after pml va h.tables (copied_upper (at4 f pml va) h.safe4 h.apart.apart4)
        (copied_upper (at3 f pml va) h.safe3 h.apart.apart3)
        (copied_upper (at2 f pml va) h.safe2 h.apart.apart2)

  copied_entry : after.mem (at1 f pml va) ≡ bit_or (4096 * a) 7
  copied_entry =
      written_in (copy_page (taken f a).mem (frame_vir p) (frame_vir a)) (at1 f pml va)
        (struct_vir f p + 8) (bit_or (4096 * a) 7) (not_struct (at1 f pml va) h.safe1)

  copied_word : (o : ℕ) → o < 4096 → after.mem (frame_vir a + o) ≡ f.mem (frame_vir p + o)
  copied_word o l =
      let t = taken-Took f a is h.free in
      written_out (copy_page (taken f a).mem (frame_vir p) (frame_vir a)) (at1 f pml va)
        (struct_vir f p + 8) (bit_or (4096 * a) 7) (frame_vir a + o)
        (omega (arith, h.safe1.frames.0)) (omega (arith, h.free.free.0, h.used))
      ∙ copy_page_in (taken f a).mem (frame_vir p) (frame_vir a) o l
      ∙ t.others (frame_vir p + o) (omega (arith, h.used, h.free.free.0)) (omega (arith, h.other))

  copied_count : after.mem (struct_vir f p + 8) ≡ f.mem (struct_vir f p + 8) - 1
  copied_count =
      let t = taken-Took f a is h.free in
      let n = not_struct (at1 f pml va) h.safe1 in
      let c : copy_page (taken f a).mem (frame_vir p) (frame_vir a) (struct_vir f p + 8)
          ≡ f.mem (struct_vir f p + 8) =
        copy_page_out (taken f a).mem (frame_vir p) (frame_vir a) (struct_vir f p + 8)
          (omega (arith, h.free.free.0, h.used))
        ∙ t.others (struct_vir f p + 8) (omega (arith, h.other))
            (omega (arith, h.free.free.0, h.used)) in
      counted_down (copy_page (taken f a).mem (frame_vir p) (frame_vir a)) (at1 f pml va)
        (struct_vir f p + 8) (bit_or (4096 * a) 7) (λ q. n (sym q))
      ∙ ap (λ x. x - 1) c

-- A write to a page that others hold too: the process's address is mapped to a frame of its own, the first
-- free one, which holds the bytes of the page; the page is counted once less, and so it stays with the
-- others. The hypotheses are those of `Shared`.
pub cow_fault-Shared :
    (f : Frames) (a : ℕ) (is : List ℕ) (pml va p : ℕ)
    → Shared f a is pml va p
    → let f' = cow_fault f pml va in
      (get_mapping f' pml va ≡ 4096 * a + va % 2 ^ 12)
      × ((o : ℕ) → o < 4096 → f'.mem (frame_vir a + o) ≡ f.mem (frame_vir p + o))
      × (f'.mem (struct_vir f p + 8) ≡ f.mem (struct_vir f p + 8) - 1)
cow_fault-Shared f a is pml va p h =
    let k = Kept-after f a is pml va p h in
    let f4 = after f a is pml va p h in
    let e = ap f4.mem k.same ∙ copied_entry f a is pml va p h in
    rw (copy-Step f a is pml va p h) (
      get_mapping_present f4 pml va k.tables
          ∙ ap (λ w. add64 (scldn w) (va % 2 ^ 12)) e
          ∙ omega (arith, bit_or_page (4096 * a) 7 (omega arith), h.free.free.0, h.free.placed),
      copied_word f a is pml va p h,
      copied_count f a is pml va p h,
    )
