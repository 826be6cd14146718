-- ===== src/VirMem/Present.antt =====
-- Where the three upper tables are there already, `set_mapping` writes one word and the walks read it.
use Prim.Native.Nat.{bit_or}
use mathlib.Core.Path.{subst}
use nascent_os.Prelude.{ℕ, ◌+◌, ◌*◌, ◌%◌, ◌^◌, ◌≤◌, ◌<◌, ◌≡◌, refl, ap, ◌∙◌, ◌≢◌, sym, arith, some}
use nascent_os.Prelude.Word.{add64}
use nascent_os.Frames.{Frames, kernbase, write, scale_down}
use nascent_os.VirMem.{
  scldn, table_at, pml4_id, pdpte_id, pde_id, pte_id, create_dir_table, set_mapping, get_pte_entry,
  get_mapping,
}

-- The addresses of the four entries of the walk.
module _ (s : Frames) (pml va : ℕ) where
  abbrev pub at4 : ℕ
  at4 = pml + 8 * pml4_id va

  abbrev pub at3 : ℕ
  at3 = table_at (s.mem at4) + 8 * pdpte_id va

  abbrev pub at2 : ℕ
  at2 = table_at (s.mem at3) + 8 * pde_id va

  abbrev pub at1 : ℕ
  at1 = table_at (s.mem at2) + 8 * pte_id va

-- An entry that points at a table of the kernel's window.
pub record Points (e : ℕ) : Type 0 where
  pub present : e % 2 ≡ 1
  pub window : e < 2 ^ 31

-- The three upper tables are there, and the top table is a page of the window.
pub record HasTables (s : Frames) (pml va : ℕ) : Type 0 where
  pub aligned : pml % 4096 ≡ 0
  pub window : (kernbase ≤ pml) × (pml < 2 ^ 64)
  pub points4 : Points (s.mem (at4 s pml va))
  pub points3 : Points (s.mem (at3 s pml va))
  pub points2 : Points (s.mem (at2 s pml va))

dir_present :
    (s : Frames) (a : ℕ) → s.mem a % 2 ≡ 1 → create_dir_table s a ≡ (scale_down (s.mem a), s)
unfolding create_dir_table
dir_present s a h = ground arith

next_at :
    (e id : ℕ)
    → Points e
    → id < 512
    → add64 (add64 (scale_down e) kernbase) (8 * id) ≡ table_at e + 8 * id
unfolding scale_down
next_at e id p h = omega (arith, p.window)

-- `set_mapping` with all tables there writes the entry, and nothing else.
pub set_mapping_present :
    (s : Frames) (pml va pa flags : ℕ)
    → HasTables s pml va
    → set_mapping s pml va pa flags
      ≡ record s { mem = write s.mem (at1 s pml va) (bit_or pa flags) }
unfolding set_mapping
set_mapping_present s pml va pa flags h =
    let a4 : add64 pml (8 * pml4_id va) ≡ at4 s pml va = omega (arith, h.window, h.aligned) in
    let d4 = dir_present s (at4 s pml va) h.points4.present in
    let a3 = next_at (s.mem (at4 s pml va)) (pdpte_id va) h.points4 (omega arith) in
    let d3 = dir_present s (at3 s pml va) h.points3.present in
    let a2 = next_at (s.mem (at3 s pml va)) (pde_id va) h.points3 (omega arith) in
    let d2 = dir_present s (at2 s pml va) h.points2.present in
    let a1 = next_at (s.mem (at2 s pml va)) (pte_id va) h.points2 (omega arith) in
    rw (a4, d4, a3, d3, a2, d2, a1) refl

scldn_aligned : (pml : ℕ) → pml % 4096 ≡ 0 → scldn pml ≡ pml
scldn_aligned pml h = omega (arith, h)

-- The walk reads the fourth entry.
pub get_pte_entry_present :
    (s : Frames) (pml va : ℕ)
    → HasTables s pml va
    → s.mem (at1 s pml va) % 2 ≡ 1
    → get_pte_entry s pml va ≡ some (s.mem (at1 s pml va))
unfolding get_pte_entry
get_pte_entry_present s pml va h p =
    let e = scldn_aligned pml h.aligned in
    rw e (ground (arith, h.points4.present, h.points3.present, h.points2.present))

pub get_mapping_present :
    (s : Frames) (pml va : ℕ)
    → HasTables s pml va
    → get_mapping s pml va ≡ add64 (scldn (s.mem (at1 s pml va))) (va % 2 ^ 12)
unfolding get_mapping
get_mapping_present s pml va h = let e = scldn_aligned pml h.aligned in rw e refl

-- The walk leads through the same entries after a change that spares the three upper ones.
pub record Kept (s s' : Frames) (pml va : ℕ) : Type 0 where
  pub same : at1 s' pml va ≡ at1 s pml va
  pub tables : HasTables s' pml va

pub tables-Kept :
    (s s' : Frames) (pml va : ℕ)
    → HasTables s pml va
    → s'.mem (at4 s pml va) ≡ s.mem (at4 s pml va)
    → s'.mem (at3 s pml va) ≡ s.mem (at3 s pml va)
    → s'.mem (at2 s pml va) ≡ s.mem (at2 s pml va)
    → Kept s s' pml va
tables-Kept s s' pml va h m4 m3 m2 =
    let e3 : at3 s' pml va ≡ at3 s pml va = ap (λ e. table_at e + 8 * pdpte_id va) m4 in
    let n3 = ap s'.mem e3 ∙ m3 in
    let e2 : at2 s' pml va ≡ at2 s pml va = ap (λ e. table_at e + 8 * pde_id va) n3 in
    let n2 = ap s'.mem e2 ∙ m2 in
    record {
      same = ap (λ e. table_at e + 8 * pte_id va) n2;
      tables = record {
        aligned = h.aligned;
        window = h.window;
        points4 = subst Points (sym m4) h.points4;
        points3 = subst Points (sym n3) h.points3;
        points2 = subst Points (sym n2) h.points2;
      };
    }

-- The entry is none of the upper ones.
pub record IsApart (s : Frames) (pml va : ℕ) : Type 0 where
  pub apart4 : at1 s pml va ≢ at4 s pml va
  pub apart3 : at1 s pml va ≢ at3 s pml va
  pub apart2 : at1 s pml va ≢ at2 s pml va

-- After another entry is written, the walk reads it.
pub written_entry :
    (s : Frames) (pml va v : ℕ)
    → HasTables s pml va
    → IsApart s pml va
    → v % 2 ≡ 1
    → let s' = record s { mem = write s.mem (at1 s pml va) v } in
      (get_pte_entry s' pml va ≡ some v) × (get_mapping s' pml va ≡ add64 (scldn v) (va % 2 ^ 12))
written_entry s pml va v h ap' o =
    let s' : Frames = record s { mem = write s.mem (at1 s pml va) v } in
    let k =
      tables-Kept s s' pml va h (ground (arith, ap'.apart4)) (ground (arith, ap'.apart3))
        (ground (arith, ap'.apart2)) in
    let e : s'.mem (at1 s' pml va) ≡ v = ap s'.mem k.same ∙ ground arith in
    (
      get_pte_entry_present s' pml va k.tables (ap (λ w. w % 2) e ∙ o) ∙ ap (λ w. some w) e,
      get_mapping_present s' pml va k.tables ∙ ap (λ w. add64 (scldn w) (va % 2 ^ 12)) e,
    )
