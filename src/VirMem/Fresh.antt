-- ===== src/VirMem/Fresh.antt =====
-- `set_mapping` in a region of which the top table has no entry yet.
use nascent_os.Prelude.{
  ℕ, ◌+◌, ◌*◌, ◌%◌, ◌^◌, ◌≤◌, ◌<◌, ◌≡◌, refl, ap, ◌≢◌, false, List, ◌∷◌, arith,
}
use nascent_os.Frames.{Frames, kernbase}
use nascent_os.Frames.Alloc.{IsFreeList}
use nascent_os.VirMem.{present, pdpte_id, pde_id}
use nascent_os.VirMem.Table.{Safe, new_table, entered, entered-IsFreeList, fresh-Safe, fresh_entry}
use nascent_os.VirMem.Mapping.{Walk, slot4, dir3, dir2, dir1}

-- The walk of a region with no table yet, and the frames that become its tables.
pub record Tables (s : Frames) (i j k : ℕ) (is : List ℕ) (pml4 va : ℕ) : Type 0 where
  pub walk : Walk s (i ∷ j ∷ k ∷ is) pml4 va
  pub table3 : (dir3 s pml4 va).0 ≡ 4096 * i
  pub table2 : (dir2 s pml4 va).0 ≡ 4096 * j
  pub table1 : (dir1 s pml4 va).0 ≡ 4096 * k

-- A region with no table yet: the entry of the top table is empty, and three frames are free.
pub fresh-Tables :
    (s : Frames) (i j k : ℕ) (is : List ℕ) (pml4 va : ℕ)
    → IsFreeList s (i ∷ j ∷ k ∷ is)
    → (pml4 % 4096 ≡ 0) × (kernbase ≤ pml4) × (pml4 < 2 ^ 64)
    → Safe s (i ∷ j ∷ k ∷ is) (slot4 s pml4 va)
    → present (s.mem (slot4 s pml4 va)) ≡ false
    → Tables s i j k is pml4 va
fresh-Tables s i j k is pml4 va f al sf e4 =
    let a4 = slot4 s pml4 va in
    let n3 = new_table s i (j ∷ k ∷ is) a4 f e4 in
    let s1 = entered s i a4 in
    let f1 = entered-IsFreeList s i (j ∷ k ∷ is) a4 f sf in
    let a3 = kernbase + 4096 * i + 8 * pdpte_id va in
    let sf3 = fresh-Safe s i (j ∷ k ∷ is) a4 f sf (pdpte_id va) (omega arith) in
    let ne3 : a3 ≢ a4 = omega (arith, sf.frames.0) in
    let e3 = fresh_entry s i (j ∷ k ∷ is) a4 f sf (pdpte_id va) (omega arith) ne3 in
    let n2 = new_table s1 j (k ∷ is) a3 f1 e3 in
    let s2 = entered s1 j a3 in
    let f2 = entered-IsFreeList s1 j (k ∷ is) a3 f1 sf3 in
    let a2 = kernbase + 4096 * j + 8 * pde_id va in
    let sf2 = fresh-Safe s1 j (k ∷ is) a3 f1 sf3 (pde_id va) (omega arith) in
    let ne2 : a2 ≢ a3 = omega (arith, sf3.frames.0) in
    let e2 = fresh_entry s1 j (k ∷ is) a3 f1 sf3 (pde_id va) (omega arith) ne2 in
    let n1 = new_table s2 k is a2 f2 e2 in
    let ij : i ≢ j = λ h. ground (arith, f.distinct.0) in
    let ik : i ≢ k = λ h. ground (arith, f.distinct.0) in
    let jk : j ≢ k = λ h. ground (arith, f.distinct.1.0) in
    let walk : Walk s (i ∷ j ∷ k ∷ is) pml4 va = record {
      aligned = al.0;
      window = (al.1, al.2);
      use4 = record { safe = sf; window = λ h. cc; room = omega arith };
      use3 = rw (n3, e4) (record { safe = sf3; window = λ h. cc; room = omega arith });
      use2 = rw (n3, e4, n2, e3) (record { safe = sf2; window = λ h. cc; room = omega arith });
      apart4 =
          rw (n3, n2, n1)
            (omega (arith, sf.frames), omega (arith, sf.frames), omega (arith, sf.frames));
      apart3 = rw (n3, n2, n1) (omega (arith, ij), omega (arith, ik));
      apart2 = rw (n3, n2, n1) (omega (arith, jk));
    } in
    record {
      walk = walk;
      table3 = ap (λ x. x.0) n3;
      table2 = rw (n3, n2) refl;
      table1 = rw (n3, n2, n1) refl;
    }
