-- ===== src/Proc/Fork/Share.antt =====
-- One page of the parent, shared with the child.
use nascent_os.Prelude.{ℕ, ◌+◌, ◌/◌, ◌%◌, ◌≡◌, refl, ap, ◌∙◌, ◌≢◌, arith, some}
use nascent_os.Prelude.Bits.{bit_or-zero, bit_or_256}
use nascent_os.Frames.{Frames, write, get_page_from_pa}
use nascent_os.VirMem.{get_pte_entry}
use nascent_os.VirMem.Present.{
  at1, at2, at3, at4, HasTables, Kept, tables-Kept, set_mapping_present, get_pte_entry_present,
}
use nascent_os.PageFault.{unset_write, set_cow}
use nascent_os.Proc.Fork.{share_found, share_page}

-- The entry that both get.
abbrev pub shared : ℕ → ℕ
shared e = set_cow (unset_write e)

shared_bits :
    (e : ℕ)
    → e % 2 ≡ 1
    → (shared e / 4096 ≡ e / 4096)
      × (shared e % 2 ≡ 1)
      × (shared e / 2 % 2 ≡ 0)
      × (shared e / 256 % 2 ≡ 1)
shared_bits e h =
    let a = bit_or_256 (unset_write e) in
    (omega (arith, a), omega (arith, a), omega (arith, a), omega (arith, a))

-- The word `b` is none of the four entries of a walk, or none of the three upper ones.
pub record Off (s : Frames) (pml va b : ℕ) : Type 0 where
  pub off4 : at4 s pml va ≢ b
  pub off3 : at3 s pml va ≢ b
  pub off2 : at2 s pml va ≢ b

-- Two processes with their tables, whose walks meet in no entry that is written; `q` is the word with the
-- count of the page.
pub record Pair (f : Frames) (pp cp va q : ℕ) : Type 0 where
  pub parent : HasTables f pp va
  pub child : HasTables f cp va
  pub parent_off : Off f pp va (at1 f pp va) × Off f pp va (at1 f cp va) × Off f pp va q
  pub child_off : Off f cp va (at1 f pp va) × Off f cp va (at1 f cp va) × Off f cp va q
  pub apart : at1 f pp va ≢ at1 f cp va
  pub counts : (at1 f pp va ≢ q) × (at1 f cp va ≢ q)

-- The memory after three words are written, the last one counted up.
abbrev three_writes : (ℕ → ℕ) → ℕ → ℕ → ℕ → ℕ → ℕ → ℕ
three_writes mem a b v q = let mem2 = write (write mem a v) b v in write mem2 q (mem2 q + 1)

module _ (mem : ℕ → ℕ) (a b v q : ℕ) (ab : a ≢ b) (aq : a ≢ q) (bq : b ≢ q) where
  at_first : three_writes mem a b v q a ≡ v
  at_first = ground arith

  at_second : three_writes mem a b v q b ≡ v
  at_second = ground arith

  at_count : three_writes mem a b v q q ≡ mem q + 1
  at_count = ground arith

elsewhere :
    (mem : ℕ → ℕ) (a b v q x : ℕ) → x ≢ a → x ≢ b → x ≢ q → three_writes mem a b v q x ≡ mem x
elsewhere mem a b v q x na nb nq = ground arith

module _ (f : Frames) (pp cp va q : ℕ) (h : Pair f pp cp va q) (o : f.mem (at1 f pp va) % 2 ≡ 1)
    (eq : get_page_from_pa f (f.mem (at1 f pp va)) + 8 ≡ q) where
  abbrev e : ℕ
  e = f.mem (at1 f pp va)

  abbrev first_write : Frames
  first_write = record f { mem = write f.mem (at1 f pp va) (shared e) }

  child-Kept : Kept f first_write cp va
  child-Kept =
      let off = h.child_off.0 in
      tables-Kept f first_write cp va h.child (ground (arith, off.off4)) (ground (arith, off.off3))
        (ground (arith, off.off2))

  abbrev after : Frames
  after = record f { mem = three_writes f.mem (at1 f pp va) (at1 f cp va) (shared e) q }

  share_step : share_page f pp cp va ≡ after
  unfolding share_page share_found
  share_step =
      ap (share_found f pp cp va) (get_pte_entry_present f pp va h.parent o)
      ∙ rw
          (
            set_mapping_present f pp va (shared e) 0 h.parent,
            bit_or-zero (shared e),
            set_mapping_present first_write cp va (shared e) 0 child-Kept.tables,
            child-Kept.same,
            eq,
            bit_or-zero (shared e),
          )
          refl

  kept :
      (pml : ℕ)
      → HasTables f pml va
      → Off f pml va (at1 f pp va) × Off f pml va (at1 f cp va) × Off f pml va q
      → Kept f after pml va
  kept pml t off =
      let go = elsewhere f.mem (at1 f pp va) (at1 f cp va) (shared e) q in
      tables-Kept f after pml va t (go (at4 f pml va) off.0.off4 off.1.off4 off.2.off4)
        (go (at3 f pml va) off.0.off3 off.1.off3 off.2.off3)
        (go (at2 f pml va) off.0.off2 off.1.off2 off.2.off2)

  finds :
      (pml : ℕ)
      → Kept f after pml va
      → after.mem (at1 f pml va) ≡ shared e
      → get_pte_entry after pml va ≡ some (shared e)
  finds pml k v =
      let w = ap after.mem k.same ∙ v in
      get_pte_entry_present after pml va k.tables (ap (λ x. x % 2) w ∙ (shared_bits e o).1)
      ∙ ap (λ x. some x) w

-- A page that the parent maps: after it is shared, parent and child map the same page, neither with the
-- permission to write, both with the copy-on-write bit, and the page is counted once more. Both have
-- their tables, and the entries that are written and the count are words of their own.
pub share_page_lem :
    (f : Frames) (pp cp va q : ℕ)
    → Pair f pp cp va q
    → f.mem (at1 f pp va) % 2 ≡ 1
    → get_page_from_pa f (f.mem (at1 f pp va)) + 8 ≡ q
    → let f' = share_page f pp cp va in
      let e = f.mem (at1 f pp va) in
      (e' : ℕ) × (get_pte_entry f' pp va ≡ some e')
      × (get_pte_entry f' cp va ≡ some e')
      × ((e' / 4096 ≡ e / 4096) × (e' % 2 ≡ 1) × (e' / 2 % 2 ≡ 0) × (e' / 256 % 2 ≡ 1))
      × (f'.mem q ≡ f.mem q + 1)
share_page_lem f pp cp va q h o eq =
    let v = shared (f.mem (at1 f pp va)) in
    let kp = kept f pp cp va q h o eq pp h.parent h.parent_off in
    let kc = kept f pp cp va q h o eq cp h.child h.child_off in
    let n = h.counts in
    rw (share_step f pp cp va q h o eq) (
      v,
      finds f pp cp va q h o eq pp kp
          (at_first f.mem (at1 f pp va) (at1 f cp va) v q h.apart n.0 n.1),
      finds f pp cp va q h o eq cp kc
          (at_second f.mem (at1 f pp va) (at1 f cp va) v q h.apart n.0 n.1),
      shared_bits (f.mem (at1 f pp va)) o,
      at_count f.mem (at1 f pp va) (at1 f cp va) v q h.apart n.0 n.1,
    )
