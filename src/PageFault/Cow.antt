-- ===== src/PageFault/Cow.antt =====
-- Copy on write: a write to a page that is shared without the permission to write.
use Prim.Native.Nat.{bit_or}
use nascent_os.Prelude.{ℕ, ◌+◌, ◌/◌, ◌%◌, ◌≡◌, ap, ◌∙◌, ◌≢◌, arith, some}
use nascent_os.Prelude.Bits.{bit_or_1, bit_or_2}
use nascent_os.Frames.{Frames, write, get_page_from_pa}
use nascent_os.VirMem.{get_pte_entry}
use nascent_os.VirMem.Present.{
  at1, HasTables, IsApart, set_mapping_present, get_pte_entry_present, written_entry,
}
use nascent_os.PageFault.{set_write, unset_cow, cow_last, cow_found, cow_fault}

-- The entry that `cow_last` writes.
abbrev pub writable : ℕ → ℕ
writable e = bit_or (set_write (unset_cow e)) 1

writable_bits :
    (e : ℕ)
    → e % 2 ≡ 1
    → (writable e / 4096 ≡ e / 4096)
      × (writable e % 2 ≡ 1)
      × (writable e / 2 % 2 ≡ 1)
      × (writable e / 4 % 2 ≡ e / 4 % 2)
      × (writable e / 256 % 2 ≡ 0)
writable_bits e h =
    let a = bit_or_1 (set_write (unset_cow e)) in
    let b = bit_or_2 (unset_cow e) in
    (
      omega (arith, a, b),
      omega (arith, a, b),
      omega (arith, a, b),
      omega (arith, a, b),
      omega (arith, a, b),
    )

last_step :
    (f : Frames) (pml va : ℕ)
    → HasTables f pml va
    → f.mem (at1 f pml va) % 2 ≡ 1
    → f.mem (get_page_from_pa f (f.mem (at1 f pml va)) + 8) ≡ 1
    → cow_fault f pml va
      ≡ record f { mem = write f.mem (at1 f pml va) (writable (f.mem (at1 f pml va))) }
unfolding cow_fault cow_found cow_last
last_step f pml va h p c =
    ap (cow_found f pml va) (get_pte_entry_present f pml va h p)
    ∙ rw c (set_mapping_present f pml va (set_write (unset_cow (f.mem (at1 f pml va)))) 1 h)

-- A write to a page with the count 1: the walk finds the same page for the address, with the permission to
-- write, without the copy-on-write bit and as accessible to the user as before, and no other word of
-- memory changes. The tables of the walk have to be there, and its last entry is none of the others.
pub cow_fault_last :
    (f : Frames) (pml va : ℕ)
    → HasTables f pml va
    → IsApart f pml va
    → f.mem (at1 f pml va) % 2 ≡ 1
    → f.mem (get_page_from_pa f (f.mem (at1 f pml va)) + 8) ≡ 1
    → let f' = cow_fault f pml va in
      let e = f.mem (at1 f pml va) in
      (e' : ℕ) × (get_pte_entry f' pml va ≡ some e')
      × ((e' / 4096 ≡ e / 4096)
          × (e' % 2 ≡ 1)
          × (e' / 2 % 2 ≡ 1)
          × (e' / 4 % 2 ≡ e / 4 % 2)
          × (e' / 256 % 2 ≡ 0))
      × ((b : ℕ) → b ≢ at1 f pml va → f'.mem b ≡ f.mem b)
cow_fault_last f pml va h ap' p c =
    let e = f.mem (at1 f pml va) in
    let bits = writable_bits e p in
    rw (last_step f pml va h p c)
      (writable e, (written_entry f pml va (writable e) h ap' bits.1).0, bits, λ b n. ground arith)
