-- ===== src/VirMem.antt =====
-- The page tables of sys/virmem.c: four levels of tables of 512 words, in page frames. A table is
-- reached at its virtual address in the kernel's window; an entry holds a physical address and, in its
-- low bits, flags. `>>` is division, `& 0x1FF` and `& 0xFFF` are remainders.
pub mod Table
pub mod Mapping
pub mod Fresh
pub mod Present
mod Tests
use Prim.Native.Nat.{bit_or}
use nascent_os.Prelude.{
  ℕ, zero, suc, ◌+◌, ◌-◌, ◌*◌, ◌/◌, ◌%◌, ◌^◌, Bool, true, false, ◌&&◌, ◌||◌, not, List, [], ◌∷◌,
  ◌==◌, ltb, leb, if◌then◌else◌, Option, none, some,
}
use nascent_os.Prelude.Word.{word_mod, add64, sub64, mul64}
use nascent_os.Frames.Boot.{Smap, create_page_list}
use nascent_os.Frames.{
  get_phyaddr, null, Frames, page_size, kernbase, write, clear, scale_down, fetch_free_page,
  page_alloc, free_page,
}

abbrev pub pml4_id : ℕ → ℕ
pml4_id viraddr = viraddr / 2 ^ 39 % 512

abbrev pub pdpte_id : ℕ → ℕ
pdpte_id viraddr = viraddr / 2 ^ 30 % 512

abbrev pub pde_id : ℕ → ℕ
pde_id viraddr = viraddr / 2 ^ 21 % 512

abbrev pub pte_id : ℕ → ℕ
pte_id viraddr = viraddr / 2 ^ 12 % 512

-- SCLDN
abbrev pub scldn : ℕ → ℕ
scldn vaddr = vaddr / 2 ^ 12 * 2 ^ 12

-- The word `tmp[id]` of the table at `tmp`.
abbrev pub entry : Frames → ℕ → ℕ → ℕ
entry s tmp id = s.mem (tmp + 8 * id)

-- The table that an entry points at: `SCLDN(entry + KERNBASE)`.
abbrev pub table_at : ℕ → ℕ
table_at e = scldn (add64 e kernbase)

abbrev pub present : ℕ → Bool
present e = e % 2 == 1

-- `none` is the return of 0, `some` the return of 1 with `*phy_addr`.
unfoldable pub get_pte_entry : Frames → ℕ → ℕ → Option ℕ
get_pte_entry s pml_addr viraddr =
    let e4 = entry s (scldn pml_addr) (pml4_id viraddr) in
    let e3 = entry s (table_at e4) (pdpte_id viraddr) in
    let e2 = entry s (table_at e3) (pde_id viraddr) in
    let e1 = entry s (table_at e2) (pte_id viraddr) in
    if not (present e4)
    then none
    else if not (present e3)
    then none
    else if not (present e2)
    then none
    else if not (present e1)
    then none
    else some e1

unfoldable pub get_mapping : Frames → ℕ → ℕ → ℕ
get_mapping s pml_addr viraddr =
    let e4 = entry s (scldn pml_addr) (pml4_id viraddr) in
    let e3 = entry s (table_at e4) (pdpte_id viraddr) in
    let e2 = entry s (table_at e3) (pde_id viraddr) in
    let page_addr = entry s (table_at e2) (pte_id viraddr) in
    add64 (scldn page_addr) (viraddr % 2 ^ 12)

-- The table that the entry at `vir_addr` points at, made if it is not there: its physical address.
unfoldable pub create_dir_table : Frames → ℕ → ℕ × Frames
create_dir_table s vir_addr =
    let phy_addr = s.mem vir_addr in
    if not (phy_addr % 2 == 1)
    then (let (new_phy_addr, s1) = fetch_free_page s in
        (new_phy_addr, record s1 { mem = write s1.mem vir_addr (bit_or new_phy_addr 7) }))
    else (scale_down phy_addr, s)

unfoldable pub set_mapping : Frames → ℕ → ℕ → ℕ → ℕ → Frames
set_mapping s pml4_addr viraddr phyaddr flags =
    let (pdpte_phy, s1) = create_dir_table s (add64 pml4_addr (8 * pml4_id viraddr)) in
    let (pde_phy, s2) =
      create_dir_table s1 (add64 (add64 pdpte_phy kernbase) (8 * pdpte_id viraddr)) in
    let (pte_phy, s3) = create_dir_table s2 (add64 (add64 pde_phy kernbase) (8 * pde_id viraddr)) in
    let pte_offset_addr = add64 (add64 pte_phy kernbase) (8 * pte_id viraddr) in
    record s3 { mem = write s3.mem pte_offset_addr (bit_or phyaddr flags) }

abbrev zero_at : Frames → ℕ → Frames
zero_at s a = record s { mem = write s.mem a 0 }

-- One entry of a table: what it points at is cleared by `sub` and freed, and the entry is zero.
unfoldable pub clear_entry : (Frames → ℕ → Frames) → Frames → ℕ → Frames
clear_entry sub s a =
    if not (present (s.mem a))
    then zero_at s a
    else (let s1 = sub s (table_at (s.mem a)) in zero_at (free_page s1 (table_at (s1.mem a))) a)

-- for (i = from; i < from + n; i++)
unfoldable pub clear_entries : (Frames → ℕ → Frames) → ℕ → ℕ → Frames → ℕ → Frames
unfolding clear_entry
clear_entries sub zero i s table = s
clear_entries sub (suc n) i s table =
    clear_entries sub n (suc i) (clear_entry sub s (table + 8 * i)) table

unfoldable pub clear_pte : Frames → ℕ → Frames
clear_pte s pte = clear_entries (λ s' page. s') 512 0 s pte

unfoldable pub clear_pde : Frames → ℕ → Frames
clear_pde s pde = clear_entries clear_pte 512 0 s pde

unfoldable pub clear_pdpte : Frames → ℕ → Frames
clear_pdpte s pdpte = clear_entries clear_pde 512 0 s pdpte

-- All entries of the top table but the last, which is the kernel's.
unfoldable pub clear_mapping : Frames → ℕ → Frames
clear_mapping s pml4_addr = clear_entries clear_pdpte 511 0 s (scldn pml4_addr)

-- while (cnt < page_count), from `cnt` on for `n` rounds; memory is less than 2 GB, so that
-- `cnt * PAGE_SIZE` fits an `int`.
unfoldable pub map_frames : ℕ → ℕ → Frames → ℕ → Frames
map_frames zero cnt s pml_addr = s
map_frames (suc n) cnt s pml_addr =
    map_frames n (suc cnt)
      (set_mapping s pml_addr (add64 kernbase (cnt * page_size)) (cnt * page_size) 7) pml_addr

unfoldable pub create_vir_phy_mapping : Frames → ℕ → Frames
create_vir_phy_mapping s pml_addr = map_frames s.page_count 0 s pml_addr

-- The state with the kernel's page table at `kpml_addr`, and what is loaded into CR3.
unfoldable pub init_mem : Frames → ℕ → List Smap → ℕ → (ℕ × ℕ) × Frames
init_mem s0 physfree smaps mem_end =
    let s = record s0 { pages = physfree; free_page_head = null } in
    let s1 = create_page_list s physfree smaps mem_end in
    let (kpml_addr, s2) = page_alloc s1 in
    ((kpml_addr, get_phyaddr kpml_addr), create_vir_phy_mapping s2 kpml_addr)
