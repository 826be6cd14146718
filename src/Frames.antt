-- ===== src/Frames.antt =====
-- sys/page.c and the allocator of sys/virmem.c: physical page frames, their `struct page` array
-- and the free list that runs through it. Kernel memory is a function from the virtual address of
-- an aligned 64-bit word to the word; a `struct page` is the word `next` and, eight bytes on, the
-- word that holds `ref_count`. Every address reads as some word here, also one that the machine's
-- page tables do not map: the theorems state where the addresses that they are about lie.
pub mod Alloc
pub mod Free
pub mod Boot
pub mod Tests
use Prim.Native.String.{String}
use nascent_os.Prelude.{
  ℕ, zero, suc, ◌+◌, ◌-◌, ◌*◌, ◌/◌, ◌%◌, ◌^◌, Bool, true, false, ◌&&◌, ◌||◌, not, List, [], ◌∷◌,
  ◌==◌, ltb, leb, if◌then◌else◌,
}
use nascent_os.Prelude.Word.{word_mod, add64, sub64, mul64}

abbrev pub page_size : ℕ
page_size = 4096

abbrev pub kernbase : ℕ
kernbase = 0xffff_ffff_8000_0000

-- sizeof(struct page)
abbrev pub page_struct : ℕ
page_struct = 16

abbrev pub null : ℕ
null = 0

-- The allocator's globals, the kernel memory, and what `kprintf` was told, newest first.
pub record Frames : Type 0 where
  pub mem : ℕ → ℕ
  pub free_page_head : ℕ
  pub free_page_end : ℕ
  pub pages : ℕ
  pub page_count : ℕ
  pub log : List String

abbrev pub write : (ℕ → ℕ) → ℕ → ℕ → ℕ → ℕ
write mem p v a = if a == p then v else mem a

-- memset(p, 0, n) over whole words
abbrev pub clear : (ℕ → ℕ) → ℕ → ℕ → ℕ → ℕ
clear mem p n a = if leb p a && ltb a (p + n) then 0 else mem a

unfoldable pub get_viraddr : ℕ → ℕ
get_viraddr paddr = add64 kernbase paddr

unfoldable pub get_phyaddr : ℕ → ℕ
get_phyaddr vir_addr = sub64 vir_addr kernbase

unfoldable pub scale_down : ℕ → ℕ
scale_down addr = addr - addr % page_size

unfoldable pub scale_up : ℕ → ℕ
scale_up addr = if addr % page_size == 0 then addr else add64 addr (page_size - addr % page_size)

-- The frame whose `struct page` is at `page1`, as a physical address.
unfoldable pub get_pa : Frames → ℕ → ℕ
get_pa s page1 = mul64 (sub64 page1 s.pages / page_struct) page_size

unfoldable pub convert_va : Frames → ℕ → ℕ
unfolding get_viraddr get_pa
convert_va s page1 = get_viraddr (get_pa s page1)

-- The sign extension of an `int` to 64 bits.
abbrev pub int_word : ℕ → ℕ
int_word x = let y = x % 2 ^ 32 in if ltb y (2 ^ 31) then y else y + (word_mod - 2 ^ 32)

unfoldable pub get_page_from_pa : Frames → ℕ → ℕ
unfolding scale_down
get_page_from_pa s phyaddr =
    let offset = int_word (scale_down phyaddr / page_size) in
    add64 (add64 s.pages kernbase) (mul64 offset page_struct)

-- The shared test of the three allocators: it only prints, and the allocation goes on.
abbrev pub warn_if_empty : Frames → Frames
warn_if_empty s = record s {
  log =
      if s.free_page_head == null || s.free_page_head == s.free_page_end
      then "Out of free pages!!!" ∷ s.log
      else s.log;
}

-- The virtual address of a free page, cleared.
unfoldable pub page_alloc : Frames → ℕ × Frames
unfolding get_viraddr convert_va
page_alloc s0 =
    let s = warn_if_empty s0 in
    let tmp = get_viraddr s.free_page_head in
    let mem1 = write s.mem (tmp + 8) 1 in
    let free_pg = convert_va s s.free_page_head in
    (free_pg, record s { free_page_head = mem1 tmp; mem = clear mem1 free_pg page_size })

-- The physical address of a free page, cleared.
unfoldable pub kmalloc : Frames → ℕ × Frames
unfolding get_viraddr get_pa
kmalloc s0 =
    let s = warn_if_empty s0 in
    let tmp = get_viraddr s.free_page_head in
    let mem1 = write s.mem (tmp + 8) 1 in
    let free_pg = get_pa s s.free_page_head in
    let free_pg_vir = get_viraddr free_pg in
    (free_pg, record s { free_page_head = mem1 tmp; mem = clear mem1 free_pg_vir page_size })

-- The same again, for the page tables.
unfoldable pub fetch_free_page : Frames → ℕ × Frames
unfolding get_viraddr get_pa
fetch_free_page s0 =
    let s = warn_if_empty s0 in
    let tmp = s.free_page_head in
    let free_pg = get_pa s tmp in
    let free_pntr = get_viraddr tmp in
    let mem1 = write s.mem (free_pntr + 8) 1 in
    let free_pg_vir = get_viraddr free_pg in
    (free_pg, record s { free_page_head = mem1 free_pntr; mem = clear mem1 free_pg_vir page_size })

unfoldable pub add_to_free_pages : Frames → ℕ → Frames
add_to_free_pages s p =
    let page_pntr = add64 s.free_page_end kernbase in
    record s { mem = write (write s.mem page_pntr p) p null }

-- The C expression compares `ref_count` as an `int`; the counts that the kernel keeps are below 2^31.
unfoldable pub free_page : Frames → ℕ → Frames
unfolding add_to_free_pages get_page_from_pa
free_page s page_addr =
    let ph = sub64 page_addr kernbase / 2 ^ 12 * 2 ^ 12 in
    let p = get_page_from_pa s ph in
    let count = s.mem (p + 8) in
    if ltb 1 count
    then record s { mem = write s.mem (p + 8) (count - 1) }
    else add_to_free_pages (record s { mem = clear (write s.mem (p + 8) 0) page_addr page_size }) p
