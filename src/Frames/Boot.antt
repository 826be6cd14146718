-- ===== src/Frames/Boot.antt =====
-- `create_page_list` of sys/virmem.c: the free list that the kernel boots with. The loader's memory map
-- is the list `smaps` of its entries. At boot a `struct page *` is a physical address; the word at it is
-- that of the kernel's window.
pub mod Append
pub mod FreeList
use nascent_os.Prelude.{
  ℕ, zero, suc, ◌+◌, ◌-◌, ◌*◌, ◌/◌, ◌%◌, ◌^◌, Bool, true, false, ◌&&◌, ◌||◌, not, List, [], ◌∷◌,
  ◌==◌, ltb, leb, if◌then◌else◌,
}
use nascent_os.Prelude.Word.{word_mod, add64, sub64, mul64}
use nascent_os.Frames.{Frames, page_size, kernbase, null, write, clear, get_viraddr, scale_up}

-- struct smap_t
pub record Smap : Type 0 where
  pub base : ℕ
  pub len : ℕ
  pub kind : ℕ

-- The page lies inside the region, and does not begin it.
abbrev pub inside : ℕ → Smap → Bool
inside page_num m =
    let page_start = page_num * page_size in
    let page_end = page_start + page_size - 1 in
    let limit = add64 m.base m.len in
    m.kind == 1
    && not (m.len == 0)
    && (ltb page_start limit && ltb m.base page_start)
    && (ltb page_end limit && ltb m.base page_end)

-- &pages[page_num]
abbrev pub page_at : Frames → ℕ → ℕ
page_at s page_num = s.pages + 16 * page_num

unfoldable pub set_count : Frames → ℕ → ℕ → Frames
unfolding get_viraddr
set_count s page_num c = record s { mem = write s.mem (get_viraddr (page_at s page_num) + 8) c }

unfoldable pub set_link : Frames → ℕ → ℕ → Frames
unfolding get_viraddr
set_link s page1 q = record s { mem = write s.mem (get_viraddr page1) q }

-- The page goes to the end of the free list.
unfoldable pub append_page : Frames → ℕ → Frames
unfolding set_count set_link
append_page s0 page_num =
    let s = set_count s0 page_num 0 in
    let p = page_at s page_num in
    if s.free_page_head == null
    then record (set_link s p null) { free_page_head = p; free_page_end = p }
    else record (set_link (set_link s s.free_page_end p) p null) { free_page_end = p }

-- The loop over the memory map, and `page_marked`.
unfoldable pub mark_page : Frames → ℕ → List Smap → Bool → Frames × Bool
mark_page s page_num [] page_marked = (s, page_marked)
mark_page s page_num (m ∷ smaps) page_marked =
    let hit = inside page_num m in
    mark_page (if hit then append_page s page_num else s) page_num smaps
      (if hit then true else page_marked)

-- The body of the loop over the pages.
unfoldable pub place_page : Frames → List Smap → ℕ → ℕ → Frames
place_page s smaps physfree page_num =
    let page_start = page_num * page_size in
    let page_end = page_start + page_size - 1 in
    if ltb page_start physfree || ltb page_end physfree
    then set_count s page_num 1
    else (let (s', page_marked) = mark_page s page_num smaps false in
        if page_marked then s' else set_count s' page_num 1)

-- for (page_num = from; page_num < from + n; page_num++)
unfoldable pub place_pages : ℕ → ℕ → Frames → List Smap → ℕ → Frames
place_pages zero from s smaps physfree = s
place_pages (suc n) from s smaps physfree =
    place_pages n (from + 1) (place_page s smaps physfree from) smaps physfree

-- `page_count` is an `int`; memory of less than 2^43 bytes fits it.
unfoldable pub create_page_list : Frames → ℕ → List Smap → ℕ → Frames
create_page_list s0 physfree0 smaps mem_end =
    let s = record s0 { page_count = mem_end / page_size } in
    let physfree = scale_up (add64 physfree0 (16 * s.page_count)) in
    let s1 = record s { mem = clear s.mem (get_viraddr physfree) (5 * page_size) } in
    place_pages s1.page_count 0 s1 smaps physfree
