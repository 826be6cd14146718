-- ===== src/Frames/Free.antt =====
-- What `free_page` does to the counts and to the free list.
use nascent_os.Prelude.{
  ℕ, ◌+◌, ◌-◌, ◌*◌, ◌/◌, ◌^◌, ◌≤◌, ◌<◌, ◌≡◌, refl, ap, ◌∙◌, ◌≢◌, false, [], ◌∷◌, arith, ltb,
}
use nascent_os.Prelude.Word.{add64, sub64}
use nascent_os.Frames.{
  Frames, kernbase, null, write, clear, get_viraddr, get_pa, convert_va, get_page_from_pa,
  page_alloc, add_to_free_pages, free_page,
}
use nascent_os.Frames.Alloc.{
  struct_of, struct_vir, frame_vir, IsPlaced, IsFreeList, get_page_from_pa_lem, taken,
  page_alloc-taken,
}

found :
    (s : Frames) (i : ℕ)
    → IsPlaced s
    → i < s.page_count
    → get_page_from_pa s (sub64 (frame_vir i) kernbase / 2 ^ 12 * 2 ^ 12) ≡ struct_vir s i
found s i p h =
    let e : sub64 (frame_vir i) kernbase / 2 ^ 12 * 2 ^ 12 ≡ 4096 * i + 0 = omega (arith, p.few) in
    ap (get_page_from_pa s) e ∙ (get_page_from_pa_lem s i 0 p h (omega arith)).0

-- A page that is shared only loses a reference: its count falls by one, and nothing else changes.
pub free_page_shared :
    (s : Frames) (i : ℕ)
    → IsPlaced s
    → i < s.page_count
    → 1 < s.mem (struct_vir s i + 8)
    → free_page s (frame_vir i)
      ≡ record s { mem = write s.mem (struct_vir s i + 8) (s.mem (struct_vir s i + 8) - 1) }
unfolding free_page
free_page_shared s i p h c = rw (found s i p h) (ground arith)

-- The memory after the last reference to frame `i` is dropped, with frame `e` at the end of the free list.
abbrev pub freed_mem : Frames → ℕ → ℕ → ℕ → ℕ
freed_mem s i e =
    write
      (write (clear (write s.mem (struct_vir s i + 8) 0) (frame_vir i) 4096) (struct_vir s e)
        (struct_vir s i))
      (struct_vir s i) null

pub free_page_last :
    (s : Frames) (i e : ℕ)
    → IsPlaced s
    → i < s.page_count
    → e < s.page_count
    → s.free_page_end ≡ struct_of s e
    → s.mem (struct_vir s i + 8) ≤ 1
    → free_page s (frame_vir i) ≡ record s { mem = freed_mem s i e }
unfolding free_page add_to_free_pages
free_page_last s i e p h he q c =
    let tail : add64 (struct_of s e) kernbase ≡ struct_vir s e = omega (arith, p.window) in
    let test : ltb 1 (s.mem (struct_vir s i + 8)) ≡ false = ground arith in
    rw (found s i p h, test, q, tail)

-- Two frames whose last references are dropped one after the other: the link of the last free frame
-- names the second one alone, nothing links to the first, and `free_page_end` has not moved.
pub free_page_forgets :
    (s : Frames) (i j e : ℕ)
    → IsPlaced s
    → i < s.page_count
    → j < s.page_count
    → e < s.page_count
    → (i ≢ j) × (i ≢ e) × (j ≢ e)
    → (s.pages + 16 * s.page_count ≤ 4096 * i) × (s.pages + 16 * s.page_count ≤ 4096 * j)
    → s.free_page_end ≡ struct_of s e
    → (s.mem (struct_vir s i + 8) ≤ 1) × (s.mem (struct_vir s j + 8) ≤ 1)
    → let s' = free_page (free_page s (frame_vir i)) (frame_vir j) in
      (s'.mem (struct_vir s e) ≡ struct_vir s j)
      × (s'.mem (struct_vir s i) ≡ null)
      × (s'.free_page_end ≡ struct_of s e)
free_page_forgets s i j e p hi hj he ne pl q c =
    let s1 = record s { mem = freed_mem s i e } in
    let p1 : IsPlaced s1 = record { nonnull = p.nonnull; few = p.few; window = p.window } in
    let c1 : s1.mem (struct_vir s j + 8) ≤ 1 = ground (arith, p.window) in
    rw (free_page_last s i e p hi he q c.0, free_page_last s1 j e p1 hj he q c1)
      (ground (arith, p.window), ground (arith, p.window), q)

-- An allocation that finds the virtual address of a `struct page` as the head of the list.
stray :
    (s : Frames) (i : ℕ)
    → IsPlaced s
    → i < s.page_count
    → s.free_page_head ≡ struct_vir s i
    → (page_alloc s).0 < kernbase
unfolding page_alloc convert_va get_pa get_viraddr
stray s i p h e = rw e (omega (arith, p.few))

-- With frame `e` the only free one, a frame `i` that is given back is not handed out again: the
-- second allocation after that returns an address below the kernel's window.
pub free_page_not_reused :
    (s : Frames) (i e : ℕ)
    → IsFreeList s (e ∷ [])
    → i < s.page_count
    → i ≢ e
    → s.free_page_end ≡ struct_of s e
    → s.pages + 16 * s.page_count ≤ 4096 * i
    → s.mem (struct_vir s i + 8) ≤ 1
    → let s1 = free_page s (frame_vir i) in
      let (va, s2) = page_alloc s1 in
      let (vb, s3) = page_alloc s2 in (va ≡ frame_vir e) × (vb < kernbase)
free_page_not_reused s i e f hi ne q pl c =
    let s1 = record s { mem = freed_mem s i e } in
    let p = f.placed in
    let he = f.free.0.0 in
    let p1 : IsPlaced s1 = record { nonnull = p.nonnull; few = p.few; window = p.window } in
    let p2 : IsPlaced (taken s1 e) = record {
      nonnull = p.nonnull;
      few = p.few;
      window = p.window;
    } in
    let at_end : s1.mem (struct_vir s e) ≡ struct_vir s i = ground (arith, p.window) in
    rw (free_page_last s i e p hi he q c, page_alloc-taken s1 e p1 he f.chain.0)
      (refl, stray (taken s1 e) i p2 hi at_end)
