-- ===== src/Frames/Boot/FreeList.antt =====
-- The free list of `create_page_list` holds the usable pages, in order.
use mathlib.Core.List.{append-nil, append_assoc}
use nascent_os.Prelude.{
  ℕ, zero, suc, ◌+◌, ◌-◌, ◌*◌, ◌/◌, ◌^◌, ◌≤◌, ◌<◌, ◌≡◌, refl, inl, inr, Bool, true, false, List, [],
  ◌∷◌, ◌++◌, arith, ltb, if◌then◌else◌, Bool-cases, ◌&&◌, not, leb, ◌==◌, All, ◌∙◌,
}
use nascent_os.Prelude.Word.{add64}
use nascent_os.Frames.{Frames, page_size, null, clear, get_viraddr, scale_up}
use nascent_os.Frames.Alloc.{IsFreeList}
use nascent_os.Frames.Boot.{
  Smap, inside, set_count, append_page, mark_page, place_page, place_pages, create_page_list,
}
use nascent_os.Frames.Boot.Append.{Built, All-weaken, set_count-Built, append_page-Built}

-- A region of the memory map that can be used, of kind 1, and all of the page in it, behind its first byte.
abbrev pub covers : ℕ → Smap → Bool
covers n m = m.kind == 1 && (ltb m.base (4096 * n) && leb (4096 * n + 4096) (m.base + m.len))

-- A region ends below 2 ^ 64.
abbrev pub Ends : Smap → Type 0
Ends m = m.base + m.len < 2 ^ 64

inside-covers : (n : ℕ) (m : Smap) → Ends m → inside n m ≡ covers n m
inside-covers n m h =
    let e : add64 m.base m.len ≡ m.base + m.len = omega (arith, h) in rw e (ground arith)

-- How many regions cover a page.
abbrev pub hits : ℕ → List Smap → ℕ
hits n [] = 0
hits n (m ∷ smaps) = (if covers n m then 1 else 0) + hits n smaps

-- A page is free if it lies behind the kernel's own data and a region covers it.
abbrev pub usable : List Smap → ℕ → ℕ → Bool
usable smaps physfree n = not (ltb (n * page_size) physfree) && ltb 0 (hits n smaps)

-- The usable pages among `n` from `i` on, in order.
abbrev pub usable_pages : List Smap → ℕ → ℕ → ℕ → List ℕ
usable_pages smaps physfree zero i = []
usable_pages smaps physfree (suc n) i =
    if usable smaps physfree i
    then i ∷ usable_pages smaps physfree n (i + 1)
    else usable_pages smaps physfree n (i + 1)

mark_page_none :
    (s : Frames) (n : ℕ) (smaps : List Smap) (marked : Bool)
    → All Ends smaps
    → hits n smaps ≡ 0
    → mark_page s n smaps marked ≡ (s, marked)
unfolding mark_page
mark_page_none s n [] marked ends h = refl
mark_page_none s n (m ∷ smaps) marked ends h =
    let miss : inside n m ≡ false = inside-covers n m ends.0 ∙ not_covered n m smaps h in
    let rest = mark_page_none s n smaps marked ends.1 (omega (arith, h)) in rw miss rest
  where
    not_covered :
        (n : ℕ) (m : Smap) (smaps : List Smap) → hits n (m ∷ smaps) ≡ 0 → covers n m ≡ false
    not_covered n m smaps h = ground (arith, h)

mark_page_one :
    (s : Frames) (n : ℕ) (smaps : List Smap) (marked : Bool)
    → All Ends smaps
    → hits n smaps ≡ 1
    → mark_page s n smaps marked ≡ (append_page s n, true)
unfolding mark_page
mark_page_one s n [] marked ends h = absurd (omega arith)
mark_page_one s n (m ∷ smaps) marked ends h = elim (Bool-cases (covers n m)) [
  | inl hit ↦
      let zero_left : hits n smaps ≡ 0 = ground arith in
      let e : inside n m ≡ true = inside-covers n m ends.0 ∙ hit in
      rw e (mark_page_none (append_page s n) n smaps true ends.1 zero_left)
  | inr miss ↦
      let one_left : hits n smaps ≡ 1 = ground arith in
      let e : inside n m ≡ false = inside-covers n m ends.0 ∙ miss in
      rw e (mark_page_one s n smaps marked ends.1 one_left)
]

SameArray : Frames → Frames → Type 0
SameArray s s' = (s'.page_count ≡ s.page_count) × (s'.pages ≡ s.pages)

append_page-SameArray : (s : Frames) (n : ℕ) → SameArray s (append_page s n)
unfolding SameArray append_page
append_page-SameArray s n = ground arith

set_count-SameArray : (s : Frames) (n c : ℕ) → SameArray s (set_count s n c)
unfolding SameArray set_count
set_count-SameArray s n c = (refl, refl)

-- The list with the page at its end, if the page is usable.
abbrev grown : Bool → List ℕ → ℕ → List ℕ
grown free is n = if free then is ++ (n ∷ []) else is

Placed : Frames → Frames → ℕ → List ℕ → Type 0
Placed s s' n is = Built s' n is × SameArray s s'

Built-weaken : (s : Frames) (n : ℕ) (is : List ℕ) → Built s n is → Built s (n + 1) is
Built-weaken s n is b = record { list = b.list; below = All-weaken n is b.below; tail = b.tail }

counted :
    (s : Frames) (n : ℕ) (is : List ℕ)
    → n < s.page_count
    → Built s n is
    → Placed s (set_count s n 1) (n + 1) is
unfolding Placed
counted s n is h b =
    (Built-weaken (set_count s n 1) n is (set_count-Built s n 1 is h b), set_count-SameArray s n 1)

place_page-Placed :
    (s : Frames) (smaps : List Smap) (physfree n : ℕ) (is : List ℕ)
    → n < s.page_count
    → s.pages + 16 * s.page_count ≤ physfree
    → All Ends smaps
    → hits n smaps ≤ 1
    → Built s n is
    → Placed s (place_page s smaps physfree n) (n + 1) (grown (usable smaps physfree n) is n)
unfolding place_page Placed
place_page-Placed s smaps physfree n is h pf ends once b =
    elim (Bool-cases (ltb (n * page_size) physfree)) [
      | inl low ↦ rw low (counted s n is h b)
      | inr high ↦
          let top : ltb (n * page_size + page_size - 1) physfree ≡ false = ground arith in
          let fr : s.pages + 16 * s.page_count ≤ 4096 * n = ground arith in
          elim (Bool-cases (ltb 0 (hits n smaps))) [
            | inl hit ↦
                let one : hits n smaps ≡ 1 = ground arith in
                rw (high, top, hit, mark_page_one s n smaps false ends one)
                  (append_page-Built s n is h fr b, append_page-SameArray s n)
            | inr miss ↦
                let zero_hits : hits n smaps ≡ 0 = ground arith in
                rw (high, top, miss, mark_page_none s n smaps false ends zero_hits)
                  (counted s n is h b)
          ]
    ]

grown-append :
    (smaps : List Smap) (physfree k n : ℕ) (is : List ℕ)
    → grown (usable smaps physfree n) is n ++ usable_pages smaps physfree k (n + 1)
      ≡ is ++ usable_pages smaps physfree (suc k) n
grown-append smaps physfree k n is = elim (Bool-cases (usable smaps physfree n)) [
  | inl u ↦ rw u (append_assoc is (n ∷ []) (usable_pages smaps physfree k (n + 1)))
  | inr u ↦ rw u
]

place_pages-Built :
    (k n j : ℕ) (s : Frames) (smaps : List Smap) (physfree : ℕ) (is : List ℕ)
    → n + k ≡ j
    → j ≤ s.page_count
    → s.pages + 16 * s.page_count ≤ physfree
    → All Ends smaps
    → ((i : ℕ) → hits i smaps ≤ 1)
    → Built s n is
    → IsFreeList (place_pages k n s smaps physfree) (is ++ usable_pages smaps physfree k n)
unfolding place_pages Placed SameArray
place_pages-Built zero n j s smaps physfree is e le pf ends once b = rw (append-nil is) b.list
place_pages-Built (suc k) n j s smaps physfree is e le pf ends once b =
    let (b', same) = place_page-Placed s smaps physfree n is (omega arith) pf ends (once n) b in
    rw (← grown-append smaps physfree k n is) (
      place_pages-Built k (n + 1) j (place_page s smaps physfree n) smaps physfree
        (grown (usable smaps physfree n) is n) (omega arith) (omega arith) (omega arith) ends once
        b')

-- The kernel boots with a free list that holds exactly the pages which lie behind its own data and in a usable
-- region of the memory map, behind the region's first byte, in increasing order: a page that a region begins with is left
-- out. No page may lie in two regions, the regions end below 2 ^ 64, the machine has no more than 2 GB, and the
-- `struct page` array fits into them.
pub create_page_list_lem :
    (s : Frames) (smaps : List Smap) (physfree mem_end : ℕ)
    → (s.pages ≡ physfree) × (0 < physfree) × (s.free_page_head ≡ null)
    → (mem_end ≤ 2 ^ 31) × (physfree + 16 * (mem_end / 4096) ≤ 2 ^ 31)
    → All Ends smaps
    → ((i : ℕ) → hits i smaps ≤ 1)
    → IsFreeList
        (create_page_list s physfree smaps mem_end)
        (usable_pages smaps (scale_up (physfree + 16 * (mem_end / 4096))) (mem_end / 4096) 0)
unfolding create_page_list
create_page_list_lem s smaps physfree mem_end start room ends once =
    let count = mem_end / 4096 in
    let fits : add64 physfree (16 * count) ≡ physfree + 16 * count = omega (arith, room) in
    let pf = scale_up (physfree + 16 * count) in
    let s1 = record s { page_count = count; mem = clear s.mem (get_viraddr pf) (5 * page_size) } in
    let behind : physfree + 16 * count ≤ pf =
      scale_up-le (physfree + 16 * count) (omega (arith, room)) in
    rw fits (
      place_pages-Built count 0 count s1 smaps pf [] (omega arith) (omega arith)
        (omega (arith, start)) ends once
        (record {
          list = record {
            placed = record {
              nonnull = omega (arith, start);
              few = omega (arith, room);
              window = omega (arith, start, room);
            };
            chain = start.2;
            free = tt;
            distinct = tt;
          };
          below = tt;
          tail = λ x xs e. absurd (cc);
        }))
  where
    scale_up-le : (a : ℕ) → a ≤ 2 ^ 31 → a ≤ scale_up a
    scale_up-le a h = unfold scale_up in ground arith
