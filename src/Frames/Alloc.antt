-- ===== src/Frames/Alloc.antt =====
-- The allocators take the first frame of the free list.
use mathlib.Core.Path.{subst}
use nascent_os.Prelude.{
  ℕ, ◌+◌, ◌-◌, ◌*◌, ◌/◌, ◌%◌, ◌^◌, ◌≤◌, ◌<◌, ◌≡◌, refl, sym, ◌≢◌, ◌⊎◌, inl, inr, true, List, [],
  ◌∷◌, arith, ◌==◌, All, Bool-cases, ==_iff,
}
use nascent_os.Chain
use nascent_os.Chain.{Chain, Distinct, has}
use nascent_os.Frames.{
  Frames, kernbase, null, write, clear, warn_if_empty, get_viraddr, get_phyaddr, get_pa, convert_va,
  get_page_from_pa, page_alloc, kmalloc, fetch_free_page,
}

-- The physical address of the `struct page` of frame `i`.
abbrev pub struct_of : Frames → ℕ → ℕ
struct_of s i = s.pages + 16 * i

-- Its virtual address, and that of the frame itself, as long as they are below 2 GB.
abbrev pub struct_vir : Frames → ℕ → ℕ
struct_vir s i = kernbase + (s.pages + 16 * i)

abbrev pub frame_vir : ℕ → ℕ
frame_vir i = kernbase + 4096 * i

-- The array of `struct page`s lies in the kernel's window of 2 GB, below every free frame.
pub record IsPlaced (s : Frames) : Type 0 where
  pub nonnull : 0 < s.pages
  pub few : s.page_count ≤ 2 ^ 19
  pub window : s.pages + 16 * s.page_count ≤ 2 ^ 31

abbrev pub IsFree : Frames → ℕ → Type 0
IsFree s i = (i < s.page_count) × (s.pages + 16 * s.page_count ≤ 4096 * i)

-- The free list holds the frames `is`, in this order.
pub record IsFreeList (s : Frames) (is : List ℕ) : Type 0 where
  pub placed : IsPlaced s
  pub chain : Chain (struct_of s) null (λ i. s.mem (struct_vir s i)) s.free_page_head is
  pub free : All (IsFree s) is
  pub distinct : Distinct is

get_viraddr-struct_of :
    (s : Frames) (i : ℕ)
    → IsPlaced s
    → i < s.page_count
    → get_viraddr (struct_of s i) ≡ struct_vir s i
unfolding get_viraddr
get_viraddr-struct_of s i p h = omega arith

pub get_pa-struct_of :
    (s : Frames) (i : ℕ) → IsPlaced s → i < s.page_count → get_pa s (struct_of s i) ≡ 4096 * i
unfolding get_pa
get_pa-struct_of s i p h = omega arith

pub convert_va-struct_of :
    (s : Frames) (i : ℕ)
    → IsPlaced s
    → i < s.page_count
    → convert_va s (struct_of s i) ≡ frame_vir i
unfolding convert_va get_viraddr get_pa
convert_va-struct_of s i p h = omega arith

-- `get_page_from_PA` finds the `struct page` of any address in a frame, and `getPA` of its
-- physical address finds the frame again.
pub get_page_from_pa_lem :
    (s : Frames) (i o : ℕ)
    → IsPlaced s
    → i < s.page_count
    → o < 4096
    → (get_page_from_pa s (4096 * i + o) ≡ struct_vir s i)
      × (get_pa s (get_phyaddr (get_page_from_pa s (4096 * i + o))) ≡ 4096 * i)
unfolding get_page_from_pa get_pa get_phyaddr
get_page_from_pa_lem s i o p h ho =
    let small : (4096 * i + o - (4096 * i + o) % 4096) / 4096 ≡ i = omega arith in
    rw small (ground arith)

-- The state after frame `i` is taken: its count is 1, its words are 0, its link is the new head.
abbrev pub taken : Frames → ℕ → Frames
taken s i = record (warn_if_empty s) {
  free_page_head = s.mem (struct_vir s i);
  mem = clear (write s.mem (struct_vir s i + 8) 1) (frame_vir i) 4096;
}

module _ (s : Frames) (i : ℕ) (p : IsPlaced s) (h : i < s.page_count)
    (e : s.free_page_head ≡ struct_of s i) where
  next_kept : write s.mem (struct_vir s i + 8) 1 (struct_vir s i) ≡ s.mem (struct_vir s i)
  next_kept = ground arith

  pub page_alloc-taken : page_alloc s ≡ (frame_vir i, taken s i)
  unfolding page_alloc
  page_alloc-taken = rw (e, get_viraddr-struct_of s i p h, convert_va-struct_of s i p h, next_kept)

  frame_window : get_viraddr (4096 * i) ≡ frame_vir i
  unfolding get_viraddr
  frame_window = omega (arith, p.few)

  pub kmalloc-taken : kmalloc s ≡ (4096 * i, taken s i)
  unfolding kmalloc
  kmalloc-taken =
      rw (e, get_viraddr-struct_of s i p h, get_pa-struct_of s i p h, next_kept, frame_window)

  pub fetch_free_page-taken : fetch_free_page s ≡ (4096 * i, taken s i)
  unfolding fetch_free_page
  fetch_free_page-taken =
      rw (e, get_pa-struct_of s i p h, get_viraddr-struct_of s i p h, next_kept, frame_window)

pub All-mem : (P : ℕ → Type 0) (a : ℕ) (xs : List ℕ) → All P xs → has a xs ≡ true → P a
All-mem P a [] h m = cc
All-mem P a (x ∷ xs) h m = elim (Bool-cases (a == x)) [
  | inl e ↦ subst P (sym ((==_iff a x).0 e)) h.0
  | inr n ↦ All-mem P a xs h.1 (ground arith)
]

-- What the allocators do to the list `i ∷ is`: the frame is cleared and counted once, the rest of the
-- list stays free, and no other word of memory changes.
pub record Took (s : Frames) (i : ℕ) (is : List ℕ) (s' : Frames) : Type 0 where
  pub rest : IsFreeList s' is
  pub counted : s'.mem (struct_vir s i + 8) ≡ 1
  pub cleared : (a : ℕ) → frame_vir i ≤ a → a < frame_vir i + 4096 → s'.mem a ≡ 0
  pub others :
      (a : ℕ)
      → a ≢ struct_vir s i + 8
      → (a < frame_vir i) ⊎ (frame_vir i + 4096 ≤ a)
      → s'.mem a ≡ s.mem a

module _ (s : Frames) (i : ℕ) (is : List ℕ) (f : IsFreeList s (i ∷ is)) where
  link_kept : (a : ℕ) → has a is ≡ true → (taken s i).mem (struct_vir s a) ≡ s.mem (struct_vir s a)
  link_kept a m =
      let fa : IsFree s a = All-mem (IsFree s) a is f.free.1 m in ground (arith, f.free.0)

  pub taken-Took : Took s i is (taken s i)
  taken-Took = record {
    rest = record {
      placed = record { nonnull = f.placed.nonnull; few = f.placed.few; window = f.placed.window };
      chain =
          Chain.frame (struct_of s) null (λ j. s.mem (struct_vir s j))
            (λ j. (taken s i).mem (struct_vir s j)) (s.mem (struct_vir s i)) is f.chain.1 link_kept;
      free = f.free.1;
      distinct = f.distinct.1;
    };
    counted = ground (arith, f.free.0, f.placed.window);
    cleared = λ a lo hi. ground arith;
    others = λ a ne out. ground arith;
  }

-- `page_alloc`, with a free list that is not empty, returns the virtual address of its first frame: the frame
-- is cleared and its count is 1, the rest of the list stays free in its order, and no other word of memory
-- changes.
pub page_alloc_lem :
    (s : Frames) (i : ℕ) (is : List ℕ)
    → IsFreeList s (i ∷ is)
    → let (va, s') = page_alloc s in (va ≡ frame_vir i) × Took s i is s'
page_alloc_lem s i is f =
    rw (page_alloc-taken s i f.placed f.free.0.0 f.chain.0) (refl, taken-Took s i is f)

-- The three allocators take the same frame and leave the same state; `kmalloc` and
-- `fetch_free_page` return its physical address, `page_alloc` its address in the kernel's window.
pub allocators_agree :
    (s : Frames) (i : ℕ) (is : List ℕ)
    → IsFreeList s (i ∷ is)
    → (kmalloc s ≡ fetch_free_page s)
      × ((page_alloc s).1 ≡ (kmalloc s).1)
      × ((page_alloc s).0 ≡ get_viraddr (kmalloc s).0)
allocators_agree s i is f =
    let h = f.free.0.0 in
    let p = f.placed in
    rw
      (
        page_alloc-taken s i p h f.chain.0,
        kmalloc-taken s i p h f.chain.0,
        fetch_free_page-taken s i p h f.chain.0,
        frame_window s i p h f.chain.0,
      )
      (refl, refl, refl)
