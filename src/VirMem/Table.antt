-- ===== src/VirMem/Table.antt =====
-- One level of the walk: the table behind an entry, taken from the free list if the entry is empty.
use Prim.Native.Nat.{bit_or}
use mathlib.Core.Path.{subst}
use nascent_os.Prelude.{
  ℕ, ◌+◌, ◌*◌, ◌/◌, ◌%◌, ◌^◌, ◌≤◌, ◌<◌, ◌≡◌, refl, ◌∙◌, ◌≢◌, ◌⊎◌, inl, inr, true, false, List, [],
  ◌∷◌, arith, if◌then◌else◌, All, length, drop, Bool-cases,
}
use nascent_os.Prelude.Bits.{bit_or_page, bit_or_low}
use nascent_os.Chain
use nascent_os.Chain.{Chain, Distinct, has}
use nascent_os.Frames.{Frames, kernbase, null, write, scale_down}
use nascent_os.Frames.Alloc.{
  struct_of, struct_vir, frame_vir, IsFree, IsFreeList, Took, taken, fetch_free_page-taken,
  taken-Took, All-mem,
}
use nascent_os.VirMem.{present, table_at, create_dir_table}

-- The word at `a` lies in no free frame and not in the array of `struct page`s, so that no allocation
-- touches it.
abbrev pub Apart : ℕ → ℕ → Type 0
Apart a i = (a < frame_vir i) ⊎ (frame_vir i + 4096 ≤ a)

pub record Safe (s : Frames) (is : List ℕ) (a : ℕ) : Type 0 where
  pub array : (a < kernbase + s.pages) ⊎ (kernbase + (s.pages + 16 * s.page_count) ≤ a)
  pub frames : All (Apart a) is

-- The free list once the entry at `a` has its table.
abbrev pub left : Frames → List ℕ → ℕ → List ℕ
left s is a = if present (s.mem a) then is else drop 1 is

-- The entry at `a` can be used: allocations spare it, a table that it has is in the window, and there is
-- a free frame.
pub record Usable (s : Frames) (is : List ℕ) (a : ℕ) : Type 0 where
  pub safe : Safe s is a
  pub window : (present (s.mem a) ≡ true) → s.mem a < 2 ^ 31
  pub room : 0 < length is

pub record HasDir (s : Frames) (is : List ℕ) (a p : ℕ) (s' : Frames) (is' : List ℕ) : Type 0 where
  pub free : IsFreeList s' is'
  pub set : s'.mem a % 2 ≡ 1
  pub points : table_at (s'.mem a) ≡ kernbase + p
  pub aligned : p % 4096 ≡ 0
  pub below : p < 2 ^ 31
  pub keeps : (b : ℕ) → b ≢ a → Safe s is b → s'.mem b ≡ s.mem b
  pub spares : (b : ℕ) → Safe s is b → Safe s' is' b

-- The state after a new table, in frame `i`, is entered at `a`.
abbrev pub entered : Frames → ℕ → ℕ → Frames
entered s i a = record (taken s i) { mem = write (taken s i).mem a (bit_or (4096 * i) 7) }

points_at : (e p : ℕ) → p % 4096 ≡ 0 → p < 2 ^ 31 → e / 4096 ≡ p / 4096 → table_at e ≡ kernbase + p
points_at e p al w h = omega arith

module _ (s : Frames) (i : ℕ) (is : List ℕ) (a : ℕ) (f : IsFreeList s (i ∷ is))
    (u : Safe s (i ∷ is) a) where
  took : Took s i is (taken s i)
  took = taken-Took s i is f

  self : (entered s i a).mem a ≡ bit_or (4096 * i) 7
  self = ground arith

  pub entered-IsFreeList : IsFreeList (entered s i a) is
  entered-IsFreeList = record {
    placed = record { nonnull = f.placed.nonnull; few = f.placed.few; window = f.placed.window };
    chain =
        Chain.frame (struct_of s) null (λ j. (taken s i).mem (struct_vir s j))
          (λ j. (entered s i a).mem (struct_vir s j)) (s.mem (struct_vir s i)) is took.rest.chain
          (λ j m.
            let fj = All-mem (IsFree s) j is f.free.1 m in
            let ne : struct_vir s j ≢ a = omega (arith, u.array, fj.0) in ground arith);
    free = f.free.1;
    distinct = f.distinct.1;
  }

  entered-HasDir : HasDir s (i ∷ is) a (4096 * i) (entered s i a) is
  entered-HasDir = record {
    free = entered-IsFreeList;
    set = rw self (bit_or_low (4096 * i) 7 refl);
    points = rw self (
        points_at (bit_or (4096 * i) 7) (4096 * i) (omega arith)
          (omega (arith, f.free.0, f.placed.few)) (bit_or_page (4096 * i) 7 (omega arith)));
    aligned = omega arith;
    below = omega (arith, f.free.0, f.placed.few);
    keeps = λ b ne sb.
        let count : b ≢ struct_vir s i + 8 = omega (arith, sb.array, f.free.0) in
        let same = took.others b count sb.frames.0 in ground (arith, same);
    spares = λ b sb. record { array = sb.array; frames = sb.frames.1 };
  }

  -- A new table is empty, and no later allocation touches it.
  pub fresh_entry :
      (o : ℕ)
      → o < 512
      → kernbase + 4096 * i + 8 * o ≢ a
      → present ((entered s i a).mem (kernbase + 4096 * i + 8 * o)) ≡ false
  fresh_entry o h ne =
      let zero : (taken s i).mem (kernbase + 4096 * i + 8 * o) ≡ 0 =
        took.cleared (kernbase + 4096 * i + 8 * o) (omega arith) (omega arith) in
      ground (arith, zero)

  pub fresh-Safe : (o : ℕ) → o < 512 → Safe (entered s i a) is (kernbase + 4096 * i + 8 * o)
  fresh-Safe o h = record {
    array = inr (omega (arith, f.free.0));
    frames = apart_all is f.distinct.0;
  }
    where
      apart_all : (js : List ℕ) → has i js ≡ false → All (Apart (kernbase + 4096 * i + 8 * o)) js
      apart_all [] out = tt
      apart_all (j ∷ js) out =
          let ne : i ≢ j = ground arith in (omega arith, apart_all js (ground arith))

pub new_table :
    (s : Frames) (i : ℕ) (is : List ℕ) (a : ℕ)
    → IsFreeList s (i ∷ is)
    → present (s.mem a) ≡ false
    → create_dir_table s a ≡ (4096 * i, entered s i a)
unfolding create_dir_table
new_table s i is a f e = rw (e, fetch_free_page-taken s i f.placed f.free.0.0 f.chain.0)

old_table :
    (s : Frames) (a : ℕ)
    → present (s.mem a) ≡ true
    → create_dir_table s a ≡ (scale_down (s.mem a), s)
unfolding create_dir_table
old_table s a e = rw e

-- After `create_dir_table` the entry is present and points at the table whose physical address is
-- returned; no other word that allocations spare has changed.
pub create_dir_table_lem :
    (s : Frames) (is : List ℕ) (a : ℕ)
    → IsFreeList s is
    → Usable s is a
    → HasDir s is a (create_dir_table s a).0 (create_dir_table s a).1 (left s is a)
unfolding scale_down
create_dir_table_lem s [] a f u = absurd (omega (arith, u.room))
create_dir_table_lem s (i ∷ is) a f u = elim (Bool-cases (present (s.mem a))) [
  | inl e ↦
      let w = u.window e in
      rw (old_table s a e, e)
        (record {
          free = f;
          set = ground arith;
          points = omega arith;
          aligned = omega arith;
          below = omega arith;
          keeps = λ b ne sb. refl;
          spares = λ b sb. sb;
        })
  | inr e ↦ rw (new_table s i is a f e, e) (entered-HasDir s i is a f u.safe)
]

-- The frame that is taken for a table behind the entry at `a`, if that is empty.
abbrev pub news : Frames → List ℕ → ℕ → List ℕ
news s [] a = []
news s (i ∷ is) a = if present (s.mem a) then [] else i ∷ []

-- The word at `b` lies not in frame `i`, and is not the count of it.
abbrev pub Spared : Frames → ℕ → ℕ → Type 0
Spared s b i = (b ≢ struct_vir s i + 8) × Apart b i

pub Spared-pages :
    (s t : Frames) (b : ℕ) (is : List ℕ)
    → t.pages ≡ s.pages
    → All (Spared s b) is
    → All (Spared t b) is
Spared-pages s t b [] e h = tt
Spared-pages s t b (i ∷ is) e (h, hs) =
    ((λ q. h.0 (q ∙ omega (arith, e)), h.1), Spared-pages s t b is e hs)

pub All-news : (P : ℕ → Type 0) (s : Frames) (is : List ℕ) (a : ℕ) → All P is → All P (news s is a)
All-news P s [] a h = tt
All-news P s (i ∷ is) a h = elim (Bool-cases (present (s.mem a))) [
  | inl e ↦ rw e tt
  | inr e ↦ rw e (h.0, tt)
]

pub All-left : (P : ℕ → Type 0) (s : Frames) (is : List ℕ) (a : ℕ) → All P is → All P (left s is a)
All-left P s [] a h = elim (Bool-cases (present (s.mem a))) [ inl e ↦ rw e tt | inr e ↦ rw e tt ]
All-left P s (i ∷ is) a h = elim (Bool-cases (present (s.mem a))) [
  | inl e ↦ rw e h
  | inr e ↦ rw e h.1
]

-- A level of the walk writes its entry and what it takes for a table, and no other word.
pub create_dir_table_keeps :
    (s : Frames) (is : List ℕ) (a b : ℕ)
    → IsFreeList s is
    → Usable s is a
    → b ≢ a
    → All (Spared s b) (news s is a)
    → ((create_dir_table s a).1.mem b ≡ s.mem b) × ((create_dir_table s a).1.pages ≡ s.pages)
create_dir_table_keeps s [] a b f u ne h = absurd (omega (arith, u.room))
create_dir_table_keeps s (i ∷ is) a b f u ne h = elim (Bool-cases (present (s.mem a))) [
  | inl e ↦ rw (old_table s a e) (refl, refl)
  | inr e ↦ rw (new_table s i is a f e) (kept (subst (All (Spared s b)) (new e) h).0, refl)
]
  where
    new : present (s.mem a) ≡ false → news s (i ∷ is) a ≡ i ∷ []
    new e = rw e refl

    kept : Spared s b i → (entered s i a).mem b ≡ s.mem b
    kept sp = let same = (taken-Took s i is f).others b sp.0 sp.1 in ground (arith, same)
