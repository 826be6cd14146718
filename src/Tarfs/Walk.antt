-- ===== src/Tarfs/Walk.antt =====
-- The walk over the headers of the archive ends, and finds the first header that passes the test.
use nascent_os.Prelude.{
  ℕ, zero, suc, ◌+◌, ◌-◌, ◌*◌, ◌/◌, ◌%◌, ◌^◌, ◌≤◌, ◌<◌, ◌≡◌, ◌∙◌, inl, inr, Bool, true, false,
  Option, none, some, arith, ◌==◌, ltb, Bool-cases,
}
use nascent_os.Prelude.Word.{add64}
use nascent_os.Frames.{int_word}
use nascent_os.Tarfs.{Archive, size_at, blocks, get_next_tar_header, find_header, search}

-- From the header at the address on, the first one that passes the test is the one given, or there is none.
pub data Finds (p : ℕ → Bool) (a : Archive) : ℕ → Option ℕ → Type 0 where
  past : (h : ℕ) → a.tarfs_end ≤ h → Finds p a h none
  here : (h : ℕ) → h < a.tarfs_end → p h ≡ true → Finds p a h (some h)
  later :
      (h : ℕ) (r : Option ℕ)
      → h < a.tarfs_end
      → p h ≡ false
      → Finds p a (get_next_tar_header a h) r
      → Finds p a h r

-- The headers that a walk from the start of the archive comes to.
pub data Reached (a : Archive) : ℕ → Type 0 where
  start : Reached a a.tarfs_start
  next : (h : ℕ) → h < a.tarfs_end → Reached a h → Reached a (get_next_tar_header a h)

-- The size field of every header that a walk comes to is neither negative nor so large that an `int` or the address
-- of the next header wraps around.
abbrev pub IsSound : Archive → Type 0
IsSound a =
    (h : ℕ)
    → Reached a h
    → h < a.tarfs_end
    → (size_at a h + 1024 < 2 ^ 31) × (h + size_at a h + 1024 < 2 ^ 64)

int_word_small : (x : ℕ) → x < 2 ^ 31 → int_word x ≡ x
int_word_small x l = ground arith

blocks_small : (x : ℕ) → x < 2 ^ 31 → blocks x ≡ x / 512
unfolding blocks
blocks_small x l = ground arith

-- A step of `k` blocks over the file
step_small :
    (h size k : ℕ)
    → k ≤ 2
    → size + 1024 < 2 ^ 31
    → h + size + 1024 < 2 ^ 64
    → add64 h (int_word ((blocks size + k) * 512)) ≡ h + (size / 512 + k) * 512
step_small h size k b s l =
    let e : int_word ((size / 512 + k) * 512) ≡ (size / 512 + k) * 512 =
      int_word_small ((size / 512 + k) * 512) (omega arith) in
    rw (blocks_small size (omega arith), e) (omega arith)

next_ahead :
    (a : Archive) (h : ℕ)
    → size_at a h + 1024 < 2 ^ 31
    → h + size_at a h + 1024 < 2 ^ 64
    → h + 512 ≤ get_next_tar_header a h
unfolding get_next_tar_header
next_ahead a h s l = elim (Bool-cases (size_at a h % 512 == 0)) [
  | inl e ↦ rw (e, step_small h (size_at a h) 1 (omega arith) s l) (omega arith)
  | inr e ↦ rw (e, step_small h (size_at a h) 2 (omega arith) s l) (omega arith)
]

past_step :
    (k : ℕ) (p : ℕ → Bool) (a : Archive) (h : ℕ)
    → a.tarfs_end ≤ h
    → find_header (suc k) p a h ≡ some none
unfolding find_header
past_step k p a h l = ground arith

here_step :
    (k : ℕ) (p : ℕ → Bool) (a : Archive) (h : ℕ)
    → h < a.tarfs_end
    → p h ≡ true
    → find_header (suc k) p a h ≡ some (some h)
unfolding find_header
here_step k p a h l e = ground arith

later_step :
    (k : ℕ) (p : ℕ → Bool) (a : Archive) (h : ℕ)
    → h < a.tarfs_end
    → p h ≡ false
    → find_header (suc k) p a h ≡ find_header k p a (get_next_tar_header a h)
unfolding find_header
later_step k p a h l e = ground arith

find_header-Finds :
    (k : ℕ) (p : ℕ → Bool) (a : Archive) (h : ℕ)
    → IsSound a
    → Reached a h
    → a.tarfs_end - h < k
    → (r : Option ℕ) × (find_header k p a h ≡ some r) × Finds p a h r
find_header-Finds zero p a h sound t l = absurd (omega arith)
find_header-Finds (suc k) p a h sound t l = elim (Bool-cases (ltb h a.tarfs_end)) [
  | inr n ↦ let e : a.tarfs_end ≤ h = ground (arith, n) in (none, past_step k p a h e, past h e)
  | inl b ↦
      let e : h < a.tarfs_end = ground (arith, b) in
      elim (Bool-cases (p h)) [
        | inl y ↦ (some h, here_step k p a h e y, here h e y)
        | inr f ↦
            let (small, low) = sound h t e in
            let ahead = next_ahead a h small low in
            let (r, runs, finds) =
              find_header-Finds k p a (get_next_tar_header a h) sound (next h e t) (omega arith) in
            (r, later_step k p a h e f ∙ runs, later h r e f finds)
      ]
]

-- A walk over an archive with sound size fields, neither negative nor so large that a number wraps around, ends
-- within the fuel it is given, and its result is the first header, in the order of the archive, that passes the
-- test, or none if no header does.
pub search-Finds :
    (p : ℕ → Bool) (a : Archive)
    → IsSound a
    → (r : Option ℕ) × (search p a ≡ some r) × Finds p a a.tarfs_start r
search-Finds p a sound =
    find_header-Finds (suc (a.tarfs_end - a.tarfs_start)) p a a.tarfs_start sound start
      (omega arith)
