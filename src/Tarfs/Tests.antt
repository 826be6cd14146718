-- ===== src/Tarfs/Tests.antt =====
-- An archive with one file, "a", of five bytes; the running task has it open as descriptor 3 and has
-- read two bytes.
use nascent_os.Prelude.{
  ℕ, ◌+◌, ◌-◌, ◌≤◌, ◌≡◌, refl, ◌⊎◌, inl, inr, Option, some, [], ◌∷◌, ◌++◌, arith, ◌==◌, leb, ltb,
  ◌&&◌, if◌then◌else◌, replicate,
}
use nascent_os.Text.{str_compare}
use nascent_os.Proc.{Proc, Fd}
use nascent_os.Proc.Tests.{nothing}
use nascent_os.Tarfs.{
  Archive, search, name_at, set_fds, size_at, convert_oct_int, oct_loop, digit, blocks,
  get_next_tar_header,
}
use nascent_os.Tarfs.Files.{no_fd, Opened, open_s}
use nascent_os.Tarfs.Files.Opening.{Opening, open_s-Opening}
use nascent_os.Tarfs.Walk.{Finds, Reached, start, next, IsSound, search-Finds}

-- the digits of the size are at 4220 to 4230
abbrev pub archive : Archive
archive = record {
  byte = λ p.
      if p == 4096
      then 97
      else if p == 4230
      then 53
      else if leb 4220 p && ltb p 4230
      then 48
      else if leb 4608 p && ltb p 4613
      then 104 + (p - 4608)
      else 0;
  tarfs_start = 4096;
  tarfs_end = 5120;
}

pub five : size_at archive 4096 ≡ 5
unfolding convert_oct_int oct_loop digit
five = refl

one_step : get_next_tar_header archive 4096 ≡ 5120
unfolding get_next_tar_header convert_oct_int oct_loop digit blocks
one_step = refl

headers : (h : ℕ) → Reached archive h → (h ≡ 4096) ⊎ (5120 ≤ h)
headers h start = inl refl
headers h (next g l t) = elim (headers g t) [
  | inl e ↦ inr (rw (e, one_step) (omega arith))
  | inr e ↦ absurd (omega arith)
]

archive-IsSound : IsSound archive
archive-IsSound h t l = elim (headers h t) [
  | inl e ↦ rw (e, five) (omega arith, omega arith)
  | inr e ↦ absurd (omega arith)
]

search-Finds_example :
    (r : Option ℕ) × (search (λ h. str_compare (name_at archive h) (97 ∷ []) == 0) archive ≡ some r)
    × Finds (λ h. str_compare (name_at archive h) (97 ∷ []) == 0) archive 4096 r
search-Finds_example =
    search-Finds (λ h. str_compare (name_at archive h) (97 ∷ []) == 0) archive archive-IsSound

abbrev file : ℕ → Fd
file seen = record {
  alloted = 1;
  file_sz = 5;
  num_bytes_read = seen;
  file_ptr = 4608 + seen;
  last_matched_header = 4608;
  is_dir = 0;
  fdtype = 2;
}

abbrev reader : ℕ → Proc
reader seen = set_fds nothing (replicate 3 no_fd ++ (file seen ∷ replicate 6 no_fd))

abbrev caller : ℕ → ℕ
caller i = 88

-- The file is opened a second time.
open_s-Opening_example :
    (r : Opened) × (open_s archive (reader 2) (97 ∷ []) ≡ some r)
    × Opening archive (reader 2) (97 ∷ []) r
open_s-Opening_example = open_s-Opening archive (reader 2) (97 ∷ []) archive-IsSound
