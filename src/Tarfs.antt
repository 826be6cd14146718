-- ===== src/Tarfs.antt =====
-- sys/tarfs.c: the files of the tar archive that is linked into the kernel, and the descriptors of the
-- running task. The archive's bytes are a function of the address, and so is a caller's buffer of the
-- index. An `int` is its 32 bits, with the sign written out where it matters. What
-- `path_sanitize` (in Path) makes of a path is the argument `d_path` of the functions that call it.
pub mod Files
pub mod Walk
pub mod Path
pub mod Calls
pub mod Tests
use nascent_os.Prelude.{
  ℕ, zero, suc, ◌+◌, ◌-◌, ◌*◌, ◌^◌, ◌/◌, ◌%◌, Bool, true, false, List, [], ◌∷◌, ◌==◌, ltb,
  if◌then◌else◌, Option, none, some,
}
use nascent_os.Prelude.Word.{add64}
use nascent_os.Frames.{int_word}
use nascent_os.Text.{str_compare1}
use nascent_os.Proc.{Proc, Fd, set_task}
use nascent_os.Proc.TaskList.{◌>>=◌}

-- The archive, from `_binary_tarfs_start` to `_binary_tarfs_end`.
pub record Archive : Type 0 where
  pub byte : ℕ → ℕ
  pub tarfs_start : ℕ
  pub tarfs_end : ℕ

-- The `n` bytes at `p`
abbrev pub bytes_at : (ℕ → ℕ) → ℕ → ℕ → List ℕ
bytes_at f p zero = []
bytes_at f p (suc n) = f p ∷ bytes_at f (suc p) n

-- The fields of posix_header_ustar: a string in one of them ends in the header's 512 bytes.
abbrev pub name_at : Archive → ℕ → List ℕ
name_at a h = bytes_at a.byte h 512

abbrev pub typeflag_at : Archive → ℕ → List ℕ
typeflag_at a h = bytes_at a.byte (h + 156) 356

-- `c - '0'` as an `int`: a `char` of 128 or more is negative.
pub digit : ℕ → ℕ
digit c = if ltb c 128 then (c + (2 ^ 32 - 48)) % 2 ^ 32 else c + (2 ^ 32 - 256 - 48)

-- The digits of the size field of the header at `h`, from index `i` - 1 down. The `int`s wrap around.
pub oct_loop : (ℕ → ℕ) → ℕ → ℕ → ℕ → ℕ
unfolding digit
oct_loop oct_string zero f file_size = file_size
oct_loop oct_string (suc i) f file_size =
    oct_loop oct_string i (f * 8 % 2 ^ 32) ((file_size + digit (oct_string i) * f) % 2 ^ 32)

pub convert_oct_int : (ℕ → ℕ) → ℕ
unfolding oct_loop
convert_oct_int oct_string = oct_loop oct_string 11 1 0

abbrev pub size_at : Archive → ℕ → ℕ
size_at a h = convert_oct_int (λ i. a.byte (h + 124 + i))

-- An `int` divided by 512, which rounds toward 0.
pub blocks : ℕ → ℕ
blocks file_size =
    if ltb file_size (2 ^ 31) then file_size / 512 else 2 ^ 32 - (2 ^ 32 - file_size) / 512

pub get_next_tar_header : Archive → ℕ → ℕ
unfolding blocks
get_next_tar_header a h =
    let file_size = size_at a h in
    if file_size % 512 == 0
    then add64 h (int_word ((blocks file_size + 1) * 512))
    else add64 h (int_word ((blocks file_size + 2) * 512))

-- The loop over the headers that the functions share: the first header that passes the test. `none` is a
-- walk that the fuel does not see the end of.
unfoldable pub find_header : ℕ → (ℕ → Bool) → Archive → ℕ → Option (Option ℕ)
find_header zero p a h = none
find_header (suc k) p a h =
    let rest = find_header k p a (get_next_tar_header a h) in
    if ltb h a.tarfs_end then (if p h then some (some h) else rest) else some none

abbrev pub search : (ℕ → Bool) → Archive → Option (Option ℕ)
search p a = find_header (suc (a.tarfs_end - a.tarfs_start)) p a a.tarfs_start

abbrev pub is_found : Option ℕ → Bool
is_found none = false
is_found (some h) = true

-- `true` is the return of 1, `false` that of -1.
pub file_exists : Archive → List ℕ → Option Bool
file_exists a f_name =
    search (λ h. str_compare1 (name_at a h) f_name == 0) a >>= (λ r. some (is_found r))

-- The descriptors of the running task.
abbrev pub set_fds : Proc → List Fd → Proc
set_fds s fds = set_task s s.running_task (record (s.pcb s.running_task) { fd_array = fds })

abbrev pub fds_of : Proc → List Fd
fds_of s = (s.pcb s.running_task).fd_array

-- The loop of `get_free_fd`, at index `i`: the descriptor and the array, or none.
pub free_fd_loop : List Fd → ℕ → ℕ → Option (ℕ × List Fd)
free_fd_loop [] i file_ptr = none
free_fd_loop (d ∷ ds) i file_ptr =
    let rest = free_fd_loop ds (suc i) file_ptr in
    if d.alloted == 0
    then some
        (i, record d { alloted = 1; file_ptr = file_ptr; last_matched_header = file_ptr } ∷ ds)
    else rest >>= (λ r. some (r.0, d ∷ r.1))

-- `none` is the return of -1.
pub get_free_fd : Proc → ℕ → Option (ℕ × Proc)
unfolding free_fd_loop
get_free_fd s file_ptr = free_fd_loop (fds_of s) 0 file_ptr >>= (λ r. some (r.0, set_fds s r.1))
