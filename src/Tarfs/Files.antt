-- ===== src/Tarfs/Files.antt =====
-- The descriptors at work: open, read, close, and the directories of the archive. What is printed is left
-- out. `close_s` does not look at its descriptor: one that is out of range, which the source would write
-- to all the same, changes nothing here.

pub mod Reads
pub mod Opening
use nascent_os.Prelude.{
  false, ℕ, suc, ◌+◌, ◌-◌, ◌%◌, ◌^◌, Bool, ◌&&◌, ◌||◌, not, List, [], ◌∷◌, ◌==◌, ltb, if◌then◌else◌,
  Option, none, some, get_or, set, map, drop,
}
use nascent_os.Prelude.Word.{add64}
use nascent_os.Frames.{int_word}
use nascent_os.Text.{str_compare, str_compare1, is_sub_string, string_sub, str_copy}
use nascent_os.Proc.{Proc, Fd, max_fds, set_task}
use nascent_os.Proc.TaskList.{◌>>=◌}
use nascent_os.Tarfs.{
  Archive, name_at, typeflag_at, size_at, find_header, search, file_exists, set_fds, fds_of,
  get_free_fd,
}

-- A descriptor that is out of the array reads as this one.
abbrev pub no_fd : Fd
no_fd = record {
  alloted = 0;
  file_sz = 0;
  num_bytes_read = 0;
  file_ptr = 0;
  last_matched_header = 0;
  is_dir = 0;
  fdtype = 0;
}

abbrev pub fd_at : Proc → ℕ → Fd
fd_at s fd = get_or (fds_of s) fd no_fd

abbrev pub set_fd : Proc → ℕ → Fd → Proc
set_fd s fd d = set_fds s (set (fds_of s) fd d)

reset : Fd → Fd
reset d = record d {
  alloted = 0;
  file_sz = 0;
  num_bytes_read = 0;
  is_dir = 0;
  last_matched_header = 0;
}

pub initialise_fds : Proc → Proc
unfolding reset
initialise_fds s = set_fds s (map reset (fds_of s))

-- A descriptor, or -1 as `none`, with the state.
abbrev pub Opened : Type 0
Opened = Option ℕ × Proc

unfoldable pub opened_file : Archive → Proc → ℕ → Option (ℕ × Proc) → Opened
opened_file a s h none = (some 0, s)
opened_file a s h (some (fd, s1)) =
    (some fd, set_fd s1 fd (record (fd_at s1 fd) { file_sz = size_at a h }))

unfoldable pub open_found : Archive → Proc → Option ℕ → Opened
open_found a s none = (none, s)
open_found a s (some h) = opened_file a s h (get_free_fd s (h + 512))

-- `open_s` from the sanitized path on. The outer `none` is a walk that its fuel does not see the end of;
-- without a free descriptor the source returns 0.
pub open_s : Archive → Proc → List ℕ → Option Opened
unfolding opened_file open_found
open_s a s d_path = file_exists a d_path >>= (λ e.
    if not e
    then some (none, s)
    else (search (λ h. str_compare (name_at a h) d_path == 0) a >>= (λ r. some (open_found a s r))))

-- 0 is a descriptor that can be used, 1 one that cannot.
pub file_des_validator : Proc → ℕ → ℕ
file_des_validator s fd = if ltb fd max_fds then (if (fd_at s fd).alloted == 1 then 0 else 1) else 1

-- `<` of two `int`s
pub less_int : ℕ → ℕ → Bool
less_int x y = ltb ((x + 2 ^ 31) % 2 ^ 32) ((y + 2 ^ 31) % 2 ^ 32)

-- MIN
abbrev pub min_of : ℕ → ℕ → ℕ
min_of x y = if less_int x y then x else y

-- memcopy into a buffer
pub memcopy : ℕ → (ℕ → ℕ) → ℕ → (ℕ → ℕ) → ℕ → ℕ
memcopy size source from buffer i = if ltb i size then source (from + i) else buffer i

-- `read_s` and `fgets_s` of a file: the bytes that are read, the buffer and the state. Descriptor 0 is
-- the terminal's. `none` is a negative count, of which memcopy makes a huge one.
pub read_s : Archive → Proc → ℕ → (ℕ → ℕ) → ℕ → Option ((ℕ × (ℕ → ℕ)) × Proc)
unfolding memcopy less_int
read_s a s fd buffer num_bytes =
    let d = fd_at s fd in
    let num_bytes_remaining = (d.file_sz + (2 ^ 32 - d.num_bytes_read)) % 2 ^ 32 in
    let count = min_of num_bytes num_bytes_remaining in
    if not (file_des_validator s fd == 0)
    then some ((0, buffer), s)
    else if less_int d.num_bytes_read d.file_sz
    then if less_int count 0
      then none
      else some (
        (count, memcopy count a.byte d.file_ptr buffer),
        set_fd s fd (record d {
          file_ptr = add64 d.file_ptr (int_word num_bytes);
          num_bytes_read = (d.num_bytes_read + num_bytes) % 2 ^ 32;
        }),
      )
    else some ((0, buffer), s)

pub close_s : Proc → ℕ → Proc
close_s s fd = set_fd s fd (record (fd_at s fd) { alloted = 0; file_sz = 0; num_bytes_read = 0 })

opened_dir : Proc → ℕ → Option (ℕ × Proc) → Opened
opened_dir s h none = (some 0, s)
opened_dir s h (some (fd, s1)) =
    (some fd, set_fd s1 fd (record (fd_at s1 fd) { last_matched_header = h }))

dir_found : Proc → Option ℕ → Opened
dir_found s none = (none, s)
dir_found s (some h) = opened_dir s h (get_free_fd s h)

-- `open_dir` of a path other than "/", from the sanitized path with its slash on.
pub open_dir : Archive → Proc → List ℕ → Option Opened
unfolding opened_dir dir_found
open_dir a s d_path = file_exists a d_path >>= (λ e.
    if not e
    then some (none, s)
    else (search
          (λ h.
            str_compare (name_at a h) d_path == 0 && str_compare (typeflag_at a h) (53 ∷ []) == 0)
          a
        >>= (λ r. some (dir_found s r))))

-- An entry of the directory `dir_name` that was not seen before: the last one seen is another entry, and
-- not a directory that this one lies in.
abbrev pub next_entry : List ℕ → List ℕ → List ℕ → Bool
next_entry dir_name last_matched_name name =
    is_sub_string dir_name name == 0
    && not (str_compare1 last_matched_name name == 0)
    && (str_compare1 dir_name last_matched_name == 0
        || not (is_sub_string last_matched_name name == 0))

entry_found : Archive → Proc → ℕ → List ℕ → List ℕ → Option ℕ → (ℕ × List ℕ) × Proc
entry_found a s fd dir_name buffer none = ((1, buffer), s)
entry_found a s fd dir_name buffer (some h) = (
  (0, string_sub (name_at a h) dir_name buffer 47),
  set_fd s fd (record (fd_at s fd) { last_matched_header = h }),
)

-- `read_dir` of a descriptor other than 25: 0 and the entry's name in the buffer, or 1.
pub read_dir : Archive → Proc → ℕ → List ℕ → Option ((ℕ × List ℕ) × Proc)
unfolding entry_found
read_dir a s fd buffer =
    let d = fd_at s fd in
    let dir_name = name_at a d.file_ptr in
    let last_matched_name = name_at a d.last_matched_header in
    if file_des_validator s fd == 1
    then some ((1, buffer), s)
    else (find_header (suc (a.tarfs_end - d.last_matched_header))
          (λ h. next_entry dir_name last_matched_name (name_at a h)) a d.last_matched_header
        >>= (λ r. some (entry_found a s fd dir_name buffer r)))

pub close_dir : Proc → ℕ → Proc
unfolding close_s
close_dir s fd = if fd == 25 then s else close_s s fd

pub fetch_cwd : Proc → List ℕ → List ℕ
fetch_cwd s output_buffer = str_copy (s.pcb s.running_task).cwd output_buffer

-- `set_cwd` from the sanitized path with its slash on, which begins with a slash.
pub set_cwd : Archive → Proc → List ℕ → Option Proc
set_cwd a s path =
    let t = s.pcb s.running_task in
    let moved = set_task s s.running_task (record t { cwd = str_copy path t.cwd }) in
    if get_or path 1 0 == 0 && get_or path 0 0 == 47
    then some moved
    else (file_exists a (drop 1 path) >>= (λ e. some (if e then moved else s)))

-- The magic number of an ELF file, at `h`
pub is_elf_format : Archive → ℕ → Bool
is_elf_format a h =
    a.byte h == 127 && a.byte (h + 1) == 69 && a.byte (h + 2) == 76 && a.byte (h + 3) == 70

binary_found : Archive → Option ℕ → Bool
binary_found a none = false
binary_found a (some h) = is_elf_format a (h + 512)

-- `true` is the return of 1, `false` that of -1.
pub validate_binary : Archive → List ℕ → Option Bool
unfolding binary_found is_elf_format
validate_binary a f_name =
    search (λ h. str_compare1 (name_at a h) f_name == 0) a >>= (λ r. some (binary_found a r))
