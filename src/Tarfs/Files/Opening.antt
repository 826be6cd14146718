-- ===== src/Tarfs/Files/Opening.antt =====
-- What `open_s` returns, on every path: the descriptor, or one of its two errors.
use mathlib.Core.Path.{subst}
use nascent_os.Prelude.{
  ℕ, zero, suc, ◌+◌, ◌<◌, ◌≡◌, refl, ap, sym, fun_ext, ◌∙◌, ◌≢◌, ◌⊎◌, inl, inr, Bool, List, [], ◌∷◌,
  arith, ◌==◌, Option, none, some, get_or, set, length, get_or-set_self, All, Bool-cases,
}
use nascent_os.Text.{str_compare, str_compare1}
use nascent_os.Text.Compare.{str_compare1-eq}
use nascent_os.Proc.{Proc, Fd}
use nascent_os.Proc.TaskList.{◌>>=◌}
use nascent_os.Tarfs.{
  Archive, name_at, size_at, search, file_exists, is_found, set_fds, fds_of, free_fd_loop,
  get_free_fd,
}
use nascent_os.Tarfs.Walk.{Finds, IsSound, search-Finds}
use nascent_os.Tarfs.Files.{no_fd, fd_at, set_fd, Opened, opened_file, open_found, open_s}

abbrev pub named : Archive → List ℕ → ℕ → Bool
named a path h = str_compare (name_at a h) path == 0

-- A descriptor given to the file at `h`.
abbrev pub given : Fd → ℕ → Fd
given d file_ptr = record d { alloted = 1; file_ptr = file_ptr; last_matched_header = file_ptr }

abbrev pub AllUsed : List Fd → Type 0
AllUsed ds = All (λ d. d.alloted ≢ 0) ds

-- The first descriptor that is free.
pub record FreeAt (ds : List Fd) (j : ℕ) : Type 0 where
  pub in_range : j < length ds
  pub free : (get_or ds j no_fd).alloted ≡ 0
  pub before : (i : ℕ) → i < j → (get_or ds i no_fd).alloted ≢ 0

before_suc :
    (d : Fd) (ds : List Fd) (j : ℕ)
    → d.alloted ≢ 0
    → ((i : ℕ) → i < j → (get_or ds i no_fd).alloted ≢ 0)
    → (i : ℕ) → i < suc j
    → (get_or (d ∷ ds) i no_fd).alloted ≢ 0
before_suc d ds j n b zero l = n
before_suc d ds j n b (suc i) l = b i (omega (arith, l))

free_fd_loop_lem :
    (ds : List Fd) (i ptr : ℕ)
    → (AllUsed ds × (free_fd_loop ds i ptr ≡ none))
      ⊎ ((j : ℕ) × FreeAt ds j
          × (free_fd_loop ds i ptr ≡ some (i + j, set ds j (given (get_or ds j no_fd) ptr))))
unfolding free_fd_loop
free_fd_loop_lem [] i ptr = inl (tt, refl)
free_fd_loop_lem (d ∷ ds) i ptr = elim (Bool-cases (d.alloted == 0)) [
  | inl e ↦ inr (
    0,
    record {
      in_range = omega arith;
      free = ground (arith, e);
      before = λ k l. absurd (omega arith);
    },
    rw e (ap (λ k. some (k, given d ptr ∷ ds)) (omega arith)),
  )
  | inr e ↦ elim (free_fd_loop_lem ds (suc i) ptr) [
    | inl u ↦ inl ((ground (arith, e), u.0), rw (e, u.1) refl)
    | inr (j, fr, eq) ↦ inr (
      suc j,
      record {
        in_range = omega (arith, fr.in_range);
        free = fr.free;
        before = before_suc d ds j (ground (arith, e)) fr.before;
      },
      rw (e, eq) (ap (λ k. some (k, d ∷ set ds j (given (get_or ds j no_fd) ptr))) (omega arith)),
    )
  ]
]

pub first_free :
    (ds : List Fd) (ptr : ℕ)
    → (AllUsed ds × (free_fd_loop ds 0 ptr ≡ none))
      ⊎ ((j : ℕ) × FreeAt ds j
          × (free_fd_loop ds 0 ptr ≡ some (j, set ds j (given (get_or ds j no_fd) ptr))))
first_free ds ptr = elim (free_fd_loop_lem ds 0 ptr) [
  | inl u ↦ inl u
  | inr (j, fr, e) ↦
      inr (j, fr, e ∙ ap (λ k. some (k, set ds j (given (get_or ds j no_fd) ptr))) (omega arith))
]

-- The descriptor of the file at `h`.
abbrev pub file_fd : Archive → Fd → ℕ → Fd
file_fd a d h = record (given d (h + 512)) { file_sz = size_at a h }

-- How `open_s` ends: no file has the name, and -1 is returned; there is one and no descriptor is free, and 0 is
-- returned; or the first free descriptor is given to the first file of the name, with its first byte and
-- its size. In the two errors the state is as before; a descriptor changes no other one and no other
-- task.
pub data Opening (a : Archive) (s : Proc) (path : List ℕ) : Opened → Type 0 where
  missing : Finds (named a path) a a.tarfs_start none → Opening a s path (none, s)
  no_descriptor :
      (h : ℕ)
      → Finds (named a path) a a.tarfs_start (some h)
      → AllUsed (fds_of s)
      → Opening a s path (some 0, s)
  opened :
      (h fd : ℕ) (s' : Proc)
      → Finds (named a path) a a.tarfs_start (some h)
      → FreeAt (fds_of s) fd
      → fds_of s' ≡ set (fds_of s) fd (file_fd a (get_or (fds_of s) fd no_fd) h)
      → ((i : ℕ) → i ≢ s.running_task → s'.pcb i ≡ s.pcb i)
      → Opening a s path (some fd, s')

set-set : (ds : List Fd) (j : ℕ) (v w : Fd) → set (set ds j v) j w ≡ set ds j w
set-set [] j v w = refl
set-set (d ∷ ds) zero v w = refl
set-set (d ∷ ds) (suc j) v w = ap (λ l. d ∷ l) (set-set ds j v w)

fds_of-set_fds : (s : Proc) (ds : List Fd) → fds_of (set_fds s ds) ≡ ds
fds_of-set_fds s ds = ground arith

abbrev sized : Fd → ℕ → Fd
sized d n = record d { file_sz = n }

-- The state with the descriptor.
abbrev pub with_file : Archive → Proc → ℕ → ℕ → Proc
with_file a s h j =
    let s1 = set_fds s (set (fds_of s) j (given (get_or (fds_of s) j no_fd) (h + 512))) in
    set_fd s1 j (sized (fd_at s1 j) (size_at a h))

pub with_file-fds :
    (a : Archive) (s : Proc) (h j : ℕ)
    → j < length (fds_of s)
    → fds_of (with_file a s h j) ≡ set (fds_of s) j (file_fd a (get_or (fds_of s) j no_fd) h)
with_file-fds a s h j l =
    let d = given (get_or (fds_of s) j no_fd) (h + 512) in
    let s1 = set_fds s (set (fds_of s) j d) in
    let e = fds_of-set_fds s (set (fds_of s) j d) in
    let write : List Fd → List Fd = λ ds. set ds j (sized (get_or ds j no_fd) (size_at a h)) in
    fds_of-set_fds s1 (write (fds_of s1))
    ∙ ap write e
    ∙ ap (λ v. set (set (fds_of s) j d) j (sized v (size_at a h)))
        (get_or-set_self (fds_of s) j d no_fd l)
    ∙ set-set (fds_of s) j d (sized d (size_at a h))

with_file-others :
    (a : Archive) (s : Proc) (h j i : ℕ) → i ≢ s.running_task → (with_file a s h j).pcb i ≡ s.pcb i
with_file-others a s h j i n = ground arith

pub no_free : (s : Proc) (ptr : ℕ) → free_fd_loop (fds_of s) 0 ptr ≡ none → get_free_fd s ptr ≡ none
unfolding get_free_fd
no_free s ptr e = rw e refl

pub one_free :
    (s : Proc) (ptr : ℕ) (r : ℕ × List Fd)
    → free_fd_loop (fds_of s) 0 ptr ≡ some r
    → get_free_fd s ptr ≡ some (r.0, set_fds s r.1)
unfolding get_free_fd
one_free s ptr r e = rw e refl

found_Opening :
    (a : Archive) (s : Proc) (path : List ℕ) (r : Option ℕ)
    → Finds (named a path) a a.tarfs_start r
    → Opening a s path (open_found a s r)
unfolding open_found opened_file
found_Opening a s path none f = missing f
found_Opening a s path (some h) f = elim (first_free (fds_of s) (h + 512)) [
  | inl u ↦
      subst (λ g. Opening a s path (opened_file a s h g)) (sym (no_free s (h + 512) u.1))
        (no_descriptor h f u.0)
  | inr (j, fr, e) ↦
      subst (λ g. Opening a s path (opened_file a s h g))
        (sym (
          one_free s (h + 512) (j, set (fds_of s) j (given (get_or (fds_of s) j no_fd) (h + 512)))
            e))
        (opened h j (with_file a s h j) f fr (with_file-fds a s h j fr.in_range)
          (with_file-others a s h j))
]

pub exists_step :
    (a : Archive) (path : List ℕ) (r : Option ℕ)
    → search (named a path) a ≡ some r
    → file_exists a path ≡ some (is_found r)
unfolding file_exists
exists_step a path r e =
    let p : (λ h. str_compare1 (name_at a h) path == 0) ≡ named a path =
      fun_ext (λ h. ap (λ c. c == 0) (str_compare1-eq (name_at a h) path)) in
    ap (λ q. search q a >>= (λ x. some (is_found x))) p ∙ ap (λ x. x >>= (λ y. some (is_found y))) e

pub open_step :
    (a : Archive) (s : Proc) (path : List ℕ) (r : Option ℕ)
    → search (named a path) a ≡ some r
    → file_exists a path ≡ some (is_found r)
    → open_s a s path ≡ some (open_found a s r)
unfolding open_s open_found
open_step a s path none e x = rw x refl
open_step a s path (some h) e x = rw (x, e) refl

-- In an archive with sound size fields, neither negative nor so large that a number wraps around, `open_s`
-- ends, in one of the three ways of `Opening`: with -1 if no file has the name, with 0 if there
-- is no descriptor, or with the first free descriptor.
pub open_s-Opening :
    (a : Archive) (s : Proc) (path : List ℕ)
    → IsSound a
    → (r : Opened) × (open_s a s path ≡ some r) × Opening a s path r
open_s-Opening a s path sound =
    let (r, e, f) = search-Finds (named a path) a sound in
    (open_found a s r, open_step a s path r e (exists_step a path r e), found_Opening a s path r f)
