-- ===== src/Tarfs/Files/Reads.antt =====
-- Reading a file from its descriptor.
use nascent_os.Prelude.{ℕ, ◌+◌, ◌%◌, ◌^◌, ◌≤◌, ◌<◌, ◌≡◌, refl, false, arith, ltb, length, some}
use nascent_os.Prelude.Word.{add64}
use nascent_os.Frames.{int_word}
use nascent_os.Proc.{Proc, max_fds}
use nascent_os.Tarfs.{Archive, fds_of}
use nascent_os.Tarfs.Files.{fd_at, set_fd, file_des_validator, less_int, read_s}

-- The descriptor is open on a file of `size` bytes that begins at `start`, and `seen` bytes were asked for.
pub record IsOpen (s : Proc) (fd start size seen : ℕ) : Type 0 where
  pub in_range : fd < max_fds
  pub all_fds : length (fds_of s) ≡ max_fds
  pub used : (fd_at s fd).alloted ≡ 1
  pub sized : (fd_at s fd).file_sz ≡ size
  pub counted : (fd_at s fd).num_bytes_read ≡ seen
  pub points : (fd_at s fd).file_ptr ≡ start + seen

validator_open :
    (s : Proc) (fd : ℕ) → fd < max_fds → (fd_at s fd).alloted ≡ 1 → file_des_validator s fd ≡ 0
unfolding file_des_validator
validator_open s fd l u = ground (arith, u)

-- The state after `n` more bytes were asked for.
abbrev advanced : Proc → ℕ → ℕ → Proc
advanced s fd n =
    let d = fd_at s fd in
    set_fd s fd (record d {
      file_ptr = add64 d.file_ptr (int_word n);
      num_bytes_read = (d.num_bytes_read + n) % 2 ^ 32;
    })

less_small : (x y : ℕ) → x < 2 ^ 31 → y < 2 ^ 31 → less_int x y ≡ ltb x y
unfolding less_int
less_small x y l m = ground arith

end_step :
    (a : Archive) (s : Proc) (fd : ℕ) (buffer : ℕ → ℕ) (n : ℕ)
    → file_des_validator s fd ≡ 0
    → less_int (fd_at s fd).num_bytes_read (fd_at s fd).file_sz ≡ false
    → read_s a s fd buffer n ≡ some ((0, buffer), s)
unfolding read_s
end_step a s fd buffer n v l = rw (v, l) refl

-- A read at the end of the file, or behind it, returns 0 and changes nothing.
pub read_s-end :
    (a : Archive) (s : Proc) (fd start size seen : ℕ) (buffer : ℕ → ℕ) (n : ℕ)
    → IsOpen s fd start size seen
    → size ≤ seen
    → seen < 2 ^ 31
    → read_s a s fd buffer n ≡ some ((0, buffer), s)
read_s-end a s fd start size seen buffer n o l small =
    let v = validator_open s fd o.in_range o.used in
    let t : less_int (fd_at s fd).num_bytes_read (fd_at s fd).file_sz ≡ false =
      rw (o.counted, o.sized, less_small seen size small (omega arith)) (ground arith) in
    end_step a s fd buffer n v t
