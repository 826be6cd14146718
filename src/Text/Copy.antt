-- ===== src/Text/Copy.antt =====
-- What the writing functions of sys/strings.c leave in their buffers.
use nascent_os.Prelude.{
  ℕ, zero, suc, ◌+◌, ◌-◌, ◌≤◌, max, ◌≡◌, refl, ap, ◌∙◌, Bool, true, false, List, [], ◌∷◌, ◌++◌,
  arith, ◌==◌, if◌then◌else◌, length, length-append, length-drop, drop, replicate,
}
use nascent_os.Text.{
  chars, tail, str_len, remove_loop, remove_delimiter, sub_loop, string_sub, str_copy,
}
use nascent_os.Text.Compare.{str_str_len-eq-length}

-- The characters before the first `d`.
abbrev pub until : ℕ → List ℕ → List ℕ
until d [] = []
until d (c ∷ s) = if c == d then [] else c ∷ until d s

drop-tail : (n : ℕ) (s : List ℕ) → drop n (tail s) ≡ drop (suc n) s
drop-tail zero [] = refl
drop-tail zero (c ∷ s) = refl
drop-tail (suc n) [] = refl
drop-tail (suc n) (c ∷ s) = refl

-- `str_copy` writes the characters and one NUL, and leaves every byte behind that NUL as it was.
pub str_copy_lem :
    (s dest : List ℕ) → str_copy s dest ≡ chars s ++ (0 ∷ drop (suc (str_len s)) dest)
unfolding str_copy str_len
str_copy_lem [] dest = refl
str_copy_lem (c ∷ s) dest =
    ground (arith, str_copy_lem s (tail dest), drop-tail (suc (str_len s)) dest)

chars_idem : (s rest : List ℕ) → chars (chars s ++ (0 ∷ rest)) ≡ chars s
chars_idem [] rest = refl
chars_idem (c ∷ s) rest = ground (arith, chars_idem s rest)

-- Read back, the destination of `str_copy` holds the source's C string.
pub chars-str_copy : (s dest : List ℕ) → chars (str_copy s dest) ≡ chars s
chars-str_copy s dest = ap chars (str_copy_lem s dest) ∙ chars_idem s (drop (suc (str_len s)) dest)

-- `str_copy` stays inside its destination exactly when the string and its NUL fit; else it writes
-- `str_len source + 1` bytes all the same.
pub length-str_copy :
    (s dest : List ℕ) → length (str_copy s dest) ≡ max (length dest) (str_len s + 1)
length-str_copy s dest = omega (
  arith,
  ap length (str_copy_lem s dest),
  length-append (chars s) (0 ∷ drop (suc (str_len s)) dest),
  length-drop (suc (str_len s)) dest,
  str_str_len-eq-length s,
)

zeros-chars : (s : List ℕ) (d : ℕ) → chars (remove_loop true s d) ≡ []
unfolding remove_loop
zeros-chars [] d = refl
zeros-chars (c ∷ s) d = ground arith

remove_loop-chars : (s : List ℕ) (d : ℕ) → chars (remove_loop false s d) ≡ until d (chars s)
unfolding remove_loop
remove_loop-chars [] d = refl
remove_loop-chars (c ∷ s) d = ground (arith, remove_loop-chars s d)

-- `remove_delimiter` cuts the string before the first delimiter.
pub chars-remove_delimiter : (s : List ℕ) (d : ℕ) → chars (remove_delimiter s d) ≡ until d (chars s)
unfolding remove_delimiter
chars-remove_delimiter s d = remove_loop-chars s d

length-remove_loop : (f : Bool) (s : List ℕ) (d : ℕ) → length (remove_loop f s d) ≡ length s
unfolding remove_loop
length-remove_loop f [] d = refl
length-remove_loop f (c ∷ s) d =
    ground (arith, length-remove_loop true s d, length-remove_loop f s d)

sub_loop_lem :
    (s buffer : List ℕ) (d : ℕ)
    → sub_loop s buffer d ≡ until d (chars s) ++ drop (length (until d (chars s))) buffer
unfolding sub_loop
sub_loop_lem [] buffer d = refl
sub_loop_lem (c ∷ s) buffer d =
    ground (arith, sub_loop_lem s (tail buffer) d, drop-tail (length (until d (chars s))) buffer)

chars-drop : (s : List ℕ) (n : ℕ) → n ≤ str_len s → chars (drop n s) ≡ drop n (chars s)
unfolding str_len
chars-drop [] zero h = refl
chars-drop [] (suc n) h = refl
chars-drop (c ∷ s) zero h = refl
chars-drop (c ∷ s) (suc n) h = ground (arith, chars-drop s n)

drop-append : (s rest : List ℕ) → drop (length s) (s ++ rest) ≡ rest
drop-append [] rest = refl
drop-append (c ∷ s) rest = drop-append s rest

drop-replicate : (n m : ℕ) → drop n (replicate m 0) ≡ replicate {A = ℕ} (m - n) 0
drop-replicate zero m = ap (λ k. replicate k 0) (omega arith)
drop-replicate (suc n) zero = let e : 0 - suc n ≡ 0 = omega arith in rw e
drop-replicate (suc n) (suc m) = drop-replicate n m ∙ ap (λ k. replicate k 0) (omega arith)

chars-replicate : (m : ℕ) → chars (replicate m 0) ≡ []
chars-replicate zero = refl
chars-replicate (suc m) = refl

chars-append_zeros :
    (s : List ℕ) (m d : ℕ) → chars (until d (chars s) ++ replicate m 0) ≡ until d (chars s)
chars-append_zeros [] m d = chars-replicate m
chars-append_zeros (c ∷ s) m d = ground (arith, chars-append_zeros s m d, chars-replicate m)

-- On a cleared buffer, and where the main string goes on behind the length of the second, `string_sub`
-- leaves the next path component: what follows that many characters, up to the delimiter.
pub string_sub_component :
    (main_str sub : List ℕ) (m d : ℕ)
    → str_len sub ≤ str_len main_str
    → chars (string_sub main_str sub (replicate m 0) d)
      ≡ until d (drop (str_len sub) (chars main_str))
unfolding string_sub
string_sub_component main_str sub m d h =
    let rest = drop (str_len sub) main_str in
    ap chars (
      sub_loop_lem rest (replicate m 0) d
      ∙ ap (λ l. until d (chars rest) ++ l) (drop-replicate (length (until d (chars rest))) m))
    ∙ chars-append_zeros rest (m - length (until d (chars rest))) d
    ∙ ap (until d) (chars-drop main_str (str_len sub) h)
