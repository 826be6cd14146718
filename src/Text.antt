-- ===== src/Text.antt =====
-- sys/strings.c: the C string functions of the kernel. A `char` array is the list of its bytes.
-- The end of the list reads as the terminating NUL, and a write past it makes the list longer:
-- a result longer than its buffer is an overflow of the buffer.
pub mod Compare
pub mod Copy
pub mod Split
mod Tests
use nascent_os.Prelude.{
  ℕ, zero, suc, List, [], ◌∷◌, Bool, true, false, ◌==◌, leb, if◌then◌else◌, not, get_or, drop,
}

-- The characters before the first NUL: what the C string says.
abbrev pub chars : List ℕ → List ℕ
chars [] = []
chars (c ∷ s) = if c == 0 then [] else c ∷ chars s

-- `p + 1` on a `char *`
abbrev pub tail : List ℕ → List ℕ
tail s = drop 1 s

unfoldable pub str_len : List ℕ → ℕ
str_len [] = 0
str_len (c ∷ s) = if c == 0 then 0 else suc (str_len s)

-- while (s1[i] != '\0') { if (s1[i] != s2[i]) return 1; i++; } return 0;
unfoldable pub differ : List ℕ → List ℕ → ℕ
differ [] t = 0
differ (c ∷ s) t = if c == 0 then 0 else if c == get_or t 0 0 then differ s (tail t) else 1

pub is_sub_string : List ℕ → List ℕ → ℕ
unfolding differ str_len
is_sub_string s1 s2 = if leb (str_len s2) (str_len s1) then 1 else differ s1 s2

pub str_compare1 : List ℕ → List ℕ → ℕ
unfolding differ str_len
str_compare1 s1 s2 = if not (str_len s1 == str_len s2) then 1 else differ s1 s2

unfoldable pub str_compare : List ℕ → List ℕ → ℕ
unfolding differ str_len
str_compare s1 s2 = if not (str_len s1 == str_len s2) then 1 else differ s1 s2

-- `f` is set from the first delimiter on, and what follows it is overwritten by NULs.
remove_loop : Bool → List ℕ → ℕ → List ℕ
remove_loop f [] d = []
remove_loop f (c ∷ s) d =
    let f' = if c == d then true else f in
    let rest = remove_loop f' s d in if c == 0 then c ∷ s else (if f' then 0 else c) ∷ rest

pub remove_delimiter : List ℕ → ℕ → List ℕ
unfolding remove_loop
remove_delimiter s d = remove_loop false s d

-- The bytes of `s` up to NUL or the delimiter go to the front of the buffer, and no NUL after them.
sub_loop : List ℕ → List ℕ → ℕ → List ℕ
sub_loop [] buffer d = buffer
sub_loop (c ∷ s) buffer d =
    let rest = sub_loop s (tail buffer) d in
    if c == 0 then buffer else if c == d then buffer else c ∷ rest

pub string_sub : List ℕ → List ℕ → List ℕ → ℕ → List ℕ
unfolding sub_loop str_len
string_sub main_str sub buffer d = sub_loop (drop (str_len sub) main_str) buffer d

-- The source's bytes and a NUL go over the front of the destination.
unfoldable pub str_copy : List ℕ → List ℕ → List ℕ
str_copy [] dest = 0 ∷ tail dest
str_copy (c ∷ s) dest =
    let rest = str_copy s (tail dest) in if c == 0 then 0 ∷ tail dest else c ∷ rest
