-- ===== src/Text/Compare.antt =====
-- What the comparisons of sys/strings.c decide.
use nascent_os.Prelude.{
  ℕ, ◌+◌, ◌<◌, ◌≡◌, refl, ap, sym, ◌∙◌, ◌↔◌, inl, inr, List, [], ◌∷◌, ◌++◌, arith, ◌==◌, length,
  length-append, Bool-cases,
}
use mathlib.Core.List.{append-nil}
use nascent_os.Text.{chars, str_len, differ, is_sub_string, str_compare1, str_compare}

-- `str_len` counts the characters of the string.
pub str_str_len-eq-length : (s : List ℕ) → str_len s ≡ length (chars s)
unfolding str_len
str_str_len-eq-length [] = refl
str_str_len-eq-length (c ∷ s) = ground (arith, str_str_len-eq-length s)

abbrev StartsWith : List ℕ → List ℕ → Type 0
StartsWith t s = (rest : List ℕ) × (t ≡ s ++ rest)

-- Whatever the lengths, the loop returns 0 exactly when the first string is a prefix of the second.
differ-zero : (s t : List ℕ) → differ s t ≡ 0 → StartsWith (chars t) (chars s)
unfolding differ
differ-zero [] t h = (chars t, refl)
differ-zero (c ∷ s) [] h = elim (Bool-cases (c == 0)) [
  | inl z ↦ ([], ground arith)
  | inr n ↦ absurd (ground arith)
]
differ-zero (c ∷ s) (d ∷ t) h = elim (Bool-cases (c == 0)) [
  | inl z ↦ (chars (d ∷ t), ground arith)
  | inr n ↦ let (rest, e) = differ-zero s t (ground arith) in (rest, ground arith)
]

differ_of_prefix : (s t : List ℕ) (rest : List ℕ) → chars t ≡ chars s ++ rest → differ s t ≡ 0
unfolding differ
differ_of_prefix [] t rest h = refl
differ_of_prefix (c ∷ s) [] rest h = ground arith
differ_of_prefix (c ∷ s) (d ∷ t) rest h = ground (arith, differ_of_prefix s t rest)

length_of_eq-append : (s t rest : List ℕ) → t ≡ s ++ rest → length t ≡ length s + length rest
length_of_eq-append s t rest e = omega (arith, ap length e, length-append s rest)

append_of_length : (s rest : List ℕ) → length (s ++ rest) ≡ length s → s ++ rest ≡ s
append_of_length [] [] h = refl
append_of_length [] (x ∷ rest) h = absurd (omega arith)
append_of_length (x ∷ s) rest h = ap (λ l. x ∷ l) (append_of_length s rest (omega arith))

length_of_chars_eq : (s t : List ℕ) → chars s ≡ chars t → str_len s ≡ str_len t
length_of_chars_eq s t e =
    omega (arith, ap length e, str_str_len-eq-length s, str_str_len-eq-length t)

differ_same : (s t : List ℕ) → chars s ≡ chars t → differ s t ≡ 0
differ_same s t e = differ_of_prefix s t [] (sym e ∙ sym (append-nil (chars s)))

-- `str_compare` returns 0 exactly when the two arrays hold the same C string, whatever stands
-- behind their NULs.
pub str_compare-zero_iff : (s t : List ℕ) → (str_compare s t ≡ 0) ↔ (chars s ≡ chars t)
unfolding str_compare
str_compare-zero_iff s t = (there, back)
  where
    there : str_compare s t ≡ 0 → chars s ≡ chars t
    there h =
        let same : str_len s ≡ str_len t = ground arith in
        let (rest, e) = differ-zero s t (ground arith) in
        let l : length (chars s ++ rest) ≡ length (chars s) =
          omega (arith, ap length e, str_str_len-eq-length s, str_str_len-eq-length t) in
        sym (e ∙ append_of_length (chars s) rest l)

    back : chars s ≡ chars t → str_compare s t ≡ 0
    back e = ground (arith, length_of_chars_eq s t e, differ_same s t e)

-- The two comparisons of the file agree on all arguments.
pub str_compare1-eq : (s t : List ℕ) → str_compare1 s t ≡ str_compare s t
unfolding str_compare1 str_compare
str_compare1-eq s t = refl

pub str_compare1-zero_iff : (s t : List ℕ) → (str_compare1 s t ≡ 0) ↔ (chars s ≡ chars t)
str_compare1-zero_iff s t = rw (str_compare1-eq s t) (str_compare-zero_iff s t)

abbrev pub ProperPrefix : List ℕ → List ℕ → Type 0
ProperPrefix s t = (c : ℕ) × (rest : List ℕ) × (t ≡ s ++ (c ∷ rest))

-- `is_sub_string` returns 0 exactly when the first C string is a proper prefix of the second:
-- it tests the front of the second string only, and refuses equal strings.
pub is_sub_string-zero_iff :
    (s t : List ℕ) → (is_sub_string s t ≡ 0) ↔ ProperPrefix (chars s) (chars t)
unfolding is_sub_string
is_sub_string-zero_iff s t = (there, back)
  where
    split :
        (rest : List ℕ)
        → str_len s < str_len t
        → chars t ≡ chars s ++ rest
        → ProperPrefix (chars s) (chars t)
    split [] lt e = absurd (
        omega (
          arith,
          length_of_eq-append (chars s) (chars t) [] e,
          str_str_len-eq-length s,
          str_str_len-eq-length t,
        ))
    split (c ∷ rest) lt e = (c, rest, e)

    there : is_sub_string s t ≡ 0 → ProperPrefix (chars s) (chars t)
    there h = let (rest, e) = differ-zero s t (ground arith) in split rest (ground arith) e

    back : ProperPrefix (chars s) (chars t) → is_sub_string s t ≡ 0
    back (c, rest, e) = ground (
      arith,
      differ_of_prefix s t (c ∷ rest) e,
      length_of_eq-append (chars s) (chars t) (c ∷ rest) e,
      str_str_len-eq-length s,
      str_str_len-eq-length t,
    )
