-- ===== src/Exec/Written.antt =====
-- Words and strings in memory by bytes: what is written is read back, and what is written elsewhere does not
-- matter.
use mathlib.Core.Path.{subst}
use native.Mathlib.Nat.{pow-suc}
use nascent_os.Prelude.{
  ℕ, zero, suc, ◌+◌, ◌*◌, ◌/◌, ◌%◌, ◌^◌, ◌≤◌, ◌<◌, ◌≡◌, refl, ap, ◌∙◌, sym, arith, ◌⊎◌, inl, List,
  [], ◌∷◌, length, false, ◌==◌,
}
use nascent_os.Prelude.Word.{add64}
use nascent_os.Memory.{get_byte, set_byte}
use nascent_os.Memory.Bytes.{get_byte-set_byte_self, get_byte-set_byte_ne}
use nascent_os.Exec.{put_word, put_string}

-- The number of the `n` bytes from `p` on.
pub read_word : ℕ → (ℕ → ℕ) → ℕ → ℕ
read_word zero mem p = 0
read_word (suc n) mem p = get_byte mem p + 256 * read_word n mem (p + 1)

-- The two memories have the same bytes from `lo` to `hi`, without `hi`.
abbrev pub Agree : (ℕ → ℕ) → (ℕ → ℕ) → ℕ → ℕ → Type 0
Agree mem mem' lo hi = (b : ℕ) → lo ≤ b → b < hi → get_byte mem' b ≡ get_byte mem b

pub read_word-Agree :
    (n : ℕ) (mem mem' : ℕ → ℕ) (p hi : ℕ)
    → Agree mem mem' p hi
    → p + n ≤ hi
    → read_word n mem' p ≡ read_word n mem p
unfolding read_word
read_word-Agree zero mem mem' p hi a h = refl
read_word-Agree (suc n) mem mem' p hi a h =
    let e = a p (omega arith) (omega arith) in
    let r = read_word-Agree n mem mem' (p + 1) hi (λ b l u. a b (omega arith) u) (omega arith) in
    rw (e, r) refl

pub put_word_others :
    (n : ℕ) (mem : ℕ → ℕ) (p w b : ℕ)
    → p + n < 2 ^ 64
    → (b < p) ⊎ (p + n ≤ b)
    → get_byte (put_word n mem p w) b ≡ get_byte mem b
unfolding put_word
put_word_others zero mem p w b h o = refl
put_word_others (suc n) mem p w b h o =
    let e : add64 p 1 ≡ p + 1 = omega arith in
    let r =
      put_word_others n (set_byte mem p (w % 256)) (p + 1) (w / 256) b (omega arith)
        (omega (arith, o)) in
    rw e (r ∙ get_byte-set_byte_ne mem p b (w % 256) (omega (arith, o)))

pub read_word-put_word :
    (n : ℕ) (mem : ℕ → ℕ) (p w : ℕ)
    → p + n < 2 ^ 64
    → w < 256 ^ n
    → read_word n (put_word n mem p w) p ≡ w
unfolding put_word read_word
read_word-put_word zero mem p w h l = omega (arith, l)
read_word-put_word (suc n) mem p w h l =
    let m1 = set_byte mem p (w % 256) in
    let e : add64 p 1 ≡ p + 1 = omega arith in
    let first =
      put_word_others n m1 (p + 1) (w / 256) p (omega arith) (inl (omega arith))
      ∙ get_byte-set_byte_self mem p (w % 256) (omega arith) in
    let small : w / 256 < 256 ^ n = omega (arith, l, pow-suc 256 n) in
    let rest = read_word-put_word n m1 (p + 1) (w / 256) (omega arith) small in
    rw (e, first, rest) (omega arith)

-- The words `ws` stand in memory from `p` on.
abbrev pub HoldsWords : (ℕ → ℕ) → ℕ → List ℕ → Type 0
HoldsWords mem p [] = Unit
HoldsWords mem p (w ∷ ws) = (read_word 8 mem p ≡ w) × HoldsWords mem (p + 8) ws

pub HoldsWords_agree :
    (mem mem' : ℕ → ℕ) (p hi : ℕ) (ws : List ℕ)
    → Agree mem mem' p hi
    → p + 8 * length ws ≤ hi
    → HoldsWords mem p ws
    → HoldsWords mem' p ws
HoldsWords_agree mem mem' p hi [] a h u = tt
HoldsWords_agree mem mem' p hi (w ∷ ws) a h u = (
  read_word-Agree 8 mem mem' p hi a (omega arith) ∙ u.0,
  HoldsWords_agree mem mem' (p + 8) hi ws (λ b l v. a b (omega arith) v) (omega arith) u.1,
)

-- Values that fit a word.
abbrev pub AllBelow : List ℕ → Type 0
AllBelow [] = Unit
AllBelow (w ∷ ws) = (w < 2 ^ 64) × AllBelow ws

-- A string of characters that are no NUL, which fit a byte.
abbrev pub IsText : List ℕ → Type 0
IsText [] = Unit
IsText (c ∷ s) = (0 < c) × (c < 256) × IsText s

-- The string and its NUL stand in memory from `p` on.
abbrev pub HoldsString : (ℕ → ℕ) → ℕ → List ℕ → Type 0
HoldsString mem p [] = get_byte mem p ≡ 0
HoldsString mem p (c ∷ s) = (get_byte mem p ≡ c) × HoldsString mem (p + 1) s

pub HoldsString-Agree :
    (mem mem' : ℕ → ℕ) (p hi : ℕ) (s : List ℕ)
    → Agree mem mem' p hi
    → p + length s < hi
    → HoldsString mem p s
    → HoldsString mem' p s
HoldsString-Agree mem mem' p hi [] a h u = a p (omega arith) (omega arith) ∙ u
HoldsString-Agree mem mem' p hi (c ∷ s) a h u = (
  a p (omega arith) (omega arith) ∙ u.0,
  HoldsString-Agree mem mem' (p + 1) hi s (λ b l v. a b (omega arith) v) (omega arith) u.1,
)

put_string_step :
    (mem : ℕ → ℕ) (p c : ℕ) (s : List ℕ)
    → 0 < c
    → p + 1 < 2 ^ 64
    → put_string mem p (c ∷ s) ≡ put_string (set_byte mem p c) (p + 1) s
unfolding put_string
put_string_step mem p c s t h =
    let e : add64 p 1 ≡ p + 1 = omega arith in
    let z : (c == 0) ≡ false = ground (arith, t) in rw (z, e) refl

pub put_string_others :
    (mem : ℕ → ℕ) (p b : ℕ) (s : List ℕ)
    → IsText s
    → p + length s + 1 < 2 ^ 64
    → (b < p) ⊎ (p + length s < b)
    → get_byte (put_string mem p s) b ≡ get_byte mem b
unfolding put_string
put_string_others mem p b [] t h o = get_byte-set_byte_ne mem p b 0 (omega (arith, o))
put_string_others mem p b (c ∷ s) t h o =
    let r = put_string_others (set_byte mem p c) (p + 1) b s t.2 (omega arith) (omega (arith, o)) in
    ap (λ m. get_byte m b) (put_string_step mem p c s t.0 (omega arith))
    ∙ (r ∙ get_byte-set_byte_ne mem p b c (omega (arith, o)))

pub put_string_holds :
    (mem : ℕ → ℕ) (p : ℕ) (s : List ℕ)
    → IsText s
    → p + length s + 1 < 2 ^ 64
    → HoldsString (put_string mem p s) p s
unfolding put_string
put_string_holds mem p [] t h = get_byte-set_byte_self mem p 0 (omega arith)
put_string_holds mem p (c ∷ s) t h =
    subst (λ m. HoldsString m p (c ∷ s)) (sym (put_string_step mem p c s t.0 (omega arith)))
      (
        put_string_others (set_byte mem p c) (p + 1) p s t.2 (omega arith) (inl (omega arith))
            ∙ get_byte-set_byte_self mem p c t.1,
        put_string_holds (set_byte mem p c) (p + 1) s t.2 (omega arith),
      )
