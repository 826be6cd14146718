-- ===== src/Text/Split/Rows.antt =====
-- The rows of the array of words, 150 bytes each, and what is written to them.
use nascent_os.Prelude.{
  ℕ, zero, suc, ◌+◌, ◌*◌, ◌≤◌, ◌<◌, ◌≡◌, refl, ap, ◌∙◌, ◌≢◌, List, [], ◌∷◌, arith, ◌==◌, true,
  false, get_or, length, All,
}
use nascent_os.Text.Split.{put_at}

-- A row has room for the word and its NUL.
abbrev pub FitsRow : List ℕ → Type 0
FitsRow w = length w < 150

-- The rows hold the words, from row `b` on, each with its NUL.
pub HoldsRows : (ℕ → ℕ) → ℕ → List (List ℕ) → Type 0
HoldsRows a b [] = Unit
HoldsRows a b (w ∷ ws) =
    ((k : ℕ) → k < length w → a (150 * b + k) ≡ get_or w k 0)
    × (a (150 * b + length w) ≡ 0)
    × HoldsRows a (suc b) ws

unfoldable pub fill : (ℕ → ℕ) → ℕ → ℕ → List ℕ → ℕ → ℕ
fill a b n [] = a
fill a b n (c ∷ cs) = fill (put_at a b n c) b (suc n) cs

abbrev pub ended : (ℕ → ℕ) → ℕ → List ℕ → ℕ → ℕ
ended a b w = put_at (fill a b 0 w) b (length w) 0

unfoldable pub rows : (ℕ → ℕ) → ℕ → List (List ℕ) → ℕ → ℕ
rows a b [] = a
rows a b (w ∷ ws) = rows (ended a b w) (suc b) ws

put_at_other : (a : ℕ → ℕ) (b i v x : ℕ) → x ≢ 150 * b + i → put_at a b i v x ≡ a x
put_at_other a b i v x n = let q : (x == 150 * b + i) ≡ false = ground (arith, n) in rw q refl

put_at_self : (a : ℕ → ℕ) (b i v : ℕ) → put_at a b i v (150 * b + i) ≡ v
put_at_self a b i v = let q : (150 * b + i == 150 * b + i) ≡ true = ground arith in rw q refl

fill_before : (a : ℕ → ℕ) (b n : ℕ) (w : List ℕ) (x : ℕ) → x < 150 * b + n → fill a b n w x ≡ a x
unfolding fill
fill_before a b n [] x h = refl
fill_before a b n (c ∷ cs) x h =
    fill_before (put_at a b n c) b (suc n) cs x (omega (arith, h))
    ∙ put_at_other a b n c x (λ e. omega (arith, e, h))

fill_behind :
    (a : ℕ → ℕ) (b n : ℕ) (w : List ℕ) (x : ℕ) → 150 * b + n + length w ≤ x → fill a b n w x ≡ a x
unfolding fill
fill_behind a b n [] x h = refl
fill_behind a b n (c ∷ cs) x h =
    fill_behind (put_at a b n c) b (suc n) cs x (omega (arith, h))
    ∙ put_at_other a b n c x (λ e. omega (arith, e, h))

fill_in :
    (a : ℕ → ℕ) (b n : ℕ) (w : List ℕ) (k : ℕ)
    → k < length w
    → fill a b n w (150 * b + (n + k)) ≡ get_or w k 0
unfolding fill
fill_in a b n [] k h = absurd (omega arith)
fill_in a b n (c ∷ cs) zero h =
    ap (λ m. fill (put_at a b n c) b (suc n) cs (150 * b + m)) (omega arith)
    ∙ fill_before (put_at a b n c) b (suc n) cs (150 * b + n) (omega arith)
    ∙ put_at_self a b n c
fill_in a b n (c ∷ cs) (suc k) h =
    ap (λ m. fill (put_at a b n c) b (suc n) cs (150 * b + m)) (omega arith)
    ∙ fill_in (put_at a b n c) b (suc n) cs k (omega (arith, h))

rows_below : (a : ℕ → ℕ) (b : ℕ) (ws : List (List ℕ)) (x : ℕ) → x < 150 * b → rows a b ws x ≡ a x
unfolding rows
rows_below a b [] x h = refl
rows_below a b (w ∷ ws) x h =
    rows_below (ended a b w) (suc b) ws x (omega (arith, h))
    ∙ put_at_other (fill a b 0 w) b (length w) 0 x (λ e. omega (arith, e, h))
    ∙ fill_before a b 0 w x (omega (arith, h))

pub rows_behind :
    (a : ℕ → ℕ) (b : ℕ) (ws : List (List ℕ)) (x : ℕ)
    → All FitsRow ws
    → 150 * (b + length ws) ≤ x
    → rows a b ws x ≡ a x
unfolding rows
rows_behind a b [] x f h = refl
rows_behind a b (w ∷ ws) x (f, fs) h =
    rows_behind (ended a b w) (suc b) ws x fs (omega (arith, h))
    ∙ put_at_other (fill a b 0 w) b (length w) 0 x (λ e. omega (arith, e, h, f))
    ∙ fill_behind a b 0 w x (omega (arith, h, f))

pub rows-HoldsRows :
    (a : ℕ → ℕ) (b : ℕ) (ws : List (List ℕ)) → All FitsRow ws → HoldsRows (rows a b ws) b ws
unfolding rows HoldsRows
rows-HoldsRows a b [] f = tt
rows-HoldsRows a b (w ∷ ws) (f, fs) = (
  λ k h.
      rows_below (ended a b w) (suc b) ws (150 * b + k) (omega (arith, f, h))
      ∙ put_at_other (fill a b 0 w) b (length w) 0 (150 * b + k) (λ e. omega (arith, e, h))
      ∙ ap (λ m. fill a b 0 w (150 * b + m)) (omega arith)
      ∙ fill_in a b 0 w k h,
  rows_below (ended a b w) (suc b) ws (150 * b + length w) (omega (arith, f))
      ∙ put_at_self (fill a b 0 w) b (length w) 0,
  rows-HoldsRows (ended a b w) (suc b) ws fs,
)
