-- ===== src/Text/Split/Words.antt =====
-- The words of a line that is split.
use mathlib.Core.Path.{ap₂}
use nascent_os.Prelude.{
  ℕ, suc, ◌+◌, ◌*◌, ◌≤◌, ◌≡◌, refl, ap, sym, ◌∙◌, ◌≢◌, List, [], ◌∷◌, ◌++◌, arith, ◌==◌, true,
  false, length, All,
}
use nascent_os.Text.Split.Rows.{FitsRow, HoldsRows, fill, rows, rows_behind, rows-HoldsRows}
use nascent_os.Text.Split.{Splitting, put_at, split_round, split_loop, split_end, split_and_count}

-- A character of a word: no NUL, space, newline or delimiter.
abbrev pub OfWord : ℕ → ℕ → Type 0
OfWord d c = (c ≢ 0) × (c ≢ 32) × (c ≢ 10) × (c ≢ d)

-- A word is not empty.
abbrev pub IsWord : ℕ → List ℕ → Type 0
IsWord d w = (w ≢ []) × All (OfWord d) w

-- The line of the words with a delimiter between two of them.
pub line_of : ℕ → List ℕ → List (List ℕ) → List ℕ
line_of d w [] = w
line_of d w (v ∷ ws) = w ++ (d ∷ line_of d v ws)

-- In a word, and behind a delimiter.
abbrev mid : (ℕ → ℕ) → ℕ → ℕ → Splitting
mid a b n = record {
  block = b;
  fin_arr_itr = n;
  found_flag = false;
  letter_flag = true;
  final_array = a;
}

abbrev pend : (ℕ → ℕ) → ℕ → ℕ → Splitting
pend a b n = record {
  block = b;
  fin_arr_itr = n;
  found_flag = true;
  letter_flag = true;
  final_array = a;
}

word_round :
    (d c : ℕ) (a : ℕ → ℕ) (b n : ℕ)
    → OfWord d c
    → split_round d (mid a b n) c ≡ mid (put_at a b n c) b (suc n)
unfolding split_round
word_round d c a b n (z, s, l, e) =
    let q : (c == d) ≡ false = ground (arith, e) in
    let r : (c == 10) ≡ false = ground (arith, l) in rw (q, r) refl

next_round :
    (d c : ℕ) (a : ℕ → ℕ) (b n : ℕ)
    → OfWord d c
    → split_round d (pend a b n) c ≡ mid (put_at (put_at a b n 0) (suc b) 0 c) (suc b) 1
unfolding split_round
next_round d c a b n (z, s, l, e) =
    let q : (c == d) ≡ false = ground (arith, e) in
    let r : (c == 10) ≡ false = ground (arith, l) in rw (q, r) refl

delimiter_round : (d : ℕ) (a : ℕ → ℕ) (b n : ℕ) → split_round d (mid a b n) d ≡ pend a b n
unfolding split_round
delimiter_round d a b n = let q : (d == d) ≡ true = ground arith in rw q refl

loop_step :
    (d c : ℕ) (s s1 : Splitting) (text : List ℕ)
    → c ≢ 0
    → split_round d s c ≡ s1
    → split_loop d s (c ∷ text) ≡ split_loop d s1 text
unfolding split_loop
loop_step d c s s1 text z e = let q : (c == 0) ≡ false = ground (arith, z) in rw (q, e) refl

word_loop :
    (d : ℕ) (w rest : List ℕ) (a : ℕ → ℕ) (b n : ℕ)
    → All (OfWord d) w
    → split_loop d (mid a b n) (w ++ rest) ≡ split_loop d (mid (fill a b n w) b (n + length w)) rest
unfolding fill
word_loop d [] rest a b n h = ap (λ k. split_loop d (mid a b k) rest) (omega arith)
word_loop d (c ∷ cs) rest a b n (h, hs) =
    loop_step d c (mid a b n) (mid (put_at a b n c) b (suc n)) (cs ++ rest) h.0
      (word_round d c a b n h)
    ∙ word_loop d cs rest (put_at a b n c) b (suc n) hs
    ∙ ap (λ k. split_loop d (mid (fill (put_at a b n c) b (suc n) cs) b k) rest) (omega arith)

first_round :
    (d c : ℕ) (a : ℕ → ℕ)
    → OfWord d c
    → let s : Splitting = record {
      block = 0;
      fin_arr_itr = 0;
      found_flag = false;
      letter_flag = false;
      final_array = a;
    } in
      split_round d s c ≡ mid (put_at a 0 0 c) 0 1
unfolding split_round
first_round d c a (z, s, l, e) =
    let q : (c == d) ≡ false = ground (arith, e) in
    let r : (c == 10) ≡ false = ground (arith, l) in
    let t : (c == 32) ≡ false = ground (arith, s) in rw (q, r, t) refl

append_nil : (w : List ℕ) → w ++ [] ≡ w
append_nil [] = refl
append_nil (x ∷ w) = ap (λ l. x ∷ l) (append_nil w)

-- The first character of the next word.
next_step :
    (d v : ℕ) (vs : List ℕ) (ws : List (List ℕ)) (a : ℕ → ℕ) (b n : ℕ)
    → OfWord d v
    → split_loop d (pend a b n) (line_of d (v ∷ vs) ws)
      ≡ split_loop d (mid (put_at (put_at a b n 0) (suc b) 0 v) (suc b) 1) (line_of d vs ws)
unfolding line_of
next_step d v vs [] a b n h =
    loop_step d v (pend a b n) (mid (put_at (put_at a b n 0) (suc b) 0 v) (suc b) 1) vs h.0
      (next_round d v a b n h)
next_step d v vs (w ∷ ws) a b n h =
    loop_step d v (pend a b n) (mid (put_at (put_at a b n 0) (suc b) 0 v) (suc b) 1)
      (vs ++ (d ∷ line_of d w ws)) h.0 (next_round d v a b n h)

-- The rest of a word, and the words behind it.
words_loop :
    (d : ℕ) (cs : List ℕ) (ws : List (List ℕ)) (a : ℕ → ℕ) (b c : ℕ)
    → d ≢ 0
    → All (OfWord d) cs
    → All (IsWord d) ws
    → split_end (split_loop d (mid (put_at a b 0 c) b 1) (line_of d cs ws))
      ≡ (b + length ws, rows a b ((c ∷ cs) ∷ ws))
unfolding line_of rows fill split_loop
words_loop d cs [] a b c dz h hs =
    ap (λ l. split_end (split_loop d (mid (put_at a b 0 c) b 1) l)) (sym (append_nil cs))
    ∙ ap split_end (word_loop d cs [] (put_at a b 0 c) b 1 h)
    ∙ ap₂ (λ x k. (x, put_at (fill (put_at a b 0 c) b 1 cs) b k 0)) (omega arith) (omega arith)
words_loop d cs ([] ∷ ws) a b c dz h (hv, hs) = absurd (hv.0 refl)
words_loop d cs ((v ∷ vs) ∷ ws) a b c dz h ((hn, (hv, hvs)), hs) =
    let a1 = fill (put_at a b 0 c) b 1 cs in
    let n = 1 + length cs in
    let done = put_at a1 b n 0 in
    ap split_end (word_loop d cs (d ∷ line_of d (v ∷ vs) ws) (put_at a b 0 c) b 1 h)
    ∙ ap split_end (
        loop_step d d (mid a1 b n) (pend a1 b n) (line_of d (v ∷ vs) ws) dz
          (delimiter_round d a1 b n))
    ∙ ap split_end (next_step d v vs ws a1 b n hv)
    ∙ words_loop d vs ws done (suc b) v dz hvs hs
    ∙ ap₂ (λ x k. (x, rows (put_at a1 b k 0) (suc b) ((v ∷ vs) ∷ ws))) (omega arith) (omega arith)

split_start :
    (d c : ℕ) (cs : List ℕ) (ws : List (List ℕ)) (a : ℕ → ℕ)
    → OfWord d c
    → split_and_count (line_of d (c ∷ cs) ws) d a
      ≡ split_end (split_loop d (mid (put_at a 0 0 c) 0 1) (line_of d cs ws))
unfolding split_and_count line_of
split_start d c cs [] a h =
    ap split_end (loop_step d c _ (mid (put_at a 0 0 c) 0 1) cs h.0 (first_round d c a h))
split_start d c cs (w ∷ ws) a h = ap split_end (
    loop_step d c _ (mid (put_at a 0 0 c) 0 1) (cs ++ (d ∷ line_of d w ws)) h.0
      (first_round d c a h))

-- A line of words with a delimiter between two of them is split into these words: the number that is
-- returned is that of the delimiters, and row after row the array holds a word and its NUL; no byte behind these
-- rows is written. The words are not empty, have less than 150 characters, and no NUL, space, newline or
-- delimiter in them.
pub split_and_count_lem :
    (d : ℕ) (w : List ℕ) (ws : List (List ℕ)) (a : ℕ → ℕ)
    → d ≢ 0
    → All (IsWord d) (w ∷ ws)
    → All FitsRow (w ∷ ws)
    → (a' : ℕ → ℕ) × (split_and_count (line_of d w ws) d a ≡ (length ws, a'))
      × HoldsRows a' 0 (w ∷ ws)
      × ((x : ℕ) → 150 * suc (length ws) ≤ x → a' x ≡ a x)
split_and_count_lem d [] ws a z (h, hs) f = absurd (h.0 refl)
split_and_count_lem d (c ∷ cs) ws a z ((hn, (hc, hcs)), hs) f = (
  rows a 0 ((c ∷ cs) ∷ ws),
  split_start d c cs ws a hc
      ∙ words_loop d cs ws a 0 c z hcs hs
      ∙ ap (λ n. (n, rows a 0 ((c ∷ cs) ∷ ws))) (omega arith),
  rows-HoldsRows a 0 ((c ∷ cs) ∷ ws) f,
  λ x l. rows_behind a 0 ((c ∷ cs) ∷ ws) x f (omega (arith, l)),
)
