-- ===== src/Text/Tests.antt =====
-- The string functions at concrete strings.
use nascent_os.Prelude.{ℕ, ◌≤◌, ◌≢◌, arith, ◌≡◌, refl, List, [], ◌∷◌, max, length, replicate}
use nascent_os.Text.{str_len, str_compare, string_sub, str_copy}
use nascent_os.Text.Copy.{length-str_copy}
use nascent_os.Text.Split.{split_and_count}
use nascent_os.Text.Split.Rows.{HoldsRows}
use nascent_os.Text.Split.Words.{line_of, OfWord, IsWord, split_and_count_lem}

-- "bin/", "bin/ls", and "bin" with two bytes behind its NUL
abbrev bin : List ℕ
bin = b'b' ∷ b'i' ∷ b'n' ∷ b'/' ∷ []

abbrev bin_ls : List ℕ
bin_ls = b'b' ∷ b'i' ∷ b'n' ∷ b'/' ∷ b'l' ∷ b's' ∷ 0 ∷ []

abbrev bin_junk : List ℕ
bin_junk = b'b' ∷ b'i' ∷ b'n' ∷ 0 ∷ b'x' ∷ b'y' ∷ []

junk_ignored : str_compare bin_junk (b'b' ∷ b'i' ∷ b'n' ∷ []) ≡ 0
unfolding str_compare
junk_ignored = refl

component : string_sub bin_ls bin (replicate 4 0) b'/' ≡ b'l' ∷ b's' ∷ 0 ∷ 0 ∷ []
unfolding string_sub
component = refl

length-str_copy_example : length (str_copy bin_ls bin) ≡ max 4 7
unfolding str_len
length-str_copy_example = length-str_copy bin_ls bin

plain : {c : ℕ} → c ≢ 0 → c ≢ 32 → c ≢ 10 → OfWord 32 c
plain z s l = (z, s, l, s)

two_letters : {c d : ℕ} → OfWord 32 c → OfWord 32 d → IsWord 32 (c ∷ d ∷ [])
two_letters h k = (λ e. cc, (h, (k, tt)))

-- "ls -l"
split_and_count_lem_example :
    (a' : ℕ → ℕ) × (split_and_count
        (line_of 32 (b'l' ∷ b's' ∷ []) ((b'-' ∷ b'l' ∷ []) ∷ []))
        32
        (λ i. 0)
      ≡ (1, a'))
    × HoldsRows a' 0 ((b'l' ∷ b's' ∷ []) ∷ (b'-' ∷ b'l' ∷ []) ∷ [])
    × ((x : ℕ) → 300 ≤ x → a' x ≡ 0)
split_and_count_lem_example =
    let l : OfWord 32 b'l' = plain (omega arith) (omega arith) (omega arith) in
    let s : OfWord 32 b's' = plain (omega arith) (omega arith) (omega arith) in
    let m : OfWord 32 b'-' = plain (omega arith) (omega arith) (omega arith) in
    split_and_count_lem 32 (b'l' ∷ b's' ∷ []) ((b'-' ∷ b'l' ∷ []) ∷ []) (λ i. 0) (omega arith)
      (two_letters l s, (two_letters m l, tt)) (omega arith, (omega arith, tt))
