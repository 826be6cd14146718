-- ===== src/Text/Split.antt =====
-- `split_and_count` of sys/strings.c, which libc/strings.c has too: the words of a line go to the rows of an
-- array. The array is its bytes, 150 to a row, and the rows meet: a long word runs into the next one. The delimiter
-- is not NUL.
pub mod Rows
pub mod Words
use nascent_os.Prelude.{
  ℕ, zero, suc, ◌+◌, ◌*◌, List, [], ◌∷◌, Bool, true, false, ◌==◌, ◌&&◌, ◌||◌, not, if◌then◌else◌,
}

-- a[b][i] = v
abbrev pub put_at : (ℕ → ℕ) → ℕ → ℕ → ℕ → ℕ → ℕ
put_at a b i v x = if x == 150 * b + i then v else a x

-- The variables of the loop.
pub record Splitting : Type 0 where
  pub block : ℕ
  pub fin_arr_itr : ℕ
  pub found_flag : Bool
  pub letter_flag : Bool
  pub final_array : ℕ → ℕ

-- A character behind a delimiter: the row is ended, and the next one is begun.
abbrev next_block : Splitting → Splitting
next_block s = record s {
  final_array = put_at s.final_array s.block s.fin_arr_itr 0;
  fin_arr_itr = 0;
  block = suc s.block;
  found_flag = false;
}

abbrev keep_char : Splitting → ℕ → Splitting
keep_char s ch = record s {
  final_array = put_at s.final_array s.block s.fin_arr_itr ch;
  fin_arr_itr = suc s.fin_arr_itr;
}

pub split_round : ℕ → Splitting → ℕ → Splitting
split_round delimiter s0 ch =
    let letter = s0.letter_flag || not (ch == 32) in
    let found = s0.found_flag || (ch == delimiter && letter) in
    let s = record s0 { letter_flag = letter; found_flag = found } in
    let s1 = if found && not (ch == delimiter) then next_block s else s in
    if not s1.found_flag && letter && not (ch == 10) then keep_char s1 ch else s1

-- while (string_to_split[string_itr] != '\0')
pub split_loop : ℕ → Splitting → List ℕ → Splitting
split_loop delimiter s [] = s
split_loop delimiter s (ch ∷ text) =
    let rest = split_loop delimiter (split_round delimiter s ch) text in if ch == 0 then s else rest

abbrev split_end : Splitting → ℕ × (ℕ → ℕ)
split_end s = (s.block, put_at s.final_array s.block s.fin_arr_itr 0)

-- The number of the last row, and the array.
unfoldable pub split_and_count : List ℕ → ℕ → (ℕ → ℕ) → ℕ × (ℕ → ℕ)
unfolding split_loop split_round
split_and_count string_to_split delimiter final_array = split_end (
    split_loop delimiter
      (record {
        block = 0;
        fin_arr_itr = 0;
        found_flag = false;
        letter_flag = false;
        final_array = final_array;
      })
      string_to_split)
