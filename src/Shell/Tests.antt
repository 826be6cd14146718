-- ===== src/Shell/Tests.antt =====
-- Runs of the shell: a script of two lines, "#!" and "cd /".
use nascent_os.Prelude.{ℕ, ◌≡◌, ◌≢◌, refl, List, [], ◌∷◌, arith, ◌<◌, length, true, get_or}
use nascent_os.Env.{Env}
use nascent_os.Shell.{make_args, script_loop}
use nascent_os.Shell.Script.{HoldsText, text_of, IsLine, run_lines, script_loop_lem}

abbrev vars : Env
vars = record {
  env_key = λ i. [];
  env_value = λ i. [];
  env_array_length = 0;
  env_buffer = [];
  ps1 = b's' ∷ b'>' ∷ [];
}

abbrev script : ℕ → ℕ
script i = get_or (b'#' ∷ b'!' ∷ 10 ∷ b'c' ∷ b'd' ∷ b' ' ∷ b'/' ∷ 10 ∷ []) i 0

abbrev head_line : List ℕ
head_line = b'#' ∷ b'!' ∷ []

abbrev cd_line : List ℕ
cd_line = b'c' ∷ b'd' ∷ b' ' ∷ b'/' ∷ []

held : HoldsText script 0 (text_of (head_line ∷ cd_line ∷ []))
unfolding HoldsText text_of
held = (refl, (refl, (refl, (refl, (refl, (refl, (refl, (refl, refl))))))))

line_char : {n : ℕ} → n ≢ 0 → n ≢ 10 → (n ≢ 0) × (n ≢ 10)
line_char z l = (z, l)

head_line-IsLine : IsLine head_line
head_line-IsLine =
    let hash : (b'#' ≢ 0) × (b'#' ≢ 10) = line_char (omega arith) (omega arith) in
    let bang : (b'!' ≢ 0) × (b'!' ≢ 10) = line_char (omega arith) (omega arith) in
    ((hash, (bang, tt)), omega arith)

cd_line-IsLine : IsLine cd_line
cd_line-IsLine =
    let c : (b'c' ≢ 0) × (b'c' ≢ 10) = line_char (omega arith) (omega arith) in
    let d : (b'd' ≢ 0) × (b'd' ≢ 10) = line_char (omega arith) (omega arith) in
    let space : (b' ' ≢ 0) × (b' ' ≢ 10) = line_char (omega arith) (omega arith) in
    let slash : (b'/' ≢ 0) × (b'/' ≢ 10) = line_char (omega arith) (omega arith) in
    ((c, (d, (space, (slash, tt)))), omega arith)

short : length (text_of (head_line ∷ cd_line ∷ [])) < 4096
unfolding text_of
short = omega arith

script_loop_lem_example : script_loop 3 script 0 0 vars ≡ run_lines (cd_line ∷ []) vars
script_loop_lem_example =
    script_loop_lem 3 script head_line (cd_line ∷ []) vars held
      (head_line-IsLine, (cd_line-IsLine, tt)) (omega arith) short

-- "ls &": the last word asks for the background.
in_background :
    make_args 2 0 (λ i. get_or ((b'l' ∷ b's' ∷ []) ∷ (b'&' ∷ []) ∷ []) i [])
    ≡ (true, (b'l' ∷ b's' ∷ []) ∷ [])
unfolding make_args
in_background = refl
