-- ===== src/Exec/Tests.antt =====
-- A stack with two arguments and one string of the environment.
use nascent_os.Prelude.{ℕ, ◌+◌, ◌*◌, ◌^◌, ◌≡◌, ◌<◌, All, List, [], ◌∷◌, length, some, arith}
use nascent_os.Text.{str_len}
use nascent_os.Exec.{copy_arg_to_stack}
use nascent_os.Exec.Written.{read_word, Agree, HoldsWords}
use nascent_os.Exec.Strings.{HoldsStrings}
use nascent_os.Exec.Stack.{copy_arg_to_stack_lem}

abbrev words : List (List ℕ)
words = (108 ∷ 115 ∷ []) ∷ (47 ∷ []) ∷ []

abbrev settings : List (List ℕ)
settings = (72 ∷ 61 ∷ 47 ∷ []) ∷ []

-- The strings are short.
short : All (λ s. str_len s < 100) words
unfolding str_len
short = (omega arith, (omega arith, tt))

copy_arg_to_stack_lem_example :
    let (sp, mem') = copy_arg_to_stack (λ a. 0) 0x9000 words (some settings) in
    (ptrs : List ℕ) × (env_ptrs : List ℕ) × (read_word 8 mem' sp ≡ 2)
    × HoldsWords mem' (sp + 8) ptrs
    × HoldsWords mem' (sp + 8 + 8 * length words + 64) env_ptrs
    × HoldsStrings mem' sp 0x9000 ptrs words
    × HoldsStrings mem' sp 0x9000 env_ptrs settings
    × Agree (λ a. 0) mem' 0x9000 (2 ^ 64)
copy_arg_to_stack_lem_example =
    copy_arg_to_stack_lem (λ a. 0) 0x9000 words settings (ground arith) (ground arith)
      (ground arith) short (omega arith) (omega arith)
