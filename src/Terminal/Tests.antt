-- ===== src/Terminal/Tests.antt =====
-- The line "ls" is typed while three tasks are in the list.
use nascent_os.Prelude.{ℕ, ◌≡◌, refl, arith, some, [], ◌∷◌}
use nascent_os.Proc.Tests.{three, three-IsQueue}
use nascent_os.Terminal.{Terminal, read_buffer}
use nascent_os.Terminal.Lines.{Holds, typed, read_buffer-typed}

abbrev caller : ℕ → ℕ
caller i = 88

abbrev pub keyboard : Terminal
keyboard = record {
  term_buff = λ i. 0;
  r_buff_ptr = 7;
  w_buff_ptr = 7;
  terminal_line_count = 0;
  proc = three;
  console = record {
    output_buffer = λ i. 0;
    output_buffer_length = 0;
    video = λ i. 0;
    array_pointer = 0;
  };
}

read_buffer-typed_example :
    (s1 : Terminal) × (typed keyboard (108 ∷ 115 ∷ 10 ∷ []) ≡ some s1)
    × (b : ℕ → ℕ) × (s2 : Terminal) × (read_buffer s1 caller 100 ≡ ((0, b), s2))
    × Holds b 0 (108 ∷ 115 ∷ [])
    × ((b 2 ≡ 88) × (b 3 ≡ 0))
    × (s2.r_buff_ptr ≡ s2.w_buff_ptr)
    × (s2.terminal_line_count ≡ 0)
read_buffer-typed_example =
    read_buffer-typed keyboard (2 ∷ 3 ∷ 4 ∷ []) (108 ∷ 115 ∷ []) caller 100 three-IsQueue
      (omega arith, omega arith, (omega arith, omega arith, tt)) refl (omega arith) (omega arith)
