-- ===== src/Kprintf/Char.antt =====
-- A single character is always printed.
use nascent_os.Prelude.{ℕ, ◌≡◌, refl, some, [], ◌∷◌}
use nascent_os.Kprintf.{Console, char_arg, directive, format, kprintf, print_to_console, put}

pub kprintf-char :
    (c : Console) (x : ℕ) → (c' : Console) × (kprintf c (37 ∷ 99 ∷ []) (char_arg x ∷ []) ≡ some c')
unfolding kprintf format directive
kprintf-char c x = (
  print_to_console
      (record c { output_buffer = put (put (λ i. 0) 0 x) 1 0; output_buffer_length = 1 }),
  refl,
)
