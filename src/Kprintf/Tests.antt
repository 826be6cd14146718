-- ===== src/Kprintf/Tests.antt =====
-- Numbers and lines that are printed, on concrete inputs.
use nascent_os.Prelude.{ℕ, ◌-◌, ◌≡◌, refl, arith, inr, ◌==◌, if◌then◌else◌}
use nascent_os.Prelude.Int.{pos, negsuc}
use nascent_os.Kprintf.{
  Console, num, num_end, digit_loop, reverse, reverse_loop, print_loop, print_to_console, scroll,
}
use nascent_os.Kprintf.Printed.{Printed, num-Printed}

abbrev empty : ℕ → ℕ
empty i = 0

num-Printed_example :
    Printed 16 4 0 305 (num (pos 305) empty 4 16)
    × Printed 10 4 1 305 (num (negsuc (305 - 1)) empty 4 10)
    × ((num (negsuc (305 - 1)) empty 4 10).1 4 ≡ 45)
num-Printed_example = num-Printed 305 empty 4 16 (omega arith) (omega arith) (inr refl)

-- the bytes 3, 0 and 5
decimal : ((num (pos 305) empty 0 10).0 ≡ 3) × ((num (pos 305) empty 0 10).1 0 ≡ 51)
unfolding num digit_loop num_end reverse reverse_loop
decimal = (refl, refl)

abbrev screen : Console
screen = record {
  output_buffer = λ i. if i == 0 then 97 else if i == 1 then 10 else if i == 2 then 98 else 99;
  output_buffer_length = 4;
  video = empty;
  array_pointer = 0;
}

-- "a", a newline, "bc": the b behind the newline is not printed, the c begins the next line
newline_skips :
    ((print_to_console screen).video 0 ≡ 97) × ((print_to_console screen).video 160 ≡ 99)
unfolding print_to_console print_loop scroll
newline_skips = (refl, refl)
