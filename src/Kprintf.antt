-- ===== src/Kprintf.antt =====
-- sys/kprintf.c: numbers in decimal and hexadecimal, the format strings and the text screen. A buffer is
-- a function from the index to the byte, and so is the video memory, from the offset after its base.
-- `print_key` is with the keyboard, in Terminal/Keyboard. A character is a byte.
pub mod Num
pub mod Printed
pub mod Char
pub mod Status
mod Tests
use nascent_os.Prelude.{
  ℕ, zero, suc, ◌+◌, ◌-◌, ◌*◌, ◌/◌, ◌%◌, ◌^◌, Bool, true, false, ◌&&◌, ◌||◌, List, [], ◌∷◌, ◌==◌,
  ltb, leb, if◌then◌else◌, Option, none, some,
}
use nascent_os.Prelude.Int.{ℤ, pos, negsuc}
use nascent_os.Text.{str_len}
use nascent_os.Proc.TaskList.{◌>>=◌}

-- One byte of a buffer is changed.
abbrev pub put : (ℕ → ℕ) → ℕ → ℕ → ℕ → ℕ
put buffer i c j = if j == i then c else buffer j

-- '0' + num and 'a' + (num - 10), for a remainder that is not negative
abbrev pub convert_num_to_char : ℕ → ℕ
convert_num_to_char n = if leb n 9 then 48 + n else 97 + (n - 10)

-- The character of a remainder with a sign: C's remainder of a negative number is negative.
abbrev pub signed_char : Bool → ℕ → ℕ
signed_char neg rem = if neg then 48 - rem else convert_num_to_char rem

-- while (begin < end); `k` rounds, of which `end` are enough
pub reverse_loop : ℕ → ℕ → ℕ → (ℕ → ℕ) → ℕ → ℕ
reverse_loop zero first last string = string
reverse_loop (suc k) first last string =
    let tmp = string first in
    let swapped = put (put string first (string last)) last tmp in
    elim (ltb first last) [ true ↦ reverse_loop k (suc first) (last - 1) swapped | false ↦ string ]

-- The `length` bytes from `o` on, for `length` at least 1; the callers pass no 0 here but for a number
-- whose digits are none, where the loop does nothing.
pub reverse : (ℕ → ℕ) → ℕ → ℕ → ℕ → ℕ
reverse string o length = reverse_loop length o (o + length - 1) string

-- for (index = 0; number != 0; index++), with the digits from `o` on. `k` is the fuel: an `unsigned long`
-- has at most 64 digits in any base.
pub digit_loop : ℕ → Bool → (ℕ → ℕ) → ℕ → ℕ → ℕ → ℕ → ℕ × (ℕ → ℕ)
digit_loop zero neg buffer o index number base = (index, buffer)
digit_loop (suc k) neg buffer o index number base =
    let rem = number % base in
    elim (number == 0) [
      | true ↦ (index, buffer)
      | false ↦
          digit_loop k neg (put buffer (o + index) (signed_char neg rem)) o (suc index)
            (number / base) base
    ]

-- What follows the loop; `n_flag` adds the sign.
pub num_end : Bool → ℕ → ℕ × (ℕ → ℕ) → ℕ × (ℕ → ℕ)
num_end n_flag o (index, buffer) =
    if n_flag
    then (suc index, reverse (put buffer (o + index) 45) o (suc index))
    else (index, reverse buffer o index)

-- The length that is returned, and the buffer; the number is written from `o` on. In base 16 a negative
-- number n is replaced by n + 2: `number -= 0xffffffff` adds 1 on 32 bits. In base 10 the least `int` stays as
-- it is, since `number *= -1` wraps around: its digits are characters below '0'.
pub num : ℤ → (ℕ → ℕ) → ℕ → ℕ → ℕ × (ℕ → ℕ)
num (pos zero) buffer o base = (2, put buffer o 48)
num (pos (suc n)) buffer o base = num_end false o (digit_loop 64 false buffer o 0 (suc n) base)
num (negsuc n) buffer o base =
    if base == 16
    then (if leb n 1
        then num_end false o (digit_loop 64 false buffer o 0 (1 - n) base)
        else num_end false o (digit_loop 64 true buffer o 0 (n - 1) base))
    else num_end true o (digit_loop 64 (suc n == 2 ^ 31) buffer o 0 (suc n) base)

pointer_end : ℕ → ℕ × (ℕ → ℕ) → ℕ × (ℕ → ℕ)
pointer_end o (index, buffer) =
    let b = put (put buffer (o + index) 120) (o + suc index) 48 in
    (index + 2, reverse b o (index + 2))

pub pointer : ℕ → (ℕ → ℕ) → ℕ → ℕ × (ℕ → ℕ)
unfolding pointer_end
pointer number buffer o =
    if number == 0
    then (3, put (put (put buffer o 48) (o + 1) 120) (o + 2) 48)
    else pointer_end o (digit_loop 64 false buffer o 0 number 16)

-- The output buffer, the screen and the place of the cursor on it.
pub record Console : Type 0 where
  pub output_buffer : ℕ → ℕ
  pub output_buffer_length : ℕ
  pub video : ℕ → ℕ
  pub array_pointer : ℕ

-- An argument of `kprintf`; an `unsigned int` that is printed with %x arrives in `num` as an `int`.
pub data Arg : Type 0 where
  char_arg : ℕ → Arg
  int_arg : ℤ → Arg
  string_arg : List ℕ → Arg
  pointer_arg : ℕ → Arg

-- str_copy into a buffer
pub copy_loop : List ℕ → (ℕ → ℕ) → ℕ → ℕ → ℕ
copy_loop [] buffer o = put buffer o 0
copy_loop (c ∷ s) buffer o = if c == 0 then put buffer o 0 else copy_loop s (put buffer o c) (suc o)

-- What one directive writes: the number of bytes and the buffer. `none` is an argument that the
-- directive cannot be given.
pub directive : ℕ → Arg → (ℕ → ℕ) → ℕ → Option (ℕ × (ℕ → ℕ))
directive d (char_arg c) buffer o = if d == 99 then some (1, put buffer o c) else none
directive d (int_arg n) buffer o =
    if d == 100
    then some (num n buffer o 10)
    else if d == 120
    then some (num n buffer o 16)
    else none
directive d (string_arg s) buffer o =
    if d == 115 then some (str_len s, copy_loop s buffer o) else none
directive d (pointer_arg p) buffer o = if d == 112 then some (pointer p buffer o) else none

abbrev is_directive : ℕ → Bool
is_directive d = (d == 99) || (d == 100) || (d == 120) || (d == 115) || (d == 112)

-- The loop over the format string. A directive takes the next argument, and two characters of the format.
pub format : List ℕ → List Arg → (ℕ → ℕ) → ℕ → Option (ℕ × (ℕ → ℕ))
format [] args buffer o = some (o, buffer)
format (c ∷ []) args buffer o = if c == 0 then some (o, buffer) else some (suc o, put buffer o c)
format (c ∷ d ∷ f) [] buffer o =
    let rest = format (d ∷ f) [] (put buffer o c) (suc o) in
    if c == 0 then some (o, buffer) else if c == 37 && is_directive d then none else rest
format (c ∷ d ∷ f) (a ∷ args) buffer o =
    let rest = format (d ∷ f) (a ∷ args) (put buffer o c) (suc o) in
    if c == 0
    then some (o, buffer)
    else if c == 37 && is_directive d
    then directive d a buffer o >>= (λ r. format f args r.1 (o + r.0))
    else rest

-- for (array_pointer = ap; array_pointer <= 160*24; array_pointer += 2), in `n` rounds
pub scroll_loop : ℕ → ℕ → (ℕ → ℕ) → ℕ → ℕ
scroll_loop zero ap video = video
scroll_loop (suc n) ap video = scroll_loop n (ap + 2) (put video (ap - 160) (video ap))

-- for (tmp = from; …; tmp += 2), in `n` rounds
pub blank_loop : ℕ → ℕ → (ℕ → ℕ) → ℕ → ℕ
blank_loop zero tmp video = video
blank_loop (suc n) tmp video = blank_loop n (tmp + 2) (put video tmp 32)

pub scroll : Console → Console
scroll c =
    if leb (160 * 24) c.array_pointer
    then record c {
      video = blank_loop 80 (160 * 23) (scroll_loop 1841 160 c.video);
      array_pointer = 160 * 23;
    }
    else c

-- The loop over the output buffer; it also skips the byte behind a newline or a carriage return. `n`
-- rounds are left at most.
pub print_loop : ℕ → ℕ → Console → Console
print_loop zero i c = c
print_loop (suc n) i c =
    let ch = c.output_buffer i in
    let newline =
      print_loop n (i + 2) (record c { array_pointer = 160 * (c.array_pointer / 160 + 1) }) in
    let home = print_loop n (i + 2) (record c { array_pointer = 160 * (c.array_pointer / 160) }) in
    let next =
      print_loop n (suc i) (record c {
        video = put c.video c.array_pointer ch;
        array_pointer = c.array_pointer + 2;
      }) in
    if leb c.output_buffer_length i
    then c
    else if ch == 10
    then newline
    else if ch == 13
    then home
    else next

pub print_to_console : Console → Console
unfolding scroll
print_to_console c = print_loop c.output_buffer_length 0 (scroll c)

pub kprintf : Console → List ℕ → List Arg → Option Console
kprintf c string_to_format args = do
  r ← format string_to_format args (λ i. 0) 0
  some (print_to_console (record c { output_buffer = put r.1 r.0 0; output_buffer_length = r.0 }))

pub clear_screen : Console → Console
unfolding blank_loop
clear_screen c = record c { video = blank_loop 1920 0 c.video }
