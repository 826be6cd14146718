-- ===== src/Kprintf/Printed.antt =====
-- The text of a number, as `num` and `pointer` leave it.
use mathlib.Core.Path.{subst}
use nascent_os.Prelude.{
  ℕ, zero, suc, ◌+◌, ◌-◌, ◌^◌, ◌<◌, ◌≡◌, refl, ap, sym, ◌∙◌, inl, inr, true, false, arith, ◌==◌,
}
use nascent_os.Prelude.Int.{pos, negsuc}
use nascent_os.Kprintf.{put, reverse, digit_loop, num_end, num, pointer_end, pointer}
use nascent_os.Kprintf.Num.{
  value, low_value, value-low_value, mirrored, reverse_loop-mirrored, Digits, IsBase,
  digit_loop-Digits,
}

reverse_at : (b : ℕ → ℕ) (o len i : ℕ) → i < len → reverse b o len (o + i) ≡ b (o + (len - suc i))
unfolding reverse
reverse_at b o len i h =
    let e : o + (o + len - 1) - (o + i) ≡ o + (len - suc i) = omega arith in
    let m : mirrored o (o + len - 1) b (o + i) ≡ b (o + (o + len - 1) - (o + i)) =
      ground (arith, h) in
    reverse_loop-mirrored len o (o + len - 1) b (o + i) (omega arith) ∙ m ∙ ap b e

-- The `n` digits and, behind them, what is put at `o + n`: reversed, the digits come last.
digits_reversed :
    (base : ℕ) (b b' : ℕ → ℕ) (o n k : ℕ)
    → ((i : ℕ) → i < n → b' (o + i) ≡ b (o + i))
    → value base (λ i. reverse b' o (n + k) (o + k + i)) n ≡ low_value base (λ i. b (o + 0 + i)) n
digits_reversed base b b' o n k same =
    value-low_value base n (λ i. reverse b' o (n + k) (o + k + i)) (λ i. b (o + 0 + i))
      (λ i l.
        let e1 : o + k + i ≡ o + (k + i) = omega arith in
        let e2 : n + k - suc (k + i) ≡ n - suc i = omega arith in
        let e3 : o + (n - suc i) ≡ o + 0 + (n - suc i) = omega arith in
        ap (reverse b' o (n + k)) e1
        ∙ reverse_at b' o (n + k) (k + i) (omega arith)
        ∙ ap (λ x. b' (o + x)) e2
        ∙ same (n - suc i) (omega arith)
        ∙ ap b e3)

-- What stands in the buffer is the number: a sign or a prefix of `k` characters, then its digits.
abbrev pub Printed : ℕ → ℕ → ℕ → ℕ → ℕ × (ℕ → ℕ) → Type 0
Printed base o k number (len, b) = (k < len) × (value base (λ i. b (o + k + i)) (len - k) ≡ number)

num_end-Printed :
    (buffer : ℕ → ℕ) (o m base : ℕ) (r : ℕ × (ℕ → ℕ))
    → 0 < m
    → Digits buffer o 0 m base r
    → Printed base o 0 m (num_end false o r)
unfolding num_end
num_end-Printed buffer o m base (len, b) p (n, e, v, before, behind, some_digit) =
    let q = some_digit p in
    let e1 : len ≡ n + 0 = omega (arith, e) in
    let e2 : n + 0 - 0 ≡ n = omega arith in
    rw e1 (omega (arith, q), rw e2 (digits_reversed base b b o n 0 (λ i l. refl) ∙ v))

num_end-negative :
    (buffer : ℕ → ℕ) (o m base : ℕ) (r : ℕ × (ℕ → ℕ))
    → 0 < m
    → Digits buffer o 0 m base r
    → Printed base o 1 m (num_end true o r) × ((num_end true o r).1 o ≡ 45)
unfolding num_end
num_end-negative buffer o m base (len, b) p (n, e, v, before, behind, some_digit) =
    let q = some_digit p in
    let b' = put b (o + n) 45 in
    let e1 : len ≡ n = omega (arith, e) in
    let e2 : n + 1 - 1 ≡ n = omega arith in
    let e3 : suc n ≡ n + 1 = omega arith in
    let same : (i : ℕ) → i < n → b' (o + i) ≡ b (o + i) = λ i l. ground (arith, l) in
    let head : reverse b' o (n + 1) (o + 0) ≡ b' (o + (n + 1 - 1)) =
      reverse_at b' o (n + 1) 0 (omega arith) in
    let e4 : o + 0 ≡ o = omega arith in
    let sign : b' (o + (n + 1 - 1)) ≡ 45 = ground arith in
    rw (e1, e3)
      (
        (omega (arith, q), rw e2 (digits_reversed base b b' o n 1 same ∙ v)),
        ap (reverse b' o (n + 1)) (sym e4) ∙ head ∙ sign,
      )

pointer_end-Printed :
    (buffer : ℕ → ℕ) (o m : ℕ) (r : ℕ × (ℕ → ℕ))
    → 0 < m
    → Digits buffer o 0 m 16 r
    → Printed 16 o 2 m (pointer_end o r)
      × ((pointer_end o r).1 o ≡ 48)
      × ((pointer_end o r).1 (o + 1) ≡ 120)
unfolding pointer_end
pointer_end-Printed buffer o m (len, b) p (n, e, v, before, behind, some_digit) =
    let q = some_digit p in
    let b' = put (put b (o + n) 120) (o + suc n) 48 in
    let e1 : len ≡ n = omega (arith, e) in
    let e2 : n + 2 - 2 ≡ n = omega arith in
    let same : (i : ℕ) → i < n → b' (o + i) ≡ b (o + i) = λ i l. ground (arith, l) in
    let zero_at : reverse b' o (n + 2) (o + 0) ≡ b' (o + (n + 2 - 1)) =
      reverse_at b' o (n + 2) 0 (omega arith) in
    let x_at : reverse b' o (n + 2) (o + 1) ≡ b' (o + (n + 2 - 2)) =
      reverse_at b' o (n + 2) 1 (omega arith) in
    let e4 : o + 0 ≡ o = omega arith in
    let e5 : b' (o + (n + 2 - 1)) ≡ 48 = ground arith in
    let e6 : b' (o + (n + 2 - 2)) ≡ 120 = ground arith in
    rw e1 (
      (omega (arith, q), rw e2 (digits_reversed 16 b b' o n 2 same ∙ v)),
      ap (reverse b' o (n + 2)) (sym e4) ∙ zero_at ∙ e5,
      x_at ∙ e6,
    )

-- `num` writes a positive `int` in base 10 or 16: the text has the returned length, which is not 0, and its
-- value is the number. A negative one in base 10, other than the least `int`, is a minus and the text of its
-- absolute value.
pub num-Printed :
    (m : ℕ) (buffer : ℕ → ℕ) (o base : ℕ)
    → 0 < m
    → m < 2 ^ 31
    → IsBase base
    → Printed base o 0 m (num (pos m) buffer o base)
      × Printed 10 o 1 m (num (negsuc (m - 1)) buffer o 10)
      × ((num (negsuc (m - 1)) buffer o 10).1 o ≡ 45)
unfolding num
num-Printed zero buffer o base p l b = absurd (omega arith)
num-Printed (suc m) buffer o base p l b =
    let d = digit_loop-Digits 64 buffer o 0 (suc m) base b (omega arith) in
    let d10 = digit_loop-Digits 64 buffer o 0 (suc m) 10 (inl refl) (omega arith) in
    let e : suc m - 1 ≡ m = omega arith in
    let fits : (suc m == 2 ^ 31) ≡ false = ground (arith, l) in
    let minus =
      num_end-negative buffer o (suc m) 10 (digit_loop 64 false buffer o 0 (suc m) 10) p d10 in
    rw (e, fits)
      (
        num_end-Printed buffer o (suc m) base (digit_loop 64 false buffer o 0 (suc m) base) p d,
        minus.0,
        minus.1,
      )

pointer_nonzero :
    (m : ℕ) (buffer : ℕ → ℕ) (o : ℕ)
    → 0 < m
    → pointer m buffer o ≡ pointer_end o (digit_loop 64 false buffer o 0 m 16)
unfolding pointer
pointer_nonzero m buffer o p = ground arith

-- `pointer` writes 0x and the hexadecimal digits of the address.
pub pointer-Printed :
    (m : ℕ) (buffer : ℕ → ℕ) (o : ℕ)
    → 0 < m
    → m < 2 ^ 64
    → Printed 16 o 2 m (pointer m buffer o)
      × ((pointer m buffer o).1 o ≡ 48)
      × ((pointer m buffer o).1 (o + 1) ≡ 120)
pointer-Printed m buffer o p l =
    let d = digit_loop-Digits 64 buffer o 0 m 16 (inr refl) (omega arith) in
    subst (λ r. Printed 16 o 2 m r × (r.1 o ≡ 48) × (r.1 (o + 1) ≡ 120))
      (sym (pointer_nonzero m buffer o p))
      (pointer_end-Printed buffer o m (digit_loop 64 false buffer o 0 m 16) p d)
