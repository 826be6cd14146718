-- ===== src/Kprintf/Num.antt =====
-- What `num` and `pointer` write is the number.
use mathlib.Core.Path.{subst}
use nascent_os.Prelude.{
  ℕ, zero, suc, ◌&&◌, ◌+◌, ◌-◌, ◌*◌, ◌/◌, ◌%◌, ◌^◌, ◌≤◌, ◌<◌, ◌≡◌, refl, ap, sym, ◌∙◌, ◌≢◌, ◌⊎◌,
  inl, inr, Bool, true, false, ltb, leb, arith, if◌then◌else◌, Bool-cases,
}
use nascent_os.Kprintf.{put, convert_num_to_char, signed_char, reverse_loop, digit_loop}

-- The digit that a character stands for.
abbrev pub digit_of : ℕ → ℕ
digit_of c = if leb c 57 then c - 48 else c - 97 + 10

-- The number whose digits are g 0, g 1, …, g (n - 1), the first one the highest.
abbrev pub value : ℕ → (ℕ → ℕ) → ℕ → ℕ
value base g zero = 0
value base g (suc n) = value base g n * base + digit_of (g n)

-- The same, the first one the lowest.
abbrev pub low_value : ℕ → (ℕ → ℕ) → ℕ → ℕ
low_value base g zero = 0
low_value base g (suc n) = digit_of (g 0) + base * low_value base (λ i. g (suc i)) n

digit_of-char : (r : ℕ) → r < 16 → digit_of (convert_num_to_char r) ≡ r
digit_of-char r h = ground arith

-- Reading from the other end.
pub value-low_value :
    (base n : ℕ) (g h : ℕ → ℕ)
    → ((i : ℕ) → i < n → g i ≡ h (n - suc i))
    → value base g n ≡ low_value base h n
value-low_value base zero g h e = refl
value-low_value base (suc n) g h e =
    let rest : value base g n ≡ low_value base (λ i. h (suc i)) n =
      value-low_value base n g (λ i. h (suc i))
        (λ i l.
          let k : suc n - suc i ≡ suc (n - suc i) = omega arith in e i (omega arith) ∙ ap h k) in
    let last : g n ≡ h 0 = let z : suc n - suc n ≡ 0 = omega arith in e n (omega arith) ∙ ap h z in
    rw (rest, last) (omega arith)

-- The bytes from `first` to `last` in the other order.
abbrev pub mirrored : ℕ → ℕ → (ℕ → ℕ) → ℕ → ℕ
mirrored first last s i = if leb first i && leb i last then s (first + last - i) else s i

abbrev swapped : ℕ → ℕ → (ℕ → ℕ) → ℕ → ℕ
swapped first last s = put (put s first (s last)) last (s first)

mirrored-swapped :
    (first last : ℕ) (s : ℕ → ℕ) (i : ℕ)
    → first < last
    → mirrored (suc first) (last - 1) (swapped first last s) i ≡ mirrored first last s i
mirrored-swapped first last s i l =
    let e1 : first + last - first ≡ last = omega arith in
    let e2 : first + last - last ≡ first = omega arith in
    let e3 : suc first + (last - 1) - i ≡ first + last - i = omega arith in
    let s1 = ap s e1 in let s2 = ap s e2 in let s3 = ap s e3 in ground arith

mirrored_one : (first last : ℕ) (s : ℕ → ℕ) (i : ℕ) → last ≤ first → s i ≡ mirrored first last s i
mirrored_one first last s i l = elim (Bool-cases (leb first i && leb i last)) [
  | inl h ↦
      let e : first + last - i ≡ i = ground (arith, h) in let f = ap s e in ground (arith, h, f)
  | inr h ↦ ground (arith, h)
]

pub reverse_loop-mirrored :
    (k first last : ℕ) (s : ℕ → ℕ) (i : ℕ)
    → last ≤ first + k
    → reverse_loop k first last s i ≡ mirrored first last s i
unfolding reverse_loop
reverse_loop-mirrored zero first last s i b = mirrored_one first last s i (omega arith)
reverse_loop-mirrored (suc k) first last s i b = elim (Bool-cases (ltb first last)) [
  | inl l ↦
      swap_step k first last s i l
      ∙ reverse_loop-mirrored k (suc first) (last - 1) (swapped first last s) i (omega arith)
      ∙ mirrored-swapped first last s i (ground (arith, l))
  | inr g ↦ stop_step k first last s i g ∙ mirrored_one first last s i (ground (arith, g))
]
  where
    swap_step :
        (k first last : ℕ) (s : ℕ → ℕ) (i : ℕ)
        → ltb first last ≡ true
        → reverse_loop (suc k) first last s i
          ≡ reverse_loop k (suc first) (last - 1) (swapped first last s) i
    swap_step k first last s i l = ground (arith, l)

    stop_step :
        (k first last : ℕ) (s : ℕ → ℕ) (i : ℕ)
        → ltb first last ≡ false
        → reverse_loop (suc k) first last s i ≡ s i
    stop_step k first last s i l = ground (arith, l)

-- The digits of `number` stand from `o + index` on, the lowest first, and nothing else is written.
abbrev pub Digits : (ℕ → ℕ) → ℕ → ℕ → ℕ → ℕ → ℕ × (ℕ → ℕ) → Type 0
Digits buffer o index number base (index', buffer') =
    (n : ℕ) × (index' ≡ index + n)
    × (low_value base (λ i. buffer' (o + index + i)) n ≡ number)
    × ((j : ℕ) → j < o + index → buffer' j ≡ buffer j)
    × ((j : ℕ) → o + index + n ≤ j → buffer' j ≡ buffer j)
    × (0 < number → 0 < n)

low_value_cong :
    (base : ℕ) (g h : ℕ → ℕ) (n : ℕ)
    → ((i : ℕ) → g i ≡ h i)
    → low_value base g n ≡ low_value base h n
low_value_cong base g h zero e = refl
low_value_cong base g h (suc n) e =
    rw (e 0, low_value_cong base (λ i. g (suc i)) (λ i. h (suc i)) n (λ i. e (suc i))) refl

digit_step :
    (k : ℕ) (neg : Bool) (buffer : ℕ → ℕ) (o index number base : ℕ)
    → 0 < number
    → digit_loop (suc k) neg buffer o index number base
      ≡ digit_loop k neg
          (put buffer (o + index) (signed_char neg (number % base)))
          o
          (suc index)
          (number / base)
          base
unfolding digit_loop
digit_step k neg buffer o index number base h = ground arith

-- The two bases that the kernel prints in.
abbrev pub IsBase : ℕ → Type 0
IsBase base = (base ≡ 10) ⊎ (base ≡ 16)

division :
    (base m : ℕ)
    → IsBase base
    → (m / base + m / base ≤ m) × (m % base < 16) × (m % base + base * (m / base) ≡ m)
division base m (inl e) = rw e (omega arith)
division base m (inr e) = rw e (omega arith)

Digits-more :
    (buffer : ℕ → ℕ) (o index number base : ℕ) (r : ℕ × (ℕ → ℕ))
    → IsBase base
    → Digits
        (put buffer (o + index) (convert_num_to_char (number % base)))
        o
        (suc index)
        (number / base)
        base
        r
    → Digits buffer o index number base r
Digits-more buffer o index number base (index', buffer') b (n, e, v, before, behind, some_digit) =
    let c = convert_num_to_char (number % base) in
    let first : buffer' (o + index + 0) ≡ c =
      let z : o + index + 0 ≡ o + index = omega arith in
      ap buffer' z ∙ before (o + index) (omega arith) ∙ ground arith in
    let shift : low_value base (λ i. buffer' (o + index + suc i)) n ≡ number / base =
      low_value_cong base (λ i. buffer' (o + index + suc i)) (λ i. buffer' (o + suc index + i)) n
        (λ i. let z : o + index + suc i ≡ o + suc index + i = omega arith in ap buffer' z)
      ∙ v in
    let (half, low, whole) = division base number b in
    (
      suc n,
      omega (arith, e),
      rw (first, shift, digit_of-char (number % base) low) whole,
      λ j l. before j (omega arith) ∙ put_away buffer (o + index) c j (omega arith),
      λ j l. behind j (omega arith) ∙ put_away buffer (o + index) c j (omega arith),
      λ p. omega arith,
    )
  where
    put_away : (f : ℕ → ℕ) (a x j : ℕ) → j ≢ a → put f a x j ≡ f j
    put_away f a x j ne = ground arith

pub digit_loop-Digits :
    (k : ℕ) (buffer : ℕ → ℕ) (o index number base : ℕ)
    → IsBase base
    → number < 2 ^ k
    → Digits buffer o index number base (digit_loop k false buffer o index number base)
unfolding digit_loop
digit_loop-Digits zero buffer o index number base b h =
    (0, omega arith, omega arith, λ j l. refl, λ j l. refl, λ p. omega arith)
digit_loop-Digits (suc k) buffer o index zero base b h =
    (0, omega arith, refl, λ j l. refl, λ j l. refl, λ p. omega arith)
digit_loop-Digits (suc k) buffer o index (suc m) base b h =
    let c = convert_num_to_char (suc m % base) in
    let (half, low, whole) = division base (suc m) b in
    let small : suc m / base < 2 ^ k = omega (arith, half, h) in
    subst (Digits buffer o index (suc m) base)
      (sym (digit_step k false buffer o index (suc m) base (omega arith)))
      (Digits-more buffer o index (suc m) base
        (digit_loop k false (put buffer (o + index) c) o (suc index) (suc m / base) base) b
        (digit_loop-Digits k (put buffer (o + index) c) o (suc index) (suc m / base) base b small))
