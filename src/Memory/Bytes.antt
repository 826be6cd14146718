-- ===== src/Memory/Bytes.antt =====
-- A byte that is written is read back, the others stay; copies that do not overlap.

use nascent_os.Prelude.{
  ℕ, zero, suc, ◌+◌, ◌*◌, ◌/◌, ◌%◌, ◌^◌, ◌≤◌, ◌<◌, ◌≡◌, refl, ap, ◌∙◌, ◌≢◌, arith, ◌⊎◌, inl,
  ℕ_discrete,
}
use nascent_os.Prelude.Word.{add64}
use nascent_os.Memory.{word_of, get_digit, set_digit, get_byte, set_byte, memcopy_loop, memcopy}

get_digit-set_digit_self : (k w v : ℕ) → v < 256 → get_digit k (set_digit k w v) ≡ v
unfolding get_digit set_digit
get_digit-set_digit_self zero w v h = omega arith
get_digit-set_digit_self (suc k) w v h =
    let e : (set_digit k (w / 256) v * 256 + w % 256) / 256 ≡ set_digit k (w / 256) v =
      omega arith in
    ap (get_digit k) e ∙ get_digit-set_digit_self k (w / 256) v h

get_digit-set_digit_ne :
    (j k w v : ℕ) → j ≢ k → v < 256 → get_digit j (set_digit k w v) ≡ get_digit j w
unfolding get_digit set_digit
get_digit-set_digit_ne zero zero w v h d = absurd (h refl)
get_digit-set_digit_ne zero (suc k) w v h d = omega arith
get_digit-set_digit_ne (suc j) zero w v h d =
    let e : (w / 256 * 256 + v) / 256 ≡ w / 256 = omega arith in ap (get_digit j) e
get_digit-set_digit_ne (suc j) (suc k) w v h d =
    let e : (set_digit k (w / 256) v * 256 + w % 256) / 256 ≡ set_digit k (w / 256) v =
      omega arith in
    ap (get_digit j) e ∙ get_digit-set_digit_ne j k (w / 256) v (λ q. h (ap suc q)) d

pub get_byte-set_byte_self : (mem : ℕ → ℕ) (a v : ℕ) → v < 256 → get_byte (set_byte mem a v) a ≡ v
unfolding get_byte set_byte
get_byte-set_byte_self mem a v h =
    let e : v % 256 ≡ v = omega arith in
    let z = get_digit-set_digit_self (a % 8) (mem (word_of a)) v h in ground (arith, e, z)

pub get_byte-set_byte_ne :
    (mem : ℕ → ℕ) (a b v : ℕ) → a ≢ b → get_byte (set_byte mem a v) b ≡ get_byte mem b
unfolding get_byte set_byte
get_byte-set_byte_ne mem a b v h = elim (ℕ_discrete (word_of b) (word_of a)) [
  | yes w ↦
      let ne : b % 8 ≢ a % 8 = omega (arith, h, w) in
      let z = get_digit-set_digit_ne (b % 8) (a % 8) (mem (word_of a)) (v % 256) ne (omega arith) in
      ground (arith, w, z)
  | no w ↦ ground (arith, w)
]

-- A range of addresses that does not wrap around.
abbrev pub InSpace : ℕ → ℕ → Type 0
InSpace p n = p + n ≤ 2 ^ 64

get_digit-lt : (k w : ℕ) → get_digit k w < 256
unfolding get_digit
get_digit-lt zero w = omega arith
get_digit-lt (suc k) w = get_digit-lt k (w / 256)

pub get_byte-lt : (mem : ℕ → ℕ) (a : ℕ) → get_byte mem a < 256
unfolding get_byte
get_byte-lt mem a = get_digit-lt (a % 8) (mem (word_of a))

memcopy_loop_others :
    (n i : ℕ) (mem : ℕ → ℕ) (s d b : ℕ)
    → InSpace d (i + n)
    → (b < d + i) ⊎ (d + i + n ≤ b)
    → get_byte (memcopy_loop n i mem s d) b ≡ get_byte mem b
unfolding memcopy_loop
memcopy_loop_others zero i mem s d b h o = refl
memcopy_loop_others (suc n) i mem s d b h o =
    let ne : add64 d i ≢ b = omega (arith, h, o) in
    memcopy_loop_others n (suc i) (set_byte mem (add64 d i) (get_byte mem (add64 s i))) s d b
      (omega arith) (omega (arith, o))
    ∙ get_byte-set_byte_ne mem (add64 d i) b (get_byte mem (add64 s i)) ne

memcopy_loop_copied :
    (n i : ℕ) (mem : ℕ → ℕ) (s d j : ℕ)
    → InSpace d (i + n)
    → InSpace s (i + n)
    → (s + i + n ≤ d) ⊎ (d + i + n ≤ s)
    → i ≤ j
    → j < i + n
    → get_byte (memcopy_loop n i mem s d) (d + j) ≡ get_byte mem (s + j)
unfolding memcopy_loop
memcopy_loop_copied zero i mem s d j hd hs apart lo hi = absurd (omega arith)
memcopy_loop_copied (suc n) i mem s d j hd hs apart lo hi =
    let c = get_byte mem (add64 s i) in
    let mem1 = set_byte mem (add64 d i) c in
    let ed : add64 d i ≡ d + i = omega (arith, hd) in
    let es : add64 s i ≡ s + i = omega (arith, hs) in
    elim (ℕ_discrete i j) [
      | yes e ↦
          memcopy_loop_others n (suc i) mem1 s d (d + j) (omega arith) (inl (omega arith))
          ∙ ap (λ x. get_byte mem1 x) (omega arith)
          ∙ get_byte-set_byte_self mem (add64 d i) c (get_byte-lt mem (add64 s i))
          ∙ ap (get_byte mem) (omega arith)
      | no e ↦
          let ne : add64 d i ≢ s + j = omega (arith, apart) in
          memcopy_loop_copied n (suc i) mem1 s d j (omega arith) (omega arith)
            (omega (arith, apart)) (omega arith) (omega arith)
          ∙ get_byte-set_byte_ne mem (add64 d i) (s + j) c ne
    ]

-- `memcopy` between two ranges that do not overlap and do not wrap around: the destination holds the
-- bytes of the source, and every byte outside of the destination is as it was.
pub memcopy_lem :
    (mem : ℕ → ℕ) (source destination size : ℕ)
    → InSpace source size
    → InSpace destination size
    → (source + size ≤ destination) ⊎ (destination + size ≤ source)
    → let mem' = memcopy mem source destination size in
      ((i : ℕ) → i < size → get_byte mem' (destination + i) ≡ get_byte mem (source + i))
      × ((b : ℕ) → (b < destination) ⊎ (destination + size ≤ b) → get_byte mem' b ≡ get_byte mem b)
unfolding memcopy
memcopy_lem mem source destination size hs hd apart = (
  λ i l.
      memcopy_loop_copied size 0 mem source destination i (omega (arith, hd)) (omega (arith, hs))
        (omega (arith, apart)) (omega arith) (omega arith),
  λ b o. memcopy_loop_others size 0 mem source destination b (omega (arith, hd)) (omega (arith, o)),
)
