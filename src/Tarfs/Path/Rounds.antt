-- ===== src/Tarfs/Path/Rounds.antt =====
-- The rounds of `remove_d` over a path without dots: its characters are copied.
use mathlib.Core.Path.{ap₂}
use nascent_os.Prelude.{
  ℕ, zero, suc, ◌+◌, ◌≤◌, ◌<◌, ◌≡◌, refl, ap, sym, ◌∙◌, ◌≢◌, false, List, arith, ◌==◌, some, get_or,
  set, length, get_or-set_self, get_or-set_ne, length-set, ℕ_discrete,
}
use nascent_os.Tarfs.Path.{Cleaning, copy_char, clean_round, clean_loop}

-- The state with the same place in both strings.
abbrev pub at_place : ℕ → ℕ → List ℕ → Cleaning
at_place i c b = record { i = i; j = i; c = c; b = b }

pub plain_round :
    (buff b : List ℕ) (i : ℕ)
    → get_or buff i 0 ≢ 0
    → get_or buff i 0 ≢ 46
    → clean_round buff (at_place i 0 b) ≡ some (at_place (suc i) 0 (set b i (get_or buff i 0)))
unfolding clean_round copy_char
plain_round buff b i n d =
    let z : (get_or buff i 0 == 0) ≡ false = ground (arith, n) in
    let e : (get_or buff i 0 == 46) ≡ false = ground (arith, d) in rw (e, z) refl

pub loop_step :
    (n : ℕ) (buff : List ℕ) (s s1 : Cleaning)
    → get_or buff s.i 0 ≢ 0
    → clean_round buff s ≡ some s1
    → clean_loop (suc n) buff s ≡ clean_loop n buff s1
unfolding clean_loop
loop_step n buff s s1 z e =
    let f : (get_or buff s.i 0 == 0) ≡ false = ground (arith, z) in ground (arith, f, e)

pub loop_end :
    (n : ℕ) (buff : List ℕ) (s : Cleaning)
    → get_or buff s.i 0 ≡ 0
    → clean_loop (suc n) buff s ≡ some s
unfolding clean_loop
loop_end n buff s z = ground (arith, z)

-- The characters of the two strings are the same below `m`.
abbrev pub SameUpTo : List ℕ → List ℕ → ℕ → Type 0
SameUpTo buff b m = (k : ℕ) → k < m → get_or b k 0 ≡ get_or buff k 0

same_set :
    (buff b : List ℕ) (i : ℕ)
    → SameUpTo buff b i
    → i < length b
    → SameUpTo buff (set b i (get_or buff i 0)) (suc i)
same_set buff b i s l k h = elim (ℕ_discrete i k) [
  | yes e ↦
      ap (λ j. get_or (set b i (get_or buff i 0)) j 0) (sym e)
      ∙ get_or-set_self b i (get_or buff i 0) 0 l
      ∙ ap (λ j. get_or buff j 0) e
  | no n ↦ get_or-set_ne b i k (get_or buff i 0) 0 n ∙ s k (omega (arith, h, n))
]

-- From `i` on, `n` characters without dots are copied.
pub plain_loop :
    (n f : ℕ) (buff b : List ℕ) (i : ℕ)
    → ((k : ℕ) → k < i + n → (get_or buff k 0 ≢ 0) × (get_or buff k 0 ≢ 46))
    → i + n ≤ length b
    → SameUpTo buff b i
    → (b' : List ℕ) × (clean_loop (n + f) buff (at_place i 0 b)
        ≡ clean_loop f buff (at_place (i + n) 0 b'))
      × SameUpTo buff b' (i + n)
      × (length b' ≡ length b)
plain_loop zero f buff b i p l s = (b, at_same, λ k h. s k (omega (arith, h)), refl)
  where
    at_same : clean_loop (0 + f) buff (at_place i 0 b) ≡ clean_loop f buff (at_place (i + 0) 0 b)
    at_same = ap₂ (λ n j. clean_loop n buff (at_place j 0 b)) (omega arith) (omega arith)
plain_loop (suc n) f buff b i p l s =
    let ch = get_or buff i 0 in
    let b1 = set b i ch in
    let q = p i (omega arith) in
    let (b', e, s', l') =
      plain_loop n f buff b1 (suc i) (λ k h. p k (omega (arith, h)))
        (omega (arith, l, length-set b i ch)) (same_set buff b i s (omega (arith, l))) in
    (
      b',
      ap (λ m. clean_loop m buff (at_place i 0 b)) (omega arith)
          ∙ loop_step (n + f) buff (at_place i 0 b) (at_place (suc i) 0 b1) q.0
              (plain_round buff b i q.0 q.1)
          ∙ e
          ∙ ap (λ j. clean_loop f buff (at_place j 0 b')) (omega arith),
      λ k h. s' k (omega (arith, h)),
      l' ∙ length-set b i ch,
    )
