-- ===== src/Exec/Strings.antt =====
-- The strings of the arguments on the new stack.
use nascent_os.Prelude.{
  ℕ, suc, ◌+◌, ◌-◌, ◌*◌, ◌^◌, ◌≤◌, ◌<◌, ◌≡◌, refl, ap, ◌∙◌, arith, inr, List, [], ◌∷◌, length,
}
use nascent_os.Prelude.Word.{sub64}
use nascent_os.Text.{str_len}
use nascent_os.Exec.{Pushed, put_string, push_strings}
use nascent_os.Exec.Written.{
  Agree, IsText, AllBelow, HoldsString, HoldsString-Agree, put_string_others, put_string_holds,
}

-- The strings stand in memory at the addresses, between `lo` and `hi`.
abbrev pub HoldsStrings : (ℕ → ℕ) → ℕ → ℕ → List ℕ → List (List ℕ) → Type 0
HoldsStrings mem lo hi [] [] = Unit
HoldsStrings mem lo hi (p ∷ ps) (s ∷ ss) =
    (lo ≤ p) × (p + length s < hi) × HoldsString mem p s × HoldsStrings mem lo hi ps ss
HoldsStrings mem lo hi _ _ = ⊥

pub HoldsStrings-Agree :
    (mem mem' : ℕ → ℕ) (lo lo' hi hi' : ℕ) (ps : List ℕ) (ss : List (List ℕ))
    → Agree mem mem' lo hi
    → lo' ≤ lo
    → hi ≤ hi'
    → HoldsStrings mem lo hi ps ss
    → HoldsStrings mem' lo' hi' ps ss
HoldsStrings-Agree mem mem' lo lo' hi hi' [] [] a l h u = tt
HoldsStrings-Agree mem mem' lo lo' hi hi' (p ∷ ps) (s ∷ ss) a l h u = (
  omega (arith, u.0),
  omega (arith, u.1),
  HoldsString-Agree mem mem' p hi s (λ b x y. a b (omega (arith, u.0)) y) u.1 u.2,
  HoldsStrings-Agree mem mem' lo lo' hi hi' ps ss a l h u.3,
)
HoldsStrings-Agree mem mem' lo lo' hi hi' [] (s ∷ ss) a l h u = absurd u
HoldsStrings-Agree mem mem' lo lo' hi hi' (p ∷ ps) [] a l h u = absurd u

-- The bytes of the strings, each with its NUL.
abbrev pub size : List (List ℕ) → ℕ
size [] = 0
size (s ∷ ss) = length s + 1 + size ss

abbrev pub AllText : List (List ℕ) → Type 0
AllText [] = Unit
AllText (s ∷ ss) = IsText s × AllText ss

str_len-IsText : (s : List ℕ) → IsText s → str_len s ≡ length s
unfolding str_len
str_len-IsText [] t = refl
str_len-IsText (c ∷ s) t = ground (arith, str_len-IsText s t.2)

pub record HasStrings (mem : ℕ → ℕ) (top unit : ℕ) (ss : List (List ℕ)) (r : Pushed) : Type 0 where
  pub place : r.user_stack + unit * size ss ≡ top
  pub strings : HoldsStrings r.mem r.user_stack top r.argv ss
  pub above : Agree mem r.mem top (2 ^ 64)
  pub below : AllBelow r.argv

pub push_strings_lem :
    (unit : ℕ) (ss : List (List ℕ)) (top : ℕ) (mem : ℕ → ℕ)
    → 0 < unit
    → AllText ss
    → unit * size ss ≤ top
    → top < 2 ^ 64
    → HasStrings mem top unit ss (push_strings unit ss top mem)
unfolding push_strings
push_strings_lem unit [] top mem u a l t = record {
  place = grind arith;
  strings = tt;
  above = λ b lo hi. refl;
  below = tt;
}
push_strings_lem unit (s ∷ ss) top mem u a l t =
    let r = push_strings unit ss top mem in
    let h = push_strings_lem unit ss top mem u a.1 (grind (arith, l)) t in
    let n : length s + 1 ≤ unit * (length s + 1) = grind (arith, u) in
    let split : unit * (length s + 1 + size ss) ≡ unit * (length s + 1) + unit * size ss =
      grind arith in
    let fits : unit * (length s + 1) ≤ r.user_stack = omega (arith, split, l, h.place) in
    let e : sub64 r.user_stack (unit * (str_len s + 1)) ≡ r.user_stack - unit * (length s + 1) =
      ap (λ k. sub64 r.user_stack (unit * (k + 1))) (str_len-IsText s a.0)
      ∙ omega (arith, fits, h.place, t) in
    let p = sub64 r.user_stack (unit * (str_len s + 1)) in
    let pe : p + unit * (length s + 1) ≡ r.user_stack = omega (arith, e, fits) in
    let others : Agree r.mem (put_string r.mem p s) r.user_stack (2 ^ 64) = λ b lo hi.
      put_string_others r.mem p b s a.0 (omega (arith, pe, n, h.place, t))
        (inr (omega (arith, pe, n, lo))) in
    record {
      place = omega (arith, pe, split, h.place);
      strings = (
        omega arith,
        omega (arith, pe, n, h.place),
        put_string_holds r.mem p s a.0 (omega (arith, pe, n, h.place, t)),
        HoldsStrings-Agree r.mem (put_string r.mem p s) r.user_stack p top top r.argv ss
            (λ b lo hi. others b lo (omega (arith, hi, t))) (omega (arith, pe)) (omega arith)
            h.strings,
      );
      above = λ b lo hi. others b (omega (arith, lo, h.place)) hi ∙ h.above b lo hi;
      below = (omega (arith, pe, h.place, t), h.below);
    }

pub length-HoldsStrings :
    (mem : ℕ → ℕ) (lo hi : ℕ) (ps : List ℕ) (ss : List (List ℕ))
    → HoldsStrings mem lo hi ps ss
    → length ps ≡ length ss
length-HoldsStrings mem lo hi [] [] u = refl
length-HoldsStrings mem lo hi (p ∷ ps) (s ∷ ss) u = ap suc (length-HoldsStrings mem lo hi ps ss u.3)
length-HoldsStrings mem lo hi [] (s ∷ ss) u = absurd u
length-HoldsStrings mem lo hi (p ∷ ps) [] u = absurd u
