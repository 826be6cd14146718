-- ===== src/Exec/Stack.antt =====
-- The stack of a new program: the number of arguments, their addresses, and the strings.
use mathlib.Core.Path.{subst}
use nascent_os.Prelude.{
  ℕ, ◌+◌, ◌-◌, ◌*◌, ◌^◌, ◌≤◌, ◌<◌, ◌≡◌, refl, ◌∙◌, sym, arith, inr, List, [], ◌∷◌, length, some,
  All,
}
use nascent_os.Text.{str_len}
use nascent_os.Prelude.Word.{sub64}
use nascent_os.Exec.{push_strings, push_word, push_words, gap, copy_arg_to_stack}
use nascent_os.Exec.Strings.{
  HoldsStrings, HoldsStrings-Agree, size, AllText, push_strings_lem, length-HoldsStrings,
}
use nascent_os.Exec.Written.{
  AllBelow, read_word, Agree, put_word_others, read_word-put_word, HoldsWords, HoldsWords_agree,
}

-- What words that are pushed leave: the stack pointer and the words there, and the bytes above as they were.
pub record HasWords (mem : ℕ → ℕ) (top : ℕ) (ws : List ℕ) (r : ℕ × (ℕ → ℕ)) : Type 0 where
  pub place : r.0 + 8 * length ws ≡ top
  pub words : HoldsWords r.1 r.0 ws
  pub above : Agree mem r.1 top (2 ^ 64)

push_word_lem :
    (w p : ℕ) (mem : ℕ → ℕ)
    → w < 2 ^ 64
    → 8 ≤ p
    → p < 2 ^ 64
    → let r = push_word w (p, mem) in
      (r.0 + 8 ≡ p) × (read_word 8 r.1 r.0 ≡ w) × Agree mem r.1 p (2 ^ 64)
unfolding push_word
push_word_lem w p mem h l t =
    let e : sub64 p 8 ≡ p - 8 = omega arith in
    rw e (
      omega arith,
      read_word-put_word 8 mem (p - 8) w (omega arith) (omega (arith, h)),
      λ b lo hi. put_word_others 8 mem (p - 8) w b (omega arith) (inr (omega arith)),
    )

push_words_lem :
    (ws : List ℕ) (top : ℕ) (mem : ℕ → ℕ)
    → AllBelow ws
    → 8 * length ws ≤ top
    → top < 2 ^ 64
    → HasWords mem top ws (push_words ws (top, mem))
unfolding push_words
push_words_lem [] top mem a l t = record {
  place = omega arith;
  words = tt;
  above = λ b lo hi. refl;
}
push_words_lem (w ∷ ws) top mem a l t =
    let r = push_words ws (top, mem) in
    let h = push_words_lem ws top mem a.1 (omega (arith, l)) t in
    let (place, word, above) =
      push_word_lem w r.0 r.1 a.0 (omega (arith, h.place, l)) (omega (arith, h.place)) in
    record {
      place = omega (arith, place, h.place);
      words = (
        word,
        subst (λ p. HoldsWords (push_word w r).1 p ws) (sym place)
            (HoldsWords_agree r.1 (push_word w r).1 r.0 (2 ^ 64) ws above (omega (arith, h.place))
              h.words),
      );
      above = λ b lo hi. above b (omega (arith, h.place)) hi ∙ h.above b lo hi;
    }

-- The stack of a new program: at the stack pointer the number of arguments, behind it their addresses, and at
-- these the strings, each with its NUL; behind a gap of eight words the same for the environment. All
-- bytes from `top` on are as they were. The strings and the rest have to fit below `top`, no string holds a NUL, and
-- the kernel's arrays have to hold them: there are ten arguments and ten strings of the environment at most, and an
-- argument has less than 100 characters.
pub copy_arg_to_stack_lem :
    (mem : ℕ → ℕ) (top : ℕ) (args envs : List (List ℕ))
    → AllText args
    → AllText envs
    → (length args ≤ 10) × (length envs ≤ 10)
    → All (λ s. str_len s < 100) args
    → 64 + 8 * size envs + size args + 64 + 8 * length envs + 64 + 8 * length args + 8 ≤ top
    → top < 2 ^ 64
    → let (sp, mem') = copy_arg_to_stack mem top args (some envs) in
      (ptrs : List ℕ) × (env_ptrs : List ℕ) × (read_word 8 mem' sp ≡ length args)
      × HoldsWords mem' (sp + 8) ptrs
      × HoldsWords mem' (sp + 8 + 8 * length args + 64) env_ptrs
      × HoldsStrings mem' sp top ptrs args
      × HoldsStrings mem' sp top env_ptrs envs
      × Agree mem mem' top (2 ^ 64)
unfolding copy_arg_to_stack
copy_arg_to_stack_lem mem top args envs ta te few short l t =
    let t0 = gap top in
    let g0 : t0 + 64 ≡ top = omega (arith, l, t) in
    let env = push_strings 8 envs t0 mem in
    let he =
      push_strings_lem 8 envs t0 mem (omega arith) te (omega (arith, g0, l))
        (omega (arith, g0, t)) in
    let arg = push_strings 1 args env.user_stack env.mem in
    let ha =
      push_strings_lem 1 args env.user_stack env.mem (omega arith) ta
        (omega (arith, g0, l, he.place)) (omega (arith, g0, t, he.place)) in
    let ne = length-HoldsStrings env.mem env.user_stack t0 env.argv envs he.strings in
    let na = length-HoldsStrings arg.mem arg.user_stack env.user_stack arg.argv args ha.strings in
    let t1 = gap arg.user_stack in
    let g1 : t1 + 64 ≡ arg.user_stack = omega (arith, g0, t, l, he.place, ha.place) in
    let w1 = push_words env.argv (t1, arg.mem) in
    let h1 =
      push_words_lem env.argv t1 arg.mem he.below
        (omega (arith, g0, g1, t, l, he.place, ha.place, ne))
        (omega (arith, g0, g1, t, he.place, ha.place)) in
    let t2 = gap w1.0 in
    let g2 : t2 + 64 ≡ w1.0 = omega (arith, g0, g1, t, l, he.place, ha.place, h1.place, ne) in
    let w2 = push_words arg.argv (t2, w1.1) in
    let h2 =
      push_words_lem arg.argv t2 w1.1 ha.below
        (omega (arith, g0, g1, g2, t, l, he.place, ha.place, h1.place, ne, na))
        (omega (arith, g0, g1, g2, t, he.place, ha.place, h1.place)) in
    let r = push_word (length args) w2 in
    let (place, word, above) =
      push_word_lem (length args) w2.0 w2.1 (omega (arith, l, t))
        (omega (arith, g0, g1, g2, t, l, he.place, ha.place, h1.place, h2.place, ne, na))
        (omega (arith, g0, g1, g2, t, he.place, ha.place, h1.place, h2.place)) in
    let a2 : Agree w1.1 r.1 t2 (2 ^ 64) =
      λ b lo hi. above b (omega (arith, lo, h2.place)) hi ∙ h2.above b lo hi in
    let a1 : Agree arg.mem r.1 t1 (2 ^ 64) =
      λ b lo hi. a2 b (omega (arith, lo, h1.place, g2)) hi ∙ h1.above b lo hi in
    let a0 : Agree env.mem r.1 env.user_stack (2 ^ 64) =
      λ b lo hi. a1 b (omega (arith, lo, ha.place, g1)) hi ∙ ha.above b lo hi in
    (
      arg.argv,
      env.argv,
      word,
      subst (λ p. HoldsWords r.1 p arg.argv) (sym place)
          (HoldsWords_agree w2.1 r.1 w2.0 (2 ^ 64) arg.argv above
            (omega (arith, h2.place, g2, g1, g0, h1.place, ha.place, he.place, t)) h2.words),
      subst (λ p. HoldsWords r.1 p env.argv) (omega (arith, place, h2.place, g2, na))
          (HoldsWords_agree w1.1 r.1 w1.0 (2 ^ 64) env.argv
            (λ b lo hi. a2 b (omega (arith, lo, g2)) hi)
            (omega (arith, h1.place, g1, g0, ha.place, he.place, t)) h1.words),
      HoldsStrings-Agree arg.mem r.1 arg.user_stack r.0 env.user_stack top arg.argv args
          (λ b lo hi. a1 b (omega (arith, lo, g1)) (omega (arith, hi, he.place, g0, t)))
          (omega (arith, place, h2.place, g2, h1.place, g1)) (omega (arith, he.place, g0))
          ha.strings,
      HoldsStrings-Agree env.mem r.1 env.user_stack r.0 t0 top env.argv envs
          (λ b lo hi. a0 b lo (omega (arith, hi, g0, t)))
          (omega (arith, place, h2.place, g2, h1.place, g1, ha.place)) (omega (arith, g0))
          he.strings,
      λ b lo hi. a0 b (omega (arith, lo, he.place, g0)) hi ∙ he.above b (omega (arith, lo, g0)) hi,
    )
