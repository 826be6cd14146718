-- ===== src/Env/Tests.antt =====
-- An environment with the variables A and B.
use nascent_os.Prelude.{
  ℕ, zero, suc, ◌<◌, ap, replicate, length, inl, inr, Bool-cases, arith, ◌≡◌, refl, false, some, [],
  ◌∷◌, ◌==◌, if◌then◌else◌,
}
use nascent_os.Text.{chars, str_compare, differ, str_len}
use nascent_os.Env.{Env, find, find_loop, getenv, setenv}
use nascent_os.Env.Update.{IsSized, getenv-setenv}

abbrev two : Env
two = record {
  env_key = λ i.
      if i == 0
      then 65 ∷ replicate 149 0
      else if i == 1
      then 66 ∷ replicate 149 0
      else replicate 150 0;
  env_value = λ i. 49 ∷ 50 ∷ replicate 4094 0;
  env_array_length = 2;
  env_buffer = replicate 1024 0;
  ps1 = [];
}

length-replicate : (n x : ℕ) → length (replicate n x) ≡ n
length-replicate zero x = refl
length-replicate (suc n) x = ap suc (length-replicate n x)

two-IsSized : IsSized two
two-IsSized = record {
  buffer = length-replicate 1024 0;
  values = λ i l. ap (λ n. suc (suc n)) (length-replicate 4094 0);
  keys = λ i l. elim (Bool-cases (i == 0)) [
    | inl e ↦ rw e (ap suc (length-replicate 149 0))
    | inr e ↦ elim (Bool-cases (i == 1)) [
      | inl q ↦ rw (e, q) (ap suc (length-replicate 149 0))
      | inr q ↦ rw (e, q) (length-replicate 150 0)
    ]
  ];
}

found : find two (66 ∷ 0 ∷ []) ≡ some 1
unfolding find_loop str_compare differ str_len
found = refl

not_prompt : (str_compare (66 ∷ 0 ∷ []) (80 ∷ 83 ∷ 49 ∷ []) == 0) ≡ false
unfolding str_compare differ str_len
not_prompt = refl

short : str_len (55 ∷ 0 ∷ []) < 1024
unfolding str_len
short = omega arith

getenv-setenv_example :
    let e = setenv two (66 ∷ 0 ∷ []) (55 ∷ 0 ∷ []) in
    (chars (getenv e (66 ∷ 0 ∷ [])).0 ≡ 55 ∷ []) × IsSized e × IsSized (getenv e (66 ∷ 0 ∷ [])).1
getenv-setenv_example =
    getenv-setenv two (66 ∷ 0 ∷ []) (55 ∷ 0 ∷ []) 1 two-IsSized found not_prompt short
