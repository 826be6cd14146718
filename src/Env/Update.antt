-- ===== src/Env/Update.antt =====
-- A variable that exists is changed by `setenv`; a new one is not found afterwards.
use nascent_os.Prelude.{
  ℕ, ◌<◌, ◌≡◌, refl, ap, sym, ◌∙◌, false, length, ℕ_discrete, List, [], ◌∷◌, ◌==◌, arith, some,
}
use mathlib.Core.Path.{subst}
use nascent_os.Text.{chars, str_len, str_compare, str_copy}
use nascent_os.Text.Compare.{str_str_len-eq-length}
use nascent_os.Text.Copy.{chars-str_copy, length-str_copy}
use nascent_os.Env.{Env, find, ary_itr, getenv, put_string, set_found, setenv}

set_old :
    (e : Env) (name value : List ℕ) (i : ℕ)
    → find e name ≡ some i
    → setenv e name value
      ≡ record e { env_value = put_string e.env_value i (str_copy value (e.env_value i)) }
unfolding setenv set_found
set_old e name value i f = ap (set_found e name value) f

get_named :
    (e : Env) (name : List ℕ)
    → (str_compare name (80 ∷ 83 ∷ 49 ∷ []) == 0) ≡ false
    → (getenv e name).0 ≡ str_copy (e.env_value (ary_itr e (find e name))) e.env_buffer
unfolding getenv
get_named e name n = rw n refl

-- The arrays have the sizes that the source gives them.
pub record IsSized (e : Env) : Type 0 where
  pub buffer : length e.env_buffer ≡ 1024
  pub values : (i : ℕ) → i < 150 → length (e.env_value i) ≡ 4096
  pub keys : (i : ℕ) → i < 150 → length (e.env_key i) ≡ 150

fits_row : (s t : List ℕ) (n : ℕ) → length t ≡ n → str_len s < n → length (str_copy s t) ≡ n
fits_row s t n l h = length-str_copy s t ∙ omega (arith, l, h)

setenv-IsSized :
    (e : Env) (name value : List ℕ) (i : ℕ)
    → IsSized e
    → find e name ≡ some i
    → str_len value < 4096
    → IsSized (setenv e name value)
setenv-IsSized e name value i z f l =
    subst IsSized (sym (set_old e name value i f))
      (record { buffer = z.buffer; values = rows; keys = z.keys })
  where
    v : List ℕ
    v = str_copy value (e.env_value i)

    rows : (j : ℕ) → j < 150 → length (put_string e.env_value i v j) ≡ 4096
    rows j h = elim (ℕ_discrete j i) [
      | yes q ↦
          let at : put_string e.env_value i v j ≡ v = ground (arith, q) in
          let room : i < 150 = omega (arith, q, h) in
          ap length at ∙ fits_row value (e.env_value i) 4096 (z.values i room) l
      | no n ↦
          let at : put_string e.env_value i v j ≡ e.env_value j = ground (arith, n) in
          ap length at ∙ z.values j h
    ]

getenv_state :
    (e : Env) (name : List ℕ)
    → (str_compare name (80 ∷ 83 ∷ 49 ∷ []) == 0) ≡ false
    → (getenv e name).1
      ≡ record e { env_buffer = str_copy (e.env_value (ary_itr e (find e name))) e.env_buffer }
unfolding getenv
getenv_state e name n = rw n refl

str_len-chars : (s t : List ℕ) → chars s ≡ chars t → str_len s ≡ str_len t
str_len-chars s t e = str_str_len-eq-length s ∙ ap length e ∙ sym (str_str_len-eq-length t)

-- After `setenv` of a variable that exists, other than PS1, `getenv` returns the new value, and no array of the
-- environment overflows, if the value and its NUL fit into `ENV_BUFFER`, of 1024 bytes.
pub getenv-setenv :
    (e : Env) (name value : List ℕ) (i : ℕ)
    → IsSized e
    → find e name ≡ some i
    → (str_compare name (80 ∷ 83 ∷ 49 ∷ []) == 0) ≡ false
    → str_len value < 1024
    → (chars (getenv (setenv e name value) name).0 ≡ chars value)
      × IsSized (setenv e name value)
      × IsSized (getenv (setenv e name value) name).1
getenv-setenv e name value i z f n l =
    let v = str_copy value (e.env_value i) in
    let e1 = record e { env_value = put_string e.env_value i v } in
    let z1 = setenv-IsSized e name value i z f (omega (arith, l)) in
    let z2 : IsSized e1 = subst IsSized (set_old e name value i f) z1 in
    let at : put_string e.env_value i v i ≡ v = ground arith in
    let stored : put_string e.env_value i v (ary_itr e1 (find e name)) ≡ v =
      ap (λ r. put_string e.env_value i v (ary_itr e1 r)) f ∙ at in
    let len : str_len v ≡ str_len value =
      str_len-chars v value (chars-str_copy value (e.env_value i)) in
    let z3 : IsSized (record e1 { env_buffer = str_copy v e.env_buffer }) = record {
      buffer = fits_row v e.env_buffer 1024 z.buffer (omega (arith, len, l));
      values = z2.values;
      keys = z2.keys;
    } in
    (
      ap (λ g. chars (getenv g name).0) (set_old e name value i f)
          ∙ ap chars (get_named e1 name n)
          ∙ chars-str_copy (put_string e.env_value i v (ary_itr e1 (find e name))) e.env_buffer
          ∙ ap chars stored
          ∙ chars-str_copy value (e.env_value i),
      z1,
      subst (λ g. IsSized (getenv g name).1) (sym (set_old e name value i f))
          (subst IsSized (sym (getenv_state e1 name n)) (
            subst (λ w. IsSized (record e1 { env_buffer = str_copy w e.env_buffer })) (sym stored)
              z3)),
    )
