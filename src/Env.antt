-- ===== src/Env.antt =====
-- libc/env.c: the environment of a user program. libc/strings.c has the kernel's `str_compare` and
-- `str_copy` once more. `ENV_KEY` and `ENV_VALUE` are functions from the index. As with all strings, a list that
-- becomes longer than its array is an overflow: a row of `ENV_KEY` has 150 bytes, one of `ENV_VALUE` 4096, and
-- `ENV_BUFFER` has 1024.
pub mod Update
mod Tests
use nascent_os.Prelude.{
  ℕ, zero, suc, ◌-◌, Bool, true, false, List, [], ◌∷◌, ◌==◌, if◌then◌else◌, Option, none, some,
}
use nascent_os.Text.{str_compare, str_copy}

pub record Env : Type 0 where
  pub env_key : ℕ → List ℕ
  pub env_value : ℕ → List ℕ
  pub env_array_length : ℕ
  pub env_buffer : List ℕ
  pub ps1 : List ℕ

-- The loop that both functions begin with, at index `i` and with `n` names to go.
pub find_loop : ℕ → ℕ → (ℕ → List ℕ) → List ℕ → Option ℕ
find_loop zero i keys name = none
find_loop (suc n) i keys name =
    let rest = find_loop n (suc i) keys name in
    if str_compare (keys i) name == 0 then some i else rest

abbrev pub find : Env → List ℕ → Option ℕ
find e name = find_loop e.env_array_length 0 e.env_key name

-- `ary_itr` behind the loop
abbrev pub ary_itr : Env → Option ℕ → ℕ
ary_itr e none = e.env_array_length
ary_itr e (some i) = i

-- The string that is returned, and the state.
pub getenv : Env → List ℕ → List ℕ × Env
getenv e key =
    let buffer = str_copy (e.env_value (ary_itr e (find e key))) e.env_buffer in
    if str_compare key (80 ∷ 83 ∷ 49 ∷ []) == 0
    then (e.ps1, e)
    else (buffer, record e { env_buffer = buffer })

-- A string of an array is changed.
abbrev pub put_string : (ℕ → List ℕ) → ℕ → List ℕ → ℕ → List ℕ
put_string a i s j = if j == i then s else a j

set_found : Env → List ℕ → List ℕ → Option ℕ → Env
set_found e name value (some i) = record e {
  env_value = put_string e.env_value i (str_copy value (e.env_value i));
}
set_found e name value none =
    let i = suc e.env_array_length in
    record e {
      env_key = put_string e.env_key i (str_copy name (e.env_key i));
      env_value = put_string e.env_value i (str_copy value (e.env_value i));
    }

pub setenv : Env → List ℕ → List ℕ → Env
unfolding set_found
setenv e name value = set_found e name value (find e name)
