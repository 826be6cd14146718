-- ===== src/Tarfs/Path.antt =====
-- `remove_d` and `path_sanitize` of sys/tarfs.c: a path made absolute, and its ".." taken out. A local
-- buffer is the list of its bytes, with what it holds at first as an argument. `none` is a read in front
-- of a buffer.
pub mod Rounds
pub mod Parent
mod Tests
use nascent_os.Prelude.{
  ℕ, zero, suc, ◌+◌, ◌-◌, Bool, true, false, ◌&&◌, not, List, [], ◌∷◌, ◌++◌, ◌==◌, ltb,
  if◌then◌else◌, Option, none, some, get_or, set, take, drop, replicate,
}
use nascent_os.Text.{str_len, str_copy}
use nascent_os.Proc.{Proc}
use nascent_os.Proc.TaskList.{◌>>=◌}

-- while (b[p] != '/') p--;
pub last_slash : List ℕ → ℕ → Option ℕ
last_slash b zero = if get_or b 0 0 == 47 then some 0 else none
last_slash b (suc p) =
    let before = last_slash b p in if get_or b (suc p) 0 == 47 then some (suc p) else before

-- The variables of the loop.
pub record Cleaning : Type 0 where
  pub i : ℕ
  pub j : ℕ
  pub c : ℕ
  pub b : List ℕ

-- The second dot: back to the slash before the component that is left.
pub step_back : List ℕ → Cleaning → Option Cleaning
step_back buff s = if ltb s.j 3 then none else (do
  p ← last_slash s.b (s.j - 3)
  let more = not (get_or buff (s.i + 1) 0 == 0)
  some (record {
    i = if more then s.i + 2 else s.i + 1;
    j = suc p;
    c = if more && (get_or buff (s.i + 2) 0 == 46) then 1 else 0;
    b = set s.b (suc p) 0;
  }))

-- What every round ends with.
unfoldable pub copy_char : List ℕ → Cleaning → Cleaning
copy_char buff s =
    let ch = get_or buff s.i 0 in
    record s { i = if ch == 0 then s.i else suc s.i; j = suc s.j; b = set s.b s.j ch }

-- One round at a character of the path.
unfoldable pub clean_round : List ℕ → Cleaning → Option Cleaning
unfolding step_back copy_char
clean_round buff s0 =
    let s = record s0 { c = if get_or buff s0.i 0 == 46 then suc s0.c else s0.c } in
    if s.c == 2 && not (s.i == 2)
    then (step_back buff s >>= (λ s1. some (copy_char buff s1)))
    else some (copy_char buff s)

-- while (buff[i] != '\0'), for `n` rounds at most
unfoldable pub clean_loop : ℕ → List ℕ → Cleaning → Option Cleaning
clean_loop zero buff s = none
clean_loop (suc n) buff s = elim (get_or buff s.i 0 == 0) [
  | true ↦ some s
  | false ↦ clean_round buff s >>= (λ s1. clean_loop n buff s1)
]

-- Every round but one at the end of the path moves on in it.
unfoldable pub remove_d : List ℕ → List ℕ → Option (List ℕ)
remove_d buff b =
    clean_loop (str_len buff + 2) buff (record { i = 0; j = 0; c = 0; b = b })
    >>= (λ s. some (set s.b s.j 0))

-- A string written at an offset of a buffer.
abbrev pub copy_at : List ℕ → ℕ → List ℕ → List ℕ
copy_at buff l s = take l buff ++ str_copy s (drop l buff)

-- The path from the root: the working directory of the running task, a slash, and the name.
unfoldable pub absolute : Proc → List ℕ → List ℕ → Option (List ℕ)
absolute s binary_name buff =
    let cwd = (s.pcb s.running_task).cwd in
    let l = str_len cwd in
    let b1 = str_copy cwd buff in
    if get_or binary_name 0 0 == 47
    then some (str_copy binary_name buff)
    else if l == 0
    then none
    else if not (get_or b1 (l - 1) 0 == 47)
    then some (copy_at (set b1 l 47) (suc l) binary_name)
    else some (copy_at b1 l binary_name)

-- `buff` has at least 100 bytes; `b` is the local buffer.
unfoldable pub path_sanitize : Proc → List ℕ → List ℕ → List ℕ → Option (List ℕ)
unfolding absolute
path_sanitize s binary_name buff b = do
  b1 ← absolute s binary_name buff
  b2 ← remove_d b1 b
  some (str_copy b2 (replicate 100 0 ++ drop 100 b1))
