-- ===== src/Shell.antt =====
-- bin/sbush/sbush.c: the shell. What it does is a tree of the calls that it makes of the C library and the
-- kernel, each with what follows for every reply. A row of `final_parsed_array` is the list of its bytes, the
-- environment that of libc/env.c, whose code the shell has once more.
pub mod Script
mod Tests
use nascent_os.Prelude.{
  ℕ, zero, suc, ◌+◌, ◌*◌, ◌-◌, List, [], ◌∷◌, ◌++◌, Bool, true, false, ◌==◌, ◌&&◌, ltb, not,
  if◌then◌else◌, Option, none, some, get_or, map,
}
use nascent_os.Prelude.Int.{ℤ, pos, negsuc, eq_ℤ}
use nascent_os.Text.{chars, str_compare, str_copy}
use nascent_os.Text.Split.{split_and_count}
use nascent_os.Env.{Env, getenv, setenv}
use nascent_os.Chain.{counting}

pub data Call : Type 0 where
  fork : Call
  execvp : List (List ℕ) → Call
  waitpid : ℤ → Call
  chdir : List ℕ → Call
  getcwd : Call
  puts : List ℕ → Call
  printf : List ℕ → Call
  gets : Call
  exit : Call

-- The number that a call returns, and the text that it gives.
pub record Reply : Type 0 where
  pub value : ℤ
  pub text : Option (List ℕ)

pub data Prog {ℓ} (A : Type ℓ) : Type ℓ where
  done : A → Prog A
  ask : Call → (Reply → Prog A) → Prog A

infixl 5 ◌then◌
pub ◌then◌ {ℓ κ} : {A : Type ℓ} {B : Type κ} → Prog A → (A → Prog B) → Prog B
done a then f = f a
ask c k then f = ask c (λ r. k r then f)

-- The arguments, and whether the last one asks for the background: `n` rows from `i` on.
pub make_args : ℕ → ℕ → (ℕ → List ℕ) → Bool × List (List ℕ)
make_args zero i rows = (false, [])
make_args (suc n) i rows =
    let (background, args) = make_args n (suc i) rows in
    if n == 0 && get_or (rows i) 0 0 == 38 then (true, []) else (background, rows i ∷ args)

-- "ERROR: Failed to execute command."
abbrev failed : List ℕ
failed =
    b'E' ∷ b'R' ∷ b'R' ∷ b'O' ∷ b'R' ∷ b':' ∷ b' ' ∷ b'F' ∷ b'a' ∷ b'i' ∷ b'l' ∷ b'e' ∷ b'd' ∷ b' '
    ∷ b't' ∷ b'o' ∷ b' ' ∷ b'e' ∷ b'x' ∷ b'e' ∷ b'c' ∷ b'u' ∷ b't' ∷ b'e' ∷ b' ' ∷ b'c' ∷ b'o'
    ∷ b'm' ∷ b'm' ∷ b'a' ∷ b'n' ∷ b'd' ∷ 46 ∷ []

waited : Bool → ℤ → Prog ℤ
waited true pid = done (pos 0)
waited false pid = ask (waitpid pid) (λ r. done (pos 0))

-- The child runs the command; the parent waits for it, unless it is in the background.
forked : Bool → List (List ℕ) → ℤ → Prog ℤ
unfolding waited
forked background args (pos zero) = ask (execvp args) (λ r. done r.value)
forked background args (pos (suc n)) = waited background (pos (suc n))
forked background args (negsuc n) = ask (puts failed) (λ r. done (pos 0))

pub run_command : (ℕ → List ℕ) → ℕ → Prog ℤ
unfolding forked make_args
run_command rows args_num =
    let (background, args) = make_args args_num 0 rows in
    ask fork (λ r. forked background args r.value)

-- "ERROR: Failed To Change Directory 2"
abbrev no_directory : List ℕ
no_directory =
    b'E' ∷ b'R' ∷ b'R' ∷ b'O' ∷ b'R' ∷ b':' ∷ b' ' ∷ b'F' ∷ b'a' ∷ b'i' ∷ b'l' ∷ b'e' ∷ b'd' ∷ b' '
    ∷ b'T' ∷ b'o' ∷ b' ' ∷ b'C' ∷ b'h' ∷ b'a' ∷ b'n' ∷ b'g' ∷ b'e' ∷ b' ' ∷ b'D' ∷ b'i' ∷ b'r'
    ∷ b'e' ∷ b'c' ∷ b't' ∷ b'o' ∷ b'r' ∷ b'y' ∷ b' ' ∷ b'2' ∷ []

-- "ERROR: Could Not Find CWD"
abbrev no_cwd : List ℕ
no_cwd =
    b'E' ∷ b'R' ∷ b'R' ∷ b'O' ∷ b'R' ∷ b':' ∷ b' ' ∷ b'C' ∷ b'o' ∷ b'u' ∷ b'l' ∷ b'd' ∷ b' ' ∷ b'N'
    ∷ b'o' ∷ b't' ∷ b' ' ∷ b'F' ∷ b'i' ∷ b'n' ∷ b'd' ∷ b' ' ∷ b'C' ∷ b'W' ∷ b'D' ∷ []

-- The bytes of a row
abbrev row : (ℕ → ℕ) → ℕ → List ℕ
row a b = map (λ i. a (150 * b + i)) (counting 150 [])

-- cd; what is printed is the state's business no more.
change_dir : List ℕ → Env → Prog (ℤ × Env)
change_dir path e = ask (chdir path) (λ r.
    if eq_ℤ r.value (pos 0)
    then done (pos 0, e)
    else ask (puts no_directory) (λ r1. done (pos 0, e)))

-- pwd
shown : Option (List ℕ) → Call
shown none = puts no_cwd
shown (some cwd) = printf (chars cwd ++ (10 ∷ []))

print_cwd : Env → Prog (ℤ × Env)
unfolding shown
print_cwd e = ask getcwd (λ r. ask (shown r.text) (λ r1. done (pos 0, e)))

-- export
export_var : List ℕ → Env → Env
export_var text e =
    let split = (split_and_count text 61 (λ i. 0)).1 in
    let e1 = setenv e (row split 0) (row split 1) in
    if str_compare (row split 0) (b'P' ∷ b'S' ∷ b'1' ∷ []) == 0
    then record e1 { ps1 = str_copy (row split 1) e1.ps1 }
    else e1

-- getenv
print_var : List ℕ → Env → Prog (ℤ × Env)
print_var name e =
    let (value, e1) = getenv e name in ask (puts (chars value)) (λ r. done (pos 0, e1))

-- The value that is returned, and the environment. An empty first word is a command like any other. The local
-- array of `export` is all NUL at first here; the source does not initialise it.
pub command_handler : (ℕ → List ℕ) → ℕ → Env → Prog (ℤ × Env)
unfolding change_dir print_cwd export_var print_var run_command
command_handler rows args_num e =
    if str_compare (rows 0) (b'e' ∷ b'x' ∷ b'i' ∷ b't' ∷ []) == 0
    then ask exit (λ r. done (pos 0, e))
    else if str_compare (rows 0) (b'c' ∷ b'd' ∷ []) == 0
    then change_dir (rows 1) e
    else if str_compare (rows 0) (b'p' ∷ b'w' ∷ b'd' ∷ []) == 0
    then print_cwd e
    else if str_compare (rows 0) (b'e' ∷ b'x' ∷ b'p' ∷ b'o' ∷ b'r' ∷ b't' ∷ []) == 0
    then done (pos 0, export_var (rows 1) e)
    else if str_compare (rows 0) (b'g' ∷ b'e' ∷ b't' ∷ b'e' ∷ b'n' ∷ b'v' ∷ []) == 0
    then print_var (rows 1) e
    else (run_command rows args_num then (λ v. done (v, e)))

-- "Wrong command. Please try again.\n"
abbrev wrong_command : List ℕ
wrong_command =
    b'W' ∷ b'r' ∷ b'o' ∷ b'n' ∷ b'g' ∷ b' ' ∷ b'c' ∷ b'o' ∷ b'm' ∷ b'm' ∷ b'a' ∷ b'n' ∷ b'd' ∷ 46
    ∷ b' ' ∷ b'P' ∷ b'l' ∷ b'e' ∷ b'a' ∷ b's' ∷ b'e' ∷ b' ' ∷ b't' ∷ b'r' ∷ b'y' ∷ b' ' ∷ b'a'
    ∷ b'g' ∷ b'a' ∷ b'i' ∷ b'n' ∷ 46 ∷ 10 ∷ []

after_command : ℤ × Env → Prog Env
after_command (ret, e) =
    if eq_ℤ ret (negsuc 0) then ask (printf wrong_command) (λ r. done e) else done e

-- The end of a round of `main`, with the line that was read.
pub run_line : List ℕ → Env → Prog Env
unfolding command_handler after_command
run_line line e =
    let (cnt, a) = split_and_count line 32 (λ i. 0) in
    let command = command_handler (row a) (suc cnt) e then after_command in
    if str_compare line [] == 0 then done e else command

-- What the inner loop of `main` leaves: the line (of no use if it stops), the place in `cmd_buff`, whether `t` was incremented, and `c`.
pub record Line : Type 0 where
  pub text : List ℕ
  pub ptr1 : ℕ
  pub ended : Bool
  pub stop : Bool

abbrev with_char : ℕ → Line → Line
with_char ch l = record l { text = ch ∷ l.text }

-- while ((ptr1 < CMD_BUFF_SIZE) && (i < INPUT_STRING_BUFFER_LENGTH)), in `n` rounds at most
pub line_loop : ℕ → (ℕ → ℕ) → ℕ → Line
line_loop zero cmd_buff ptr1 = record { text = []; ptr1 = ptr1; ended = false; stop = false }
line_loop (suc n) cmd_buff ptr1 =
    let rest = line_loop n cmd_buff (suc ptr1) in
    if not (ltb ptr1 4096)
    then record { text = []; ptr1 = ptr1; ended = false; stop = false }
    else if cmd_buff ptr1 == 10
    then record { text = []; ptr1 = suc ptr1; ended = true; stop = false }
    else if cmd_buff ptr1 == 0
    then record { text = []; ptr1 = ptr1; ended = false; stop = true }
    else with_char (cmd_buff ptr1) rest

-- What a round of `main` does with the line; `next` are the rounds from a place on. The first line is read but
-- not run.
pub line_read : (ℕ → ℕ → Env → Prog (Option Env)) → ℕ → Env → Line → Prog (Option Env)
unfolding run_line
line_read next t e line =
    let t1 = if line.ended then suc t else t in
    if line.stop
    then done (some e)
    else if ltb t1 2
    then next line.ptr1 t1 e
    else (run_line line.text e then next line.ptr1 t1)

-- The rounds of `main` over a script, `n` of them at most.
pub script_loop : ℕ → (ℕ → ℕ) → ℕ → ℕ → Env → Prog (Option Env)
unfolding line_loop line_read
script_loop zero cmd_buff ptr1 t e = done none
script_loop (suc n) cmd_buff ptr1 t e =
    line_read (script_loop n cmd_buff) t e (line_loop 100 cmd_buff ptr1)

-- A round of `main` at the keyboard: the prompt, a line and its command. `none` is a reply without a text.
pub read_line : Option (List ℕ) → Env → Prog (Option Env)
read_line none e = done none
read_line (some line) e = run_line line e then (λ e1. done (some e1))

pub prompt_round : Env → Prog (Option Env)
unfolding read_line
prompt_round e = ask (printf (chars e.ps1)) (λ r. ask gets (λ r1. read_line r1.text e))
