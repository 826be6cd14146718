-- ===== src/Shell/Script.antt =====
-- The shell on a script: its rounds are the commands of the lines behind the first one.
use nascent_os.Prelude.{
  ℕ, zero, suc, ◌+◌, ◌<◌, ◌≡◌, refl, ap, ◌∙◌, ◌≢◌, fun_ext, List, [], ◌∷◌, ◌++◌, arith, ◌==◌, ltb,
  true, false, Option, some, length, All, length-append,
}
use mathlib.Core.Path.{subst}
use nascent_os.Env.{Env}
use nascent_os.Shell.{Prog, done, ◌then◌, run_line, Line, line_loop, line_read, script_loop}

-- A line has no NUL and no newline, and it fits the shell's line buffer with its NUL.
abbrev pub IsLine : List ℕ → Type 0
IsLine l = All (λ c. (c ≢ 0) × (c ≢ 10)) l × (length l < 100)

-- The lines, each with its newline.
unfoldable pub text_of : List (List ℕ) → List ℕ
text_of [] = []
text_of (l ∷ ls) = l ++ (10 ∷ text_of ls)

-- The buffer holds the text from `p` on, and a NUL behind it.
unfoldable pub HoldsText : (ℕ → ℕ) → ℕ → List ℕ → Type 0
HoldsText buff p [] = buff p ≡ 0
HoldsText buff p (c ∷ cs) = (buff p ≡ c) × HoldsText buff (suc p) cs

-- The lines are run one after the other.
pub run_lines : List (List ℕ) → Env → Prog (Option Env)
run_lines [] e = done (some e)
run_lines (l ∷ ls) e = run_line l e then run_lines ls

abbrev ended_line : List ℕ → ℕ → Line
ended_line l p = record { text = l; ptr1 = p; ended = true; stop = false }

newline_step :
    (n : ℕ) (buff : ℕ → ℕ) (p : ℕ)
    → buff p ≡ 10
    → p < 4096
    → line_loop (suc n) buff p ≡ ended_line [] (suc p)
unfolding line_loop
newline_step n buff p e h = let q : ltb p 4096 ≡ true = ground (arith, h) in rw (q, e) refl

nul_step :
    (n : ℕ) (buff : ℕ → ℕ) (p : ℕ)
    → buff p ≡ 0
    → p < 4096
    → line_loop (suc n) buff p ≡ record { text = []; ptr1 = p; ended = false; stop = true }
unfolding line_loop
nul_step n buff p e h = let q : ltb p 4096 ≡ true = ground (arith, h) in rw (q, e) refl

char_step :
    (n : ℕ) (buff : ℕ → ℕ) (p c : ℕ) (l : List ℕ) (p' : ℕ)
    → buff p ≡ c
    → c ≢ 0
    → c ≢ 10
    → p < 4096
    → line_loop n buff (suc p) ≡ ended_line l p'
    → line_loop (suc n) buff p ≡ ended_line (c ∷ l) p'
unfolding line_loop
char_step n buff p c l p' e z nl h r =
    let q : ltb p 4096 ≡ true = ground (arith, h) in
    let q1 : (c == 10) ≡ false = ground (arith, nl) in
    let q2 : (c == 0) ≡ false = ground (arith, z) in rw (q, e, q1, q2, r) refl

-- A line is read, and the text behind it stands at the new place.
line_loop_lem :
    (n : ℕ) (buff : ℕ → ℕ) (p : ℕ) (l rest : List ℕ)
    → HoldsText buff p (l ++ (10 ∷ rest))
    → All (λ c. (c ≢ 0) × (c ≢ 10)) l
    → length l < n
    → p + length l < 4096
    → (line_loop n buff p ≡ ended_line l (p + suc (length l)))
      × HoldsText buff (p + suc (length l)) rest
unfolding HoldsText
line_loop_lem zero buff p l rest h a f b = absurd (omega arith)
line_loop_lem (suc n) buff p [] rest h a f b =
    let e : suc p ≡ p + 1 = omega arith in
    (
      newline_step n buff p h.0 (omega (arith, b)) ∙ ap (ended_line []) e,
      subst (λ q. HoldsText buff q rest) e h.1,
    )
line_loop_lem (suc n) buff p (c ∷ cs) rest h a f b =
    let e : suc p + suc (length cs) ≡ p + suc (length (c ∷ cs)) = omega arith in
    let (r, t) =
      line_loop_lem n buff (suc p) cs rest h.1 a.1 (omega (arith, f)) (omega (arith, b)) in
    (
      char_step n buff p c cs (suc p + suc (length cs)) h.0 a.0.0 a.0.1 (omega (arith, b)) r
          ∙ ap (ended_line (c ∷ cs)) e,
      subst (λ q. HoldsText buff q rest) e t,
    )

stop_round :
    (n : ℕ) (buff : ℕ → ℕ) (p t : ℕ) (e : Env)
    → buff p ≡ 0
    → p < 4096
    → script_loop (suc n) buff p t e ≡ done (some e)
unfolding script_loop line_read
stop_round n buff p t e z h = ap (line_read (script_loop n buff) t e) (nul_step 99 buff p z h)

first_round :
    (n : ℕ) (buff : ℕ → ℕ) (p : ℕ) (l : List ℕ) (p' : ℕ) (e : Env)
    → line_loop 100 buff p ≡ ended_line l p'
    → script_loop (suc n) buff p 0 e ≡ script_loop n buff p' 1 e
unfolding script_loop line_read
first_round n buff p l p' e q = ap (line_read (script_loop n buff) 0 e) q

later_line :
    (next : ℕ → ℕ → Env → Prog (Option Env)) (t : ℕ) (e : Env) (l : List ℕ) (p : ℕ)
    → line_read next (suc t) e (ended_line l p) ≡ (run_line l e then next p (suc (suc t)))
unfolding line_read
later_line next t e l p = let h : ltb (suc (suc t)) 2 ≡ false = ground arith in rw h refl

command_round :
    (n : ℕ) (buff : ℕ → ℕ) (p t : ℕ) (l : List ℕ) (p' : ℕ) (e : Env)
    → line_loop 100 buff p ≡ ended_line l p'
    → script_loop (suc n) buff p (suc t) e ≡ (run_line l e then script_loop n buff p' (suc (suc t)))
unfolding script_loop
command_round n buff p t l p' e q =
    ap (line_read (script_loop n buff) (suc t) e) q ∙ later_line (script_loop n buff) t e l p'

commands :
    (n : ℕ) (buff : ℕ → ℕ) (p t : ℕ) (ls : List (List ℕ)) (e : Env)
    → HoldsText buff p (text_of ls)
    → All IsLine ls
    → length ls < n
    → p + length (text_of ls) < 4096
    → script_loop n buff p (suc t) e ≡ run_lines ls e
unfolding text_of HoldsText run_lines
commands zero buff p t ls e h a f b = absurd (omega arith)
commands (suc n) buff p t [] e h a f b = stop_round n buff p (suc t) e h (omega (arith, b))
commands (suc n) buff p t (l ∷ ls) e h ((chars, short), a) f b =
    let len = length-append l (10 ∷ text_of ls) in
    let (r, rest) = line_loop_lem 100 buff p l (text_of ls) h chars short (omega (arith, b, len)) in
    let p' = p + suc (length l) in
    command_round n buff p t l p' e r
    ∙ ap (λ k. run_line l e then k)
        (fun_ext (λ e1.
          commands n buff p' (suc t) ls e1 rest a (omega (arith, f)) (omega (arith, b, len))))

-- The shell on a script whose lines fit its line buffer and which, with its NUL, fits `cmd_buff`: it reads the first line,
-- runs the others in their order, each with the environment that the one before left, and ends. One round
-- more than there are lines is enough.
pub script_loop_lem :
    (n : ℕ) (buff : ℕ → ℕ) (l : List ℕ) (ls : List (List ℕ)) (e : Env)
    → HoldsText buff 0 (text_of (l ∷ ls))
    → All IsLine (l ∷ ls)
    → length (l ∷ ls) < n
    → length (text_of (l ∷ ls)) < 4096
    → script_loop n buff 0 0 e ≡ run_lines ls e
unfolding text_of
script_loop_lem zero buff l ls e h a f b = absurd (omega arith)
script_loop_lem (suc n) buff l ls e h ((chars, short), a) f b =
    let len = length-append l (10 ∷ text_of ls) in
    let (r, rest) = line_loop_lem 100 buff 0 l (text_of ls) h chars short (omega (arith, b, len)) in
    let p' = 0 + suc (length l) in
    first_round n buff 0 l p' e r
    ∙ commands n buff p' 0 ls e rest a (omega (arith, f)) (omega (arith, b, len))
