-- ===== src/Proc/TaskList/Rota.antt =====
-- What `schedule` promises: a rota of tasks, without links, blocks and states. It is the abstract view of
-- the task list and the running task.
use mathlib.Core.List.{append_assoc}
use nascent_os.Prelude.{
  ℕ, zero, suc, ◌≤◌, ◌<◌, ◌≡◌, refl, ap, ◌∙◌, Bool, true, ◌||◌, Option, none, some, List, [], ◌∷◌,
  ◌++◌, arith, ◌==◌, if◌then◌else◌, length, ◌⊎◌, inl, inr, Bool-cases,
}

-- The task that runs, those that wait for their turn, and which of them can run.
pub record Rota : Type 0 where
  pub current : ℕ
  pub waiting : List ℕ
  pub can_run : ℕ → Bool

unfoldable pub first : (ℕ → Bool) → List ℕ → Option ℕ
first p [] = none
first p (x ∷ xs) = if p x then some x else first p xs

unfoldable pub without : (ℕ → Bool) → List ℕ → List ℕ
without p [] = []
without p (x ∷ xs) = if p x then xs else x ∷ without p xs

-- The first task that can run is next, and the current one goes to the end.
abbrev pub turn_to : Rota → Option ℕ → Rota
turn_to r none = r
turn_to r (some t) = record {
  current = t;
  waiting = without r.can_run r.waiting ++ (r.current ∷ []);
  can_run = λ i. (i == r.current) || r.can_run i;
}

pub turn : Rota → Rota
turn r = turn_to r (first r.can_run r.waiting)

unfoldable pub turns : ℕ → Rota → Rota
turns zero r = r
turns (suc n) r = turns n (turn r)

pub length-without :
    (p : ℕ → Bool) (xs : List ℕ) (t : ℕ)
    → first p xs ≡ some t
    → suc (length (without p xs)) ≡ length xs
unfolding first without
length-without p [] t e = absurd (cc)
length-without p (x ∷ xs) t e = ground (arith, length-without p xs t)

-- Either the task is next, or another one before it is, and it moves up.
moves_up :
    (p : ℕ → Bool) (ys zs : List ℕ) (t : ℕ)
    → p t ≡ true
    → (first p (ys ++ (t ∷ zs)) ≡ some t)
      ⊎ ((u : ℕ) × (ys' : List ℕ) × (first p (ys ++ (t ∷ zs)) ≡ some u)
          × (without p (ys ++ (t ∷ zs)) ≡ ys' ++ (t ∷ zs))
          × (suc (length ys') ≡ length ys))
unfolding first without
moves_up p [] zs t e = inl (rw e)
moves_up p (y ∷ ys) zs t e = elim (Bool-cases (p y)) [
  | inl q ↦ inr (y, ys, rw q, rw q, refl)
  | inr q ↦ elim (moves_up p ys zs t e) [
    | inl f ↦ inl (rw q f)
    | inr (u, ys', f, w, l) ↦ inr (u, y ∷ ys', rw q f, rw q (ap (λ l. y ∷ l) w), ap suc l)
  ]
]

pub turn_step :
    (r : Rota) (t : ℕ) → first r.can_run r.waiting ≡ some t → turn r ≡ turn_to r (some t)
unfolding turn
turn_step r t e = ap (turn_to r) e

-- A task that can run, with fewer than `k` others before it, gets its turn within `k` turns.
pub turns-reaches :
    (k : ℕ) (r : Rota) (ys zs : List ℕ) (t : ℕ)
    → r.waiting ≡ ys ++ (t ∷ zs)
    → length ys < k
    → r.can_run t ≡ true
    → (n : ℕ) × (n ≤ k) × ((turns n r).current ≡ t)
unfolding turns
turns-reaches zero r ys zs t w l e = absurd (omega arith)
turns-reaches (suc k) r ys zs t w l e = elim (moves_up r.can_run ys zs t e) [
  | inl f ↦
      let st = turn_step r t (ap (first r.can_run) w ∙ f) in
      (1, omega arith, ap (λ x. x.current) st)
  | inr (u, ys', f, wo, len) ↦
      let st = turn_step r u (ap (first r.can_run) w ∙ f) in
      let (n, le, eq) =
        turns-reaches k (turn r) ys' (zs ++ (r.current ∷ [])) t
          (ap (λ x. x.waiting) st
            ∙ ap (λ l. l ++ (r.current ∷ [])) (ap (without r.can_run) w ∙ wo)
            ∙ append_assoc ys' (t ∷ zs) (r.current ∷ []))
          (omega (arith, l, len)) (ap (λ x. x.can_run t) st ∙ ground (arith, e)) in
      (suc n, omega (arith, le), eq)
]
