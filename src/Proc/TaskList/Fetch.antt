-- ===== src/Proc/TaskList/Fetch.antt =====
-- `fetch_ready_task` takes the first ready task out of the list.
use mathlib.Core.Path.{subst}
use nascent_os.Prelude.{
  ℕ, zero, suc, ◌≤◌, ◌<◌, ◌≡◌, refl, ap, sym, ◌∙◌, ◌≢◌, inl, inr, Bool, true, false, Option, none,
  some, List, [], ◌∷◌, arith, ◌==◌, if◌then◌else◌, length, Bool-cases,
}
use nascent_os.Chain
use nascent_os.Chain.{Chain, Distinct, has}
use nascent_os.Proc.{
  Proc, TaskState, running, ready, sleep, wait, idle, exit, zombie, suspended, eq_state, num_pcb,
  set_state,
}
use nascent_os.Proc.TaskList.{ready_loop, unlink, fetch_found, fetch_ready_task}
use nascent_os.Proc.TaskList.Queue.{link, state_of, IsQueue}

abbrev pub is_ready : Proc → ℕ → Bool
is_ready s t = eq_state (state_of s t) ready

eq_ready : (st : TaskState) → eq_state st ready ≡ true → st ≡ ready
eq_ready ready h = refl
eq_ready running h = cc
eq_ready sleep h = cc
eq_ready wait h = cc
eq_ready idle h = cc
eq_ready exit h = cc
eq_ready zombie h = cc
eq_ready suspended h = cc

-- What the walk finds: the first ready task and the one before it.
abbrev pub find_ready : Proc → List ℕ → Option ℕ → Option ℕ × Option ℕ
find_ready s [] prev = (none, prev)
find_ready s (x ∷ xs) prev = if is_ready s x then (some x, prev) else find_ready s xs (some x)

abbrev pub first_ready : Proc → List ℕ → Option ℕ
first_ready s [] = none
first_ready s (x ∷ xs) = if is_ready s x then some x else first_ready s xs

abbrev pub without_ready : Proc → List ℕ → List ℕ
without_ready s [] = []
without_ready s (x ∷ xs) = if is_ready s x then xs else x ∷ without_ready s xs

find_ready-first :
    (s : Proc) (xs : List ℕ) (prev : Option ℕ) → (find_ready s xs prev).0 ≡ first_ready s xs
find_ready-first s [] prev = refl
find_ready-first s (x ∷ xs) prev = ground (arith, find_ready-first s xs (some x))

ready_step :
    (k : ℕ) (s : Proc) (x : ℕ) (prev : Option ℕ)
    → is_ready s x ≡ true
    → ready_loop (suc k) s (some x) prev ≡ some (some x, prev)
unfolding ready_loop
ready_step k s x prev r = ground arith

skip_step :
    (k : ℕ) (s : Proc) (x : ℕ) (prev : Option ℕ)
    → is_ready s x ≡ false
    → ready_loop (suc k) s (some x) prev ≡ ready_loop k s (link s x) (some x)
unfolding ready_loop
skip_step k s x prev n = ground arith

take_find :
    (s : Proc) (x : ℕ) (xs : List ℕ) (prev : Option ℕ)
    → is_ready s x ≡ true
    → (some x, prev) ≡ find_ready s (x ∷ xs) prev
take_find s x xs prev r = ground arith

skip_find :
    (s : Proc) (x : ℕ) (xs : List ℕ) (prev : Option ℕ)
    → is_ready s x ≡ false
    → find_ready s xs (some x) ≡ find_ready s (x ∷ xs) prev
skip_find s x xs prev n = ground arith

ready_loop-find :
    (k : ℕ) (s : Proc) (h : Option ℕ) (xs : List ℕ) (prev : Option ℕ)
    → Chain some none (link s) h xs
    → length xs < k
    → ready_loop k s h prev ≡ some (find_ready s xs prev)
unfolding ready_loop
ready_loop-find zero s h xs prev c l = absurd (omega arith)
ready_loop-find (suc k) s h [] prev c l = rw c
ready_loop-find (suc k) s h (x ∷ xs) prev c l = elim (Bool-cases (is_ready s x)) [
  | inl r ↦ rw c.0 (ready_step k s x prev r ∙ ap some (take_find s x xs prev r))
  | inr n ↦ rw c.0 (
      skip_step k s x prev n
      ∙ ready_loop-find k s (link s x) xs (some x) c.1 (omega arith)
      ∙ ap some (skip_find s x xs prev n))
]

-- The links once `t` is taken out behind `q`.
abbrev bypass : Proc → ℕ → ℕ → ℕ → Option ℕ
bypass s t q i = if i == t then none else if i == q then link s t else link s i

unlink-Chain :
    (s : Proc) (p : ℕ) (xs : List ℕ) (t q : ℕ)
    → Chain some none (link s) (link s p) xs
    → Distinct (p ∷ xs)
    → find_ready s xs (some p) ≡ (some t, some q)
    → Chain some none (bypass s t q) (bypass s t q p) (without_ready s xs)
      × (has q (p ∷ xs) ≡ true)
      × (has t xs ≡ true)
unlink-Chain s p [] t q c d e = absurd (cc)
unlink-Chain s p (y ∷ ys) t q c d e = elim (Bool-cases (is_ready s y)) [
  | inl r ↦
      let et : t ≡ y = ground arith in
      let eq : q ≡ p = ground arith in
      let go : bypass s t q p ≡ link s y = ground arith in
      let rest = Chain.frame some none (link s) (bypass s t q) (link s y) ys c.1 (λ a i.
        let ny : a ≢ y = λ f. cc (i, d.1.0, f) in
        let np : (a == p) ≡ false = ground arith in ground arith) in
      rw (r, go) (rest, ground arith, ground arith)
  | inr n ↦
      let (chain, mq, mt) = unlink-Chain s y ys t q c.1 d.1 (skip_find s y ys (some p) n ∙ e) in
      let nt : p ≢ t = λ f. ground arith in
      let nq : p ≢ q = λ f. ground arith in
      rw n ((ground (arith, c.0), chain), ground arith, ground arith)
]

-- The task found is ready, and the one before it stands in the list.
abbrev pub Fetched : Proc → List ℕ → ℕ → Proc → Type 0
Fetched s xs t s' =
    IsQueue s' (without_ready s xs)
    × (state_of s' t ≡ running)
    × ((i : ℕ) → i ≢ t → state_of s' i ≡ state_of s i)
    × ((i : ℕ) → has i xs ≡ false → link s' i ≡ link s i)

length-without_ready : (s : Proc) (xs : List ℕ) → length (without_ready s xs) ≤ length xs
length-without_ready s [] = omega arith
length-without_ready s (x ∷ xs) = ground (arith, length-without_ready s xs)

has-without_ready :
    (s : Proc) (xs : List ℕ) (a : ℕ) → has a xs ≡ false → has a (without_ready s xs) ≡ false
has-without_ready s [] a h = refl
has-without_ready s (x ∷ xs) a h = ground (arith, has-without_ready s xs a)

Distinct-without_ready : (s : Proc) (xs : List ℕ) → Distinct xs → Distinct (without_ready s xs)
Distinct-without_ready s [] d = tt
Distinct-without_ready s (x ∷ xs) d = elim (Bool-cases (is_ready s x)) [
  | inl r ↦ rw r d.1
  | inr n ↦ rw n (has-without_ready s xs x d.0, Distinct-without_ready s xs d.1)
]

unlink-Fetched :
    (s : Proc) (x : ℕ) (xs : List ℕ) (t q : ℕ)
    → IsQueue s (x ∷ xs)
    → is_ready s x ≡ false
    → find_ready s xs (some x) ≡ (some t, some q)
    → Fetched s (x ∷ xs) t (unlink (set_state s t running) t (some q))
unfolding unlink fetch_found
unlink-Fetched s x xs t q i n e =
    let s' = unlink (set_state s t running) t (some q) in
    let (chain, mq, mt) = unlink-Chain s x xs t q i.chain.1 i.distinct e in
    let same : (a : ℕ) → link s' a ≡ bypass s t q a = λ a. ground arith in
    let front : bypass s t q x ≡ link s' x = sym (same x) in
    (
      record {
        chain = rw n (
          i.chain.0,
          Chain.frame some none (bypass s t q) (link s') (link s' x) (without_ready s xs)
              (subst (λ p. Chain some none (bypass s t q) p (without_ready s xs)) front chain)
              (λ a m. same a),
        );
        distinct = Distinct-without_ready s (x ∷ xs) i.distinct;
        few = omega (arith, i.few, length-without_ready s (x ∷ xs));
      },
      ground arith,
      λ a ne. ground arith,
      λ a out.
          let nq : a ≢ q = λ f. cc (f, mq, out) in
          let nt : a ≢ t = λ f. ground arith in same a ∙ ground arith,
    )

found_behind :
    (s : Proc) (p : ℕ) (xs : List ℕ) (t : ℕ)
    → first_ready s xs ≡ some t
    → (q : ℕ) × (find_ready s xs (some p) ≡ (some t, some q))
found_behind s p [] t e = absurd (cc)
found_behind s p (x ∷ xs) t e = elim (Bool-cases (is_ready s x)) [
  | inl r ↦ (p, ground arith)
  | inr n ↦ let (q, f) = found_behind s x xs t (ground arith) in (q, ground arith)
]

fetch-find :
    (s : Proc) (xs : List ℕ)
    → IsQueue s xs
    → fetch_ready_task s ≡ some (fetch_found s (find_ready s xs none))
unfolding fetch_ready_task
fetch-find s xs i =
    let e =
      ready_loop-find (suc num_pcb) s s.overall_task_list xs none i.chain (omega (arith, i.few)) in
    ground (arith, e)

-- The list begins with a ready task: the list loses it, and the task keeps its own `next`.
pub fetch_ready_task-head :
    (s : Proc) (t : ℕ) (xs : List ℕ)
    → IsQueue s (t ∷ xs)
    → state_of s t ≡ ready
    → (s' : Proc) × (fetch_ready_task s ≡ some (t, s'))
      × Fetched s (t ∷ xs) t s'
      × ((a : ℕ) → link s' a ≡ link s a)
unfolding fetch_found unlink
fetch_ready_task-head s t xs i r =
    let s' = unlink (set_state s t running) t none in
    let e : find_ready s (t ∷ xs) none ≡ (some t, none) = ground arith in
    let same : (a : ℕ) → link s' a ≡ link s a = λ a. ground arith in
    let w : without_ready s (t ∷ xs) ≡ xs = ground arith in
    (
      s',
      fetch-find s (t ∷ xs) i ∙ ap (λ f. some (fetch_found s f)) e,
      rw w (
        record {
          chain =
              subst (λ p. Chain some none (link s') p xs) (sym (same t))
                (Chain.frame some none (link s) (link s') (link s t) xs i.chain.1 (λ a m. same a));
          distinct = i.distinct.1;
          few = omega (arith, i.few);
        },
        ground arith,
        λ a ne. ground arith,
        λ a out. same a,
      ),
      same,
    )

-- With a ready task in the list, `fetch_ready_task` ends and returns the first one: it is running now,
-- it has left the list, the others keep their order and every other task its state.
pub fetch_ready_task-first :
    (s : Proc) (xs : List ℕ) (t : ℕ)
    → IsQueue s xs
    → first_ready s xs ≡ some t
    → (s' : Proc) × (fetch_ready_task s ≡ some (t, s')) × Fetched s xs t s'
unfolding fetch_found
fetch_ready_task-first s [] t i e = absurd (cc)
fetch_ready_task-first s (x ∷ xs) t i e = elim (Bool-cases (is_ready s x)) [
  | inl r ↦
      let (s', runs, done, same) = fetch_ready_task-head s x xs i (eq_ready (state_of s x) r) in
      let ex : x ≡ t = ground arith in
      subst (λ u. (g : Proc) × (fetch_ready_task s ≡ some (u, g)) × Fetched s (x ∷ xs) u g) ex
        (s', runs, done)
  | inr n ↦
      let (q, f) = found_behind s x xs t (ground arith) in
      (
        unlink (set_state s t running) t (some q),
        fetch-find s (x ∷ xs) i
            ∙ ap (λ p. some (fetch_found s p)) (sym (skip_find s x xs none n) ∙ f),
        unlink-Fetched s x xs t q i n f,
      )
]

-- With none, the idle task is chosen, and nothing changes: not even the idle task's state.
pub fetch_ready_task-idle :
    (s : Proc) (xs : List ℕ)
    → IsQueue s xs
    → first_ready s xs ≡ none
    → fetch_ready_task s ≡ some (s.idle_task, s)
unfolding fetch_found
fetch_ready_task-idle s xs i e =
    fetch-find s xs i ∙ none_found (find_ready s xs none) (find_ready-first s xs none ∙ e)
  where
    none_found :
        (f : Option ℕ × Option ℕ) → f.0 ≡ none → some (fetch_found s f) ≡ some (s.idle_task, s)
    none_found (none, prev) h = refl
    none_found (some t, prev) h = absurd (cc)
