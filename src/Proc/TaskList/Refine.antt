-- ===== src/Proc/TaskList/Refine.antt =====
-- The scheduler implements the rota: `schedule` on blocks and links is `turn` on the list of tasks.
use mathlib.Core.Path.{subst}
use nascent_os.Prelude.{
  ℕ, zero, suc, ◌≤◌, ◌≡◌, refl, ap, sym, ◌∙◌, ◌≢◌, Bool, true, false, ◌||◌, Option, some, List, [],
  ◌∷◌, ◌++◌, arith, ◌==◌, length, length-append, ℕ_discrete, Bool-cases, inl, inr,
}
use nascent_os.Chain.{has, Distinct}
use nascent_os.Proc.{Proc, running, ready}
use nascent_os.Proc.TaskList.{◌>>=◌, schedule}
use nascent_os.Proc.TaskList.Queue.{state_of, IsQueue, stopped}
use nascent_os.Proc.TaskList.Fetch.{is_ready, first_ready, without_ready}
use nascent_os.Proc.TaskList.Schedule.{schedule-rotates}
use nascent_os.Proc.TaskList.Rota.{
  Rota, first, without, turn, turn_to, turn_step, turns, turns-reaches, length-without,
}

-- The state shows the rota: the list holds the waiting tasks, at least two, the current task runs and is
-- not in the list, and the ready tasks are those that can run, one of them at least.
pub record Shows (s : Proc) (r : Rota) : Type 0 where
  pub queue : IsQueue s r.waiting
  pub current : s.running_task ≡ r.current
  pub runs : state_of s r.current ≡ running
  pub outside : has r.current r.waiting ≡ false
  pub flags : (i : ℕ) → i ≢ r.current → is_ready s i ≡ r.can_run i
  pub pair : 2 ≤ length r.waiting
  pub busy : (t : ℕ) × (first r.can_run r.waiting ≡ some t)

same_first :
    (s : Proc) (c : ℕ) (p : ℕ → Bool) (xs : List ℕ)
    → ((i : ℕ) → i ≢ c → is_ready s i ≡ p i)
    → has c xs ≡ false
    → (first_ready s xs ≡ first p xs) × (without_ready s xs ≡ without p xs)
unfolding first without
same_first s c p [] h o = (refl, refl)
same_first s c p (x ∷ xs) h o =
    let ne : x ≢ c = ground arith in
    let e = h x ne in
    let (a, b) = same_first s c p xs h (ground arith) in (rw (e, a) refl, rw (e, b) refl)

first_ready-last :
    (p : ℕ → Bool) (xs : List ℕ) (c : ℕ)
    → p c ≡ true
    → (t : ℕ) × (first p (xs ++ (c ∷ [])) ≡ some t)
unfolding first
first_ready-last p [] c e = (c, rw e refl)
first_ready-last p (x ∷ xs) c e = elim (Bool-cases (p x)) [
  | inl q ↦ (x, rw q refl)
  | inr q ↦ let (t, f) = first_ready-last p xs c e in (t, rw q f)
]

has-end : (a c : ℕ) (xs : List ℕ) → has a xs ≡ false → a ≢ c → has a (xs ++ (c ∷ [])) ≡ false
has-end a c [] h n = ground arith
has-end a c (x ∷ xs) h n = ground (arith, has-end a c xs)

-- The one that is taken out of a list without repetitions is not in the rest.
gone :
    (s : Proc) (xs : List ℕ) (t : ℕ)
    → Distinct xs
    → first_ready s xs ≡ some t
    → (has t xs ≡ true) × (has t (without_ready s xs) ≡ false)
gone s [] t d e = absurd (cc)
gone s (x ∷ xs) t d e = elim (Bool-cases (is_ready s x)) [
  | inl q ↦
      let f : x ≡ t = ground arith in (ground arith, rw q (subst (λ z. has z xs ≡ false) f d.0))
  | inr q ↦
      let (a, b) = gone s xs t d.1 (ground arith) in
      let n : t ≢ x = λ f. cc (f, a, d.0) in (ground arith, rw q (ground arith))
]

turned_flags :
    (s s' : Proc) (c t : ℕ) (p : ℕ → Bool)
    → state_of s' c ≡ ready
    → ((i : ℕ) → i ≢ t → i ≢ c → state_of s' i ≡ state_of s i)
    → ((i : ℕ) → i ≢ c → is_ready s i ≡ p i)
    → (i : ℕ) → i ≢ t
    → is_ready s' i ≡ ((i == c) || p i)
turned_flags s s' c t p was others flags i n = elim (ℕ_discrete i c) [
  | yes q ↦
      let e : state_of s' i ≡ ready = ap (state_of s') q ∙ was in
      let b : (i == c) ≡ true = ground arith in rw (e, b) refl
  | no q ↦ let b : (i == c) ≡ false = ground arith in rw (others i n q, flags i q, b) refl
]

abbrev end_turn : Rota → ℕ → Rota
end_turn r t = turn_to r (some t)

Shows-turn :
    (s s' : Proc) (c t : ℕ) (w : List ℕ) (p : ℕ → Bool)
    → let r : Rota = record { current = c; waiting = w; can_run = p } in
      IsQueue s' (without p w ++ (c ∷ []))
      → s'.running_task ≡ t
      → state_of s' t ≡ running
      → has t (without p w) ≡ false
      → t ≢ c
      → ((i : ℕ) → i ≢ t → is_ready s' i ≡ ((i == c) || p i))
      → 2 ≤ suc (length (without p w))
      → Shows s' (end_turn r t)
Shows-turn s s' c t w p queue now st gt nt flags l = record {
  queue = queue;
  current = now;
  runs = st;
  outside = has-end t c (without p w) gt nt;
  flags = flags;
  pair = omega (arith, length-append (without p w) (c ∷ []), l);
  busy = first_ready-last (λ i. (i == c) || p i) (without p w) c (ground arith);
}

-- `schedule` is a turn of the rota: it ends, and shows the rota after the turn.
schedule_turns :
    (s : Proc) (w : List ℕ) (p : ℕ → Bool)
    → let r : Rota = record { current = s.running_task; waiting = w; can_run = p } in
      Shows s r → (s' : Proc) × (schedule s ≡ some s') × Shows s' (turn r)
schedule_turns s w p v =
    let c = s.running_task in
    let r : Rota = record { current = c; waiting = w; can_run = p } in
    let (t, f) = v.busy in
    let (e1, e2) = same_first s c p w v.flags v.outside in
    let l = length-without p w t f in
    let (s', runs, queue, (now, _, st), old, others) =
      schedule-rotates s w t v.queue (e1 ∙ f) v.outside (λ z. cc (v.runs, z))
        (λ z. absurd (omega (arith, l, v.pair, ap length (sym e2 ∙ z)))) in
    let (ht, gt) = gone s w t v.queue.distinct (e1 ∙ f) in
    let nt : t ≢ c = λ q. cc (q, ht, v.outside) in
    let was : state_of s' c ≡ ready = old ∙ ap stopped v.runs in
    (
      s',
      runs,
      subst (Shows s') (sym (turn_step r t f)) (
          Shows-turn s s' c t w p (subst (λ l. IsQueue s' (l ++ (c ∷ []))) e2 queue) now st
            (subst (λ l. has t l ≡ false) e2 gt) nt (turned_flags s s' c t p was others v.flags)
            (omega (arith, l, v.pair))),
    )

-- `schedule` implements the rota: in a state that shows a rota it ends, and the new state shows the rota
-- after its turn.
pub schedule-Shows :
    (s : Proc) (r : Rota) → Shows s r → (s' : Proc) × (schedule s ≡ some s') × Shows s' (turn r)
schedule-Shows s r v =
    subst (λ c. Shows s (with c) → Result (with c)) v.current (schedule_turns s r.waiting r.can_run)
      v
  where
    with : ℕ → Rota
    with c = record r { current = c }

    Result : Rota → Type 0
    Result q = (s' : Proc) × (schedule s ≡ some s') × Shows s' (turn q)

-- `n` calls of `schedule`, one after the other.
unfoldable pub rounds : ℕ → Proc → Option Proc
rounds zero s = some s
rounds (suc n) s = schedule s >>= (λ s1. rounds n s1)

-- Any number of calls of `schedule` shows as many turns of the rota.
pub rounds-Shows :
    (n : ℕ) (s : Proc) (r : Rota)
    → Shows s r
    → (s' : Proc) × (rounds n s ≡ some s') × Shows s' (turns n r)
unfolding rounds turns
rounds-Shows zero s r v = (s, refl, v)
rounds-Shows (suc n) s r v =
    let (s1, e1, v1) = schedule-Shows s r v in
    let (s2, e2, v2) = rounds-Shows n s1 (turn r) v1 in (s2, rw e1 e2, v2)

-- No ready task of the list starves: one that has `length ys` tasks before it in the list runs after at
-- most `length ys + 1` calls of `schedule`, if the tasks keep their states but for the calls, at least two
-- tasks are in the list, and the current task runs and is not in it.
pub schedule-reaches :
    (s : Proc) (r : Rota) (ys zs : List ℕ) (t : ℕ)
    → Shows s r
    → r.waiting ≡ ys ++ (t ∷ zs)
    → r.can_run t ≡ true
    → (n : ℕ) × (s' : Proc) × (n ≤ suc (length ys))
      × (rounds n s ≡ some s')
      × ((s'.running_task ≡ t) × (state_of s' t ≡ running))
schedule-reaches s r ys zs t v w e =
    let (n, le, at) = turns-reaches (suc (length ys)) r ys zs t w (omega arith) e in
    let (s', runs, v') = rounds-Shows n s r v in
    (n, s', le, runs, (v'.current ∙ at, subst (λ c. state_of s' c ≡ running) at v'.runs))
