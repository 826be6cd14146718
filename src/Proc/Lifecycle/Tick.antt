-- ===== src/Proc/Lifecycle/Tick.antt =====
-- The timer: one second for every sleeping task of the list.
use mathlib.Core.Path.{subst, ap₂}
use nascent_os.Prelude.{
  ℕ, zero, suc, ◌+◌, ◌-◌, ◌≤◌, ◌<◌, ◌≡◌, refl, ap, sym, ◌∙◌, ◌≢◌, inl, inr, true, false, Option,
  none, some, List, [], ◌∷◌, arith, ◌==◌, if◌then◌else◌, length, Bool-cases,
}
use nascent_os.Prelude.Int.{pos, eq_ℤ, pred_ℤ}
use nascent_os.Chain
use nascent_os.Chain.{Chain, Distinct, has}
use nascent_os.Proc.{Proc, Task, ready, sleep, eq_state, num_pcb}
use nascent_os.Proc.Lifecycle.{tick, tick_loop, timer_int}
use nascent_os.Proc.TaskList.{◌>>=◌, schedule}
use nascent_os.Proc.TaskList.Queue.{link, IsQueue}

-- A task one second later.
abbrev pub aged : Task → Task
aged t =
    if eq_state t.task_state sleep
    then record t {
      sleep_sec = pred_ℤ t.sleep_sec;
      task_state = if eq_ℤ (pred_ℤ t.sleep_sec) (pos 0) then ready else t.task_state;
    }
    else t

-- One second passes for all tasks of the list.
abbrev pub second : Proc → List ℕ → Proc
second s [] = s
second s (x ∷ xs) = second (tick s x) xs

tick_self : (s : Proc) (x : ℕ) → (tick s x).pcb x ≡ aged (s.pcb x)
unfolding tick
tick_self s x = ground arith

tick-others : (s : Proc) (x i : ℕ) → i ≢ x → (tick s x).pcb i ≡ s.pcb i
unfolding tick
tick-others s x i ne = ground arith

tick-link : (s : Proc) (x i : ℕ) → link (tick s x) i ≡ link s i
unfolding tick
tick-link s x i = ground arith

tick-list : (s : Proc) (x : ℕ) → (tick s x).overall_task_list ≡ s.overall_task_list
unfolding tick
tick-list s x = ground arith

tick-Chain :
    (s : Proc) (x : ℕ) (h : Option ℕ) (xs : List ℕ)
    → Chain some none (link s) h xs
    → Chain some none (link (tick s x)) h xs
tick-Chain s x h xs c =
    Chain.frame some none (link s) (link (tick s x)) h xs c (λ i m. tick-link s x i)

tick_loop-second :
    (k : ℕ) (s : Proc) (h : Option ℕ) (xs : List ℕ)
    → Chain some none (link s) h xs
    → length xs < k
    → tick_loop k s h ≡ some (second s xs)
unfolding tick_loop
tick_loop-second zero s h xs c l = absurd (omega arith)
tick_loop-second (suc k) s h [] c l = rw c refl
tick_loop-second (suc k) s h (x ∷ xs) c l =
    rw c.0
      (tick_loop-second k (tick s x) (link s x) xs (tick-Chain s x (link s x) xs c.1) (omega arith))

second-out : (s : Proc) (xs : List ℕ) (i : ℕ) → has i xs ≡ false → (second s xs).pcb i ≡ s.pcb i
second-out s [] i out = refl
second-out s (x ∷ xs) i out =
    let ne : i ≢ x = λ e. ground arith in
    second-out (tick s x) xs i (ground arith) ∙ tick-others s x i ne

second-in :
    (s : Proc) (xs : List ℕ) (i : ℕ)
    → Distinct xs
    → has i xs ≡ true
    → (second s xs).pcb i ≡ aged (s.pcb i)
second-in s [] i d m = absurd (cc)
second-in s (x ∷ xs) i d m = elim (Bool-cases (i == x)) [
  | inl e ↦ let f : i ≡ x = ground arith in rw f (second-out (tick s x) xs x d.0 ∙ tick_self s x)
  | inr n ↦
      let ne : i ≢ x = λ e. ground arith in
      second-in (tick s x) xs i d.1 (ground arith) ∙ ap aged (tick-others s x i ne)
]

second-Chain :
    (s : Proc) (h : Option ℕ) (xs ys : List ℕ)
    → Chain some none (link s) h xs
    → Chain some none (link (second s ys)) h xs
second-Chain s h xs [] c = c
second-Chain s h xs (y ∷ ys) c = second-Chain (tick s y) h xs ys (tick-Chain s y h xs c)

second-list : (s : Proc) (xs : List ℕ) → (second s xs).overall_task_list ≡ s.overall_task_list
second-list s [] = refl
second-list s (x ∷ xs) = second-list (tick s x) xs ∙ tick-list s x

-- The nineteenth interrupt.
second_passes :
    (s : Proc) (xs : List ℕ) (time_from_reboot : ℕ)
    → IsQueue s xs
    → (s1 : Proc) × (timer_int s 18 time_from_reboot
        ≡ (schedule s1 >>= (λ s2. some ((0, suc time_from_reboot), s2))))
      × IsQueue s1 xs
      × ((i : ℕ) → has i xs ≡ true → s1.pcb i ≡ aged (s.pcb i))
      × ((i : ℕ) → has i xs ≡ false → s1.pcb i ≡ s.pcb i)
unfolding timer_int
second_passes s xs time_from_reboot q =
    let e =
      tick_loop-second (suc num_pcb) s s.overall_task_list xs q.chain (omega (arith, q.few)) in
    (
      second s xs,
      rw e refl,
      record {
        chain =
            subst (λ h. Chain some none (link (second s xs)) h xs) (sym (second-list s xs))
              (second-Chain s s.overall_task_list xs xs q.chain);
        distinct = q.distinct;
        few = q.few;
      },
      λ i m. second-in s xs i q.distinct m,
      λ i out. second-out s xs i out,
    )

bind_some {ℓ} : {A : Type ℓ} (o : Option A) → (o >>= (λ x. some x)) ≡ o
bind_some none = refl
bind_some (some x) = refl

-- A row of `n` timer interrupts, from the two counters and the state on.
pub interrupts : ℕ → (ℕ × ℕ) × Proc → Option ((ℕ × ℕ) × Proc)
interrupts zero s = some s
interrupts (suc n) s = timer_int s.1 s.0.0 s.0.1 >>= interrupts n

count_step : (s : Proc) (c t : ℕ) → c < 18 → timer_int s c t ≡ some ((suc c, t), s)
unfolding timer_int
count_step s c t l = let e : (c == 18) ≡ false = ground (arith, l) in rw e refl

counted :
    (n c : ℕ) (s : Proc) (t m : ℕ)
    → n + c ≤ 18
    → interrupts (n + m) ((c, t), s) ≡ interrupts m ((n + c, t), s)
unfolding interrupts
counted zero c s t m l = ap₂ (λ x y. interrupts x ((y, t), s)) (omega arith) (omega arith)
counted (suc n) c s t m l =
    let e : suc n + m ≡ suc (n + m) = omega arith in
    ap (λ x. interrupts x ((c, t), s)) e
    ∙ ap (λ o. o >>= interrupts (n + m)) (count_step s c t (omega (arith, l)))
    ∙ counted n (suc c) s t m (omega (arith, l))
    ∙ ap (λ x. interrupts m ((x, t), s)) (omega arith)

-- A second takes nineteen timer interrupts. After a second of which `c` interrupts have passed, the next ones
-- change nothing but the count until the nineteenth; that one counts each sleeping task of the list down by
-- one, which becomes ready when it reaches zero; all other blocks stay as they are, the list keeps its tasks and
-- its order, the walk ends, the count starts at zero again, and `schedule` goes on from there.
pub timer_int_lem :
    (s : Proc) (xs : List ℕ) (c time_from_reboot : ℕ)
    → IsQueue s xs
    → c ≤ 18
    → ((n : ℕ)
        → n + c ≤ 18
        → interrupts n ((c, time_from_reboot), s) ≡ some ((n + c, time_from_reboot), s))
      × ((s1 : Proc) × (interrupts (19 - c) ((c, time_from_reboot), s)
            ≡ (schedule s1 >>= (λ s2. some ((0, suc time_from_reboot), s2))))
          × IsQueue s1 xs
          × ((i : ℕ) → has i xs ≡ true → s1.pcb i ≡ aged (s.pcb i))
          × ((i : ℕ) → has i xs ≡ false → s1.pcb i ≡ s.pcb i))
unfolding interrupts
timer_int_lem s xs c time_from_reboot q l =
    let (s1, e, queue, ins, outs) = second_passes s xs time_from_reboot q in
    let d = 18 - c in
    let split : 19 - c ≡ d + 1 = omega (arith, l) in
    let full : d + c ≡ 18 = omega (arith, l) in
    (
      λ n h.
          ap (λ x. interrupts x ((c, time_from_reboot), s)) (omega arith)
          ∙ counted n c s time_from_reboot 0 h,
      (
        s1,
        ap (λ x. interrupts x ((c, time_from_reboot), s)) split
            ∙ counted d c s time_from_reboot 1 (omega (arith, full))
            ∙ ap (λ x. timer_int s x time_from_reboot >>= interrupts 0) full
            ∙ bind_some (timer_int s 18 time_from_reboot)
            ∙ e,
        queue,
        ins,
        outs,
      ),
    )
