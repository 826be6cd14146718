-- ===== src/Tarfs/Path/Parent.antt =====
-- The path of a parent directory: what `remove_d` leaves of a path that ends in "/..".
use nascent_os.Prelude.{
  ℕ, zero, suc, ◌+◌, ◌≤◌, ◌<◌, ◌≡◌, refl, ap, sym, ◌∙◌, ◌≢◌, true, false, List, [], ◌∷◌, arith, ◌-◌,
  ◌==◌, ltb, some, get_or, set, length, get_or-set_self, get_or-set_ne, length-set, ℕ_discrete,
}
use nascent_os.Text.{str_len}
use nascent_os.Tarfs.Path.{
  Cleaning, last_slash, step_back, copy_char, clean_round, clean_loop, remove_d,
}
use nascent_os.Tarfs.Path.Rounds.{at_place, SameUpTo, loop_step, loop_end, plain_loop}

str_len_at :
    (s : List ℕ) (n : ℕ) → ((k : ℕ) → k < n → get_or s k 0 ≢ 0) → get_or s n 0 ≡ 0 → str_len s ≡ n
unfolding str_len
str_len_at [] zero h z = refl
str_len_at [] (suc n) h z = absurd (h 0 (omega arith) refl)
str_len_at (c ∷ s) zero h z = let q : (c == 0) ≡ true = ground (arith, z) in rw q refl
str_len_at (c ∷ s) (suc n) h z =
    let q : (c == 0) ≡ false = ground (arith, h 0 (omega arith)) in
    rw q (ap suc (str_len_at s n (λ k l. h (suc k) (omega (arith, l))) z))

last_slash_lem :
    (b : List ℕ) (p q : ℕ)
    → q ≤ p
    → get_or b q 0 ≡ 47
    → ((k : ℕ) → q < k → k ≤ p → get_or b k 0 ≢ 47)
    → last_slash b p ≡ some q
unfolding last_slash
last_slash_lem b zero q l e h =
    let z : q ≡ 0 = omega (arith, l) in
    let t : get_or b 0 0 ≡ 47 = ap (λ k. get_or b k 0) (sym z) ∙ e in rw t (ap some (sym z))
last_slash_lem b (suc p) q l e h = elim (ℕ_discrete q (suc p)) [
  | yes z ↦
      let t : get_or b (suc p) 0 ≡ 47 = ap (λ k. get_or b k 0) (sym z) ∙ e in rw t (ap some (sym z))
  | no n ↦
      let t : (get_or b (suc p) 0 == 47) ≡ false =
        ground (arith, h (suc p) (omega (arith, l, n)) (omega arith)) in
      rw t (last_slash_lem b p q (omega (arith, l, n)) e (λ k a c. h k a (omega (arith, c))))
]

-- The first of two dots is copied like any other character, but counted.
first_dot :
    (buff b : List ℕ) (m : ℕ)
    → get_or buff m 0 ≡ 46
    → clean_round buff (at_place m 0 b)
      ≡ some (record { i = suc m; j = suc m; c = 1; b = set b m 46 })
unfolding clean_round copy_char
first_dot buff b m e = rw e refl

-- The second one, with nothing behind it.
second_dot :
    (buff b : List ℕ) (m q : ℕ)
    → 2 ≤ m
    → get_or buff (suc m) 0 ≡ 46
    → get_or buff (suc m + 1) 0 ≡ 0
    → last_slash b (suc m - 3) ≡ some q
    → clean_round buff (record { i = suc m; j = suc m; c = 1; b = b })
      ≡ some (record { i = suc m + 1; j = suc (suc q); c = 0; b = set (set b (suc q) 0) (suc q) 0 })
unfolding clean_round copy_char step_back
second_dot buff b m q l e z s =
    let h : ltb (suc m) 3 ≡ false = ground (arith, l) in
    let h1 : (suc m == 2) ≡ false = ground (arith, l) in rw (e, h1, h, s, z) (rw z refl)

remove_d_step :
    (buff b : List ℕ) (s : Cleaning)
    → clean_loop (str_len buff + 2) buff (at_place 0 0 b) ≡ some s
    → remove_d buff b ≡ some (set s.b s.j 0)
unfolding remove_d
remove_d_step buff b s e = rw e refl

-- The path: `m` characters without dots or NULs, the last one a slash, and the one before it at `q`; then
-- two dots and the NUL.
pub record IsParent (buff : List ℕ) (q m : ℕ) : Type 0 where
  pub plain : (k : ℕ) → k < m → (get_or buff k 0 ≢ 0) × (get_or buff k 0 ≢ 46)
  pub inside : q + 2 ≤ m
  pub slash : get_or buff q 0 ≡ 47
  pub name : (k : ℕ) → q < k → k + 2 ≤ m → get_or buff k 0 ≢ 47
  pub dot : get_or buff m 0 ≡ 46
  pub dots : get_or buff (suc m) 0 ≡ 46
  pub end : get_or buff (suc m + 1) 0 ≡ 0

parent_length : (buff : List ℕ) (q m : ℕ) → IsParent buff q m → str_len buff ≡ suc m + 1
parent_length buff q m p =
    str_len_at buff (suc m + 1)
      (λ k l. elim (ℕ_discrete k m) [
        | yes e ↦ λ z. absurd (omega (arith, sym (ap (λ i. get_or buff i 0) e) ∙ z, p.dot))
        | no n ↦ elim (ℕ_discrete k (suc m)) [
          | yes e ↦ λ z. absurd (omega (arith, sym (ap (λ i. get_or buff i 0) e) ∙ z, p.dots))
          | no n1 ↦ (p.plain k (omega (arith, l, n, n1))).0
        ]
      ])
      p.end

-- A path that ends in the name of a directory and "/..": what is left is the path up to the slash
-- before the name, with that slash. There are no dots before, and the local buffer has room.
pub remove_d_lem :
    (buff b : List ℕ) (q m : ℕ)
    → IsParent buff q m
    → m ≤ length b
    → (r : List ℕ) × (remove_d buff b ≡ some r)
      × ((k : ℕ) → k ≤ q → get_or r k 0 ≡ get_or buff k 0)
      × (get_or r (suc q) 0 ≡ 0)
remove_d_lem buff b q m p l =
    let (b1, e, same, len) =
      plain_loop m 4 buff b 0 (λ k h. p.plain k (omega (arith, h))) (omega (arith, l))
        (λ k h. absurd (omega (arith, h))) in
    let same1 : SameUpTo buff b1 m = λ k h. same k (omega (arith, h)) in
    let b2 = set b1 m 46 in
    let same2 : SameUpTo buff b2 m =
      λ k h. get_or-set_ne b1 m k 46 0 (λ z. omega (arith, z, h)) ∙ same1 k h in
    let found : last_slash b2 (suc m - 3) ≡ some q =
      last_slash_lem b2 (suc m - 3) q (omega (arith, p.inside))
        (same2 q (omega (arith, p.inside)) ∙ p.slash)
        (λ k a c z.
          p.name k a (omega (arith, c, p.inside))
            (sym (same2 k (omega (arith, c, p.inside))) ∙ z)) in
    let s2 : Cleaning = record { i = suc m; j = suc m; c = 1; b = b2 } in
    let b4 = set (set b2 (suc q) 0) (suc q) 0 in
    let s3 : Cleaning = record { i = suc m + 1; j = suc (suc q); c = 0; b = b4 } in
    let runs : clean_loop (str_len buff + 2) buff (at_place 0 0 b) ≡ some s3 =
      ap (λ n. clean_loop n buff (at_place 0 0 b)) (omega (arith, parent_length buff q m p))
      ∙ e
      ∙ ap (λ i. clean_loop 4 buff (at_place i 0 b1)) (omega arith)
      ∙ loop_step 3 buff (at_place m 0 b1) s2 (λ z. omega (arith, z, p.dot))
          (first_dot buff b1 m p.dot)
      ∙ loop_step 2 buff s2 s3 (λ z. omega (arith, z, p.dots))
          (second_dot buff b2 m q (omega (arith, p.inside)) p.dots p.end found)
      ∙ loop_end 1 buff s3 p.end in
    let l2 = length-set b1 m 46 in
    let l3 = length-set b2 (suc q) 0 in
    (
      set b4 (suc (suc q)) 0,
      remove_d_step buff b s3 runs,
      λ k h.
          get_or-set_ne b4 (suc (suc q)) k 0 0 (λ z. omega (arith, z, h))
          ∙ get_or-set_ne (set b2 (suc q) 0) (suc q) k 0 0 (λ z. omega (arith, z, h))
          ∙ get_or-set_ne b2 (suc q) k 0 0 (λ z. omega (arith, z, h))
          ∙ same2 k (omega (arith, h, p.inside)),
      get_or-set_ne b4 (suc (suc q)) (suc q) 0 0 (λ z. omega (arith, z))
          ∙ get_or-set_self (set b2 (suc q) 0) (suc q) 0 0
              (omega (arith, len, l2, l3, l, p.inside)),
    )
