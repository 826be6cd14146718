-- ===== src/Chain.antt =====
-- Singly linked lists threaded through an array: the shape of the kernel's free lists and of its
-- task list. A node is an index; `emb` is the pointer to it, `stop` the NULL.
use mathlib.Core.Path.{subst}
use nascent_os.Prelude.{
  ℕ, zero, suc, ◌<◌, ◌≡◌, refl, sym, ◌≢◌, Bool, true, false, ◌||◌, List, [], ◌∷◌, ◌++◌, arith, ◌==◌,
}

abbrev pub has : ℕ → List ℕ → Bool
has a [] = false
has a (x ∷ xs) = (a == x) || has a xs

abbrev pub Distinct : List ℕ → Type 0
Distinct [] = Unit
Distinct (x ∷ xs) = (has x xs ≡ false) × Distinct xs

-- From the pointer `h` the links `nx` lead through the nodes of the list to `stop`.
abbrev pub Chain {ℓ} : {P : Type ℓ} → (ℕ → P) → P → (ℕ → P) → P → List ℕ → Type ℓ
Chain emb stop nx h [] = h ≡ stop
Chain emb stop nx h (x ∷ xs) = (h ≡ emb x) × Chain emb stop nx (nx x) xs

pub has-append : (a : ℕ) (xs ys : List ℕ) → has a (xs ++ ys) ≡ (has a xs || has a ys)
has-append a [] ys = refl
has-append a (x ∷ xs) ys = ground (arith, has-append a xs ys)

pub Distinct-snoc :
    (xs : List ℕ) (a : ℕ) → Distinct xs → has a xs ≡ false → Distinct (xs ++ (a ∷ []))
Distinct-snoc [] a d h = (refl, tt)
Distinct-snoc (x ∷ xs) a d h =
    (ground (arith, has-append x xs (a ∷ [])), Distinct-snoc xs a d.1 (ground arith))

-- The last node of a list that is not empty.
abbrev pub last : ℕ → List ℕ → ℕ
last x [] = x
last x (y ∷ ys) = last y ys

pub last_mem : (x : ℕ) (xs : List ℕ) → has (last x xs) (x ∷ xs) ≡ true
last_mem x [] = ground arith
last_mem x (y ∷ ys) = ground (arith, last_mem y ys)

module _ {ℓ} {P : Type ℓ} (emb : ℕ → P) (stop : P) where
  -- A change of links outside the list leaves the list as it is.
  pub frame :
      (nx nx' : ℕ → P) (h : P) (xs : List ℕ)
      → Chain emb stop nx h xs
      → ((a : ℕ) → has a xs ≡ true → nx' a ≡ nx a)
      → Chain emb stop nx' h xs
  frame nx nx' h [] c same = c
  frame nx nx' h (x ∷ xs) c same =
      let e : nx' x ≡ nx x = same x (ground arith) in
      (
        c.0,
        subst (λ p. Chain emb stop nx' p xs) (sym e)
            (frame nx nx' (nx x) xs c.1 (λ a i. same a (ground arith))),
      )

  -- Linking a new node behind the last one appends it.
  pub snoc :
      (nx nx' : ℕ → P) (h : P) (x : ℕ) (xs : List ℕ) (a : ℕ)
      → Chain emb stop nx h (x ∷ xs)
      → Distinct (x ∷ xs)
      → nx' a ≡ stop
      → nx' (last x xs) ≡ emb a
      → ((b : ℕ) → has b (x ∷ xs) ≡ true → b ≢ last x xs → nx' b ≡ nx b)
      → Chain emb stop nx' h (x ∷ xs ++ (a ∷ []))
  snoc nx nx' h x [] a c d ha hl same = (c.0, (hl, ha))
  snoc nx nx' h x (y ∷ ys) a c d ha hl same = (
    c.0,
    subst (λ p. Chain emb stop nx' p (y ∷ ys ++ (a ∷ []))) (sym (same x (ground arith) ne))
        (snoc nx nx' (nx x) y ys a c.1 d.1 ha hl (λ b i. same b (ground arith))),
  )
    where
      ne : x ≢ last y ys
      ne e = cc (d.0, last_mem y ys, e)

  -- A new node before the first one.
  pub push :
      (nx nx' : ℕ → P) (h h' : P) (n : ℕ) (xs : List ℕ)
      → Chain emb stop nx h xs
      → has n xs ≡ false
      → h' ≡ emb n
      → nx' n ≡ h
      → ((b : ℕ) → b ≢ n → nx' b ≡ nx b)
      → Chain emb stop nx' h' (n ∷ xs)
  push nx nx' h h' n xs c out e f same = (
    e,
    subst (λ p. Chain emb stop nx' p xs) (sym f)
        (frame nx nx' h xs c (λ a i. let ne : a ≢ n = λ q. cc (q, i, out) in same a ne)),
  )

-- 0, 1, …, n - 1 and then `xs`
abbrev pub counting : ℕ → List ℕ → List ℕ
counting zero xs = xs
counting (suc n) xs = counting n (n ∷ xs)

-- No node below `n` is in the list.
abbrev pub Above : ℕ → List ℕ → Type 0
Above n xs = (i : ℕ) → i < n → has i xs ≡ false

pub Above-push : (n : ℕ) (xs : List ℕ) → Above (suc n) xs → Above n (n ∷ xs)
Above-push n xs a i l =
    let e : (i == n) ≡ false = ground arith in
    let f : has i xs ≡ false = a i (omega arith) in ground arith
