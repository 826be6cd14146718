-- ===== src/Tarfs/Path/Tests.antt =====
-- Runs of remove_d.
use nascent_os.Tarfs.Path.Parent.{IsParent, remove_d_lem}
use nascent_os.Prelude.{
  ℕ, zero, suc, List, ◌+◌, ◌≤◌, ◌<◌, ◌≢◌, get_or, arith, ◌≡◌, refl, [], ◌∷◌, some, replicate,
}
use nascent_os.Tarfs.Path.{last_slash, step_back, copy_char, clean_round, clean_loop, remove_d}
use nascent_os.Text.{str_len}

-- "/a/../b"
goes_back :
    remove_d (47 ∷ 97 ∷ 47 ∷ 46 ∷ 46 ∷ 47 ∷ 98 ∷ 0 ∷ []) (replicate 8 0)
    ≡ some (47 ∷ 98 ∷ 0 ∷ 46 ∷ 0 ∷ 0 ∷ 0 ∷ 0 ∷ [])
unfolding remove_d clean_loop clean_round copy_char step_back last_slash str_len
goes_back = refl

-- "/x.y.z", a name with two dots: the name is lost.
loses_dots :
    remove_d (47 ∷ 120 ∷ 46 ∷ 121 ∷ 46 ∷ 122 ∷ 0 ∷ []) (replicate 8 0)
    ≡ some (47 ∷ 0 ∷ 0 ∷ 121 ∷ 0 ∷ 0 ∷ 0 ∷ 0 ∷ [])
unfolding remove_d clean_loop clean_round copy_char step_back last_slash str_len
loses_dots = refl

-- "/../a": the rest of the path is lost.
root_parent :
    remove_d (47 ∷ 46 ∷ 46 ∷ 47 ∷ 97 ∷ 0 ∷ []) (replicate 8 0)
    ≡ some (47 ∷ 0 ∷ 0 ∷ 0 ∷ 0 ∷ 0 ∷ 0 ∷ 0 ∷ [])
unfolding remove_d clean_loop clean_round copy_char step_back last_slash str_len
root_parent = refl

-- "/a/.."
abbrev parent : List ℕ
parent = b'/' ∷ b'a' ∷ b'/' ∷ 46 ∷ 46 ∷ 0 ∷ []

parent-IsParent : IsParent parent 0 3
parent-IsParent = record {
  plain = plain;
  inside = omega arith;
  slash = refl;
  name = name;
  dot = refl;
  dots = refl;
  end = refl;
}
  where
    plain : (k : ℕ) → k < 3 → (get_or parent k 0 ≢ 0) × (get_or parent k 0 ≢ 46)
    plain zero l = (λ e. omega (arith, e), λ e. omega (arith, e))
    plain (suc zero) l = (λ e. omega (arith, e), λ e. omega (arith, e))
    plain (suc (suc zero)) l = (λ e. omega (arith, e), λ e. omega (arith, e))
    plain (suc (suc (suc k))) l = absurd (omega (arith, l))

    name : (k : ℕ) → 0 < k → k + 2 ≤ 3 → get_or parent k 0 ≢ 47
    name zero a b = absurd (omega (arith, a))
    name (suc zero) a b = λ e. omega (arith, e)
    name (suc (suc k)) a b = absurd (omega (arith, b))

remove_d_lem_example :
    (r : List ℕ) × (remove_d parent (replicate 8 0) ≡ some r)
    × ((k : ℕ) → k ≤ 0 → get_or r k 0 ≡ get_or parent k 0)
    × (get_or r 1 0 ≡ 0)
remove_d_lem_example = remove_d_lem parent (replicate 8 0) 0 3 parent-IsParent (omega arith)
