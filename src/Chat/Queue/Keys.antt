-- ===== src/Chat/Queue/Keys.antt =====
-- A `Set` of keys, in the order of their insertion.
use backend_bmo_blabs.Base.{
  ℕ, suc, ◌+◌, ◌≡◌, refl, Bool, false, ◌||◌, List, [], ◌∷◌, ◌++◌, ◌==◌, if◌then◌else◌, length,
  arith,
}
use backend_bmo_blabs.Base.Picking.{tally}

unfoldable pub has : ℕ → List ℕ → Bool
has k [] = false
has k (x ∷ xs) = x == k || has k xs

unfoldable pub add : ℕ → List ℕ → List ℕ
unfolding has
add k xs = if has k xs then xs else xs ++ k ∷ []

unfoldable pub delete : ℕ → List ℕ → List ℕ
delete k [] = []
delete k (x ∷ xs) = let rest = delete k xs in if x == k then rest else x ∷ rest

-- How often a key stands in the list.
abbrev pub times : ℕ → List ℕ → ℕ
times k xs = tally (λ (x : ℕ). x) k xs

pub has-times : (k : ℕ) (xs : List ℕ) → has k xs ≡ false → times k xs ≡ 0
unfolding has
has-times k [] h = refl
has-times k (x ∷ xs) h = ground (arith, has-times k xs)

pub times-has : (k : ℕ) (xs : List ℕ) → times k xs ≡ 0 → has k xs ≡ false
unfolding has
times-has k [] h = refl
times-has k (x ∷ xs) h = ground (arith, times-has k xs)

append-times :
    (j k : ℕ) (xs : List ℕ) → times j (xs ++ k ∷ []) ≡ times j xs + (if k == j then 1 else 0)
append-times j k [] = omega arith
append-times j k (x ∷ xs) = omega (arith, append-times j k xs)

append-length : (k : ℕ) (xs : List ℕ) → length (xs ++ k ∷ []) ≡ suc (length xs)
append-length k [] = refl
append-length k (x ∷ xs) = omega (arith, append-length k xs)

pub times-add :
    (j k : ℕ) (xs : List ℕ)
    → has k xs ≡ false
    → times j (add k xs) ≡ times j xs + (if k == j then 1 else 0)
unfolding add
times-add j k xs h = rw h (append-times j k xs)

pub length-add : (k : ℕ) (xs : List ℕ) → has k xs ≡ false → length (add k xs) ≡ suc (length xs)
unfolding add
length-add k xs h = rw h (append-length k xs)

pub times-delete :
    (j k : ℕ) (xs : List ℕ) → times j (delete k xs) ≡ (if k == j then 0 else times j xs)
unfolding delete
times-delete j k [] = ground arith
times-delete j k (x ∷ xs) = ground (arith, times-delete j k xs)

pub length-delete : (k : ℕ) (xs : List ℕ) → length (delete k xs) + times k xs ≡ length xs
unfolding delete
length-delete k [] = refl
length-delete k (x ∷ xs) = ground (arith, length-delete k xs)
