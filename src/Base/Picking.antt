-- ===== src/Base/Picking.antt =====
-- Taking the first fit out of a list, and counting by a key.
use Prim.Native.Nat.{ℕ, suc, ◌+◌}
use mathlib.Core.Path.{◌≡◌, refl, ap, subst}
use mathlib.Core.Logic.{inl, inr}
use mathlib.Core.Bool.{Bool, true, false, ◌||◌}
use mathlib.Core.Option.{Option, none, some}
use mathlib.Core.List.{List, [], ◌∷◌, ◌++◌}
use native.Mathlib.Omega.{arith}
use backend_bmo_blabs.Base.Tests.{◌==◌, if◌then◌else◌, Bool-cases, Option-cases}
use backend_bmo_blabs.Base.Lists.{length}

module _ {ℓ} {A : Type ℓ} where
  -- `findIndex` and `splice`
  unfoldable pub take_first : (A → Bool) → List A → Option (A × List A)
  take_first p [] = none
  take_first p (x ∷ xs) =
      let rest = take_first p xs in
      if p x then some (x, xs) else elim rest [ none ↦ none | some (y, ys) ↦ some (y, x ∷ ys) ]

  -- `some`
  unfoldable pub any : (A → Bool) → List A → Bool
  any p [] = false
  any p (x ∷ xs) = p x || any p xs

  -- How many have this key.
  abbrev pub tally : (A → ℕ) → ℕ → List A → ℕ
  tally key k [] = 0
  tally key k (x ∷ xs) = (if key x == k then 1 else 0) + tally key k xs

  pub tally-append :
      (key : A → ℕ) (k : ℕ) (xs ys : List A)
      → tally key k (xs ++ ys) ≡ tally key k xs + tally key k ys
  tally-append key k [] ys = omega arith
  tally-append key k (x ∷ xs) ys = omega (arith, tally-append key k xs ys)

  -- No element passes the test.
  abbrev pub NoneFits : (A → Bool) → List A → Type 0
  NoneFits p [] = Unit
  NoneFits p (x ∷ xs) = (p x ≡ false) × NoneFits p xs

  pub NoneFits-append :
      (p : A → Bool) (xs ys : List A) → NoneFits p xs → NoneFits p ys → NoneFits p (xs ++ ys)
  NoneFits-append p [] ys h k = k
  NoneFits-append p (x ∷ xs) ys h k = (h.0, NoneFits-append p xs ys h.1 k)

  pub NoneFits-any : (p : A → Bool) (xs : List A) → any p xs ≡ false → NoneFits p xs
  unfolding any
  NoneFits-any p [] h = tt
  NoneFits-any p (x ∷ xs) h = (ground arith, NoneFits-any p xs (ground arith))

  pub NoneFits-any_true : (p : A → Bool) (xs : List A) → NoneFits p xs → any p xs ≡ false
  unfolding any
  NoneFits-any_true p [] h = refl
  NoneFits-any_true p (x ∷ xs) h = ground (arith, NoneFits-any_true p xs h.1)

  pub NoneFits-mono :
      (p q : A → Bool)
      → ((x : A) → p x ≡ false → q x ≡ false)
      → (xs : List A) → NoneFits p xs
      → NoneFits q xs
  NoneFits-mono p q le [] h = tt
  NoneFits-mono p q le (x ∷ xs) h = (le x h.0, NoneFits-mono p q le xs h.1)

  pub take_first-none : (p : A → Bool) (xs : List A) → take_first p xs ≡ none → NoneFits p xs
  unfolding take_first
  take_first-none p [] h = tt
  take_first-none p (x ∷ xs) h = (ground arith, take_first-none p xs (ground arith))

  -- What is taken fits, and the rest is the list less that one.
  abbrev pub Takes : (A → Bool) → List A → A → List A → Type ℓ
  Takes p xs x ys =
      (p x ≡ true)
      × (length xs ≡ suc (length ys))
      × ((key : A → ℕ) (k : ℕ) → tally key k xs ≡ (if key x == k then 1 else 0) + tally key k ys)
      × ((q : A → Bool) → NoneFits q xs → NoneFits q ys)

  pub take_first-some :
      (p : A → Bool) (xs : List A) (x : A) (ys : List A)
      → take_first p xs ≡ some (x, ys)
      → Takes p xs x ys
  unfolding take_first
  take_first-some p [] x ys h = absurd (ground arith)
  take_first-some p (z ∷ zs) x ys h = elim (Bool-cases (p z)) [
    | inl fits ↦
        let same : (z ≡ x) × (zs ≡ ys) = ground arith in
        subst (λ y. Takes p (z ∷ zs) y ys) same.0
          (subst (λ l. Takes p (z ∷ zs) z l) same.1 (fits, refl, λ key k. refl, λ q n. n.1))
    | inr over ↦ elim (Option-cases (take_first p zs)) [
      | inl missing ↦ absurd (ground arith)
      | inr ((y, l), found) ↦
          let (fits, long, counts, fewer) = take_first-some p zs y l found in
          let same : (y ≡ x) × (z ∷ l ≡ ys) = ground arith in
          subst (λ a. Takes p (z ∷ zs) a ys) same.0
            (subst (λ m. Takes p (z ∷ zs) y m) same.1
              (fits, ap suc long, λ key k. omega (arith, counts key k), λ q n. (n.0, fewer q n.1)))
    ]
  ]
