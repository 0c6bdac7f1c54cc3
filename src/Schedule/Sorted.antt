-- ===== src/Schedule/Sorted.antt =====
-- The sorted days: the same days, the least first.
use backend_bmo_blabs.Base.{
  ℕ, ◌≤◌, ◌≡◌, refl, inl, inr, Bool, true, false, ◌||◌, none, some, List, [], ◌∷◌, leb, ◌==◌, arith,
  Bool-cases,
}
use backend_bmo_blabs.Schedule.{insert, sort, find, first}

-- `includes`
abbrev pub includes : ℕ → List ℕ → Bool
includes y [] = false
includes y (x ∷ xs) = y == x || includes y xs

-- No later element is less.
abbrev pub IsSorted : List ℕ → Type 0
IsSorted [] = Unit
IsSorted (x ∷ xs) = ((y : ℕ) → includes y xs ≡ true → x ≤ y) × IsSorted xs

includes-insert : (y x : ℕ) (xs : List ℕ) → includes y (insert x xs) ≡ (y == x || includes y xs)
unfolding insert
includes-insert y x [] = refl
includes-insert y x (z ∷ zs) = ground (arith, includes-insert y x zs)

pub includes-sort : (y : ℕ) (xs : List ℕ) → includes y (sort xs) ≡ includes y xs
unfolding sort
includes-sort y [] = refl
includes-sort y (x ∷ xs) = ground (arith, includes-insert y x (sort xs), includes-sort y xs)

insert-IsSorted : (x : ℕ) (xs : List ℕ) → IsSorted xs → IsSorted (insert x xs)
unfolding insert
insert-IsSorted x [] h = ((λ y e. absurd cc), tt)
insert-IsSorted x (z ∷ zs) h = elim (Bool-cases (leb x z)) [
  | inl less ↦ rw (less, insert) ((λ y e. ground (arith, h.0 y)), h)
  | inr more ↦
      rw (more, insert)
        ((λ y e. ground (arith, h.0 y, includes-insert y x zs)), insert-IsSorted x zs h.1)
]

pub sort-IsSorted : (xs : List ℕ) → IsSorted (sort xs)
unfolding sort
sort-IsSorted [] = tt
sort-IsSorted (x ∷ xs) = insert-IsSorted x (sort xs) (sort-IsSorted xs)

pub find-some :
    (p : ℕ → Bool) (xs : List ℕ) (x : ℕ)
    → find p xs ≡ some x
    → (includes x xs ≡ true) × (p x ≡ true)
unfolding find
find-some p [] x e = absurd cc
find-some p (z ∷ zs) x e = elim (Bool-cases (p z)) [
  | inl hit ↦ ground arith
  | inr miss ↦ ground (arith, find-some p zs x)
]

pub find-least :
    (p : ℕ → Bool) (xs : List ℕ) (x y : ℕ)
    → IsSorted xs
    → find p xs ≡ some x
    → includes y xs ≡ true
    → p y ≡ true
    → x ≤ y
unfolding find
find-least p [] x y h e i py = absurd cc
find-least p (z ∷ zs) x y h e i py = elim (Bool-cases (p z)) [
  | inl hit ↦ ground (arith, h.0 y)
  | inr miss ↦ elim (Bool-cases (y == z)) [
    | inl same ↦ ground arith
    | inr other ↦ find-least p zs x y h.1 (ground arith) (ground arith) py
  ]
]

pub find-none :
    (p : ℕ → Bool) (xs : List ℕ) (y : ℕ) → find p xs ≡ none → includes y xs ≡ true → p y ≡ false
unfolding find
find-none p [] y e i = absurd cc
find-none p (z ∷ zs) y e i = elim (Bool-cases (p z)) [
  | inl hit ↦ absurd (ground arith)
  | inr miss ↦ elim (Bool-cases (y == z)) [
    | inl same ↦ ground arith
    | inr other ↦ find-none p zs y (ground arith) (ground arith)
  ]
]

pub first-least : (xs : List ℕ) (y : ℕ) → IsSorted xs → includes y xs ≡ true → first xs ≤ y
unfolding first
first-least [] y h i = absurd cc
first-least (x ∷ xs) y h i = ground (arith, h.0 y)

pub first-includes : (xs : List ℕ) (y : ℕ) → includes y xs ≡ true → includes (first xs) xs ≡ true
unfolding first
first-includes [] y i = absurd cc
first-includes (x ∷ xs) y i = ground arith
