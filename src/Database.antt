-- ===== src/Database.antt =====
-- The database client, which the services only call: a table is the list of its rows, and each
-- query is a parameter with the documented law of Prisma's `findFirst` (and `findUnique`),
-- `updateMany` and `create`.
pub mod Counts
use backend_bmo_blabs.Base.{
  ℕ, ◌≡◌, refl, Bool, true, false, Option, none, some, List, [], ◌∷◌, ◌++◌, map, if◌then◌else◌, All,
  ltb, ◌≤◌, ◌<◌, Option-cases, Bool-cases, inl, inr, arith, ◌+◌, ap, sym, subst,
}
use mathlib.Core.List.{Memᴰ}

-- The rows after `update` on those that the test selects.
abbrev pub assign : {Row : Type 0} → (Row → Bool) → (Row → Row) → Row → Row
assign p f r = if p r then f r else r

-- How many rows the test selects.
abbrev pub count : {Row : Type 0} → (Row → Bool) → List Row → ℕ
count p [] = 0
count p (r ∷ t) = (if p r then 1 else 0) + count p t

pub record Database : Type 1 where
  pub find_first : {Row : Type 0} → (Row → Bool) → List Row → Option Row
  pub update_many : {Row : Type 0} → (Row → Bool) → (Row → Row) → List Row → List Row × ℕ
  pub create : {Row : Type 0} → Row → List Row → List Row
  pub count_rows : {Row : Type 0} → (Row → Bool) → List Row → ℕ
  -- `findFirst` ordered by a column, the highest first
  pub find_highest : {Row : Type 0} → (Row → Bool) → (Row → ℕ) → List Row → Option Row
  -- `findFirst` returns a row that its `where` selects, if there is one.
  pub found :
      {Row : Type 0} (p : Row → Bool) (t : List Row) (r : Row)
      → find_first p t ≡ some r
      → (p r ≡ true) × Memᴰ r t
  pub missed :
      {Row : Type 0} (p : Row → Bool) (t : List Row)
      → find_first p t ≡ none
      → All (λ r. p r ≡ false) t
  -- `updateMany` writes the rows that its `where` selects, and counts them.
  pub updated :
      {Row : Type 0} (p : Row → Bool) (f : Row → Row) (t : List Row)
      → update_many p f t ≡ (map (assign p f) t, count p t)
  -- `create` adds a row.
  pub created : {Row : Type 0} (r : Row) (t : List Row) → create r t ≡ t ++ r ∷ []
  pub counted : {Row : Type 0} (p : Row → Bool) (t : List Row) → count_rows p t ≡ count p t
  pub highest :
      {Row : Type 0} (p : Row → Bool) (key : Row → ℕ) (t : List Row) (r : Row)
      → p r ≡ true
      → Memᴰ r t
      → (q : Row) × (find_highest p key t ≡ some q) × (p q ≡ true) × (key r ≤ key q)

module _ {Row : Type 0} where
  pub All-map :
      (P Q : Row → Type 0) (f : Row → Row)
      → ((r : Row) → P r → Q (f r))
      → (t : List Row) → All P t
      → All Q (map f t)
  All-map P Q f h [] a = tt
  All-map P Q f h (r ∷ t) a = (h r a.0, All-map P Q f h t a.1)

  pub All-every : (P : Row → Type 0) → ((r : Row) → P r) → (t : List Row) → All P t
  All-every P h [] = tt
  All-every P h (r ∷ t) = (h r, All-every P h t)

  pub All-mem : (P : Row → Type 0) (t : List Row) (r : Row) → All P t → Memᴰ r t → P r
  All-mem P [] r a m = elim m [ ]
  All-mem P (x ∷ t) r a (Memᴰ.head e) = subst P (sym e) a.0
  All-mem P (x ∷ t) r a (Memᴰ.tail m) = All-mem P t r a.1 m

  pub All-append_one :
      (P : Row → Type 0) (t : List Row) (r : Row) → All P t → P r → All P (t ++ r ∷ [])
  All-append_one P [] r a h = (h, tt)
  All-append_one P (x ∷ t) r a h = (a.0, All-append_one P t r a.1 h)

  pub mem-map_of_mem : (f : Row → Row) (t : List Row) (r : Row) → Memᴰ r t → Memᴰ (f r) (map f t)
  mem-map_of_mem f [] r m = elim m [ ]
  mem-map_of_mem f (x ∷ t) r (Memᴰ.head e) = Memᴰ.head (ap f e)
  mem-map_of_mem f (x ∷ t) r (Memᴰ.tail m) = Memᴰ.tail (mem-map_of_mem f t r m)

  pub mem-append_of_mem : (t u : List Row) (r : Row) → Memᴰ r t → Memᴰ r (t ++ u)
  mem-append_of_mem [] u r m = elim m [ ]
  mem-append_of_mem (x ∷ t) u r (Memᴰ.head e) = Memᴰ.head e
  mem-append_of_mem (x ∷ t) u r (Memᴰ.tail m) = Memᴰ.tail (mem-append_of_mem t u r m)

  pub mem-append_last : (t : List Row) (r : Row) → Memᴰ r (t ++ r ∷ [])
  mem-append_last [] r = Memᴰ.head refl
  mem-append_last (x ∷ t) r = Memᴰ.tail (mem-append_last t r)

  -- A table as it is, queried in order.
  unfoldable pub list_find : (Row → Bool) → List Row → Option Row
  list_find p [] = none
  list_find p (r ∷ t) = if p r then some r else list_find p t

  pub list_found :
      (p : Row → Bool) (t : List Row) (r : Row) → list_find p t ≡ some r → (p r ≡ true) × Memᴰ r t
  unfolding list_find
  list_found p [] r e = absurd (ground arith)
  list_found p (x ∷ t) r e = elim (Bool-cases (p x)) [
    | inl hit ↦
        let same : r ≡ x = ground arith in (subst (λ y. p y ≡ true) (sym same) hit, Memᴰ.head same)
    | inr miss ↦ let (fits, m) = list_found p t r (ground arith) in (fits, Memᴰ.tail m)
  ]

  pub list_missed :
      (p : Row → Bool) (t : List Row) → list_find p t ≡ none → All (λ r. p r ≡ false) t
  unfolding list_find
  list_missed p [] e = tt
  list_missed p (x ∷ t) e = (ground arith, list_missed p t (ground arith))

-- How writes change the number of rows that a test selects.
module _ {Row : Type 0} (p : Row → Bool) where
  pub count-append_one :
      (t : List Row) (r : Row) → count p (t ++ r ∷ []) ≡ count p t + (if p r then 1 else 0)
  count-append_one [] r = omega arith
  count-append_one (x ∷ t) r = omega (arith, count-append_one t r)

  pub count-map_le :
      (f : Row → Row)
      → ((r : Row) → p (f r) ≡ true → p r ≡ true)
      → (t : List Row) → count p (map f t) ≤ count p t
  count-map_le f h [] = omega arith
  count-map_le f h (x ∷ t) =
      let rest = count-map_le f h t in
      elim (Bool-cases (p (f x))) [ inl e ↦ let e' = h x e in ground arith | inr e ↦ ground arith ]

  pub count-map_lt :
      (f : Row → Row)
      → ((r : Row) → p (f r) ≡ true → p r ≡ true)
      → (t : List Row) (r : Row) → Memᴰ r t
      → p r ≡ true
      → p (f r) ≡ false
      → count p (map f t) < count p t
  count-map_lt f h [] r m e e' = elim m [ ]
  count-map_lt f h (x ∷ t) r (Memᴰ.head same) e e' =
      let rest = count-map_le f h t in
      let ex : p x ≡ true = subst (λ y. p y ≡ true) same e in
      let fx : p (f x) ≡ false = subst (λ y. p (f y) ≡ false) same e' in ground arith
  count-map_lt f h (x ∷ t) r (Memᴰ.tail m) e e' =
      let rest = count-map_lt f h t r m e e' in
      elim (Bool-cases (p (f x))) [ inl g ↦ let g' = h x g in ground arith | inr g ↦ ground arith ]

  pub count-zero : (t : List Row) → All (λ r. p r ≡ false) t → count p t ≡ 0
  count-zero [] a = refl
  count-zero (x ∷ t) a = let rest = count-zero t a.1 in let e = a.0 in ground arith

  pub count-mem : (t : List Row) (r : Row) → Memᴰ r t → p r ≡ true → 0 < count p t
  count-mem [] r m e = elim m [ ]
  count-mem (x ∷ t) r (Memᴰ.head same) e =
      let ex : p x ≡ true = subst (λ y. p y ≡ true) same e in ground arith
  count-mem (x ∷ t) r (Memᴰ.tail m) e = let rest = count-mem t r m e in omega arith

  pub find_none : (db : Database) (t : List Row) → count p t ≡ 0 → db.find_first p t ≡ none
  find_none db t e = elim (Option-cases (db.find_first p t)) [
    | inl missed ↦ missed
    | inr (r, at) ↦
        let (hit, m) = db.found p t r at in
        let some_row = count-mem t r m hit in absurd (omega arith)
  ]

-- The first of the highest rows.
higher : {Row : Type 0} → (Row → ℕ) → Row → Option Row → Row
higher key r none = r
higher key r (some q) = if ltb (key r) (key q) then q else r

unfoldable pub list_highest : {Row : Type 0} → (Row → Bool) → (Row → ℕ) → List Row → Option Row
unfolding higher
list_highest p key [] = none
list_highest p key (r ∷ t) =
    let rest = list_highest p key t in if p r then some (higher key r rest) else rest

module _ {Row : Type 0} (p : Row → Bool) (key : Row → ℕ) where
  higher_le :
      (r : Row) (o : Option Row)
      → p r ≡ true
      → ((q : Row) → o ≡ some q → p q ≡ true)
      → (p (higher key r o) ≡ true) × (key r ≤ key (higher key r o))
  unfolding higher
  higher_le r none e h = (e, omega arith)
  higher_le r (some q) e h = elim (Bool-cases (ltb (key r) (key q))) [
    | inl lower ↦ (rw lower (h q refl), rw lower (ground arith))
    | inr upper ↦ (rw upper e, rw upper (omega arith))
  ]

  higher_rest : (r q : Row) → key q ≤ key (higher key r (some q))
  unfolding higher
  higher_rest r q = elim (Bool-cases (ltb (key r) (key q))) [
    | inl lower ↦ rw lower (omega arith)
    | inr upper ↦ rw upper (ground arith)
  ]

  highest_fits : (t : List Row) (q : Row) → list_highest p key t ≡ some q → p q ≡ true
  unfolding list_highest
  highest_fits [] q e = absurd (ground arith)
  highest_fits (x ∷ t) q e = elim (Bool-cases (p x)) [
    | inl hit ↦
        let (good, _) = higher_le x (list_highest p key t) hit (highest_fits t) in
        let same : q ≡ higher key x (list_highest p key t) = ground arith in
        subst (λ y. p y ≡ true) (sym same) good
    | inr miss ↦ highest_fits t q (ground arith)
  ]

  pub list_highest_le :
      (t : List Row) (r : Row)
      → p r ≡ true
      → Memᴰ r t
      → (q : Row) × (list_highest p key t ≡ some q) × (p q ≡ true) × (key r ≤ key q)
  unfolding list_highest
  list_highest_le [] r e m = elim m [ ]
  list_highest_le (x ∷ t) r e (Memᴰ.head same) =
      let ex : p x ≡ true = subst (λ y. p y ≡ true) same e in
      let (good, above) = higher_le x (list_highest p key t) ex (highest_fits t) in
      (
        higher key x (list_highest p key t),
        rw ex refl,
        good,
        subst (λ y. key y ≤ key (higher key x (list_highest p key t))) (sym same) above,
      )
  list_highest_le (x ∷ t) r e (Memᴰ.tail m) =
      let (q, found, fits, above) = list_highest_le t r e m in
      elim (Bool-cases (p x)) [
        | inr miss ↦ (q, rw miss found, fits, above)
        | inl hit ↦
            let (good, _) = higher_le x (list_highest p key t) hit (highest_fits t) in
            let step : key q ≤ key (higher key x (list_highest p key t)) =
              subst (λ o. key q ≤ key (higher key x o)) (sym found) (higher_rest x q) in
            (higher key x (list_highest p key t), rw hit refl, good, omega arith)
      ]

-- A client that meets the laws.
abbrev pub list_database : Database
list_database = record {
  find_first = λ p t. list_find p t;
  update_many = λ p f t. (map (assign p f) t, count p t);
  create = λ r t. t ++ r ∷ [];
  count_rows = λ p t. count p t;
  find_highest = λ p key t. list_highest p key t;
  found = λ p t r e. list_found p t r e;
  missed = λ p t e. list_missed p t e;
  updated = λ p f t. refl;
  created = λ r t. refl;
  counted = λ p t. refl;
  highest = λ p key t r e m. list_highest_le p key t r e m;
}
