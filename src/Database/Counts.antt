-- ===== src/Database/Counts.antt =====
-- More on how writes change the number of rows that a test selects.
use mathlib.Core.List.{Memᴰ}
use backend_bmo_blabs.Base.{
  ◌+◌, ◌≤◌, ◌<◌, ◌≡◌, refl, sym, ap, subst, inl, inr, Bool, true, false, List, [], ◌∷◌, map,
  if◌then◌else◌, arith, Bool-cases,
}
use backend_bmo_blabs.Database.{Database, assign, count, count-map_le, count-map_lt}

module _ {Row : Type 0} where
  -- A write that the test does not see.
  pub count-map_eq :
      (p : Row → Bool) (f : Row → Row)
      → ((r : Row) → p (f r) ≡ p r)
      → (t : List Row) → count p (map f t) ≡ count p t
  count-map_eq p f same [] = refl
  count-map_eq p f same (r ∷ t) =
      let e = same r in let rest = count-map_eq p f same t in ground arith

  -- A test that selects less.
  pub count_mono :
      (p q : Row → Bool)
      → ((r : Row) → p r ≡ true → q r ≡ true)
      → (t : List Row) → count p t ≤ count q t
  count_mono p q h [] = omega arith
  count_mono p q h (r ∷ t) =
      let rest = count_mono p q h t in
      elim (Bool-cases (p r)) [ inl e ↦ let e' = h r e in ground arith | inr e ↦ ground arith ]

  -- What a selected write keeps if the write itself does.
  pub assign-same :
      {A : Type 0} (g : Row → A) (test : Row → Bool) (f : Row → Row)
      → ((r : Row) → g (f r) ≡ g r)
      → (r : Row) → g (assign test f r) ≡ g r
  assign-same g test f h r = elim (Bool-cases (test r)) [
    | inl y ↦ rw y (h r)
    | inr other ↦ rw other refl
  ]

  pub assign-back :
      (p test : Row → Bool) (f : Row → Row)
      → ((r : Row) → p (f r) ≡ true → p r ≡ true)
      → (r : Row) → p (assign test f r) ≡ true
      → p r ≡ true
  assign-back p test f h r = elim (Bool-cases (test r)) [
    | inl y ↦ rw y (h r)
    | inr other ↦ rw other (λ e. e)
  ]

  -- Two tests that exclude each other, under a third.
  pub count-disjoint :
      (p q r : Row → Bool)
      → ((x : Row) → p x ≡ true → (r x ≡ true) × (q x ≡ false))
      → ((x : Row) → q x ≡ true → r x ≡ true)
      → (t : List Row) → count p t + count q t ≤ count r t
  count-disjoint p q r h k [] = omega arith
  count-disjoint p q r h k (x ∷ t) =
      let rest = count-disjoint p q r h k t in
      elim (Bool-cases (p x)) [
        | inl e ↦ let (a, b) = h x e in ground arith
        | inr e ↦ elim (Bool-cases (q x)) [
          | inl f ↦ let g = k x f in ground arith
          | inr f ↦ ground arith
        ]
      ]

  -- Where a narrower test selects as much, the rows of the wider one pass it.
  pub count-forced :
      (p q : Row → Bool)
      → ((x : Row) → q x ≡ true → p x ≡ true)
      → (t : List Row) → count p t ≤ count q t
      → (r : Row) → Memᴰ r t
      → p r ≡ true
      → q r ≡ true
  count-forced p q h [] le r m e = elim m [ ]
  count-forced p q h (x ∷ t) le r (Memᴰ.head same) e =
      let less = count_mono q p h t in
      let ex : p x ≡ true = subst (λ y. p y ≡ true) same e in
      let qx : q x ≡ true = ground arith in subst (λ y. q y ≡ true) (sym same) qx
  count-forced p q h (x ∷ t) le r (Memᴰ.tail m) e =
      let rest : count p t ≤ count q t = elim (Bool-cases (q x)) [
        | inl f ↦ let g = h x f in ground arith
        | inr f ↦ ground arith
      ] in
      count-forced p q h t rest r m e

  -- The rows written have what the write gives.
  count-map_ge :
      (q test : Row → Bool) (f : Row → Row)
      → ((r : Row) → test r ≡ true → q (f r) ≡ true)
      → (t : List Row) → count test t ≤ count q (map (assign test f) t)
  count-map_ge q test f h [] = omega arith
  count-map_ge q test f h (r ∷ t) =
      let rest = count-map_ge q test f h t in
      elim (Bool-cases (test r)) [
        | inl e ↦
            let e' : q (assign test f r) ≡ true =
              subst (λ b. q (if b then f r else r) ≡ true) (sym e) (h r e) in
            ground arith
        | inr e ↦ ground arith
      ]

  map-none :
      (test : Row → Bool) (f : Row → Row) (t : List Row)
      → count test t ≡ 0
      → map (assign test f) t ≡ t
  map-none test f [] e = refl
  map-none test f (r ∷ t) e =
      let skip : test r ≡ false = ground arith in
      let rest = map-none test f t (ground arith) in rw (skip) (rw (rest) refl)

module _ (db : Database) {Row : Type 0} (p test : Row → Bool) (f : Row → Row) (t : List Row) where
  pub update_many-same :
      ((r : Row) → p (f r) ≡ p r) → count p (db.update_many test f t).0 ≡ count p t
  update_many-same same =
      subst (λ u. count p u ≡ count p t) (sym (ap (λ u. u.0) (db.updated test f t)))
        (count-map_eq p (assign test f) (assign-same p test f same) t)

  pub update_many-le :
      ((r : Row) → p (f r) ≡ true → p r ≡ true) → count p (db.update_many test f t).0 ≤ count p t
  update_many-le back =
      subst (λ u. count p u ≤ count p t) (sym (ap (λ u. u.0) (db.updated test f t)))
        (count-map_le p (assign test f) (assign-back p test f back) t)

  -- A selected row drops out of the count.
  pub update_many-lt :
      ((r : Row) → p (f r) ≡ true → p r ≡ true)
      → (r : Row) → Memᴰ r t
      → test r ≡ true
      → p r ≡ true
      → p (f r) ≡ false
      → count p (db.update_many test f t).0 < count p t
  update_many-lt back r m hit e out =
      subst (λ u. count p u < count p t) (sym (ap (λ u. u.0) (db.updated test f t)))
        (count-map_lt p (assign test f) (assign-back p test f back) t r m e
          (subst (λ b. p (if b then f r else r) ≡ false) (sym hit) out))

  -- At least as many rows as were selected have what the write gives.
  pub update_many-ge :
      ((r : Row) → test r ≡ true → p (f r) ≡ true)
      → (db.update_many test f t).1 ≤ count p (db.update_many test f t).0
  update_many-ge gives =
      subst (λ u. u.1 ≤ count p u.0) (sym (db.updated test f t)) (count-map_ge p test f gives t)

module _ (db : Database) {Row : Type 0} (test : Row → Bool) (f : Row → Row) (t : List Row) where
  pub update_many-none : count test t ≡ 0 → db.update_many test f t ≡ (t, 0)
  update_many-none e = rw (db.updated test f t) (rw (map-none test f t e, e) refl)
