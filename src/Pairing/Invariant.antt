-- ===== src/Pairing/Invariant.antt =====
-- What the tables of hardware pairing keep, counted by the selections of their unique indexes.
use backend_bmo_blabs.Base.{
  ℕ, ◌+◌, ◌≤◌, ◌≡◌, inl, inr, Bool, true, map, sym, ap, subst, ◌≢◌, Result, ok, err, arith,
  Bool-cases,
}
use backend_bmo_blabs.Database.{Database, assign, count, count-map_le}
use backend_bmo_blabs.Pairing.{Fault, unique_constraint, transaction}
use backend_bmo_blabs.Pairing.Rows.{
  EnrollmentRow, Tables, is_issued_for, is_issued_code, is_active_of, is_bound_to,
}

-- A code has one issued enrollment at most, a user has one active device at most, and a hardware
-- has, of issued enrollments and of bound devices together, one at most.
pub record IsValid (s : Tables) : Type 0 where
  pub one_code : (code_hash : ℕ) → count (is_issued_code code_hash) s.enrollments ≤ 1
  pub one_device : (user : ℕ) → count (is_active_of user) s.devices ≤ 1
  pub one_holder :
      (hardware : ℕ)
      → count (is_issued_for hardware) s.enrollments + count (is_bound_to hardware) s.devices ≤ 1

-- A write that issues no enrollment.
pub record Retires (f : EnrollmentRow → EnrollmentRow) : Type 0 where
  pub for_hardware :
      (h : ℕ) (e : EnrollmentRow) → is_issued_for h (f e) ≡ true → is_issued_for h e ≡ true
  pub for_code :
      (c : ℕ) (e : EnrollmentRow) → is_issued_code c (f e) ≡ true → is_issued_code c e ≡ true

pub assign-Retires :
    (p : EnrollmentRow → Bool) (f : EnrollmentRow → EnrollmentRow)
    → Retires f
    → Retires (assign p f)
assign-Retires p f r = record {
  for_hardware = λ h e g. elim (Bool-cases (p e)) [
    | inl y ↦ r.for_hardware h e (ground arith)
    | inr n ↦ ground arith
  ];
  for_code = λ c e g. elim (Bool-cases (p e)) [
    | inl y ↦ r.for_code c e (ground arith)
    | inr n ↦ ground arith
  ];
}

pub retired-IsValid :
    (f : EnrollmentRow → EnrollmentRow)
    → Retires f
    → (s : Tables) → IsValid s
    → IsValid (record s { enrollments = map f s.enrollments })
retired-IsValid f r s v = record {
  one_code = λ c.
      let less = count-map_le (is_issued_code c) f (r.for_code c) s.enrollments in
      let one = v.one_code c in omega arith;
  one_device = v.one_device;
  one_holder = λ h.
      let less = count-map_le (is_issued_for h) f (r.for_hardware h) s.enrollments in
      let one = v.one_holder h in omega arith;
}

pub updated-IsValid :
    (db : Database) (p : EnrollmentRow → Bool) (f : EnrollmentRow → EnrollmentRow)
    → Retires f
    → (s : Tables) → IsValid s
    → IsValid (record s { enrollments = (db.update_many p f s.enrollments).0 })
updated-IsValid db p f r s v =
    subst (λ t. IsValid (record s { enrollments = t }))
      (sym (ap (λ u. u.0) (db.updated p f s.enrollments)))
      (retired-IsValid (assign p f) (assign-Retires p f r) s v)

-- A call that leaves valid tables, and in which no unique index refuses a row.
pub record IsGood {A : Type 0} (c : Tables × Result Fault A) : Type 0 where
  pub valid : IsValid c.0
  pub accepted : c.1 ≢ err unique_constraint

pub transaction-IsGood :
    {A : Type 0} (s : Tables) (c : Tables × Result Fault A)
    → IsValid s
    → IsGood c
    → IsGood (transaction s c)
unfolding transaction
transaction-IsGood s (s', ok a) v g = g
transaction-IsGood s (s', err f) v g = record { valid = v; accepted = g.accepted }

pub transaction-err :
    {A : Type 0} (s : Tables) (c : Tables × Result Fault A) (f : Fault)
    → c.1 ≡ err f
    → transaction s c ≡ (s, err f)
unfolding transaction
transaction-err s (s', ok a) f e = absurd (ground arith)
transaction-err s (s', err g) f e = ap (λ x. (s, err x)) (ground arith)
