-- ===== src/Pairing/Issue/Valid.antt =====
-- The issue of a code keeps the tables valid.
use backend_bmo_blabs.Base.{
  ℕ, ◌+◌, ◌≡◌, refl, inl, inr, Bool, false, ◌&&◌, [], ◌∷◌, ◌++◌, sym, ap, subst, ◌==◌, leb, ◌≢◌, ok,
  arith, Bool-cases,
}
use backend_bmo_blabs.Database.{
  assign, count, count-append_one, count-map_le, count-zero, find_none, All-map, All-every,
}
use backend_bmo_blabs.Pairing.{Services}
use backend_bmo_blabs.Pairing.Rows.{
  EnrollmentRow, EnrollmentStatus, Tables, is_issued_for, is_issued_code, is_bound_to,
}
use backend_bmo_blabs.Pairing.Invariant.{IsValid, Retires, assign-Retires, updated-IsValid}
use backend_bmo_blabs.Pairing.Issue.{retire, create_enrollment}

ended-Retires :
    (st : EnrollmentStatus) → st ≢ EnrollmentStatus.issued → Retires (λ e. record e { status = st })
ended-Retires EnrollmentStatus.issued h = absurd (h refl)
ended-Retires EnrollmentStatus.claimed h = record {
  for_hardware = λ _ e g. absurd (ground arith);
  for_code = λ _ e g. absurd (ground arith);
}
ended-Retires EnrollmentStatus.expired h = record {
  for_hardware = λ _ e g. absurd (ground arith);
  for_code = λ _ e g. absurd (ground arith);
}
ended-Retires EnrollmentStatus.revoked h = record {
  for_hardware = λ _ e g. absurd (ground arith);
  for_code = λ _ e g. absurd (ground arith);
}
ended-Retires EnrollmentStatus.invalidated h = record {
  for_hardware = λ _ e g. absurd (ground arith);
  for_code = λ _ e g. absurd (ground arith);
}

module _ (env : Services) where
  open env use {db}

  abbrev invalidate : EnrollmentRow → EnrollmentRow
  invalidate e = record e { status = EnrollmentStatus.invalidated }

  abbrev expire : EnrollmentRow → EnrollmentRow
  expire e = record e { status = EnrollmentStatus.expired }

  invalidate-Retires : Retires invalidate
  invalidate-Retires = ended-Retires EnrollmentStatus.invalidated (λ h. ground arith)

  expire-Retires : Retires expire
  expire-Retires = ended-Retires EnrollmentStatus.expired (λ h. ground arith)

  pub retire-IsValid :
      (hardware code_hash now : ℕ) (s : Tables)
      → IsValid s
      → IsValid (retire env hardware code_hash now s)
  unfolding retire
  retire-IsValid hardware code_hash now s v =
      let w = updated-IsValid db (is_issued_for hardware) invalidate invalidate-Retires s v in
      updated-IsValid db _ expire expire-Retires _ w

  -- Retiring leaves the hardware no issued enrollment.
  pub retire_none :
      (hardware code_hash now : ℕ) (s : Tables)
      → count (is_issued_for hardware) (retire env hardware code_hash now s).enrollments ≡ 0
  unfolding retire
  retire_none hardware code_hash now s =
      let p = is_issued_for hardware in
      let test : EnrollmentRow → Bool = λ e. is_issued_code code_hash e && leb e.expires_at now in
      let free = (db.update_many p invalidate s.enrollments).0 in
      let none_free : count p free ≡ 0 =
        subst (λ t. count p t ≡ 0) (sym (ap (λ u. u.0) (db.updated p invalidate s.enrollments)))
          (count-zero p _ (
            All-map (λ _. Unit {0}) (λ e. p e ≡ false) (assign p invalidate) (λ e _. ground arith)
              s.enrollments (All-every (λ _. Unit {0}) (λ _. tt) s.enrollments))) in
      let less =
        count-map_le p (assign test expire)
          ((assign-Retires test expire expire-Retires).for_hardware hardware) free in
      subst (λ t. count p t ≡ 0) (sym (ap (λ u. u.0) (db.updated test expire free))) (omega arith)

  -- A new row for a hardware and a code that no issued row has.
  pub create_enrollment-IsGood :
      (e : EnrollmentRow) (s : Tables)
      → e.status ≡ EnrollmentStatus.issued
      → IsValid s
      → count (is_issued_for e.hardware_id) s.enrollments
          + count (is_bound_to e.hardware_id) s.devices
        ≡ 0
      → count (is_issued_code e.code_hash) s.enrollments ≡ 0
      → (create_enrollment env e s ≡ (record s { enrollments = s.enrollments ++ e ∷ [] }, ok e))
        × IsValid (record s { enrollments = s.enrollments ++ e ∷ [] })
  unfolding create_enrollment
  create_enrollment-IsGood e s st v free unused =
      let a = find_none (is_issued_for e.hardware_id) db s.enrollments (omega arith) in
      let b = find_none (is_issued_code e.code_hash) db s.enrollments unused in
      (
        rw (a, b) (rw (db.created) refl),
        record {
          one_code = λ c.
              let more = count-append_one (is_issued_code c) s.enrollments e in
              let one = v.one_code c in
              elim (Bool-cases (e.code_hash == c)) [
                | inl same ↦
                    let eq : e.code_hash ≡ c = ground arith in
                    let none_yet : count (is_issued_code c) s.enrollments ≡ 0 =
                      subst (λ x. count (is_issued_code x) s.enrollments ≡ 0) eq unused in
                    ground arith
                | inr other ↦ ground arith
              ];
          one_device = v.one_device;
          one_holder = λ h.
              let more = count-append_one (is_issued_for h) s.enrollments e in
              let one = v.one_holder h in
              elim (Bool-cases (e.hardware_id == h)) [
                | inl same ↦
                    let eq : e.hardware_id ≡ h = ground arith in
                    let none_yet : count (is_issued_for h) s.enrollments
                          + count (is_bound_to h) s.devices
                        ≡ 0 =
                      subst
                        (λ x.
                          count (is_issued_for x) s.enrollments + count (is_bound_to x) s.devices
                          ≡ 0)
                        eq free in
                    ground arith
                | inr other ↦ ground arith
              ];
        },
      )
