-- ===== src/Pairing/Issue.antt =====
-- `issueForHardware` of the hardware enrollment service.
pub mod Valid
pub mod Cases
mod Tests
use backend_bmo_blabs.Base.{
  ℕ, zero, suc, ◌+◌, ◌*◌, Bool, true, false, ◌&&◌, ◌||◌, not, Option, none, some, List, [], ◌∷◌,
  Result, ok, err, ltb, leb, ◌==◌, if◌then◌else◌, is_some, length,
}
use backend_bmo_blabs.Database.{Database}
use backend_bmo_blabs.Errors.{P9Error, P9ErrorCode, p9_error}
use backend_bmo_blabs.Pairing.Rows.{
  EnrollmentStatus, EnrollmentRow, DeviceStatus, DeviceRow, AuditRow, Tables, is_issued, is_active,
  is_bound, is_issued_for, is_issued_code, is_active_of, is_bound_to,
}
use backend_bmo_blabs.Pairing.{
  Fault, p9, unique_constraint, pairing_code_collision, Services, Draw, IssuedCode, is_pairing_code,
  transaction, invalid_code,
}

module _ (env : Services) where
  open env use {db, keyed_digest, pepper, ttl_seconds}

  -- The tests that throw before a code is taken: the cooldown of 5 seconds, and 6 in 15 minutes.
  unfoldable pub is_limited : ℕ → ℕ → Tables → Bool
  is_limited hardware now s =
      leb 6 (
        db.count_rows (λ e. e.hardware_id == hardware && leb now (e.created_at + 900_000))
          s.enrollments)
      || elim (db.find_highest (λ e. e.hardware_id == hardware) (λ e. e.created_at) s.enrollments) [
        | none ↦ false
        | some e ↦ ltb now (e.created_at + 5_000)
      ]

  -- The latest code of the hardware is the new one again.
  unfoldable pub repeats : ℕ → ℕ → Tables → Bool
  repeats hardware code_hash s =
      elim (db.find_highest (λ e. e.hardware_id == hardware) (λ e. e.created_at) s.enrollments) [
        | none ↦ false
        | some e ↦ e.code_hash == code_hash
      ]

  -- The two `updateMany`.
  unfoldable pub retire : ℕ → ℕ → ℕ → Tables → Tables
  retire hardware code_hash now s =
      let free =
        (db.update_many (is_issued_for hardware)
          (λ e. record e { status = EnrollmentStatus.invalidated }) s.enrollments).0 in
      record s {
        enrollments =
            (db.update_many (λ e. is_issued_code code_hash e && leb e.expires_at now)
              (λ e. record e { status = EnrollmentStatus.expired }) free).0;
      }

  -- `hardwareEnrollment.create` under the two unique indexes of issued rows.
  unfoldable pub create_enrollment : EnrollmentRow → Tables → Tables × Result Fault EnrollmentRow
  create_enrollment e s =
      if is_some (db.find_first (is_issued_for e.hardware_id) s.enrollments)
        || is_some (db.find_first (is_issued_code e.code_hash) s.enrollments)
      then (s, err unique_constraint)
      else (record s { enrollments = db.create e s.enrollments }, ok e)

  unfoldable pub new_enrollment : ℕ → ℕ → ℕ → Draw → EnrollmentRow
  new_enrollment hardware token_hash code_hash draw = record {
    id = draw.id;
    hardware_id = hardware;
    token_hash = token_hash;
    code_hash = code_hash;
    status = EnrollmentStatus.issued;
    expires_at = draw.now + ttl_seconds * 1_000;
    claimed_at = none;
    claimed_user_id = none;
    claimed_device_id = none;
    created_at = draw.created_at;
  }

  -- The end of the transaction, once the code is free.
  unfoldable pub record_issue :
      Draw → Tables × Result Fault EnrollmentRow → Tables × Result Fault IssuedCode
  record_issue draw (s, err f) = (s, err f)
  record_issue draw (s, ok e) = (
    record s {
      audit =
          db.create (AuditRow.hardware_enrollment_issued e.id e.hardware_id e.expires_at) s.audit;
    },
    ok record { hardware_id = e.hardware_id; code = draw.code; expires_at = e.expires_at },
  )

  -- `collision`
  unfoldable pub is_in_use : ℕ → Tables → Bool
  is_in_use code_hash s = is_some (db.find_first (is_issued_code code_hash) s.enrollments)

  unfoldable pub take_code : ℕ → ℕ → Draw → Tables → Tables × Result Fault IssuedCode
  take_code hardware token_hash draw s =
      let code_hash = keyed_digest draw.code pepper in
      let s' = retire hardware code_hash draw.now s in
      if is_limited hardware draw.now s
      then (s, err (p9 (p9_error P9ErrorCode.rate_limited 429)))
      else if repeats hardware code_hash s
      then (s, err pairing_code_collision)
      else if is_in_use code_hash s'
      then (s', err pairing_code_collision)
      else record_issue draw
          (create_enrollment (new_enrollment hardware token_hash code_hash draw) s')

  unfoldable pub issued_code :
      Tables × Result Fault IssuedCode → Tables × Result Fault (Option IssuedCode)
  issued_code (s, ok i) = (s, ok (some i))
  issued_code (s, err f) = (s, err f)

  -- The transaction of one attempt. A device that is bound gets no code.
  unfoldable pub attempt : ℕ → ℕ → Draw → Tables → Tables × Result Fault (Option IssuedCode)
  unfolding issued_code transaction take_code
  attempt hardware token_hash draw s =
      if is_some (db.find_first (is_bound_to hardware) s.devices)
      then (s, ok none)
      else issued_code (transaction s (take_code hardware token_hash draw s))

  -- What follows an attempt: the answer, the error, or after a collision the rest.
  unfoldable pub next :
      Tables × Result Fault (Option IssuedCode)
      → (Tables → Tables × Result Fault (Option IssuedCode))
      → Tables × Result Fault (Option IssuedCode)
  next (s, ok o) rest = (s, ok o)
  next (s, err (p9 e)) rest = (s, err (p9 e))
  next (s, err f) rest = rest s

  -- The loop: `left` attempts from the one numbered `i` on.
  unfoldable pub retry :
      ℕ → ℕ → ℕ → (ℕ → Draw) → ℕ → Tables → Tables × Result Fault (Option IssuedCode)
  unfolding next
  retry zero hardware token_hash draws i s =
      (s, err (p9 (p9_error P9ErrorCode.service_unavailable 503)))
  retry (suc left) hardware token_hash draws i s =
      next (attempt hardware token_hash (draws i) s)
        (λ s'. retry left hardware token_hash draws (i + 1) s')

  -- `issueForHardware`
  unfoldable pub issue_for_hardware :
      ℕ → ℕ → (ℕ → Draw) → Tables → Tables × Result Fault (Option IssuedCode)
  unfolding retry
  issue_for_hardware hardware token_hash draws s = retry 8 hardware token_hash draws 0 s
