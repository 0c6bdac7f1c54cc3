-- ===== src/Pairing/Claim.antt =====
-- `claim` of the hardware enrollment service, and `createClaimed` of the device service.
pub mod Valid
pub mod Once
mod Tests
use backend_bmo_blabs.Base.{
  ℕ, zero, suc, ◌+◌, ◌*◌, Bool, true, false, ◌&&◌, ◌||◌, not, Option, none, some, List, [], ◌∷◌,
  Result, ok, err, ltb, leb, ◌==◌, if◌then◌else◌, is_some, length,
}
use backend_bmo_blabs.Database.{Database}
use backend_bmo_blabs.Errors.{P9Error, P9ErrorCode, p9_error}
use backend_bmo_blabs.Pairing.Rows.{
  EnrollmentStatus, EnrollmentRow, DeviceStatus, DeviceRow, AuditRow, Tables, is_issued, is_active,
  is_bound, is_issued_for, is_issued_code, is_active_of, is_bound_to,
}
use backend_bmo_blabs.Pairing.{
  Fault, p9, unique_constraint, pairing_code_collision, Services, Draw, IssuedCode, is_pairing_code,
  transaction, invalid_code,
}

module _ (env : Services) where
  open env use {db, keyed_digest, pepper, bmo}

  -- `DeviceService.createClaimed`, under the unique indexes of active and of bound devices.
  unfoldable pub create_claimed :
      ℕ → EnrollmentRow → ℕ → ℕ → Tables → Tables × Result Fault DeviceRow
  create_claimed user e device_id clock s =
      let active_count = db.count_rows (is_active_of user) s.devices in
      let device : DeviceRow = record {
        id = device_id;
        user_id = user;
        hardware_id = e.hardware_id;
        name = bmo;
        token_hash = e.token_hash;
        status = DeviceStatus.active;
        paired_at = some clock;
      } in
      if ltb 0 active_count
      then (s, err (p9 (p9_error P9ErrorCode.conflict 409)))
      else if is_some (db.find_first (is_active_of user) s.devices)
          || is_some (db.find_first (is_bound_to e.hardware_id) s.devices)
      then (s, err unique_constraint)
      else (
        record s {
          devices = db.create device s.devices;
          settings =
              db.create
                (record {
                  device_id = device_id;
                  display_name = bmo;
                  default_device = active_count == 0;
                })
                s.settings;
        },
        ok device,
      )

  -- The writes after the device has been made.
  unfoldable pub record_claim :
      ℕ → EnrollmentRow → Tables × Result Fault DeviceRow → Tables × Result Fault DeviceRow
  record_claim user e (s, err f) = (s, err f)
  record_claim user e (s, ok d) = (
    record s {
      enrollments =
          (db.update_many (λ q. q.id == e.id) (λ q. record q { claimed_device_id = some d.id })
            s.enrollments).0;
      audit = db.create (AuditRow.hardware_enrollment_claimed d.id user) s.audit;
    },
    ok d,
  )

  -- `claimed`: the enrollment is marked if it is still issued and not expired.
  unfoldable pub mark_claimed : ℕ → EnrollmentRow → ℕ → Tables → List EnrollmentRow × ℕ
  mark_claimed user e now s =
      db.update_many (λ q. q.id == e.id && is_issued q && ltb now q.expires_at)
        (λ q. record q {
          status = EnrollmentStatus.claimed;
          claimed_at = some now;
          claimed_user_id = some user;
        })
        s.enrollments

  -- From the second read of the enrollment on.
  unfoldable pub claim_enrollment :
      ℕ → ℕ → ℕ → ℕ → EnrollmentRow → Tables → Tables × Result Fault DeviceRow
  claim_enrollment user now device_id clock e s =
      let (marked, n) = mark_claimed user e now s in
      if leb e.expires_at now
      then (
        record s {
          enrollments =
              (db.update_many (λ q. q.id == e.id && is_issued q)
                (λ q. record q { status = EnrollmentStatus.expired }) s.enrollments).0;
        },
        err invalid_code,
      )
      else if not (n == 1)
      then (record s { enrollments = marked }, err invalid_code)
      else transaction s (
          record_claim user e
            (create_claimed user e device_id clock (record s { enrollments = marked })))

  -- `claim`. `others` is what other transactions write before the lock is held. A transaction that
  -- returns `INVALID` keeps its writes, and then the call throws.
  unfoldable pub claim :
      ℕ → List ℕ → ℕ → ℕ → ℕ → (Tables → Tables) → Tables → Tables × Result Fault DeviceRow
  claim user code now device_id clock others s =
      let code_hash = keyed_digest code pepper in
      if not (is_pairing_code code)
      then (s, err (p9 (p9_error P9ErrorCode.invalid_input 400)))
      else elim (db.find_first (is_issued_code code_hash) s.enrollments) [
        | none ↦ (s, err invalid_code)
        | some candidate ↦
            elim (db.find_first (λ q. q.id == candidate.id && is_issued q) (others s).enrollments) [
              | none ↦ (others s, err invalid_code)
              | some e ↦ claim_enrollment user now device_id clock e (others s)
            ]
      ]
