-- ===== src/Pairing/Claim/Valid.antt =====
-- A claim keeps the tables valid.
use mathlib.Core.List.{Memᴰ}
use backend_bmo_blabs.Base.{
  ℕ, ◌+◌, ◌<◌, ◌≡◌, refl, inl, inr, Bool, true, false, ◌&&◌, not, some, List, [], ◌∷◌, ◌++◌, sym,
  ap, subst, ◌==◌, ltb, leb, Result, ok, err, if◌then◌else◌, arith, Bool-cases, Option-cases,
}
use backend_bmo_blabs.Database.{assign, count, count-append_one, count-map_lt, find_none}
use backend_bmo_blabs.Pairing.{Fault, Services, is_pairing_code}
use backend_bmo_blabs.Pairing.Rows.{
  EnrollmentRow, EnrollmentStatus, DeviceRow, DeviceStatus, DeviceSettingsRow, Tables, is_issued,
  is_issued_for, is_issued_code, is_active_of, is_bound_to,
}
use backend_bmo_blabs.Pairing.Invariant.{
  IsValid, Retires, updated-IsValid, IsGood, transaction-IsGood,
}
use backend_bmo_blabs.Pairing.Claim.{
  create_claimed, record_claim, mark_claimed, claim_enrollment, claim,
}

-- Devices with one more active device, of a user and a hardware that had none.
added-IsValid :
    (s : Tables) (d : DeviceRow) (rows : List DeviceSettingsRow)
    → d.status ≡ DeviceStatus.active
    → IsValid s
    → count (is_active_of d.user_id) s.devices ≡ 0
    → count (is_issued_for d.hardware_id) s.enrollments
        + count (is_bound_to d.hardware_id) s.devices
      ≡ 0
    → IsValid (record s { devices = s.devices ++ d ∷ []; settings = rows })
added-IsValid s d rows act v user_free hardware_free = record {
  one_code = v.one_code;
  one_device = λ u.
      let more = count-append_one (is_active_of u) s.devices d in
      let one = v.one_device u in
      elim (Bool-cases (d.user_id == u)) [
        | inl same ↦
            let e : d.user_id ≡ u = ground arith in
            let free : count (is_active_of u) s.devices ≡ 0 =
              subst (λ x. count (is_active_of x) s.devices ≡ 0) e user_free in
            ground arith
        | inr other ↦ ground arith
      ];
  one_holder = λ h.
      let more = count-append_one (is_bound_to h) s.devices d in
      let one = v.one_holder h in
      elim (Bool-cases (d.hardware_id == h)) [
        | inl same ↦
            let e : d.hardware_id ≡ h = ground arith in
            let free : count (is_issued_for h) s.enrollments + count (is_bound_to h) s.devices ≡ 0 =
              subst
                (λ x. count (is_issued_for x) s.enrollments + count (is_bound_to x) s.devices ≡ 0) e
                hardware_free in
            ground arith
        | inr other ↦ ground arith
      ];
}

module _ (env : Services) where
  open env use {db}

  create_claimed-IsGood :
      (user : ℕ) (e : EnrollmentRow) (device_id clock : ℕ) (s : Tables)
      → IsValid s
      → count (is_issued_for e.hardware_id) s.enrollments
          + count (is_bound_to e.hardware_id) s.devices
        ≡ 0
      → IsGood (create_claimed env user e device_id clock s)
  unfolding create_claimed
  create_claimed-IsGood user e device_id clock s v free =
      let n = db.counted (is_active_of user) s.devices in
      elim (Bool-cases (ltb 0 (db.count_rows (is_active_of user) s.devices))) [
        | inl busy ↦ rw busy (record { valid = v; accepted = λ h. ground arith })
        | inr idle ↦
            let none_active : count (is_active_of user) s.devices ≡ 0 = ground arith in
            let a = find_none (is_active_of user) db s.devices none_active in
            let b = find_none (is_bound_to e.hardware_id) db s.devices (omega arith) in
            rw idle (
              rw (a, b)
                (record {
                  valid = rw (db.created _ s.devices) (added-IsValid s _ _ refl v none_active free);
                  accepted = λ h. ground arith;
                }))
      ]

  abbrev claimed_row : ℕ → ℕ → EnrollmentRow → EnrollmentRow
  claimed_row user now q = record q {
    status = EnrollmentStatus.claimed;
    claimed_at = some now;
    claimed_user_id = some user;
  }

  -- The tables after the enrollment has been marked.
  abbrev pub marked : ℕ → EnrollmentRow → ℕ → Tables → Tables
  marked user e now s = record s { enrollments = (mark_claimed env user e now s).0 }

  claimed_row-Retires : (user now : ℕ) → Retires (claimed_row user now)
  claimed_row-Retires user now = record {
    for_hardware = λ h q g. absurd (ground arith);
    for_code = λ c q g. absurd (ground arith);
  }

  pub marked-IsValid :
      (user : ℕ) (e : EnrollmentRow) (now : ℕ) (s : Tables)
      → IsValid s
      → IsValid (marked user e now s)
  unfolding mark_claimed
  marked-IsValid user e now s v =
      updated-IsValid db _ (claimed_row user now) (claimed_row-Retires user now) s v

  -- Marking ends the issued row of the enrollment's hardware and of its code.
  marked_lt :
      (p : EnrollmentRow → Bool) (user : ℕ) (e : EnrollmentRow) (now : ℕ) (s : Tables)
      → ((q : EnrollmentRow) → p q ≡ true → is_issued q ≡ true)
      → Memᴰ e s.enrollments
      → p e ≡ true
      → now < e.expires_at
      → count p (marked user e now s).enrollments < count p s.enrollments
  unfolding mark_claimed
  marked_lt p user e now s only m hit early =
      let test : EnrollmentRow → Bool = λ q. q.id == e.id && is_issued q && ltb now q.expires_at in
      let issued = only e hit in
      let selected : test e ≡ true = ground arith in
      let stays : (q : EnrollmentRow)
          → p (assign test (claimed_row user now) q) ≡ true
          → p q ≡ true =
        λ q g. elim (Bool-cases (test q)) [
          | inl y ↦
              let ended = only (assign test (claimed_row user now) q) g in absurd (ground arith)
          | inr n ↦ subst (λ x. p x ≡ true) (ap (λ b. if b then claimed_row user now q else q) n) g
        ] in
      let ends : p (assign test (claimed_row user now) e) ≡ false =
        elim (Bool-cases (p (assign test (claimed_row user now) e))) [
          | inl y ↦ let ended = only _ y in absurd (ground arith)
          | inr n ↦ n
        ] in
      subst (λ t. count p t < count p s.enrollments)
        (sym (ap (λ u. u.0) (db.updated test (claimed_row user now) s.enrollments)))
        (count-map_lt p (assign test (claimed_row user now)) stays s.enrollments e m hit ends)

  pub given_device-Retires : (d : ℕ) → Retires (λ q. record q { claimed_device_id = some d })
  given_device-Retires d = record {
    for_hardware = λ h q g. ground arith;
    for_code = λ c q g. ground arith;
  }

  record_claim-IsGood :
      (user : ℕ) (e : EnrollmentRow) (c : Tables × Result Fault DeviceRow)
      → IsGood c
      → IsGood (record_claim env user e c)
  unfolding record_claim
  record_claim-IsGood user e (s, err f) g = g
  record_claim-IsGood user e (s, ok d) g =
      let v = updated-IsValid db (λ q. q.id == e.id) _ (given_device-Retires d.id) s g.valid in
      record {
        valid = record {
          one_code = v.one_code;
          one_device = v.one_device;
          one_holder = v.one_holder;
        };
        accepted = λ h. ground arith;
      }

  expired_row-Retires : Retires (λ q. record q { status = EnrollmentStatus.expired })
  expired_row-Retires = record {
    for_hardware = λ h q g. absurd (ground arith);
    for_code = λ c q g. absurd (ground arith);
  }

  pub marked_free :
      (user : ℕ) (e : EnrollmentRow) (now : ℕ) (s : Tables)
      → IsValid s
      → Memᴰ e s.enrollments
      → is_issued e ≡ true
      → now < e.expires_at
      → (count (is_issued_for e.hardware_id) (marked user e now s).enrollments
            + count (is_bound_to e.hardware_id) s.devices
          ≡ 0)
        × (count (is_issued_code e.code_hash) (marked user e now s).enrollments ≡ 0)
  marked_free user e now s v m issued early =
      let a =
        marked_lt (is_issued_for e.hardware_id) user e now s (λ q g. ground arith) m (ground arith)
          early in
      let b =
        marked_lt (is_issued_code e.code_hash) user e now s (λ q g. ground arith) m (ground arith)
          early in
      let one = v.one_holder e.hardware_id in
      let code = v.one_code e.code_hash in (omega arith, omega arith)

  claim_enrollment-IsGood :
      (user now device_id clock : ℕ) (e : EnrollmentRow) (s : Tables)
      → IsValid s
      → Memᴰ e s.enrollments
      → is_issued e ≡ true
      → IsGood (claim_enrollment env user now device_id clock e s)
  unfolding claim_enrollment
  claim_enrollment-IsGood user now device_id clock e s v m issued =
      elim (Bool-cases (leb e.expires_at now)) [
        | inl late ↦ rw late (record {
          valid = updated-IsValid db (λ q. q.id == e.id && is_issued q) _ expired_row-Retires s v;
          accepted = λ h. ground arith;
        })
        | inr early ↦
            let s' = marked user e now s in
            let v' = marked-IsValid user e now s v in
            elim (Bool-cases (not ((mark_claimed env user e now s).1 == 1))) [
              | inl lost ↦ rw early (rw lost (record { valid = v'; accepted = λ h. ground arith }))
              | inr won ↦ rw early (
                  rw won (
                    transaction-IsGood s _ v (
                      record_claim-IsGood user e _ (
                        create_claimed-IsGood user e device_id clock s' v'
                          ((marked_free user e now s v m issued (ground arith)).0)))))
            ]
      ]

  -- On valid tables, that the transactions before the lock leave valid, a claim leaves valid tables
  -- whatever it answers, and no unique index refuses a row that it writes.
  pub claim-IsGood :
      (user : ℕ) (code : List ℕ) (now device_id clock : ℕ) (others : Tables → Tables) (s : Tables)
      → IsValid s
      → IsValid (others s)
      → IsGood (claim env user code now device_id clock others s)
  unfolding claim
  claim-IsGood user code now device_id clock others s v v' =
      elim (Bool-cases (not (is_pairing_code code))) [
        | inl bad ↦ rw bad (record { valid = v; accepted = λ h. ground arith })
        | inr good ↦
            elim (Option-cases
              (db.find_first (is_issued_code (env.keyed_digest code env.pepper)) s.enrollments)) [
                | inl missing ↦
                    rw good (rw (missing) (record { valid = v; accepted = λ h. ground arith }))
                | inr (candidate, seen) ↦
                    elim (Option-cases (
                      db.find_first (λ q. q.id == candidate.id && is_issued q)
                        (others s).enrollments)) [
                          | inl gone ↦ rw good (
                              rw (seen)
                                (rw (gone) (record { valid = v'; accepted = λ h. ground arith })))
                          | inr (e, locked) ↦
                              let (fits, m) = db.found _ _ e locked in
                              rw good (
                                rw (seen) (
                                  rw (locked) (
                                    claim_enrollment-IsGood user now device_id clock e (others s) v'
                                      m (ground arith))))
                        ]
              ]
      ]
