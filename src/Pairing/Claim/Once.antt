-- ===== src/Pairing/Claim/Once.antt =====
-- A claim spends its code.
use mathlib.Core.List.{Memᴰ}
use backend_bmo_blabs.Base.{
  ℕ, ◌≤◌, ◌≡◌, refl, inl, inr, Bool, true, ◌&&◌, not, some, List, sym, ap, subst, ◌==◌, ◌∙◌, leb,
  Result, ok, err, arith, Bool-cases, Option-cases,
}
use backend_bmo_blabs.Database.{assign, count, count-map_le, find_none}
use backend_bmo_blabs.Pairing.{Fault, Services, is_pairing_code, transaction, invalid_code}
use backend_bmo_blabs.Pairing.Rows.{EnrollmentRow, DeviceRow, Tables, is_issued, is_issued_code}
use backend_bmo_blabs.Pairing.Invariant.{IsValid, assign-Retires}
use backend_bmo_blabs.Pairing.Claim.{
  create_claimed, record_claim, mark_claimed, claim_enrollment, claim,
}
use backend_bmo_blabs.Pairing.Claim.Valid.{given_device-Retires, marked, marked_free}

transaction-ok :
    {A : Type 0} (s : Tables) (c : Tables × Result Fault A) (a : A)
    → (transaction s c).1 ≡ ok a
    → transaction s c ≡ c
unfolding transaction
transaction-ok s (s', ok b) a e = refl
transaction-ok s (s', err f) a e = absurd (ground arith)

module _ (env : Services) where
  open env use {db, keyed_digest, pepper}

  pub create_claimed_enrollments :
      (user : ℕ) (e : EnrollmentRow) (device_id clock : ℕ) (s : Tables)
      → (create_claimed env user e device_id clock s).0.enrollments ≡ s.enrollments
  unfolding create_claimed
  create_claimed_enrollments user e device_id clock s = ground arith

  pub record_claim_le :
      (user code_hash : ℕ) (e : EnrollmentRow) (c : Tables × Result Fault DeviceRow)
      → count (is_issued_code code_hash) (record_claim env user e c).0.enrollments
        ≤ count (is_issued_code code_hash) c.0.enrollments
  unfolding record_claim
  record_claim_le user code_hash e (s, err f) = omega arith
  record_claim_le user code_hash e (s, ok d) =
      let test : EnrollmentRow → Bool = λ q. q.id == e.id in
      let f : EnrollmentRow → EnrollmentRow = λ q. record q { claimed_device_id = some d.id } in
      subst
        (λ t. count (is_issued_code code_hash) t ≤ count (is_issued_code code_hash) s.enrollments)
        (sym (ap (λ u. u.0) (db.updated test f s.enrollments)))
        (count-map_le (is_issued_code code_hash) (assign test f)
          ((assign-Retires test f (given_device-Retires env d.id)).for_code code_hash)
          s.enrollments)

  claim_enrollment_spends :
      (user now device_id clock : ℕ) (e : EnrollmentRow) (s : Tables) (d : DeviceRow)
      → IsValid s
      → Memᴰ e s.enrollments
      → is_issued e ≡ true
      → (claim_enrollment env user now device_id clock e s).1 ≡ ok d
      → count
          (is_issued_code e.code_hash)
          (claim_enrollment env user now device_id clock e s).0.enrollments
        ≡ 0
  unfolding claim_enrollment
  claim_enrollment_spends user now device_id clock e s d v m issued =
      elim (Bool-cases (leb e.expires_at now)) [
        | inl late ↦ rw late (λ h. absurd (ground arith))
        | inr early ↦ elim (Bool-cases (not ((mark_claimed env user e now s).1 == 1))) [
          | inl lost ↦ rw early (rw lost (λ h. absurd (ground arith)))
          | inr won ↦
              let s' = marked env user e now s in
              let c = create_claimed env user e device_id clock s' in
              let none_left = (marked_free env user e now s v m issued (ground arith)).1 in
              let less = record_claim_le user e.code_hash e c in
              let same =
                ap (count (is_issued_code e.code_hash))
                  (create_claimed_enrollments user e device_id clock s') in
              let spent : count (is_issued_code e.code_hash)
                    (record_claim env user e c).0.enrollments
                  ≡ 0 =
                omega arith in
              rw early (
                rw won (λ h.
                  subst (λ r. count (is_issued_code e.code_hash) r.0.enrollments ≡ 0)
                    (sym (transaction-ok s (record_claim env user e c) d h)) spent))
        ]
      ]

  pub claim_refused :
      (user : ℕ) (code : List ℕ) (now device_id clock : ℕ) (others : Tables → Tables) (s : Tables)
      → is_pairing_code code ≡ true
      → count (is_issued_code (keyed_digest code pepper)) s.enrollments ≡ 0
      → claim env user code now device_id clock others s ≡ (s, err invalid_code)
  unfolding claim
  claim_refused user code now device_id clock others s good none_left =
      rw good
        (rw (find_none (is_issued_code (keyed_digest code pepper)) db s.enrollments none_left) refl)

  -- The enrollment that a claim takes, unless it is refused at once.
  claim_taken :
      (user : ℕ) (code : List ℕ) (now device_id clock : ℕ) (others : Tables → Tables) (s : Tables)
      (d : DeviceRow)
      → (claim env user code now device_id clock others s).1 ≡ ok d
      → (is_pairing_code code ≡ true)
        × ((candidate : EnrollmentRow) × (e : EnrollmentRow) × Memᴰ candidate s.enrollments
            × Memᴰ e (others s).enrollments
            × (candidate.code_hash ≡ keyed_digest code pepper)
            × (e.id ≡ candidate.id)
            × (is_issued e ≡ true)
            × (claim env user code now device_id clock others s
                ≡ claim_enrollment env user now device_id clock e (others s)))
  unfolding claim
  claim_taken user code now device_id clock others s d =
      elim (Bool-cases (not (is_pairing_code code))) [
        | inl bad ↦ rw bad (λ h. absurd (ground arith))
        | inr good ↦
            elim (Option-cases
              (db.find_first (is_issued_code (keyed_digest code pepper)) s.enrollments)) [
                | inl missing ↦ rw good (rw (missing) (λ h. absurd (ground arith)))
                | inr (candidate, seen) ↦
                    elim (Option-cases (
                      db.find_first (λ q. q.id == candidate.id && is_issued q)
                        (others s).enrollments)) [
                          | inl gone ↦ rw good (rw (seen) (rw (gone) (λ h. absurd (ground arith))))
                          | inr (e, locked) ↦
                              let (fits, m) = db.found _ _ e locked in
                              let (right, m') = db.found _ _ candidate seen in
                              rw good (
                                rw (seen) (
                                  rw (locked) (λ h. (
                                    ground arith,
                                    (
                                      candidate,
                                      e,
                                      m',
                                      m,
                                      ground arith,
                                      ground arith,
                                      ground arith,
                                      refl,
                                    ),
                                  ))))
                        ]
              ]
      ]

  -- A claim that succeeds leaves no issued enrollment of its code.
  pub claim_spends :
      (user : ℕ) (code : List ℕ) (now device_id clock : ℕ) (others : Tables → Tables) (s : Tables)
      (d : DeviceRow)
      → IsValid (others s)
      → ((q q' : EnrollmentRow)
          → Memᴰ q s.enrollments
          → Memᴰ q' (others s).enrollments
          → q'.id ≡ q.id
          → q'.code_hash ≡ q.code_hash)
      → (claim env user code now device_id clock others s).1 ≡ ok d
      → (is_pairing_code code ≡ true)
        × (count
              (is_issued_code (keyed_digest code pepper))
              (claim env user code now device_id clock others s).0.enrollments
            ≡ 0)
  claim_spends user code now device_id clock others s d v kept h =
      let (good, (candidate, e, m', m, right, same, issued, taken)) =
        claim_taken user code now device_id clock others s d h in
      let code_hash : e.code_hash ≡ keyed_digest code pepper = kept candidate e m' m same ∙ right in
      let t = claim_enrollment env user now device_id clock e (others s) in
      let made : t.1 ≡ ok d = subst (λ c. c.1 ≡ ok d) taken h in
      let spent = claim_enrollment_spends user now device_id clock e (others s) d v m issued made in
      (
        good,
        subst (λ c. count (is_issued_code (keyed_digest code pepper)) c.0.enrollments ≡ 0)
            (sym taken) (subst (λ x. count (is_issued_code x) t.0.enrollments ≡ 0) code_hash spent),
      )
