-- ===== src/Pairing/Later.antt =====
-- After a code has been claimed: the calls of other users and devices that may follow.
use backend_bmo_blabs.Base.{
  ℕ, zero, suc, ◌+◌, ◌≡◌, ◌≢◌, inl, inr, Bool, true, false, ◌&&◌, not, List, [], ◌∷◌, All, sym, ap,
  subst, ◌==◌, leb, is_some, if◌then◌else◌, Result, ok, err, Option, arith, Bool-cases,
  Option-cases,
}
use backend_bmo_blabs.Database.{assign, count, count-append_one, count-map_le}
use backend_bmo_blabs.Pairing.{
  Fault, p9, Services, Draw, IssuedCode, is_pairing_code, transaction, invalid_code,
}
use backend_bmo_blabs.Pairing.Rows.{
  EnrollmentRow, DeviceRow, Tables, is_issued, is_issued_code, is_bound_to,
}
use mathlib.Core.List.{Memᴰ}
use backend_bmo_blabs.Pairing.Invariant.{IsValid}
use backend_bmo_blabs.Pairing.Claim.Once.{
  create_claimed_enrollments, record_claim_le, claim_refused, claim_spends,
}
use backend_bmo_blabs.Pairing.Issue.{
  retire, create_enrollment, new_enrollment, record_issue, take_code, issued_code, attempt, next,
  retry, issue_for_hardware, is_limited, repeats, is_in_use,
}
use backend_bmo_blabs.Pairing.Claim.{
  create_claimed, record_claim, mark_claimed, claim_enrollment, claim,
}

-- A call of a device or a user, with what it draws and the readings of the clocks.
pub data Call : Type 0 where
  issues : ℕ → ℕ → (ℕ → Draw) → Call
  claims : ℕ → List ℕ → ℕ → ℕ → ℕ → Call

module _ (env : Services) where
  open env use {db, keyed_digest, pepper}

  pub step : Call → Tables → Tables
  step (Call.issues hardware token_hash draws) s =
      (issue_for_hardware env hardware token_hash draws s).0
  step (Call.claims user code now device_id clock) s =
      (claim env user code now device_id clock (λ t. t) s).0

  pub run : List Call → Tables → Tables
  run [] s = s
  run (c ∷ cs) s = run cs (step c s)

  -- The call draws no code of this hash.
  unfoldable pub Spares : ℕ → Call → Type 0
  Spares h (Call.issues hardware token_hash draws) =
      (k : ℕ) → keyed_digest (draws k).code pepper ≢ h
  Spares h (Call.claims user code now device_id clock) = Unit

  module _ (h : ℕ) where
    abbrev pub IsSpent : Tables → Type 0
    IsSpent s = count (is_issued_code h) s.enrollments ≡ 0

    update-IsSpent :
        (p : EnrollmentRow → Bool) (f : EnrollmentRow → EnrollmentRow) (rows : List EnrollmentRow)
        → ((e : EnrollmentRow) → is_issued_code h (f e) ≡ true → is_issued_code h e ≡ true)
        → count (is_issued_code h) rows ≡ 0
        → count (is_issued_code h) (db.update_many p f rows).0 ≡ 0
    update-IsSpent p f rows keeps v =
        let less = count-map_le (is_issued_code h) (assign p f) (λ e g. assigned e g) rows in
        subst (λ t. count (is_issued_code h) t ≡ 0) (sym (ap (λ u. u.0) (db.updated p f rows)))
          (omega arith)
      where
        assigned :
            (e : EnrollmentRow) → is_issued_code h (assign p f e) ≡ true → is_issued_code h e ≡ true
        assigned e g = elim (Bool-cases (p e)) [
          | inl y ↦ keeps e (ground arith)
          | inr n ↦ ground arith
        ]

    transaction-IsSpent :
        {A : Type 0} (s : Tables) (c : Tables × Result Fault A)
        → IsSpent s
        → IsSpent c.0
        → IsSpent (transaction s c).0
    unfolding transaction
    transaction-IsSpent s (t, ok a) v w = w
    transaction-IsSpent s (t, err f) v w = v

    retire-IsSpent :
        (hardware code_hash now : ℕ) (s : Tables)
        → IsSpent s
        → IsSpent (retire env hardware code_hash now s)
    unfolding retire
    retire-IsSpent hardware code_hash now s v =
        update-IsSpent _ _ _ (λ e g. absurd (ground arith))
          (update-IsSpent _ _ s.enrollments (λ e g. absurd (ground arith)) v)

    create-IsSpent :
        (e : EnrollmentRow) (s : Tables)
        → e.code_hash ≢ h
        → IsSpent s
        → IsSpent (create_enrollment env e s).0
    unfolding create_enrollment
    create-IsSpent e s other v =
        let made = ap (count (is_issued_code h)) (db.created e s.enrollments) in
        let more = count-append_one (is_issued_code h) s.enrollments e in ground arith

    record_issue-IsSpent :
        (draw : Draw) (c : Tables × Result Fault EnrollmentRow)
        → IsSpent c.0
        → IsSpent (record_issue env draw c).0
    unfolding record_issue
    record_issue-IsSpent draw (s, ok e) v = v
    record_issue-IsSpent draw (s, err f) v = v

    take_code-IsSpent :
        (hardware token_hash : ℕ) (draw : Draw) (s : Tables)
        → keyed_digest draw.code pepper ≢ h
        → IsSpent s
        → IsSpent (take_code env hardware token_hash draw s).0
    unfolding take_code new_enrollment
    take_code-IsSpent hardware token_hash draw s other v =
        let code_hash = keyed_digest draw.code pepper in
        let s' = retire env hardware code_hash draw.now s in
        let w = retire-IsSpent hardware code_hash draw.now s v in
        let e = new_enrollment env hardware token_hash code_hash draw in
        let last =
          record_issue-IsSpent draw (create_enrollment env e s') (create-IsSpent e s' other w) in
        by_tests (is_limited env hardware draw.now s) (repeats env hardware code_hash s)
          (is_in_use env code_hash s') _ _ _ _ v v w last
      where
        by_tests :
            (a b c : Bool) (w x y z : Tables × Result Fault IssuedCode)
            → IsSpent w.0
            → IsSpent x.0
            → IsSpent y.0
            → IsSpent z.0
            → IsSpent (if a then w else if b then x else if c then y else z).0
        by_tests true b c w x y z p q r t = p
        by_tests false true c w x y z p q r t = q
        by_tests false false true w x y z p q r t = r
        by_tests false false false w x y z p q r t = t

    issued-IsSpent :
        (c : Tables × Result Fault IssuedCode) → IsSpent c.0 → IsSpent (issued_code env c).0
    unfolding issued_code
    issued-IsSpent (s, ok i) v = v
    issued-IsSpent (s, err f) v = v

    attempt-IsSpent :
        (hardware token_hash : ℕ) (draw : Draw) (s : Tables)
        → keyed_digest draw.code pepper ≢ h
        → IsSpent s
        → IsSpent (attempt env hardware token_hash draw s).0
    unfolding attempt
    attempt-IsSpent hardware token_hash draw s other v =
        elim (Bool-cases (is_some (db.find_first (is_bound_to hardware) s.devices))) [
          | inl bound ↦ rw (bound, attempt) v
          | inr free ↦
              rw (free, attempt)
                (issued-IsSpent (transaction s (take_code env hardware token_hash draw s)) (
                  transaction-IsSpent s (take_code env hardware token_hash draw s) v
                    (take_code-IsSpent hardware token_hash draw s other v)))
        ]

    next-IsSpent :
        (c : Tables × Result Fault (Option IssuedCode))
        (rest : Tables → Tables × Result Fault (Option IssuedCode))
        → IsSpent c.0
        → ((t : Tables) → IsSpent t → IsSpent (rest t).0)
        → IsSpent (next env c rest).0
    unfolding next
    next-IsSpent (s, ok o) rest v k = v
    next-IsSpent (s, err (p9 e)) rest v k = v
    next-IsSpent (s, err Fault.unique_constraint) rest v k = k s v
    next-IsSpent (s, err Fault.pairing_code_collision) rest v k = k s v

    retry-IsSpent :
        (left hardware token_hash : ℕ) (draws : ℕ → Draw) (i : ℕ) (s : Tables)
        → ((k : ℕ) → keyed_digest (draws k).code pepper ≢ h)
        → IsSpent s
        → IsSpent (retry env left hardware token_hash draws i s).0
    unfolding retry
    retry-IsSpent zero hardware token_hash draws i s other v = v
    retry-IsSpent (suc left) hardware token_hash draws i s other v =
        next-IsSpent (attempt env hardware token_hash (draws i) s) _
          (attempt-IsSpent hardware token_hash (draws i) s (other i) v)
          (λ t w. retry-IsSpent left hardware token_hash draws (i + 1) t other w)

    mark-IsSpent :
        (user now : ℕ) (e : EnrollmentRow) (s : Tables)
        → IsSpent s
        → IsSpent (record s { enrollments = (mark_claimed env user e now s).0 })
    unfolding mark_claimed
    mark-IsSpent user now e s v = update-IsSpent _ _ s.enrollments (λ q g. absurd (ground arith)) v

    claim_enrollment-IsSpent :
        (user now device_id clock : ℕ) (e : EnrollmentRow) (s : Tables)
        → IsSpent s
        → IsSpent (claim_enrollment env user now device_id clock e s).0
    unfolding claim_enrollment
    claim_enrollment-IsSpent user now device_id clock e s v =
        let marked = record s { enrollments = (mark_claimed env user e now s).0 } in
        let w = mark-IsSpent user now e s v in
        let c = create_claimed env user e device_id clock marked in
        let less = record_claim_le env user h e c in
        let same =
          ap (count (is_issued_code h))
            (create_claimed_enrollments env user e device_id clock marked) in
        let last : IsSpent (record_claim env user e c).0 = omega arith in
        by_tests (leb e.expires_at now) (not ((mark_claimed env user e now s).1 == 1)) _ _ _
          (update-IsSpent _ _ s.enrollments (λ q g. absurd (ground arith)) v) w
          (transaction-IsSpent s (record_claim env user e c) v last)
      where
        by_tests :
            (a b : Bool) (x y z : Tables × Result Fault DeviceRow)
            → IsSpent x.0
            → IsSpent y.0
            → IsSpent z.0
            → IsSpent (if a then x else if b then y else z).0
        by_tests true b x y z p q r = p
        by_tests false true x y z p q r = q
        by_tests false false x y z p q r = r

    claim-IsSpent :
        (user : ℕ) (code : List ℕ) (now device_id clock : ℕ) (s : Tables)
        → IsSpent s
        → IsSpent (claim env user code now device_id clock (λ t. t) s).0
    unfolding claim
    claim-IsSpent user code now device_id clock s v = elim (Bool-cases (is_pairing_code code)) [
      | inr bad ↦ rw (bad, claim) v
      | inl good ↦
          elim (Option-cases
            (db.find_first (is_issued_code (keyed_digest code pepper)) s.enrollments)) [
              | inl missing ↦ rw (good, claim) (rw (missing) v)
              | inr (candidate, seen) ↦
                  elim (Option-cases
                    (db.find_first (λ q. q.id == candidate.id && is_issued q) s.enrollments)) [
                      | inl gone ↦ rw (good, claim) (rw (seen) (rw (gone) v))
                      | inr (e, locked) ↦
                          rw (good, claim)
                            (rw (seen) (
                              rw (locked)
                                (claim_enrollment-IsSpent user now device_id clock e s v)))
                    ]
            ]
    ]

    run-IsSpent : (cs : List Call) (s : Tables) → All (Spares h) cs → IsSpent s → IsSpent (run cs s)
    unfolding run step Spares issue_for_hardware
    run-IsSpent [] s a v = v
    run-IsSpent (Call.issues hardware token_hash draws ∷ cs) s a v =
        run-IsSpent cs _ a.1 (retry-IsSpent 8 hardware token_hash draws 0 s a.0 v)
    run-IsSpent (Call.claims user code now device_id clock ∷ cs) s a v =
        run-IsSpent cs _ a.1 (claim-IsSpent user code now device_id clock s v)

  -- A code that has been claimed is refused from then on to every user at any time, whatever codes
  -- are issued and claimed in between, as long as no issue draws a code of the same hash again. Until
  -- the lock of the first claim is held, other transactions keep the tables valid and give no
  -- enrollment another code.
  pub claimed_once :
      (user : ℕ) (code : List ℕ) (now device_id clock : ℕ) (others : Tables → Tables) (s : Tables)
      (d : DeviceRow)
      → IsValid (others s)
      → ((q q' : EnrollmentRow)
          → Memᴰ q s.enrollments
          → Memᴰ q' (others s).enrollments
          → q'.id ≡ q.id
          → q'.code_hash ≡ q.code_hash)
      → (claim env user code now device_id clock others s).1 ≡ ok d
      → (calls : List Call) → All (Spares (keyed_digest code pepper)) calls
      → (user' now' device_id' clock' : ℕ) (others' : Tables → Tables)
      → let s' = run calls (claim env user code now device_id clock others s).0 in
        claim env user' code now' device_id' clock' others' s' ≡ (s', err invalid_code)
  claimed_once user code now device_id clock others s d v kept h calls spares user' now' device_id'
        clock' others' =
      let (good, spent) = claim_spends env user code now device_id clock others s d v kept h in
      claim_refused env user' code now' device_id' clock' others' _ good
        (run-IsSpent (keyed_digest code pepper) calls _ spares spent)
