-- ===== src/Session/Later.antt =====
-- A session that has ended, and the calls that may follow.
use backend_bmo_blabs.Base.{
  ℕ, ◌≡◌, ◌≢◌, refl, sym, ap, subst, inl, inr, Bool, true, false, ◌&&◌, not, Option, some, List, [],
  ◌∷◌, All, Result, ◌==◌, is_some, if◌then◌else◌, arith, Bool-cases, Option-cases,
}
use backend_bmo_blabs.Database.{assign, All-map, All-mem, All-append_one}
use backend_bmo_blabs.Errors.{P9Error}
use backend_bmo_blabs.Session.Rows.{SessionRow, RefreshTokenRow, RevokedReason, Tables}
use backend_bmo_blabs.Session.Revocation.{find_token_found}
use backend_bmo_blabs.Session.Logout.{is_active_false, revoke_current_rows}
use backend_bmo_blabs.Session.{
  SessionTokens, Services, Fresh, record_audit, find_token, is_invalid, mark_used, revoke_family,
  reject, rotate, refresh, refresh_stored, revoke_current, revoke_all, is_active, issue_session,
  issue_rows, owns_device,
}

-- A call of any user, with what it draws and the reading of the clock.
pub data Call : Type 0 where
  issues : ℕ → Option ℕ → Fresh → ℕ → Call
  refreshes : ℕ → Fresh → ℕ → Call
  revokes_current : ℕ → ℕ → RevokedReason → ℕ → Call
  revokes_all : ℕ → RevokedReason → ℕ → Call

-- A login draws another id.
unfoldable pub Spares : ℕ → Call → Type 0
Spares session_id (Call.issues user device fresh now) = fresh.session_id ≢ session_id
Spares session_id _ = Unit

module _ (env : Services) where
  open env use {db, sha256_hex}

  pub step : Call → Tables → Tables
  step (Call.issues user device fresh now) s = (issue_session env user device fresh now s).0
  step (Call.refreshes token fresh now) s = (refresh env token fresh now (λ t. t) s).0
  step (Call.revokes_current user session_id reason now) s =
      revoke_current env user session_id reason now s
  step (Call.revokes_all user reason now) s = revoke_all env user reason now s

  pub run : List Call → Tables → Tables
  run [] s = s
  run (c ∷ cs) s = run cs (step c s)

  module _ (user session_id : ℕ) where
    abbrev Ended : SessionRow → Type 0
    Ended r = r.id ≡ session_id → r.user_id ≡ user → is_some r.revoked_at ≡ true

    abbrev IsEnded : Tables → Type 0
    IsEnded s = All Ended s.sessions

    update-All :
        (p : SessionRow → Bool) (f : SessionRow → SessionRow) (rows : List SessionRow)
        → ((r : SessionRow) → Ended r → Ended (f r))
        → All Ended rows
        → All Ended (db.update_many p f rows).0
    update-All p f rows h a =
        subst (All Ended) (sym (ap (λ u. u.0) (db.updated p f rows)))
          (All-map Ended Ended (assign p f) assigned rows a)
      where
        assigned : (r : SessionRow) → Ended r → Ended (assign p f r)
        assigned r e = elim (Bool-cases (p r)) [
          | inl hit ↦ rw (hit, assign) (h r e)
          | inr miss ↦ rw (miss, assign) e
        ]

    family-IsEnded :
        (family now : ℕ) (reason : RevokedReason) (s : Tables)
        → IsEnded s
        → IsEnded (revoke_family env family now reason s)
    unfolding revoke_family
    family-IsEnded family now reason s v = update-All _ _ s.sessions (λ r h i o. refl) v

    issue-IsEnded :
        (owner : ℕ) (device : Option ℕ) (fresh : Fresh) (now : ℕ) (s : Tables)
        → fresh.session_id ≢ session_id
        → IsEnded s
        → IsEnded (issue_session env owner device fresh now s).0
    unfolding issue_session issue_rows
    issue-IsEnded owner device fresh now s other v =
        elim (Bool-cases (owns_device env owner device s)) [
          | inr foreign ↦ rw (foreign, issue_session) v
          | inl own ↦
              rw (own, issue_session)
                (subst (All Ended) (sym (db.created _ s.sessions))
                  (All-append_one Ended s.sessions _ v (λ i o. absurd (other i))))
        ]

    stored-IsEnded :
        (fresh : Fresh) (now : ℕ) (t : RefreshTokenRow) (r : SessionRow) (s : Tables)
        → IsEnded s
        → IsEnded (refresh_stored env fresh now t r s).0
    unfolding refresh_stored reject rotate record_audit
    stored-IsEnded fresh now t r s v =
        by_tests (is_invalid env now t r) ((mark_used env now t s).1 == 1) _ _ _
          (family-IsEnded t.family_id now _ s v) (update-All _ _ s.sessions (λ q h. h) v)
          (family-IsEnded t.family_id now _ (record s { tokens = (mark_used env now t s).0 }) v)
      where
        by_tests :
            (a b : Bool) (x y z : Tables × Result P9Error SessionTokens)
            → IsEnded x.0
            → IsEnded y.0
            → IsEnded z.0
            → IsEnded (if a then x else if b then y else z).0
        by_tests true b x y z p q o = p
        by_tests false true x y z p q o = q
        by_tests false false x y z p q o = o

    refresh-IsEnded :
        (token : ℕ) (fresh : Fresh) (now : ℕ) (s : Tables)
        → IsEnded s
        → IsEnded (refresh env token fresh now (λ t. t) s).0
    unfolding refresh
    refresh-IsEnded token fresh now s v =
        elim (Option-cases (find_token env (sha256_hex token) s)) [
          | inl missing ↦ rw (missing, refresh) v
          | inr ((t, r), at) ↦ elim (Bool-cases (r.user_id == r.user_id)) [
            | inl same ↦ rw (at, refresh) (rw (at) (rw (same) (stored-IsEnded fresh now t r s v)))
            | inr other ↦ absurd (ground arith)
          ]
        ]

    current-IsEnded :
        (owner other : ℕ) (reason : RevokedReason) (now : ℕ) (s : Tables)
        → IsEnded s
        → IsEnded (revoke_current env owner other reason now s)
    current-IsEnded owner other reason now s v =
        subst (All Ended) (sym rows) (update-All _ _ s.sessions (λ r h i o. refl) v)
      where
        rows :
            (revoke_current env owner other reason now s).sessions
            ≡ (db.update_many
                (λ r. r.id == other && r.user_id == owner && not (is_some r.revoked_at))
                (λ r. record r { revoked_at = some now; revoked_reason = some reason })
                s.sessions).0
        rows = unfold revoke_current record_audit in ground arith

    run-IsEnded :
        (cs : List Call) (s : Tables) → All (Spares session_id) cs → IsEnded s → IsEnded (run cs s)
    unfolding run step Spares revoke_all record_audit
    run-IsEnded [] s a v = v
    run-IsEnded (Call.issues owner device fresh now ∷ cs) s a v =
        run-IsEnded cs _ a.1 (issue-IsEnded owner device fresh now s a.0 v)
    run-IsEnded (Call.refreshes token fresh now ∷ cs) s a v =
        run-IsEnded cs _ a.1 (refresh-IsEnded token fresh now s v)
    run-IsEnded (Call.revokes_current owner other reason now ∷ cs) s a v =
        run-IsEnded cs _ a.1 (current-IsEnded owner other reason now s v)
    run-IsEnded (Call.revokes_all owner reason now ∷ cs) s a v =
        run-IsEnded cs _ a.1 (update-All _ _ s.sessions (λ r h i o. refl) v)

  -- Logging out of a session ends it for good: whatever logins, refreshes and logouts of any users
  -- follow, as long as no login draws the same id again, the session is not active at any time, and
  -- no token of it is valid.
  pub logged_out_for_good :
      (user session_id now : ℕ) (reason : RevokedReason) (s : Tables) (calls : List Call)
      → All (Spares session_id) calls
      → (later : ℕ)
      → let s' = run calls (revoke_current env user session_id reason now s) in
        (is_active env user session_id later s' ≡ false)
        × ((token_hash : ℕ) (t : RefreshTokenRow) (r : SessionRow)
            → find_token env token_hash s' ≡ some (t, r)
            → r.id ≡ session_id
            → r.user_id ≡ user
            → is_invalid env later t r ≡ true)
  unfolding is_invalid
  logged_out_for_good user session_id now reason s calls spares later =
      let s' = run calls (revoke_current env user session_id reason now s) in
      let ended =
        run-IsEnded user session_id calls _ spares
          (revoke_current_rows env user session_id now reason s) in
      (
        is_active_false env user session_id later s' ended,
        λ token_hash t r e same own.
            let revoked =
              All-mem _ s'.sessions r ended (find_token_found env token_hash s' t r e).2 same own in
            ground (arith, revoked),
      )
