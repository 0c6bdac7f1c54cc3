-- ===== src/Session/Logout.antt =====
-- Logging out of one session or of all, and what is still active.
use mathlib.Core.List.{Memᴰ}
use backend_bmo_blabs.Base.{
  ℕ, ◌+◌, ◌*◌, ◌<◌, ◌≡◌, refl, sym, ap, subst, inl, inr, true, false, ◌&&◌, not, Option, none, some,
  List, [], ◌∷◌, err, ◌==◌, ltb, is_some, arith, All, Option-cases,
}
use backend_bmo_blabs.Database.{All-mem, mem-append_last}
use backend_bmo_blabs.Errors.{device_not_found}
use backend_bmo_blabs.Session.Rows.{SessionRow, RefreshTokenRow, RevokedReason, Tables}
use backend_bmo_blabs.Session.Revocation.{All-updated, find_token_found}
use backend_bmo_blabs.Session.{
  Services, Fresh, record_audit, find_token, is_invalid, revoke_current, revoke_all, is_active,
  issue_session, issue_rows, owns_device,
}

module _ (env : Services) where
  open env use {db, sha256_hex, refresh_ttl_seconds}

  -- Every session of the user is revoked.
  abbrev AllRevoked : ℕ → Tables → Type 0
  AllRevoked user_id s = All (λ r. r.user_id ≡ user_id → is_some r.revoked_at ≡ true) s.sessions

  -- No session that is active is revoked.
  pub is_active_false :
      (user_id session_id now : ℕ) (s : Tables)
      → All (λ r. r.id ≡ session_id → r.user_id ≡ user_id → is_some r.revoked_at ≡ true) s.sessions
      → is_active env user_id session_id now s ≡ false
  unfolding is_active
  is_active_false user_id session_id now s gone =
      elim (Option-cases (
        db.find_first
          (λ r.
            r.id == session_id
            && r.user_id == user_id
            && not (is_some r.revoked_at)
            && ltb now r.expires_at)
          s.sessions)) [
            | inl missing ↦ ap is_some missing
            | inr (r, at) ↦
                let (fits, stored) = db.found _ s.sessions r at in
                let revoked = All-mem _ s.sessions r gone stored in absurd (ground (arith, revoked))
          ]

  revoke_all_sessions :
      (user_id now : ℕ) (reason : RevokedReason) (s : Tables)
      → AllRevoked user_id (revoke_all env user_id reason now s)
  unfolding revoke_all record_audit
  revoke_all_sessions user_id now reason s = All-updated db _ _ _ (λ r h. ground arith) s.sessions

  -- Logging out everywhere ends every session of the user, at any later time, and leaves the user
  -- no refresh token that is valid.
  pub revoke_all_ends :
      (user_id now later : ℕ) (reason : RevokedReason) (s : Tables)
      → let s' = revoke_all env user_id reason now s in
        ((session_id : ℕ) → is_active env user_id session_id later s' ≡ false)
        × ((token_hash : ℕ) (t : RefreshTokenRow) (r : SessionRow)
            → find_token env token_hash s' ≡ some (t, r)
            → r.user_id ≡ user_id
            → is_invalid env later t r ≡ true)
  unfolding is_invalid
  revoke_all_ends user_id now later reason s =
      let s' = revoke_all env user_id reason now s in
      let gone = revoke_all_sessions user_id now reason s in
      (
        λ session_id.
            is_active_false user_id session_id later s' (weaken session_id s'.sessions gone),
        λ token_hash t r e own.
            let revoked =
              All-mem _ s'.sessions r gone (find_token_found env token_hash s' t r e).2 own in
            ground (arith, revoked),
      )
    where
      weaken :
          (session_id : ℕ) (rows : List SessionRow)
          → All (λ r. r.user_id ≡ user_id → is_some r.revoked_at ≡ true) rows
          → All (λ r. r.id ≡ session_id → r.user_id ≡ user_id → is_some r.revoked_at ≡ true) rows
      weaken session_id [] a = tt
      weaken session_id (r ∷ rows) a = (λ _. a.0, weaken session_id rows a.1)

  -- Logging out of a session leaves none of its rows open, whether it was there to revoke or not.
  pub revoke_current_rows :
      (user_id session_id now : ℕ) (reason : RevokedReason) (s : Tables)
      → All
          (λ r. r.id ≡ session_id → r.user_id ≡ user_id → is_some r.revoked_at ≡ true)
          (revoke_current env user_id session_id reason now s).sessions
  revoke_current_rows user_id session_id now reason s =
      subst (All _) (sym rows) (All-updated db _ _ _ (λ r h k. ground arith) s.sessions)
    where
      rows :
          (revoke_current env user_id session_id reason now s).sessions
          ≡ (db.update_many
              (λ r. r.id == session_id && r.user_id == user_id && not (is_some r.revoked_at))
              (λ r. record r { revoked_at = some now; revoked_reason = some reason })
              s.sessions).0
      rows = unfold revoke_current record_audit in ground arith

  is_active_true :
      (user_id now : ℕ) (r : SessionRow) (s : Tables)
      → r.user_id ≡ user_id
      → r.revoked_at ≡ none
      → now < r.expires_at
      → Memᴰ r s.sessions
      → is_active env user_id r.id now s ≡ true
  unfolding is_active
  is_active_true user_id now r s own open_row soon m =
      elim (Option-cases (
        db.find_first
          (λ q.
            q.id == r.id
            && q.user_id == user_id
            && not (is_some q.revoked_at)
            && ltb now q.expires_at)
          s.sessions)) [
            | inr (q, at) ↦ ap is_some at
            | inl missing ↦
                let never = All-mem _ s.sessions r (db.missed _ s.sessions missing) m in
                absurd (ground (arith, never))
          ]

  -- The session row that a login writes.
  opened : ℕ → Option ℕ → Fresh → ℕ → SessionRow
  opened user_id device fresh now = record {
    id = fresh.session_id;
    user_id = user_id;
    family_id = fresh.family_id;
    client_device_id = device;
    expires_at = now + refresh_ttl_seconds * 1_000;
    revoked_at = none;
    revoked_reason = none;
    last_used_at = none;
  }

  issued_row :
      (user_id : ℕ) (device : Option ℕ) (fresh : Fresh) (now : ℕ) (s : Tables)
      → Memᴰ (opened user_id device fresh now) (issue_rows env user_id device fresh now s).sessions
  unfolding issue_rows opened
  issued_row user_id device fresh now s =
      subst (Memᴰ (opened user_id device fresh now)) (sym (db.created _ s.sessions))
        (mem-append_last s.sessions _)

  -- A login for a device that is not the user's active device fails and writes nothing. Any other
  -- login opens a session that is active until its term ends.
  pub issue_session_cases :
      (user_id : ℕ) (device : Option ℕ) (fresh : Fresh) (now : ℕ) (s : Tables)
      → let (s', answer) = issue_session env user_id device fresh now s in
        (owns_device env user_id device s ≡ false → (s' ≡ s) × (answer ≡ err device_not_found))
        × ((later : ℕ)
            → owns_device env user_id device s ≡ true
            → later < now + refresh_ttl_seconds * 1_000
            → is_active env user_id fresh.session_id later s' ≡ true)
  unfolding issue_session opened
  issue_session_cases user_id device fresh now s = (
    λ foreign. (ground arith, ground arith),
    λ later own soon. rw own (
        is_active_true user_id later (opened user_id device fresh now)
          (issue_rows env user_id device fresh now s) refl refl soon
          (issued_row user_id device fresh now s)),
  )
