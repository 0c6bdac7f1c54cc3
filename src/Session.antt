-- ===== src/Session.antt =====
-- backend/src/p9/services/session.service.ts: login sessions with rotating refresh tokens. The
-- tables are lists of rows, queried through a `Database`. Ids and hashes are texts that are only
-- compared, so numbers; new ids and the new opaque token are arguments. A transaction that throws
-- is rolled back, so its error comes with the tables as they were.
pub mod Rows
pub mod Revocation
pub mod Rotation
pub mod Logout
pub mod Later
mod Tests
use backend_bmo_blabs.Base.{
  ℕ, suc, ◌+◌, ◌*◌, ◌/◌, Bool, true, false, ◌&&◌, ◌||◌, not, Option, none, some, List, [], ◌∷◌,
  Result, ok, err, ltb, leb, ◌==◌, if◌then◌else◌, is_some,
}
use backend_bmo_blabs.Database.{Database}
use backend_bmo_blabs.Errors.{P9Error, unauthenticated, device_not_found}
use Rows.{SessionRow, RefreshTokenRow, RevokedReason, AuditEvent, Outcome, Tables}

-- The library that signs access tokens, the digest of an opaque token, and the two settings.
pub record Services : Type 1 where
  pub db : Database
  pub sha256_hex : ℕ → ℕ
  -- `new SignJWT(...).sign(secret)` for user, session, time of issue and time of expiry
  pub sign : ℕ → ℕ → ℕ → ℕ → ℕ
  pub access_lifetime_seconds : ℕ
  pub refresh_ttl_seconds : ℕ

pub record SessionTokens : Type 0 where
  pub session_id : ℕ
  pub access_token : ℕ
  pub refresh_token : ℕ
  pub access_token_expires_at : ℕ
  pub refresh_token_expires_at : ℕ

pub record IssuedAccessToken : Type 0 where
  pub token : ℕ
  pub expires_at : ℕ

-- The values that a call draws from outside: ids of new rows, the family's id, the opaque token.
pub record Fresh : Type 0 where
  pub session_id : ℕ
  pub family_id : ℕ
  pub token_id : ℕ
  pub refresh_token : ℕ

module _ (env : Services) where
  open env use {db, sha256_hex, sign, access_lifetime_seconds, refresh_ttl_seconds}

  -- `AccessTokenService.issue`; times are in milliseconds.
  pub issue_access : ℕ → ℕ → ℕ → IssuedAccessToken
  issue_access user_id session_id now =
      let issued_at = now / 1_000 in
      record {
        token = sign user_id session_id issued_at (issued_at + access_lifetime_seconds);
        expires_at = (issued_at + access_lifetime_seconds) * 1_000;
      }

  -- `clientDeviceId` is absent, or is that of an active device of the user.
  pub owns_device : ℕ → Option ℕ → Tables → Bool
  owns_device user_id none s = true
  owns_device user_id (some device) s =
      is_some (db.find_first (λ d. d.id == device && d.user_id == user_id && d.is_active) s.devices)

  -- The rows that `#issueLocked` creates.
  pub issue_rows : ℕ → Option ℕ → Fresh → ℕ → Tables → Tables
  issue_rows user_id device fresh now s =
      let expires_at = now + refresh_ttl_seconds * 1_000 in
      record s {
        sessions =
            db.create
              (record {
                id = fresh.session_id;
                user_id = user_id;
                family_id = fresh.family_id;
                client_device_id = device;
                expires_at = expires_at;
                revoked_at = none;
                revoked_reason = none;
                last_used_at = none;
              })
              s.sessions;
        tokens =
            db.create
              (record {
                id = fresh.token_id;
                session_id = fresh.session_id;
                family_id = fresh.family_id;
                token_hash = sha256_hex fresh.refresh_token;
                expires_at = expires_at;
                used_at = none;
                revoked_at = none;
              })
              s.tokens;
      }

  -- `issueSession` and `#issueLocked`
  pub issue_session : ℕ → Option ℕ → Fresh → ℕ → Tables → Tables × Result P9Error SessionTokens
  unfolding issue_access owns_device issue_rows
  issue_session user_id device fresh now s =
      let access = issue_access user_id fresh.session_id now in
      if owns_device user_id device s
      then (
        issue_rows user_id device fresh now s,
        ok record {
          session_id = fresh.session_id;
          access_token = access.token;
          refresh_token = fresh.refresh_token;
          access_token_expires_at = access.expires_at;
          refresh_token_expires_at = now + refresh_ttl_seconds * 1_000;
        },
      )
      else (s, err device_not_found)

  -- `revokeFamily`
  pub revoke_family : ℕ → ℕ → RevokedReason → Tables → Tables
  revoke_family family_id now reason s = record s {
    tokens =
        (db.update_many (λ t. t.family_id == family_id && not (is_some t.revoked_at))
          (λ t. record t { revoked_at = some now }) s.tokens).0;
    sessions =
        (db.update_many (λ t. t.family_id == family_id && not (is_some t.revoked_at))
          (λ t. record t { revoked_at = some now; revoked_reason = some reason }) s.sessions).0;
  }

  -- `AuditService.record`
  pub record_audit : AuditEvent → Outcome → ℕ → ℕ → Tables → Tables
  record_audit event outcome resource_id user_id s = record s {
    audit =
        db.create
          (record {
            event = event;
            outcome = outcome;
            resource_id = resource_id;
            user_id = user_id;
          })
          s.audit;
  }

  -- `refreshToken.findUnique({ where: { tokenHash }, include: { session: true } })`
  pub find_token : ℕ → Tables → Option (RefreshTokenRow × SessionRow)
  find_token token_hash s = elim (db.find_first (λ t. t.token_hash == token_hash) s.tokens) [
    | none ↦ none
    | some t ↦ elim (db.find_first (λ r. r.id == t.session_id) s.sessions) [
      | none ↦ none
      | some r ↦ some (t, r)
    ]
  ]

  -- `invalid`
  pub is_invalid : ℕ → RefreshTokenRow → SessionRow → Bool
  is_invalid now t r =
      is_some t.used_at
      || is_some t.revoked_at
      || leb t.expires_at now
      || is_some r.revoked_at
      || leb r.expires_at now

  -- The end of the transaction that returns `rejected`: it commits, and then the call throws.
  pub reject :
      AuditEvent
      → RevokedReason
      → ℕ
      → RefreshTokenRow
      → SessionRow
      → Tables
      → Tables × Result P9Error SessionTokens
  unfolding revoke_family record_audit
  reject event reason now t r s = (
    record_audit event Outcome.denied t.session_id r.user_id
        (revoke_family t.family_id now reason s),
    err unauthenticated,
  )

  -- The successor of a token that has just been marked as used.
  pub rotate : Fresh → ℕ → RefreshTokenRow → SessionRow → Tables → Tables
  unfolding record_audit
  rotate fresh now t r s =
      record_audit AuditEvent.session_refreshed Outcome.success t.session_id r.user_id (record s {
        tokens =
            db.create
              (record {
                id = fresh.token_id;
                session_id = t.session_id;
                family_id = t.family_id;
                token_hash = sha256_hex fresh.refresh_token;
                expires_at = r.expires_at;
                used_at = none;
                revoked_at = none;
              })
              s.tokens;
        sessions =
            (db.update_many (λ q. q.id == t.session_id) (λ q. record q { last_used_at = some now })
              s.sessions).0;
      })

  -- `marked`: the token is marked as used if it is neither used nor revoked.
  pub mark_used : ℕ → RefreshTokenRow → Tables → List RefreshTokenRow × ℕ
  mark_used now t s =
      db.update_many (λ q. q.id == t.id && not (is_some q.used_at) && not (is_some q.revoked_at))
        (λ q. record q { used_at = some now }) s.tokens

  -- The answer of a rotation.
  pub refreshed : Fresh → ℕ → RefreshTokenRow → SessionRow → SessionTokens
  unfolding issue_access
  refreshed fresh now t r =
      let access = issue_access r.user_id t.session_id now in
      record {
        session_id = t.session_id;
        access_token = access.token;
        refresh_token = fresh.refresh_token;
        access_token_expires_at = access.expires_at;
        refresh_token_expires_at = r.expires_at;
      }

  -- The part of `refresh` that holds the lock and has found the token.
  pub refresh_stored :
      Fresh → ℕ → RefreshTokenRow → SessionRow → Tables → Tables × Result P9Error SessionTokens
  unfolding is_invalid reject rotate mark_used refreshed
  refresh_stored fresh now t r s =
      let marked = record s { tokens = (mark_used now t s).0 } in
      if is_invalid now t r
      then reject
          (if is_some t.used_at
            then AuditEvent.refresh_replay_detected
            else AuditEvent.session_refresh_rejected)
          RevokedReason.refresh_replay_or_expired now t r s
      else if (mark_used now t s).1 == 1
      then (rotate fresh now t r marked, ok (refreshed fresh now t r))
      else reject AuditEvent.refresh_replay_detected RevokedReason.refresh_replay now t r marked

  -- `refresh`: `waited` is what other transactions commit while the user's lock is awaited.
  pub refresh : ℕ → Fresh → ℕ → (Tables → Tables) → Tables → Tables × Result P9Error SessionTokens
  unfolding find_token refresh_stored
  refresh refresh_token fresh now waited s =
      let token_hash = sha256_hex refresh_token in
      let s' = waited s in
      elim (find_token token_hash s) [
        | none ↦ (s, err unauthenticated)
        | some (t, r) ↦ elim (find_token token_hash s') [
          | none ↦ (s', err unauthenticated)
          | some (t', r') ↦
              if r'.user_id == r.user_id
              then refresh_stored fresh now t' r' s'
              else (s', err unauthenticated)
        ]
      ]

  -- `revokeCurrent`
  pub revoke_current : ℕ → ℕ → RevokedReason → ℕ → Tables → Tables
  unfolding record_audit
  revoke_current user_id session_id reason now s =
      let revoked =
        db.update_many
          (λ r. r.id == session_id && r.user_id == user_id && not (is_some r.revoked_at))
          (λ r. record r { revoked_at = some now; revoked_reason = some reason }) s.sessions in
      let tokens =
        db.update_many (λ t. t.session_id == session_id && not (is_some t.revoked_at))
          (λ t. record t { revoked_at = some now }) s.tokens in
      if revoked.1 == 1
      then record_audit AuditEvent.session_revoked Outcome.success session_id user_id
          (record s { sessions = revoked.0; tokens = tokens.0 })
      else record s { sessions = revoked.0 }

  -- `session: { userId }` in a `where` of the tokens
  pub session_of : ℕ → Tables → RefreshTokenRow → Bool
  session_of user_id s t =
      is_some (db.find_first (λ r. r.id == t.session_id && r.user_id == user_id) s.sessions)

  -- `revokeAll`
  pub revoke_all : ℕ → RevokedReason → ℕ → Tables → Tables
  unfolding record_audit session_of
  revoke_all user_id reason now s =
      let revoked = record s {
        sessions =
            (db.update_many (λ r. r.user_id == user_id && not (is_some r.revoked_at))
              (λ r. record r { revoked_at = some now; revoked_reason = some reason }) s.sessions).0;
      } in
      record_audit AuditEvent.all_sessions_revoked Outcome.success user_id user_id (record revoked {
        tokens =
            (db.update_many (λ t. session_of user_id revoked t && not (is_some t.revoked_at))
              (λ t. record t { revoked_at = some now }) s.tokens).0;
      })

  -- `isActive`
  pub is_active : ℕ → ℕ → ℕ → Tables → Bool
  is_active user_id session_id now s = is_some (
      db.find_first
        (λ r.
          r.id == session_id
          && r.user_id == user_id
          && not (is_some r.revoked_at)
          && ltb now r.expires_at)
        s.sessions)
