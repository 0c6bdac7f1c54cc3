-- ===== src/Session/Rows.antt =====
-- The tables of the sessions (backend/prisma/schema.prisma), as far as the service reads or writes
-- them. A `DateTime?` is an `Option`.
use backend_bmo_blabs.Base.{ℕ, Bool, Option, List}

-- Two reasons that the service writes itself; the others are a caller's text.
pub data RevokedReason : Type 0 where
  refresh_replay_or_expired refresh_replay : RevokedReason
  given : ℕ → RevokedReason

pub record SessionRow : Type 0 where
  pub id : ℕ
  pub user_id : ℕ
  pub family_id : ℕ
  pub client_device_id : Option ℕ
  pub expires_at : ℕ
  pub revoked_at : Option ℕ
  pub revoked_reason : Option RevokedReason
  pub last_used_at : Option ℕ

pub record RefreshTokenRow : Type 0 where
  pub id : ℕ
  pub session_id : ℕ
  pub family_id : ℕ
  pub token_hash : ℕ
  pub expires_at : ℕ
  pub used_at : Option ℕ
  pub revoked_at : Option ℕ

pub record DeviceRow : Type 0 where
  pub id : ℕ
  pub user_id : ℕ
  pub is_active : Bool

pub data AuditEvent : Type 0 where
  refresh_replay_detected session_refresh_rejected session_refreshed : AuditEvent
  session_revoked all_sessions_revoked : AuditEvent

pub data Outcome : Type 0 where
  success failure denied : Outcome

pub record AuditRow : Type 0 where
  pub event : AuditEvent
  pub outcome : Outcome
  pub resource_id : ℕ
  pub user_id : ℕ

pub record Tables : Type 0 where
  pub sessions : List SessionRow
  pub tokens : List RefreshTokenRow
  pub devices : List DeviceRow
  pub audit : List AuditRow
