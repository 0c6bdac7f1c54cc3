-- ===== src/Errors.antt =====
-- backend/src/p9/errors.ts: the errors that a request answers with. The public messages are left
-- out: no code branches on them.
use backend_bmo_blabs.Base.{ℕ}

pub data P9ErrorCode : Type 0 where
  invalid_input authentication_failed invitation_invalid session_revoked ownership_denied :
      P9ErrorCode
  pairing_invalid pairing_code_invalid_or_expired rate_limited database_unavailable : P9ErrorCode
  service_unavailable conflict reconnect_required no_active_device premium_required : P9ErrorCode
  recovery_invalid blocked_external_secret : P9ErrorCode

pub record P9Error : Type 0 where
  pub code : P9ErrorCode
  pub status : ℕ

abbrev pub p9_error : P9ErrorCode → ℕ → P9Error
p9_error code status = record { code = code; status = status }

abbrev pub unauthenticated : P9Error
unauthenticated = p9_error P9ErrorCode.authentication_failed 401

abbrev pub device_not_found : P9Error
device_not_found = p9_error P9ErrorCode.ownership_denied 404
