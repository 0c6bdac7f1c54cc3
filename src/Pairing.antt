-- ===== src/Pairing.antt =====
-- backend/src/p9/services/hardware-enrollment.service.ts, and `createClaimed` of
-- backend/src/p9/services/device.service.ts: pairing of a BMO device by a six-digit code. A code is
-- the list of its characters. New ids, new codes and readings of clocks are arguments. A
-- transaction that throws returns the tables as they were. The event sent after a claim is for the
-- hardware of the result, and its failure is ignored.
pub mod Rows
pub mod Invariant
pub mod Issue
pub mod Claim
pub mod Later
pub mod Samples
mod Tests
use backend_bmo_blabs.Base.{
  ℕ, zero, suc, ◌+◌, ◌*◌, Bool, true, false, ◌&&◌, ◌||◌, not, Option, none, some, List, [], ◌∷◌,
  Result, ok, err, ltb, leb, ◌==◌, if◌then◌else◌, is_some, length,
}
use backend_bmo_blabs.Database.{Database}
use backend_bmo_blabs.Errors.{P9Error, P9ErrorCode, p9_error}
use Rows.{
  EnrollmentStatus, EnrollmentRow, DeviceStatus, DeviceRow, AuditRow, Tables, is_issued, is_active,
  is_bound, is_issued_for, is_issued_code, is_active_of, is_bound_to,
}

-- What a transaction throws: an answer, the database's P2002, or the collision of two codes.
pub data Fault : Type 0 where
  p9 : P9Error → Fault
  unique_constraint pairing_code_collision : Fault

-- The database, `keyedDigest` and the settings. `bmo` is the default name.
pub record Services : Type 1 where
  pub db : Database
  pub keyed_digest : List ℕ → ℕ → ℕ
  pub pepper : ℕ
  pub ttl_seconds : ℕ
  pub bmo : ℕ

-- What one attempt draws from outside: `createPairingCode`, the database clock, the row's id and
-- the time that the database gives the row.
pub record Draw : Type 0 where
  pub code : List ℕ
  pub now : ℕ
  pub id : ℕ
  pub created_at : ℕ

pub record IssuedCode : Type 0 where
  pub hardware_id : ℕ
  pub code : List ℕ
  pub expires_at : ℕ

-- `isPairingCode`
pub is_digit : ℕ → Bool
is_digit x = leb 48 x && leb x 57

all_digits : List ℕ → Bool
unfolding is_digit
all_digits [] = true
all_digits (x ∷ xs) = is_digit x && all_digits xs

pub is_pairing_code : List ℕ → Bool
unfolding all_digits
is_pairing_code code = length code == 6 && all_digits code

-- A transaction: what it throws undoes its writes.
unfoldable pub transaction :
    {A : Type 0} → Tables → Tables × Result Fault A → Tables × Result Fault A
transaction s (s', ok a) = (s', ok a)
transaction s (s', err f) = (s, err f)

abbrev pub invalid_code : Fault
invalid_code = p9 (p9_error P9ErrorCode.pairing_code_invalid_or_expired 409)
