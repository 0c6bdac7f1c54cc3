-- ===== src/Invitation.antt =====
-- backend/src/p9/services/invitation.service.ts. Texts are numbers; the secret that `create` draws,
-- the new id and the clock are arguments. The token hash is unique in the table.
pub mod Once
mod Tests
use backend_bmo_blabs.Base.{
  ℕ, Bool, true, false, ◌&&◌, ◌||◌, not, Option, none, some, List, [], ◌∷◌, Result, ok, err, ltb,
  leb, ◌==◌, if◌then◌else◌, is_some,
}
use backend_bmo_blabs.Database.{Database}
use backend_bmo_blabs.Errors.{P9Error, P9ErrorCode, p9_error}

pub data InvitationStatus : Type 0 where
  active accepted expired revoked : InvitationStatus

pub record InvitationRow : Type 0 where
  pub id : ℕ
  pub email : ℕ
  pub token_hash : ℕ
  pub status : InvitationStatus
  pub expires_at : ℕ
  pub accepted_at : Option ℕ
  pub revoked_at : Option ℕ
  pub created_by : Option ℕ

-- The event and the invitation.
pub data AuditEvent : Type 0 where
  invitation_expired invitation_created invitation_revoked invitation_used : ℕ → AuditEvent

pub record Tables : Type 0 where
  pub invitations : List InvitationRow
  pub audit : List AuditEvent

pub record Services : Type 1 where
  pub db : Database
  pub sha256_hex : ℕ → ℕ
  pub normalize_email : ℕ → ℕ

-- What is thrown: an answer, or the database's P2002.
pub data Fault : Type 0 where
  p9 : P9Error → Fault
  unique_constraint : Fault

abbrev pub is_active : InvitationRow → Bool
is_active r = elim r.status [ InvitationStatus.active ↦ true | _ ↦ false ]

abbrev pub invalid : Fault
invalid = p9 (p9_error P9ErrorCode.invitation_invalid 400)

-- The calls that write.
pub data Call : Type 0 where
  expires : ℕ → ℕ → Call
  creates : ℕ → ℕ → Option ℕ → ℕ → ℕ → Call
  revokes : ℕ → ℕ → Call
  consumes : ℕ → ℕ → ℕ → Call

module _ (env : Services) where
  open env use {db, sha256_hex, normalize_email}

  pub find_invitation : ℕ → Tables → Option InvitationRow
  find_invitation token_hash s = db.find_first (λ r. r.token_hash == token_hash) s.invitations

  -- The `updateMany` of `expireIfNeeded`, and its audit event if it wrote one row.
  pub expire : InvitationRow → Tables → Tables
  expire invitation s =
      let u =
        db.update_many (λ r. r.id == invitation.id && is_active r)
          (λ r. record r { status = InvitationStatus.expired }) s.invitations in
      record {
        invitations = u.0;
        audit =
            if u.1 == 1
            then db.create (AuditEvent.invitation_expired invitation.id) s.audit
            else s.audit;
      }

  pub expire_if_needed : ℕ → ℕ → Tables → Tables
  expire_if_needed secret now s = elim (find_invitation (sha256_hex secret) s) [
    | none ↦ s
    | some r ↦ if not (is_active r) || ltb now r.expires_at then s else expire r s
  ]

  pub create : ℕ → ℕ → Option ℕ → ℕ → ℕ → Tables → Tables × Result Fault InvitationRow
  create email expires_at created_by secret id s =
      let r : InvitationRow = record {
        id = id;
        email = normalize_email email;
        token_hash = sha256_hex secret;
        status = InvitationStatus.active;
        expires_at = expires_at;
        accepted_at = none;
        revoked_at = none;
        created_by = created_by;
      } in
      if is_some (find_invitation (sha256_hex secret) s) then (s, err unique_constraint) else (
        record {
          invitations = db.create r s.invitations;
          audit = db.create (AuditEvent.invitation_created id) s.audit;
        },
        ok r,
      )

  pub revoke : ℕ → ℕ → Tables → Tables × Result Fault (Unit {0})
  revoke id now s =
      let u =
        db.update_many (λ r. r.id == id && is_active r)
          (λ r. record r { status = InvitationStatus.revoked; revoked_at = some now })
          s.invitations in
      if not (u.1 == 1)
      then (record s { invitations = u.0 }, err (p9 (p9_error P9ErrorCode.invitation_invalid 404)))
      else (
        record { invitations = u.0; audit = db.create (AuditEvent.invitation_revoked id) s.audit },
        ok tt,
      )

  -- The test before the invitation is claimed.
  pub is_refused : ℕ → ℕ → InvitationRow → Bool
  is_refused email now r = not (is_active r) || leb r.expires_at now || not (r.email == email)

  -- `claimed`
  pub accept : ℕ → ℕ → InvitationRow → Tables → List InvitationRow × ℕ
  accept email now invitation s =
      db.update_many
        (λ r. r.id == invitation.id && is_active r && ltb now r.expires_at && r.email == email)
        (λ r. record r { status = InvitationStatus.accepted; accepted_at = some now }) s.invitations

  -- `consumeForRegistration`, which answers the id and the email.
  pub consume_for_registration : ℕ → ℕ → ℕ → Tables → Tables × Result Fault (ℕ × ℕ)
  consume_for_registration secret email now s =
      let email' = normalize_email email in
      elim (find_invitation (sha256_hex secret) s) [
        | none ↦ (s, err invalid)
        | some r ↦
            if is_refused email' now r
            then (s, err invalid)
            else if not ((accept email' now r s).1 == 1)
            then (record s { invitations = (accept email' now r s).0 }, err invalid)
            else (
              record {
                invitations = (accept email' now r s).0;
                audit = db.create (AuditEvent.invitation_used r.id) s.audit;
              },
              ok (r.id, email'),
            )
      ]

  pub step : Tables → Call → Tables
  step s (Call.expires secret now) = expire_if_needed secret now s
  step s (Call.creates email expires_at by secret id) = (create email expires_at by secret id s).0
  step s (Call.revokes id now) = (revoke id now s).0
  step s (Call.consumes secret email now) = (consume_for_registration secret email now s).0

  pub run : Tables → List Call → Tables
  unfolding step
  run s [] = s
  run s (c ∷ cs) = run (step s c) cs
