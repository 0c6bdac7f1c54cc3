-- ===== src/Chat/Lease.antt =====
-- The lease of a worker on an operation: `#claim`, `#renewLease`, `#releaseLease`, `#recordFailure`
-- and the last transaction of `#processClaimed`, in backend/src/p9/services/chat.service.ts, with the
-- SQL of backend/src/p9/db/repositories.ts. A transaction holds the lock of its user, so it is one
-- step. A reading of the database clock, and an id, a cursor and a time that the database gives a
-- new row, are arguments.
use backend_bmo_blabs.Base.{
  ℕ, ◌+◌, Bool, true, false, ◌&&◌, not, Option, none, some, List, ltb, ◌==◌, if◌then◌else◌, is_some,
}
use backend_bmo_blabs.Base.Picking.{any}
use backend_bmo_blabs.Database.{Database}
use backend_bmo_blabs.Chat.Rows.{
  SessionRow, MessageRow, Role, OperationStatus, ErrorCode, OperationRow, AuditEvent, Tables,
  is_processing, is_open, holds,
}

-- The client and `hardTimeoutMs`.
pub record Services : Type 1 where
  pub db : Database
  pub hard_timeout_ms : ℕ

pub record ChatJob : Type 0 where
  pub user_id : ℕ
  pub session_id : ℕ
  pub user_message_id : ℕ
  pub operation_id : ℕ

-- What the database gives a new row.
pub record Fresh : Type 0 where
  pub id : ℕ
  pub cursor : ℕ
  pub created_at : ℕ

-- Another operation of the user, on an earlier message of the session, is still processing.
unfoldable pub has_prior : OperationRow → MessageRow → Tables → Bool
has_prior candidate message s =
    any
      (λ p.
        p.user_id == candidate.user_id
        && is_processing p
        && any
            (λ m.
              m.id == p.user_message_id
              && m.session_id == message.session_id
              && not (is_some m.deleted_at)
              && ltb m.cursor message.cursor)
            s.messages)
      s.operations

-- The joins of the two statements: the operation is processing, its message is in the session and
-- not deleted, the session is open, and no earlier message is in work.
unfoldable pub is_next : ChatJob → Tables → OperationRow → Bool
unfolding has_prior
is_next job s o =
    o.id == job.operation_id
    && o.user_id == job.user_id
    && is_processing o
    && any
        (λ m.
          m.id == o.user_message_id
          && m.session_id == job.session_id
          && not (is_some m.deleted_at)
          && any (λ q. q.id == m.session_id && q.user_id == o.user_id && is_open q) s.sessions
          && not (has_prior o m s))
        s.messages

module _ (env : Services) where
  open env use {db, hard_timeout_ms}

  -- `#leaseTtlMs`
  unfoldable pub lease_ttl_ms : ℕ
  lease_ttl_ms = hard_timeout_ms + 30_000

  -- No lease, or one that has not been renewed for its time.
  unfoldable pub is_free : ℕ → OperationRow → Bool
  is_free now o = elim o.error_code [
    | none ↦ true
    | some c ↦ elim c [ ErrorCode.lease t ↦ ltb (o.updated_at + lease_ttl_ms) now | _ ↦ false ]
  ]

  -- `claimChatOperation`
  unfoldable pub claim : ChatJob → ℕ → ℕ → Tables → Tables × Bool
  unfolding is_next is_free
  claim job token now s =
      let u =
        db.update_many (λ o. is_next job s o && is_free now o)
          (λ o. record o { error_code = some (ErrorCode.lease token); updated_at = now })
          s.operations in
      (record s { operations = u.0 }, u.1 == 1)

  -- `renewChatOperationLease`
  unfoldable pub renew_lease : ChatJob → ℕ → ℕ → Tables → Tables × Bool
  unfolding is_next
  renew_lease job token now s =
      let u =
        db.update_many (λ o. is_next job s o && holds token o) (λ o. record o { updated_at = now })
          s.operations in
      (record s { operations = u.0 }, u.1 == 1)

  -- The operation of the job, while the worker holds its lease.
  unfoldable pub is_held : ChatJob → ℕ → OperationRow → Bool
  is_held job token o =
      o.id == job.operation_id && o.user_id == job.user_id && is_processing o && holds token o

  -- `#releaseLease`; `now` is the database's `updatedAt`.
  unfoldable pub release_lease : ChatJob → ℕ → ℕ → Tables → Tables
  unfolding is_held
  release_lease job token now s = record s {
    operations =
        (db.update_many (is_held job token) (λ o. record o { error_code = none; updated_at = now })
          s.operations).0;
  }

  -- `#recordFailure`
  unfoldable pub record_failure : ChatJob → ℕ → ℕ → Tables → Tables
  unfolding is_held
  record_failure job token now s =
      let u =
        db.update_many (is_held job token)
          (λ o. record o {
            status = OperationStatus.failed;
            error_code = some ErrorCode.hermes_failed;
            completed_at = some now;
            updated_at = now;
          })
          s.operations in
      record s {
        operations = u.0;
        audit =
            if u.1 == 1
            then db.create (AuditEvent.chat_operation_failed job.operation_id) s.audit
            else s.audit;
      }

  unfoldable pub reply : ChatJob → List ℕ → Fresh → MessageRow
  reply job text fresh = record {
    id = fresh.id;
    session_id = job.session_id;
    user_id = job.user_id;
    source_device_id = none;
    role = Role.assistant;
    content = text;
    reply_to = some job.operation_id;
    cursor = fresh.cursor;
    idempotency_key = none;
    created_at = fresh.created_at;
    deleted_at = none;
  }

  -- The writes of a reply.
  unfoldable pub store_reply : ChatJob → ℕ → List ℕ → Fresh → ℕ → Tables → Tables
  unfolding is_held reply
  store_reply job token text fresh now s = record s {
    messages = db.create (reply job text fresh) s.messages;
    operations =
        (db.update_many (is_held job token)
          (λ o. record o {
            status = OperationStatus.succeeded;
            error_code = none;
            completed_at = some now;
            updated_at = now;
          })
          s.operations).0;
    sessions =
        (db.update_many (λ q. q.id == job.session_id)
          (λ q. record q {
            last_message_cursor = some fresh.cursor;
            last_message_at = some fresh.created_at;
          })
          s.sessions).0;
  }

  -- The session of the job, if it is open.
  unfoldable pub find_session : ℕ → ℕ → Tables → Option SessionRow
  find_session user_id session_id s =
      db.find_first (λ q. q.id == session_id && q.user_id == user_id && is_open q) s.sessions

  -- The last transaction of `#processClaimed`: the message and whether the session is temporary.
  unfoldable pub complete :
      ChatJob → ℕ → List ℕ → Fresh → ℕ → Tables → Tables × Option (MessageRow × Bool)
  unfolding store_reply find_session
  complete job token text fresh now s = elim (db.find_first (is_held job token) s.operations) [
    | none ↦ (s, none)
    | some o ↦ elim (find_session job.user_id job.session_id s) [
      | none ↦ (s, none)
      | some q ↦ (store_reply job token text fresh now s, some (reply job text fresh, q.temporary))
    ]
  ]
