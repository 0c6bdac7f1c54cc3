-- ===== src/Chat/Sessions.antt =====
-- `createSession`, `deleteSession`, `submitMessage` and `processClaimed` of
-- backend/src/p9/services/chat.service.ts. The transaction of a message holds the lock of the user;
-- what other transactions write before it has the lock is `others`. The generated title, which a
-- later transaction of `#generateTitleAsync` may write over the title of the session, memories and
-- events are not modelled. Nor are foreign keys. An id 0 stands for the empty text.
use backend_bmo_blabs.Base.{
  ℕ, Bool, true, false, ◌&&◌, ◌||◌, not, Option, none, some, List, Result, ok, err, ◌==◌,
  if◌then◌else◌, is_some, same_text,
}
use backend_bmo_blabs.Base.Picking.{any}
use backend_bmo_blabs.Errors.{P9Error, P9ErrorCode, p9_error, device_not_found}
use backend_bmo_blabs.Chat.Rows.{
  SessionRow, SessionStatus, MessageRow, Role, OperationStatus, ErrorCode, OperationRow, AuditEvent,
  Tables, is_processing, is_open,
}
use backend_bmo_blabs.Chat.Title.{generate_heuristic_title}
use backend_bmo_blabs.Chat.Queue
use backend_bmo_blabs.Chat.Queue.{ChatQueue, reserve}
use backend_bmo_blabs.Chat.Lease.{Services, Fresh, find_session}

-- `speak` is `speakOnDevice`.
pub record ChatMessageInput : Type 0 where
  pub idempotency_key : ℕ
  pub text : List ℕ
  pub speak : Bool
  pub device_id : Option ℕ

-- What is thrown: an answer, or the database's P2002.
pub data Fault : Type 0 where
  p9 : P9Error → Fault
  unique_constraint : Fault

pub record AcceptedMessage : Type 0 where
  pub user_message_id : ℕ
  pub text : List ℕ
  pub created_at : ℕ
  pub status : OperationStatus
  pub operation_id : ℕ
  pub error_code : Option ErrorCode

-- The state that a message goes through: the tables, and the queue of the process.
pub record Chat : Type 0 where
  pub tables : Tables
  pub queue : ChatQueue

abbrev pub session_not_found : P9Error
session_not_found = p9_error P9ErrorCode.ownership_denied 404

abbrev pub conflict : P9Error
conflict = p9_error P9ErrorCode.conflict 409

abbrev pub unavailable : P9Error
unavailable = p9_error P9ErrorCode.service_unavailable 503

-- `(a ?? undefined) !== b` on ids
unfoldable pub same_device : Option ℕ → Option ℕ → Bool
same_device none none = true
same_device (some a) (some b) = a == b
same_device _ _ = false

-- What the database gives the rows of a message.
pub record FreshMessage : Type 0 where
  pub message : Fresh
  pub operation_id : ℕ
  pub started_at : ℕ

module _ (env : Services) where
  open env use {db}

  -- `#findOperation`, with the message of the operation.
  unfoldable pub find_operation : ℕ → ℕ → Tables → Option (OperationRow × MessageRow)
  find_operation user_id key s =
      elim (db.find_first (λ o. o.user_id == user_id && o.idempotency_key == key) s.operations) [
        | none ↦ none
        | some o ↦ elim (db.find_first (λ m. m.id == o.user_message_id) s.messages) [
          | none ↦ none
          | some m ↦ some (o, m)
        ]
      ]

  -- The error code is shown once the operation has ended.
  unfoldable pub answer : OperationRow → MessageRow → AcceptedMessage
  answer o m = record {
    user_message_id = m.id;
    text = m.content;
    created_at = m.created_at;
    status = o.status;
    operation_id = o.id;
    error_code = if is_processing o then none else o.error_code;
  }

  -- `#existingResponse`
  unfoldable pub existing_response :
      OperationRow → MessageRow → ℕ → ChatMessageInput → Result Fault AcceptedMessage
  unfolding same_device answer
  existing_response o m session_id input =
      if not (m.session_id == session_id)
        || not (same_text m.content input.text)
        || not (same_device m.source_device_id input.device_id)
      then err (p9 conflict)
      else ok (answer o m)

  -- `createSession`; the id is unique in the table.
  unfoldable pub create_session : ℕ → Bool → ℕ → Tables → Tables × Result Fault ℕ
  create_session user_id temporary id s =
      if is_some (db.find_first (λ q. q.id == id) s.sessions) then (s, err unique_constraint) else (
        record s {
          sessions =
              db.create
                (record {
                  id = id;
                  user_id = user_id;
                  temporary = temporary;
                  title = none;
                  status = SessionStatus.active;
                  last_message_cursor = none;
                  last_message_at = none;
                  deleted_at = none;
                })
                s.sessions;
          audit = db.create (AuditEvent.chat_session_created id) s.audit;
        },
        ok id,
      )

  -- The message of an operation is one of the session.
  unfoldable pub is_of_session : ℕ → Tables → OperationRow → Bool
  is_of_session session_id s o =
      any (λ m. m.id == o.user_message_id && m.session_id == session_id) s.messages

  -- The writes of `deleteSession`.
  unfoldable pub delete_rows : ℕ → ℕ → ℕ → Tables → Tables
  unfolding is_of_session
  delete_rows user_id session_id now s = record {
    sessions =
        (db.update_many (λ q. q.id == session_id && q.user_id == user_id && is_open q)
          (λ q. record q { status = SessionStatus.deleted; deleted_at = some now }) s.sessions).0;
    messages =
        (db.update_many
          (λ m. m.session_id == session_id && m.user_id == user_id && not (is_some m.deleted_at))
          (λ m. record m { deleted_at = some now }) s.messages).0;
    operations =
        (db.update_many
          (λ o. o.user_id == user_id && is_of_session session_id s o && is_processing o)
          (λ o. record o {
            status = OperationStatus.cancelled;
            error_code = some ErrorCode.session_deleted;
            completed_at = some now;
            updated_at = now;
          })
          s.operations).0;
    devices = s.devices;
    audit = db.create (AuditEvent.chat_session_deleted session_id) s.audit;
  }

  -- `deleteSession`. The session is updated under the test that found it, so the update counts one
  -- unless an id stands twice.
  unfoldable pub delete_session : ℕ → ℕ → ℕ → Tables → Tables × Result Fault Bool
  unfolding delete_rows
  delete_session user_id session_id now s = elim (find_session env user_id session_id s) [
    | none ↦ (s, err (p9 session_not_found))
    | some q ↦
        if not (
          (db.update_many (λ q. q.id == session_id && q.user_id == user_id && is_open q)
            (λ q. record q { status = SessionStatus.deleted; deleted_at = some now }) s.sessions).1
          == 1)
        then (s, err (p9 session_not_found))
        else (delete_rows user_id session_id now s, ok true)
  ]

  -- The device of the input is absent or empty, or is an active device of the user.
  unfoldable pub owns_device : ℕ → Option ℕ → Tables → Bool
  owns_device user_id none s = true
  owns_device user_id (some device) s =
      device == 0
      || is_some
          (db.find_first (λ d. d.id == device && d.user_id == user_id && d.is_active) s.devices)

  unfoldable pub user_message : ℕ → ℕ → ChatMessageInput → FreshMessage → MessageRow
  user_message user_id session_id input fresh = record {
    id = fresh.message.id;
    session_id = session_id;
    user_id = user_id;
    source_device_id = input.device_id;
    role = Role.user;
    content = input.text;
    reply_to = none;
    cursor = fresh.message.cursor;
    idempotency_key = some input.idempotency_key;
    created_at = fresh.message.created_at;
    deleted_at = none;
  }

  unfoldable pub new_operation : ℕ → ChatMessageInput → FreshMessage → OperationRow
  new_operation user_id input fresh = record {
    id = fresh.operation_id;
    user_id = user_id;
    user_message_id = fresh.message.id;
    idempotency_key = input.idempotency_key;
    status = OperationStatus.processing;
    error_code = none;
    completed_at = none;
    updated_at = fresh.started_at;
  }

  -- The unique columns of the two tables: the ids, the message of an operation, and the key.
  unfoldable pub is_taken : ℕ → ChatMessageInput → FreshMessage → Tables → Bool
  is_taken user_id input fresh s =
      is_some (db.find_first (λ m. m.id == fresh.message.id) s.messages)
      || is_some (
          db.find_first
            (λ o.
              o.id == fresh.operation_id
              || o.user_message_id == fresh.message.id
              || o.user_id == user_id && o.idempotency_key == input.idempotency_key)
            s.operations)

  -- The writes of a message. The first message of a session gives it a title.
  unfoldable pub store_message :
      ℕ → ℕ → ChatMessageInput → FreshMessage → SessionRow → Tables → Tables
  unfolding user_message new_operation
  store_message user_id session_id input fresh session s = record s {
    messages = db.create (user_message user_id session_id input fresh) s.messages;
    operations = db.create (new_operation user_id input fresh) s.operations;
    sessions =
        (db.update_many (λ q. q.id == session_id)
          (λ q. record q {
            last_message_cursor = some fresh.message.cursor;
            last_message_at = some fresh.message.created_at;
            title =
                if is_some session.title || session.temporary
                then q.title
                else some (generate_heuristic_title input.text);
          })
          s.sessions).0;
  }

  -- A message that was sent before makes no job.
  unfoldable pub repeated :
      Tables → Result Fault AcceptedMessage → Tables × Result Fault (AcceptedMessage × Bool)
  repeated s (ok a) = (s, ok (a, false))
  repeated s (err f) = (s, err f)

  -- The transaction of `submitMessage`; the Boolean tells whether there is a job.
  unfoldable pub accept_message :
      ℕ
      → ℕ
      → ChatMessageInput
      → FreshMessage
      → Tables
      → Tables × Result Fault (AcceptedMessage × Bool)
  unfolding repeated
  accept_message user_id session_id input fresh s =
      elim (find_operation user_id input.idempotency_key s) [
        | some (o, m) ↦ repeated s (existing_response o m session_id input)
        | none ↦ elim (find_session env user_id session_id s) [
          | none ↦ (s, err (p9 session_not_found))
          | some q ↦
              if not (owns_device user_id input.device_id s)
              then (s, err (p9 device_not_found))
              else if is_taken user_id input fresh s
              then (s, err unique_constraint)
              else (
                store_message user_id session_id input fresh q s,
                ok (
                  answer (new_operation user_id input fresh)
                      (user_message user_id session_id input fresh),
                  true,
                ),
              )
        ]
      ]

  -- The end of `submitMessage`: the reservation is committed for a job, and released otherwise.
  unfoldable pub settle :
      ℕ
      → ℕ
      → ChatQueue
      → Tables × Result Fault (AcceptedMessage × Bool)
      → Chat × Result Fault AcceptedMessage
  settle ticket key q (t, ok (a, true)) =
      (record { tables = t; queue = (Queue.commit ticket key q).0 }, ok a)
  settle ticket key q (t, ok (a, false)) =
      (record { tables = t; queue = Queue.release ticket q }, ok a)
  settle ticket key q (t, err f) = (record { tables = t; queue = Queue.release ticket q }, err f)

  -- After the first look for the operation; `key` is that of the user and the session.
  unfoldable pub submit_new :
      ℕ
      → ℕ
      → ℕ
      → ChatMessageInput
      → FreshMessage
      → (Tables → Tables)
      → Chat
      → Chat × Result Fault AcceptedMessage
  unfolding accept_message settle
  submit_new user_id session_id key input fresh others c =
      let (q, ticket) = reserve c.queue in
      elim ticket [
        | none ↦ (record c { queue = q }, err (p9 unavailable))
        | some t ↦ settle t key q (accept_message user_id session_id input fresh (others c.tables))
      ]

  -- `submitMessage`
  unfoldable pub submit_message :
      ℕ
      → ℕ
      → ℕ
      → ChatMessageInput
      → FreshMessage
      → (Tables → Tables)
      → Chat
      → Chat × Result Fault AcceptedMessage
  unfolding submit_new
  submit_message user_id session_id key input fresh others c =
      if input.speak
      then (c, err (p9 unavailable))
      else elim (find_operation user_id input.idempotency_key c.tables) [
        | some (o, m) ↦ (c, existing_response o m session_id input)
        | none ↦ submit_new user_id session_id key input fresh others c
      ]
