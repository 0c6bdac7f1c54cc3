-- ===== src/Chat/Rows.antt =====
-- The tables of the chat (backend/prisma/schema.prisma), as far as the service reads or writes
-- them. Ids, times and keys are numbers; a content and a title are lists of characters.
use backend_bmo_blabs.Base.{ℕ, Bool, true, false, not, Option, none, some, List, ◌==◌, is_some}

pub data SessionStatus : Type 0 where
  active archived deleted : SessionStatus

pub record SessionRow : Type 0 where
  pub id : ℕ
  pub user_id : ℕ
  pub temporary : Bool
  pub title : Option (List ℕ)
  pub status : SessionStatus
  pub last_message_cursor : Option ℕ
  pub last_message_at : Option ℕ
  pub deleted_at : Option ℕ

pub data Role : Type 0 where
  user assistant system : Role

-- `reply_to` is the operation in the metadata of an assistant's message.
pub record MessageRow : Type 0 where
  pub id : ℕ
  pub session_id : ℕ
  pub user_id : ℕ
  pub source_device_id : Option ℕ
  pub role : Role
  pub content : List ℕ
  pub reply_to : Option ℕ
  pub cursor : ℕ
  pub idempotency_key : Option ℕ
  pub created_at : ℕ
  pub deleted_at : Option ℕ

pub data OperationStatus : Type 0 where
  processing succeeded failed cancelled : OperationStatus

-- The column `errorCode` also holds the lease of a worker, `LEASE:` and a token.
pub data ErrorCode : Type 0 where
  lease : ℕ → ErrorCode
  hermes_failed session_deleted : ErrorCode

pub record OperationRow : Type 0 where
  pub id : ℕ
  pub user_id : ℕ
  pub user_message_id : ℕ
  pub idempotency_key : ℕ
  pub status : OperationStatus
  pub error_code : Option ErrorCode
  pub completed_at : Option ℕ
  pub updated_at : ℕ

pub record DeviceRow : Type 0 where
  pub id : ℕ
  pub user_id : ℕ
  pub is_active : Bool

pub data AuditEvent : Type 0 where
  chat_session_created chat_session_deleted chat_operation_failed : ℕ → AuditEvent

pub record Tables : Type 0 where
  pub sessions : List SessionRow
  pub messages : List MessageRow
  pub operations : List OperationRow
  pub devices : List DeviceRow
  pub audit : List AuditEvent

abbrev pub is_processing : OperationRow → Bool
is_processing o = elim o.status [ OperationStatus.processing ↦ true | _ ↦ false ]

-- `status: "ACTIVE", deletedAt: null`
abbrev pub is_open : SessionRow → Bool
is_open s = elim s.status [ SessionStatus.active ↦ not (is_some s.deleted_at) | _ ↦ false ]

-- `errorCode: leaseToken`
abbrev pub holds : ℕ → OperationRow → Bool
holds token o = elim o.error_code [
  | none ↦ false
  | some c ↦ elim c [ lease t ↦ t == token | _ ↦ false ]
]
