-- ===== src/RequestStore/Record.antt =====
-- The types of backend/src/domain/request-store.ts.
use backend_bmo_blabs.Base.{ℕ, Bool, true, false, Option}

pub data RequestStatus : Type 0 where
  accepted transcribing thinking generating_voice audio_ready completed failed expired :
      RequestStatus

-- The states that `setStatus` takes: `Exclude<RequestStatus, "completed" | "failed" | "expired">`.
pub data PendingStatus : Type 0 where
  accepted transcribing thinking generating_voice audio_ready : PendingStatus

abbrev pub pending : PendingStatus → RequestStatus
pending PendingStatus.accepted = RequestStatus.accepted
pending PendingStatus.transcribing = RequestStatus.transcribing
pending PendingStatus.thinking = RequestStatus.thinking
pending PendingStatus.generating_voice = RequestStatus.generating_voice
pending PendingStatus.audio_ready = RequestStatus.audio_ready

pub data PublicRequestStatus : Type 0 where
  processing audio_ready completed failed expired : PublicRequestStatus

pub data PlaybackState : Type 0 where
  waiting done failed : PlaybackState

pub record NewRequest : Type 0 where
  pub request_id : ℕ
  pub device_id : ℕ
  pub input_path : ℕ
  pub input_sha256 : ℕ
  pub input_content_length : ℕ

pub record AudioOutput : Type 0 where
  pub audio_id : ℕ
  pub audio_path : ℕ
  pub audio_url : ℕ
  pub expires_at : ℕ

-- `null` is `none`.
pub record VoiceRequestRecord : Type 0 where
  pub input : NewRequest
  pub open input use *
  pub status : RequestStatus
  pub created_at : ℕ
  pub terminal_at : Option ℕ
  pub audio_id : Option ℕ
  pub audio_path : Option ℕ
  pub audio_url : Option ℕ
  pub expires_at : Option ℕ
  pub playback_state : PlaybackState
  pub error_code : Option ℕ

pub data RequestStoreErrorCode : Type 0 where
  device_busy request_not_found invalid_request_state : RequestStoreErrorCode

-- The code of the text AUDIO_EXPIRED.
abbrev pub audio_expired : ℕ
audio_expired = 1

-- `#isTerminal`
abbrev pub is_terminal : RequestStatus → Bool
is_terminal RequestStatus.completed = true
is_terminal RequestStatus.failed = true
is_terminal RequestStatus.expired = true
is_terminal _ = false

-- The four states before the audio is there.
abbrev pub is_processing : RequestStatus → Bool
is_processing RequestStatus.accepted = true
is_processing RequestStatus.transcribing = true
is_processing RequestStatus.thinking = true
is_processing RequestStatus.generating_voice = true
is_processing _ = false

-- `===` on the states that a method compares with.
abbrev pub same_status : RequestStatus → RequestStatus → Bool
same_status RequestStatus.audio_ready RequestStatus.audio_ready = true
same_status RequestStatus.completed RequestStatus.completed = true
same_status RequestStatus.failed RequestStatus.failed = true
same_status RequestStatus.expired RequestStatus.expired = true
same_status RequestStatus.accepted RequestStatus.accepted = true
same_status RequestStatus.transcribing RequestStatus.transcribing = true
same_status RequestStatus.thinking RequestStatus.thinking = true
same_status RequestStatus.generating_voice RequestStatus.generating_voice = true
same_status _ _ = false

-- `toPublicRequestStatus`
pub to_public_request_status : VoiceRequestRecord → PublicRequestStatus
to_public_request_status r = elim r.status [
  | RequestStatus.audio_ready ↦ PublicRequestStatus.audio_ready
  | RequestStatus.completed ↦ PublicRequestStatus.completed
  | RequestStatus.failed ↦ PublicRequestStatus.failed
  | RequestStatus.expired ↦ PublicRequestStatus.expired
  | _ ↦ PublicRequestStatus.processing
]
