-- ===== src/Voice/Error.antt =====
-- `mapPipelineError`.
use backend_bmo_blabs.Base.{ℕ}
use backend_bmo_blabs.RequestStore.Record

-- The codes of `request_failed`.
pub data RequestFailureCode : Type 0 where
  no_speech invalid_audio stt_failed hermes_failed tts_failed audio_expired pipeline_timeout :
      RequestFailureCode
  internal_error : RequestFailureCode

-- The codes that an error may carry: those that the map passes on, and any other.
pub data ErrorCode : Type 0 where
  no_speech invalid_audio stt_failed hermes_failed tts_failed pipeline_timeout : ErrorCode
  other : ErrorCode

-- What is thrown has a `code` or has none.
pub data Thrown : Type 0 where
  coded : ErrorCode → Thrown
  plain : Thrown

unfoldable pub map_pipeline_error : Thrown → RequestFailureCode
map_pipeline_error (Thrown.coded ErrorCode.no_speech) = RequestFailureCode.no_speech
map_pipeline_error (Thrown.coded ErrorCode.invalid_audio) = RequestFailureCode.invalid_audio
map_pipeline_error (Thrown.coded ErrorCode.stt_failed) = RequestFailureCode.stt_failed
map_pipeline_error (Thrown.coded ErrorCode.hermes_failed) = RequestFailureCode.hermes_failed
map_pipeline_error (Thrown.coded ErrorCode.tts_failed) = RequestFailureCode.tts_failed
map_pipeline_error (Thrown.coded ErrorCode.pipeline_timeout) = RequestFailureCode.pipeline_timeout
map_pipeline_error (Thrown.coded ErrorCode.other) = RequestFailureCode.internal_error
map_pipeline_error Thrown.plain = RequestFailureCode.internal_error

-- The text of a code, as the store keeps it.
pub code_text : RequestFailureCode → ℕ
code_text RequestFailureCode.audio_expired = Record.audio_expired
code_text RequestFailureCode.no_speech = 2
code_text RequestFailureCode.invalid_audio = 3
code_text RequestFailureCode.stt_failed = 4
code_text RequestFailureCode.hermes_failed = 5
code_text RequestFailureCode.tts_failed = 6
code_text RequestFailureCode.pipeline_timeout = 7
code_text RequestFailureCode.internal_error = 8
