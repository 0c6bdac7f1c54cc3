-- ===== src/Voice.antt =====
-- backend/src/services/voice-pipeline.service.ts: the stages of a voice request, over the store of
-- requests and the temporary audio. What an outside service answers is given by `Ports`. The code
-- between two `await`s is one step; the time limit and the calls of other parts come between steps.
pub mod Error
pub mod Once
pub mod Late
pub mod Ends
pub mod Alone
mod Tests
use backend_bmo_blabs.Base.{
  ℕ, suc, Bool, true, false, ◌&&◌, Option, none, some, List, [], ◌∷◌, ◌++◌, Result, ok, err, ltb,
  length, if◌then◌else◌, is_some,
}
use backend_bmo_blabs.Chat.Title.{trim}
use backend_bmo_blabs.RequestStore.Record.{
  VoiceRequestRecord, AudioOutput, PendingStatus, RequestStoreErrorCode,
}
use backend_bmo_blabs.RequestStore.{RequestStore, set_status, mark_audio_ready, Op}
use backend_bmo_blabs.RequestStore
use backend_bmo_blabs.TempAudio.Cleanup.{Paths}
use backend_bmo_blabs.TempAudio.{
  TempAudioRecord, TempAudio, FileError, create_from_bytes, delete_audio, delete_input,
}
use backend_bmo_blabs.TempAudio
use Error.{RequestFailureCode, ErrorCode, Thrown, code_text, map_pipeline_error}

-- The text is a list of characters.
pub record SttResult : Type 0 where
  pub text : List ℕ
  pub speech_detected : Bool

-- The audio is known by its size.
pub record TtsResult : Type 0 where
  pub audio_size : ℕ
  pub tts_engine : ℕ

-- What the awaited calls answer, the id that `randomUUID` gives, and the address of an audio.
pub record Ports : Type 0 where
  pub read_file : ℕ → Result Thrown ℕ
  pub transcribe : ℕ → Result Thrown SttResult
  pub generate : List ℕ → Result Thrown (List ℕ)
  pub synthesize : ℕ → List ℕ → Result Thrown TtsResult
  pub audio_id : ℕ
  pub audio_url : ℕ → ℕ
  pub paths : Paths

pub data VoicePipelineResult : Type 0 where
  audio_ready : List ℕ → List ℕ → ℕ → VoicePipelineResult
  failed : RequestFailureCode → VoicePipelineResult

-- A message to the device of the request.
pub data Notice : Type 0 where
  thinking : Notice
  audio_ready : VoiceRequestRecord → Notice
  request_failed : RequestFailureCode → Notice

-- The call that `#run` awaits, with the values that it holds; `over` when it has returned or thrown.
pub data Phase : Type 0 where
  reading : Phase
  transcribing : ℕ → Phase
  generating : SttResult → Phase
  synthesizing : SttResult → List ℕ → Phase
  storing : SttResult → List ℕ → TtsResult → Phase
  over : Phase

-- `result` is what `process` returns once the race is settled.
pub record Pipeline : Type 0 where
  pub store : RequestStore
  pub audio : TempAudio
  pub sent : List Notice
  pub phase : Phase
  pub timed_out : Bool
  pub result : Option VoicePipelineResult

-- `sockets.send...`
abbrev pub send : Notice → Pipeline → Pipeline
send n p = record p { sent = p.sent ++ n ∷ [] }

module _ (ports : Ports) (r : VoiceRequestRecord) where
  -- The `finally` of `process`, with the result that it returns.
  settle : VoicePipelineResult → Pipeline → Pipeline
  settle result p = record p { result = some result; audio = delete_input r.input_path p.audio }

  -- `#fail`: an error of the store is swallowed.
  fail : RequestFailureCode → ℕ → Pipeline → Pipeline
  fail code now p = record p {
    store = (RequestStore.fail r.request_id (code_text code) now p.store).0;
    sent = p.sent ++ Notice.request_failed code ∷ [];
  }

  -- The `catch` of `process`: once the race is settled, a rejection is ignored.
  caught : RequestFailureCode → ℕ → Pipeline → Pipeline
  unfolding settle fail
  caught code now p =
      if is_some p.result then p else settle (VoicePipelineResult.failed code) (fail code now p)

  -- `#run` throws.
  throw : Thrown → ℕ → Pipeline → Pipeline
  unfolding caught
  throw e now p = caught (map_pipeline_error e) now (record p { phase = Phase.over })

  -- The callback of the timer, which is cleared when the race is settled.
  pub time_out : ℕ → Pipeline → Pipeline
  time_out now p =
      if is_some p.result
      then p
      else caught RequestFailureCode.pipeline_timeout now (record p { timed_out = true })

  -- `#throwIfTimedOut` after an `await`.
  throw_if_timed_out : ℕ → Pipeline → Pipeline → Pipeline
  throw_if_timed_out now p next =
      if p.timed_out then throw (Thrown.coded ErrorCode.pipeline_timeout) now p else next

  entered : RequestStore.Call → ℕ → Pipeline → (Pipeline → Pipeline) → Pipeline
  entered (s, ok q) now p next = next (record p { store = s })
  entered (s, err e) now p next = throw (Thrown.coded ErrorCode.other) now (record p { store = s })

  -- `requestStore.setStatus`, and the rest of the step if it does not throw.
  enter : PendingStatus → ℕ → Pipeline → (Pipeline → Pipeline) → Pipeline
  unfolding entered
  enter status now p next = entered (set_status r.request_id status p.store) now p next

  has_speech : SttResult → Bool
  has_speech stt = stt.speech_detected && ltb 0 (length (trim stt.text))

  audio_output : TempAudioRecord → AudioOutput
  audio_output a = record {
    audio_id = a.audio_id;
    audio_path = a.path;
    audio_url = ports.audio_url a.audio_id;
    expires_at = a.expires_at;
  }

  -- The first part of `process` and `#run`, up to the first `await`.
  pub begin : ℕ → RequestStore → TempAudio → Pipeline
  unfolding enter
  begin now s t =
      let p : Pipeline = record {
        store = s;
        audio = t;
        sent = [];
        phase = Phase.reading;
        timed_out = false;
        result = none;
      } in
      enter PendingStatus.transcribing now p (λ q. q)

  after_read : Result Thrown ℕ → ℕ → Pipeline → Pipeline
  after_read (err e) now p = throw e now p
  after_read (ok wav) now p = throw_if_timed_out now p (record p { phase = Phase.transcribing wav })

  after_transcribe : Result Thrown SttResult → ℕ → Pipeline → Pipeline
  unfolding has_speech
  after_transcribe (err e) now p = throw e now p
  after_transcribe (ok stt) now p = throw_if_timed_out now p (
      if has_speech stt
      then enter PendingStatus.thinking now p
          (λ q. send Notice.thinking (record q { phase = Phase.generating stt }))
      else throw (Thrown.coded ErrorCode.no_speech) now p)

  after_generate : SttResult → Result Thrown (List ℕ) → ℕ → Pipeline → Pipeline
  after_generate stt (err e) now p = throw e now p
  after_generate stt (ok reply) now p = throw_if_timed_out now p (
      enter PendingStatus.generating_voice now p
        (λ q. record q { phase = Phase.synthesizing stt reply }))

  after_synthesize : SttResult → List ℕ → Result Thrown TtsResult → ℕ → Pipeline → Pipeline
  after_synthesize stt reply (err e) now p = throw e now p
  after_synthesize stt reply (ok tts) now p =
      throw_if_timed_out now p (record p { phase = Phase.storing stt reply tts })

  -- After `markAudioReady`: the message to the device and the result.
  finished : SttResult → List ℕ → TtsResult → RequestStore.Call → ℕ → Pipeline → Pipeline
  finished stt reply tts (s, ok ready) now p =
      settle (VoicePipelineResult.audio_ready stt.text reply tts.tts_engine)
        (send (Notice.audio_ready ready) (record p { store = s; phase = Phase.over }))
  finished stt reply tts (s, err e) now p =
      throw (Thrown.coded ErrorCode.other) now (record p { store = s })

  finish : SttResult → List ℕ → TtsResult → TempAudioRecord → ℕ → Pipeline → Pipeline
  unfolding finished audio_output
  finish stt reply tts a now p =
      finished stt reply tts (mark_audio_ready r.request_id (audio_output a) p.store) now p

  after_store :
      SttResult
      → List ℕ
      → TtsResult
      → TempAudio × Result FileError TempAudioRecord
      → ℕ
      → Pipeline
      → Pipeline
  after_store stt reply tts (t, err e) now p = throw Thrown.plain now (record p { audio = t })
  after_store stt reply tts (t, ok a) now p =
      if p.timed_out
      then throw (Thrown.coded ErrorCode.pipeline_timeout) now
          (record p { audio = delete_audio a.audio_id t })
      else finish stt reply tts a now (record p { audio = t })

  -- The awaited call answers.
  resume_at : Phase → ℕ → Pipeline → Pipeline
  resume_at Phase.reading now p = after_read (ports.read_file r.input_path) now p
  resume_at (Phase.transcribing wav) now p = after_transcribe (ports.transcribe wav) now p
  resume_at (Phase.generating stt) now p = after_generate stt (ports.generate stt.text) now p
  resume_at (Phase.synthesizing stt reply) now p =
      after_synthesize stt reply (ports.synthesize r.request_id reply) now p
  resume_at (Phase.storing stt reply tts) now p =
      after_store stt reply tts
        (create_from_bytes ports.paths ports.audio_id tts.audio_size now p.audio) now p
  resume_at Phase.over now p = p

  pub resume : ℕ → Pipeline → Pipeline
  resume now p = resume_at p.phase now p

  -- What may happen next: a step of the pipeline, its time limit, or a call of another part.
  pub data Event : Type 0 where
    resumes : ℕ → Event
    times_out : ℕ → Event
    on_store : Op → Event
    on_audio : TempAudio.Call → Event

  pub step : Event → Pipeline → Pipeline
  step (Event.resumes now) p = resume now p
  step (Event.times_out now) p = time_out now p
  step (Event.on_store o) p = record p { store = RequestStore.step o p.store }
  step (Event.on_audio c) p = record p { audio = TempAudio.step ports.paths c p.audio }

  pub run : List Event → Pipeline → Pipeline
  run [] p = p
  run (e ∷ es) p = run es (step e p)
