-- ===== src/Voice/Late.antt =====
-- After the time limit, the rest of the run writes nothing.
use backend_bmo_blabs.Base.{
  ℕ, ◌≡◌, refl, sym, ◌∙◌, subst, Bool, true, false, ◌||◌, none, List, Result, ok, err,
  if◌then◌else◌, is_some,
}
use backend_bmo_blabs.Base.Dict.{lookup}
use backend_bmo_blabs.RequestStore.Record.{VoiceRequestRecord}
use backend_bmo_blabs.RequestStore.{RequestStore}
use backend_bmo_blabs.TempAudio.{
  TempAudio, TempAudioRecord, FileError, create_from_bytes, delete_audio,
}
use backend_bmo_blabs.TempAudio.Expiry.{created_deleted, created_deleted_file, created_refused}
use backend_bmo_blabs.Voice.Error.{Thrown, ErrorCode}
use backend_bmo_blabs.Voice.Once.{is_over, run-IsSettled, begin-IsSettled}
use backend_bmo_blabs.Voice.{
  SttResult, TtsResult, Ports, Phase, Pipeline, caught, throw, throw_if_timed_out, begin,
  after_read, after_transcribe, after_generate, after_synthesize, finish, after_store, resume_at,
  resume, Event, run,
}

-- The second pipeline differs from the first in its phase and in the temporary audio at most, and
-- there it knows no more of this id, and has no new file at its path.
abbrev pub Leaves : Ports → TempAudio → TempAudio → Type 0
Leaves ports t u =
    (lookup ports.audio_id t.audio ≡ none → lookup ports.audio_id u.audio ≡ none)
    × (lookup (ports.paths.audio_path ports.audio_id) t.files ≡ none
        → lookup (ports.paths.audio_path ports.audio_id) u.files ≡ none)

pub record IsSilent (ports : Ports) (p q : Pipeline) : Type 0 where
  pub same_store : q.store ≡ p.store
  pub same_sent : q.sent ≡ p.sent
  pub same_result : q.result ≡ p.result
  pub no_audio : Leaves ports p.audio q.audio

module _ (ports : Ports) (r : VoiceRequestRecord) where
  module _ (p : Pipeline) (late : p.timed_out ≡ true) (has : is_some p.result ≡ true) where
    throw-IsSilent :
        (e : Thrown) (now : ℕ) (t : TempAudio)
        → Leaves ports p.audio t
        → IsSilent ports p (throw ports r e now (record p { audio = t }))
    unfolding throw caught
    throw-IsSilent e now t gone =
        rw (has, throw)
          (record { same_store = refl; same_sent = refl; same_result = refl; no_audio = gone })

    checked-IsSilent :
        (now : ℕ) (next : Pipeline) → IsSilent ports p (throw_if_timed_out ports r now p next)
    unfolding throw_if_timed_out
    checked-IsSilent now next =
        subst
          (λ b.
            IsSilent ports p
              (if b then throw ports r (Thrown.coded ErrorCode.pipeline_timeout) now p else next))
          (sym late)
          (throw-IsSilent (Thrown.coded ErrorCode.pipeline_timeout) now p.audio (λ e. e, λ e. e))

    -- The audio that was made too late is deleted.
    after_store-IsSilent :
        (stt : SttResult) (reply : List ℕ) (tts : TtsResult) (now : ℕ)
        → IsSilent ports p (
            after_store ports r stt reply tts
              (create_from_bytes ports.paths ports.audio_id tts.audio_size now p.audio)
              now
              p)
    unfolding after_store
    after_store-IsSilent stt reply tts now =
        by_call (create_from_bytes ports.paths ports.audio_id tts.audio_size now p.audio) refl
      where
        by_call :
            (c : TempAudio × Result FileError TempAudioRecord)
            → create_from_bytes ports.paths ports.audio_id tts.audio_size now p.audio ≡ c
            → IsSilent ports p (after_store ports r stt reply tts c now p)
        by_call (t, err f) e =
            let same =
              created_refused ports.paths ports.audio_id tts.audio_size now p.audio t f e in
            throw-IsSilent Thrown.plain now t
              (subst (Leaves ports p.audio) (sym same) (λ h. h, λ h. h))
        by_call (t, ok a) e =
            subst
              (λ b. IsSilent ports p (
                if b
                then throw ports r (Thrown.coded ErrorCode.pipeline_timeout) now
                    (record p { audio = delete_audio a.audio_id t })
                else finish ports r stt reply tts a now (record p { audio = t })))
              (sym late)
              (throw-IsSilent (Thrown.coded ErrorCode.pipeline_timeout) now
                (delete_audio a.audio_id t)
                (
                  λ h. created_deleted ports.paths ports.audio_id tts.audio_size now p.audio t a e,
                  λ h.
                      created_deleted_file ports.paths ports.audio_id tts.audio_size now p.audio t a
                        e,
                ))

  resume-IsSilent :
      (now : ℕ) (p : Pipeline)
      → p.timed_out ≡ true
      → is_some p.result ≡ true
      → IsSilent ports p (resume ports r now p)
  unfolding resume resume_at after_read after_transcribe after_generate after_synthesize
  resume-IsSilent now p late has = by_phase p.phase
    where
      thrown : (e : Thrown) → IsSilent ports p (throw ports r e now p)
      thrown e = throw-IsSilent p late has e now p.audio (λ h. h, λ h. h)

      by_read : (o : Result Thrown ℕ) → IsSilent ports p (after_read ports r o now p)
      by_read (err e) = thrown e
      by_read (ok wav) = checked-IsSilent p late has now _

      by_stt : (o : Result Thrown SttResult) → IsSilent ports p (after_transcribe ports r o now p)
      by_stt (err e) = thrown e
      by_stt (ok stt) = checked-IsSilent p late has now _

      by_reply :
          (stt : SttResult) (o : Result Thrown (List ℕ))
          → IsSilent ports p (after_generate ports r stt o now p)
      by_reply stt (err e) = thrown e
      by_reply stt (ok reply) = checked-IsSilent p late has now _

      by_speech :
          (stt : SttResult) (reply : List ℕ) (o : Result Thrown TtsResult)
          → IsSilent ports p (after_synthesize ports r stt reply o now p)
      by_speech stt reply (err e) = thrown e
      by_speech stt reply (ok tts) = checked-IsSilent p late has now _

      by_phase : (f : Phase) → IsSilent ports p (resume_at ports r f now p)
      by_phase Phase.reading = (by_read (ports.read_file r.input_path))
      by_phase (Phase.transcribing wav) = (by_stt (ports.transcribe wav))
      by_phase (Phase.generating stt) = (by_reply stt (ports.generate stt.text))
      by_phase (Phase.synthesizing stt reply) =
          (by_speech stt reply (ports.synthesize r.request_id reply))
      by_phase (Phase.storing stt reply tts) = (after_store-IsSilent p late has stt reply tts now)
      by_phase Phase.over = (record {
        same_store = refl;
        same_sent = refl;
        same_result = refl;
        no_audio = (λ h. h, λ h. h);
      })

  -- Once its time is up, whatever happened before, an answer to the run changes neither the store of
  -- requests nor the result, sends nothing, and leaves no audio behind: if the id of the pipeline's
  -- audio has no record before, it has none after, and if its path has no file before, it has none
  -- after.
  pub late_answer :
      (now : ℕ) (s : RequestStore) (t : TempAudio) (es : List (Event ports r)) (later : ℕ)
      → let p = run ports r es (begin ports r now s t) in
        p.timed_out ≡ true → IsSilent ports p (resume ports r later p)
  late_answer now s t es later late =
      let p = run ports r es (begin ports r now s t) in
      let v = run-IsSettled ports r es (begin ports r now s t) (begin-IsSettled ports r now s t) in
      resume-IsSilent later p late (v.due ∙ rw late (or_true (is_over p.phase)))
    where
      or_true : (b : Bool) → (b || true) ≡ true
      or_true true = refl
      or_true false = refl
