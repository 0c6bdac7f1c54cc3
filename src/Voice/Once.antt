-- ===== src/Voice/Once.antt =====
-- The device is told one end of its request, the one that the pipeline returns.
use backend_bmo_blabs.Base.{
  ℕ, ◌≡◌, refl, sym, ◌∙◌, ap, subst, inl, inr, Bool, true, false, ◌||◌, Option, none, some, List,
  [], ◌∷◌, ◌++◌, Result, ok, err, if◌then◌else◌, is_some, arith, Bool-cases,
}
use backend_bmo_blabs.RequestStore.Record.{VoiceRequestRecord, PendingStatus}
use backend_bmo_blabs.RequestStore
use backend_bmo_blabs.RequestStore.{RequestStore, set_status, mark_audio_ready, Op}
use backend_bmo_blabs.TempAudio.{
  TempAudio, TempAudioRecord, FileError, create_from_bytes, delete_audio,
}
use backend_bmo_blabs.Voice.Error.{RequestFailureCode, Thrown, map_pipeline_error, ErrorCode}
use backend_bmo_blabs.Voice.{
  SttResult, TtsResult, Ports, VoicePipelineResult, Notice, Phase, Pipeline, settle, fail, caught,
  throw, time_out, throw_if_timed_out, entered, enter, has_speech, audio_output, begin, after_read,
  after_transcribe, after_generate, after_synthesize, finished, finish, after_store, resume_at,
  resume, Event, step, run,
}

-- The messages that end a request.
pub endings : List Notice → List Notice
endings [] = []
endings (Notice.thinking ∷ ns) = endings ns
endings (Notice.audio_ready q ∷ ns) = Notice.audio_ready q ∷ endings ns
endings (Notice.request_failed c ∷ ns) = Notice.request_failed c ∷ endings ns

endings-append : (xs ys : List Notice) → endings (xs ++ ys) ≡ endings xs ++ endings ys
unfolding endings
endings-append [] ys = refl
endings-append (Notice.thinking ∷ xs) ys = endings-append xs ys
endings-append (Notice.audio_ready q ∷ xs) ys = rw (endings-append xs ys) refl
endings-append (Notice.request_failed c ∷ xs) ys = rw (endings-append xs ys) refl

append_nil : (xs : List Notice) → xs ++ [] ≡ xs
append_nil [] = refl
append_nil (x ∷ xs) = ap (λ l. x ∷ l) (append_nil xs)

-- The messages that a result goes with.
pub Tells : Option VoicePipelineResult → List Notice → Type 0
Tells none ns = ns ≡ []
Tells (some (VoicePipelineResult.failed c)) ns = ns ≡ Notice.request_failed c ∷ []
Tells (some (VoicePipelineResult.audio_ready text reply engine)) ns =
    (q : VoiceRequestRecord) × (ns ≡ Notice.audio_ready q ∷ [])

abbrev pub is_over : Phase → Bool
is_over Phase.over = true
is_over _ = false

-- The pipeline has a result exactly when its run is over or its time is up.
pub record IsSettled (p : Pipeline) : Type 0 where
  pub told : Tells p.result (endings p.sent)
  pub due : is_some p.result ≡ (is_over p.phase || p.timed_out)

no_result : (o : Option VoicePipelineResult) → is_some o ≡ false → o ≡ none
no_result none h = refl
no_result (some x) h = absurd cc

if-IsSettled :
    {p q : Pipeline} (b : Bool)
    → (b ≡ true → IsSettled p)
    → (b ≡ false → IsSettled q)
    → IsSettled (if b then p else q)
if-IsSettled true f g = f refl
if-IsSettled false f g = g refl

module _ (ports : Ports) (r : VoiceRequestRecord) where
  -- A pipeline whose run goes on, within its time.
  record IsGoing (p : Pipeline) : Type 0 where
    silent : endings p.sent ≡ []
    unsettled : p.result ≡ none
    in_time : p.timed_out ≡ false

  caught-IsSettled :
      (c : RequestFailureCode) (now : ℕ) (p : Pipeline)
      → Tells p.result (endings p.sent)
      → (is_over p.phase || p.timed_out) ≡ true
      → IsSettled (caught ports r c now p)
  unfolding caught settle fail Tells endings
  caught-IsSettled c now p t d = elim (Bool-cases (is_some p.result)) [
    | inl has ↦ rw (has, caught) (record { told = t; due = has ∙ sym d })
    | inr free ↦
        let empty : endings p.sent ≡ [] =
          subst (λ o. Tells o (endings p.sent)) (no_result p.result free) t in
        rw (free, caught)
          (record {
            told = endings-append p.sent (Notice.request_failed c ∷ []) ∙ rw empty refl;
            due = sym d;
          })
  ]

  throw-IsSettled :
      (e : Thrown) (now : ℕ) (p : Pipeline)
      → Tells p.result (endings p.sent)
      → IsSettled (throw ports r e now p)
  unfolding throw
  throw-IsSettled e now p t =
      caught-IsSettled (map_pipeline_error e) now (record p { phase = Phase.over }) t refl

  time_out-IsSettled : (now : ℕ) (p : Pipeline) → IsSettled p → IsSettled (time_out ports r now p)
  unfolding time_out
  time_out-IsSettled now p v = elim (Bool-cases (is_some p.result)) [
    | inl has ↦ rw (has, time_out) v
    | inr free ↦
        rw (free, time_out)
          (caught-IsSettled RequestFailureCode.pipeline_timeout now (record p { timed_out = true })
            v.told (ground arith))
  ]

  on_time : (p : Pipeline) → IsSettled p → is_over p.phase ≡ false → p.timed_out ≡ false → IsGoing p
  unfolding Tells
  on_time p v going early =
      let n : p.result ≡ none = no_result p.result (v.due ∙ rw (going, early) refl) in
      record {
        silent = subst (λ o. Tells o (endings p.sent)) n v.told;
        unsettled = n;
        in_time = early;
      }

  -- After an `await`: the rest of the step is met only by a pipeline that goes on.
  checked-IsSettled :
      (now : ℕ) (p next : Pipeline)
      → IsSettled p
      → (IsGoing p → IsSettled next)
      → is_over p.phase ≡ false
      → IsSettled (throw_if_timed_out ports r now p next)
  unfolding throw_if_timed_out Tells
  checked-IsSettled now p next v f going =
      if-IsSettled p.timed_out
        (λ late. throw-IsSettled (Thrown.coded ErrorCode.pipeline_timeout) now p v.told)
        (λ early. f (on_time p v going early))

  going-Tells : (p : Pipeline) → IsGoing p → Tells p.result (endings p.sent)
  unfolding Tells
  going-Tells p g = rw (g.unsettled, Tells) g.silent

  -- A pipeline that goes on, in its next phase.
  going-IsSettled :
      (p q : Pipeline)
      → IsGoing p
      → q.result ≡ p.result
      → q.timed_out ≡ p.timed_out
      → endings q.sent ≡ endings p.sent
      → is_over q.phase ≡ false
      → IsSettled q
  unfolding Tells
  going-IsSettled p q g same_result same_time same_sent on = record {
    told =
        subst (λ o. Tells o (endings q.sent)) (sym (same_result ∙ g.unsettled))
          (same_sent ∙ g.silent);
    due = ap is_some (same_result ∙ g.unsettled) ∙ sym (rw (on, same_time ∙ g.in_time) refl);
  }

  enter-IsSettled :
      (status : PendingStatus) (now : ℕ) (p : Pipeline) (next : Pipeline → Pipeline)
      → IsGoing p
      → ((s : RequestStore) → IsSettled (next (record p { store = s })))
      → IsSettled (enter ports r status now p next)
  unfolding enter entered
  enter-IsSettled status now p next g f = entered-IsSettled (set_status r.request_id status p.store)
    where
      entered-IsSettled : (c : RequestStore.Call) → IsSettled (entered ports r c now p next)
      entered-IsSettled (s, ok q) = f s
      entered-IsSettled (s, err e) =
          throw-IsSettled (Thrown.coded ErrorCode.other) now (record p { store = s })
            (going-Tells p g)

  after_read-IsSettled :
      (o : Result Thrown ℕ) (now : ℕ) (p : Pipeline)
      → IsSettled p
      → is_over p.phase ≡ false
      → IsSettled (after_read ports r o now p)
  unfolding after_read
  after_read-IsSettled (err e) now p v on = throw-IsSettled e now p v.told
  after_read-IsSettled (ok wav) now p v on =
      checked-IsSettled now p (record p { phase = Phase.transcribing wav }) v
        (λ g. going-IsSettled p _ g refl refl refl refl) on

  after_transcribe-IsSettled :
      (o : Result Thrown SttResult) (now : ℕ) (p : Pipeline)
      → IsSettled p
      → is_over p.phase ≡ false
      → IsSettled (after_transcribe ports r o now p)
  unfolding after_transcribe endings
  after_transcribe-IsSettled (err e) now p v on = throw-IsSettled e now p v.told
  after_transcribe-IsSettled (ok stt) now p v on =
      checked-IsSettled now p _ v
        (λ g.
          if-IsSettled (has_speech ports r stt)
            (λ speech.
              enter-IsSettled PendingStatus.thinking now p _ g
                (λ s. going-IsSettled p _ g refl refl (told p) refl))
            (λ silence. throw-IsSettled (Thrown.coded ErrorCode.no_speech) now p v.told))
        on
    where
      told : (p : Pipeline) → endings (p.sent ++ Notice.thinking ∷ []) ≡ endings p.sent
      told p = endings-append p.sent (Notice.thinking ∷ []) ∙ append_nil (endings p.sent)

  after_generate-IsSettled :
      (stt : SttResult) (o : Result Thrown (List ℕ)) (now : ℕ) (p : Pipeline)
      → IsSettled p
      → is_over p.phase ≡ false
      → IsSettled (after_generate ports r stt o now p)
  unfolding after_generate
  after_generate-IsSettled stt (err e) now p v on = throw-IsSettled e now p v.told
  after_generate-IsSettled stt (ok reply) now p v on =
      checked-IsSettled now p _ v
        (λ g.
          enter-IsSettled PendingStatus.generating_voice now p _ g
            (λ s. going-IsSettled p _ g refl refl refl refl))
        on

  after_synthesize-IsSettled :
      (stt : SttResult) (reply : List ℕ) (o : Result Thrown TtsResult) (now : ℕ) (p : Pipeline)
      → IsSettled p
      → is_over p.phase ≡ false
      → IsSettled (after_synthesize ports r stt reply o now p)
  unfolding after_synthesize
  after_synthesize-IsSettled stt reply (err e) now p v on = throw-IsSettled e now p v.told
  after_synthesize-IsSettled stt reply (ok tts) now p v on =
      checked-IsSettled now p (record p { phase = Phase.storing stt reply tts }) v
        (λ g. going-IsSettled p _ g refl refl refl refl) on

  finish-IsSettled :
      (stt : SttResult) (reply : List ℕ) (tts : TtsResult) (a : TempAudioRecord) (now : ℕ)
      (p : Pipeline)
      → IsGoing p
      → IsSettled (finish ports r stt reply tts a now p)
  unfolding finish finished settle Tells endings
  finish-IsSettled stt reply tts a now p g =
      by_call (mark_audio_ready r.request_id (audio_output ports r a) p.store)
    where
      by_call : (c : RequestStore.Call) → IsSettled (finished ports r stt reply tts c now p)
      by_call (s, ok q) = record {
        told = (q, endings-append p.sent (Notice.audio_ready q ∷ []) ∙ rw (g.silent) refl);
        due = refl;
      }
      by_call (s, err e) =
          throw-IsSettled (Thrown.coded ErrorCode.other) now (record p { store = s })
            (going-Tells p g)

  after_store-IsSettled :
      (stt : SttResult) (reply : List ℕ) (tts : TtsResult)
      (c : TempAudio × Result FileError TempAudioRecord) (now : ℕ) (p : Pipeline)
      → IsSettled p
      → is_over p.phase ≡ false
      → IsSettled (after_store ports r stt reply tts c now p)
  unfolding after_store
  after_store-IsSettled stt reply tts (t, err e) now p v on =
      throw-IsSettled Thrown.plain now (record p { audio = t }) v.told
  after_store-IsSettled stt reply tts (t, ok a) now p v on =
      if-IsSettled p.timed_out
        (λ late.
          throw-IsSettled (Thrown.coded ErrorCode.pipeline_timeout) now
            (record p { audio = delete_audio a.audio_id t }) v.told)
        (λ early.
          let q : Pipeline = record p { audio = t } in
          finish-IsSettled stt reply tts a now q
            (on_time q (record { told = v.told; due = v.due }) on early))

  resume-IsSettled : (now : ℕ) (p : Pipeline) → IsSettled p → IsSettled (resume ports r now p)
  unfolding resume resume_at
  resume-IsSettled now p v = by_phase p.phase refl
    where
      by_phase : (f : Phase) → p.phase ≡ f → IsSettled (resume_at ports r f now p)
      by_phase Phase.reading e =
          (after_read-IsSettled (ports.read_file r.input_path) now p v (ap is_over e))
      by_phase (Phase.transcribing wav) e =
          (after_transcribe-IsSettled (ports.transcribe wav) now p v (ap is_over e))
      by_phase (Phase.generating stt) e =
          (after_generate-IsSettled stt (ports.generate stt.text) now p v (ap is_over e))
      by_phase (Phase.synthesizing stt reply) e =
          (after_synthesize-IsSettled stt reply (ports.synthesize r.request_id reply) now p v
            (ap is_over e))
      by_phase (Phase.storing stt reply tts) e =
          (after_store-IsSettled stt reply tts
            (create_from_bytes ports.paths ports.audio_id tts.audio_size now p.audio) now p v
            (ap is_over e))
      by_phase Phase.over e = v

  step-IsSettled : (e : Event ports r) (p : Pipeline) → IsSettled p → IsSettled (step ports r e p)
  unfolding step
  step-IsSettled (Event.resumes now) p v = resume-IsSettled now p v
  step-IsSettled (Event.times_out now) p v = time_out-IsSettled now p v
  step-IsSettled (Event.on_store o) p v = record { told = v.told; due = v.due }
  step-IsSettled (Event.on_audio c) p v = record { told = v.told; due = v.due }

  pub run-IsSettled :
      (es : List (Event ports r)) (p : Pipeline) → IsSettled p → IsSettled (run ports r es p)
  unfolding run
  run-IsSettled [] p v = v
  run-IsSettled (e ∷ es) p v = run-IsSettled es (step ports r e p) (step-IsSettled e p v)

  pub begin-IsSettled :
      (now : ℕ) (s : RequestStore) (t : TempAudio) → IsSettled (begin ports r now s t)
  unfolding begin Tells endings
  begin-IsSettled now s t =
      enter-IsSettled PendingStatus.transcribing now _ (λ q. q)
        (record { silent = refl; unsettled = refl; in_time = refl })
        (λ u. record { told = refl; due = refl })

  -- Whatever happens around it, a pipeline tells the device one end of the request at most: a
  -- failure with the code that it returns, or the audio if it returns that; and it has a result
  -- exactly when its run is over or its time is up.
  pub one_ending :
      (now : ℕ) (s : RequestStore) (t : TempAudio) (es : List (Event ports r))
      → IsSettled (run ports r es (begin ports r now s t))
  one_ending now s t es = run-IsSettled es (begin ports r now s t) (begin-IsSettled now s t)
