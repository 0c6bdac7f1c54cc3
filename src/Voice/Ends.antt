-- ===== src/Voice/Ends.antt =====
-- The run of a pipeline is over after five answers at most.
use backend_bmo_blabs.Base.{
  ℕ, suc, ◌-◌, ◌≤◌, ◌≡◌, refl, subst, sym, Bool, true, false, List, [], ◌∷◌, Result, ok, err,
  if◌then◌else◌, is_some, arith, Bool-cases, ◌∙◌, inl, inr,
}
use backend_bmo_blabs.RequestStore.Record.{VoiceRequestRecord, PendingStatus}
use backend_bmo_blabs.RequestStore
use backend_bmo_blabs.RequestStore.{RequestStore, set_status, mark_audio_ready}
use backend_bmo_blabs.TempAudio
use backend_bmo_blabs.TempAudio.{
  TempAudio, TempAudioRecord, FileError, create_from_bytes, delete_audio,
}
use backend_bmo_blabs.Voice.Error.{RequestFailureCode, Thrown, map_pipeline_error, ErrorCode}
use backend_bmo_blabs.Voice.Once.{is_over, run-IsSettled, begin-IsSettled}
use backend_bmo_blabs.Voice.{
  SttResult, TtsResult, Ports, Phase, Pipeline, settle, fail, caught, throw, time_out,
  throw_if_timed_out, entered, enter, has_speech, audio_output, begin, after_read, after_transcribe,
  after_generate, after_synthesize, finished, finish, after_store, resume_at, resume, Event, step,
  run,
}

-- The answers that a run still waits for, at most.
abbrev rank : Phase → ℕ
rank Phase.reading = 5
rank (Phase.transcribing wav) = 4
rank (Phase.generating stt) = 3
rank (Phase.synthesizing stt reply) = 2
rank (Phase.storing stt reply tts) = 1
rank Phase.over = 0

abbrev Within : ℕ → Pipeline → Type 0
Within n p = rank p.phase ≤ n

if-Within :
    (n : ℕ) (p q : Pipeline) (b : Bool) → Within n p → Within n q → Within n (if b then p else q)
if-Within n p q true h k = h
if-Within n p q false h k = k

module _ (ports : Ports) (r : VoiceRequestRecord) where
  caught-phase :
      (c : RequestFailureCode) (now : ℕ) (p : Pipeline) → (caught ports r c now p).phase ≡ p.phase
  unfolding caught settle fail
  caught-phase c now p = ground arith

  time_out-phase : (now : ℕ) (p : Pipeline) → (time_out ports r now p).phase ≡ p.phase
  unfolding time_out
  time_out-phase now p = elim (Bool-cases (is_some p.result)) [
    | inl has ↦ rw (has, time_out) refl
    | inr free ↦
        rw (free, time_out)
          (caught-phase RequestFailureCode.pipeline_timeout now (record p { timed_out = true }))
  ]

  throw-Within : (n : ℕ) (e : Thrown) (now : ℕ) (p : Pipeline) → Within n (throw ports r e now p)
  unfolding throw
  throw-Within n e now p =
      subst (λ f. rank f ≤ n)
        (sym (caught-phase (map_pipeline_error e) now (record p { phase = Phase.over })))
        (omega arith)

  checked-Within :
      (n now : ℕ) (p next : Pipeline)
      → Within n next
      → Within n (throw_if_timed_out ports r now p next)
  unfolding throw_if_timed_out
  checked-Within n now p next h =
      if-Within n _ _ p.timed_out (throw-Within n (Thrown.coded ErrorCode.pipeline_timeout) now p) h

  enter-Within :
      (n : ℕ) (status : PendingStatus) (now : ℕ) (p : Pipeline) (next : Pipeline → Pipeline)
      → ((s : RequestStore) → Within n (next (record p { store = s })))
      → Within n (enter ports r status now p next)
  unfolding enter entered
  enter-Within n status now p next f = by_call (set_status r.request_id status p.store)
    where
      by_call : (c : RequestStore.Call) → Within n (entered ports r c now p next)
      by_call (s, ok q) = f s
      by_call (s, err e) =
          throw-Within n (Thrown.coded ErrorCode.other) now (record p { store = s })

  after_read-Within :
      (o : Result Thrown ℕ) (now : ℕ) (p : Pipeline) → Within 4 (after_read ports r o now p)
  unfolding after_read
  after_read-Within (err e) now p = throw-Within 4 e now p
  after_read-Within (ok wav) now p = checked-Within 4 now p _ (omega arith)

  after_transcribe-Within :
      (o : Result Thrown SttResult) (now : ℕ) (p : Pipeline)
      → Within 3 (after_transcribe ports r o now p)
  unfolding after_transcribe
  after_transcribe-Within (err e) now p = throw-Within 3 e now p
  after_transcribe-Within (ok stt) now p = checked-Within 3 now p _ (
      if-Within 3 _ _ (has_speech ports r stt)
        (enter-Within 3 PendingStatus.thinking now p _ (λ s. omega arith))
        (throw-Within 3 (Thrown.coded ErrorCode.no_speech) now p))

  after_generate-Within :
      (stt : SttResult) (o : Result Thrown (List ℕ)) (now : ℕ) (p : Pipeline)
      → Within 2 (after_generate ports r stt o now p)
  unfolding after_generate
  after_generate-Within stt (err e) now p = throw-Within 2 e now p
  after_generate-Within stt (ok reply) now p =
      checked-Within 2 now p _
        (enter-Within 2 PendingStatus.generating_voice now p _ (λ s. omega arith))

  after_synthesize-Within :
      (stt : SttResult) (reply : List ℕ) (o : Result Thrown TtsResult) (now : ℕ) (p : Pipeline)
      → Within 1 (after_synthesize ports r stt reply o now p)
  unfolding after_synthesize
  after_synthesize-Within stt reply (err e) now p = throw-Within 1 e now p
  after_synthesize-Within stt reply (ok tts) now p = checked-Within 1 now p _ (omega arith)

  finish-Within :
      (stt : SttResult) (reply : List ℕ) (tts : TtsResult) (a : TempAudioRecord) (now : ℕ)
      (p : Pipeline)
      → Within 0 (finish ports r stt reply tts a now p)
  unfolding finish finished settle
  finish-Within stt reply tts a now p =
      by_call (mark_audio_ready r.request_id (audio_output ports r a) p.store)
    where
      by_call : (c : RequestStore.Call) → Within 0 (finished ports r stt reply tts c now p)
      by_call (s, ok q) = omega arith
      by_call (s, err e) =
          throw-Within 0 (Thrown.coded ErrorCode.other) now (record p { store = s })

  after_store-Within :
      (stt : SttResult) (reply : List ℕ) (tts : TtsResult)
      (c : TempAudio × Result FileError TempAudioRecord) (now : ℕ) (p : Pipeline)
      → Within 0 (after_store ports r stt reply tts c now p)
  unfolding after_store
  after_store-Within stt reply tts (t, err e) now p =
      throw-Within 0 Thrown.plain now (record p { audio = t })
  after_store-Within stt reply tts (t, ok a) now p =
      if-Within 0 _ _ p.timed_out
        (throw-Within 0 (Thrown.coded ErrorCode.pipeline_timeout) now
          (record p { audio = delete_audio a.audio_id t }))
        (finish-Within stt reply tts a now (record p { audio = t }))

  resume-Within : (now : ℕ) (p : Pipeline) → Within (rank p.phase - 1) (resume ports r now p)
  unfolding resume resume_at
  resume-Within now p = by_phase p.phase refl
    where
      by_phase : (f : Phase) → p.phase ≡ f → Within (rank f - 1) (resume_at ports r f now p)
      by_phase Phase.reading e = (after_read-Within (ports.read_file r.input_path) now p)
      by_phase (Phase.transcribing wav) e = (after_transcribe-Within (ports.transcribe wav) now p)
      by_phase (Phase.generating stt) e =
          (after_generate-Within stt (ports.generate stt.text) now p)
      by_phase (Phase.synthesizing stt reply) e =
          (after_synthesize-Within stt reply (ports.synthesize r.request_id reply) now p)
      by_phase (Phase.storing stt reply tts) e =
          (after_store-Within stt reply tts
            (create_from_bytes ports.paths ports.audio_id tts.audio_size now p.audio) now p)
      by_phase Phase.over e = (subst (λ f. rank f ≤ 0) (sym e) (omega arith))

  -- The answers among the events.
  unfoldable pub answers : List (Event ports r) → ℕ
  answers [] = 0
  answers (Event.resumes now ∷ es) = suc (answers es)
  answers (Event.times_out now ∷ es) = answers es
  answers (Event.on_store o ∷ es) = answers es
  answers (Event.on_audio c ∷ es) = answers es

  run-Within :
      (es : List (Event ports r)) (p : Pipeline)
      → Within (rank p.phase - answers es) (run ports r es p)
  unfolding run step answers
  run-Within [] p = omega arith
  run-Within (Event.resumes now ∷ es) p =
      let h = run-Within es (resume ports r now p) in let k = resume-Within now p in omega arith
  run-Within (Event.times_out now ∷ es) p =
      subst (λ f. Within (rank f - answers es) (run ports r es (time_out ports r now p)))
        (time_out-phase now p) (run-Within es (time_out ports r now p))
  run-Within (Event.on_store o ∷ es) p =
      run-Within es (record p { store = RequestStore.step o p.store })
  run-Within (Event.on_audio c ∷ es) p =
      run-Within es (record p { audio = TempAudio.step ports.paths c p.audio })

  rank_over : (f : Phase) → rank f ≤ 0 → is_over f ≡ true
  rank_over Phase.over h = refl
  rank_over Phase.reading h = absurd (omega arith)
  rank_over (Phase.transcribing wav) h = absurd (omega arith)
  rank_over (Phase.generating stt) h = absurd (omega arith)
  rank_over (Phase.synthesizing stt reply) h = absurd (omega arith)
  rank_over (Phase.storing stt reply tts) h = absurd (omega arith)

  -- Whatever happens around it, a pipeline whose awaited calls have answered five times is over and
  -- has a result.
  pub five_answers_end :
      (now : ℕ) (s : RequestStore) (t : TempAudio) (es : List (Event ports r))
      → 5 ≤ answers es
      → let p = run ports r es (begin ports r now s t) in
        (is_over p.phase ≡ true) × (is_some p.result ≡ true)
  five_answers_end now s t es enough =
      let p = run ports r es (begin ports r now s t) in
      let v = run-IsSettled ports r es (begin ports r now s t) (begin-IsSettled ports r now s t) in
      let most = rank_most (begin ports r now s t).phase in
      let ends : is_over p.phase ≡ true =
        rank_over p.phase (let w = run-Within es (begin ports r now s t) in omega arith) in
      (ends, v.due ∙ rw ends refl)
    where
      rank_most : (f : Phase) → rank f ≤ 5
      rank_most Phase.reading = omega arith
      rank_most (Phase.transcribing wav) = omega arith
      rank_most (Phase.generating stt) = omega arith
      rank_most (Phase.synthesizing stt reply) = omega arith
      rank_most (Phase.storing stt reply tts) = omega arith
      rank_most Phase.over = omega arith
