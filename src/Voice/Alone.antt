-- ===== src/Voice/Alone.antt =====
-- A pipeline whose calls all answer in time, compared with the plain sequence of its calls.
use backend_bmo_blabs.Base.{
  ℕ, ◌≡◌, ◌≢◌, refl, sym, ◌∙◌, ap, subst, Bool, true, false, none, some, List, [], ◌∷◌, ◌++◌,
  Result, ok, err, if◌then◌else◌,
}
use backend_bmo_blabs.Base.Dict.{lookup}
use backend_bmo_blabs.RequestStore.Record.{
  VoiceRequestRecord, PendingStatus, pending, audio_ready, is_processing,
}
use backend_bmo_blabs.RequestStore.{RequestStore, failed_record, ready_record}
use backend_bmo_blabs.RequestStore.Steps.{
  IsOpen, set_status-IsOpen, mark_audio_ready-found, fail-found,
}
use backend_bmo_blabs.TempAudio.{TempAudio, TempAudioRecord}
use backend_bmo_blabs.TempAudio.Expiry.{created}
use backend_bmo_blabs.Voice.Error.{
  RequestFailureCode, ErrorCode, Thrown, map_pipeline_error, code_text,
}
use backend_bmo_blabs.Voice.{
  SttResult, TtsResult, Ports, VoicePipelineResult, Notice, Phase, Pipeline, send, settle, fail,
  caught, throw, throw_if_timed_out, entered, enter, has_speech, audio_output, begin, after_read,
  after_transcribe, after_generate, after_synthesize, finished, finish, after_store, resume_at,
  resume, Event, step, run,
}

abbrev Outcome : Type 0
Outcome = Result RequestFailureCode (List ℕ × (List ℕ × TtsResult))

-- A call and what comes after it; an error ends the sequence with its code.
pub and_then : {A : Type 0} → Result Thrown A → (A → Outcome) → Outcome
and_then (err e) f = err (map_pipeline_error e)
and_then (ok a) f = f a

module _ (ports : Ports) (r : VoiceRequestRecord) where
  -- The calls of the services, one after another.
  pub serve : Outcome
  unfolding and_then has_speech
  serve = and_then (ports.read_file r.input_path) (λ wav. and_then (ports.transcribe wav) (λ stt.
      if has_speech ports r stt
      then and_then (ports.generate stt.text) (λ reply.
        and_then (ports.synthesize r.request_id reply) (λ tts. ok (stt.text, (reply, tts))))
      else err RequestFailureCode.no_speech))

  -- The audio of the request is in the map, and its bytes are in the file that the request names.
  abbrev IsStored : TempAudio → VoiceRequestRecord → TtsResult → Type 0
  IsStored t q tts =
      (a : TempAudioRecord) × (q.audio_path ≡ some a.path)
      × (lookup ports.audio_id t.audio ≡ some a)
      × (lookup a.path t.files ≡ some tts.audio_size)

  -- What the pipeline returns, and what the store says of the request, for an outcome.
  pub Ended : Outcome → Pipeline → Type 0
  Ended (err c) p =
      (p.result ≡ some (VoicePipelineResult.failed c))
      × ((q : VoiceRequestRecord) × (now : ℕ) × (lookup r.request_id p.store.requests
            ≡ some (failed_record (code_text c) now q))
          × (lookup q.device_id p.store.active_by_device ≡ none))
  Ended (ok (text, (reply, tts))) p =
      (p.result ≡ some (VoicePipelineResult.audio_ready text reply tts.tts_engine))
      × ((q : VoiceRequestRecord) × (lookup r.request_id p.store.requests ≡ some q)
          × (q.status ≡ audio_ready)
          × (q.audio_id ≡ some ports.audio_id)
          × IsStored p.audio q tts)

  -- A pipeline that goes on.
  abbrev going : RequestStore → TempAudio → List Notice → Phase → Pipeline
  going s t sent phase = record {
    store = s;
    audio = t;
    sent = sent;
    phase = phase;
    timed_out = false;
    result = none;
  }

  abbrev pub answered : List ℕ → List (Event ports r)
  answered [] = []
  answered (n ∷ ns) = Event.resumes n ∷ answered ns

  over_stays : (ns : List ℕ) (p : Pipeline) → p.phase ≡ Phase.over → run ports r (answered ns) p ≡ p
  unfolding run step resume resume_at
  over_stays [] p e = refl
  over_stays (n ∷ ns) p e =
      let same : resume ports r n p ≡ p = ap (λ f. resume_at ports r f n p) e in
      ap (run ports r (answered ns)) same ∙ over_stays ns p e

  module _ (s : RequestStore) (q : VoiceRequestRecord) (o : IsOpen r.request_id s q) (t : TempAudio)
      (sent : List Notice) where
    throw-Ended :
        (e : Thrown) (now : ℕ) (f : Phase) (ns : List ℕ)
        → Ended
            (err (map_pipeline_error e))
            (run ports r (answered ns) (throw ports r e now (going s t sent f)))
    unfolding throw caught settle fail Ended
    throw-Ended e now f ns =
        let (there, free) = fail-found r.request_id s q o (code_text (map_pipeline_error e)) now in
        subst (Ended (err (map_pipeline_error e)))
          (sym (over_stays ns (throw ports r e now (going s t sent f)) refl))
          (refl, (q, now, there, free))

    -- The first part of a stage: the store takes the new state.
    entered-Ended :
        (status : PendingStatus) (now : ℕ) (f : Phase) (next : Pipeline → Pipeline) (ns : List ℕ)
        (out : Outcome)
        → (let q' = record q { status = pending status } in
            (s' : RequestStore)
            → IsOpen r.request_id s' q'
            → Ended out (run ports r (answered ns) (next (going s' t sent f))))
        → Ended out (run ports r (answered ns) (enter ports r status now (going s t sent f) next))
    unfolding enter entered
    entered-Ended status now f next ns out h =
        let (set, o') = set_status-IsOpen r.request_id s q o status in
        let q' = record q { status = pending status } in
        subst
          (λ c.
            Ended out (run ports r (answered ns) (entered ports r c now (going s t sent f) next)))
          (sym set) (h _ o')

  -- No file has the path of the new audio, and the input has another path.
  module _ (t : TempAudio) (free : lookup (ports.paths.audio_path ports.audio_id) t.files ≡ none)
      (apart : r.input_path ≢ ports.paths.audio_path ports.audio_id) where
    storing-Ended :
        (s : RequestStore) (q : VoiceRequestRecord) (sent : List Notice) (stt : SttResult)
        (reply : List ℕ) (tts : TtsResult) (n : ℕ) (ns : List ℕ)
        → IsOpen r.request_id s q
        → is_processing q.status ≡ true
        → Ended
            (ok (stt.text, (reply, tts)))
            (run ports r (answered (n ∷ ns)) (going s t sent (Phase.storing stt reply tts)))
    unfolding run step resume resume_at after_store finish finished audio_output settle Ended
        ready_record
    storing-Ended s q sent stt reply tts n ns o early =
        let (t', a, made, named, kept, on_disk) =
          created ports.paths ports.audio_id tts.audio_size n r.input_path t free apart in
        let (ready, there) =
          mark_audio_ready-found r.request_id s q o (audio_output ports r a) early in
        let p = going s t sent (Phase.storing stt reply tts) in
        subst
          (λ c.
            Ended (ok (stt.text, (reply, tts)))
              (run ports r (answered ns) (after_store ports r stt reply tts c n p)))
          (sym made)
          (subst
            (λ c. Ended (ok (stt.text, (reply, tts))) (
              run ports r (answered ns)
                (finished ports r stt reply tts c n (record p { audio = t' }))))
            (sym ready)
            (subst (Ended (ok (stt.text, (reply, tts)))) (sym (over_stays ns _ refl))
              (refl, (_, there, refl, ap some named, (a, refl, kept, on_disk)))))

    synthesizing-Ended :
        (s : RequestStore) (q : VoiceRequestRecord) (sent : List Notice) (stt : SttResult)
        (reply : List ℕ) (n m : ℕ) (ns : List ℕ)
        → IsOpen r.request_id s q
        → is_processing q.status ≡ true
        → Ended
            (and_then (ports.synthesize r.request_id reply) (λ tts. ok (stt.text, (reply, tts))))
            (run ports r (answered (n ∷ m ∷ ns)) (going s t sent (Phase.synthesizing stt reply)))
    unfolding run step resume resume_at after_synthesize throw_if_timed_out and_then
    synthesizing-Ended s q sent stt reply n m ns o early =
        by_answer (ports.synthesize r.request_id reply)
      where
        by_answer :
            (c : Result Thrown TtsResult)
            → Ended (and_then c (λ tts. ok (stt.text, (reply, tts)))) (
                run ports r (answered (m ∷ ns)) (
                  after_synthesize ports r stt reply c n
                    (going s t sent (Phase.synthesizing stt reply))))
        by_answer (err e) = throw-Ended s q o t sent e n (Phase.synthesizing stt reply) (m ∷ ns)
        by_answer (ok tts) = storing-Ended s q sent stt reply tts m ns o early

    generating-Ended :
        (s : RequestStore) (q : VoiceRequestRecord) (sent : List Notice) (stt : SttResult)
        (n m k : ℕ) (ns : List ℕ)
        → IsOpen r.request_id s q
        → Ended
            (and_then (ports.generate stt.text) (λ reply.
              and_then (ports.synthesize r.request_id reply) (λ tts. ok (stt.text, (reply, tts)))))
            (run ports r (answered (n ∷ m ∷ k ∷ ns)) (going s t sent (Phase.generating stt)))
    unfolding run step resume resume_at after_generate throw_if_timed_out and_then
    generating-Ended s q sent stt n m k ns o = by_answer (ports.generate stt.text)
      where
        by_answer :
            (c : Result Thrown (List ℕ))
            → Ended
                (and_then c (λ reply.
                  and_then
                    (ports.synthesize r.request_id reply)
                    (λ tts. ok (stt.text, (reply, tts)))))
                (run ports r
                  (answered (m ∷ k ∷ ns))
                  (after_generate ports r stt c n (going s t sent (Phase.generating stt))))
        by_answer (err e) = throw-Ended s q o t sent e n (Phase.generating stt) (m ∷ k ∷ ns)
        by_answer (ok reply) =
            entered-Ended s q o t sent PendingStatus.generating_voice n (Phase.generating stt) _
              (m ∷ k ∷ ns) _ (λ s' o'. synthesizing-Ended s' _ sent stt reply m k ns o' refl)

    transcribing-Ended :
        (s : RequestStore) (q : VoiceRequestRecord) (sent : List Notice) (wav : ℕ) (n m k j : ℕ)
        (ns : List ℕ)
        → IsOpen r.request_id s q
        → Ended
            (and_then (ports.transcribe wav) (λ stt.
              if has_speech ports r stt
              then and_then (ports.generate stt.text) (λ reply.
                and_then (ports.synthesize r.request_id reply) (λ tts. ok (stt.text, (reply, tts))))
              else err RequestFailureCode.no_speech))
            (run ports r (answered (n ∷ m ∷ k ∷ j ∷ ns)) (going s t sent (Phase.transcribing wav)))
    unfolding run step resume resume_at after_transcribe throw_if_timed_out and_then
        map_pipeline_error
    transcribing-Ended s q sent wav n m k j ns o = by_answer (ports.transcribe wav)
      where
        at : Pipeline
        at = going s t sent (Phase.transcribing wav)

        after : Pipeline → Pipeline
        after = run ports r (answered (m ∷ k ∷ j ∷ ns))

        spoken : SttResult → Outcome
        spoken stt = and_then (ports.generate stt.text) (λ reply.
            and_then (ports.synthesize r.request_id reply) (λ tts. ok (stt.text, (reply, tts))))

        by_test :
            (stt : SttResult) (b : Bool)
            → Ended (if b then spoken stt else err RequestFailureCode.no_speech) (
                after (
                  if b
                  then enter ports r PendingStatus.thinking n at
                      (λ p. send Notice.thinking (record p { phase = Phase.generating stt }))
                  else throw ports r (Thrown.coded ErrorCode.no_speech) n at))
        by_test stt false =
            throw-Ended s q o t sent (Thrown.coded ErrorCode.no_speech) n (Phase.transcribing wav)
              (m ∷ k ∷ j ∷ ns)
        by_test stt true =
            entered-Ended s q o t sent PendingStatus.thinking n (Phase.transcribing wav) _
              (m ∷ k ∷ j ∷ ns) _
              (λ s' o'. generating-Ended s' _ (sent ++ Notice.thinking ∷ []) stt m k j ns o')

        by_answer :
            (c : Result Thrown SttResult)
            → Ended
                (and_then c (λ stt.
                  if has_speech ports r stt then spoken stt else err RequestFailureCode.no_speech))
                (after (after_transcribe ports r c n at))
        by_answer (err e) = throw-Ended s q o t sent e n (Phase.transcribing wav) (m ∷ k ∷ j ∷ ns)
        by_answer (ok stt) = by_test stt (has_speech ports r stt)

    reading-Ended :
        (s : RequestStore) (q : VoiceRequestRecord) (n m k j i : ℕ)
        → IsOpen r.request_id s q
        → Ended serve (run ports r (answered (n ∷ m ∷ k ∷ j ∷ i ∷ [])) (going s t [] Phase.reading))
    unfolding run step resume resume_at after_read throw_if_timed_out and_then serve
    reading-Ended s q n m k j i o = by_answer (ports.read_file r.input_path)
      where
        by_answer :
            (c : Result Thrown ℕ)
            → Ended
                (and_then c (λ wav. and_then (ports.transcribe wav) (λ stt.
                  if has_speech ports r stt
                  then and_then (ports.generate stt.text) (λ reply.
                    and_then
                      (ports.synthesize r.request_id reply)
                      (λ tts. ok (stt.text, (reply, tts))))
                  else err RequestFailureCode.no_speech)))
                (run ports r
                  (answered (m ∷ k ∷ j ∷ i ∷ []))
                  (after_read ports r c n (going s t [] Phase.reading)))
        by_answer (err e) = throw-Ended s q o t [] e n Phase.reading (m ∷ k ∷ j ∷ i ∷ [])
        by_answer (ok wav) = transcribing-Ended s q [] wav m k j i [] o

    -- For a stored request that has not ended, whose input is not at the path of the new audio and
    -- with no file there, if all the calls answer within the time and no other
    -- call comes between them, the pipeline ends as the plain sequence of the calls does: at their
    -- first error it returns its code, stores the failure and frees the device, and otherwise it
    -- returns the texts, and the audio is ready, in the map
    -- and on disk.
    pub alone_serves :
        (s : RequestStore) (q : VoiceRequestRecord) (start n m k j i : ℕ)
        → IsOpen r.request_id s q
        → Ended serve (run ports r (answered (n ∷ m ∷ k ∷ j ∷ i ∷ [])) (begin ports r start s t))
    unfolding begin
    alone_serves s q start n m k j i o =
        entered-Ended s q o t [] PendingStatus.transcribing start Phase.reading (λ p. p)
          (n ∷ m ∷ k ∷ j ∷ i ∷ []) serve (λ s' o'. reading-Ended s' _ n m k j i o')
