-- ===== src/Voice/Tests.antt =====
-- Runs of the pipeline for one request, whose audio would have the id 9.
use backend_bmo_blabs.Base.{◌+◌, ◌*◌, ◌≡◌, refl, err, true, none, List, [], ◌∷◌, ok, is_some, arith}
use backend_bmo_blabs.Base.Dict.{lookup, insert}
use backend_bmo_blabs.Chat.Title.{trim}
use backend_bmo_blabs.RequestStore
use backend_bmo_blabs.RequestStore.Record.{NewRequest, VoiceRequestRecord}
use backend_bmo_blabs.RequestStore.{RequestStore, set_status}
use backend_bmo_blabs.TempAudio.{TempAudio}
use backend_bmo_blabs.Voice
use backend_bmo_blabs.Voice.{Ports, Pipeline, Event, begin, resume, run}
use backend_bmo_blabs.Voice.Once.{IsSettled, is_over, one_ending}
use backend_bmo_blabs.Voice.Ends
use backend_bmo_blabs.Voice.Ends.{five_answers_end}
use backend_bmo_blabs.Voice.Alone.{serve, Ended, answered, alone_serves}
use backend_bmo_blabs.Voice.Error.{ErrorCode, Thrown}
use backend_bmo_blabs.RequestStore.Invariant.{Inv}
use backend_bmo_blabs.Voice.Late.{IsSilent, late_answer}

abbrev request : NewRequest
request = record {
  request_id = 5;
  device_id = 3;
  input_path = 11;
  input_sha256 = 77;
  input_content_length = 100;
}

abbrev r : VoiceRequestRecord
r = record {
  input = request;
  status = RequestStore.Record.accepted;
  created_at = 1_000;
  terminal_at = none;
  audio_id = none;
  audio_path = none;
  audio_url = none;
  expires_at = none;
  playback_state = RequestStore.Record.waiting;
  error_code = none;
}

abbrev s : RequestStore
s = record {
  requests = (5, r) ∷ [];
  active_by_device = (3, 5) ∷ [];
  tombstone_ttl_ms = 600_000;
  max_entries = 1_000;
}

abbrev t : TempAudio
t = record {
  audio = [];
  expired_audio = [];
  files = (11, 100) ∷ [];
  ttl_seconds = 60;
  input_wav_max_age_ms = 600_000;
  cleanup_batch_limit = 256;
}

-- All the services answer: "hi" is answered by "yo".
abbrev ports : Ports
ports = record {
  read_file = λ p. ok 100;
  transcribe = λ wav. ok (record { text = 104 ∷ 105 ∷ []; speech_detected = true });
  generate = λ text. ok (121 ∷ 111 ∷ []);
  synthesize = λ id reply. ok (record { audio_size = 900; tts_engine = 1 });
  audio_id = 9;
  audio_url = λ id. id;
  paths = record { audio_path = λ i. 2 * i + 2; input_path = λ q. 2 * q + 1 };
}

abbrev all_answers : List (Event ports r)
all_answers =
    Event.resumes 1_001
    ∷ Event.resumes 1_002
    ∷ Event.resumes 1_003
    ∷ Event.resumes 1_004
    ∷ Event.resumes 1_005
    ∷ []

one_ending_example : IsSettled (run ports r all_answers (begin ports r 1_000 s t))
one_ending_example = one_ending ports r 1_000 s t all_answers

five_answers_end_example :
    let p = run ports r all_answers (begin ports r 1_000 s t) in
    (is_over p.phase ≡ true) × (is_some p.result ≡ true)
unfolding Ends.answers
five_answers_end_example = five_answers_end ports r 1_000 s t all_answers (omega arith)

-- The time is up while the speech is being made.
abbrev slow : List (Event ports r)
slow =
    Event.resumes 1_001
    ∷ Event.resumes 1_002
    ∷ Event.resumes 1_003
    ∷ Event.resumes 1_004
    ∷ Event.times_out 61_000
    ∷ []

late_answer_example :
    let p = run ports r slow (begin ports r 1_000 s t) in IsSilent ports p (resume ports r 62_000 p)
unfolding run Voice.step Voice.time_out resume Voice.resume_at begin set_status lookup
    Voice.after_read Voice.throw_if_timed_out Voice.after_transcribe trim insert
    Voice.after_generate Voice.after_synthesize Voice.caught
late_answer_example = late_answer ports r 1_000 s t slow 62_000 slow_late
  where
    slow_late : (run ports r slow (begin ports r 1_000 s t)).timed_out ≡ true
    slow_late = refl

s-Inv : Inv s
unfolding lookup
s-Inv = record {
  unique = (refl, tt);
  entry =
      λ k q e. record { keyed = ground arith; stamped = ground arith; owned = λ on. ground arith };
  live = λ d k e. (r, ground arith, ground arith, refl);
}

-- The speech service fails.
abbrev mute : Ports
mute = record ports { synthesize = λ id reply. err (Thrown.coded ErrorCode.tts_failed) }

alone_serves_example : Ended mute r (serve mute r) (
    run mute r
      (answered mute r (1_001 ∷ 1_002 ∷ 1_003 ∷ 1_004 ∷ 1_005 ∷ []))
      (begin mute r 1_000 s t))
unfolding lookup
alone_serves_example =
    alone_serves mute r t refl (λ e. absurd (omega arith)) s r 1_000 1_001 1_002 1_003 1_004 1_005
      (record { inv = s-Inv; at = refl; going = refl })
