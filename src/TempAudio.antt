-- ===== src/TempAudio.antt =====
-- backend/src/services/temp-audio.service.ts: the audio that devices may download. Audio ids and
-- paths are numbers. The directory is a dictionary from paths to sizes; the path that `join` builds
-- from the root and an id is a parameter. A call that awaits the file system is one step.
pub mod Cleanup
pub mod Tombstones
pub mod Downloads
pub mod Expiry
mod Tests
use backend_bmo_blabs.Base.{
  ℕ, ◌+◌, ◌*◌, ◌≤◌, Bool, true, false, Option, none, some, List, [], ◌∷◌, Result, ok, err, leb,
  ◌==◌, length, if◌then◌else◌, is_some,
}
use backend_bmo_blabs.Base.Dict.{Dict, lookup, contains, insert, erase}
use Tombstones.{collect, evict}
use Cleanup.{Paths, Entry, Rules, Cleaned, clean}

pub record TempAudioRecord : Type 0 where
  pub audio_id : ℕ
  pub path : ℕ
  pub size : ℕ
  pub expires_at : ℕ

pub data AudioDownloadLookup : Type 0 where
  available : TempAudioRecord → AudioDownloadLookup
  expired unknown : AudioDownloadLookup

-- `files` is what the directory holds.
pub record TempAudio : Type 0 where
  pub audio : Dict TempAudioRecord
  pub expired_audio : Dict ℕ
  pub files : Dict ℕ
  pub ttl_seconds : ℕ
  pub input_wav_max_age_ms : ℕ
  pub cleanup_batch_limit : ℕ

-- `writeFile` with the flag "wx", and `copyFile`'s source, fail with these.
pub data FileError : Type 0 where
  file_exists file_missing : FileError

batch_limit : Option ℕ → ℕ
batch_limit none = 256
batch_limit (some n) = n

-- `new TempAudioService(root, ttlSeconds, options)`; `none` is the `RangeError`.
pub new_temp_audio : ℕ → Option ℕ → Option ℕ → Option TempAudio
unfolding batch_limit
new_temp_audio ttl max_age batch =
    let limit = batch_limit batch in
    if limit == 0
    then none
    else some (record {
      audio = [];
      expired_audio = [];
      files = [];
      ttl_seconds = ttl;
      input_wav_max_age_ms = elim max_age [ none ↦ 600_000 | some n ↦ n ];
      cleanup_batch_limit = limit;
    })

-- A file is written only if its path is free.
pub write_new : ℕ → ℕ → TempAudio → Option TempAudio
write_new path size t =
    if contains path t.files then none else some (record t { files = insert path size t.files })

pub write_input : Paths → ℕ → ℕ → TempAudio → TempAudio × Result FileError ℕ
unfolding write_new
write_input paths request size t = elim (write_new (paths.input_path request) size t) [
  | none ↦ (t, err FileError.file_exists)
  | some t' ↦ (t', ok (paths.input_path request))
]

-- `rm` with `force`: a path that is not there is no error.
pub delete_input : ℕ → TempAudio → TempAudio
delete_input path t = record t { files = erase path t.files }

new_audio : ℕ → ℕ → ℕ → ℕ → TempAudio → TempAudioRecord
new_audio id path size now t = record {
  audio_id = id;
  path = path;
  size = size;
  expires_at = now + t.ttl_seconds * 1_000;
}

-- `this.#audio.set(audioId, record)`
store : TempAudioRecord → TempAudio → TempAudio
store r t = record t { audio = insert r.audio_id r t.audio }

pub create_from_bytes : Paths → ℕ → ℕ → ℕ → TempAudio → TempAudio × Result FileError TempAudioRecord
unfolding write_new
create_from_bytes paths id size now t =
    let r = new_audio id (paths.audio_path id) size now t in
    elim (write_new (paths.audio_path id) size t) [
      | none ↦ (t, err FileError.file_exists)
      | some t' ↦ (store r t', ok r)
    ]

-- `copyFile` replaces a file that is there.
pub create_from_fixture :
    Paths → ℕ → ℕ → ℕ → TempAudio → TempAudio × Result FileError TempAudioRecord
create_from_fixture paths id fixture now t = elim (lookup fixture t.files) [
  | none ↦ (t, err FileError.file_missing)
  | some size ↦
      let r = new_audio id (paths.audio_path id) size now t in
      (store r (record t { files = insert (paths.audio_path id) size t.files }), ok r)
]

pub get : ℕ → TempAudio → Option TempAudioRecord
get id t = lookup id t.audio

pub get_for_download : ℕ → ℕ → TempAudio → AudioDownloadLookup
unfolding contains
get_for_download id now t = elim (lookup id t.audio) [
  | none ↦
      if contains id t.expired_audio
      then AudioDownloadLookup.expired
      else AudioDownloadLookup.unknown
  | some r ↦
      if leb r.expires_at now then AudioDownloadLookup.expired else AudioDownloadLookup.available r
]

pub delete_audio : ℕ → TempAudio → TempAudio
delete_audio id t = elim (lookup id t.audio) [
  | none ↦ t
  | some r ↦ record t { audio = erase id t.audio; files = erase r.path t.files }
]

pub expire_audio : ℕ → ℕ → TempAudio → TempAudio
expire_audio id now t = elim (lookup id t.audio) [
  | none ↦ record t { expired_audio = insert id now t.expired_audio }
  | some r ↦ record t {
    audio = erase id t.audio;
    expired_audio = insert id now t.expired_audio;
    files = erase r.path t.files;
  }
]

pub collect_expired_audio_tombstones : ℕ → ℕ → ℕ → TempAudio → TempAudio
collect_expired_audio_tombstones retention max now t =
    let kept = collect retention now t.expired_audio t.expired_audio in
    record t { expired_audio = evict max kept kept }

rules_of : TempAudio → Rules
unfolding contains
rules_of t = record {
  is_known = λ id. contains id t.audio;
  audio_age_ms = t.ttl_seconds * 1_000;
  input_age_ms = t.input_wav_max_age_ms;
  batch_limit = t.cleanup_batch_limit;
}

pub cleanup_expired_orphans : Paths → ℕ → List Entry → TempAudio → TempAudio × (ℕ × ℕ)
unfolding rules_of
cleanup_expired_orphans paths now listing t =
    let c =
      clean paths (rules_of t) now listing (record { files = t.files; deleted = 0; failed = 0 }) in
    (record t { files = c.files }, (c.deleted, c.failed))

-- A call, with the id that `randomUUID` gives and the readings of the clock.
pub data Call : Type 0 where
  writes_input : ℕ → ℕ → Call
  deletes_input : ℕ → Call
  creates : ℕ → ℕ → ℕ → Call
  copies : ℕ → ℕ → ℕ → Call
  deletes : ℕ → Call
  expires : ℕ → ℕ → Call
  collects : ℕ → ℕ → ℕ → Call
  cleans : ℕ → List Entry → Call

pub step : Paths → Call → TempAudio → TempAudio
step paths (Call.writes_input request size) t = (write_input paths request size t).0
step paths (Call.deletes_input request) t = delete_input (paths.input_path request) t
step paths (Call.creates id size now) t = (create_from_bytes paths id size now t).0
step paths (Call.copies id fixture now) t = (create_from_fixture paths id fixture now t).0
step paths (Call.deletes id) t = delete_audio id t
step paths (Call.expires id now) t = expire_audio id now t
step paths (Call.collects retention max now) t =
    collect_expired_audio_tombstones retention max now t
step paths (Call.cleans now listing) t = (cleanup_expired_orphans paths now listing t).0

pub run : Paths → List Call → TempAudio → TempAudio
run paths [] t = t
run paths (c ∷ cs) t = run paths cs (step paths c t)
