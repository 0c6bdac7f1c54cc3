-- ===== src/TempAudio/Tests.antt =====
-- Runs of the temporary audio. The audio of id i has the path 2 i + 2, an input that of its request
-- 2 r + 1.
use backend_bmo_blabs.Base.{
  ℕ, ◌+◌, ◌*◌, ◌≤◌, ◌<◌, ◌≡◌, ◌≢◌, refl, true, none, some, List, [], ◌∷◌, length, is_some, arith,
}
use backend_bmo_blabs.Base.Dict.{lookup, insert, erase}
use backend_bmo_blabs.TempAudio
use backend_bmo_blabs.TempAudio.Tombstones
use backend_bmo_blabs.TempAudio.Cleanup.{Paths, Entry, FileName}
use backend_bmo_blabs.TempAudio.Downloads.{IsApart, granted_has_file, cleanup_limit}
use backend_bmo_blabs.TempAudio.Expiry.{Spares, keeps_tombstones, expired_stays, tombstones_bounds}
use backend_bmo_blabs.TempAudio.{
  TempAudioRecord, TempAudio, new_temp_audio, AudioDownloadLookup, get_for_download, expire_audio,
  collect_expired_audio_tombstones, cleanup_expired_orphans, Call, step, run,
}

abbrev paths : Paths
paths = record { audio_path = λ i. 2 * i + 2; input_path = λ r. 2 * r + 1 }

apart : IsApart paths
apart = record { audios = λ i j e. omega arith; inputs = λ i r e. omega arith }

abbrev empty : TempAudio
empty = record {
  audio = [];
  expired_audio = [];
  files = [];
  ttl_seconds = 60;
  input_wav_max_age_ms = 600_000;
  cleanup_batch_limit = 256;
}

starts : new_temp_audio 60 none none ≡ some empty
unfolding new_temp_audio
starts = refl

-- Input 4 is written and deleted, audio 7 is created, and a cleanup meets its file a day later.
abbrev calls : List Call
calls =
    Call.writes_input 4 100
    ∷ Call.creates 7 900 1_000
    ∷ Call.deletes_input 4
    ∷ Call.cleans 86_400_000 (
        record {
          name = FileName.audio 7;
          is_file = true;
          info = some (record { is_file = true; mtime_ms = 1_000 });
          removes = true;
        }
        ∷ [])
    ∷ []

abbrev audio_7 : TempAudioRecord
audio_7 = record { audio_id = 7; path = 16; size = 900; expires_at = 61_000 }

granted : get_for_download 7 2_000 (run paths calls empty) ≡ AudioDownloadLookup.available audio_7
unfolding get_for_download lookup run step cleanup_expired_orphans TempAudio.delete_input
    TempAudio.create_from_bytes TempAudio.write_input insert TempAudio.store TempAudio.new_audio
granted = refl

granted_has_file_example :
    (audio_7.audio_id ≡ 7)
    × (2_000 < audio_7.expires_at)
    × (is_some (lookup audio_7.path (run paths calls empty).files) ≡ true)
granted_has_file_example =
    granted_has_file paths apart 60 none none empty calls 7 2_000 audio_7 starts granted

-- Audio 7 is expired, then others are made and deleted, and a day later its tombstone is collected.
abbrev quiet : List Call
quiet = Call.deletes 7 ∷ Call.creates 8 5 70_001 ∷ Call.expires 8 70_002 ∷ []

abbrev collecting : List Call
collecting = Call.collects 600_000 1_000 86_400_000 ∷ []

expired_stays_example :
    let t = run paths quiet (expire_audio 7 70_000 empty) in
    (get_for_download 7 70_003 t ≡ AudioDownloadLookup.expired)
    × ((r : TempAudioRecord)
        → get_for_download 7 86_400_001 (run paths collecting t) ≢ AudioDownloadLookup.available r)
unfolding Spares keeps_tombstones
expired_stays_example =
    expired_stays paths 7 70_000 empty quiet collecting 70_003 86_400_001
      (tt, ((λ e. absurd (omega arith)), (tt, tt))) (refl, (refl, (refl, tt))) (tt, tt)

abbrev expired_three : TempAudio
expired_three = record empty { expired_audio = (7, 10) ∷ (8, 500) ∷ (9, 400) ∷ [] }

tombstones_bounds_example :
    let t' = collect_expired_audio_tombstones 200 1 600 expired_three in
    (length t'.expired_audio ≤ 1)
    × ((id at : ℕ)
        → lookup id t'.expired_audio ≡ some at
        → (lookup id expired_three.expired_audio ≡ some at) × (600 ≤ at + 200))
tombstones_bounds_example = tombstones_bounds 200 1 600 expired_three

keeps_newest :
    (collect_expired_audio_tombstones 200 1 600 expired_three).expired_audio ≡ (8, 500) ∷ []
unfolding collect_expired_audio_tombstones Tombstones.evict Tombstones.collect erase
    Tombstones.oldest
keeps_newest = refl

-- Two old files and a limit of one.
abbrev orphan : ℕ → Entry
orphan id = record {
  name = FileName.audio id;
  is_file = true;
  info = some (record { is_file = true; mtime_ms = 1_000 });
  removes = true;
}

abbrev one_each_time : TempAudio
one_each_time = record empty { cleanup_batch_limit = 1 }

cleanup_limit_example :
    let (deleted, failed) =
      (cleanup_expired_orphans paths 90_000 (orphan 1 ∷ orphan 2 ∷ []) one_each_time).1 in
    (deleted ≤ 1) × (deleted + failed ≤ 2)
cleanup_limit_example = cleanup_limit paths 90_000 (orphan 1 ∷ orphan 2 ∷ []) one_each_time
