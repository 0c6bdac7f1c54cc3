-- ===== src/TempAudio/Expiry.antt =====
-- After an audio has expired: what a download is told, and how long that is remembered.
use backend_bmo_blabs.Base.{
  ℕ, ◌+◌, ◌≤◌, Bool, true, false, ◌≡◌, ◌≢◌, refl, sym, ap, subst, ◌∙◌, inl, inr, none, some, List,
  [], ◌∷◌, ok, err, All, leb, length, arith, Bool-cases, Option-cases,
}
use backend_bmo_blabs.Base.Dict.{insert, lookup, contains, lookup-erase, lookup-insert}
use backend_bmo_blabs.TempAudio.Tombstones.{
  collect, evict-length, evict-Keeps, collect-Keeps, collect-stale,
}
use backend_bmo_blabs.TempAudio.Cleanup.{Paths}
use backend_bmo_blabs.TempAudio.{
  TempAudioRecord, FileError, TempAudio, AudioDownloadLookup, write_new, write_input, delete_input,
  new_audio, store, create_from_bytes, create_from_fixture, get_for_download, delete_audio,
  expire_audio, collect_expired_audio_tombstones, cleanup_expired_orphans, Call, step, run,
}

-- The call makes no audio of this id: `randomUUID` does not give it again.
unfoldable pub Spares : ℕ → Call → Type 0
Spares id (Call.creates j size now) = j ≢ id
Spares id (Call.copies j fixture now) = j ≢ id
Spares id _ = Unit

abbrev pub IsGone : ℕ → TempAudio → Type 0
IsGone id t = lookup id t.audio ≡ none

module _ (paths : Paths) (id : ℕ) where
  step-IsGone : (c : Call) (t : TempAudio) → Spares id c → IsGone id t → IsGone id (step paths c t)
  unfolding Spares step write_input write_new create_from_bytes create_from_fixture store new_audio
      delete_input delete_audio expire_audio collect_expired_audio_tombstones
      cleanup_expired_orphans
  step-IsGone (Call.writes_input request size) t other gone = ground arith
  step-IsGone (Call.deletes_input request) t other gone = gone
  step-IsGone (Call.creates j size now) t other gone =
      ground (arith, lookup-insert id j (new_audio j (paths.audio_path j) size now t) t.audio)
  step-IsGone (Call.copies j fixture now) t other gone =
      elim (Option-cases (lookup fixture t.files)) [
        | inl missing ↦ rw (missing, create_from_fixture, step) gone
        | inr (size, there) ↦
            rw (there, create_from_fixture, step)
              (ground
                (arith, lookup-insert id j (new_audio j (paths.audio_path j) size now t) t.audio))
      ]
  step-IsGone (Call.deletes j) t other gone = ground (arith, lookup-erase id j t.audio)
  step-IsGone (Call.expires j now) t other gone = ground (arith, lookup-erase id j t.audio)
  step-IsGone (Call.collects retention max now) t other gone = gone
  step-IsGone (Call.cleans now listing) t other gone = gone

  run-IsGone :
      (cs : List Call) (t : TempAudio)
      → All (Spares id) cs
      → IsGone id t
      → IsGone id (run paths cs t)
  unfolding run
  run-IsGone [] t h gone = gone
  run-IsGone (c ∷ cs) t h gone = run-IsGone cs (step paths c t) h.1 (step-IsGone c t h.0 gone)

expire_audio-IsGone : (id now : ℕ) (t : TempAudio) → IsGone id (expire_audio id now t)
unfolding expire_audio
expire_audio-IsGone id now t = ground (arith, lookup-erase id id t.audio)

delete_audio-IsGone : (id : ℕ) (t : TempAudio) → IsGone id (delete_audio id t)
unfolding delete_audio
delete_audio-IsGone id t = ground (arith, lookup-erase id id t.audio)

-- An audio that is made and deleted again leaves no record.
pub created_deleted :
    (paths : Paths) (id size now : ℕ) (t t' : TempAudio) (a : TempAudioRecord)
    → create_from_bytes paths id size now t ≡ (t', ok a)
    → IsGone id (delete_audio a.audio_id t')
unfolding create_from_bytes write_new new_audio
created_deleted paths id size now t t' a e =
    let same : id ≡ a.audio_id = ground arith in
    subst (λ i. IsGone i (delete_audio a.audio_id t')) (sym same)
      (delete_audio-IsGone a.audio_id t')

deleted_file :
    (id path : ℕ) (t : TempAudio) (b : TempAudioRecord)
    → lookup id t.audio ≡ some b
    → b.path ≡ path
    → lookup path (delete_audio id t).files ≡ none
unfolding delete_audio
deleted_file id path t b at same =
    rw (at, delete_audio) (ground (arith, lookup-erase path b.path t.files))

-- Nor does it leave its file, if there was none.
pub created_deleted_file :
    (paths : Paths) (id size now : ℕ) (t t' : TempAudio) (a : TempAudioRecord)
    → create_from_bytes paths id size now t ≡ (t', ok a)
    → lookup (paths.audio_path id) (delete_audio a.audio_id t').files ≡ none
unfolding create_from_bytes write_new new_audio store delete_audio contains
created_deleted_file paths id size now t t' a e =
    elim (Option-cases (lookup (paths.audio_path id) t.files)) [
      | inr (n, there) ↦ absurd (ground arith)
      | inl free ↦
          let path = paths.audio_path id in
          let b = new_audio id path size now t in
          let u : TempAudio = store b (record t { files = insert path size t.files }) in
          let made : create_from_bytes paths id size now t ≡ (u, ok b) =
            rw (free, create_from_bytes) refl in
          let same_u : u ≡ t' = ap (λ c. c.0) (sym made ∙ e) in
          let same_b : b.audio_id ≡ a.audio_id = ground arith in
          subst (λ v. lookup path (delete_audio a.audio_id v).files ≡ none) same_u
            (subst (λ i. lookup path (delete_audio i u).files ≡ none) same_b
              (deleted_file id path u b (ground (arith, lookup-insert id id b t.audio)) refl))
    ]

-- A new audio is in the map and its bytes are on disk, also when the file of another path has been
-- deleted since.
pub created :
    (paths : Paths) (id size now input : ℕ) (t : TempAudio)
    → lookup (paths.audio_path id) t.files ≡ none
    → input ≢ paths.audio_path id
    → (t' : TempAudio) × (a : TempAudioRecord) × (create_from_bytes paths id size now t
        ≡ (t', ok a))
      × (a.audio_id ≡ id)
      × (lookup id (delete_input input t').audio ≡ some a)
      × (lookup a.path (delete_input input t').files ≡ some size)
unfolding create_from_bytes write_new new_audio contains store delete_input
created paths id size now input t free apart =
    let path = paths.audio_path id in
    let a = new_audio id path size now t in
    let files = insert path size t.files in
    (
      store a (record t { files = files }),
      a,
      rw (free, create_from_bytes) refl,
      refl,
      ground (arith, lookup-insert id id a t.audio),
      ground (arith, lookup-erase path input files, lookup-insert path path size t.files),
    )

pub created_refused :
    (paths : Paths) (id size now : ℕ) (t t' : TempAudio) (f : FileError)
    → create_from_bytes paths id size now t ≡ (t', err f)
    → t' ≡ t
unfolding create_from_bytes write_new
created_refused paths id size now t t' f e = ground arith

-- The call collects no tombstones.
unfoldable pub keeps_tombstones : Call → Bool
keeps_tombstones (Call.collects retention max now) = false
keeps_tombstones _ = true

module _ (paths : Paths) (id : ℕ) where
  step-tombstone :
      (c : Call) (t : TempAudio)
      → keeps_tombstones c ≡ true
      → contains id t.expired_audio ≡ true
      → contains id (step paths c t).expired_audio ≡ true
  unfolding keeps_tombstones step write_input write_new create_from_bytes create_from_fixture store
      delete_input delete_audio expire_audio cleanup_expired_orphans contains
  step-tombstone (Call.writes_input request size) t k there = ground arith
  step-tombstone (Call.deletes_input request) t k there = there
  step-tombstone (Call.creates j size now) t k there = ground arith
  step-tombstone (Call.copies j fixture now) t k there =
      elim (Option-cases (lookup fixture t.files)) [
        | inl missing ↦ rw (missing, create_from_fixture, step) there
        | inr (size, at) ↦ rw (at, create_from_fixture, step) there
      ]
  step-tombstone (Call.deletes j) t k there = ground arith
  step-tombstone (Call.expires j now) t k there =
      ground (arith, lookup-insert id j now t.expired_audio)
  step-tombstone (Call.collects retention max now) t k there = absurd (ground arith)
  step-tombstone (Call.cleans now listing) t k there = there

  run-tombstone :
      (cs : List Call) (t : TempAudio)
      → All (λ c. keeps_tombstones c ≡ true) cs
      → contains id t.expired_audio ≡ true
      → contains id (run paths cs t).expired_audio ≡ true
  unfolding run
  run-tombstone [] t h there = there
  run-tombstone (c ∷ cs) t h there =
      run-tombstone cs (step paths c t) h.1 (step-tombstone c t h.0 there)

expire_audio-tombstone :
    (id now : ℕ) (t : TempAudio) → contains id (expire_audio id now t).expired_audio ≡ true
unfolding expire_audio contains
expire_audio-tombstone id now t = ground (arith, lookup-insert id id now t.expired_audio)

gone-not_available :
    (id now : ℕ) (t : TempAudio) (r : TempAudioRecord)
    → IsGone id t
    → get_for_download id now t ≢ AudioDownloadLookup.available r
unfolding get_for_download
gone-not_available id now t r gone e = ground arith

gone-expired :
    (id now : ℕ) (t : TempAudio)
    → IsGone id t
    → contains id t.expired_audio ≡ true
    → get_for_download id now t ≡ AudioDownloadLookup.expired
unfolding get_for_download
gone-expired id now t gone there = rw (gone, get_for_download) (rw (there) refl)

-- After an audio has been expired, no call makes an audio of its id. Then, as long as no tombstones
-- are collected, a download is told that it has expired; and whatever calls follow, collections too,
-- it is never granted again.
pub expired_stays :
    (paths : Paths) (id at : ℕ) (t : TempAudio) (cs ds : List Call) (now later : ℕ)
    → All (Spares id) cs
    → All (λ c. keeps_tombstones c ≡ true) cs
    → All (Spares id) ds
    → let t' = run paths cs (expire_audio id at t) in
      (get_for_download id now t' ≡ AudioDownloadLookup.expired)
      × ((r : TempAudioRecord)
          → get_for_download id later (run paths ds t') ≢ AudioDownloadLookup.available r)
expired_stays paths id at t cs ds now later spares keeps spares' =
    let t' = run paths cs (expire_audio id at t) in
    let gone = run-IsGone paths id cs (expire_audio id at t) spares (expire_audio-IsGone id at t) in
    let there =
      run-tombstone paths id cs (expire_audio id at t) keeps (expire_audio-tombstone id at t) in
    (
      gone-expired id now t' gone there,
      λ r. gone-not_available id later (run paths ds t') r (run-IsGone paths id ds t' spares' gone),
    )

-- The collection leaves at most `max` tombstones, none of them older than the retention, and each
-- as it was.
pub tombstones_bounds :
    (retention max now : ℕ) (t : TempAudio)
    → let t' = collect_expired_audio_tombstones retention max now t in
      (length t'.expired_audio ≤ max)
      × ((id at : ℕ)
          → lookup id t'.expired_audio ≡ some at
          → (lookup id t.expired_audio ≡ some at) × (now ≤ at + retention))
unfolding collect_expired_audio_tombstones
tombstones_bounds retention max now t =
    let m = t.expired_audio in
    let kept = collect retention now m m in
    (
      evict-length max kept kept (omega arith),
      λ id at e.
          let before : lookup id m ≡ some at =
            ground (arith, evict-Keeps id max kept kept, collect-Keeps id retention now m m) in
          (
            before,
            elim (Bool-cases (leb now (at + retention))) [
              | inl fresh ↦ ground arith
              | inr old ↦ absurd (
                  ground (
                    arith,
                    collect-stale id at retention now m m before (ground arith),
                    evict-Keeps id max kept kept,
                  ))
            ],
          ),
    )
