-- ===== src/TempAudio/Downloads.antt =====
-- A download that is granted: its file is there, and its time has not come.
use backend_bmo_blabs.Base.{
  ℕ, suc, ◌+◌, ◌≤◌, ◌<◌, ◌≡◌, ◌≢◌, refl, sym, ◌∙◌, subst, inl, inr, true, Option, some, List, [],
  ◌∷◌, ◌==◌, is_some, arith, Bool-cases, Option-cases,
}
use backend_bmo_blabs.Base.Dict.{
  Dict, lookup, contains, insert, erase, lookup-erase, lookup-insert, lookup-empty,
}
use backend_bmo_blabs.TempAudio.Cleanup
use backend_bmo_blabs.TempAudio.Cleanup.{
  Paths, FileName, clean, clean-lookup, clean-batch_limit, max_age, path,
}
use backend_bmo_blabs.TempAudio.{
  TempAudioRecord, TempAudio, new_temp_audio, AudioDownloadLookup, write_new, write_input,
  delete_input, new_audio, store, create_from_bytes, create_from_fixture, get_for_download,
  delete_audio, expire_audio, collect_expired_audio_tombstones, rules_of, cleanup_expired_orphans,
  Call, step, run,
}

-- Two ids have two paths, and no input has the path of an audio.
pub record IsApart (paths : Paths) : Type 0 where
  pub audios : (i j : ℕ) → paths.audio_path i ≡ paths.audio_path j → i ≡ j
  pub inputs : (i r : ℕ) → paths.audio_path i ≢ paths.input_path r

-- Each record of the map has its key for an id, the path of that id, and a file.
pub record Entry (paths : Paths) (files : Dict ℕ) (id : ℕ) (r : TempAudioRecord) : Type 0 where
  pub keyed : r.audio_id ≡ id
  pub placed : r.path ≡ paths.audio_path id
  pub present : is_some (lookup (paths.audio_path id) files) ≡ true

abbrev pub AreBacked : Paths → Dict TempAudioRecord → Dict ℕ → Type 0
AreBacked paths audio files =
    (id : ℕ) (r : TempAudioRecord) → lookup id audio ≡ some r → Entry paths files id r

module _ (paths : Paths) (apart : IsApart paths) where
  module _ (audio : Dict TempAudioRecord) (files : Dict ℕ) (v : AreBacked paths audio files) where
    insert-AreBacked : (p size : ℕ) → AreBacked paths audio (insert p size files)
    insert-AreBacked p size j q e =
        let b = v j q e in
        record {
          keyed = b.keyed;
          placed = b.placed;
          present = ground (arith, b.present, lookup-insert (paths.audio_path j) p size files);
        }

    -- No path of a stored record is deleted.
    erase-AreBacked :
        (p : ℕ)
        → ((i : ℕ) (r : TempAudioRecord) → lookup i audio ≡ some r → paths.audio_path i ≢ p)
        → AreBacked paths audio (erase p files)
    erase-AreBacked p other j q e =
        let b = v j q e in
        record {
          keyed = b.keyed;
          placed = b.placed;
          present =
              ground (arith, b.present, lookup-erase (paths.audio_path j) p files, other j q e);
        }

    store-AreBacked :
        (id : ℕ) (r : TempAudioRecord)
        → Entry paths files id r
        → AreBacked paths (insert id r audio) files
    store-AreBacked id r b j q e = elim (Bool-cases (j == id)) [
      | inl same ↦ subst2 (ground (arith, lookup-insert j id r audio)) (ground arith) b
      | inr other ↦ v j q (ground (arith, lookup-insert j id r audio))
    ]
      where
        subst2 :
            {i : ℕ} {q p : TempAudioRecord}
            → q ≡ p
            → i ≡ j
            → Entry paths files i q
            → Entry paths files j p
        subst2 {i} {q} {p} a b x =
            subst (λ k. Entry paths files k p) b (subst (Entry paths files i) a x)

    forget-AreBacked : (id : ℕ) → AreBacked paths (erase id audio) files
    forget-AreBacked id j q e = v j q (ground (arith, lookup-erase j id audio))

  delete-AreBacked :
      (id : ℕ) (r : TempAudioRecord) (audio : Dict TempAudioRecord) (files : Dict ℕ)
      → AreBacked paths audio files
      → lookup id audio ≡ some r
      → AreBacked paths (erase id audio) (erase r.path files)
  delete-AreBacked id r audio files v at =
      erase-AreBacked (erase id audio) files (forget-AreBacked audio files v id) r.path
        (λ i q e same.
          ground (arith, lookup-erase i id audio, apart.audios i id (same ∙ (v id r at).placed)))

  write_input-AreBacked :
      (request size : ℕ) (t : TempAudio)
      → AreBacked paths t.audio t.files
      → let t' = (write_input paths request size t).0 in AreBacked paths t'.audio t'.files
  unfolding write_input write_new contains
  write_input-AreBacked request size t v =
      elim (Option-cases (lookup (paths.input_path request) t.files)) [
        | inr (n, there) ↦ rw (there, write_input) v
        | inl free ↦
            rw (free, write_input)
              (insert-AreBacked t.audio t.files v (paths.input_path request) size)
      ]

  new_audio-Entry :
      (id size now : ℕ) (t : TempAudio)
      → Entry paths
          (insert (paths.audio_path id) size t.files)
          id
          (new_audio id (paths.audio_path id) size now t)
  unfolding new_audio
  new_audio-Entry id size now t = record {
    keyed = refl;
    placed = refl;
    present =
        let at = lookup-insert (paths.audio_path id) (paths.audio_path id) size t.files in
        ground arith;
  }

  put-AreBacked :
      (id size now : ℕ) (t : TempAudio)
      → AreBacked paths t.audio t.files
      → AreBacked paths
          (insert id (new_audio id (paths.audio_path id) size now t) t.audio)
          (insert (paths.audio_path id) size t.files)
  put-AreBacked id size now t v =
      store-AreBacked t.audio (insert (paths.audio_path id) size t.files)
        (insert-AreBacked t.audio t.files v (paths.audio_path id) size) id
        (new_audio id (paths.audio_path id) size now t) (new_audio-Entry id size now t)

  create-AreBacked :
      (id size now : ℕ) (t : TempAudio)
      → AreBacked paths t.audio t.files
      → let t' = (create_from_bytes paths id size now t).0 in AreBacked paths t'.audio t'.files
  unfolding create_from_bytes write_new contains store new_audio
  create-AreBacked id size now t v = elim (Option-cases (lookup (paths.audio_path id) t.files)) [
    | inr (n, there) ↦ rw (there, create_from_bytes) v
    | inl free ↦ rw (free, create_from_bytes) (put-AreBacked id size now t v)
  ]

  copy-AreBacked :
      (id fixture now : ℕ) (t : TempAudio)
      → AreBacked paths t.audio t.files
      → let t' = (create_from_fixture paths id fixture now t).0 in AreBacked paths t'.audio t'.files
  unfolding create_from_fixture store new_audio
  copy-AreBacked id fixture now t v = elim (Option-cases (lookup fixture t.files)) [
    | inl missing ↦ rw (missing, create_from_fixture) v
    | inr (size, there) ↦ rw (there, create_from_fixture) (put-AreBacked id size now t v)
  ]

  delete_audio-AreBacked :
      (id : ℕ) (t : TempAudio)
      → AreBacked paths t.audio t.files
      → let t' = delete_audio id t in AreBacked paths t'.audio t'.files
  unfolding delete_audio
  delete_audio-AreBacked id t v = elim (Option-cases (lookup id t.audio)) [
    | inl missing ↦ rw (missing, delete_audio) v
    | inr (r, at) ↦ rw (at, delete_audio) (delete-AreBacked id r t.audio t.files v at)
  ]

  expire_audio-AreBacked :
      (id now : ℕ) (t : TempAudio)
      → AreBacked paths t.audio t.files
      → let t' = expire_audio id now t in AreBacked paths t'.audio t'.files
  unfolding expire_audio
  expire_audio-AreBacked id now t v = elim (Option-cases (lookup id t.audio)) [
    | inl missing ↦ rw (missing, expire_audio) v
    | inr (r, at) ↦ rw (at, expire_audio) (delete-AreBacked id r t.audio t.files v at)
  ]

  -- The cleanup spares the file of a stored record.
  clean-AreBacked :
      (now : ℕ) (listing : List Cleanup.Entry) (t : TempAudio)
      → AreBacked paths t.audio t.files
      → let t' = (cleanup_expired_orphans paths now listing t).0 in
        AreBacked paths t'.audio t'.files
  unfolding cleanup_expired_orphans max_age rules_of path contains
  clean-AreBacked now listing t v j q e =
      let b = v j q e in
      record {
        keyed = b.keyed;
        placed = b.placed;
        present =
            rw
              (clean-lookup paths (rules_of t) now listing
                (record { files = t.files; deleted = 0; failed = 0 }) (paths.audio_path j)
                (spared j q e))
              b.present;
      }
    where
      spared :
          (j : ℕ) (q : TempAudioRecord)
          → lookup j t.audio ≡ some q
          → (f : FileName) (age : ℕ) → max_age (rules_of t) f ≡ some age
          → path paths f ≢ paths.audio_path j
      spared j q e (FileName.audio i) age m same = ground (arith, apart.audios i j same)
      spared j q e (FileName.input r) age m same = apart.inputs j r (sym same)
      spared j q e FileName.other age m same = absurd cc

  step-AreBacked :
      (c : Call) (t : TempAudio)
      → AreBacked paths t.audio t.files
      → AreBacked paths (step paths c t).audio (step paths c t).files
  unfolding step delete_input collect_expired_audio_tombstones
  step-AreBacked (Call.writes_input request size) t v = write_input-AreBacked request size t v
  step-AreBacked (Call.deletes_input request) t v =
      erase-AreBacked t.audio t.files v (paths.input_path request) (λ i r e. apart.inputs i request)
  step-AreBacked (Call.creates id size now) t v = create-AreBacked id size now t v
  step-AreBacked (Call.copies id fixture now) t v = copy-AreBacked id fixture now t v
  step-AreBacked (Call.deletes id) t v = delete_audio-AreBacked id t v
  step-AreBacked (Call.expires id now) t v = expire_audio-AreBacked id now t v
  step-AreBacked (Call.collects retention max now) t v = v
  step-AreBacked (Call.cleans now listing) t v = clean-AreBacked now listing t v

  run-AreBacked :
      (cs : List Call) (t : TempAudio)
      → AreBacked paths t.audio t.files
      → AreBacked paths (run paths cs t).audio (run paths cs t).files
  unfolding run
  run-AreBacked [] t v = v
  run-AreBacked (c ∷ cs) t v = run-AreBacked cs (step paths c t) (step-AreBacked c t v)

new-AreBacked :
    (paths : Paths) (ttl : ℕ) (age batch : Option ℕ) (t : TempAudio)
    → new_temp_audio ttl age batch ≡ some t
    → AreBacked paths t.audio t.files
unfolding new_temp_audio
new-AreBacked paths ttl age batch t new id r at =
    absurd (ground (arith, lookup-empty {V = TempAudioRecord} id))

-- Whatever calls are made on a new service, a download that is granted is not yet expired, is the
-- audio asked for, and has its file in the directory.
pub granted_has_file :
    (paths : Paths) (apart : IsApart paths) (ttl : ℕ) (age batch : Option ℕ) (t : TempAudio)
    (cs : List Call) (id now : ℕ) (r : TempAudioRecord)
    → new_temp_audio ttl age batch ≡ some t
    → get_for_download id now (run paths cs t) ≡ AudioDownloadLookup.available r
    → (r.audio_id ≡ id)
      × (now < r.expires_at)
      × (is_some (lookup r.path (run paths cs t).files) ≡ true)
unfolding get_for_download
granted_has_file paths apart ttl age batch t cs id now r new granted =
    elim (Option-cases (lookup id (run paths cs t).audio)) [
      | inl missing ↦ absurd (ground arith)
      | inr (q, at) ↦
          let b =
            run-AreBacked paths apart cs t (new-AreBacked paths ttl age batch t new) id q at in
          (ground (arith, b.keyed), ground arith, ground (arith, b.present, b.placed))
    ]

-- A cleanup deletes no more files than its limit. With those that it failed on it may have touched
-- one more, since `lstat` can throw on an entry that comes after the limit was reached.
pub cleanup_limit :
    (paths : Paths) (now : ℕ) (listing : List Cleanup.Entry) (t : TempAudio)
    → let (deleted, failed) = (cleanup_expired_orphans paths now listing t).1 in
      (deleted ≤ t.cleanup_batch_limit) × (deleted + failed ≤ suc t.cleanup_batch_limit)
unfolding cleanup_expired_orphans rules_of
cleanup_limit paths now listing t =
    clean-batch_limit paths (rules_of t) now listing
      (record { files = t.files; deleted = 0; failed = 0 }) (omega arith)
