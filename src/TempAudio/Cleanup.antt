-- ===== src/TempAudio/Cleanup.antt =====
-- The loop of `cleanupExpiredOrphans`, and what it spares.
use backend_bmo_blabs.Base.{
  ℕ, suc, ◌+◌, ◌≤◌, ◌<◌, ◌≡◌, ◌≢◌, ◌⊎◌, refl, inl, inr, ◌∙◌, Bool, true, false, Option, none, some,
  List, [], ◌∷◌, leb, ltb, if◌then◌else◌, arith, Bool-cases, Option-cases,
}
use backend_bmo_blabs.Base.Dict.{Dict, lookup, erase, lookup-erase}

-- The paths that `join` builds of the root and `${audioId}.mp3` or `input-${requestId}.wav`.
pub record Paths : Type 0 where
  pub audio_path : ℕ → ℕ
  pub input_path : ℕ → ℕ

-- A name of the directory: an id of version 4 with ".mp3", one between "input-" and ".wav", or
-- any other name.
pub data FileName : Type 0 where
  audio : ℕ → FileName
  input : ℕ → FileName
  other : FileName

-- What `lstat` returns.
pub record Info : Type 0 where
  pub is_file : Bool
  pub mtime_ms : ℕ

-- An entry of `readdir`. `lstat` throws where `info` is `none`, and `rm` where `removes` is false.
pub record Entry : Type 0 where
  pub name : FileName
  pub is_file : Bool
  pub info : Option Info
  pub removes : Bool

-- What the loop reads of the service.
pub record Rules : Type 0 where
  pub is_known : ℕ → Bool
  pub audio_age_ms : ℕ
  pub input_age_ms : ℕ
  pub batch_limit : ℕ

pub record Cleaned : Type 0 where
  pub files : Dict ℕ
  pub deleted : ℕ
  pub failed : ℕ

data Verdict : Type 0 where
  continues breaks fails deletes : Verdict

-- `maxAgeMs`
unfoldable pub max_age : Rules → FileName → Option ℕ
max_age rules (FileName.audio id) = if rules.is_known id then none else some rules.audio_age_ms
max_age rules (FileName.input id) = some rules.input_age_ms
max_age rules FileName.other = none

-- `!info.isFile() || now - info.mtimeMs < maxAgeMs`, with the subtraction moved over.
is_young : ℕ → ℕ → Info → Bool
is_young now age info = if info.is_file then ltb now (info.mtime_ms + age) else true

-- The `try` block.
try_remove : Rules → ℕ → ℕ → Entry → Cleaned → Verdict
try_remove rules now age e c = elim e.info [
  | none ↦ Verdict.fails
  | some info ↦
      if is_young now age info
      then Verdict.continues
      else if leb rules.batch_limit (c.deleted + c.failed)
      then Verdict.breaks
      else if e.removes
      then Verdict.deletes
      else Verdict.fails
]

judge : Rules → ℕ → Entry → Cleaned → Verdict
unfolding try_remove max_age
judge rules now e c = elim (if e.is_file then max_age rules e.name else none) [
  | none ↦ Verdict.continues
  | some age ↦ try_remove rules now age e c
]

unfoldable pub path : Paths → FileName → ℕ
path paths (FileName.audio id) = paths.audio_path id
path paths (FileName.input id) = paths.input_path id
path paths FileName.other = 0

delete : Paths → Entry → Cleaned → Cleaned
unfolding path
delete paths e c = record c { files = erase (path paths e.name) c.files; deleted = suc c.deleted }

fail : Cleaned → Cleaned
fail c = record c { failed = suc c.failed }

-- The `for` loop over the listing.
pub clean : Paths → Rules → ℕ → List Entry → Cleaned → Cleaned
unfolding judge
clean paths rules now [] c = c
clean paths rules now (e ∷ es) c = elim (judge rules now e c) [
  | Verdict.continues ↦ clean paths rules now es c
  | Verdict.breaks ↦ c
  | Verdict.deletes ↦ clean paths rules now es (delete paths e c)
  | Verdict.fails ↦ elim (leb rules.batch_limit (suc (c.deleted + c.failed))) [
    | true ↦ fail c
    | false ↦ clean paths rules now es (fail c)
  ]
]

Verdict-cases :
    (v : Verdict)
    → (v ≡ Verdict.continues)
      ⊎ ((v ≡ Verdict.breaks) ⊎ ((v ≡ Verdict.deletes) ⊎ (v ≡ Verdict.fails)))
Verdict-cases Verdict.continues = inl refl
Verdict-cases Verdict.breaks = inr (inl refl)
Verdict-cases Verdict.deletes = inr (inr (inl refl))
Verdict-cases Verdict.fails = inr (inr (inr refl))

module _ (paths : Paths) (rules : Rules) (now : ℕ) where
  judge-deletes :
      (e : Entry) (c : Cleaned)
      → judge rules now e c ≡ Verdict.deletes
      → (c.deleted + c.failed < rules.batch_limit) × ((age : ℕ) × (max_age rules e.name ≡ some age))
  unfolding judge try_remove is_young
  judge-deletes e c h = elim (Bool-cases e.is_file) [
    | inr skipped ↦ absurd (ground arith)
    | inl file ↦ elim (Option-cases (max_age rules e.name)) [
      | inl n ↦ absurd (ground arith)
      | inr (age, a) ↦ elim (Option-cases e.info) [
        | inl n ↦ absurd (ground arith)
        | inr (info, i) ↦ (ground arith, (age, a))
      ]
    ]
  ]

  -- The cleanup deletes no more files than the limit. With those that it failed on it may be one
  -- more: `lstat` can throw on an entry that comes after the limit was reached.
  pub clean-batch_limit :
      (es : List Entry) (c : Cleaned)
      → c.deleted + c.failed ≤ rules.batch_limit
      → let d = clean paths rules now es c in
        (d.deleted ≤ rules.batch_limit) × (d.deleted + d.failed ≤ suc rules.batch_limit)
  unfolding clean delete fail
  clean-batch_limit [] c h = (omega arith, omega arith)
  clean-batch_limit (e ∷ es) c h = elim (Verdict-cases (judge rules now e c)) [
    | inl q ↦ rw (q, clean) (clean-batch_limit es c h)
    | inr (inl q) ↦ rw (q, clean) (omega arith, omega arith)
    | inr (inr (inl q)) ↦
        rw (q, clean)
          (clean-batch_limit es (delete paths e c) (let d = judge-deletes e c q in omega arith))
    | inr (inr (inr q)) ↦ elim (Bool-cases (leb rules.batch_limit (suc (c.deleted + c.failed)))) [
      | inl full ↦ rw (q, clean) (rw (full) (omega arith, omega arith))
      | inr room ↦ rw (q, clean) (rw (room) (clean-batch_limit es (fail c) (ground arith)))
    ]
  ]

  -- A path that is no orphan's stays as it is.
  pub clean-lookup :
      (es : List Entry) (c : Cleaned) (p : ℕ)
      → ((f : FileName) (age : ℕ) → max_age rules f ≡ some age → path paths f ≢ p)
      → lookup p (clean paths rules now es c).files ≡ lookup p c.files
  unfolding clean delete fail
  clean-lookup [] c p spared = refl
  clean-lookup (e ∷ es) c p spared = elim (Verdict-cases (judge rules now e c)) [
    | inl q ↦ rw (q, clean) (clean-lookup es c p spared)
    | inr (inl q) ↦ rw (q, clean) refl
    | inr (inr (inl q)) ↦
        let (_, (age, a)) = judge-deletes e c q in
        let other = spared e.name age a in
        rw (q, clean)
          (clean-lookup es (delete paths e c) p spared
            ∙ lookup-erase p (path paths e.name) c.files
            ∙ ground arith)
    | inr (inr (inr q)) ↦ elim (Bool-cases (leb rules.batch_limit (suc (c.deleted + c.failed)))) [
      | inl full ↦ rw (q, clean) (rw (full) refl)
      | inr room ↦ rw (q, clean) (rw (room) (clean-lookup es (fail c) p spared))
    ]
  ]
