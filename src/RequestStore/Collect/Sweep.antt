-- ===== src/RequestStore/Collect/Sweep.antt =====
-- The loop that deletes stale tombstones, and what a collection may leave out.
use backend_bmo_blabs.Base.{
  ℕ, ◌+◌, ◌<◌, ◌≡◌, refl, ◌∙◌, ◌⊎◌, inl, inr, true, Option, none, some, [], ◌∷◌, if◌then◌else◌,
  is_some, arith, Bool-cases, Option-cases,
}
use backend_bmo_blabs.Base.Dict.{Dict, lookup, erase, lookup-erase, IsMap, erase-IsMap}
use backend_bmo_blabs.RequestStore.Record.{VoiceRequestRecord}
use backend_bmo_blabs.RequestStore.Collect.{is_stale, sweep}

-- What becomes of the record `o`, if the entry `e` is walked.
abbrev pub unless_stale :
    ℕ → ℕ → Option VoiceRequestRecord → Option VoiceRequestRecord → Option VoiceRequestRecord
unless_stale ttl now none o = o
unless_stale ttl now (some r) o = if is_stale ttl now r then none else o

pub lookup-sweep :
    (ttl now j : ℕ) (es m : Dict VoiceRequestRecord)
    → IsMap es
    → lookup j (sweep ttl now es m) ≡ unless_stale ttl now (lookup j es) (lookup j m)
unfolding sweep lookup
lookup-sweep ttl now j [] m u = refl
lookup-sweep ttl now j ((k, r) ∷ es) m u = elim (Bool-cases (is_stale ttl now r)) [
  | inl s ↦
      rw s (rw (lookup-sweep ttl now j es (erase k m) u.1) (ground (arith, lookup-erase j k m)))
  | inr s ↦ rw s (rw (lookup-sweep ttl now j es m u.1) (ground arith))
]

pub sweep-IsMap :
    (ttl now : ℕ) (es m : Dict VoiceRequestRecord) → IsMap m → IsMap (sweep ttl now es m)
unfolding sweep
sweep-IsMap ttl now [] m u = u
sweep-IsMap ttl now ((k, r) ∷ es) m u = elim (Bool-cases (is_stale ttl now r)) [
  | inl s ↦ rw s (sweep-IsMap ttl now es (erase k m) (erase-IsMap k m u))
  | inr s ↦ rw s (sweep-IsMap ttl now es m u)
]

-- `m'` is `m` less some records that have ended.
abbrev pub Trims : Dict VoiceRequestRecord → Dict VoiceRequestRecord → Type 0
Trims m m' =
    (j : ℕ)
    → (lookup j m' ≡ lookup j m)
      ⊎ ((lookup j m' ≡ none)
          × (r : VoiceRequestRecord) × (lookup j m ≡ some r)
          × (is_some r.terminal_at ≡ true))

pub stale_age :
    (ttl now t : ℕ) (r : VoiceRequestRecord)
    → r.terminal_at ≡ some t
    → is_stale ttl now r ≡ true
    → t + ttl < now
unfolding is_stale
stale_age ttl now t r e h = ground arith

pub stale_ended :
    (ttl now : ℕ) (r : VoiceRequestRecord)
    → is_stale ttl now r ≡ true
    → is_some r.terminal_at ≡ true
unfolding is_stale
stale_ended ttl now r h = ground arith

pub sweep-Trims :
    (ttl now : ℕ) (m : Dict VoiceRequestRecord) → IsMap m → Trims m (sweep ttl now m m)
sweep-Trims ttl now m u j = elim (Option-cases (lookup j m)) [
  | inl gone ↦ inl (rw (lookup-sweep ttl now j m m u) (ground arith))
  | inr (r, at) ↦ elim (Bool-cases (is_stale ttl now r)) [
    | inl s ↦ inr (lookup-sweep ttl now j m m u ∙ ground arith, r, at, stale_ended ttl now r s)
    | inr s ↦ inl (lookup-sweep ttl now j m m u ∙ ground arith)
  ]
]

pub Trims-trans : (a b c : Dict VoiceRequestRecord) → Trims a b → Trims b c → Trims a c
Trims-trans a b c p q j = elim (q j) [
  | inl same ↦ elim (p j) [
    | inl before ↦ inl (same ∙ before)
    | inr (gone, r, at, ended) ↦ inr (same ∙ gone, r, at, ended)
  ]
  | inr (gone, r, at, ended) ↦ elim (p j) [
    | inl before ↦ inr (gone, r, ground arith, ended)
    | inr (lost, r', at', ended') ↦ inr (gone, r', at', ended')
  ]
]
