-- ===== src/TempAudio/Tombstones.antt =====
-- The two loops of `collectExpiredAudioTombstones`.
use backend_bmo_blabs.Base.{
  ℕ, ◌+◌, ◌≤◌, ◌<◌, ◌≡◌, refl, inl, inr, true, false, Option, none, some, [], ◌∷◌, ltb, ◌==◌,
  if◌then◌else◌, length, arith, Bool-cases, Option-cases, ◌⊎◌,
}
use backend_bmo_blabs.Base.Dict.{Dict, lookup, erase, lookup-erase, length-erase_lt}

-- The `for` over the entries deletes from the map that it walks.
unfoldable pub collect : ℕ → ℕ → Dict ℕ → Dict ℕ → Dict ℕ
collect retention now [] m = m
collect retention now ((id, at) ∷ es) m =
    collect retention now es (if ltb (at + retention) now then erase id m else m)

-- The head of the entries after the stable sort by time.
unfoldable pub oldest : Dict ℕ → Option (ℕ × ℕ)
oldest [] = none
oldest ((id, at) ∷ m) = elim (oldest m) [
  | none ↦ some (id, at)
  | some (jd, bt) ↦ if ltb bt at then some (jd, bt) else some (id, at)
]

-- The `while` loop. Each round deletes an entry, so the entries of the map are fuel enough.
unfoldable pub evict : ℕ → Dict ℕ → Dict ℕ → Dict ℕ
evict max [] m = m
evict max (e ∷ fuel) m = elim (ltb max (length m)) [
  | false ↦ m
  | true ↦ elim (oldest m) [ none ↦ m | some (id, at) ↦ evict max fuel (erase id m) ]
]

oldest_stored :
    (m : Dict ℕ) (id at : ℕ) → oldest m ≡ some (id, at) → (b : ℕ) × (lookup id m ≡ some b)
unfolding oldest lookup
oldest_stored [] id at h = absurd cc
oldest_stored ((jd, bt) ∷ m) id at h = elim (Option-cases (oldest m)) [
  | inl e ↦ (bt, ground arith)
  | inr ((kd, ct), e) ↦
      let (b, found) = oldest_stored m kd ct e in
      elim (Bool-cases (ltb ct bt)) [
        | inr keep ↦ (bt, ground arith)
        | inl take ↦ elim (Bool-cases (kd == jd)) [
          | inl hit ↦ (bt, ground arith)
          | inr miss ↦ (b, ground arith)
        ]
      ]
]

oldest-none : (m : Dict ℕ) → oldest m ≡ none → length m ≤ 0
unfolding oldest
oldest-none [] h = omega arith
oldest-none ((jd, bt) ∷ m) h = absurd (ground arith)

-- The loop ends because the map is small enough, not because the fuel is used up.
pub evict-length :
    (max : ℕ) (fuel m : Dict ℕ) → length m ≤ length fuel → length (evict max fuel m) ≤ max
unfolding evict
evict-length max [] m enough = omega arith
evict-length max (e ∷ fuel) m enough = elim (Bool-cases (ltb max (length m))) [
  | inr small ↦ rw (small, evict) (ground arith)
  | inl big ↦ elim (Option-cases (oldest m)) [
    | inl nothing ↦ rw (big, evict) (rw (nothing) (let z = oldest-none m nothing in omega arith))
    | inr ((id, at), found) ↦
        let (b, stored) = oldest_stored m id at found in
        let less = length-erase_lt id b m stored in
        rw (big, evict) (rw (found) (evict-length max fuel (erase id m) (omega arith)))
  ]
]

-- The entry under this id is what it was, or is gone.
abbrev pub Keeps : ℕ → Dict ℕ → Dict ℕ → Type 0
Keeps id m m' = (lookup id m' ≡ lookup id m) ⊎ (lookup id m' ≡ none)

Keeps-trans : (id : ℕ) (a b c : Dict ℕ) → Keeps id a b → Keeps id b c → Keeps id a c
Keeps-trans id a b c p q = ground arith

erase-Keeps : (id k : ℕ) (m : Dict ℕ) → Keeps id m (erase k m)
erase-Keeps id k m = ground (arith, lookup-erase id k m)

pub evict-Keeps : (id max : ℕ) (fuel m : Dict ℕ) → Keeps id m (evict max fuel m)
unfolding evict
evict-Keeps id max [] m = inl refl
evict-Keeps id max (e ∷ fuel) m = elim (Bool-cases (ltb max (length m))) [
  | inr small ↦ rw (small, evict) (inl refl)
  | inl big ↦ elim (Option-cases (oldest m)) [
    | inl nothing ↦ rw (big, evict) (rw (nothing) (inl refl))
    | inr ((k, at), found) ↦
        rw (big, evict)
          (rw (found) (
            Keeps-trans id m (erase k m) (evict max fuel (erase k m)) (erase-Keeps id k m)
              (evict-Keeps id max fuel (erase k m))))
  ]
]

pub collect-Keeps : (id retention now : ℕ) (es m : Dict ℕ) → Keeps id m (collect retention now es m)
unfolding collect
collect-Keeps id retention now [] m = inl refl
collect-Keeps id retention now ((k, at) ∷ es) m = elim (Bool-cases (ltb (at + retention) now)) [
  | inr fresh ↦ rw (fresh, collect) (collect-Keeps id retention now es m)
  | inl stale ↦
      rw (stale, collect)
        (Keeps-trans id m (erase k m) (collect retention now es (erase k m)) (erase-Keeps id k m)
          (collect-Keeps id retention now es (erase k m)))
]

-- An entry that the walk meets goes if it is too old.
pub collect-stale :
    (id at retention now : ℕ) (es m : Dict ℕ)
    → lookup id es ≡ some at
    → at + retention < now
    → lookup id (collect retention now es m) ≡ none
unfolding collect lookup
collect-stale id at retention now [] m e old = absurd cc
collect-stale id at retention now ((k, bt) ∷ es) m e old = elim (Bool-cases (id == k)) [
  | inr miss ↦ collect-stale id at retention now es _ (ground arith) old
  | inl hit ↦
      let stale : ltb (bt + retention) now ≡ true = ground arith in
      rw (stale, collect)
        (ground (arith, lookup-erase id k m, collect-Keeps id retention now es (erase k m)))
]
