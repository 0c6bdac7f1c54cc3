-- ===== src/RequestStore/Collect/Evict.antt =====
-- The loop that makes room: which record it takes, and where it stops.
use backend_bmo_blabs.Base.{
  ℕ, ◌≤◌, ◌≡◌, refl, ap, sym, subst, ◌⊎◌, inl, inr, true, none, some, [], ◌∷◌, ltb, ◌==◌, is_some,
  length, arith, Bool-cases, Option-cases,
}
use backend_bmo_blabs.Base.Dict.{
  Dict, lookup, erase, lookup-erase, length-erase_lt, IsMap, erase-IsMap,
}
use backend_bmo_blabs.RequestStore.Record.{VoiceRequestRecord}
use backend_bmo_blabs.RequestStore.Collect.{earlier, oldest_terminal, evict}
use backend_bmo_blabs.RequestStore.Collect.Sweep.{Trims, Trims-trans}

-- `none` only if no record has ended.
pub oldest_none :
    (m : Dict VoiceRequestRecord) (k : ℕ) (q : VoiceRequestRecord)
    → oldest_terminal m ≡ none
    → lookup k m ≡ some q
    → q.terminal_at ≡ none
unfolding oldest_terminal lookup
oldest_none [] k q h e = cc
oldest_none ((j, r) ∷ m) k q h e = ground (arith, oldest_none m k q)

pub oldest_ended :
    (m : Dict VoiceRequestRecord) (r : VoiceRequestRecord)
    → oldest_terminal m ≡ some r
    → (t : ℕ) × (r.terminal_at ≡ some t)
unfolding oldest_terminal earlier
oldest_ended [] r h = cc
oldest_ended ((j, p) ∷ m) r h = elim (Option-cases (oldest_terminal m)) [
  | inl e ↦ elim (Option-cases p.terminal_at) [
    | inl n ↦ absurd (ground arith)
    | inr (u, pu) ↦ (u, ground arith)
  ]
  | inr (q, e) ↦
      let (t, at) = oldest_ended m q e in
      elim (Option-cases p.terminal_at) [
        | inl n ↦ (t, ground arith)
        | inr (u, pu) ↦ elim (Bool-cases (ltb t u)) [
          | inl b ↦ (t, ground arith)
          | inr b ↦ (u, ground arith)
        ]
      ]
]

-- It is a stored record that has ended, and none that has ended did so before.
pub oldest_first :
    (m : Dict VoiceRequestRecord) (r : VoiceRequestRecord) (k : ℕ) (q : VoiceRequestRecord)
    (t u : ℕ)
    → oldest_terminal m ≡ some r
    → r.terminal_at ≡ some t
    → lookup k m ≡ some q
    → q.terminal_at ≡ some u
    → t ≤ u
unfolding oldest_terminal earlier lookup
oldest_first [] r k q t u h rt e qu = cc
oldest_first ((j, p) ∷ m) r k q t u h rt e qu = elim (Option-cases (oldest_terminal m)) [
  | inl none_ended ↦ ground (arith, oldest_none m k q)
  | inr (o, first) ↦
      let (v, ov) = oldest_ended m o first in ground (arith, oldest_first m o k q v u first ov)
]

pub oldest_stored :
    (m : Dict VoiceRequestRecord) (r : VoiceRequestRecord)
    → IsMap m
    → oldest_terminal m ≡ some r
    → (k : ℕ) × (lookup k m ≡ some r)
unfolding oldest_terminal earlier lookup
oldest_stored [] r u h = cc
oldest_stored ((j, p) ∷ m) r u h = elim (Option-cases (oldest_terminal m)) [
  | inl e ↦ (j, ground arith)
  | inr (q, e) ↦
      let (k, at) = oldest_stored m q u.1 e in
      let from : (r ≡ p) ⊎ (r ≡ q) = ground arith in
      elim from [ inl this ↦ (j, ground arith) | inr that ↦ (k, ground (arith, u.0)) ]
]

abbrev pub Keyed : Dict VoiceRequestRecord → Type 0
Keyed m = (k : ℕ) (r : VoiceRequestRecord) → lookup k m ≡ some r → r.request_id ≡ k

pub oldest_at :
    (m : Dict VoiceRequestRecord) (r : VoiceRequestRecord)
    → IsMap m
    → Keyed m
    → oldest_terminal m ≡ some r
    → lookup r.request_id m ≡ some r
oldest_at m r u kd h =
    let (k, at) = oldest_stored m r u h in subst (λ i. lookup i m ≡ some r) (sym (kd k r at)) at

pub erase-Keyed : (i : ℕ) (m : Dict VoiceRequestRecord) → Keyed m → Keyed (erase i m)
erase-Keyed i m kd k r e = ground (arith, lookup-erase k i m, kd k r)

erase-Trims :
    (m : Dict VoiceRequestRecord) (r : VoiceRequestRecord)
    → lookup r.request_id m ≡ some r
    → is_some r.terminal_at ≡ true
    → Trims m (erase r.request_id m)
erase-Trims m r at ended j = elim (Bool-cases (j == r.request_id)) [
  | inl hit ↦ inr (rw (lookup-erase j r.request_id m) (ground arith), r, ground arith, ended)
  | inr miss ↦ inl (rw (lookup-erase j r.request_id m) (ground arith))
]

module _ (max : ℕ) where
  -- One round of the loop.
  evict_round :
      (e : ℕ × VoiceRequestRecord) (fuel m : Dict VoiceRequestRecord)
      → ((evict max (e ∷ fuel) m ≡ m) × ((length m ≤ max) ⊎ (oldest_terminal m ≡ none)))
        ⊎ ((r : VoiceRequestRecord) × (oldest_terminal m ≡ some r)
            × (evict max (e ∷ fuel) m ≡ evict max fuel (erase r.request_id m)))
  unfolding evict
  evict_round e fuel m = elim (Bool-cases (ltb max (length m))) [
    | inr small ↦ inl (rw (small, evict) refl, inl (ground arith))
    | inl big ↦ elim (Option-cases (oldest_terminal m)) [
      | inl stop ↦ inl (rw (big, evict) (rw (stop, evict) refl), inr stop)
      | inr (r, first) ↦ inr (r, first, rw (big, evict) (rw (first, evict) refl))
    ]
  ]

  pub evict-IsMap : (fuel m : Dict VoiceRequestRecord) → IsMap m → IsMap (evict max fuel m)
  unfolding evict
  evict-IsMap [] m u = u
  evict-IsMap (e ∷ fuel) m u = elim (evict_round e fuel m) [
    | inl (stays, _) ↦ rw stays u
    | inr (r, first, goes) ↦
        rw goes (evict-IsMap fuel (erase r.request_id m) (erase-IsMap r.request_id m u))
  ]

  pub evict-Trims :
      (fuel m : Dict VoiceRequestRecord) → IsMap m → Keyed m → Trims m (evict max fuel m)
  unfolding evict
  evict-Trims [] m u kd j = inl refl
  evict-Trims (e ∷ fuel) m u kd j = elim (evict_round e fuel m) [
    | inl (stays, _) ↦ inl (ap (lookup j) stays)
    | inr (r, first, goes) ↦
        subst (λ n. Trims m n) (sym goes)
          (Trims-trans m (erase r.request_id m) _
            (erase-Trims m r (oldest_at m r u kd first) (ground (arith, oldest_ended m r first)))
            (evict-Trims fuel (erase r.request_id m) (erase-IsMap r.request_id m u)
              (erase-Keyed r.request_id m kd)))
          j
  ]

  -- With an entry of fuel for each record the loop ends by its own test.
  pub evict_bounded :
      (fuel m : Dict VoiceRequestRecord)
      → IsMap m
      → Keyed m
      → length m ≤ length fuel
      → (length (evict max fuel m) ≤ max) ⊎ (oldest_terminal (evict max fuel m) ≡ none)
  unfolding evict
  evict_bounded [] m u kd h = inl (omega arith)
  evict_bounded (e ∷ fuel) m u kd h = elim (evict_round e fuel m) [
    | inl (stays, done) ↦ rw stays done
    | inr (r, first, goes) ↦ rw goes (
        evict_bounded fuel (erase r.request_id m) (erase-IsMap r.request_id m u)
          (erase-Keyed r.request_id m kd)
          (omega (arith, length-erase_lt r.request_id r m (oldest_at m r u kd first))))
  ]

  -- What is evicted ended no later than anything ended that stays.
  pub evict_order :
      (fuel m : Dict VoiceRequestRecord) (j k t v : ℕ) (r q : VoiceRequestRecord)
      → IsMap m
      → Keyed m
      → lookup j m ≡ some r
      → r.terminal_at ≡ some t
      → lookup j (evict max fuel m) ≡ none
      → lookup k (evict max fuel m) ≡ some q
      → q.terminal_at ≡ some v
      → t ≤ v
  unfolding evict
  evict_order [] m j k t v r q u kd at rt out stay qv = absurd (cc)
  evict_order (e ∷ fuel) m j k t v r q u kd at rt out stay qv = elim (evict_round e fuel m) [
    | inl (stays, _) ↦ absurd (cc)
    | inr (o, first, goes) ↦
        let m' = erase o.request_id m in
        let m'_map = erase-IsMap o.request_id m u in
        let m'_keyed = erase-Keyed o.request_id m kd in
        elim (Bool-cases (j == o.request_id)) [
          | inl hit ↦ elim (evict-Trims fuel m' m'_map m'_keyed k) [
            | inl same ↦
                oldest_first m r k q t v (ground (arith, oldest_at m o u kd first)) rt
                  (ground (arith, lookup-erase k o.request_id m)) qv
            | inr gone ↦ absurd (ground arith)
          ]
          | inr miss ↦
              evict_order fuel m' j k t v r q m'_map m'_keyed
                (ground (arith, lookup-erase j o.request_id m)) rt (ground arith) (ground arith) qv
        ]
  ]
