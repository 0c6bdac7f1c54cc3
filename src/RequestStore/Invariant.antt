-- ===== src/RequestStore/Invariant.antt =====
-- What holds of the store between two calls, and that each call keeps it.
use backend_bmo_blabs.Base.{
  ℕ, ◌≡◌, ◌≢◌, refl, sym, ◌∙◌, inl, inr, true, false, Option, none, some, ok, ◌==◌, is_some, arith,
  Bool-cases, Option-cases,
}
use backend_bmo_blabs.Base.Dict.{
  lookup, contains, insert, erase, lookup-insert, lookup-erase, lookup-empty, IsMap, insert-IsMap,
}
use backend_bmo_blabs.RequestStore.Record.{VoiceRequestRecord, NewRequest, is_terminal}
use backend_bmo_blabs.RequestStore.{RequestStore, new_store, admit, release, write, new_record}

-- A stored record has its key for an id, is stamped exactly when it is terminal, and, until then,
-- is its device's active request.
pub record Entry (s : RequestStore) (k : ℕ) (r : VoiceRequestRecord) : Type 0 where
  pub keyed : r.request_id ≡ k
  pub stamped : is_some r.terminal_at ≡ is_terminal r.status
  pub owned : is_terminal r.status ≡ false → lookup r.device_id s.active_by_device ≡ some k

-- An active id is that of a stored record of that device that is not terminal.
abbrev pub Live : RequestStore → ℕ → ℕ → Type 0
Live s d k =
    (r : VoiceRequestRecord) × (lookup k s.requests ≡ some r)
    × (r.device_id ≡ d)
    × (is_terminal r.status ≡ false)

pub record Inv (s : RequestStore) : Type 0 where
  pub unique : IsMap s.requests
  pub entry : (k : ℕ) (r : VoiceRequestRecord) → lookup k s.requests ≡ some r → Entry s k r
  pub live : (d k : ℕ) → lookup d s.active_by_device ≡ some k → Live s d k

pub new_store-Inv : (ttl max : Option ℕ) → Inv (new_store ttl max)
unfolding new_store
new_store-Inv ttl max = record {
  unique = tt;
  entry = λ k r e. absurd (none≢some (sym (lookup-empty k) ∙ e));
  live = λ d k e. absurd (none≢some (sym (lookup-empty d) ∙ e));
}
  where
    none≢some : {A : Type 0} {a : A} → none ≢ some a
    none≢some e = cc

-- A record that is written over itself, and goes on living.
module _ (s : RequestStore) (v : Inv s) (k : ℕ) (r r' : VoiceRequestRecord)
    (found : lookup k s.requests ≡ some r) (same : r'.input ≡ r.input)
    (before : is_terminal r.status ≡ false) where
  write-Entry :
      (after : is_terminal r'.status ≡ is_some r'.terminal_at)
      → (j : ℕ) (q : VoiceRequestRecord) → lookup j (write k r' s).requests ≡ some q
      → Entry (write k r' s) j q
  write-Entry after j q e =
      ground (arith, lookup-insert j k r' s.requests, v.entry j q, v.entry k r found)

  write-Live :
      (after : is_terminal r'.status ≡ false)
      → (d j : ℕ) → lookup d s.active_by_device ≡ some j
      → Live (write k r' s) d j
  write-Live after d j e = elim (Bool-cases (j == k)) [
    | inl hit ↦
        (r', ground (arith, lookup-insert j k r' s.requests), ground (arith, v.live d j e), after)
    | inr miss ↦
        let (q, at, own, open_state) = v.live d j e in
        (q, ground (arith, lookup-insert j k r' s.requests), own, open_state)
  ]

  pub write-Inv : is_terminal r'.status ≡ false → r'.terminal_at ≡ none → Inv (write k r' s)
  write-Inv after stamp = record {
    unique = insert-IsMap k r' s.requests v.unique;
    entry = write-Entry (ground arith);
    live = write-Live after;
  }

  -- Ending a live request releases its device.
  pub release-write : release r' (write k r' s) ≡ record s {
    requests = insert k r' s.requests;
    active_by_device = erase r.device_id s.active_by_device;
  }
  unfolding release
  release-write = ground (arith, v.entry k r found)

  closed_store : RequestStore
  closed_store = record s {
    requests = insert k r' s.requests;
    active_by_device = erase r.device_id s.active_by_device;
  }

  close-Entry :
      is_terminal r'.status ≡ true
      → is_some r'.terminal_at ≡ true
      → (j : ℕ) (q : VoiceRequestRecord) → lookup j closed_store.requests ≡ some q
      → Entry closed_store j q
  unfolding closed_store
  close-Entry after stamp j q e = ground (
    arith,
    lookup-insert j k r' s.requests,
    lookup-erase q.device_id r.device_id s.active_by_device,
    v.entry j q,
    v.entry k r found,
  )

  close-Live : (d j : ℕ) → lookup d closed_store.active_by_device ≡ some j → Live closed_store d j
  unfolding closed_store
  close-Live d j e =
      let old : (lookup d s.active_by_device ≡ some j) × (d ≢ r.device_id) =
        ground (arith, lookup-erase d r.device_id s.active_by_device) in
      let (q, at, own, open_state) = v.live d j old.0 in
      (q, ground (arith, lookup-insert j k r' s.requests), own, open_state)

  pub close-Inv :
      is_terminal r'.status ≡ true → is_some r'.terminal_at ≡ true → Inv (release r' (write k r' s))
  unfolding closed_store
  close-Inv after stamp = rw release-write record {
    unique = insert-IsMap k r' s.requests v.unique;
    entry = close-Entry after stamp;
    live = close-Live;
  }

module _ (input : NewRequest) (created : ℕ) (s : RequestStore) (v : Inv s)
    (idle : lookup input.device_id s.active_by_device ≡ none)
    (fresh : lookup input.request_id s.requests ≡ none) where
  admitted : RequestStore
  admitted = record s {
    requests = insert input.request_id (new_record input created) s.requests;
    active_by_device = insert input.device_id input.request_id s.active_by_device;
  }

  admitted-Entry :
      (j : ℕ) (q : VoiceRequestRecord) → lookup j admitted.requests ≡ some q → Entry admitted j q
  unfolding admitted new_record
  admitted-Entry j q e = ground (
    arith,
    lookup-insert j input.request_id (new_record input created) s.requests,
    lookup-insert q.device_id input.device_id input.request_id s.active_by_device,
    v.entry j q,
  )

  admitted-Live : (d j : ℕ) → lookup d admitted.active_by_device ≡ some j → Live admitted d j
  unfolding admitted new_record
  admitted-Live d j e = elim (Bool-cases (d == input.device_id)) [
    | inl hit ↦ (
      new_record input created,
      ground (
        arith,
        lookup-insert d input.device_id input.request_id s.active_by_device,
        lookup-insert j input.request_id (new_record input created) s.requests,
      ),
      ground arith,
      refl,
    )
    | inr miss ↦
        let old : lookup d s.active_by_device ≡ some j =
          ground (arith, lookup-insert d input.device_id input.request_id s.active_by_device) in
        let (q, at, own, open_state) = v.live d j old in
        (
          q,
          ground (arith, lookup-insert j input.request_id (new_record input created) s.requests),
          own,
          open_state,
        )
  ]

  admitted-Inv : Inv admitted
  unfolding admitted
  admitted-Inv = record {
    unique = insert-IsMap input.request_id _ s.requests v.unique;
    entry = admitted-Entry;
    live = admitted-Live;
  }

  admit_fresh : admit input created s ≡ (admitted, ok (new_record input created))
  unfolding admit contains admitted
  admit_fresh = rw (idle, fresh) refl

  pub admit_fresh_Inv :
      (t : RequestStore) × (admit input created s ≡ (t, ok (new_record input created)))
      × Inv t
      × (lookup input.request_id t.requests ≡ some (new_record input created))
      × (lookup input.device_id t.active_by_device ≡ some input.request_id)
  unfolding admitted
  admit_fresh_Inv = (
    admitted,
    admit_fresh,
    admitted-Inv,
    ground (
      arith,
      lookup-insert input.request_id input.request_id (new_record input created) s.requests,
    ),
    ground
        (arith, lookup-insert input.device_id input.device_id input.request_id s.active_by_device),
  )

pub admit-Inv :
    (input : NewRequest) (created : ℕ) (s : RequestStore) → Inv s → Inv (admit input created s).0
unfolding admit contains admitted
admit-Inv input created s v = elim (Option-cases (lookup input.device_id s.active_by_device)) [
  | inr (d, busy) ↦ rw (busy, admit) v
  | inl idle ↦ elim (Option-cases (lookup input.request_id s.requests)) [
    | inr (r, dup) ↦ rw (idle, dup, admit) v
    | inl fresh ↦ rw (idle, fresh, admit) (admitted-Inv input created s v idle fresh)
  ]
]
