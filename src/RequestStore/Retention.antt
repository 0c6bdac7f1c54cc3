-- ===== src/RequestStore/Retention.antt =====
-- What a collection keeps, what it deletes, and that it makes room.
use backend_bmo_blabs.Base.{
  ℕ, ◌+◌, ◌≤◌, ◌<◌, ◌≡◌, ◌⊎◌, inl, inr, false, none, some, length, arith, Bool-cases, ◌∙◌,
}
use backend_bmo_blabs.Base.Dict.{lookup}
use backend_bmo_blabs.RequestStore.Record.{VoiceRequestRecord, is_terminal}
use backend_bmo_blabs.RequestStore.Collect.{sweep, evict, is_stale}
use backend_bmo_blabs.RequestStore.Collect.Sweep.{sweep-IsMap, sweep-Trims, lookup-sweep, stale_age}
use backend_bmo_blabs.RequestStore.Collect.Evict.{evict_bounded, evict_order, oldest_none}
use backend_bmo_blabs.RequestStore.Invariant.{Inv}
use backend_bmo_blabs.RequestStore.Calls.{collect_garbage-Inv, collect_garbage-Trims, Trims-Keyed}
use backend_bmo_blabs.RequestStore.{RequestStore, collect_garbage}

-- A request that is still going is kept, with its record as it is.
pub collect_keeps_live :
    (now : ℕ) (s : RequestStore) (k : ℕ) (r : VoiceRequestRecord)
    → Inv s
    → lookup k s.requests ≡ some r
    → is_terminal r.status ≡ false
    → lookup k (collect_garbage now s).requests ≡ some r
collect_keeps_live now s k r v at going =
    ground (arith, collect_garbage-Trims now s v k, v.entry k r at)

-- After a collection the map is within its limit, or every record in it is that of a request that
-- is still going.
pub collect_bounds :
    (now : ℕ) (s : RequestStore)
    → Inv s
    → (length (collect_garbage now s).requests ≤ s.max_entries)
      ⊎ ((k : ℕ) (r : VoiceRequestRecord)
          → lookup k (collect_garbage now s).requests ≡ some r
          → is_terminal r.status ≡ false)
unfolding collect_garbage
collect_bounds now s v =
    let swept = sweep s.tombstone_ttl_ms now s.requests s.requests in
    let swept_map = sweep-IsMap s.tombstone_ttl_ms now s.requests s.requests v.unique in
    let keyed = Trims-Keyed s swept v (sweep-Trims s.tombstone_ttl_ms now s.requests v.unique) in
    elim (evict_bounded s.max_entries swept swept swept_map keyed (omega arith)) [
      | inl fits ↦ inl fits
      | inr no_more ↦ inr λ k r at. ground (
        arith,
        oldest_none (evict s.max_entries swept swept) k r no_more at,
        (collect_garbage-Inv now s v).entry k r at,
      )
    ]

-- A record that a collection deletes had ended more than the retention time ago, or it ended no
-- later than every record of an ended request that stays.
pub collect_deletes_oldest :
    (now : ℕ) (s : RequestStore) (j k t u : ℕ) (r q : VoiceRequestRecord)
    → Inv s
    → lookup j s.requests ≡ some r
    → lookup j (collect_garbage now s).requests ≡ none
    → r.terminal_at ≡ some t
    → lookup k (collect_garbage now s).requests ≡ some q
    → q.terminal_at ≡ some u
    → (t + s.tombstone_ttl_ms < now) ⊎ (t ≤ u)
unfolding collect_garbage
collect_deletes_oldest now s j k t u r q v at out rt stays qu =
    let swept = sweep s.tombstone_ttl_ms now s.requests s.requests in
    let swept_map = sweep-IsMap s.tombstone_ttl_ms now s.requests s.requests v.unique in
    let keyed = Trims-Keyed s swept v (sweep-Trims s.tombstone_ttl_ms now s.requests v.unique) in
    let same = lookup-sweep s.tombstone_ttl_ms now j s.requests s.requests v.unique in
    elim (Bool-cases (is_stale s.tombstone_ttl_ms now r)) [
      | inl stale ↦ inl (stale_age s.tombstone_ttl_ms now t r rt stale)
      | inr fresh ↦ inr (
          evict_order s.max_entries swept swept j k t u r q swept_map keyed (same ∙ ground arith) rt
            out stays qu)
    ]
