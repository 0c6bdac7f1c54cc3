-- ===== src/RequestStore/Collect.antt =====
-- The two loops of `collectGarbage`.
pub mod Sweep
pub mod Evict
use backend_bmo_blabs.Base.{
  ℕ, zero, suc, ◌+◌, ◌≤◌, ◌<◌, ◌≡◌, ◌≢◌, refl, ◌⊎◌, inl, inr, Bool, true, false, Option, none, some,
  List, [], ◌∷◌, ltb, if◌then◌else◌, is_some, length, arith, Bool-cases, Option-cases,
}
use backend_bmo_blabs.Base.Dict.{
  Dict, lookup, erase, lookup-erase, length-erase_lt, IsMap, erase-IsMap,
}
use backend_bmo_blabs.RequestStore.Record.{VoiceRequestRecord, is_terminal}

-- `record.terminalAt !== null && now - record.terminalAt > ttl`, with the subtraction moved over.
pub is_stale : ℕ → ℕ → VoiceRequestRecord → Bool
is_stale ttl now r = elim r.terminal_at [ none ↦ false | some t ↦ ltb (t + ttl) now ]

-- The `for` over the entries deletes from the map that it walks.
unfoldable pub sweep :
    ℕ → ℕ → Dict VoiceRequestRecord → Dict VoiceRequestRecord → Dict VoiceRequestRecord
unfolding is_stale
sweep ttl now [] m = m
sweep ttl now ((k, r) ∷ es) m = sweep ttl now es (if is_stale ttl now r then erase k m else m)

-- The first of the earliest terminal records: the head of the filtered list after the stable sort.
earlier : VoiceRequestRecord → Option VoiceRequestRecord → Option VoiceRequestRecord
earlier r none = some r
earlier r (some q) = elim r.terminal_at [
  | none ↦ some q
  | some t ↦ elim q.terminal_at [ none ↦ some r | some u ↦ if ltb u t then some q else some r ]
]

unfoldable pub oldest_terminal : Dict VoiceRequestRecord → Option VoiceRequestRecord
unfolding earlier
oldest_terminal [] = none
oldest_terminal ((k, r) ∷ m) =
    let rest = oldest_terminal m in if is_some r.terminal_at then earlier r rest else rest

-- The `while` loop. Each round deletes a record, so the entries of the map are fuel enough: they
-- are counted by the second dictionary.
unfoldable pub evict :
    ℕ → Dict VoiceRequestRecord → Dict VoiceRequestRecord → Dict VoiceRequestRecord
evict max [] m = m
evict max (e ∷ fuel) m = elim (ltb max (length m)) [
  | false ↦ m
  | true ↦ elim (oldest_terminal m) [ none ↦ m | some r ↦ evict max fuel (erase r.request_id m) ]
]
