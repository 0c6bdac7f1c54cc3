-- ===== src/RequestStore.antt =====
-- backend/src/domain/request-store.ts: the voice requests of the devices, in memory. Texts that the
-- store only compares or passes on are numbers, 0 the empty one. A method returns the new store and
-- its result; each reading of the injected clock is an argument of the call.
pub mod Record
pub mod Collect
pub mod Invariant
pub mod Calls
pub mod Lifecycle
pub mod Retention
pub mod Devices
pub mod Steps
mod Tests
use backend_bmo_blabs.Base.{
  ℕ, suc, ◌+◌, Bool, true, false, ◌&&◌, Option, none, some, List, [], ◌∷◌, ◌++◌, Result, ok, err,
  leb, ◌==◌, if◌then◌else◌, is_some,
}
use backend_bmo_blabs.Base.Dict.{Dict, lookup, contains, insert, erase}
use Record.{
  PendingStatus, pending, accepted, audio_ready, completed, failed, expired, PlaybackState,
  NewRequest, AudioOutput, VoiceRequestRecord, RequestStoreErrorCode, device_busy,
  request_not_found, invalid_request_state, is_terminal, is_processing, same_status, audio_expired,
}
use Collect.{sweep, evict}

pub record RequestStore : Type 0 where
  pub requests : Dict VoiceRequestRecord
  pub active_by_device : Dict ℕ
  pub tombstone_ttl_ms : ℕ
  pub max_entries : ℕ

-- `new RequestStore(options)`
pub new_store : Option ℕ → Option ℕ → RequestStore
new_store ttl max = record {
  requests = [];
  active_by_device = [];
  tombstone_ttl_ms = elim ttl [ none ↦ 600_000 | some t ↦ t ];
  max_entries = elim max [ none ↦ 1_000 | some n ↦ n ];
}

abbrev pub Call : Type 0
Call = RequestStore × Result RequestStoreErrorCode VoiceRequestRecord

pub collect_garbage : ℕ → RequestStore → RequestStore
collect_garbage now s =
    let swept = sweep s.tombstone_ttl_ms now s.requests s.requests in
    record s { requests = evict s.max_entries swept swept }

-- The record that `create` stores.
pub new_record : NewRequest → ℕ → VoiceRequestRecord
new_record input created = record {
  input = input;
  status = accepted;
  created_at = created;
  terminal_at = none;
  audio_id = none;
  audio_path = none;
  audio_url = none;
  expires_at = none;
  playback_state = PlaybackState.waiting;
  error_code = none;
}

-- The part of `create` between its two collections.
pub admit : NewRequest → ℕ → RequestStore → Call
unfolding contains new_record
admit input created s =
    if contains input.device_id s.active_by_device
    then (s, err device_busy)
    else if contains input.request_id s.requests
    then (s, err invalid_request_state)
    else (
      record s {
        requests = insert input.request_id (new_record input created) s.requests;
        active_by_device = insert input.device_id input.request_id s.active_by_device;
      },
      ok (new_record input created),
    )

-- A throw leaves before the second collection.
after_admit : ℕ → Call → Call
after_admit now (s, ok r) = (collect_garbage now s, ok r)
after_admit now (s, err e) = (s, err e)

-- `create`: the clock is read for each collection and for the record.
pub create : NewRequest → ℕ → ℕ → ℕ → RequestStore → Call
unfolding after_admit
create input first created last s = after_admit last (admit input created (collect_garbage first s))

pub get : ℕ → RequestStore → Option VoiceRequestRecord
get id s = lookup id s.requests

-- An id that is the empty text is falsy.
active_record : Option ℕ → RequestStore → Option VoiceRequestRecord
active_record none s = none
active_record (some id) s = if id == 0 then none else lookup id s.requests

pub get_active_for_device : ℕ → RequestStore → Option VoiceRequestRecord
unfolding active_record
get_active_for_device device s = active_record (lookup device s.active_by_device) s

-- `#require`, and what a method does with the record it returns.
unfoldable pub with_record : ℕ → (VoiceRequestRecord → RequestStore → Call) → RequestStore → Call
with_record id f s = elim (lookup id s.requests) [
  | none ↦ (s, err request_not_found)
  | some r ↦ f r s
]

-- The record is mutated in place: the entry under its key changes.
abbrev pub write : ℕ → VoiceRequestRecord → RequestStore → RequestStore
write id r s = record s { requests = insert id r s.requests }

-- `#release`
pub release : VoiceRequestRecord → RequestStore → RequestStore
release r s = elim (lookup r.device_id s.active_by_device) [
  | none ↦ s
  | some id ↦
      if id == r.request_id
      then record s { active_by_device = erase r.device_id s.active_by_device }
      else s
]

unfoldable pub set_status_of : PendingStatus → VoiceRequestRecord → RequestStore → Call
set_status_of status r s =
    let r' = record r { status = pending status } in
    if is_terminal r.status
    then (s, err invalid_request_state)
    else (write r.request_id r' s, ok r')

unfoldable pub set_status : ℕ → PendingStatus → RequestStore → Call
unfolding set_status_of with_record
set_status id status = with_record id (set_status_of status)

-- `Object.assign(record, output, { status: "audio_ready" })`
unfoldable pub ready_record : AudioOutput → VoiceRequestRecord → VoiceRequestRecord
ready_record output r = record r {
  audio_id = some output.audio_id;
  audio_path = some output.audio_path;
  audio_url = some output.audio_url;
  expires_at = some output.expires_at;
  status = audio_ready;
}

mark_ready_of : AudioOutput → VoiceRequestRecord → RequestStore → Call
unfolding ready_record
mark_ready_of output r s =
    let r' = ready_record output r in
    if is_processing r.status
    then (write r.request_id r' s, ok r')
    else (s, err invalid_request_state)

pub mark_audio_ready : ℕ → AudioOutput → RequestStore → Call
unfolding mark_ready_of with_record
mark_audio_ready id output = with_record id (mark_ready_of output)

-- The end of `complete`, `fail` and `expire`: `r'` is the record with its last fields assigned.
finish : VoiceRequestRecord → VoiceRequestRecord → RequestStore → Call
unfolding release
finish r r' s =
    if is_terminal r.status then (s, ok r) else (release r' (write r.request_id r' s), ok r')

pub completed_record : ℕ → VoiceRequestRecord → VoiceRequestRecord
completed_record now r = record r {
  status = completed;
  playback_state = PlaybackState.done;
  terminal_at = some now;
}

complete_of : ℕ → VoiceRequestRecord → RequestStore → Call
unfolding finish completed_record
complete_of now r s =
    if same_status r.status completed then (s, ok r) else finish r (completed_record now r) s

pub complete : ℕ → ℕ → RequestStore → Call
unfolding complete_of with_record
complete id now = with_record id (complete_of now)

same_error : Option ℕ → ℕ → Bool
same_error none code = false
same_error (some c) code = c == code

pub failed_record : ℕ → ℕ → VoiceRequestRecord → VoiceRequestRecord
failed_record code now r = record r {
  status = failed;
  playback_state = PlaybackState.failed;
  error_code = some code;
  terminal_at = some now;
}

fail_of : ℕ → ℕ → VoiceRequestRecord → RequestStore → Call
unfolding finish failed_record same_error
fail_of code now r s =
    if same_status r.status failed && same_error r.error_code code
    then (s, ok r)
    else finish r (failed_record code now r) s

pub fail : ℕ → ℕ → ℕ → RequestStore → Call
unfolding fail_of with_record
fail id code now = with_record id (fail_of code now)

pub expired_record : ℕ → VoiceRequestRecord → VoiceRequestRecord
expired_record now r = record r {
  status = expired;
  playback_state = PlaybackState.failed;
  error_code = some audio_expired;
  terminal_at = some now;
}

expire_of : ℕ → VoiceRequestRecord → RequestStore → Call
unfolding finish expired_record
expire_of now r s =
    if same_status r.status expired then (s, ok r) else finish r (expired_record now r) s

pub expire : ℕ → ℕ → RequestStore → Call
unfolding expire_of with_record
expire id now = with_record id (expire_of now)

-- `getByAudioId`: the first record of the map with that audio.
pub get_by_audio_id : ℕ → Dict VoiceRequestRecord → Option VoiceRequestRecord
get_by_audio_id audio [] = none
get_by_audio_id audio ((k, r) ∷ m) =
    let rest = get_by_audio_id audio m in
    elim r.audio_id [ none ↦ rest | some a ↦ if a == audio then some r else rest ]

-- The test of `expireReadyBefore`.
pub is_overdue : ℕ → VoiceRequestRecord → Bool
is_overdue cut r =
    same_status r.status audio_ready && elim r.expires_at [ none ↦ false | some t ↦ leb t cut ]

abbrev pub Expired : Type 0
Expired = RequestStore × Result RequestStoreErrorCode (List VoiceRequestRecord)

-- A throw of `expire` ends the loop.
or_throw : Call → (VoiceRequestRecord → RequestStore → Expired) → Expired
or_throw (s, ok r) next = next r s
or_throw (s, err e) next = (s, err e)

-- The loop of `expireReadyBefore` over the entries of the map; `clock i` is the reading that the
-- i-th `expire` makes.
pub expire_each :
    ℕ → (ℕ → ℕ) → ℕ → Dict VoiceRequestRecord → List VoiceRequestRecord → RequestStore → Expired
unfolding or_throw
expire_each cut clock i [] out s = (s, ok out)
expire_each cut clock i ((k, r) ∷ m) out s = elim (is_overdue cut r) [
  | false ↦ expire_each cut clock i m out s
  | true ↦
      or_throw (expire r.request_id (clock i) s)
        (λ r' s'. expire_each cut clock (suc i) m (out ++ r' ∷ []) s')
]

pub expire_ready_before : ℕ → (ℕ → ℕ) → RequestStore → Expired
unfolding expire_each
expire_ready_before cut clock s = expire_each cut clock 0 s.requests [] s

-- A call with its arguments and the readings of the clock.
pub data Op : Type 0 where
  creates : NewRequest → ℕ → ℕ → ℕ → Op
  sets : ℕ → PendingStatus → Op
  readies : ℕ → AudioOutput → Op
  completes : ℕ → ℕ → Op
  fails : ℕ → ℕ → ℕ → Op
  expires : ℕ → ℕ → Op
  expires_ready : ℕ → (ℕ → ℕ) → Op
  collects : ℕ → Op

pub step : Op → RequestStore → RequestStore
step (creates input first created last) s = (create input first created last s).0
step (sets id status) s = (set_status id status s).0
step (readies id output) s = (mark_audio_ready id output s).0
step (completes id now) s = (complete id now s).0
step (fails id code now) s = (fail id code now s).0
step (expires id now) s = (expire id now s).0
step (expires_ready cut clock) s = (expire_ready_before cut clock s).0
step (collects now) s = collect_garbage now s

pub run : List Op → RequestStore → RequestStore
run [] s = s
run (o ∷ os) s = run os (step o s)
