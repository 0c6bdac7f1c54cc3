-- ===== src/RequestStore/Tests.antt =====
-- Runs of the store, and the theorems at concrete calls.
use backend_bmo_blabs.Base.{
  ℕ, ◌+◌, ◌≡◌, refl, ◌⊎◌, ◌<◌, ◌≤◌, false, none, some, [], ◌∷◌, length, arith, List, err, ok,
}
use backend_bmo_blabs.Base.Dict.{lookup, insert, erase, contains}
use backend_bmo_blabs.RequestStore.Record.{NewRequest, VoiceRequestRecord, is_terminal, device_busy}
use backend_bmo_blabs.RequestStore.Collect.{sweep, evict, oldest_terminal}
use backend_bmo_blabs.RequestStore.Invariant.{Inv, new_store-Inv}
use backend_bmo_blabs.RequestStore.Calls.{run-Inv}
use backend_bmo_blabs.RequestStore.Lifecycle.{Keeps, HasEnded, step-Keeps}
use backend_bmo_blabs.RequestStore.Retention.{
  collect_keeps_live, collect_bounds, collect_deletes_oldest,
}
use backend_bmo_blabs.RequestStore.Devices.{
  one_live_request, Ends, ending_frees_device, create_cases,
}
use backend_bmo_blabs.RequestStore.{
  RequestStore, Op, creates, completes, step, run, new_store, create, complete, fail, expire,
  collect_garbage, new_record, completed_record, failed_record, expired_record,
  get_active_for_device, admit, invalid_request_state,
}

abbrev first_request : NewRequest
first_request = record {
  request_id = 7;
  device_id = 1;
  input_path = 70;
  input_sha256 = 71;
  input_content_length = 44;
}

abbrev second_request : NewRequest
second_request = record {
  request_id = 8;
  device_id = 2;
  input_path = 80;
  input_sha256 = 81;
  input_content_length = 48;
}

-- Two devices; the request of the first has been completed. The store keeps one record.
abbrev calls : List Op
calls = creates first_request 0 0 0 ∷ creates second_request 5 5 5 ∷ completes 7 10 ∷ []

abbrev empty_store : RequestStore
empty_store = new_store (some 100) (some 1)

served : RequestStore
unfolding run step new_store create complete collect_garbage sweep evict oldest_terminal lookup
    insert erase contains admit
served = run calls empty_store

served-Inv : Inv served
unfolding served
served-Inv = run-Inv calls empty_store (new_store-Inv (some 100) (some 1))

served_first : lookup 7 served.requests ≡ some (completed_record 10 (new_record first_request 0))
unfolding served completed_record new_record
served_first = refl

served_second : lookup 8 served.requests ≡ some (new_record second_request 5)
unfolding served new_record
served_second = refl

served_collected : length (collect_garbage 11 served).requests ≡ 1
unfolding served
served_collected = refl

served_gone : lookup 7 (collect_garbage 11 served).requests ≡ none
unfolding served
served_gone = refl

run-Inv_example : Inv (run calls empty_store)
run-Inv_example = run-Inv calls empty_store (new_store-Inv (some 100) (some 1))

second_open : is_terminal (new_record second_request 5).status ≡ false
unfolding new_record
second_open = refl

one_live_request_example : ◌≡◌ {A = ℕ} 8 8
unfolding served
one_live_request_example =
    one_live_request (some 100) (some 1) calls 8 8 (new_record second_request 5)
      (new_record second_request 5) served_second served_second second_open second_open refl

first_ended : HasEnded 7 served
unfolding completed_record
first_ended r e = ground (arith, served_first)

step-Keeps_example : Keeps 7 served (step (completes 7 30) served)
step-Keeps_example = step-Keeps (completes 7 30) served 7 served-Inv first_ended tt

collect_keeps_live_example :
    lookup 8 (collect_garbage 11 served).requests ≡ some (new_record second_request 5)
collect_keeps_live_example =
    collect_keeps_live 11 served 8 (new_record second_request 5) served-Inv served_second
      second_open

collect_bounds_example :
    (length (collect_garbage 11 served).requests ≤ served.max_entries)
    ⊎ ((k : ℕ) (r : VoiceRequestRecord)
        → lookup k (collect_garbage 11 served).requests ≡ some r
        → is_terminal r.status ≡ false)
collect_bounds_example = collect_bounds 11 served served-Inv

ending_frees_device_example :
    let r = new_record second_request 5 in
    Ends r (completed_record 20 r) served (complete 8 20 served)
    × Ends r (failed_record 3 20 r) served (fail 8 3 20 served)
    × Ends r (expired_record 20 r) served (expire 8 20 served)
unfolding new_record
ending_frees_device_example =
    ending_frees_device served (new_record second_request 5) served-Inv served_second refl 20 3

-- Two requests have ended; the older one makes room.
abbrev more_calls : List Op
more_calls =
    creates first_request 0 0 0
    ∷ creates second_request 5 5 5
    ∷ completes 7 10
    ∷ completes 8 12
    ∷ []

crowded : RequestStore
unfolding run step new_store create complete collect_garbage sweep evict oldest_terminal lookup
    insert erase contains admit
crowded = run more_calls empty_store

crowded-Inv : Inv crowded
unfolding crowded
crowded-Inv = run-Inv more_calls empty_store (new_store-Inv (some 100) (some 1))

collect_deletes_oldest_example : (10 + 100 < 20) ⊎ (10 ≤ 12)
unfolding crowded completed_record new_record
collect_deletes_oldest_example =
    collect_deletes_oldest 20 crowded 7 8 10 12 (completed_record 10 (new_record first_request 0))
      (completed_record 12 (new_record second_request 5)) crowded-Inv refl refl refl refl refl

create_cases_example :
    let t = collect_garbage 40 served in
    let made = create first_request 40 40 40 served in
    ((d : ℕ) → lookup 1 t.active_by_device ≡ some d → made ≡ (t, err device_busy))
    × ((r : VoiceRequestRecord)
        → lookup 1 t.active_by_device ≡ none
        → lookup 7 t.requests ≡ some r
        → made ≡ (t, err invalid_request_state))
    × (lookup 1 t.active_by_device ≡ none
        → lookup 7 t.requests ≡ none
        → (made.1 ≡ ok (new_record first_request 40))
          × (get_active_for_device 1 made.0 ≡ some (new_record first_request 40)))
create_cases_example = create_cases first_request 40 40 40 served served-Inv (omega arith)
