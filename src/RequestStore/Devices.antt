-- ===== src/RequestStore/Devices.antt =====
-- The device side: one live request at a time, and a device is free again when it ends.
use backend_bmo_blabs.Base.{
  ℕ, ◌≡◌, ◌≢◌, refl, sym, subst, ◌∙◌, ap, true, false, Option, none, some, List, ok, err, arith,
}
use backend_bmo_blabs.Base.Dict.{lookup, contains, lookup-insert, lookup-erase}
use backend_bmo_blabs.RequestStore.Record.{
  VoiceRequestRecord, NewRequest, is_terminal, same_status, device_busy, invalid_request_state,
  completed, failed, expired,
}
use backend_bmo_blabs.RequestStore.Invariant.{Inv, release-write, new_store-Inv, admit_fresh_Inv}
use backend_bmo_blabs.RequestStore.Calls.{run-Inv, collect_garbage-Inv}
use backend_bmo_blabs.RequestStore.Retention.{collect_keeps_live}
use backend_bmo_blabs.RequestStore.{
  Call, fail, fail_of, failed_record, expire, expire_of, expired_record, RequestStore, Op, run,
  new_store, admit, create, collect_garbage, after_admit, new_record, complete, with_record,
  complete_of, finish, completed_record, active_record, get_active_for_device,
}

-- Whatever calls are made on a new store, no two requests of one device are live at once.
pub one_live_request :
    (ttl max : Option ℕ) (os : List Op) (j k : ℕ) (q r : VoiceRequestRecord)
    → lookup j (run os (new_store ttl max)).requests ≡ some q
    → lookup k (run os (new_store ttl max)).requests ≡ some r
    → is_terminal q.status ≡ false
    → is_terminal r.status ≡ false
    → q.device_id ≡ r.device_id
    → j ≡ k
one_live_request ttl max os j k q r at_j at_k live_q live_r same =
    let v = run-Inv os (new_store ttl max) (new_store-Inv ttl max) in
    ground (arith, v.entry j q at_j, v.entry k r at_k)

-- What ending the live request `r` as `r'` does: the record and the answer are `r'`, its device has
-- no active request, and every other device keeps its own.
abbrev pub Ends : VoiceRequestRecord → VoiceRequestRecord → RequestStore → Call → Type 0
Ends r r' s (s', answer) =
    (answer ≡ ok r')
    × (lookup r.request_id s'.requests ≡ some r')
    × (is_terminal r'.status ≡ true)
    × (lookup r.device_id s'.active_by_device ≡ none)
    × ((d : ℕ) → d ≢ r.device_id → lookup d s'.active_by_device ≡ lookup d s.active_by_device)

module _ (s : RequestStore) (r : VoiceRequestRecord) (v : Inv s)
    (at : lookup r.request_id s.requests ≡ some r) (going : is_terminal r.status ≡ false) where
  finish-Ends :
      (r' : VoiceRequestRecord)
      → r'.input ≡ r.input
      → is_terminal r'.status ≡ true
      → Ends r r' s (finish r r' s)
  unfolding finish
  finish-Ends r' same after =
      let freed = release-write s v r.request_id r r' at same going in
      rw (going, freed)
        (
          refl,
          rw (lookup-insert r.request_id r.request_id r' s.requests) (ground arith),
          after,
          rw (lookup-erase r.device_id r.device_id s.active_by_device) (ground arith),
          λ d other. rw (lookup-erase d r.device_id s.active_by_device) (ground arith),
        )

  with_found : (f : VoiceRequestRecord → RequestStore → Call) → with_record r.request_id f s ≡ f r s
  unfolding with_record
  with_found f = rw (at, with_record) refl

  open_status :
      (is_terminal r.status ≡ false)
      → (same_status r.status completed ≡ false)
        × (same_status r.status failed ≡ false)
        × (same_status r.status expired ≡ false)
  open_status h = ground arith

  -- Completing, failing or expiring a live request stores and returns the record with its end,
  -- makes its device free, and leaves the other devices' active requests alone.
  pub ending_frees_device :
      (now code : ℕ)
      → Ends r (completed_record now r) s (complete r.request_id now s)
        × Ends r (failed_record code now r) s (fail r.request_id code now s)
        × Ends r (expired_record now r) s (expire r.request_id now s)
  unfolding complete complete_of fail fail_of expire expire_of completed_record failed_record
      expired_record
  ending_frees_device now code =
      let (c, f, e) = open_status going in
      let completing : complete_of now r s ≡ finish r (completed_record now r) s = rw c refl in
      let failing : fail_of code now r s ≡ finish r (failed_record code now r) s = rw f refl in
      let expiring : expire_of now r s ≡ finish r (expired_record now r) s = rw e refl in
      (
        subst (Ends r (completed_record now r) s) (sym (with_found (complete_of now) ∙ completing))
            (finish-Ends (completed_record now r) refl refl),
        subst (Ends r (failed_record code now r) s) (sym (with_found (fail_of code now) ∙ failing))
            (finish-Ends (failed_record code now r) refl refl),
        subst (Ends r (expired_record now r) s) (sym (with_found (expire_of now) ∙ expiring))
            (finish-Ends (expired_record now r) refl refl),
      )

new_open :
    (input : NewRequest) (created : ℕ) → is_terminal (new_record input created).status ≡ false
unfolding new_record
new_open input created = refl

active_kept :
    (last : ℕ) (u : RequestStore) (d k : ℕ) (r : VoiceRequestRecord)
    → lookup d u.active_by_device ≡ some k
    → k ≢ 0
    → lookup k (collect_garbage last u).requests ≡ some r
    → get_active_for_device d (collect_garbage last u) ≡ some r
unfolding get_active_for_device active_record collect_garbage
active_kept last u d k r active named kept = rw (active, active_record) (ground arith)

module _ (input : NewRequest) (created last : ℕ) (t : RequestStore) where
  admit_busy :
      (d : ℕ)
      → lookup input.device_id t.active_by_device ≡ some d
      → after_admit last (admit input created t) ≡ (t, err device_busy)
  unfolding admit after_admit contains
  admit_busy d busy =
      let refused : admit input created t ≡ (t, err device_busy) = rw busy refl in
      ap (after_admit last) refused

  admit_taken :
      (r : VoiceRequestRecord)
      → lookup input.device_id t.active_by_device ≡ none
      → lookup input.request_id t.requests ≡ some r
      → after_admit last (admit input created t) ≡ (t, err invalid_request_state)
  unfolding admit after_admit contains
  admit_taken r idle dup =
      let refused : admit input created t ≡ (t, err invalid_request_state) = rw (idle, dup) refl in
      ap (after_admit last) refused

  admit_new :
      Inv t
      → input.request_id ≢ 0
      → lookup input.device_id t.active_by_device ≡ none
      → lookup input.request_id t.requests ≡ none
      → let (s', answer) = after_admit last (admit input created t) in
        (answer ≡ ok (new_record input created))
        × (get_active_for_device input.device_id s' ≡ some (new_record input created))
  unfolding after_admit get_active_for_device
  admit_new v named idle fresh =
      let (u, made, w, stored, active) = admit_fresh_Inv input created t v idle fresh in
      rw made (
        refl,
        active_kept last u input.device_id input.request_id _ active named
            (collect_keeps_live last u input.request_id _ w stored (new_open input created)),
      )

-- `create`, after its first collection, refuses a device that has a live request, then an id that
-- is still stored; in both cases nothing else changes. Otherwise it returns the new record, which
-- outlives the last collection and is the device's active request (for an id that is not empty).
pub create_cases :
    (input : NewRequest) (first created last : ℕ) (s : RequestStore)
    → Inv s
    → input.request_id ≢ 0
    → let t = collect_garbage first s in
      let made = create input first created last s in
      ((d : ℕ) → lookup input.device_id t.active_by_device ≡ some d → made ≡ (t, err device_busy))
      × ((r : VoiceRequestRecord)
          → lookup input.device_id t.active_by_device ≡ none
          → lookup input.request_id t.requests ≡ some r
          → made ≡ (t, err invalid_request_state))
      × (lookup input.device_id t.active_by_device ≡ none
          → lookup input.request_id t.requests ≡ none
          → (made.1 ≡ ok (new_record input created))
            × (get_active_for_device input.device_id made.0 ≡ some (new_record input created)))
unfolding create
create_cases input first created last s v named =
    let t = collect_garbage first s in
    (
      admit_busy input created last t,
      admit_taken input created last t,
      admit_new input created last t (collect_garbage-Inv first s v) named,
    )
