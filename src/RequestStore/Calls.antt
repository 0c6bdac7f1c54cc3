-- ===== src/RequestStore/Calls.antt =====
-- Every call keeps the invariant, so it holds after any history.
use backend_bmo_blabs.Base.{
  ℕ, suc, ◌≡◌, refl, sym, subst, inl, inr, Bool, true, false, none, some, List, [], ◌∷◌, ◌++◌,
  Result, ok, err, is_some, if◌then◌else◌, arith, Bool-cases, Option-cases,
}
use backend_bmo_blabs.Base.Dict.{Dict, lookup, IsMap}
use backend_bmo_blabs.RequestStore.Record.{
  RequestStatus, PendingStatus, pending, VoiceRequestRecord, NewRequest, AudioOutput, is_terminal,
  is_processing,
}
use backend_bmo_blabs.RequestStore.Collect.{sweep}
use backend_bmo_blabs.RequestStore.Collect.Sweep.{Trims, Trims-trans, sweep-IsMap, sweep-Trims}
use backend_bmo_blabs.RequestStore.Collect.Evict.{Keyed, evict-IsMap, evict-Trims}
use backend_bmo_blabs.RequestStore.Invariant.{Inv, write-Inv, close-Inv, admit-Inv}
use backend_bmo_blabs.RequestStore.{
  RequestStore, Op, creates, sets, readies, completes, fails, expires, expires_ready, collects,
  step, run, Call, Expired, or_throw, with_record, set_status_of, mark_ready_of, complete_of,
  fail_of, expire_of, completed_record, failed_record, expired_record, collect_garbage, after_admit,
  create, set_status, mark_audio_ready, finish, complete, fail, expire, is_overdue, expire_each,
  expire_ready_before,
}

Trims-Inv :
    (s : RequestStore) (m : Dict VoiceRequestRecord)
    → Inv s
    → IsMap m
    → Trims s.requests m
    → Inv (record s { requests = m })
Trims-Inv s m v u trims = record {
  unique = u;
  entry = λ k r e. ground (arith, trims k, v.entry k r);
  live = λ d k e.
      let (r, at, own, going) = v.live d k e in
      (r, ground (arith, trims k, v.entry k r at), own, going);
}

pub Trims-Keyed :
    (s : RequestStore) (m : Dict VoiceRequestRecord) → Inv s → Trims s.requests m → Keyed m
Trims-Keyed s m v trims k r e = ground (arith, trims k, v.entry k r)

pub collect_garbage-IsMap :
    (now : ℕ) (s : RequestStore) → Inv s → IsMap (collect_garbage now s).requests
unfolding collect_garbage
collect_garbage-IsMap now s v =
    evict-IsMap s.max_entries _ _
      (sweep-IsMap s.tombstone_ttl_ms now s.requests s.requests v.unique)

pub collect_garbage-Trims :
    (now : ℕ) (s : RequestStore) → Inv s → Trims s.requests (collect_garbage now s).requests
unfolding collect_garbage
collect_garbage-Trims now s v =
    let swept = sweep s.tombstone_ttl_ms now s.requests s.requests in
    let less = sweep-Trims s.tombstone_ttl_ms now s.requests v.unique in
    Trims-trans s.requests swept _ less (
      evict-Trims s.max_entries swept swept
        (sweep-IsMap s.tombstone_ttl_ms now s.requests s.requests v.unique)
        (Trims-Keyed s swept v less))

pub collect_garbage-Inv : (now : ℕ) (s : RequestStore) → Inv s → Inv (collect_garbage now s)
unfolding collect_garbage
collect_garbage-Inv now s v =
    Trims-Inv s _ v (collect_garbage-IsMap now s v) (collect_garbage-Trims now s v)

after_admit-Inv :
    (last : ℕ) (c : RequestStore × Result _ VoiceRequestRecord)
    → Inv c.0
    → Inv (after_admit last c).0
unfolding after_admit
after_admit-Inv last (s, ok r) v = collect_garbage-Inv last s v
after_admit-Inv last (s, err e) v = v

pub create-Inv :
    (input : NewRequest) (first created last : ℕ) (s : RequestStore)
    → Inv s
    → Inv (create input first created last s).0
unfolding create
create-Inv input first created last s v =
    after_admit-Inv last _ (admit-Inv input created _ (collect_garbage-Inv first s v))

pending_open : (status : PendingStatus) → is_terminal (pending status) ≡ false
pending_open status = ground arith

processing_open :
    (status : RequestStatus) → is_processing status ≡ true → is_terminal status ≡ false
processing_open status h = ground arith

if-Inv : (b : Bool) (x y : Call) → Inv x.0 → Inv y.0 → Inv (if b then x else y).0
if-Inv true x y p q = p
if-Inv false x y p q = q

module _ (s : RequestStore) (v : Inv s) (id : ℕ) where
  with_record-Inv :
      (f : VoiceRequestRecord → RequestStore → Call)
      → ((r : VoiceRequestRecord) → lookup r.request_id s.requests ≡ some r → Inv (f r s).0)
      → Inv (with_record id f s).0
  unfolding with_record
  with_record-Inv f h = elim (Option-cases (lookup id s.requests)) [
    | inl missing ↦ rw (missing, with_record) v
    | inr (r, at) ↦
        rw (at, with_record)
          (h r (subst (λ k. lookup k s.requests ≡ some r) (sym (v.entry id r at).keyed) at))
  ]

module _ (s : RequestStore) (v : Inv s) (r : VoiceRequestRecord)
    (at : lookup r.request_id s.requests ≡ some r) where
  -- A record that has not ended has no time of its end.
  unstamped : is_terminal r.status ≡ false → r.terminal_at ≡ none
  unstamped going = ground (arith, v.entry r.request_id r at)

  set_status_of-Inv : (status : PendingStatus) → Inv (set_status_of status r s).0
  unfolding set_status_of
  set_status_of-Inv status = elim (Bool-cases (is_terminal r.status)) [
    | inl ended ↦ rw ended v
    | inr going ↦
        rw going
          (write-Inv s v r.request_id r _ at refl going (pending_open status) (unstamped going))
  ]

  mark_ready_of-Inv : (output : AudioOutput) → Inv (mark_ready_of output r s).0
  unfolding mark_ready_of
  mark_ready_of-Inv output = elim (Bool-cases (is_processing r.status)) [
    | inr late ↦ rw late v
    | inl early ↦
        let going = processing_open r.status early in
        rw early (write-Inv s v r.request_id r _ at refl going refl (unstamped going))
  ]

  finish-Inv :
      (r' : VoiceRequestRecord)
      → r'.input ≡ r.input
      → is_terminal r'.status ≡ true
      → is_some r'.terminal_at ≡ true
      → Inv (finish r r' s).0
  unfolding finish
  finish-Inv r' same after stamp = elim (Bool-cases (is_terminal r.status)) [
    | inl ended ↦ rw ended v
    | inr going ↦ rw going (close-Inv s v r.request_id r r' at same going after stamp)
  ]

  complete_of-Inv : (now : ℕ) → Inv (complete_of now r s).0
  unfolding complete_of completed_record
  complete_of-Inv now = if-Inv _ (s, ok r) _ v (finish-Inv (completed_record now r) refl refl refl)

  fail_of-Inv : (code now : ℕ) → Inv (fail_of code now r s).0
  unfolding fail_of failed_record
  fail_of-Inv code now =
      if-Inv _ (s, ok r) _ v (finish-Inv (failed_record code now r) refl refl refl)

  expire_of-Inv : (now : ℕ) → Inv (expire_of now r s).0
  unfolding expire_of expired_record
  expire_of-Inv now = if-Inv _ (s, ok r) _ v (finish-Inv (expired_record now r) refl refl refl)

pub expire-Inv : (s : RequestStore) (id now : ℕ) → Inv s → Inv (expire id now s).0
unfolding expire
expire-Inv s id now v = with_record-Inv s v id (expire_of now) (λ r at. expire_of-Inv s v r at now)

or_throw-Inv :
    (c : Call) (next : VoiceRequestRecord → RequestStore → Expired)
    → Inv c.0
    → ((r : VoiceRequestRecord) (s : RequestStore) → Inv s → Inv (next r s).0)
    → Inv (or_throw c next).0
unfolding or_throw
or_throw-Inv (s, ok r) next v h = h r s v
or_throw-Inv (s, err e) next v h = v

pub expire_each-Inv :
    (cut : ℕ) (clock : ℕ → ℕ) (i : ℕ) (m : Dict VoiceRequestRecord) (out : List VoiceRequestRecord)
    (s : RequestStore)
    → Inv s
    → Inv (expire_each cut clock i m out s).0
unfolding expire_each
expire_each-Inv cut clock i [] out s v = v
expire_each-Inv cut clock i ((k, r) ∷ m) out s v = elim (Bool-cases (is_overdue cut r)) [
  | inr fine ↦ rw (fine, expire_each) (expire_each-Inv cut clock i m out s v)
  | inl late ↦
      rw (late, expire_each)
        (or_throw-Inv (expire r.request_id (clock i) s) _ (expire-Inv s r.request_id (clock i) v)
          (λ r' s' v'. expire_each-Inv cut clock (suc i) m (out ++ r' ∷ []) s' v'))
]

pub step-Inv : (o : Op) (s : RequestStore) → Inv s → Inv (step o s)
unfolding step set_status mark_audio_ready complete fail expire_ready_before
step-Inv (creates input first created last) s v = create-Inv input first created last s v
step-Inv (sets id status) s v =
    with_record-Inv s v id (set_status_of status) (λ r at. set_status_of-Inv s v r at status)
step-Inv (readies id output) s v =
    with_record-Inv s v id (mark_ready_of output) (λ r at. mark_ready_of-Inv s v r at output)
step-Inv (completes id now) s v =
    with_record-Inv s v id (complete_of now) (λ r at. complete_of-Inv s v r at now)
step-Inv (fails id code now) s v =
    with_record-Inv s v id (fail_of code now) (λ r at. fail_of-Inv s v r at code now)
step-Inv (expires id now) s v = expire-Inv s id now v
step-Inv (expires_ready cut clock) s v = expire_each-Inv cut clock 0 s.requests [] s v
step-Inv (collects now) s v = collect_garbage-Inv now s v

pub run-Inv : (os : List Op) (s : RequestStore) → Inv s → Inv (run os s)
unfolding run
run-Inv [] s v = v
run-Inv (o ∷ os) s v = run-Inv os (step o s) (step-Inv o s v)
