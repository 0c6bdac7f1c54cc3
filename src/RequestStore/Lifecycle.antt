-- ===== src/RequestStore/Lifecycle.antt =====
-- A request that has ended is never changed again.
use backend_bmo_blabs.Base.{
  ℕ, suc, ◌≡◌, ◌≢◌, refl, sym, subst, ◌⊎◌, inl, inr, Bool, true, false, none, some, List, [], ◌∷◌,
  ◌++◌, ok, err, if◌then◌else◌, arith, Bool-cases, Option-cases,
}
use backend_bmo_blabs.Base.Dict.{Dict, lookup, lookup-insert, contains}
use backend_bmo_blabs.RequestStore.Record.{
  PendingStatus, pending, VoiceRequestRecord, NewRequest, AudioOutput, is_terminal,
}
use backend_bmo_blabs.RequestStore.Invariant.{Inv, admit-Inv}
use backend_bmo_blabs.RequestStore.Calls.{expire-Inv, collect_garbage-Inv, collect_garbage-Trims}
use backend_bmo_blabs.RequestStore.{
  RequestStore, Op, creates, sets, readies, completes, fails, expires, expires_ready, collects,
  step, Call, Expired, or_throw, with_record, set_status_of, mark_ready_of, complete_of, fail_of,
  expire_of, collect_garbage, after_admit, create, admit, set_status, mark_audio_ready, finish,
  complete, fail, expire, release, write, is_overdue, expire_each, expire_ready_before,
  ready_record, new_record,
}

-- If a record is stored under this key, it has ended.
abbrev pub HasEnded : ℕ → RequestStore → Type 0
HasEnded id s =
    (r : VoiceRequestRecord) → lookup id s.requests ≡ some r → is_terminal r.status ≡ true

-- The record under this key is what it was, or is gone.
abbrev pub Keeps : ℕ → RequestStore → RequestStore → Type 0
Keeps id s s' = (lookup id s'.requests ≡ lookup id s.requests) ⊎ (lookup id s'.requests ≡ none)

Keeps-trans : (id : ℕ) (a b c : RequestStore) → Keeps id a b → Keeps id b c → Keeps id a c
Keeps-trans id a b c p q = ground arith

Keeps-HasEnded : (id : ℕ) (s s' : RequestStore) → HasEnded id s → Keeps id s s' → HasEnded id s'
Keeps-HasEnded id s s' h k r e = ground (arith, h r)

release-requests : (r : VoiceRequestRecord) (s : RequestStore) → (release r s).requests ≡ s.requests
unfolding release
release-requests r s = ground arith

module _ (id : ℕ) (s : RequestStore) (ended : HasEnded id s) where
  module _ (r : VoiceRequestRecord) (at : lookup r.request_id s.requests ≡ some r) where
    write-Keeps :
        (r' : VoiceRequestRecord)
        → is_terminal r.status ≡ false
        → lookup id (write r.request_id r' s).requests ≡ lookup id s.requests
    write-Keeps r' going = ground (arith, lookup-insert id r.request_id r' s.requests, ended r)

    finish-Keeps : (r' : VoiceRequestRecord) → Keeps id s (finish r r' s).0
    unfolding finish
    finish-Keeps r' = elim (Bool-cases (is_terminal r.status)) [
      | inl done ↦ rw done (inl refl)
      | inr going ↦
          rw (going, release-requests r' (write r.request_id r' s)) (inl (write-Keeps r' going))
    ]

    if-Keeps : (b : Bool) (c : Call) → Keeps id s c.0 → Keeps id s (if b then (s, ok r) else c).0
    if-Keeps true c k = inl refl
    if-Keeps false c k = k

    set_status_of-Keeps : (status : PendingStatus) → Keeps id s (set_status_of status r s).0
    unfolding set_status_of
    set_status_of-Keeps status = ground (arith, write-Keeps (record r { status = pending status }))

    mark_ready_of-Keeps : (output : AudioOutput) → Keeps id s (mark_ready_of output r s).0
    unfolding mark_ready_of
    mark_ready_of-Keeps output = ground (arith, write-Keeps (ready_record output r))

  with_record-Keeps :
      (v : Inv s) (k : ℕ) (f : VoiceRequestRecord → RequestStore → Call)
      → ((r : VoiceRequestRecord) → lookup r.request_id s.requests ≡ some r → Keeps id s (f r s).0)
      → Keeps id s (with_record k f s).0
  unfolding with_record
  with_record-Keeps v k f h = elim (Option-cases (lookup k s.requests)) [
    | inl missing ↦ rw (missing, with_record) (inl refl)
    | inr (r, at) ↦
        rw (at, with_record)
          (h r (subst (λ i. lookup i s.requests ≡ some r) (sym (v.entry k r at).keyed) at))
  ]

  expire-Keeps : (v : Inv s) (k now : ℕ) → Keeps id s (expire k now s).0
  unfolding expire expire_of
  expire-Keeps v k now =
      with_record-Keeps v k (expire_of now) (λ r at. if-Keeps r at _ _ (finish-Keeps r at _))

  admit-Keeps :
      (input : NewRequest) (created : ℕ)
      → input.request_id ≢ id
      → Keeps id s (admit input created s).0
  unfolding admit contains
  admit-Keeps input created other =
      ground (arith, lookup-insert id input.request_id (new_record input created) s.requests)

or_throw-Keeps :
    (id : ℕ) (s : RequestStore) (c : Call) (next : VoiceRequestRecord → RequestStore → Expired)
    → Keeps id s c.0
    → ((r : VoiceRequestRecord) → Keeps id c.0 (next r c.0).0)
    → Keeps id s (or_throw c next).0
unfolding or_throw
or_throw-Keeps id s (t, ok r) next k h = Keeps-trans id s t (next r t).0 k (h r)
or_throw-Keeps id s (t, err e) next k h = k

expire_each-Keeps :
    (id cut : ℕ) (clock : ℕ → ℕ) (i : ℕ) (m : Dict VoiceRequestRecord)
    (out : List VoiceRequestRecord) (s : RequestStore)
    → Inv s
    → HasEnded id s
    → Keeps id s (expire_each cut clock i m out s).0
unfolding expire_each
expire_each-Keeps id cut clock i [] out s v h = inl refl
expire_each-Keeps id cut clock i ((k, r) ∷ m) out s v h =
    let one = expire-Keeps id s h v r.request_id (clock i) in
    let s' = (expire r.request_id (clock i) s).0 in
    elim (Bool-cases (is_overdue cut r)) [
      | inr fine ↦ rw (fine, expire_each) (expire_each-Keeps id cut clock i m out s v h)
      | inl late ↦
          rw (late, expire_each)
            (or_throw-Keeps id s (expire r.request_id (clock i) s) _ one (λ r'.
              expire_each-Keeps id cut clock (suc i) m (out ++ r' ∷ []) s'
                (expire-Inv s r.request_id (clock i) v) (Keeps-HasEnded id s s' h one)))
    ]

collect-Keeps : (id now : ℕ) (s : RequestStore) → Inv s → Keeps id s (collect_garbage now s)
collect-Keeps id now s v = elim (collect_garbage-Trims now s v id) [
  | inl same ↦ inl same
  | inr gone ↦ inr gone.0
]

after_admit-Keeps :
    (id last : ℕ) (s : RequestStore) (c : Call)
    → Inv c.0
    → Keeps id s c.0
    → Keeps id s (after_admit last c).0
unfolding after_admit
after_admit-Keeps id last s (t, ok r) v k =
    Keeps-trans id s t (collect_garbage last t) k (collect-Keeps id last t v)
after_admit-Keeps id last s (t, err e) v k = k

create-Keeps :
    (id : ℕ) (input : NewRequest) (first created last : ℕ) (s : RequestStore)
    → Inv s
    → HasEnded id s
    → input.request_id ≢ id
    → Keeps id s (create input first created last s).0
unfolding create
create-Keeps id input first created last s v h other =
    let t = collect_garbage first s in
    let k = collect-Keeps id first s v in
    let w = collect_garbage-Inv first s v in
    after_admit-Keeps id last s (admit input created t) (admit-Inv input created t w) (
      Keeps-trans id s t (admit input created t).0 k
        (admit-Keeps id t (Keeps-HasEnded id s t h k) input created other))

-- The call is no `create` with this request id.
abbrev pub IsOther : ℕ → Op → Type 0
IsOther id (creates input first created last) = input.request_id ≢ id
IsOther id _ = Unit

-- Whatever call is made, a request that has ended is left as it was, or its record is deleted, so
-- long as the call is no `create` that uses the same id again.
pub step-Keeps :
    (o : Op) (s : RequestStore) (id : ℕ)
    → Inv s
    → HasEnded id s
    → IsOther id o
    → Keeps id s (step o s)
unfolding step set_status mark_audio_ready complete complete_of fail fail_of expire_ready_before
step-Keeps (creates input first created last) s id v h other =
    create-Keeps id input first created last s v h other
step-Keeps (sets k status) s id v h other =
    with_record-Keeps id s h v k (set_status_of status)
      (λ r at. set_status_of-Keeps id s h r at status)
step-Keeps (readies k output) s id v h other =
    with_record-Keeps id s h v k (mark_ready_of output)
      (λ r at. mark_ready_of-Keeps id s h r at output)
step-Keeps (completes k now) s id v h other =
    with_record-Keeps id s h v k (complete_of now)
      (λ r at. if-Keeps id s h r at _ _ (finish-Keeps id s h r at _))
step-Keeps (fails k code now) s id v h other =
    with_record-Keeps id s h v k (fail_of code now)
      (λ r at. if-Keeps id s h r at _ _ (finish-Keeps id s h r at _))
step-Keeps (expires k now) s id v h other = expire-Keeps id s h v k now
step-Keeps (expires_ready cut clock) s id v h other =
    expire_each-Keeps id cut clock 0 s.requests [] s v h
step-Keeps (collects now) s id v h other = collect-Keeps id now s v
