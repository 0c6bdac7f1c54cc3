-- ===== src/Chat/Fence.antt =====
-- A worker whose lease has been taken over writes nothing.
use backend_bmo_blabs.Base.{
  ℕ, ◌≡◌, ◌≢◌, refl, sym, ap, subst, inl, inr, Bool, true, false, ◌&&◌, not, none, some, List, [],
  ◌∷◌, ◌==◌, is_some, arith, Bool-cases, Option-cases, All,
}
use backend_bmo_blabs.Database.{count, count-append_one, find_none}
use backend_bmo_blabs.Database.Counts.{
  update_many-le, update_many-ge, update_many-none, count_mono, count-disjoint,
}
use backend_bmo_blabs.Chat.Rows.{SessionStatus, ErrorCode, OperationRow, Tables, is_open, holds}
use backend_bmo_blabs.Chat.Lease.{
  Services, ChatJob, Fresh, is_next, is_free, claim, renew_lease, is_held, release_lease,
  record_failure, store_reply, find_session, complete,
}
use backend_bmo_blabs.Chat.Sessions.{
  ChatMessageInput, FreshMessage, create_session, delete_rows, delete_session, new_operation,
  store_message, accept_message,
}
use backend_bmo_blabs.Chat.Calls.{Call, step, run}
use backend_bmo_blabs.Chat.Cases.{accept_cases}
use backend_bmo_blabs.Chat.Reply.{has_id, IsAnsweredOnce, claim-IsAnsweredOnce}

-- The operation, under the lease.
abbrev pub is_leased : ℕ → ℕ → OperationRow → Bool
is_leased id token o = o.id == id && holds token o

-- The call that gives out the lease.
abbrev pub is_claim_of : ℕ → Call → Bool
is_claim_of token (Call.claims job t now) = t == token
is_claim_of token c = false

-- No write gives the lease back.
abbrev Drops : ℕ → (OperationRow → OperationRow) → Type 0
Drops token f =
    (id : ℕ) (o : OperationRow) → is_leased id token (f o) ≡ true → is_leased id token o ≡ true

module _ (env : Services) (id token : ℕ) where
  open env use {db}

  abbrev pub IsLost : Tables → Type 0
  IsLost s = count (is_leased id token) s.operations ≡ 0

  drop-IsLost :
      (s t : Tables) (test : OperationRow → Bool) (f : OperationRow → OperationRow)
      → Drops token f
      → t.operations ≡ (db.update_many test f s.operations).0
      → IsLost s
      → IsLost t
  drop-IsLost s t test f d ops v =
      let less = update_many-le db (is_leased id token) test f s.operations (d id) in
      let e = ap (count (is_leased id token)) ops in omega arith

  accept-IsLost :
      (user session : ℕ) (input : ChatMessageInput) (fresh : FreshMessage) (s : Tables)
      → IsLost s
      → IsLost (accept_message env user session input fresh s).0
  unfolding store_message new_operation
  accept-IsLost user session input fresh s v = elim (accept_cases env user session input fresh s) [
    | inl kept ↦ subst IsLost (sym kept) v
    | inr (q, _, _, free, stored) ↦
        let o = new_operation env user input fresh in
        let e = ap (count (is_leased id token)) (db.created o s.operations) in
        let more = count-append_one (is_leased id token) s.operations o in
        subst IsLost (sym stored) (ground arith)
  ]

  delete-IsLost :
      (user session now : ℕ) (s : Tables)
      → IsLost s
      → IsLost (delete_session env user session now s).0
  unfolding delete_session delete_rows
  delete-IsLost user session now s v = elim (Option-cases (find_session env user session s)) [
    | inl missing ↦ rw (missing, delete_session) v
    | inr (q, at) ↦
        elim (Bool-cases (
          not (
            (db.update_many (λ q. q.id == session && q.user_id == user && is_open q)
              (λ q. record q { status = SessionStatus.deleted; deleted_at = some now })
              s.sessions).1
            == 1))) [
              | inl lost ↦ rw (at, delete_session) (rw lost v)
              | inr won ↦
                  rw (at, delete_session)
                    (rw won (
                      drop-IsLost s (delete_rows env user session now s) _ _
                        (λ i o e. absurd (ground arith)) refl v))
            ]
  ]

  complete-IsLost :
      (job : ChatJob) (t : ℕ) (text : List ℕ) (fresh : Fresh) (now : ℕ) (s : Tables)
      → IsLost s
      → IsLost (complete env job t text fresh now s).0
  unfolding complete store_reply
  complete-IsLost job t text fresh now s v =
      elim (Option-cases (db.find_first (is_held env job t) s.operations)) [
        | inl missing ↦ rw (missing, complete) v
        | inr (o, at) ↦ elim (Option-cases (find_session env job.user_id job.session_id s)) [
          | inl closed ↦ rw (at, complete) (rw (closed) v)
          | inr (q, here) ↦
              rw (at, complete)
                (rw (here) (
                  drop-IsLost s (store_reply env job t text fresh now s) _ _
                    (λ i o e. absurd (ground arith)) refl v))
        ]
      ]

  create-IsLost :
      (user : ℕ) (temporary : Bool) (i : ℕ) (s : Tables)
      → IsLost s
      → IsLost (create_session env user temporary i s).0
  unfolding create_session
  create-IsLost user temporary i s v =
      elim (Bool-cases (is_some (db.find_first (λ q. q.id == i) s.sessions))) [
        | inl taken ↦ rw (taken, create_session) v
        | inr free ↦ rw (free, create_session) v
      ]

  step-IsLost :
      (s : Tables) (c : Call) → is_claim_of token c ≡ false → IsLost s → IsLost (step env s c)
  unfolding step claim renew_lease release_lease record_failure
  step-IsLost s (Call.creates user temporary i) h v = create-IsLost user temporary i s v
  step-IsLost s (Call.deletes user session now) h v = delete-IsLost user session now s v
  step-IsLost s (Call.accepts user session input fresh) h v =
      accept-IsLost user session input fresh s v
  step-IsLost s (Call.claims job t now) h v =
      drop-IsLost s (claim env job t now s).0 _ _ (λ i o e. absurd (ground arith)) refl v
  step-IsLost s (Call.renews job t now) h v =
      drop-IsLost s (renew_lease env job t now s).0 _ _ (λ i o e. e) refl v
  step-IsLost s (Call.releases job t now) h v =
      drop-IsLost s (release_lease env job t now s) _ _ (λ i o e. absurd (ground arith)) refl v
  step-IsLost s (Call.fails job t now) h v =
      drop-IsLost s (record_failure env job t now s) _ _ (λ i o e. absurd (ground arith)) refl v
  step-IsLost s (Call.completes job t text fresh now) h v = complete-IsLost job t text fresh now s v

  run-IsLost :
      (s : Tables) (calls : List Call)
      → All (λ c. is_claim_of token c ≡ false) calls
      → IsLost s
      → IsLost (run env s calls)
  unfolding run
  run-IsLost s [] h v = v
  run-IsLost s (c ∷ cs) h v = run-IsLost (step env s c) cs h.1 (step-IsLost s c h.0 v)

module _ (env : Services) where
  open env use {db}

  -- The worker that a claim has answered holds the lease alone.
  claimed-IsLost :
      (job : ChatJob) (token token' now : ℕ) (s : Tables)
      → IsAnsweredOnce s
      → token ≢ token'
      → (claim env job token' now s).1 ≡ true
      → IsLost env job.operation_id token (claim env job token' now s).0
  unfolding claim is_next
  claimed-IsLost job token token' now s v other won =
      let id = job.operation_id in
      let test : OperationRow → Bool = λ o. is_next job s o && is_free env now o in
      let f : OperationRow → OperationRow =
        λ o. record o { error_code = some (ErrorCode.lease token'); updated_at = now } in
      let u = db.update_many test f s.operations in
      let w = (claim-IsAnsweredOnce env job token' now s v).one id in
      let some_row =
        update_many-ge db (is_leased id token') test f s.operations (λ o e. ground arith) in
      let apart =
        count-disjoint (is_leased id token) (is_leased id token') (has_id id) (λ o e. ground arith)
          (λ o e. ground arith) u.0 in
      ground arith

  -- A worker without the lease writes nothing: its reply is dropped, its failure is not recorded,
  -- and its lease is neither renewed nor released.
  lost_writes_nothing :
      (job : ChatJob) (token : ℕ) (text : List ℕ) (fresh : Fresh) (now : ℕ) (s : Tables)
      → IsLost env job.operation_id token s
      → (complete env job token text fresh now s ≡ (s, none))
        × (record_failure env job token now s ≡ s)
        × (renew_lease env job token now s ≡ (s, false))
        × (release_lease env job token now s ≡ s)
  unfolding complete record_failure renew_lease release_lease is_held is_next
  lost_writes_nothing job token text fresh now s v =
      let held = is_held env job token in
      let next : OperationRow → Bool = λ o. is_next job s o && holds token o in
      let a =
        count_mono held (is_leased job.operation_id token) (λ o e. ground arith) s.operations in
      let b =
        count_mono next (is_leased job.operation_id token) (λ o e. ground arith) s.operations in
      (
        rw (find_none held db s.operations (omega arith), complete) refl,
        rw (update_many-none db held _ s.operations (omega arith)) refl,
        rw (update_many-none db next _ s.operations (omega arith)) refl,
        rw (update_many-none db held _ s.operations (omega arith)) refl,
      )

  -- Once another worker has claimed the operation, the first one can no longer write: whatever calls
  -- follow, short of a claim under its own token, its reply is dropped, its failure is not
  -- recorded, and the lease is neither renewed nor released by it.
  pub claimed_fences :
      (job job' : ChatJob) (token token' taken : ℕ) (s : Tables)
      → IsAnsweredOnce s
      → job'.operation_id ≡ job.operation_id
      → token ≢ token'
      → (claim env job' token' taken s).1 ≡ true
      → (calls : List Call) → All (λ c. is_claim_of token c ≡ false) calls
      → (text : List ℕ) (fresh : Fresh) (now : ℕ)
      → let t = run env (claim env job' token' taken s).0 calls in
        (complete env job token text fresh now t ≡ (t, none))
        × (record_failure env job token now t ≡ t)
        × (renew_lease env job token now t ≡ (t, false))
        × (release_lease env job token now t ≡ t)
  claimed_fences job job' token token' taken s v same other won calls none_claims text fresh now =
      lost_writes_nothing job token text fresh now _ (
        run-IsLost env job.operation_id token _ calls none_claims (
          subst (λ i. IsLost env i token (claim env job' token' taken s).0) same
            (claimed-IsLost job' token token' taken s v other won)))
