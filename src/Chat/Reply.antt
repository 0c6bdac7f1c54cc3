-- ===== src/Chat/Reply.antt =====
-- An operation is answered once.
use mathlib.Core.List.{Memᴰ}
use backend_bmo_blabs.Base.{
  ℕ, ◌+◌, ◌≤◌, ◌≡◌, refl, sym, ap, subst, inl, inr, Bool, true, false, ◌&&◌, ◌||◌, not, none, some,
  List, [], ◌∷◌, ◌==◌, is_some, arith, Bool-cases, Option-cases,
}
use backend_bmo_blabs.Database.{count, count-append_one, count-zero}
use backend_bmo_blabs.Database.Counts.{update_many-same, update_many-le, update_many-lt, count_mono}
use backend_bmo_blabs.Chat.Rows.{
  SessionRow, SessionStatus, MessageRow, OperationStatus, OperationRow, Tables, is_processing,
  is_open,
}
use backend_bmo_blabs.Chat.Lease.{
  Services, ChatJob, Fresh, claim, renew_lease, is_held, release_lease, record_failure, reply,
  store_reply, find_session, complete,
}
use backend_bmo_blabs.Chat.Sessions.{
  ChatMessageInput, FreshMessage, create_session, delete_rows, delete_session, user_message,
  new_operation, is_taken, store_message, accept_message,
}
use backend_bmo_blabs.Chat.Cases.{accept_cases}
use backend_bmo_blabs.Chat.Calls.{Call, step, run}

abbrev pub has_id : ℕ → OperationRow → Bool
has_id id o = o.id == id

abbrev pub is_at_work : ℕ → OperationRow → Bool
is_at_work id o = o.id == id && is_processing o

-- A message that answers the operation.
abbrev pub is_reply_to : ℕ → MessageRow → Bool
is_reply_to id m = elim m.reply_to [ none ↦ false | some r ↦ r == id ]

-- An operation stands once, and is at work or answered, not both.
pub record IsAnsweredOnce (s : Tables) : Type 0 where
  pub one : (id : ℕ) → count (has_id id) s.operations ≤ 1
  pub whole :
      (id : ℕ)
      → count (is_reply_to id) s.messages + count (is_at_work id) s.operations
        ≤ count (has_id id) s.operations

-- A write that keeps the id and puts nothing to work.
pub record Rests (f : OperationRow → OperationRow) : Type 0 where
  pub id : (o : OperationRow) → (f o).id ≡ o.id
  pub status : (o : OperationRow) → is_processing (f o) ≡ true → is_processing o ≡ true

has_id-same :
    (f : OperationRow → OperationRow)
    → Rests f
    → (id : ℕ) (o : OperationRow) → has_id id (f o) ≡ has_id id o
has_id-same f r id o = ap (λ x. x == id) (r.id o)

is_at_work-back :
    (f : OperationRow → OperationRow)
    → Rests f
    → (id : ℕ) (o : OperationRow) → is_at_work id (f o) ≡ true
    → is_at_work id o ≡ true
is_at_work-back f r id o e = let k = r.id o in let w = r.status o in ground arith

module _ (env : Services) where
  open env use {db}

  -- A write on operations, with messages that answer the same.
  pub rest-IsAnsweredOnce :
      (s t : Tables) (test : OperationRow → Bool) (f : OperationRow → OperationRow)
      → Rests f
      → t.operations ≡ (db.update_many test f s.operations).0
      → ((id : ℕ) → count (is_reply_to id) t.messages ≡ count (is_reply_to id) s.messages)
      → IsAnsweredOnce s
      → IsAnsweredOnce t
  rest-IsAnsweredOnce s t test f r ops replies v = record {
    one = λ id.
        let same = update_many-same db (has_id id) test f s.operations (has_id-same f r id) in
        let e = ap (count (has_id id)) ops in let old = v.one id in omega arith;
    whole = λ id.
        let same = update_many-same db (has_id id) test f s.operations (has_id-same f r id) in
        let e = ap (count (has_id id)) ops in
        let less = update_many-le db (is_at_work id) test f s.operations (is_at_work-back f r id) in
        let d = ap (count (is_at_work id)) ops in
        let old = v.whole id in let m = replies id in omega arith;
  }

  same-IsAnsweredOnce :
      (s t : Tables)
      → t.operations ≡ s.operations
      → t.messages ≡ s.messages
      → IsAnsweredOnce s
      → IsAnsweredOnce t
  same-IsAnsweredOnce s t ops msgs v = record {
    one = λ id. subst (λ o. count (has_id id) o ≤ 1) (sym ops) (v.one id);
    whole = λ id.
        let a = ap (count (has_id id)) ops in
        let b = ap (count (is_at_work id)) ops in
        let c = ap (count (is_reply_to id)) msgs in let old = v.whole id in omega arith;
  }

  create_session-IsAnsweredOnce :
      (user : ℕ) (temporary : Bool) (id : ℕ) (s : Tables)
      → IsAnsweredOnce s
      → IsAnsweredOnce (create_session env user temporary id s).0
  unfolding create_session
  create_session-IsAnsweredOnce user temporary id s v =
      elim (Bool-cases (is_some (db.find_first (λ q. q.id == id) s.sessions))) [
        | inl taken ↦ rw (taken, create_session) v
        | inr free ↦ rw (free, create_session) (same-IsAnsweredOnce s _ refl refl v)
      ]

  delete_rows-IsAnsweredOnce :
      (user session now : ℕ) (s : Tables)
      → IsAnsweredOnce s
      → IsAnsweredOnce (delete_rows env user session now s)
  unfolding delete_rows
  delete_rows-IsAnsweredOnce user session now s v =
      rest-IsAnsweredOnce s (delete_rows env user session now s) _ _
        (record { id = λ o. refl; status = λ o e. absurd (ground arith) }) refl
        (λ id. update_many-same db (is_reply_to id) _ _ s.messages (λ m. refl)) v

  delete_session-IsAnsweredOnce :
      (user session now : ℕ) (s : Tables)
      → IsAnsweredOnce s
      → IsAnsweredOnce (delete_session env user session now s).0
  unfolding delete_session
  delete_session-IsAnsweredOnce user session now s v =
      elim (Option-cases (find_session env user session s)) [
        | inl missing ↦ rw (missing, delete_session) v
        | inr (q, at) ↦
            elim (Bool-cases (
              not (
                (db.update_many (λ q. q.id == session && q.user_id == user && is_open q)
                  (λ q. record q { status = SessionStatus.deleted; deleted_at = some now })
                  s.sessions).1
                == 1))) [
                  | inl lost ↦ rw (at, delete_session) (rw lost v)
                  | inr won ↦
                      rw (at, delete_session)
                        (rw won (delete_rows-IsAnsweredOnce user session now s v))
                ]
      ]

  pub claim-IsAnsweredOnce :
      (job : ChatJob) (token now : ℕ) (s : Tables)
      → IsAnsweredOnce s
      → IsAnsweredOnce (claim env job token now s).0
  unfolding claim
  claim-IsAnsweredOnce job token now s v =
      rest-IsAnsweredOnce s (claim env job token now s).0 _ _
        (record { id = λ o. refl; status = λ o e. e }) refl (λ id. refl) v

  renew_lease-IsAnsweredOnce :
      (job : ChatJob) (token now : ℕ) (s : Tables)
      → IsAnsweredOnce s
      → IsAnsweredOnce (renew_lease env job token now s).0
  unfolding renew_lease
  renew_lease-IsAnsweredOnce job token now s v =
      rest-IsAnsweredOnce s (renew_lease env job token now s).0 _ _
        (record { id = λ o. refl; status = λ o e. e }) refl (λ id. refl) v

  release_lease-IsAnsweredOnce :
      (job : ChatJob) (token now : ℕ) (s : Tables)
      → IsAnsweredOnce s
      → IsAnsweredOnce (release_lease env job token now s)
  unfolding release_lease
  release_lease-IsAnsweredOnce job token now s v =
      rest-IsAnsweredOnce s (release_lease env job token now s) _ _
        (record { id = λ o. refl; status = λ o e. e }) refl (λ id. refl) v

  record_failure-IsAnsweredOnce :
      (job : ChatJob) (token now : ℕ) (s : Tables)
      → IsAnsweredOnce s
      → IsAnsweredOnce (record_failure env job token now s)
  unfolding record_failure
  record_failure-IsAnsweredOnce job token now s v =
      rest-IsAnsweredOnce s (record_failure env job token now s) _ _
        (record { id = λ o. refl; status = λ o e. absurd (ground arith) }) refl (λ id. refl) v

  abbrev succeed : ℕ → OperationRow → OperationRow
  succeed now o = record o {
    status = OperationStatus.succeeded;
    error_code = none;
    completed_at = some now;
    updated_at = now;
  }

  succeed-Rests : (now : ℕ) → Rests (succeed now)
  succeed-Rests now = record { id = λ o. refl; status = λ o e. absurd (ground arith) }

  -- The reply takes the place of the work.
  store_reply-IsAnsweredOnce :
      (job : ChatJob) (token : ℕ) (text : List ℕ) (fresh : Fresh) (now : ℕ) (o : OperationRow)
      (s : Tables)
      → Memᴰ o s.operations
      → is_held env job token o ≡ true
      → IsAnsweredOnce s
      → IsAnsweredOnce (store_reply env job token text fresh now s)
  unfolding store_reply is_held reply
  store_reply-IsAnsweredOnce job token text fresh now o s m held v =
      let test = is_held env job token in
      let same = λ (id : ℕ).
        update_many-same db (has_id id) test (succeed now) s.operations
          (has_id-same (succeed now) (succeed-Rests now) id) in
      let msgs = db.created (reply env job text fresh) s.messages in
      record {
        one = λ id. let e = same id in let old = v.one id in omega arith;
        whole = λ id.
            let e = same id in
            let old = v.whole id in
            let c = ap (count (is_reply_to id)) msgs in
            let more = count-append_one (is_reply_to id) s.messages (reply env job text fresh) in
            elim (Bool-cases (job.operation_id == id)) [
              | inl mine ↦
                  let less =
                    update_many-lt db (is_at_work id) test (succeed now) s.operations
                      (is_at_work-back (succeed now) (succeed-Rests now) id) o m held (ground arith)
                      (ground arith) in
                  ground arith
              | inr other ↦
                  let less =
                    update_many-le db (is_at_work id) test (succeed now) s.operations
                      (is_at_work-back (succeed now) (succeed-Rests now) id) in
                  ground arith
            ];
      }

  complete-IsAnsweredOnce :
      (job : ChatJob) (token : ℕ) (text : List ℕ) (fresh : Fresh) (now : ℕ) (s : Tables)
      → IsAnsweredOnce s
      → IsAnsweredOnce (complete env job token text fresh now s).0
  unfolding complete
  complete-IsAnsweredOnce job token text fresh now s v =
      elim (Option-cases (db.find_first (is_held env job token) s.operations)) [
        | inl missing ↦ rw (missing, complete) v
        | inr (o, at) ↦ elim (Option-cases (find_session env job.user_id job.session_id s)) [
          | inl closed ↦ rw (at, complete) (rw (closed) v)
          | inr (q, here) ↦
              let (held, m) = db.found (is_held env job token) s.operations o at in
              rw (at, complete)
                (rw (here) (store_reply-IsAnsweredOnce job token text fresh now o s m held v))
        ]
      ]

  store_message-IsAnsweredOnce :
      (user session : ℕ) (input : ChatMessageInput) (fresh : FreshMessage) (q : SessionRow)
      (s : Tables)
      → count (has_id fresh.operation_id) s.operations ≡ 0
      → IsAnsweredOnce s
      → IsAnsweredOnce (store_message env user session input fresh q s)
  unfolding store_message user_message new_operation
  store_message-IsAnsweredOnce user session input fresh q s unused v =
      let o = new_operation env user input fresh in
      let m = user_message env user session input fresh in
      let ops = db.created o s.operations in
      let msgs = db.created m s.messages in
      record {
        one = λ id.
            let c = ap (count (has_id id)) ops in
            let more = count-append_one (has_id id) s.operations o in
            let old = v.one id in
            elim (Bool-cases (fresh.operation_id == id)) [
              | inl mine ↦
                  let e : fresh.operation_id ≡ id = ground arith in
                  let none_yet = subst (λ x. count (has_id x) s.operations ≡ 0) e unused in
                  ground arith
              | inr other ↦ ground arith
            ];
        whole = λ id.
            let a = ap (count (has_id id)) ops in
            let b = ap (count (is_at_work id)) ops in
            let c = ap (count (is_reply_to id)) msgs in
            let d = count-append_one (has_id id) s.operations o in
            let e = count-append_one (is_at_work id) s.operations o in
            let f = count-append_one (is_reply_to id) s.messages m in
            let old = v.whole id in ground arith;
      }

  free_id :
      (user : ℕ) (input : ChatMessageInput) (fresh : FreshMessage) (s : Tables)
      → is_taken env user input fresh s ≡ false
      → count (has_id fresh.operation_id) s.operations ≡ 0
  unfolding is_taken
  free_id user input fresh s free =
      let clash : OperationRow → Bool = λ o.
        o.id == fresh.operation_id
        || o.user_message_id == fresh.message.id
        || o.user_id == user && o.idempotency_key == input.idempotency_key in
      let absent : is_some (db.find_first clash s.operations) ≡ false = ground arith in
      elim (Option-cases (db.find_first clash s.operations)) [
        | inl missing ↦
            let none_there = count-zero clash s.operations (db.missed clash s.operations missing) in
            let less =
              count_mono (has_id fresh.operation_id) clash (λ o e. ground arith) s.operations in
            omega arith
        | inr (o, at) ↦ absurd (ground arith)
      ]

  accept_message-IsAnsweredOnce :
      (user session : ℕ) (input : ChatMessageInput) (fresh : FreshMessage) (s : Tables)
      → IsAnsweredOnce s
      → IsAnsweredOnce (accept_message env user session input fresh s).0
  accept_message-IsAnsweredOnce user session input fresh s v =
      elim (accept_cases env user session input fresh s) [
        | inl kept ↦ subst IsAnsweredOnce (sym kept) v
        | inr (q, _, _, free, stored) ↦ subst IsAnsweredOnce (sym stored) (
            store_message-IsAnsweredOnce user session input fresh q s
              (free_id user input fresh s free) v)
      ]

  pub step-IsAnsweredOnce :
      (s : Tables) (c : Call) → IsAnsweredOnce s → IsAnsweredOnce (step env s c)
  unfolding step
  step-IsAnsweredOnce s (Call.creates user temporary id) v =
      create_session-IsAnsweredOnce user temporary id s v
  step-IsAnsweredOnce s (Call.deletes user session now) v =
      delete_session-IsAnsweredOnce user session now s v
  step-IsAnsweredOnce s (Call.accepts user session input fresh) v =
      accept_message-IsAnsweredOnce user session input fresh s v
  step-IsAnsweredOnce s (Call.claims job token now) v = claim-IsAnsweredOnce job token now s v
  step-IsAnsweredOnce s (Call.renews job token now) v = renew_lease-IsAnsweredOnce job token now s v
  step-IsAnsweredOnce s (Call.releases job token now) v =
      release_lease-IsAnsweredOnce job token now s v
  step-IsAnsweredOnce s (Call.fails job token now) v =
      record_failure-IsAnsweredOnce job token now s v
  step-IsAnsweredOnce s (Call.completes job token text fresh now) v =
      complete-IsAnsweredOnce job token text fresh now s v

  -- In any order of calls of workers and requests, every operation stands at most once in its table, and
  -- the messages that answer it and the work on it are together one at most: an operation that has
  -- been answered is no longer at work, and is not answered again.
  pub run-IsAnsweredOnce :
      (s : Tables) (calls : List Call) → IsAnsweredOnce s → IsAnsweredOnce (run env s calls)
  unfolding run
  run-IsAnsweredOnce s [] v = v
  run-IsAnsweredOnce s (c ∷ cs) v = run-IsAnsweredOnce (step env s c) cs (step-IsAnsweredOnce s c v)
