-- ===== src/Chat/Kept.antt =====
-- The rows of a message that was accepted stay as they are, whatever calls follow.
use backend_bmo_blabs.Base.{
  ℕ, ◌≡◌, refl, sym, ap, subst, inl, inr, Bool, true, false, ◌&&◌, ◌||◌, not, some, same_text, List,
  [], ◌∷◌, ◌==◌, is_some, arith, Bool-cases, Option-cases, All,
}
use backend_bmo_blabs.Database.{count, count-append_one, count-zero}
use backend_bmo_blabs.Database.Counts.{update_many-same, count_mono, count-forced}
use backend_bmo_blabs.Chat.Rows.{SessionStatus, MessageRow, OperationRow, Tables, is_open}
use backend_bmo_blabs.Chat.Lease.{
  Services, ChatJob, Fresh, claim, renew_lease, is_held, release_lease, record_failure, reply,
  store_reply, find_session, complete,
}
use backend_bmo_blabs.Chat.Sessions.{
  ChatMessageInput, FreshMessage, find_operation, create_session, delete_rows, delete_session,
  same_device, user_message, new_operation, is_taken, store_message, accept_message,
}
use backend_bmo_blabs.Chat.Calls.{Call, step, run}
use backend_bmo_blabs.Chat.Cases.{accept_cases}

-- The reply of the call takes this id.
abbrev pub draws_id : ℕ → Call → Bool
draws_id id (Call.completes job token text fresh now) = fresh.id == id
draws_id id c = false

module _ (env : Services) (user session : ℕ) (input : ChatMessageInput)
    (message operation : ℕ) where
  open env use {db}

  abbrev pub has_key : OperationRow → Bool
  has_key o = o.user_id == user && o.idempotency_key == input.idempotency_key

  abbrev pub is_the_operation : OperationRow → Bool
  is_the_operation o = has_key o && o.id == operation && o.user_message_id == message

  abbrev pub has_message_id : MessageRow → Bool
  has_message_id m = m.id == message

  abbrev pub is_the_message : MessageRow → Bool
  is_the_message m =
      m.id == message
      && m.session_id == session
      && same_text m.content input.text
      && same_device m.source_device_id input.device_id

  -- The key has one operation and the operation's message one row, and they are the ones sent.
  pub record IsKept (s : Tables) : Type 0 where
    pub one_operation : count has_key s.operations ≡ 1
    pub the_operation : count is_the_operation s.operations ≡ 1
    pub one_message : count has_message_id s.messages ≡ 1
    pub the_message : count is_the_message s.messages ≡ 1

  -- A write on operations that keeps ids and keys.
  pub record Stays (f : OperationRow → OperationRow) : Type 0 where
    pub key : (o : OperationRow) → has_key (f o) ≡ has_key o
    pub whole : (o : OperationRow) → is_the_operation (f o) ≡ is_the_operation o

  stay-IsKept :
      (s t : Tables) (test : OperationRow → Bool) (f : OperationRow → OperationRow)
      → Stays f
      → t.operations ≡ (db.update_many test f s.operations).0
      → count has_message_id t.messages ≡ count has_message_id s.messages
      → count is_the_message t.messages ≡ count is_the_message s.messages
      → IsKept s
      → IsKept t
  stay-IsKept s t test f k ops m₁ m₂ v =
      let a = update_many-same db has_key test f s.operations k.key in
      let b = update_many-same db is_the_operation test f s.operations k.whole in
      let c = ap (count has_key) ops in
      let d = ap (count is_the_operation) ops in
      let e = v.one_operation in
      let g = v.the_operation in
      let h = v.one_message in
      let i = v.the_message in
      record {
        one_operation = omega arith;
        the_operation = omega arith;
        one_message = omega arith;
        the_message = omega arith;
      }

  create-IsKept :
      (u : ℕ) (temporary : Bool) (i : ℕ) (s : Tables)
      → IsKept s
      → IsKept (create_session env u temporary i s).0
  unfolding create_session
  create-IsKept u temporary i s v =
      elim (Bool-cases (is_some (db.find_first (λ q. q.id == i) s.sessions))) [
        | inl taken ↦ rw (taken, create_session) v
        | inr free ↦
            rw (free, create_session)
              (record {
                one_operation = v.one_operation;
                the_operation = v.the_operation;
                one_message = v.one_message;
                the_message = v.the_message;
              })
      ]

  delete-IsKept : (u i now : ℕ) (s : Tables) → IsKept s → IsKept (delete_session env u i now s).0
  unfolding delete_session delete_rows
  delete-IsKept u i now s v = elim (Option-cases (find_session env u i s)) [
    | inl missing ↦ rw (missing, delete_session) v
    | inr (q, at) ↦
        elim (Bool-cases (
          not (
            (db.update_many (λ q. q.id == i && q.user_id == u && is_open q)
              (λ q. record q { status = SessionStatus.deleted; deleted_at = some now })
              s.sessions).1
            == 1))) [
              | inl lost ↦ rw (at, delete_session) (rw lost v)
              | inr won ↦
                  rw (at, delete_session)
                    (rw won (
                      stay-IsKept s (delete_rows env u i now s) _ _
                        (record { key = λ o. refl; whole = λ o. refl }) refl
                        (update_many-same db has_message_id _ _ s.messages (λ m. refl))
                        (update_many-same db is_the_message _ _ s.messages (λ m. refl)) v))
            ]
  ]

  -- A row with an id that is taken is not added.
  accept-IsKept :
      (u i : ℕ) (sent : ChatMessageInput) (fresh : FreshMessage) (s : Tables)
      → IsKept s
      → IsKept (accept_message env u i sent fresh s).0
  unfolding store_message user_message new_operation is_taken
  accept-IsKept u i sent fresh s v = elim (accept_cases env u i sent fresh s) [
    | inl kept ↦ subst IsKept (sym kept) v
    | inr (q, _, _, free, stored) ↦
        let m = user_message env u i sent fresh in
        let o = new_operation env u sent fresh in
        let clash : OperationRow → Bool = λ o.
          o.id == fresh.operation_id
          || o.user_message_id == fresh.message.id
          || o.user_id == u && o.idempotency_key == sent.idempotency_key in
        let far_key : has_key o ≡ false = elim (Bool-cases (has_key o)) [
          | inr other ↦ other
          | inl same ↦ elim (Option-cases (db.find_first clash s.operations)) [
            | inr (r, at) ↦ absurd (ground arith)
            | inl missing ↦
                let none_there =
                  count-zero clash s.operations (db.missed clash s.operations missing) in
                let less = count_mono has_key clash (λ r e. ground arith) s.operations in
                let one = v.one_operation in absurd (omega arith)
          ]
        ] in
        let far_id : has_message_id m ≡ false = elim (Bool-cases (has_message_id m)) [
          | inr other ↦ other
          | inl same ↦
              elim (Option-cases (db.find_first (λ r. r.id == fresh.message.id) s.messages)) [
                | inr (r, at) ↦ absurd (ground arith)
                | inl missing ↦
                    let none_there =
                      count-zero (λ (r : MessageRow). r.id == fresh.message.id) s.messages
                        (db.missed _ s.messages missing) in
                    let less =
                      count_mono has_message_id (λ (r : MessageRow). r.id == fresh.message.id)
                        (λ r e. ground arith) s.messages in
                    let one = v.one_message in absurd (omega arith)
              ]
        ] in
        let a = ap (count has_key) (db.created o s.operations) in
        let b = ap (count is_the_operation) (db.created o s.operations) in
        let c = ap (count has_message_id) (db.created m s.messages) in
        let d = ap (count is_the_message) (db.created m s.messages) in
        let a' = count-append_one has_key s.operations o in
        let b' = count-append_one is_the_operation s.operations o in
        let c' = count-append_one has_message_id s.messages m in
        let d' = count-append_one is_the_message s.messages m in
        let e = v.one_operation in
        let f = v.the_operation in
        let g = v.one_message in
        let h = v.the_message in
        subst IsKept (sym stored) (record {
          one_operation = ground arith;
          the_operation = ground arith;
          one_message = ground arith;
          the_message = ground arith;
        })
  ]

  complete-IsKept :
      (job : ChatJob) (t : ℕ) (text : List ℕ) (fresh : Fresh) (now : ℕ) (s : Tables)
      → (fresh.id == message) ≡ false
      → IsKept s
      → IsKept (complete env job t text fresh now s).0
  unfolding complete store_reply reply
  complete-IsKept job t text fresh now s far v =
      elim (Option-cases (db.find_first (is_held env job t) s.operations)) [
        | inl missing ↦ rw (missing, complete) v
        | inr (o, at) ↦ elim (Option-cases (find_session env job.user_id job.session_id s)) [
          | inl closed ↦ rw (at, complete) (rw (closed) v)
          | inr (q, here) ↦
              let m = reply env job text fresh in
              let c = ap (count has_message_id) (db.created m s.messages) in
              let d = ap (count is_the_message) (db.created m s.messages) in
              let c' = count-append_one has_message_id s.messages m in
              let d' = count-append_one is_the_message s.messages m in
              rw (at, complete)
                (rw (here) (
                  stay-IsKept s (store_reply env job t text fresh now s) _ _
                    (record { key = λ o. refl; whole = λ o. refl }) refl (ground arith)
                    (ground arith) v))
        ]
      ]

  step-IsKept :
      (s : Tables) (c : Call) → draws_id message c ≡ false → IsKept s → IsKept (step env s c)
  unfolding step claim renew_lease release_lease record_failure
  step-IsKept s (Call.creates u temporary i) h v = create-IsKept u temporary i s v
  step-IsKept s (Call.deletes u i now) h v = delete-IsKept u i now s v
  step-IsKept s (Call.accepts u i sent fresh) h v = accept-IsKept u i sent fresh s v
  step-IsKept s (Call.claims job t now) h v =
      stay-IsKept s (claim env job t now s).0 _ _ (record { key = λ o. refl; whole = λ o. refl })
        refl refl refl v
  step-IsKept s (Call.renews job t now) h v =
      stay-IsKept s (renew_lease env job t now s).0 _ _
        (record { key = λ o. refl; whole = λ o. refl }) refl refl refl v
  step-IsKept s (Call.releases job t now) h v =
      stay-IsKept s (release_lease env job t now s) _ _
        (record { key = λ o. refl; whole = λ o. refl }) refl refl refl v
  step-IsKept s (Call.fails job t now) h v =
      stay-IsKept s (record_failure env job t now s) _ _
        (record { key = λ o. refl; whole = λ o. refl }) refl refl refl v
  step-IsKept s (Call.completes job t text fresh now) h v =
      complete-IsKept job t text fresh now s h v

  pub run-IsKept :
      (s : Tables) (calls : List Call)
      → All (λ c. draws_id message c ≡ false) calls
      → IsKept s
      → IsKept (run env s calls)
  unfolding run
  run-IsKept s [] h v = v
  run-IsKept s (c ∷ cs) h v = run-IsKept (step env s c) cs h.1 (step-IsKept s c h.0 v)

  -- The operation of the key is found, with its message, and answers the message.
  pub find-IsKept :
      (s : Tables)
      → IsKept s
      → (o : OperationRow) × (m : MessageRow) × (find_operation env user input.idempotency_key s
          ≡ some (o, m))
        × (is_the_operation o ≡ true)
        × (is_the_message m ≡ true)
  unfolding find_operation
  find-IsKept s v = elim (Option-cases (db.find_first has_key s.operations)) [
    | inl missing ↦
        let none_there = count-zero has_key s.operations (db.missed has_key s.operations missing) in
        let one = v.one_operation in absurd (omega arith)
    | inr (o, at) ↦
        let (hit, mem) = db.found has_key s.operations o at in
        let a = v.one_operation in
        let b = v.the_operation in
        let own =
          count-forced has_key is_the_operation (λ r e. ground arith) s.operations (omega arith) o
            mem hit in
        let id : o.user_message_id ≡ message = ground arith in
        elim (Option-cases (db.find_first (λ m. m.id == o.user_message_id) s.messages)) [
          | inl missing ↦
              let none_there =
                count-zero (λ (m : MessageRow). m.id == o.user_message_id) s.messages
                  (db.missed _ s.messages missing) in
              let less =
                count_mono has_message_id (λ (m : MessageRow). m.id == o.user_message_id)
                  (λ r e. ground arith) s.messages in
              let one = v.one_message in absurd (omega arith)
          | inr (m, there) ↦
              let (fits, mem') = db.found _ s.messages m there in
              let c = v.one_message in
              let d = v.the_message in
              let e =
                count-forced has_message_id is_the_message (λ r e. ground arith) s.messages
                  (omega arith) m mem' (ground arith) in
              (o, m, rw (at, find_operation) (rw (there) refl), own, e)
        ]
  ]
