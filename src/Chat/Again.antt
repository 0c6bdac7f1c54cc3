-- ===== src/Chat/Again.antt =====
-- A message that is sent again is answered with the operation of the first time.
use backend_bmo_blabs.Base.{
  ℕ, ◌≡◌, ◌≢◌, refl, sym, ap, subst, inl, inr, Bool, true, false, ◌&&◌, ◌||◌, not, Option, none,
  some, same_text, same_text_refl, List, Result, ok, err, ◌==◌, arith, Bool-cases, Option-cases,
  if◌then◌else◌, ◌∙◌, All,
}
use backend_bmo_blabs.Database.{count, count-append_one, count-zero}
use backend_bmo_blabs.Database.Counts.{count_mono}
use backend_bmo_blabs.Chat.Rows.{SessionRow, OperationRow, MessageRow, Tables}
use backend_bmo_blabs.Chat.Lease.{Services, find_session}
use backend_bmo_blabs.Chat.Sessions.{
  Chat, ChatMessageInput, FreshMessage, settle, submit_new, submit_message, find_operation,
  existing_response, owns_device, same_device, answer, user_message, new_operation, is_taken,
  store_message, accept_message,
}
use backend_bmo_blabs.Chat.Queue.{ChatQueue, reserve}
use backend_bmo_blabs.Chat.Calls.{Call, run}
use backend_bmo_blabs.Chat.Sessions.{Fault, AcceptedMessage, repeated}
use backend_bmo_blabs.Chat.Kept.{
  draws_id, has_key, is_the_operation, has_message_id, is_the_message, IsKept, run-IsKept,
  find-IsKept,
}

same_device_refl : (d : Option ℕ) → same_device d d ≡ true
unfolding same_device
same_device_refl none = refl
same_device_refl (some x) = ground arith

module _ (env : Services) where
  open env use {db}

  repeated_makes_none :
      (s : Tables) (r : Result Fault AcceptedMessage) (a : AcceptedMessage)
      → (repeated env s r).1 ≢ ok (a, true)
  unfolding repeated
  repeated_makes_none s (ok x) a e = ground arith
  repeated_makes_none s (err f) a e = ground arith

  accept_new :
      (user session : ℕ) (input : ChatMessageInput) (fresh : FreshMessage) (s : Tables)
      (a : AcceptedMessage)
      → (accept_message env user session input fresh s).1 ≡ ok (a, true)
      → (q : SessionRow) × (is_taken env user input fresh s ≡ false)
        × (accept_message env user session input fresh s ≡ (
          store_message env user session input fresh q s,
          ok (
            answer env
                (new_operation env user input fresh)
                (user_message env user session input fresh),
            true,
          ),
        ))
  unfolding accept_message
  accept_new user session input fresh s a =
      elim (Option-cases (find_operation env user input.idempotency_key s)) [
        | inr ((o, m), at) ↦
            rw (at, accept_message)
              (λ e. absurd (repeated_makes_none s (existing_response env o m session input) a e))
        | inl new ↦ elim (Option-cases (find_session env user session s)) [
          | inl closed ↦ rw (new, accept_message) (rw (closed) (λ e. absurd (ground arith)))
          | inr (q, here) ↦ elim (Bool-cases (not (owns_device env user input.device_id s))) [
            | inl foreign ↦
                rw (new, accept_message) (rw (here) (rw foreign (λ e. absurd (ground arith))))
            | inr own ↦ elim (Bool-cases (is_taken env user input fresh s)) [
              | inl taken ↦
                  rw (new, accept_message)
                    (rw (here) (rw own (rw taken (λ e. absurd (ground arith)))))
              | inr free ↦
                  rw (new, accept_message) (rw (here) (rw own (rw free (λ e. (q, refl, refl)))))
            ]
          ]
        ]
      ]

  stored-IsKept :
      (user session : ℕ) (input : ChatMessageInput) (fresh : FreshMessage) (q : SessionRow)
      (s : Tables)
      → is_taken env user input fresh s ≡ false
      → IsKept env user session input fresh.message.id fresh.operation_id
          (store_message env user session input fresh q s)
  unfolding store_message user_message new_operation is_taken
  stored-IsKept user session input fresh q s free =
      let key = has_key env user session input fresh.message.id fresh.operation_id in
      let op = is_the_operation env user session input fresh.message.id fresh.operation_id in
      let mid = has_message_id env user session input fresh.message.id fresh.operation_id in
      let msg = is_the_message env user session input fresh.message.id fresh.operation_id in
      let m = user_message env user session input fresh in
      let o = new_operation env user input fresh in
      let clash : OperationRow → Bool = λ o.
        o.id == fresh.operation_id
        || o.user_message_id == fresh.message.id
        || o.user_id == user && o.idempotency_key == input.idempotency_key in
      elim (Option-cases (db.find_first clash s.operations)) [
        | inr (r, at) ↦ absurd (ground arith)
        | inl missing ↦ elim (Option-cases (db.find_first mid s.messages)) [
          | inr (r, at) ↦ absurd (ground arith)
          | inl absent ↦
              let zero_ops = count-zero clash s.operations (db.missed clash s.operations missing) in
              let zero_messages = count-zero mid s.messages (db.missed mid s.messages absent) in
              let x = count_mono key clash (λ r e. ground arith) s.operations in
              let y = count_mono op key (λ r e. ground arith) s.operations in
              let z = count_mono msg mid (λ r e. ground arith) s.messages in
              let t = same_text_refl input.text in
              let d = same_device_refl input.device_id in
              let a = ap (count key) (db.created o s.operations) in
              let b = ap (count op) (db.created o s.operations) in
              let c = ap (count mid) (db.created m s.messages) in
              let e = ap (count msg) (db.created m s.messages) in
              let a' = count-append_one key s.operations o in
              let b' = count-append_one op s.operations o in
              let c' = count-append_one mid s.messages m in
              let e' = count-append_one msg s.messages m in
              record {
                one_operation = ground arith;
                the_operation = ground arith;
                one_message = ground arith;
                the_message = ground arith;
              }
        ]
      ]

  -- The operation of the key is found, and its answer is this one.
  abbrev IsFound : ℕ → ℕ → ChatMessageInput → Tables → AcceptedMessage → Type 0
  IsFound user session input t b =
      (o : OperationRow) × (m : MessageRow) × (find_operation env user input.idempotency_key t
        ≡ some (o, m))
      × (existing_response env o m session input ≡ ok b)

  kept_answers :
      (user session message operation : ℕ) (input : ChatMessageInput) (fresh : FreshMessage)
      (t : Tables)
      → IsKept env user session input message operation t
      → (b : AcceptedMessage) × (accept_message env user session input fresh t ≡ (t, ok (b, false)))
        × (b.operation_id ≡ operation)
        × (b.user_message_id ≡ message)
        × IsFound user session input t b
  unfolding accept_message repeated existing_response answer
  kept_answers user session message operation input fresh t v =
      let (o, m, at, fo, fm) = find-IsKept env user session input message operation t v in
      let agree : (not (m.session_id == session)
            || not (same_text m.content input.text)
            || not (same_device m.source_device_id input.device_id))
          ≡ false =
        ground arith in
      (
        answer env o m,
        rw (at, accept_message) (rw (agree) refl),
        ground arith,
        ground arith,
        (o, m, at, rw (agree, existing_response) refl),
      )

  -- The transaction of a message that has been accepted, run again after any calls, is answered with the same
  -- message and operation, and nothing is written. No reply takes the id of the message.
  accepted_again :
      (user session : ℕ) (input : ChatMessageInput) (fresh : FreshMessage) (s : Tables)
      (a : AcceptedMessage)
      → (accept_message env user session input fresh s).1 ≡ ok (a, true)
      → (calls : List Call) → All (λ c. draws_id fresh.message.id c ≡ false) calls
      → (fresh' : FreshMessage)
      → let t = run env (accept_message env user session input fresh s).0 calls in
        (b : AcceptedMessage) × (accept_message env user session input fresh' t
          ≡ (t, ok (b, false)))
        × (b.operation_id ≡ a.operation_id)
        × (b.user_message_id ≡ a.user_message_id)
        × IsFound user session input t b
  unfolding answer new_operation user_message
  accepted_again user session input fresh s a new calls others fresh' =
      let (q, free, stored) = accept_new user session input fresh s a new in
      let kept : IsKept env user session input fresh.message.id fresh.operation_id
          (accept_message env user session input fresh s).0 =
        subst (λ c. IsKept env user session input fresh.message.id fresh.operation_id c.0)
          (sym stored) (stored-IsKept user session input fresh q s free) in
      let answered : ok (
        answer env (new_operation env user input fresh) (user_message env user session input fresh),
        true,
      )
          ≡ ok (a, true) =
        subst (λ c. c.1 ≡ ok (a, true)) stored new in
      let (b, again, op, msg, found) =
        kept_answers user session fresh.message.id fresh.operation_id input fresh' _ (
          run-IsKept env user session input fresh.message.id fresh.operation_id _ calls others
            kept) in
      (b, again, ground arith, ground arith, found)

  -- The first time, there is a job.
  new_makes_job :
      (user session : ℕ) (input : ChatMessageInput) (fresh : FreshMessage) (s : Tables)
      (a : AcceptedMessage)
      → find_operation env user input.idempotency_key s ≡ none
      → (accept_message env user session input fresh s).1 ≢ ok (a, false)
  unfolding accept_message
  new_makes_job user session input fresh s a new =
      elim (Option-cases (find_session env user session s)) [
        | inl closed ↦ rw (new, accept_message) (rw (closed) (λ e. absurd (ground arith)))
        | inr (q, here) ↦ elim (Bool-cases (not (owns_device env user input.device_id s))) [
          | inl foreign ↦
              rw (new, accept_message) (rw (here) (rw foreign (λ e. absurd (ground arith))))
          | inr own ↦ elim (Bool-cases (is_taken env user input fresh s)) [
            | inl taken ↦
                rw (new, accept_message)
                  (rw (here) (rw own (rw taken (λ e. absurd (ground arith)))))
            | inr free ↦
                rw (new, accept_message) (rw (here) (rw own (rw free (λ e. absurd (ground arith)))))
          ]
        ]
      ]

  settled :
      (ticket key : ℕ) (q : ChatQueue) (r : Tables × Result Fault (AcceptedMessage × Bool))
      (a : AcceptedMessage)
      → ((b : AcceptedMessage) → r.1 ≢ ok (b, false))
      → (settle env ticket key q r).1 ≡ ok a
      → (r.1 ≡ ok (a, true)) × ((settle env ticket key q r).0.tables ≡ r.0)
  unfolding settle
  settled ticket key q (t, ok (b, true)) a h e = (ground arith, refl)
  settled ticket key q (t, ok (b, false)) a h e = absurd (h b refl)
  settled ticket key q (t, err f) a h e = absurd (ground arith)

  if_false :
      (b : Bool) (x y : Chat × Result Fault AcceptedMessage) → b ≡ false → (if b then x else y) ≡ y
  if_false true x y e = absurd cc
  if_false false x y e = refl

  if_else :
      (b : Bool) (x y : Chat × Result Fault AcceptedMessage) (a : AcceptedMessage)
      → x.1 ≢ ok a
      → (if b then x else y).1 ≡ ok a
      → (b ≡ false) × ((if b then x else y) ≡ y)
  if_else true x y a h e = absurd (h e)
  if_else false x y a h e = (refl, refl)

  -- A call that finds no operation of its key and succeeds has run the transaction.
  submit_new_first :
      (user session key : ℕ) (input : ChatMessageInput) (fresh : FreshMessage)
      (others : Tables → Tables) (c : Chat) (a : AcceptedMessage)
      → find_operation env user input.idempotency_key (others c.tables) ≡ none
      → (submit_new env user session key input fresh others c).1 ≡ ok a
      → ((accept_message env user session input fresh (others c.tables)).1 ≡ ok (a, true))
        × ((submit_new env user session key input fresh others c).0.tables
            ≡ (accept_message env user session input fresh (others c.tables)).0)
  unfolding submit_new
  submit_new_first user session key input fresh others c a new =
      elim (Option-cases (reserve c.queue).1) [
        | inl full ↦ rw (full, submit_new) (λ e. absurd (ground arith))
        | inr (ticket, room) ↦
            rw (room, submit_new)
              (settled ticket key (reserve c.queue).0
                (accept_message env user session input fresh (others c.tables)) a
                (λ b. new_makes_job user session input fresh (others c.tables) b new))
      ]

  submit_first :
      (user session key : ℕ) (input : ChatMessageInput) (fresh : FreshMessage)
      (others : Tables → Tables) (c : Chat) (a : AcceptedMessage)
      → find_operation env user input.idempotency_key c.tables ≡ none
      → (submit_message env user session key input fresh others c).1 ≡ ok a
      → (input.speak ≡ false)
        × (submit_message env user session key input fresh others c
            ≡ submit_new env user session key input fresh others c)
  unfolding submit_message
  submit_first user session key input fresh others c a absent e =
      let (silent, same) = if_else input.speak _ _ a (λ h. ground arith) e in
      (silent, same ∙ rw (absent) refl)

  -- A call that finds the operation of its key answers from it.
  submit_again :
      (user session key : ℕ) (input : ChatMessageInput) (fresh : FreshMessage)
      (others : Tables → Tables) (c : Chat) (o : OperationRow) (m : MessageRow)
      → input.speak ≡ false
      → find_operation env user input.idempotency_key c.tables ≡ some (o, m)
      → submit_message env user session key input fresh others c
        ≡ (c, existing_response env o m session input)
  unfolding submit_message
  submit_again user session key input fresh others c o m silent at =
      if_false input.speak _ _ silent ∙ rw (at) refl

  -- A message that is sent for the first time and accepted, and is sent again after any calls on the
  -- tables, with any state of the queue, is answered with the same message and operation, and
  -- nothing is written or queued: neither where the call finds the operation at once, nor where the
  -- transaction does. No reply takes the id of the message.
  pub sent_again :
      (user session key : ℕ) (input : ChatMessageInput) (fresh : FreshMessage)
      (others : Tables → Tables) (c : Chat) (a : AcceptedMessage)
      → find_operation env user input.idempotency_key c.tables ≡ none
      → find_operation env user input.idempotency_key (others c.tables) ≡ none
      → (submit_message env user session key input fresh others c).1 ≡ ok a
      → (calls : List Call) → All (λ c. draws_id fresh.message.id c ≡ false) calls
      → (fresh' : FreshMessage) (others' : Tables → Tables) (queue' : ChatQueue)
      → let t = run env (submit_message env user session key input fresh others c).0.tables calls in
        let c' : Chat = record { tables = t; queue = queue' } in
        (b : AcceptedMessage) × (submit_message env user session key input fresh' others' c'
          ≡ (c', ok b))
        × (accept_message env user session input fresh' t ≡ (t, ok (b, false)))
        × (b.operation_id ≡ a.operation_id)
        × (b.user_message_id ≡ a.user_message_id)
  sent_again user session key input fresh others c a absent new e calls draws fresh' others'
        queue' =
      let (silent, same) = submit_first user session key input fresh others c a absent e in
      let (made, tables) =
        submit_new_first user session key input fresh others c a new
          (subst (λ r. r.1 ≡ ok a) same e) in
      let s = others c.tables in
      let first : (submit_message env user session key input fresh others c).0.tables
          ≡ (accept_message env user session input fresh s).0 =
        ap (λ r. r.0.tables) same ∙ tables in
      let c' : Chat = record {
        tables = run env (accept_message env user session input fresh s).0 calls;
        queue = queue';
      } in
      let (b, again, op, msg, (o, m, at, answered)) =
        accepted_again user session input fresh s a made calls draws fresh' in
      subst
        (λ t.
          (b : AcceptedMessage) × (submit_message env user session key input fresh' others'
              (record { tables = run env t calls; queue = queue' })
            ≡ (record { tables = run env t calls; queue = queue' }, ok b))
          × (accept_message env user session input fresh' (run env t calls)
              ≡ (run env t calls, ok (b, false)))
          × (b.operation_id ≡ a.operation_id)
          × (b.user_message_id ≡ a.user_message_id))
        (sym first)
        (
          b,
          submit_again user session key input fresh' others' c' o m silent at
              ∙ ap (λ r. (c', r)) answered,
          again,
          op,
          msg,
        )
