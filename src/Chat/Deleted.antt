-- ===== src/Chat/Deleted.antt =====
-- A deleted session gets no more messages.
use backend_bmo_blabs.Base.{
  ℕ, ◌≤◌, ◌<◌, ◌≡◌, refl, sym, ap, subst, inl, inr, Bool, true, false, ◌&&◌, not, none, some, List,
  [], ◌∷◌, ok, ◌==◌, arith, Bool-cases, Option-cases,
}
use backend_bmo_blabs.Database.{count, count-append_one, count-mem, count-zero}
use backend_bmo_blabs.Database.Counts.{update_many-same, update_many-le, update_many-lt, count_mono}
use backend_bmo_blabs.Chat.Rows.{SessionRow, SessionStatus, MessageRow, Tables, is_open}
use backend_bmo_blabs.Chat.Lease.{
  Services, ChatJob, Fresh, claim, renew_lease, is_held, release_lease, record_failure, reply,
  store_reply, find_session, complete,
}
use backend_bmo_blabs.Chat.Sessions.{
  ChatMessageInput, FreshMessage, create_session, delete_rows, delete_session, user_message,
  store_message, accept_message,
}
use backend_bmo_blabs.Chat.Calls.{Call, step, run}
use backend_bmo_blabs.Chat.Cases.{accept_cases}

abbrev pub is_session : ℕ → SessionRow → Bool
is_session id q = q.id == id

abbrev pub is_open_session : ℕ → SessionRow → Bool
is_open_session id q = q.id == id && is_open q

abbrev pub is_in_session : ℕ → MessageRow → Bool
is_in_session id m = m.session_id == id

-- The session is in its table, is not open, and has `n` messages.
pub record IsSilent (id n : ℕ) (s : Tables) : Type 0 where
  pub exists : 0 < count (is_session id) s.sessions
  pub closed : count (is_open_session id) s.sessions ≡ 0
  pub messages : count (is_in_session id) s.messages ≡ n

module _ (env : Services) (id n : ℕ) where
  open env use {db}

  -- A session that is found open is another one.
  other_session :
      (user session : ℕ) (q : SessionRow) (s : Tables)
      → IsSilent id n s
      → find_session env user session s ≡ some q
      → (session == id) ≡ false
  unfolding find_session
  other_session user session q s v at = elim (Bool-cases (session == id)) [
    | inr other ↦ other
    | inl same ↦
        let (fits, m) = db.found _ s.sessions q at in
        let some_open = count-mem (is_open_session id) s.sessions q m (ground arith) in
        let none_open = v.closed in absurd (omega arith)
  ]

  -- A write on sessions that opens none.
  session-IsSilent :
      (s t : Tables) (test : SessionRow → Bool) (f : SessionRow → SessionRow)
      → ((q : SessionRow) → (f q).id ≡ q.id)
      → ((q : SessionRow) → is_open (f q) ≡ true → is_open q ≡ true)
      → t.sessions ≡ (db.update_many test f s.sessions).0
      → count (is_in_session id) t.messages ≡ count (is_in_session id) s.messages
      → IsSilent id n s
      → IsSilent id n t
  session-IsSilent s t test f same shut ss mm v =
      let a =
        update_many-same db (is_session id) test f s.sessions (λ q. ap (λ x. x == id) (same q)) in
      let b =
        update_many-le db (is_open_session id) test f s.sessions
          (λ q e. let k = same q in let o = shut q in ground arith) in
      let c = ap (count (is_session id)) ss in
      let d = ap (count (is_open_session id)) ss in
      let here = v.exists in
      let none_open = v.closed in
      let old = v.messages in
      record { exists = omega arith; closed = omega arith; messages = omega arith }

  create-IsSilent :
      (user : ℕ) (temporary : Bool) (i : ℕ) (s : Tables)
      → IsSilent id n s
      → IsSilent id n (create_session env user temporary i s).0
  unfolding create_session
  create-IsSilent user temporary i s v =
      elim (Option-cases (db.find_first (is_session i) s.sessions)) [
        | inr (q, taken) ↦ rw (taken, create_session) v
        | inl free ↦
            let row : SessionRow = record {
              id = i;
              user_id = user;
              temporary = temporary;
              title = none;
              status = SessionStatus.active;
              last_message_cursor = none;
              last_message_at = none;
              deleted_at = none;
            } in
            let none_there = count-zero (is_session i) s.sessions (db.missed _ _ free) in
            let far : (i == id) ≡ false = elim (Bool-cases (i == id)) [
              | inr other ↦ other
              | inl same ↦
                  let e : i ≡ id = ground arith in
                  let here = subst (λ x. 0 < count (is_session x) s.sessions) (sym e) v.exists in
                  absurd (omega arith)
            ] in
            let a = count-append_one (is_session id) s.sessions row in
            let b = count-append_one (is_open_session id) s.sessions row in
            let here = v.exists in
            let none_open = v.closed in
            rw (free, create_session)
              (rw (db.created row s.sessions)
                (record { exists = ground arith; closed = ground arith; messages = v.messages }))
      ]

  delete-IsSilent :
      (user session now : ℕ) (s : Tables)
      → IsSilent id n s
      → IsSilent id n (delete_session env user session now s).0
  unfolding delete_session delete_rows
  delete-IsSilent user session now s v = elim (Option-cases (find_session env user session s)) [
    | inl missing ↦ rw (missing, delete_session) v
    | inr (q, at) ↦
        elim (Bool-cases (
          not (
            (db.update_many (λ q. q.id == session && q.user_id == user && is_open q)
              (λ q. record q { status = SessionStatus.deleted; deleted_at = some now })
              s.sessions).1
            == 1))) [
              | inl lost ↦ rw (at, delete_session) (rw lost v)
              | inr won ↦
                  rw (at, delete_session)
                    (rw won (
                      session-IsSilent s (delete_rows env user session now s) _ _ (λ q. refl)
                        (λ q e. absurd (ground arith)) refl
                        (update_many-same db (is_in_session id) _ _ s.messages (λ m. refl)) v))
            ]
  ]

  accept-IsSilent :
      (user session : ℕ) (input : ChatMessageInput) (fresh : FreshMessage) (s : Tables)
      → IsSilent id n s
      → IsSilent id n (accept_message env user session input fresh s).0
  unfolding store_message user_message
  accept-IsSilent user session input fresh s v =
      elim (accept_cases env user session input fresh s) [
        | inl kept ↦ subst (IsSilent id n) (sym kept) v
        | inr (q, here, _, _, stored) ↦
            let far = other_session user session q s v here in
            let m = user_message env user session input fresh in
            let e = ap (count (is_in_session id)) (db.created m s.messages) in
            let more = count-append_one (is_in_session id) s.messages m in
            subst (IsSilent id n) (sym stored) (
              session-IsSilent s (store_message env user session input fresh q s) _ _ (λ q. refl)
                (λ q e. e) refl (ground arith) v)
      ]

  complete-IsSilent :
      (job : ChatJob) (t : ℕ) (text : List ℕ) (fresh : Fresh) (now : ℕ) (s : Tables)
      → IsSilent id n s
      → IsSilent id n (complete env job t text fresh now s).0
  unfolding complete store_reply reply
  complete-IsSilent job t text fresh now s v =
      elim (Option-cases (db.find_first (is_held env job t) s.operations)) [
        | inl missing ↦ rw (missing, complete) v
        | inr (o, at) ↦ elim (Option-cases (find_session env job.user_id job.session_id s)) [
          | inl closed ↦ rw (at, complete) (rw (closed) v)
          | inr (q, here) ↦
              let far = other_session job.user_id job.session_id q s v here in
              let m = reply env job text fresh in
              let e = ap (count (is_in_session id)) (db.created m s.messages) in
              let more = count-append_one (is_in_session id) s.messages m in
              rw (at, complete)
                (rw (here) (
                  session-IsSilent s (store_reply env job t text fresh now s) _ _ (λ q. refl)
                    (λ q e. e) refl (ground arith) v))
        ]
      ]

  same-IsSilent :
      (s t : Tables)
      → t.sessions ≡ s.sessions
      → t.messages ≡ s.messages
      → IsSilent id n s
      → IsSilent id n t
  same-IsSilent s t ss mm v = record {
    exists = subst (λ x. 0 < count (is_session id) x) (sym ss) v.exists;
    closed = subst (λ x. count (is_open_session id) x ≡ 0) (sym ss) v.closed;
    messages = subst (λ x. count (is_in_session id) x ≡ n) (sym mm) v.messages;
  }

  step-IsSilent : (s : Tables) (c : Call) → IsSilent id n s → IsSilent id n (step env s c)
  unfolding step claim renew_lease release_lease record_failure
  step-IsSilent s (Call.creates user temporary i) v = create-IsSilent user temporary i s v
  step-IsSilent s (Call.deletes user session now) v = delete-IsSilent user session now s v
  step-IsSilent s (Call.accepts user session input fresh) v =
      accept-IsSilent user session input fresh s v
  step-IsSilent s (Call.claims job t now) v = same-IsSilent s _ refl refl v
  step-IsSilent s (Call.renews job t now) v = same-IsSilent s _ refl refl v
  step-IsSilent s (Call.releases job t now) v = same-IsSilent s _ refl refl v
  step-IsSilent s (Call.fails job t now) v = same-IsSilent s _ refl refl v
  step-IsSilent s (Call.completes job t text fresh now) v =
      complete-IsSilent job t text fresh now s v

  run-IsSilent :
      (s : Tables) (calls : List Call) → IsSilent id n s → IsSilent id n (run env s calls)
  unfolding run
  run-IsSilent s [] v = v
  run-IsSilent s (c ∷ cs) v = run-IsSilent (step env s c) cs (step-IsSilent s c v)

module _ (env : Services) where
  open env use {db}

  deleted-IsSilent :
      (user id now : ℕ) (s : Tables)
      → count (is_session id) s.sessions ≤ 1
      → (delete_session env user id now s).1 ≡ ok true
      → IsSilent id (count (is_in_session id) s.messages) (delete_session env user id now s).0
  unfolding delete_session delete_rows find_session
  deleted-IsSilent user id now s once =
      let test : SessionRow → Bool = λ q. q.id == id && q.user_id == user && is_open q in
      let f : SessionRow → SessionRow =
        λ q. record q { status = SessionStatus.deleted; deleted_at = some now } in
      elim (Option-cases (db.find_first test s.sessions)) [
        | inl missing ↦ rw (missing, delete_session) (λ e. absurd (ground arith))
        | inr (q, at) ↦
            let (fits, m) = db.found test s.sessions q at in
            let a = update_many-same db (is_session id) test f s.sessions (λ r. refl) in
            let b =
              update_many-lt db (is_open_session id) test f s.sessions
                (λ r e. absurd (ground arith)) q m fits (ground arith) (ground arith) in
            let c = count-mem (is_session id) s.sessions q m (ground arith) in
            let d =
              count_mono (is_open_session id) (is_session id) (λ r e. ground arith) s.sessions in
            elim (Bool-cases (not ((db.update_many test f s.sessions).1 == 1))) [
              | inl lost ↦ rw (at, delete_session) (rw lost (λ e. absurd (ground arith)))
              | inr won ↦
                  rw (at, delete_session)
                    (rw won (λ e. record {
                      exists = omega arith;
                      closed = omega arith;
                      messages = update_many-same db (is_in_session id) _ _ s.messages (λ r. refl);
                    }))
            ]
      ]

  -- Once a session has been deleted, it keeps the number of its messages whatever calls follow:
  -- no message of a user and no reply of a worker is added to it. Ids of sessions are unique.
  pub deleted_stays_silent :
      (user id now : ℕ) (s : Tables)
      → count (is_session id) s.sessions ≤ 1
      → (delete_session env user id now s).1 ≡ ok true
      → (calls : List Call)
      → count (is_in_session id) (run env (delete_session env user id now s).0 calls).messages
        ≡ count (is_in_session id) s.messages
  deleted_stays_silent user id now s once gone calls =
      (run-IsSilent env id _ _ calls (deleted-IsSilent user id now s once gone)).messages
