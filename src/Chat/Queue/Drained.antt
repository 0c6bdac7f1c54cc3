-- ===== src/Chat/Queue/Drained.antt =====
-- No job waits that could run.
use backend_bmo_blabs.Base.{
  ℕ, ◌+◌, ◌≤◌, ◌<◌, inl, inr, ◌||◌, List, [], ◌∷◌, ltb, leb, ◌==◌, length, arith, Bool-cases,
  Option-cases,
}
use backend_bmo_blabs.Base.Picking.{take_first, take_first-some, take_first-none, NoneFits}
use backend_bmo_blabs.Chat.Queue.{
  Job, ChatQueue, new_queue, reserve, start, is_ready, drain, consume, push, commit, release, stop,
  finish, close, Call, step, run,
}

-- If a job may start, then the key of each waiting job is that of a running one.
pub record IsDrained (s : ChatQueue) : Type 0 where
  pub blocked : s.active < s.max_concurrent → NoneFits (is_ready s) s.waiting

-- The loop ends because no job can start, not because the list is used up.
drain-IsDrained :
    (fuel : List Job) (s : ChatQueue) → length s.waiting ≤ length fuel → IsDrained (drain fuel s)
unfolding drain start
drain-IsDrained [] s enough = record { blocked = λ room. none_waits s.waiting enough }
  where
    none_waits : (l : List Job) → length l ≤ 0 → NoneFits (is_ready s) l
    none_waits [] h = tt
    none_waits (x ∷ l) h = absurd (omega arith)
drain-IsDrained (f ∷ fuel) s enough = elim (Bool-cases (ltb s.active s.max_concurrent)) [
  | inr full ↦ rw (full, drain) (record { blocked = λ room. absurd (ground arith) })
  | inl room ↦ elim (Option-cases (take_first (is_ready s) s.waiting)) [
    | inl nothing ↦
        rw (room, drain)
          (rw (nothing) (record { blocked = λ r. take_first-none (is_ready s) s.waiting nothing }))
    | inr ((j, rest), found) ↦
        let (_, long, _, _) = take_first-some (is_ready s) s.waiting j rest found in
        rw (room, drain) (rw (found) (drain-IsDrained fuel (start j rest s) (omega arith)))
  ]
]

drained : (s : ChatQueue) → IsDrained (drain s.waiting s)
drained s = drain-IsDrained s.waiting s (omega arith)

consume-IsDrained : (s : ChatQueue) (rest : List ℕ) → IsDrained s → IsDrained (consume rest s)
unfolding consume is_ready
consume-IsDrained s rest v = record { blocked = v.blocked }

reserve-IsDrained : (s : ChatQueue) → IsDrained s → IsDrained (reserve s).0
unfolding reserve is_ready
reserve-IsDrained s v =
    elim (Bool-cases (
      s.is_closed
      || leb (s.max_concurrent + s.max_pending) (s.active + length s.waiting + s.reserved))) [
        | inl full ↦ rw (full, reserve) v
        | inr room ↦ rw (room, reserve) (record { blocked = v.blocked })
      ]

commit-IsDrained :
    (ticket key : ℕ) (s : ChatQueue) → IsDrained s → IsDrained (commit ticket key s).0
unfolding commit
commit-IsDrained ticket key s v =
    elim (Option-cases (take_first (λ t. t == ticket) s.open_reservations)) [
      | inl missing ↦ rw (missing, commit) v
      | inr ((t, rest), found) ↦
          rw (found, commit)
            (drained (push (record { ticket = ticket; key = key }) (consume rest s)))
    ]

release-IsDrained : (ticket : ℕ) (s : ChatQueue) → IsDrained s → IsDrained (release ticket s)
unfolding release
release-IsDrained ticket s v =
    elim (Option-cases (take_first (λ t. t == ticket) s.open_reservations)) [
      | inl missing ↦ rw (missing, release) v
      | inr ((t, rest), found) ↦ rw (found, release) (consume-IsDrained s rest v)
    ]

finish-IsDrained : (ticket : ℕ) (s : ChatQueue) → IsDrained s → IsDrained (finish ticket s)
unfolding finish stop
finish-IsDrained ticket s v = elim (Option-cases (take_first (λ j. j.ticket == ticket) s.running)) [
  | inl missing ↦ rw (missing, finish) v
  | inr ((j, rest), found) ↦
      rw (found, finish) (drain-IsDrained s.waiting (stop j rest s) (omega arith))
]

step-IsDrained : (s : ChatQueue) (c : Call) → IsDrained s → IsDrained (step s c)
unfolding step close is_ready
step-IsDrained s Call.reserves v = reserve-IsDrained s v
step-IsDrained s Call.closes v = record { blocked = v.blocked }
step-IsDrained s (Call.commits ticket key) v = commit-IsDrained ticket key s v
step-IsDrained s (Call.releases ticket) v = release-IsDrained ticket s v
step-IsDrained s (Call.finishes ticket) v = finish-IsDrained ticket s v

run_from : (cs : List Call) (s : ChatQueue) → IsDrained s → IsDrained (run s cs)
unfolding run
run_from [] s v = v
run_from (c ∷ cs) s v = run_from cs (step s c) (step-IsDrained s c v)

-- After any calls on a new queue, a job waits only if as many jobs run as may, or a job of its key
-- runs: the loop that starts jobs does not stop before.
pub run-IsDrained :
    (max_concurrent max_pending : ℕ) (calls : List Call)
    → IsDrained (run (new_queue max_concurrent max_pending) calls)
unfolding new_queue
run-IsDrained max_concurrent max_pending calls =
    run_from calls (new_queue max_concurrent max_pending) (record { blocked = λ room. tt })
