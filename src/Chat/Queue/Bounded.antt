-- ===== src/Chat/Queue/Bounded.antt =====
-- The bounds of the queue, and one running job for each key.
use backend_bmo_blabs.Base.{
  ℕ, suc, ◌+◌, ◌≤◌, ◌<◌, ◌≡◌, refl, subst, inl, inr, Bool, false, ◌||◌, List, [], ◌∷◌, ltb, leb,
  ◌==◌, length, length-append, arith, Bool-cases, Option-cases,
}
use backend_bmo_blabs.Base.Picking.{take_first, take_first-some, Takes, tally}
use backend_bmo_blabs.Chat.Queue.Keys.{
  has, times, has-times, times-add, length-add, times-delete, length-delete,
}
use backend_bmo_blabs.Chat.Queue.{
  Job, ChatQueue, new_queue, reserve, start, is_ready, drain, consume, push, commit, release, stop,
  finish, close, Call, step, run,
}

abbrev pub key_of : Job → ℕ
key_of j = j.key

-- The counts agree with what they count, and are within the limits; no two running jobs have the
-- same key.
pub record IsBounded (s : ChatQueue) : Type 0 where
  pub counts_running : s.active ≡ length s.running
  pub counts_keys : s.active ≡ length s.active_keys
  pub counts_open : s.reserved ≡ length s.open_reservations
  pub same_keys : (k : ℕ) → times k s.active_keys ≡ tally key_of k s.running
  pub one_job : (k : ℕ) → tally key_of k s.running ≤ 1
  pub in_time : s.active ≤ s.max_concurrent
  pub in_all : s.active + length s.waiting + s.reserved ≤ s.max_concurrent + s.max_pending

start-IsBounded :
    (s : ChatQueue) (j : Job) (rest : List Job)
    → IsBounded s
    → s.active < s.max_concurrent
    → Takes (is_ready s) s.waiting j rest
    → IsBounded (start j rest s)
unfolding start is_ready
start-IsBounded s j rest v room (ready, long, _, _) =
    let free : has j.key s.active_keys ≡ false = ground arith in
    let none_there = has-times j.key s.active_keys free in
    let more = length-add j.key s.active_keys free in
    let a = v.counts_running in
    let b = v.counts_keys in
    let whole = v.in_all in
    record {
      counts_running = omega arith;
      counts_keys = omega arith;
      counts_open = v.counts_open;
      same_keys = λ k. omega (arith, times-add k j.key s.active_keys free, v.same_keys k);
      one_job = λ k. elim (Bool-cases (j.key == k)) [
        | inl same ↦
            let e : j.key ≡ k = ground arith in
            let none_k = subst (λ x. times x s.active_keys ≡ 0) e none_there in
            let h = v.same_keys k in ground arith
        | inr other ↦ let h = v.one_job k in ground arith
      ];
      in_time = omega arith;
      in_all = omega arith;
    }

pub drain-IsBounded : (fuel : List Job) (s : ChatQueue) → IsBounded s → IsBounded (drain fuel s)
unfolding drain
drain-IsBounded [] s v = v
drain-IsBounded (f ∷ fuel) s v = elim (Bool-cases (ltb s.active s.max_concurrent)) [
  | inr full ↦ rw (full, drain) v
  | inl room ↦ elim (Option-cases (take_first (is_ready s) s.waiting)) [
    | inl nothing ↦ rw (room, drain) (rw (nothing) v)
    | inr ((j, rest), found) ↦
        rw (room, drain)
          (rw (found) (
            drain-IsBounded fuel (start j rest s) (
              start-IsBounded s j rest v (ground arith)
                (take_first-some (is_ready s) s.waiting j rest found))))
  ]
]

reserve-IsBounded : (s : ChatQueue) → IsBounded s → IsBounded (reserve s).0
unfolding reserve
reserve-IsBounded s v =
    elim (Bool-cases (
      s.is_closed
      || leb (s.max_concurrent + s.max_pending) (s.active + length s.waiting + s.reserved))) [
        | inl full ↦ rw (full, reserve) v
        | inr room ↦
            let a = v.counts_open in
            rw (room, reserve)
              (record {
                counts_running = v.counts_running;
                counts_keys = v.counts_keys;
                counts_open = omega arith;
                same_keys = v.same_keys;
                one_job = v.one_job;
                in_time = v.in_time;
                in_all = ground arith;
              })
      ]

consume-IsBounded :
    (s : ChatQueue) (rest : List ℕ)
    → length s.open_reservations ≡ suc (length rest)
    → IsBounded s
    → IsBounded (consume rest s) × (s.reserved ≡ suc (consume rest s).reserved)
unfolding consume
consume-IsBounded s rest long v =
    let a = v.counts_open in
    let b = v.in_all in
    (
      record {
        counts_running = v.counts_running;
        counts_keys = v.counts_keys;
        counts_open = omega arith;
        same_keys = v.same_keys;
        one_job = v.one_job;
        in_time = v.in_time;
        in_all = omega arith;
      },
      omega arith,
    )

push-IsBounded :
    (s : ChatQueue) (j : Job)
    → s.active + length s.waiting + s.reserved < s.max_concurrent + s.max_pending
    → IsBounded s
    → IsBounded (push j s)
unfolding push
push-IsBounded s j room v = record {
  counts_running = v.counts_running;
  counts_keys = v.counts_keys;
  counts_open = v.counts_open;
  same_keys = v.same_keys;
  one_job = v.one_job;
  in_time = v.in_time;
  in_all = omega (arith, length-append s.waiting (j ∷ []));
}

commit-IsBounded :
    (ticket key : ℕ) (s : ChatQueue) → IsBounded s → IsBounded (commit ticket key s).0
unfolding commit consume
commit-IsBounded ticket key s v =
    elim (Option-cases (take_first (λ t. t == ticket) s.open_reservations)) [
      | inl missing ↦ rw (missing, commit) v
      | inr ((t, rest), found) ↦
          let (_, long, _, _) =
            take_first-some (λ t. t == ticket) s.open_reservations t rest found in
          let (w, less) = consume-IsBounded s rest long v in
          let whole = v.in_all in
          rw (found, commit)
            (drain-IsBounded _ _ (push-IsBounded (consume rest s) _ (omega arith) w))
    ]

release-IsBounded : (ticket : ℕ) (s : ChatQueue) → IsBounded s → IsBounded (release ticket s)
unfolding release
release-IsBounded ticket s v =
    elim (Option-cases (take_first (λ t. t == ticket) s.open_reservations)) [
      | inl missing ↦ rw (missing, release) v
      | inr ((t, rest), found) ↦
          let (_, long, _, _) =
            take_first-some (λ t. t == ticket) s.open_reservations t rest found in
          rw (found, release) ((consume-IsBounded s rest long v).0)
    ]

stop-IsBounded :
    (s : ChatQueue) (j : Job) (rest : List Job) (p : Job → Bool)
    → Takes p s.running j rest
    → IsBounded s
    → IsBounded (stop j rest s)
unfolding stop
stop-IsBounded s j rest p (_, long, counts, _) v =
    let fewer = length-delete j.key s.active_keys in
    let here = counts key_of j.key in
    let once = v.one_job j.key in
    let same = v.same_keys j.key in
    let a = v.counts_running in
    let b = v.counts_keys in
    let c = v.in_time in
    let d = v.in_all in
    let gone : times j.key s.active_keys ≡ 1 = ground arith in
    record {
      counts_running = omega arith;
      counts_keys = omega arith;
      counts_open = v.counts_open;
      same_keys = λ k.
          let e = times-delete k j.key s.active_keys in
          let f = counts key_of k in let g = v.same_keys k in let h = v.one_job k in ground arith;
      one_job = λ k. let f = counts key_of k in let h = v.one_job k in omega arith;
      in_time = omega arith;
      in_all = omega arith;
    }

finish-IsBounded : (ticket : ℕ) (s : ChatQueue) → IsBounded s → IsBounded (finish ticket s)
unfolding finish
finish-IsBounded ticket s v = elim (Option-cases (take_first (λ j. j.ticket == ticket) s.running)) [
  | inl missing ↦ rw (missing, finish) v
  | inr ((j, rest), found) ↦
      rw (found, finish)
        (drain-IsBounded _ _ (
          stop-IsBounded s j rest (λ j. j.ticket == ticket)
            (take_first-some (λ j. j.ticket == ticket) s.running j rest found) v))
]

close-IsBounded : (s : ChatQueue) → IsBounded s → IsBounded (close s)
unfolding close
close-IsBounded s v = record {
  counts_running = v.counts_running;
  counts_keys = v.counts_keys;
  counts_open = v.counts_open;
  same_keys = v.same_keys;
  one_job = v.one_job;
  in_time = v.in_time;
  in_all = v.in_all;
}

pub step-IsBounded : (s : ChatQueue) (c : Call) → IsBounded s → IsBounded (step s c)
unfolding step
step-IsBounded s Call.reserves v = reserve-IsBounded s v
step-IsBounded s Call.closes v = close-IsBounded s v
step-IsBounded s (Call.commits ticket key) v = commit-IsBounded ticket key s v
step-IsBounded s (Call.releases ticket) v = release-IsBounded ticket s v
step-IsBounded s (Call.finishes ticket) v = finish-IsBounded ticket s v

pub new-IsBounded : (c p : ℕ) → IsBounded (new_queue c p)
unfolding new_queue
new-IsBounded c p = record {
  counts_running = refl;
  counts_keys = refl;
  counts_open = refl;
  same_keys = λ k. refl;
  one_job = λ k. omega arith;
  in_time = omega arith;
  in_all = omega arith;
}

run_from : (cs : List Call) (s : ChatQueue) → IsBounded s → IsBounded (run s cs)
unfolding run
run_from [] s v = v
run_from (c ∷ cs) s v = run_from cs (step s c) (step-IsBounded s c v)

-- After any calls on a new queue, the counters agree with the running jobs, the active keys and
-- the open reservations; the running jobs are within their limit, all jobs and reservations
-- together within both limits; and no two running jobs have the same key.
pub run-IsBounded :
    (max_concurrent max_pending : ℕ) (calls : List Call)
    → IsBounded (run (new_queue max_concurrent max_pending) calls)
run-IsBounded max_concurrent max_pending calls =
    run_from calls (new_queue max_concurrent max_pending) (new-IsBounded max_concurrent max_pending)
