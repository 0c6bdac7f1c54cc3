-- ===== src/Chat/Queue.antt =====
-- `BoundedChatQueue` of backend/src/p9/services/chat.service.ts. A reservation is a ticket, and is
-- open until it is consumed. A job is the ticket that it was committed under; the jobs that run are
-- part of the state. `waitForIdle` waits for `is_idle`.
pub mod Keys
pub mod Bounded
pub mod Drained
mod Tests
use backend_bmo_blabs.Base.{
  ℕ, suc, ◌+◌, ◌-◌, Bool, true, false, ◌&&◌, ◌||◌, not, Option, none, some, List, [], ◌∷◌, ◌++◌,
  Result, ok, err, ltb, leb, ◌==◌, if◌then◌else◌, length,
}
use backend_bmo_blabs.Base.Picking.{take_first}
use Keys.{has, add, delete}

pub record Job : Type 0 where
  pub ticket : ℕ
  pub key : ℕ

pub record ChatQueue : Type 0 where
  pub max_concurrent : ℕ
  pub max_pending : ℕ
  pub waiting : List Job
  pub active_keys : List ℕ
  pub active : ℕ
  pub reserved : ℕ
  pub is_closed : Bool
  pub open_reservations : List ℕ
  pub running : List Job
  pub next_ticket : ℕ

unfoldable pub new_queue : ℕ → ℕ → ChatQueue
new_queue max_concurrent max_pending = record {
  max_concurrent = max_concurrent;
  max_pending = max_pending;
  waiting = [];
  active_keys = [];
  active = 0;
  reserved = 0;
  is_closed = false;
  open_reservations = [];
  running = [];
  next_ticket = 0;
}

-- `reserve`: `none` is null.
unfoldable pub reserve : ChatQueue → ChatQueue × Option ℕ
reserve s =
    if s.is_closed
      || leb (s.max_concurrent + s.max_pending) (s.active + length s.waiting + s.reserved)
    then (s, none)
    else (
      record s {
        reserved = s.reserved + 1;
        open_reservations = s.next_ticket ∷ s.open_reservations;
        next_ticket = s.next_ticket + 1;
      },
      some s.next_ticket,
    )

-- A round of `#drain` for the job `j`; `rest` keeps waiting.
pub start : Job → List Job → ChatQueue → ChatQueue
unfolding add
start j rest s = record s {
  waiting = rest;
  active = s.active + 1;
  active_keys = add j.key s.active_keys;
  running = j ∷ s.running;
}

-- The key of no running job.
pub is_ready : ChatQueue → Job → Bool
unfolding has
is_ready s j = not (has j.key s.active_keys)

-- `#drain`: each round starts a waiting job, so those are fuel enough; the list counts them.
pub drain : List Job → ChatQueue → ChatQueue
unfolding start is_ready
drain [] s = s
drain (f ∷ fuel) s = elim (ltb s.active s.max_concurrent) [
  | false ↦ s
  | true ↦ elim (take_first (is_ready s) s.waiting) [
    | none ↦ s
    | some (j, rest) ↦ drain fuel (start j rest s)
  ]
]

-- The reservation leaves the open ones.
pub consume : List ℕ → ChatQueue → ChatQueue
consume rest s = record s { reserved = s.reserved - 1; open_reservations = rest }

pub push : Job → ChatQueue → ChatQueue
push j s = record s { waiting = s.waiting ++ j ∷ [] }

-- `commit`: `false` is the thrown error.
pub commit : ℕ → ℕ → ChatQueue → ChatQueue × Bool
unfolding drain consume push
commit ticket key s = elim (take_first (λ t. t == ticket) s.open_reservations) [
  | none ↦ (s, false)
  | some (t, rest) ↦
      let pushed = push (record { ticket = ticket; key = key }) (consume rest s) in
      (drain pushed.waiting pushed, true)
]

-- `release` of a reservation.
pub release : ℕ → ChatQueue → ChatQueue
unfolding consume
release ticket s = elim (take_first (λ t. t == ticket) s.open_reservations) [
  | none ↦ s
  | some (t, rest) ↦ consume rest s
]

-- The running job `j` leaves; `rest` keeps running.
pub stop : Job → List Job → ChatQueue → ChatQueue
unfolding delete
stop j rest s = record s {
  active = s.active - 1;
  active_keys = delete j.key s.active_keys;
  running = rest;
}

-- The `finally` of a job, which runs once for each job that was started.
pub finish : ℕ → ChatQueue → ChatQueue
unfolding drain stop
finish ticket s = elim (take_first (λ j. j.ticket == ticket) s.running) [
  | none ↦ s
  | some (j, rest) ↦ drain s.waiting (stop j rest s)
]

-- The first step of `close`.
pub close : ChatQueue → ChatQueue
close s = record s { is_closed = true }

-- The test of `waitForIdle` and `#resolveIdle`.
pub is_idle : ChatQueue → Bool
is_idle s = s.active == 0 && length s.waiting == 0 && s.reserved == 0

pub data Call : Type 0 where
  reserves closes : Call
  commits : ℕ → ℕ → Call
  releases finishes : ℕ → Call

pub step : ChatQueue → Call → ChatQueue
unfolding reserve commit release finish close
step s Call.reserves = (reserve s).0
step s Call.closes = close s
step s (Call.commits ticket key) = (commit ticket key s).0
step s (Call.releases ticket) = release ticket s
step s (Call.finishes ticket) = finish ticket s

pub run : ChatQueue → List Call → ChatQueue
unfolding step
run s [] = s
run s (c ∷ cs) = run (step s c) cs
