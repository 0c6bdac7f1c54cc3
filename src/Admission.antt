-- ===== src/Admission.antt =====
-- backend/src/p9/http/avatar-upload-admission.ts: the bounded admission of avatar uploads
-- (`BoundedAvatarUploadAdmission`). Keys are texts that are only compared, so numbers. Each call of
-- `acquire` that is let in or queued has a ticket; a lease whose `released` is false is an entry of
-- `leases`.
pub mod Count
pub mod Invariant
pub mod Dispatch
pub mod Calls
pub mod Reference
mod Tests
use backend_bmo_blabs.Base.{
  ℕ, suc, ◌+◌, ◌-◌, Bool, true, false, ◌&&◌, ◌||◌, not, Option, none, some, List, [], ◌∷◌, ◌++◌,
  ltb, ◌==◌, if◌then◌else◌, length,
}
use backend_bmo_blabs.Base.Dict.{Dict}
use Count.{get_count, increment, decrement, take_first, any}

pub record Principal : Type 0 where
  pub owner_key : ℕ
  pub ip_key : ℕ

pub record Limits : Type 0 where
  pub max_active : ℕ
  pub max_waiters : ℕ
  pub max_active_per_owner : ℕ
  pub max_waiters_per_owner : ℕ
  pub max_active_per_ip : ℕ
  pub max_waiters_per_ip : ℕ

pub record Slot : Type 0 where
  pub ticket : ℕ
  pub principal : Principal

abbrev pub owner_of : Slot → ℕ
owner_of w = w.principal.owner_key

abbrev pub ip_of : Slot → ℕ
ip_of w = w.principal.ip_key

pub record Admission : Type 0 where
  pub limits : Limits
  pub active : ℕ
  pub waiters : List Slot
  pub active_owners : Dict ℕ
  pub active_ips : Dict ℕ
  pub waiting_owners : Dict ℕ
  pub waiting_ips : Dict ℕ
  pub leases : List Slot
  pub next_ticket : ℕ

-- The test of the constructor, over numbers that are integers and not negative.
pub are_invalid : Limits → Bool
are_invalid l =
    ltb l.max_active 1
    || ltb l.max_active_per_owner 1
    || ltb l.max_active_per_ip 1
    || ltb l.max_active l.max_active_per_owner
    || ltb l.max_active l.max_active_per_ip
    || ltb l.max_waiters l.max_waiters_per_owner
    || ltb l.max_waiters l.max_waiters_per_ip

fresh : Limits → Admission
fresh l = record {
  limits = l;
  active = 0;
  waiters = [];
  active_owners = [];
  active_ips = [];
  waiting_owners = [];
  waiting_ips = [];
  leases = [];
  next_ticket = 0;
}

-- The constructor: `none` is the thrown error.
pub new_admission : Limits → Option Admission
unfolding are_invalid fresh
new_admission l = if are_invalid l then none else some (fresh l)

-- `#canActivate`
pub can_activate : Admission → Principal → Bool
can_activate s p =
    ltb s.active s.limits.max_active
    && ltb (get_count p.owner_key s.active_owners) s.limits.max_active_per_owner
    && ltb (get_count p.ip_key s.active_ips) s.limits.max_active_per_ip

-- `#canQueue`
pub can_queue : Admission → Principal → Bool
can_queue s p =
    ltb (length s.waiters) s.limits.max_waiters
    && ltb (get_count p.owner_key s.waiting_owners) s.limits.max_waiters_per_owner
    && ltb (get_count p.ip_key s.waiting_ips) s.limits.max_waiters_per_ip

-- `#activate`, and the lease that the caller then makes for the slot.
pub activate : Slot → Admission → Admission
activate w s = record s {
  active = s.active + 1;
  active_owners = increment w.principal.owner_key s.active_owners;
  active_ips = increment w.principal.ip_key s.active_ips;
  leases = w ∷ s.leases;
}

-- The waiter `w` leaves the queue, and `rest` stays.
pub dequeue : Slot → List Slot → Admission → Admission
dequeue w rest s = record s {
  waiters = rest;
  waiting_owners = decrement w.principal.owner_key s.waiting_owners;
  waiting_ips = decrement w.principal.ip_key s.waiting_ips;
}

-- `#deactivate`, for the lease `w`, whose `released` becomes true; `rest` are the other leases.
pub deactivate : Slot → List Slot → Admission → Admission
deactivate w rest s = record s {
  active = s.active - 1;
  active_owners = decrement w.principal.owner_key s.active_owners;
  active_ips = decrement w.principal.ip_key s.active_ips;
  leases = rest;
}

-- `#dispatch`: each round serves a waiter, so the waiters are fuel enough; the list counts them.
pub dispatch : List Slot → Admission → Admission
unfolding activate dequeue can_activate
dispatch [] s = s
dispatch (f ∷ fuel) s = elim (ltb s.active s.limits.max_active) [
  | false ↦ s
  | true ↦ elim (take_first (λ w. can_activate s w.principal) s.waiters) [
    | none ↦ s
    | some (w, rest) ↦ dispatch fuel (activate w (dequeue w rest s))
  ]
]

pub data Outcome : Type 0 where
  granted queued : ℕ → Outcome
  aborted unavailable : Outcome

pub next_slot : Admission → Principal → Slot
next_slot s p = record { ticket = s.next_ticket; principal = p }

pub enqueue : Slot → Admission → Admission
enqueue w s = record s {
  waiters = s.waiters ++ w ∷ [];
  waiting_owners = increment w.principal.owner_key s.waiting_owners;
  waiting_ips = increment w.principal.ip_key s.waiting_ips;
}

-- `acquire`; the Boolean is `signal?.aborted`.
pub acquire : Principal → Bool → Admission → Admission × Outcome
unfolding can_activate can_queue activate enqueue next_slot
acquire p is_aborted s =
    let w = next_slot s p in
    let t = record s { next_ticket = s.next_ticket + 1 } in
    if is_aborted
    then (s, aborted)
    else if can_activate s p
        && (length s.waiters == 0 || not (any (λ q. can_activate s q.principal) s.waiters))
    then (activate w t, granted w.ticket)
    else if can_queue s p
    then (enqueue w t, queued w.ticket)
    else (s, unavailable)

-- The `abort` event of a waiter's signal; it changes nothing if the waiter has been served.
pub abort : ℕ → Admission → Admission
unfolding dequeue
abort ticket s = elim (take_first (λ w. w.ticket == ticket) s.waiters) [
  | none ↦ s
  | some (w, rest) ↦ dequeue w rest s
]

-- `release` of a lease; it changes nothing if the lease has been released.
pub release : ℕ → Admission → Admission
unfolding deactivate dispatch
release ticket s = elim (take_first (λ w. w.ticket == ticket) s.leases) [
  | none ↦ s
  | some (w, rest) ↦ dispatch s.waiters (deactivate w rest s)
]

pub data Call : Type 0 where
  acquires : Principal → Bool → Call
  aborts releases : ℕ → Call

pub step : Call → Admission → Admission
step (acquires p is_aborted) s = (acquire p is_aborted s).0
step (aborts ticket) s = abort ticket s
step (releases ticket) s = release ticket s

pub run : List Call → Admission → Admission
run [] s = s
run (c ∷ cs) s = run cs (step c s)
