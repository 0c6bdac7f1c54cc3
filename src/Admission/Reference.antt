-- ===== src/Admission/Reference.antt =====
-- The admission without its counters: a reference that counts in the lists themselves, that does
-- not ask whether somebody waits when a caller comes, and whose loop has no test of its own.
use backend_bmo_blabs.Base.{
  ℕ, ◌+◌, ◌≡◌, refl, sym, ap, ◌∙◌, inl, inr, Bool, ◌&&◌, none, some, List, [], ◌∷◌, ◌++◌, ltb,
  length, if◌then◌else◌, arith, Bool-cases, Option-cases,
}
use backend_bmo_blabs.Admission.Count.{NoneFits, tally, take_first, take_first-some}
use backend_bmo_blabs.Admission.Invariant.{Inv, deactivate-Inv}
use backend_bmo_blabs.Admission.Dispatch.{may_enter, full_fits, enter-Inv}
use backend_bmo_blabs.Admission.Calls.{
  Good, acquire_ends, has_ticket, step-Good, run-Good, new_admission-Good, ticked,
}
use backend_bmo_blabs.Admission.{
  Principal, Limits, Slot, Admission, Outcome, granted, queued, aborted, unavailable, Call,
  acquires, aborts, releases, owner_of, ip_of, new_admission, fresh, can_activate, can_queue,
  activate, dequeue, deactivate, enqueue, next_slot, dispatch, acquire, abort, release, step, run,
}

-- Who uploads, who waits in the order of arrival, and the next ticket.
pub record View : Type 0 where
  pub leases : List Slot
  pub waiters : List Slot
  pub next_ticket : ℕ

abbrev pub view : Admission → View
view s = record { leases = s.leases; waiters = s.waiters; next_ticket = s.next_ticket }

abbrev pub nobody : View
nobody = record { leases = []; waiters = []; next_ticket = 0 }

-- Fewer slots than the limits in total, of the owner and of the address.
abbrev has_fewer : ℕ → ℕ → ℕ → Principal → List Slot → Bool
has_fewer max max_per_owner max_per_ip p slots =
    ltb (length slots) max
    && ltb (tally owner_of p.owner_key slots) max_per_owner
    && ltb (tally ip_of p.ip_key slots) max_per_ip

module _ (l : Limits) where
  abbrev has_room : View → Principal → Bool
  has_room v p = has_fewer l.max_active l.max_active_per_owner l.max_active_per_ip p v.leases

  abbrev has_place : View → Principal → Bool
  has_place v p = has_fewer l.max_waiters l.max_waiters_per_owner l.max_waiters_per_ip p v.waiters

  abbrev new_slot : View → Principal → Slot
  new_slot v p = record { ticket = v.next_ticket; principal = p }

  -- A caller uploads if there is room, else waits if there is a place, else is refused.
  abbrev pub let_in : Principal → Bool → View → View × Outcome
  let_in p is_aborted v =
      if is_aborted
      then (v, aborted)
      else if has_room v p
      then (
        record v { leases = new_slot v p ∷ v.leases; next_ticket = v.next_ticket + 1 },
        granted v.next_ticket,
      )
      else if has_place v p
      then (
        record v { waiters = v.waiters ++ new_slot v p ∷ []; next_ticket = v.next_ticket + 1 },
        queued v.next_ticket,
      )
      else (v, unavailable)

  -- As often as there is one, the first waiter for whom there is room uploads.
  unfoldable pub serve : List Slot → View → View
  serve [] v = v
  serve (f ∷ fuel) v = elim (take_first (λ w. has_room v w.principal) v.waiters) [
    | none ↦ v
    | some (w, rest) ↦ serve fuel (record v { leases = w ∷ v.leases; waiters = rest })
  ]

  unfoldable pub advance : Call → View → View
  unfolding serve
  advance (acquires p is_aborted) v = (let_in p is_aborted v).0
  advance (aborts ticket) v = elim (take_first (has_ticket ticket) v.waiters) [
    | none ↦ v
    | some (w, rest) ↦ record v { waiters = rest }
  ]
  advance (releases ticket) v = elim (take_first (has_ticket ticket) v.leases) [
    | none ↦ v
    | some (w, rest) ↦ serve v.waiters (record v { leases = rest })
  ]

  unfoldable pub replay : List Call → View → View
  replay [] v = v
  replay (c ∷ cs) v = replay cs (advance c v)

can_activate-has_room :
    (s : Admission) (p : Principal) → Inv s → can_activate s p ≡ has_room s.limits (view s) p
unfolding can_activate
can_activate-has_room s p v =
    rw (v.held, v.active_by_owner.exact p.owner_key, v.active_by_ip.exact p.ip_key) refl

can_queue-has_place :
    (s : Admission) (p : Principal) → Inv s → can_queue s p ≡ has_place s.limits (view s) p
unfolding can_queue
can_queue-has_place s p v =
    rw (v.waiting_by_owner.exact p.owner_key, v.waiting_by_ip.exact p.ip_key) refl

take_first-same :
    (s : Admission)
    → Inv s
    → take_first (may_enter s) s.waiters
      ≡ take_first (λ w. has_room s.limits (view s) w.principal) s.waiters
take_first-same s v =
    let same : may_enter s ≡ (λ w. has_room s.limits (view s) w.principal) =
      λ i w. can_activate-has_room s w.principal v i in
    ap (λ f. take_first f s.waiters) same

NoneFits-take_first : (f : Slot → Bool) (ws : List Slot) → NoneFits f ws → take_first f ws ≡ none
unfolding take_first
NoneFits-take_first f [] h = refl
NoneFits-take_first f (w ∷ ws) h = ground (arith, NoneFits-take_first f ws h.1)

abbrev seen : Admission × Outcome → View × Outcome
seen (s, o) = (view s, o)

acquire-let_in :
    (l : Limits) (p : Principal) (b : Bool) (s : Admission)
    → Good l s
    → seen (acquire p b s) ≡ let_in s.limits p b (view s)
unfolding activate enqueue next_slot ticked
acquire-let_in l p b s g =
    let room = can_activate-has_room s p g.inv in
    let place = can_queue-has_place s p g.inv in
    elim (acquire_ends p b s g.saturated) [
      | inl (e, is_aborted) ↦ ap seen e ∙ rw (is_aborted) refl
      | inr (inl (e, waits, fits)) ↦ ap seen e ∙ rw (waits, sym room ∙ fits) refl
      | inr (inr (inl (e, waits, full, fits))) ↦
          ap seen e ∙ rw (waits, sym room ∙ full, sym place ∙ fits) refl
      | inr (inr (inr (e, waits, full, over))) ↦
          ap seen e ∙ rw (waits, sym room ∙ full, sym place ∙ over) refl
    ]

dispatch-serve :
    (fuel : List Slot) (s : Admission)
    → Inv s
    → view (dispatch fuel s) ≡ serve s.limits fuel (view s)
unfolding dispatch serve activate dequeue
dispatch-serve [] s v = refl
dispatch-serve (f ∷ fuel) s v = elim (Bool-cases (ltb s.active s.limits.max_active)) [
  | inr full ↦
      let missing = NoneFits-take_first _ s.waiters (full_fits s s.waiters full) in
      rw (full, dispatch) (rw (sym (take_first-same s v) ∙ missing, serve) refl)
  | inl room ↦ elim (Option-cases (take_first (may_enter s) s.waiters)) [
    | inl missing ↦
        rw (room, dispatch)
          (rw (missing, dispatch) (rw (sym (take_first-same s v) ∙ missing, serve) refl))
    | inr ((w, rest), found) ↦
        rw (room, dispatch)
          (rw (found, dispatch)
            (rw (sym (take_first-same s v) ∙ found, serve)
              (dispatch-serve fuel (activate w (dequeue w rest s))
                (enter-Inv s w rest v (take_first-some _ s.waiters w rest found)))))
  ]
]

-- A round of the dispatch needs the limits of the admission, which no call changes.
step-advance :
    (l : Limits) (c : Call) (s : Admission)
    → Good l s
    → view (step c s) ≡ advance s.limits c (view s)
unfolding step advance abort release dequeue deactivate
step-advance l (acquires p b) s g = ap (λ c. c.0) (acquire-let_in l p b s g)
step-advance l (aborts ticket) s g =
    elim (Option-cases (take_first (has_ticket ticket) s.waiters)) [
      | inl missing ↦ rw (missing, abort, advance) refl
      | inr ((w, rest), found) ↦ rw (found, abort, advance) refl
    ]
step-advance l (releases ticket) s g =
    elim (Option-cases (take_first (has_ticket ticket) s.leases)) [
      | inl missing ↦ rw (missing, release, advance) refl
      | inr ((w, rest), found) ↦
          let taken = take_first-some (has_ticket ticket) s.leases w rest found in
          rw (found, release, advance)
            (dispatch-serve s.waiters (deactivate w rest s)
              (deactivate-Inv (has_ticket ticket) w rest s g.inv taken))
    ]

run-replay :
    (l : Limits) (cs : List Call) (s : Admission)
    → Good l s
    → view (run cs s) ≡ replay l cs (view s)
unfolding run replay
run-replay l [] s g = refl
run-replay l (c ∷ cs) s g =
    run-replay l cs (step c s) (step-Good l c s g)
    ∙ ap (replay l cs) (step-advance l c s g ∙ ap (λ m. advance m c (view s)) g.fixed)

new_admission-nobody : (l : Limits) (s : Admission) → new_admission l ≡ some s → view s ≡ nobody
unfolding new_admission fresh
new_admission-nobody l s made = sym (ap view same)
  where
    same : fresh l ≡ s
    same = ground arith

-- After any calls on a new admission, who uploads, who waits in which order and the next ticket are
-- those of the reference after the same calls, and `acquire` then answers and goes on as the
-- reference does: aborted, let in, queued or refused by the numbers of slots in its lists.
pub runs_as_reference :
    (l : Limits) (s : Admission) (cs : List Call) (p : Principal) (b : Bool)
    → new_admission l ≡ some s
    → (view (run cs s) ≡ replay l cs nobody)
      × (((view (acquire p b (run cs s)).0), (acquire p b (run cs s)).1)
          ≡ let_in l p b (replay l cs nobody))
runs_as_reference l s cs p b made =
    let g = new_admission-Good l s made in
    let now = run-Good l cs s g in
    let same : view (run cs s) ≡ replay l cs nobody =
      run-replay l cs s g ∙ ap (replay l cs) (new_admission-nobody l s made) in
    (
      same,
      acquire-let_in l p b (run cs s) now
          ∙ ap (λ m. let_in m p b (view (run cs s))) now.fixed
          ∙ ap (let_in l p b) same,
    )
