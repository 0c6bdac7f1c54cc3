-- ===== src/Admission/Calls.antt =====
-- Every call keeps the limits, and leaves nobody waiting who could be let in.
use backend_bmo_blabs.Base.{
  ℕ, ◌+◌, ◌≤◌, ◌≡◌, refl, sym, ◌∙◌, subst, ◌⊎◌, inl, inr, Bool, true, false, some, List, [], ◌∷◌,
  ◌==◌, length, arith, Bool-cases, Option-cases,
}
use backend_bmo_blabs.Admission.Count.{
  NoneFits, NoneFits-mono, NoneFits-append, NoneFits-any_true, take_first, take_first-some, tally,
  get_count-increment,
}
use backend_bmo_blabs.Admission.Invariant.{
  Inv, activate-Inv, enqueue-Inv, dequeue-Inv, deactivate-Inv, new_admission-Inv,
}
use backend_bmo_blabs.Admission.Dispatch.{
  IsSaturated, dispatch-Inv, dispatch-IsSaturated, dispatch-limits,
}
use backend_bmo_blabs.Admission.{
  Principal, Limits, Slot, Admission, granted, queued, aborted, unavailable, Call, acquires, aborts,
  releases, owner_of, ip_of, new_admission, fresh, can_activate, can_queue, activate, dequeue,
  deactivate, enqueue, next_slot, acquire, abort, release, step, run,
}

pub record Good (l : Limits) (s : Admission) : Type 0 where
  pub fixed : s.limits ≡ l
  pub inv : Inv s
  pub saturated : IsSaturated s

-- Letting one in makes it no easier for another.
activate-can_activate :
    (w : Slot) (s : Admission) (q : Slot)
    → can_activate s q.principal ≡ false
    → can_activate (activate w s) q.principal ≡ false
unfolding can_activate activate
activate-can_activate w s q h = ground (
  arith,
  get_count-increment q.principal.owner_key w.principal.owner_key s.active_owners,
  get_count-increment q.principal.ip_key w.principal.ip_key s.active_ips,
)

activate-IsSaturated : (w : Slot) (s : Admission) → IsSaturated s → IsSaturated (activate w s)
unfolding activate
activate-IsSaturated w s h = NoneFits-mono _ _ (activate-can_activate w s) s.waiters h

enqueue-IsSaturated :
    (w : Slot) (s : Admission)
    → IsSaturated s
    → can_activate s w.principal ≡ false
    → IsSaturated (enqueue w s)
unfolding enqueue can_activate
enqueue-IsSaturated w s h no_room =
    NoneFits-append (λ q. can_activate s q.principal) s.waiters (w ∷ []) h (no_room, tt)

-- The ticket counter plays no part.
unfoldable pub ticked : Admission → Admission
ticked s = record s { next_ticket = s.next_ticket + 1 }

ticked-Inv : (s : Admission) → Inv s → Inv (ticked s)
unfolding ticked
ticked-Inv s v = record {
  held = v.held;
  fits = v.fits;
  queue_fits = v.queue_fits;
  active_by_owner = v.active_by_owner;
  active_by_ip = v.active_by_ip;
  waiting_by_owner = v.waiting_by_owner;
  waiting_by_ip = v.waiting_by_ip;
}

-- While nobody waits who could be let in, `acquire` has four ends, told apart by its tests: it is
-- aborted and changes nothing; it lets the caller in exactly when the limits on active uploads
-- have room; else it queues the caller exactly when the limits on waiters have room; else it
-- refuses and changes nothing.
pub acquire_ends :
    (p : Principal) (b : Bool) (s : Admission)
    → IsSaturated s
    → let w = next_slot s p in
      ((acquire p b s ≡ (s, aborted)) × (b ≡ true))
      ⊎ ((acquire p b s ≡ (activate w (ticked s), granted s.next_ticket))
          × (b ≡ false)
          × (can_activate s p ≡ true))
      ⊎ ((acquire p b s ≡ (enqueue w (ticked s), queued s.next_ticket))
          × (b ≡ false)
          × (can_activate s p ≡ false)
          × (can_queue s p ≡ true))
      ⊎ ((acquire p b s ≡ (s, unavailable))
          × (b ≡ false)
          × (can_activate s p ≡ false)
          × (can_queue s p ≡ false))
unfolding acquire ticked
acquire_ends p true s h = inl (refl, refl)
acquire_ends p false s h =
    let none_fit = NoneFits-any_true (λ q. can_activate s q.principal) s.waiters h in
    elim (Bool-cases (can_activate s p)) [
      | inl room ↦ inr (inl (ground arith, refl, room))
      | inr full ↦ elim (Bool-cases (can_queue s p)) [
        | inl place ↦ inr (inr (inl (ground arith, refl, full, place)))
        | inr no_place ↦ inr (inr (inr (ground arith, refl, full, no_place)))
      ]
    ]

activate_fixed : (w : Slot) (s : Admission) → (activate w (ticked s)).limits ≡ s.limits
unfolding activate ticked
activate_fixed w s = refl

enqueue_fixed : (w : Slot) (s : Admission) → (enqueue w (ticked s)).limits ≡ s.limits
unfolding enqueue ticked
enqueue_fixed w s = refl

dequeue_fixed : (w : Slot) (rest : List Slot) (s : Admission) → (dequeue w rest s).limits ≡ s.limits
unfolding dequeue
dequeue_fixed w rest s = refl

deactivate_fixed :
    (w : Slot) (rest : List Slot) (s : Admission) → (deactivate w rest s).limits ≡ s.limits
unfolding deactivate
deactivate_fixed w rest s = refl

abort-IsSaturated :
    (w : Slot) (rest : List Slot) (s : Admission)
    → NoneFits (λ q. can_activate s q.principal) rest
    → IsSaturated (dequeue w rest s)
unfolding dequeue can_activate
abort-IsSaturated w rest s h = h

deactivate-length :
    (w : Slot) (rest : List Slot) (s : Admission)
    → length (deactivate w rest s).waiters ≡ length s.waiters
unfolding deactivate
deactivate-length w rest s = refl

acquire-Good :
    (l : Limits) (p : Principal) (b : Bool) (s : Admission) → Good l s → Good l (acquire p b s).0
unfolding next_slot ticked can_activate can_queue
acquire-Good l p b s g =
    let v = ticked-Inv s g.inv in
    let w = next_slot s p in
    elim (acquire_ends p b s g.saturated) [
      | inl (e, _) ↦ subst (λ c. Good l c.0) (sym e) g
      | inr (inl (e, _, room)) ↦
          subst (λ c. Good l c.0) (sym e)
            record {
              fixed = activate_fixed w s ∙ g.fixed;
              inv = activate-Inv w (ticked s) v room;
              saturated = activate-IsSaturated w (ticked s) g.saturated;
            }
      | inr (inr (inl (e, _, full, place))) ↦
          subst (λ c. Good l c.0) (sym e)
            record {
              fixed = enqueue_fixed w s ∙ g.fixed;
              inv = enqueue-Inv w (ticked s) v place;
              saturated = enqueue-IsSaturated w (ticked s) g.saturated full;
            }
      | inr (inr (inr refused)) ↦ subst (λ c. Good l c.0) (sym refused.0) g
    ]

abbrev pub has_ticket : ℕ → Slot → Bool
has_ticket ticket w = w.ticket == ticket

abort-Good : (l : Limits) (ticket : ℕ) (s : Admission) → Good l s → Good l (abort ticket s)
unfolding abort
abort-Good l ticket s g = elim (Option-cases (take_first (has_ticket ticket) s.waiters)) [
  | inl missing ↦ rw (missing, abort) g
  | inr ((w, rest), found) ↦
      let taken = take_first-some (has_ticket ticket) s.waiters w rest found in
      rw (found, abort)
        record {
          fixed = dequeue_fixed w rest s ∙ g.fixed;
          inv = dequeue-Inv (has_ticket ticket) w rest s g.inv taken;
          saturated = abort-IsSaturated w rest s (taken.3 _ g.saturated);
        }
]

release-Good : (l : Limits) (ticket : ℕ) (s : Admission) → Good l s → Good l (release ticket s)
unfolding release
release-Good l ticket s g = elim (Option-cases (take_first (has_ticket ticket) s.leases)) [
  | inl missing ↦ rw (missing, release) g
  | inr ((w, rest), found) ↦
      let taken = take_first-some (has_ticket ticket) s.leases w rest found in
      rw (found, release)
        record {
          fixed =
              dispatch-limits s.waiters (deactivate w rest s) ∙ deactivate_fixed w rest s ∙ g.fixed;
          inv =
              dispatch-Inv s.waiters (deactivate w rest s)
                (deactivate-Inv (has_ticket ticket) w rest s g.inv taken);
          saturated =
              dispatch-IsSaturated s.waiters (deactivate w rest s)
                (omega (arith, deactivate-length w rest s));
        }
]

pub step-Good : (l : Limits) (c : Call) (s : Admission) → Good l s → Good l (step c s)
unfolding step
step-Good l (acquires p b) s g = acquire-Good l p b s g
step-Good l (aborts ticket) s g = abort-Good l ticket s g
step-Good l (releases ticket) s g = release-Good l ticket s g

pub run-Good : (l : Limits) (cs : List Call) (s : Admission) → Good l s → Good l (run cs s)
unfolding run
run-Good l [] s g = g
run-Good l (c ∷ cs) s g = run-Good l cs (step c s) (step-Good l c s g)

new_admission_fixed : (l : Limits) (s : Admission) → new_admission l ≡ some s → s.limits ≡ l
unfolding new_admission fresh
new_admission_fixed l s e = ground arith

new_admission-IsSaturated : (l : Limits) (s : Admission) → new_admission l ≡ some s → IsSaturated s
unfolding new_admission fresh
new_admission-IsSaturated l s e = subst IsSaturated made tt
  where
    made : fresh l ≡ s
    made = ground arith

-- The limits, for the owner and the address `k`.
abbrev pub Within : ℕ → Admission → Limits → Type 0
Within k t l =
    (t.active ≡ length t.leases)
    × (length t.leases ≤ l.max_active)
    × (tally owner_of k t.leases ≤ l.max_active_per_owner)
    × (tally ip_of k t.leases ≤ l.max_active_per_ip)
    × (length t.waiters ≤ l.max_waiters)
    × (tally owner_of k t.waiters ≤ l.max_waiters_per_owner)
    × (tally ip_of k t.waiters ≤ l.max_waiters_per_ip)

Inv-Within : (k : ℕ) (t : Admission) → Inv t → Within k t t.limits
Inv-Within k t v = omega (
  arith,
  v,
  v.active_by_owner.exact k,
  v.active_by_owner.below k,
  v.active_by_ip.exact k,
  v.active_by_ip.below k,
  v.waiting_by_owner.exact k,
  v.waiting_by_owner.below k,
  v.waiting_by_ip.exact k,
  v.waiting_by_ip.below k,
)

pub new_admission-Good : (l : Limits) (s : Admission) → new_admission l ≡ some s → Good l s
new_admission-Good l s made = record {
  fixed = new_admission_fixed l s made;
  inv = new_admission-Inv l s made;
  saturated = new_admission-IsSaturated l s made;
}

-- After any calls on a new admission, the uploads that hold a lease are within the limit, for each
-- owner and for each address too, and so are the waiters.
pub run-Within :
    (l : Limits) (s : Admission) (cs : List Call) (k : ℕ)
    → new_admission l ≡ some s
    → Within k (run cs s) l
run-Within l s cs k made =
    let g = run-Good l cs s (new_admission-Good l s made) in
    subst (Within k (run cs s)) g.fixed (Inv-Within k (run cs s) g.inv)

-- After any calls on a new admission, nobody waits who could be let in.
pub run-IsSaturated :
    (l : Limits) (s : Admission) (cs : List Call)
    → new_admission l ≡ some s
    → IsSaturated (run cs s)
run-IsSaturated l s cs made = (run-Good l cs s (new_admission-Good l s made)).saturated
