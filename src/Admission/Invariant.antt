-- ===== src/Admission/Invariant.antt =====
-- What holds of the admission between two calls: the counts are those of the leases and of the
-- waiters, and no limit is passed.
use backend_bmo_blabs.Base.{
  ℕ, ◌+◌, ◌≤◌, ◌<◌, ◌≡◌, refl, subst, Bool, true, some, List, [], ◌∷◌, ◌++◌, ◌==◌, if◌then◌else◌,
  length, length-append, arith,
}
use backend_bmo_blabs.Base.Dict.{Dict, lookup-empty}
use backend_bmo_blabs.Admission.Count.{
  get_count, increment, decrement, get_count-increment, get_count-decrement, tally, tally-append,
  Takes,
}
use backend_bmo_blabs.Admission.{
  Limits, Slot, Admission, owner_of, ip_of, fresh, new_admission, can_activate, can_queue, activate,
  dequeue, deactivate, enqueue,
}

-- The counting map is that of the slots' keys, and none of its counts is above the limit.
pub record Counts (key : Slot → ℕ) (slots : List Slot) (counts : Dict ℕ) (max : ℕ) : Type 0 where
  pub exact : (k : ℕ) → get_count k counts ≡ tally key k slots
  pub below : (k : ℕ) → get_count k counts ≤ max

pub record Inv (s : Admission) : Type 0 where
  pub held : s.active ≡ length s.leases
  pub fits : s.active ≤ s.limits.max_active
  pub queue_fits : length s.waiters ≤ s.limits.max_waiters
  pub active_by_owner : Counts owner_of s.leases s.active_owners s.limits.max_active_per_owner
  pub active_by_ip : Counts ip_of s.leases s.active_ips s.limits.max_active_per_ip
  pub waiting_by_owner : Counts owner_of s.waiters s.waiting_owners s.limits.max_waiters_per_owner
  pub waiting_by_ip : Counts ip_of s.waiters s.waiting_ips s.limits.max_waiters_per_ip

module _ (key : Slot → ℕ) (w : Slot) (slots : List Slot) (counts : Dict ℕ) (max : ℕ)
    (v : Counts key slots counts max) where
  Counts-push :
      get_count (key w) counts < max → Counts key (w ∷ slots) (increment (key w) counts) max
  Counts-push room = record {
    exact = λ k. ground (arith, get_count-increment k (key w) counts, v.exact k);
    below = λ k. ground (arith, get_count-increment k (key w) counts, v.below k);
  }

  Counts-append :
      get_count (key w) counts < max → Counts key (slots ++ w ∷ []) (increment (key w) counts) max
  Counts-append room = record {
    exact = λ k.
        ground (
          arith,
          get_count-increment k (key w) counts,
          v.exact k,
          tally-append key k slots (w ∷ []),
        );
    below = λ k. ground (arith, get_count-increment k (key w) counts, v.below k);
  }

  Counts-take :
      (rest : List Slot)
      → ((k : ℕ) → tally key k slots ≡ (if key w == k then 1 else 0) + tally key k rest)
      → Counts key rest (decrement (key w) counts) max
  Counts-take rest less = record {
    exact = λ k. ground (arith, get_count-decrement k (key w) counts, v.exact k, less k);
    below = λ k. ground (arith, get_count-decrement k (key w) counts, v.below k);
  }

pub activate-Inv :
    (w : Slot) (s : Admission) → Inv s → can_activate s w.principal ≡ true → Inv (activate w s)
unfolding can_activate activate
activate-Inv w s v room = record {
  held = ground (arith, v.held);
  fits = ground arith;
  queue_fits = v.queue_fits;
  active_by_owner =
      Counts-push owner_of w s.leases s.active_owners _ v.active_by_owner (ground arith);
  active_by_ip = Counts-push ip_of w s.leases s.active_ips _ v.active_by_ip (ground arith);
  waiting_by_owner = v.waiting_by_owner;
  waiting_by_ip = v.waiting_by_ip;
}

pub enqueue-Inv :
    (w : Slot) (s : Admission) → Inv s → can_queue s w.principal ≡ true → Inv (enqueue w s)
unfolding can_queue enqueue
enqueue-Inv w s v room = record {
  held = v.held;
  fits = v.fits;
  queue_fits = ground (arith, length-append s.waiters (w ∷ []));
  active_by_owner = v.active_by_owner;
  active_by_ip = v.active_by_ip;
  waiting_by_owner =
      Counts-append owner_of w s.waiters s.waiting_owners _ v.waiting_by_owner (ground arith);
  waiting_by_ip = Counts-append ip_of w s.waiters s.waiting_ips _ v.waiting_by_ip (ground arith);
}

pub dequeue-Inv :
    (p : Slot → Bool) (w : Slot) (rest : List Slot) (s : Admission)
    → Inv s
    → Takes p s.waiters w rest
    → Inv (dequeue w rest s)
unfolding dequeue
dequeue-Inv p w rest s v (_, long, counts, _) = record {
  held = v.held;
  fits = v.fits;
  queue_fits = omega (arith, v.queue_fits);
  active_by_owner = v.active_by_owner;
  active_by_ip = v.active_by_ip;
  waiting_by_owner =
      Counts-take owner_of w s.waiters s.waiting_owners _ v.waiting_by_owner rest (counts owner_of);
  waiting_by_ip = Counts-take ip_of w s.waiters s.waiting_ips _ v.waiting_by_ip rest (counts ip_of);
}

pub deactivate-Inv :
    (p : Slot → Bool) (w : Slot) (rest : List Slot) (s : Admission)
    → Inv s
    → Takes p s.leases w rest
    → Inv (deactivate w rest s)
unfolding deactivate
deactivate-Inv p w rest s v (_, long, counts, _) = record {
  held = omega (arith, v.held);
  fits = omega (arith, v.fits);
  queue_fits = v.queue_fits;
  active_by_owner =
      Counts-take owner_of w s.leases s.active_owners _ v.active_by_owner rest (counts owner_of);
  active_by_ip = Counts-take ip_of w s.leases s.active_ips _ v.active_by_ip rest (counts ip_of);
  waiting_by_owner = v.waiting_by_owner;
  waiting_by_ip = v.waiting_by_ip;
}

Counts-nil : (key : Slot → ℕ) (max : ℕ) → Counts key [] [] max
unfolding get_count
Counts-nil key max = record {
  exact = λ k. ground (arith, lookup-empty {0} {V = ℕ} k);
  below = λ k. ground (arith, lookup-empty {0} {V = ℕ} k);
}

pub new_admission-Inv : (l : Limits) (s : Admission) → new_admission l ≡ some s → Inv s
unfolding new_admission fresh
new_admission-Inv l s e = subst Inv made record {
  held = refl;
  fits = omega arith;
  queue_fits = omega arith;
  active_by_owner = Counts-nil owner_of _;
  active_by_ip = Counts-nil ip_of _;
  waiting_by_owner = Counts-nil owner_of _;
  waiting_by_ip = Counts-nil ip_of _;
}
  where
    made : fresh l ≡ s
    made = ground arith
