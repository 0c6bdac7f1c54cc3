-- ===== src/Admission/Dispatch.antt =====
-- Dispatching keeps the invariant and stops only when no waiter can be let in.
use backend_bmo_blabs.Base.{
  ◌≤◌, ◌≡◌, refl, sym, ap, ◌∙◌, subst, ◌⊎◌, inl, inr, Bool, false, List, [], ◌∷◌, ltb, length,
  arith, Bool-cases, Option-cases,
}
use backend_bmo_blabs.Admission.Count.{
  Takes, NoneFits, take_first, take_first-none, take_first-some,
}
use backend_bmo_blabs.Admission.Invariant.{Inv, activate-Inv, dequeue-Inv}
use backend_bmo_blabs.Admission.{Slot, Admission, can_activate, activate, dequeue, dispatch}

-- No waiter could be let in.
abbrev pub IsSaturated : Admission → Type 0
IsSaturated s = NoneFits (λ w. can_activate s w.principal) s.waiters

abbrev pub may_enter : Admission → Slot → Bool
may_enter s w = can_activate s w.principal

pub full_fits :
    (s : Admission) (ws : List Slot)
    → ltb s.active s.limits.max_active ≡ false
    → NoneFits (may_enter s) ws
unfolding can_activate
full_fits s [] full = tt
full_fits s (w ∷ ws) full = (ground arith, full_fits s ws full)

-- One round of the loop.
dispatch_round :
    (f : Slot) (fuel : List Slot) (s : Admission)
    → ((dispatch (f ∷ fuel) s ≡ s) × IsSaturated s)
      ⊎ ((w : Slot) × (rest : List Slot) × Takes (may_enter s) s.waiters w rest
          × (dispatch (f ∷ fuel) s ≡ dispatch fuel (activate w (dequeue w rest s))))
unfolding dispatch
dispatch_round f fuel s = elim (Bool-cases (ltb s.active s.limits.max_active)) [
  | inr full ↦ inl (rw (full, dispatch) refl, full_fits s s.waiters full)
  | inl room ↦ elim (Option-cases (take_first (may_enter s) s.waiters)) [
    | inl missing ↦
        inl (rw (room, dispatch) (rw (missing, dispatch) refl), take_first-none _ s.waiters missing)
    | inr ((w, rest), found) ↦ inr (
      w,
      rest,
      take_first-some _ s.waiters w rest found,
      rw (room, dispatch) (rw (found, dispatch) refl),
    )
  ]
]

pub enter-Inv :
    (s : Admission) (w : Slot) (rest : List Slot)
    → Inv s
    → Takes (may_enter s) s.waiters w rest
    → Inv (activate w (dequeue w rest s))
unfolding can_activate dequeue
enter-Inv s w rest v taken =
    activate-Inv w (dequeue w rest s) (dequeue-Inv (may_enter s) w rest s v taken) taken.0

enter-length :
    (s : Admission) (w : Slot) (rest : List Slot)
    → length (activate w (dequeue w rest s)).waiters ≡ length rest
unfolding activate dequeue
enter-length s w rest = refl

pub dispatch-Inv : (fuel : List Slot) (s : Admission) → Inv s → Inv (dispatch fuel s)
unfolding dispatch
dispatch-Inv [] s v = v
dispatch-Inv (f ∷ fuel) s v = elim (dispatch_round f fuel s) [
  | inl (stays, _) ↦ subst Inv (sym stays) v
  | inr (w, rest, taken, goes) ↦
      subst Inv (sym goes)
        (dispatch-Inv fuel (activate w (dequeue w rest s)) (enter-Inv s w rest v taken))
]

-- With an entry of fuel for each waiter the loop ends by its own tests.
pub dispatch-IsSaturated :
    (fuel : List Slot) (s : Admission)
    → length s.waiters ≤ length fuel
    → IsSaturated (dispatch fuel s)
unfolding dispatch
dispatch-IsSaturated [] s enough = none_wait s.waiters enough
  where
    none_wait : (ws : List Slot) → length ws ≤ 0 → NoneFits (may_enter s) ws
    none_wait [] h = tt
    none_wait (w ∷ ws) h = absurd (omega arith)
dispatch-IsSaturated (f ∷ fuel) s enough = elim (dispatch_round f fuel s) [
  | inl (stays, stuck) ↦ subst IsSaturated (sym stays) stuck
  | inr (w, rest, taken, goes) ↦ subst IsSaturated (sym goes) (
      dispatch-IsSaturated fuel (activate w (dequeue w rest s))
        (omega (arith, enter-length s w rest, taken.1)))
]

pub dispatch-limits : (fuel : List Slot) (s : Admission) → (dispatch fuel s).limits ≡ s.limits
unfolding dispatch activate dequeue
dispatch-limits [] s = refl
dispatch-limits (f ∷ fuel) s = elim (dispatch_round f fuel s) [
  | inl (stays, _) ↦ ap (λ t. t.limits) stays
  | inr (w, rest, taken, goes) ↦
      ap (λ t. t.limits) goes ∙ dispatch-limits fuel (activate w (dequeue w rest s))
]
