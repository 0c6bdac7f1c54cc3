-- ===== src/Registry/Stale.antt =====
-- An authorization that waited past a new connection is refused.
use backend_bmo_blabs.Base.{
  ℕ, ◌+◌, ◌≤◌, ◌<◌, ◌≡◌, ◌≢◌, refl, inl, inr, Bool, false, not, none, some, List, [], ◌∷◌, ◌==◌,
  sym, subst, ◌⊎◌, arith, Bool-cases, Option-cases,
}
use backend_bmo_blabs.Base.Dict.{Dict, lookup, insert, erase, lookup-insert, lookup-erase}
use backend_bmo_blabs.Registry.{
  DeviceConnection, DeviceRegistry, new_registry, authenticate, on_socket, remove, touch_pong,
  set_application_binding, Pending, authorize_begin, authorize_end, is_held, Call, step, run,
}

-- Every connection of the device has an identity from `n` on, below the next one.
pub record Since (n device : ℕ) (s : DeviceRegistry) : Type 0 where
  pub above : (c : DeviceConnection) → lookup device s.connections ≡ some c → n ≤ c.identity
  pub below :
      (d : ℕ) (c : DeviceConnection)
      → lookup d s.connections ≡ some c
      → c.identity < s.next_identity
  pub ahead : n ≤ s.next_identity

lookup-put :
    (k d : ℕ) (c q : DeviceConnection) (m : Dict DeviceConnection)
    → lookup k (insert d c m) ≡ some q
    → ((k ≡ d) × (c ≡ q)) ⊎ ((k ≢ d) × (lookup k m ≡ some q))
lookup-put k d c q m e =
    let h = lookup-insert k d c m in
    elim (Bool-cases (k == d)) [
      | inl y ↦ inl (ground arith, ground arith)
      | inr other ↦ inr ((λ same. ground arith), ground arith)
    ]

put-Since :
    (n device d next : ℕ) (c : DeviceConnection) (s : DeviceRegistry)
    → Since n device s
    → (device ≡ d → n ≤ c.identity)
    → c.identity < next
    → s.next_identity ≤ next
    → Since n device (record { connections = insert d c s.connections; next_identity = next })
put-Since n device d next c s v high low more = record {
  above = λ q e. elim (lookup-put device d c q s.connections e) [
    | inl (at, same) ↦ subst (λ x. n ≤ x.identity) same (high at)
    | inr (far, old) ↦ v.above q old
  ];
  below = λ k q e. elim (lookup-put k d c q s.connections e) [
    | inl (at, same) ↦ subst (λ x. x.identity < next) same low
    | inr (far, old) ↦ let h = v.below k q old in omega arith
  ];
  ahead = let h = v.ahead in omega arith;
}

-- Writing a connection in place.
write-Since :
    (n device d : ℕ) (c c' : DeviceConnection) (s : DeviceRegistry)
    → lookup d s.connections ≡ some c
    → c'.identity ≡ c.identity
    → Since n device s
    → Since n device (record s { connections = insert d c' s.connections })
write-Since n device d c c' s at same v =
    put-Since n device d s.next_identity c' s v
      (λ e.
        let h = v.above c (subst (λ x. lookup x s.connections ≡ some c) (sym e) at) in omega arith)
      (let h = v.below d c at in omega arith) (omega arith)

on_socket-some :
    (d socket : ℕ) (c : DeviceConnection) (s : DeviceRegistry)
    → on_socket d socket s ≡ some c
    → lookup d s.connections ≡ some c
unfolding on_socket
on_socket-some d socket c s e = elim (Option-cases (lookup d s.connections)) [
  | inl missing ↦ absurd (ground arith)
  | inr (c', at) ↦ elim (Bool-cases (c'.socket == socket)) [
    | inl y ↦ ground arith
    | inr other ↦ absurd (ground arith)
  ]
]

erase-Since :
    (n device d : ℕ) (s : DeviceRegistry)
    → Since n device s
    → Since n device (record s { connections = erase d s.connections })
erase-Since n device d s v =
    let kept : (k : ℕ) (q : DeviceConnection)
        → lookup k (erase d s.connections) ≡ some q
        → lookup k s.connections ≡ some q =
      λ k q e.
        let h = lookup-erase k d s.connections in
        elim (Bool-cases (k == d)) [ inl y ↦ absurd (ground arith) | inr other ↦ ground arith ] in
    record {
      above = λ q e. v.above q (kept device q e);
      below = λ k q e. v.below k q (kept k q e);
      ahead = v.ahead;
    }

module _ (n device : ℕ) (s : DeviceRegistry) (v : Since n device s) where
  remove-Since : (d socket : ℕ) → Since n device (remove d socket s)
  unfolding remove
  remove-Since d socket = elim (Option-cases (on_socket d socket s)) [
    | inl missing ↦ rw (missing, remove) v
    | inr (c, at) ↦ rw (at, remove) (erase-Since n device d s v)
  ]

  touch_pong-Since : (d socket now : ℕ) → Since n device (touch_pong d socket now s)
  unfolding touch_pong
  touch_pong-Since d socket now = elim (Option-cases (on_socket d socket s)) [
    | inl missing ↦ rw (missing, touch_pong) v
    | inr (c, at) ↦
        rw (at, touch_pong) (write-Since n device d c _ s (on_socket-some d socket c s at) refl v)
  ]

  bind-Since :
      (d socket binding : ℕ) → Since n device (set_application_binding d socket binding s).0
  unfolding set_application_binding
  bind-Since d socket binding = elim (Option-cases (on_socket d socket s)) [
    | inl missing ↦ rw (missing, set_application_binding) v
    | inr (c, at) ↦
        rw (at, set_application_binding)
          (write-Since n device d c _ s (on_socket-some d socket c s at) refl v)
  ]

  answer-Since :
      (d : ℕ) (p : Pending) (active : Bool) → Since n device (authorize_end d p active s).0
  unfolding authorize_end
  answer-Since d p active = elim (Option-cases (lookup d s.connections)) [
    | inl missing ↦ rw (missing, authorize_end) v
    | inr (c, at) ↦ elim (Bool-cases (not (is_held p c))) [
      | inl changed ↦ rw (at, authorize_end) (rw changed v)
      | inr held ↦ elim (Bool-cases active) [
        | inl good ↦ rw (at, authorize_end) (rw held (rw good v))
        | inr bad ↦
            rw (at, authorize_end) (rw held (rw bad (write-Since n device d c _ s at refl v)))
      ]
    ]
  ]

-- Every call keeps it.
step-Since :
    (n device : ℕ) (s : DeviceRegistry) (c : Call) → Since n device s → Since n device (step s c)
unfolding step authenticate
step-Since n device s (Call.authenticated d socket now) v =
    put-Since n device d (s.next_identity + 1) _ s v (λ e. v.ahead) (omega arith) (omega arith)
step-Since n device s (Call.removed d socket) v = remove-Since n device s v d socket
step-Since n device s (Call.touched d socket now) v = touch_pong-Since n device s v d socket now
step-Since n device s (Call.bound d socket binding) v = bind-Since n device s v d socket binding
step-Since n device s (Call.answered d p active) v = answer-Since n device s v d p active

run-Since :
    (n device : ℕ) (s : DeviceRegistry) (cs : List Call)
    → Since n device s
    → Since n device (run s cs)
unfolding run
run-Since n device s [] v = v
run-Since n device s (c ∷ cs) v = run-Since n device (step s c) cs (step-Since n device s c v)

new-Since : (device : ℕ) → Since 0 device new_registry
unfolding new_registry lookup
new-Since device = record {
  above = λ q e. omega arith;
  below = λ k q e. absurd (ground arith);
  ahead = omega arith;
}

-- A new connection of the device is later than every identity so far.
reconnect-Since :
    (n device socket now : ℕ) (s : DeviceRegistry)
    → Since n device s
    → Since s.next_identity device (authenticate device socket now s).0
unfolding authenticate
reconnect-Since n device socket now s v = record {
  above = λ q e. elim (lookup-put device device _ q s.connections e) [
    | inl (at, same) ↦ subst (λ x. s.next_identity ≤ x.identity) same (omega arith)
    | inr (far, old) ↦ absurd (far refl)
  ];
  below = λ k q e. elim (lookup-put k device _ q s.connections e) [
    | inl (at, same) ↦ subst (λ x. x.identity < s.next_identity + 1) same (omega arith)
    | inr (far, old) ↦ let h = v.below k q old in omega arith
  ];
  ahead = omega arith;
}

step_next : (s : DeviceRegistry) (c : Call) → s.next_identity ≤ (step s c).next_identity
unfolding step authenticate remove touch_pong set_application_binding authorize_end
step_next s (Call.authenticated d socket now) = omega arith
step_next s (Call.removed d socket) = ground arith
step_next s (Call.touched d socket now) = ground arith
step_next s (Call.bound d socket binding) = ground arith
step_next s (Call.answered d p active) = ground arith

run_next : (s : DeviceRegistry) (cs : List Call) → s.next_identity ≤ (run s cs).next_identity
unfolding run
run_next s [] = omega arith
run_next s (c ∷ cs) = let h = step_next s c in let k = run_next (step s c) cs in omega arith

begin_identity :
    (device : ℕ) (p : Pending) (s : DeviceRegistry)
    → authorize_begin device s ≡ some p
    → (c : DeviceConnection) × (lookup device s.connections ≡ some c) × (c.identity ≡ p.identity)
unfolding authorize_begin
begin_identity device p s e = elim (Option-cases (lookup device s.connections)) [
  | inl missing ↦ absurd (ground arith)
  | inr (c, at) ↦ elim (Option-cases c.application_binding) [
    | inl unbound ↦ absurd (ground arith)
    | inr (b, has) ↦ (c, at, ground arith)
  ]
]

late_denies :
    (device : ℕ) (p : Pending) (active : Bool) (n : ℕ) (s : DeviceRegistry)
    → Since n device s
    → p.identity < n
    → authorize_end device p active s ≡ (s, none)
unfolding authorize_end is_held
late_denies device p active n s v old = elim (Option-cases (lookup device s.connections)) [
  | inl missing ↦ rw (missing, authorize_end) refl
  | inr (c, at) ↦
      let high = v.above c at in
      let other : (c.identity == p.identity) ≡ false = ground arith in
      rw (at, authorize_end) (rw (other, is_held) refl)
]

-- An authorization that has begun, in any history of the registry, is refused and changes nothing
-- if the device has authenticated again before its end, on whatever socket, whatever calls come
-- before and after, and whatever the authorization answers.
pub reconnected_denies :
    (device : ℕ) (before waiting later : List Call) (p : Pending) (socket now : ℕ) (active : Bool)
    → authorize_begin device (run new_registry before) ≡ some p
    → let s =
        run
          (run (run new_registry before) waiting)
          (Call.authenticated device socket now ∷ later) in
      authorize_end device p active s ≡ (s, none)
unfolding run step
reconnected_denies device before waiting later p socket now active begun =
    let s₀ = run new_registry before in
    let s₁ = run s₀ waiting in
    let v₀ = run-Since 0 device new_registry before (new-Since device) in
    let v₁ = run-Since 0 device s₀ waiting v₀ in
    let (c, at, same) = begin_identity device p s₀ begun in
    let low = v₀.below device c at in
    let more = run_next s₀ waiting in
    let v₂ =
      run-Since s₁.next_identity device _ later (reconnect-Since 0 device socket now s₁ v₁) in
    late_denies device p active s₁.next_identity _ v₂ (omega arith)
