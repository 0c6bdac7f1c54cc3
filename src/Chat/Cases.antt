-- ===== src/Chat/Cases.antt =====
-- What an accepted message leaves in the tables.
use backend_bmo_blabs.Base.{
  ℕ, ◌≡◌, refl, ◌⊎◌, inl, inr, false, not, none, some, Result, ok, err, Bool-cases, Option-cases,
}
use backend_bmo_blabs.Chat.Rows.{SessionRow, Tables}
use backend_bmo_blabs.Chat.Lease.{Services, find_session}
use backend_bmo_blabs.Chat.Sessions.{
  Fault, AcceptedMessage, repeated, ChatMessageInput, FreshMessage, find_operation,
  existing_response, owns_device, is_taken, store_message, accept_message,
}

module _ (env : Services) where
  open env use {db}

  repeated_kept : (s : Tables) (r : Result Fault AcceptedMessage) → (repeated env s r).0 ≡ s
  unfolding repeated
  repeated_kept s (ok a) = refl
  repeated_kept s (err f) = refl

  -- A message is stored, or nothing is written.
  pub accept_cases :
      (user session : ℕ) (input : ChatMessageInput) (fresh : FreshMessage) (s : Tables)
      → ((accept_message env user session input fresh s).0 ≡ s)
        ⊎ ((q : SessionRow) × (find_session env user session s ≡ some q)
            × (find_operation env user input.idempotency_key s ≡ none)
            × (is_taken env user input fresh s ≡ false)
            × ((accept_message env user session input fresh s).0
                ≡ store_message env user session input fresh q s))
  unfolding accept_message
  accept_cases user session input fresh s =
      elim (Option-cases (find_operation env user input.idempotency_key s)) [
        | inr ((o, m), at) ↦
            inl
              (rw (at, accept_message) (repeated_kept s (existing_response env o m session input)))
        | inl new ↦ elim (Option-cases (find_session env user session s)) [
          | inl closed ↦ inl (rw (new, accept_message) (rw (closed) refl))
          | inr (q, here) ↦ elim (Bool-cases (not (owns_device env user input.device_id s))) [
            | inl foreign ↦ inl (rw (new, accept_message) (rw (here) (rw foreign refl)))
            | inr own ↦ elim (Bool-cases (is_taken env user input fresh s)) [
              | inl taken ↦ inl (rw (new, accept_message) (rw (here) (rw own (rw taken refl))))
              | inr free ↦
                  inr (
                    q,
                    here,
                    new,
                    free,
                    rw (new, accept_message) (rw (here) (rw own (rw free refl))),
                  )
            ]
          ]
        ]
      ]
