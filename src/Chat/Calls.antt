-- ===== src/Chat/Calls.antt =====
-- The calls on the tables of the chat, in any order: what workers and requests of all users do.
use backend_bmo_blabs.Base.{ℕ, Bool, List, [], ◌∷◌}
use backend_bmo_blabs.Chat.Rows.{Tables}
use backend_bmo_blabs.Chat.Lease.{
  Services, ChatJob, Fresh, claim, renew_lease, release_lease, record_failure, complete,
}
use backend_bmo_blabs.Chat.Sessions.{
  ChatMessageInput, FreshMessage, create_session, delete_session, accept_message,
}

pub data Call : Type 0 where
  creates : ℕ → Bool → ℕ → Call
  deletes : ℕ → ℕ → ℕ → Call
  accepts : ℕ → ℕ → ChatMessageInput → FreshMessage → Call
  claims renews releases fails : ChatJob → ℕ → ℕ → Call
  completes : ChatJob → ℕ → List ℕ → Fresh → ℕ → Call

module _ (env : Services) where
  unfoldable pub step : Tables → Call → Tables
  step s (Call.creates user temporary id) = (create_session env user temporary id s).0
  step s (Call.deletes user session now) = (delete_session env user session now s).0
  step s (Call.accepts user session input fresh) = (accept_message env user session input fresh s).0
  step s (Call.claims job token now) = (claim env job token now s).0
  step s (Call.renews job token now) = (renew_lease env job token now s).0
  step s (Call.releases job token now) = release_lease env job token now s
  step s (Call.fails job token now) = record_failure env job token now s
  step s (Call.completes job token text fresh now) = (complete env job token text fresh now s).0

  unfoldable pub run : Tables → List Call → Tables
  unfolding step
  run s [] = s
  run s (c ∷ cs) = run (step s c) cs
