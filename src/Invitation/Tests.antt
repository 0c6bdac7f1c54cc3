-- ===== src/Invitation/Tests.antt =====
-- Runs of an invitation over tables queried in order.
use backend_bmo_blabs.Base.{◌+◌, ◌≡◌, refl, none, [], ◌∷◌, ok, err, arith}
use backend_bmo_blabs.Database.{list_database, list_find}
use backend_bmo_blabs.Invitation.{
  InvitationRow, InvitationStatus, Tables, Services, find_invitation, invalid, is_refused, accept,
  consume_for_registration, Call, run,
}
use backend_bmo_blabs.Invitation.Once.{used_once}

abbrev services : Services
services = record { db = list_database; sha256_hex = λ n. n + 1_000; normalize_email = λ e. e }

abbrev invitation : InvitationRow
invitation = record {
  id = 1;
  email = 30;
  token_hash = 1_005;
  status = InvitationStatus.active;
  expires_at = 500;
  accepted_at = none;
  revoked_at = none;
  created_by = none;
}

abbrev invited : Tables
invited = record { invitations = invitation ∷ []; audit = [] }

use_runs : (consume_for_registration services 5 30 100 invited).1 ≡ ok (1, 30)
unfolding consume_for_registration find_invitation is_refused accept list_find
use_runs = refl

used_once_example :
    let s' =
      run services
        (consume_for_registration services 5 30 100 invited).0
        (Call.creates 31 900 none 5 2 ∷ Call.expires 5 200 ∷ []) in
    consume_for_registration services 5 30 300 s' ≡ (s', err invalid)
used_once_example =
    used_once services 5 30 100 invited (1, 30) (omega arith) use_runs
      (Call.creates 31 900 none 5 2 ∷ Call.expires 5 200 ∷ []) 30 300
