-- ===== src/Session/Tests.antt =====
-- Runs of the sessions over tables queried in order.
use backend_bmo_blabs.Base.{
  ℕ, ◌+◌, ◌*◌, ◌<◌, ◌≡◌, refl, true, false, none, some, List, [], ◌∷◌, err, arith,
}
use backend_bmo_blabs.Database.{list_database, list_find}
use backend_bmo_blabs.Errors.{device_not_found}
use backend_bmo_blabs.Session.Rows.{SessionRow, RefreshTokenRow, RevokedReason, Tables}
use backend_bmo_blabs.Session.Revocation.{Rejects, refresh_invalid}
use backend_bmo_blabs.Session.Rotation.{replay_revokes_family}
use backend_bmo_blabs.Session.Later.{Call, Spares, run, logged_out_for_good}
use backend_bmo_blabs.Session.Logout.{revoke_all_ends, issue_session_cases}
use backend_bmo_blabs.Session.{
  Services, Fresh, find_token, is_invalid, refresh, refreshed, revoke_current, revoke_all,
  is_active, issue_session, owns_device,
}

abbrev services : Services
services = record {
  db = list_database;
  sha256_hex = λ n. n + 1_000;
  sign = λ user session issued expires. user + session + issued + expires;
  access_lifetime_seconds = 900;
  refresh_ttl_seconds = 3_600;
}

abbrev empty_tables : Tables
empty_tables = record { sessions = []; tokens = []; devices = []; audit = [] }

abbrev login_values : Fresh
login_values = record { session_id = 1; family_id = 2; token_id = 3; refresh_token = 50 }

abbrev next_values : Fresh
next_values = record { session_id = 4; family_id = 5; token_id = 6; refresh_token = 51 }

abbrev session : SessionRow
session = record {
  id = 1;
  user_id = 7;
  family_id = 2;
  client_device_id = none;
  expires_at = 3_600_000;
  revoked_at = none;
  revoked_reason = none;
  last_used_at = none;
}

abbrev token : RefreshTokenRow
token = record {
  id = 3;
  session_id = 1;
  family_id = 2;
  token_hash = 1_050;
  expires_at = 3_600_000;
  used_at = none;
  revoked_at = none;
}

-- User 7 has logged in.
abbrev logged_in : Tables
logged_in = record empty_tables { sessions = session ∷ []; tokens = token ∷ [] }

login_runs : (issue_session services 7 none login_values 0 empty_tables).0 ≡ logged_in
unfolding issue_session list_find
login_runs = refl

found : find_token services 1_050 logged_in ≡ some (token, session)
unfolding find_token list_find
found = refl

replay_revokes_family_example : Rejects 2 (
    refresh services 50 next_values 200
      (λ x. x)
      (refresh services 50 next_values 100 (λ x. x) logged_in).0)
unfolding refresh list_find
replay_revokes_family_example =
    replay_revokes_family services 50 next_values next_values 100 200 (λ x. x) logged_in token token
      session session (refreshed services next_values 100 token session) found found refl refl
      ((λ _. refl), tt) (omega arith)

refresh_invalid_example : Rejects 2 (refresh services 50 next_values 4_000_000 (λ x. x) logged_in)
unfolding is_invalid
refresh_invalid_example =
    refresh_invalid services 50 next_values 4_000_000 (λ x. x) logged_in token token session session
      found found refl refl

revoke_all_ends_example :
    let s = revoke_all services 7 (RevokedReason.given 1) 10 logged_in in
    ((session_id : ℕ) → is_active services 7 session_id 20 s ≡ false)
    × ((token_hash : ℕ) (t : RefreshTokenRow) (r : SessionRow)
        → find_token services token_hash s ≡ some (t, r)
        → r.user_id ≡ 7
        → is_invalid services 20 t r ≡ true)
revoke_all_ends_example = revoke_all_ends services 7 10 20 (RevokedReason.given 1) logged_in

-- Another user logs in, and the token of the ended session is tried again.
abbrev after_logout : List Call
after_logout = Call.issues 8 none next_values 15 ∷ Call.refreshes 50 next_values 16 ∷ []

logged_out_for_good_example :
    let s =
      run services after_logout
        (revoke_current services 7 1 (RevokedReason.given 1) 10 logged_in) in
    (is_active services 7 1 20 s ≡ false)
    × ((token_hash : ℕ) (t : RefreshTokenRow) (r : SessionRow)
        → find_token services token_hash s ≡ some (t, r)
        → r.id ≡ 1
        → r.user_id ≡ 7
        → is_invalid services 20 t r ≡ true)
unfolding Spares
logged_out_for_good_example =
    logged_out_for_good services 7 1 10 (RevokedReason.given 1) logged_in after_logout
      ((λ e. absurd (omega arith)), (tt, tt)) 20

issue_session_cases_example :
    let (s, answer) = issue_session services 7 none login_values 0 empty_tables in
    (owns_device services 7 none empty_tables ≡ false
      → (s ≡ empty_tables) × (answer ≡ err device_not_found))
    × ((later : ℕ)
        → owns_device services 7 none empty_tables ≡ true
        → later < 0 + 3_600 * 1_000
        → is_active services 7 1 later s ≡ true)
issue_session_cases_example = issue_session_cases services 7 none login_values 0 empty_tables
