-- ===== src/Pairing/Issue/Tests.antt =====
-- Runs of an issue over tables queried in order.
use backend_bmo_blabs.Base.{ℕ, ◌≡◌, refl, [], ◌∷◌, err}
use backend_bmo_blabs.Database.{list_find, list_highest}
use backend_bmo_blabs.Pairing.{Draw, transaction}
use backend_bmo_blabs.Pairing.Samples.{services, six_ones, enrollment, empty_tables, one_issued}
use backend_bmo_blabs.Pairing.Issue.{
  is_limited, repeats, retire, create_enrollment, new_enrollment, record_issue, is_in_use,
  take_code, issued_code, attempt, next, retry, issue_for_hardware,
}
use backend_bmo_blabs.Pairing.Issue.Cases.{rate_limited}

abbrev draws : ℕ → Draw
draws k = record { code = six_ones; now = 0; id = 1; created_at = 0 }

issue_runs : (issue_for_hardware services 5 9 draws empty_tables).0.enrollments ≡ enrollment ∷ []
unfolding issue_for_hardware is_limited repeats retire create_enrollment new_enrollment record_issue
    is_in_use take_code issued_code attempt next retry transaction list_find list_highest
issue_runs = refl

-- At once again is too soon.
issue_again : (issue_for_hardware services 5 9 draws one_issued).1 ≡ err rate_limited
unfolding issue_for_hardware is_limited repeats retire create_enrollment new_enrollment record_issue
    is_in_use take_code issued_code attempt next retry transaction list_find list_highest
issue_again = refl
