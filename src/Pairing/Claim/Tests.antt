-- ===== src/Pairing/Claim/Tests.antt =====
-- Runs of a claim over tables queried in order.
use backend_bmo_blabs.Base.{◌≡◌, refl, ok}
use backend_bmo_blabs.Database.{list_find}
use backend_bmo_blabs.Pairing.{is_pairing_code, transaction}
use backend_bmo_blabs.Pairing.Invariant.{IsGood}
use backend_bmo_blabs.Pairing.Samples.{services, six_ones, one_issued, device, one_issued-IsValid}
use backend_bmo_blabs.Pairing.Claim.{
  create_claimed, record_claim, mark_claimed, claim_enrollment, claim,
}
use backend_bmo_blabs.Pairing.Claim.Valid.{claim-IsGood}

claim_runs : (claim services 7 six_ones 100 20 101 (λ x. x) one_issued).1 ≡ ok device
unfolding claim is_pairing_code claim_enrollment mark_claimed create_claimed record_claim
    transaction list_find
claim_runs = refl

claim-IsGood_example : IsGood (claim services 7 six_ones 100 20 101 (λ x. x) one_issued)
claim-IsGood_example =
    claim-IsGood services 7 six_ones 100 20 101 (λ x. x) one_issued one_issued-IsValid
      one_issued-IsValid
