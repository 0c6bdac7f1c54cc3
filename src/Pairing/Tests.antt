-- ===== src/Pairing/Tests.antt =====
-- A code is claimed, another is issued, and the first one is tried again.
use mathlib.Core.List.{Memᴰ}
use backend_bmo_blabs.Base.{◌≡◌, refl, sym, ap, ◌∙◌, ok, err, arith, List, [], ◌∷◌}
use backend_bmo_blabs.Database.{list_find}
use backend_bmo_blabs.Pairing.{invalid_code, is_pairing_code, transaction}
use backend_bmo_blabs.Pairing.Rows.{EnrollmentRow}
use backend_bmo_blabs.Pairing.Samples.{services, six_ones, one_issued, device, one_issued-IsValid}
use backend_bmo_blabs.Pairing.Claim.{
  create_claimed, record_claim, mark_claimed, claim_enrollment, claim,
}
use backend_bmo_blabs.Pairing.Later.{Call, Spares, run, claimed_once}

claim_succeeds : (claim services 7 six_ones 100 20 101 (λ x. x) one_issued).1 ≡ ok device
unfolding claim is_pairing_code claim_enrollment mark_claimed create_claimed record_claim
    transaction list_find
claim_succeeds = refl

same_code :
    (q q' : EnrollmentRow)
    → Memᴰ q one_issued.enrollments
    → Memᴰ q' one_issued.enrollments
    → q'.id ≡ q.id
    → q'.code_hash ≡ q.code_hash
same_code q q' (Memᴰ.head e) (Memᴰ.head e') same =
    ap (λ r. r.code_hash) e' ∙ sym (ap (λ r. r.code_hash) e)
same_code q q' (Memᴰ.head e) (Memᴰ.tail m) same = elim m [ ]
same_code q q' (Memᴰ.tail m) m' same = elim m [ ]

-- Hardware 6 draws other codes, and user 8 tries one.
abbrev between : List Call
between =
    Call.issues 6 10 (λ k. record {
      code = 50 ∷ 50 ∷ 50 ∷ 50 ∷ 50 ∷ 50 ∷ [];
      now = 10_000;
      id = 2;
      created_at = 10_000;
    })
    ∷ Call.claims 8 (50 ∷ 50 ∷ 50 ∷ 50 ∷ 50 ∷ 50 ∷ []) 20_000 30 20_001
    ∷ []

claimed_once_example :
    let s = run services between (claim services 7 six_ones 100 20 101 (λ x. x) one_issued).0 in
    claim services 9 six_ones 30_000 40 30_001 (λ x. x) s ≡ (s, err invalid_code)
unfolding Spares
claimed_once_example =
    claimed_once services 7 six_ones 100 20 101 (λ x. x) one_issued device one_issued-IsValid
      same_code claim_succeeds between ((λ k e. absurd (omega arith)), (tt, tt)) 9 30_000 40 30_001
      (λ x. x)
