-- ===== src/Wav/Tests.antt =====
-- Runs of the validator.
use backend_bmo_blabs.Base.{ℕ, ◌≡◌, refl, ◌⊎◌, List, [], ◌∷◌, ok, err, arith}
use backend_bmo_blabs.Wav.{WavMetadata, invalid_audio, get_elem?, validate_canonical_wav}
use backend_bmo_blabs.Wav.Total.{IsCanonical, validate_cases}
use backend_bmo_blabs.Wav.Canonical.{canonical_wav, canonical_format, canonical-accepted}

-- One second at most, and two samples.
abbrev two_samples : List ℕ
two_samples = 1 ∷ 2 ∷ 3 ∷ 4 ∷ []

accepts_two :
    validate_canonical_wav (canonical_wav two_samples) 1
    ≡ ok (record { format = canonical_format; data_bytes = 4; bytes_per_second = 32_000 })
unfolding validate_canonical_wav get_elem?
accepts_two = refl

-- Half a sample is refused.
refuses_half : validate_canonical_wav (canonical_wav (1 ∷ 2 ∷ 3 ∷ [])) 1 ≡ err invalid_audio
unfolding validate_canonical_wav get_elem?
refuses_half = refl

refuses_empty : validate_canonical_wav [] 1 ≡ err invalid_audio
unfolding validate_canonical_wav
refuses_empty = refl

canonical-accepted_example :
    validate_canonical_wav (canonical_wav two_samples) 1
    ≡ ok (record { format = canonical_format; data_bytes = 4; bytes_per_second = 32_000 })
canonical-accepted_example =
    canonical-accepted two_samples 1 (omega arith) refl (omega arith) (omega arith)

validate_cases_example :
    ((w : WavMetadata) × (validate_canonical_wav (canonical_wav two_samples) 1 ≡ ok w)
      × IsCanonical (canonical_wav two_samples) 1 w)
    ⊎ (validate_canonical_wav (canonical_wav two_samples) 1 ≡ err invalid_audio)
validate_cases_example = validate_cases (canonical_wav two_samples) 1
