-- ===== src/Pairing/Issue/Cases.antt =====
-- All that an issue can end in.
use mathlib.Core.List.{Memᴰ}
use backend_bmo_blabs.Base.{
  ℕ, ◌+◌, ◌*◌, ◌<◌, ◌≡◌, ◌⊎◌, true, false, Option, none, some, Result, ok, err,
}
use backend_bmo_blabs.Database.{count}
use backend_bmo_blabs.Errors.{P9ErrorCode, p9_error}
use backend_bmo_blabs.Pairing.{Fault, p9, Services, Draw, IssuedCode}
use backend_bmo_blabs.Pairing.Rows.{Tables, is_bound_to}
use backend_bmo_blabs.Pairing.Invariant.{IsValid}
use backend_bmo_blabs.Pairing.Issue.{is_limited, new_enrollment}

-- A code was granted: the hardware was within its rate, the row is stored, and the tables are valid.
pub record Grants (env : Services) (hardware token_hash : ℕ) (draw : Draw) (s s' : Tables)
    (i : IssuedCode) : Type 0 where
  pub calm : is_limited env hardware draw.now s ≡ false
  pub stored :
      Memᴰ
        (new_enrollment env hardware token_hash (env.keyed_digest draw.code env.pepper) draw)
        s'.enrollments
  pub valid : IsValid s'
  pub devices : s'.devices ≡ s.devices
  pub answer : i ≡ (record {
    hardware_id = hardware;
    code = draw.code;
    expires_at = draw.now + env.ttl_seconds * 1_000;
  })

abbrev pub rate_limited : Fault
rate_limited = p9 (p9_error P9ErrorCode.rate_limited 429)

abbrev pub unavailable : Fault
unavailable = p9 (p9_error P9ErrorCode.service_unavailable 503)

module _ (env : Services) (hardware token_hash : ℕ) where
  open env use {db, keyed_digest, pepper, ttl_seconds}

  -- The ends of an issue.
  abbrev pub Ends : (ℕ → Draw) → Tables → Tables × Result Fault (Option IssuedCode) → Type 0
  Ends draws s c =
      (0 < count (is_bound_to hardware) s.devices × (c ≡ (s, ok none)))
      ⊎ ((k : ℕ) × (is_limited env hardware (draws k).now s ≡ true) × (c ≡ (s, err rate_limited)))
      ⊎ (c ≡ (s, err unavailable))
      ⊎ ((k : ℕ) × (s' : Tables) × (i : IssuedCode) × (c ≡ (s', ok (some i)))
          × Grants env hardware token_hash (draws k) s s' i)
