-- ===== src/Admission/Count.antt =====
-- The counting maps of the admission.
unfoldable pub use backend_bmo_blabs.Base.Picking.{take_first, any}
pub use backend_bmo_blabs.Base.Picking.{
  tally, tally-append, NoneFits, NoneFits-append, NoneFits-any, NoneFits-any_true, NoneFits-mono,
  take_first-none, Takes, take_first-some,
}
use backend_bmo_blabs.Base.{ℕ, suc, ◌+◌, ◌-◌, ◌≡◌, none, some, ltb, ◌==◌, if◌then◌else◌, arith}
use backend_bmo_blabs.Base.Dict.{Dict, lookup, insert, erase, lookup-insert, lookup-erase}

-- `counts.get(key) ?? 0`
unfoldable pub get_count : ℕ → Dict ℕ → ℕ
get_count k c = elim (lookup k c) [ none ↦ 0 | some n ↦ n ]

unfoldable pub increment : ℕ → Dict ℕ → Dict ℕ
unfolding get_count
increment k c = insert k (get_count k c + 1) c

-- A missing key would give -1, and 0 here: both are not above 0.
unfoldable pub decrement : ℕ → Dict ℕ → Dict ℕ
unfolding get_count
decrement k c = let next = get_count k c - 1 in if ltb 0 next then insert k next c else erase k c

pub get_count-increment :
    (j k : ℕ) (c : Dict ℕ)
    → get_count j (increment k c) ≡ (if j == k then suc (get_count j c) else get_count j c)
unfolding increment
get_count-increment j k c = ground (arith, lookup-insert j k (get_count k c + 1) c)

pub get_count-decrement :
    (j k : ℕ) (c : Dict ℕ)
    → get_count j (decrement k c) ≡ (if j == k then get_count j c - 1 else get_count j c)
unfolding decrement
get_count-decrement j k c =
    ground (arith, lookup-insert j k (get_count k c - 1) c, lookup-erase j k c)
