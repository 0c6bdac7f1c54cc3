-- ===== src/Admission/Tests.antt =====
-- Runs of the admission with the limits of `avatarUploadAdmission`.
use backend_bmo_blabs.Base.{ℕ, ◌≤◌, ◌≡◌, refl, false, some, List, [], ◌∷◌, length}
use backend_bmo_blabs.Base.Dict.{lookup, insert, erase}
use backend_bmo_blabs.Admission.Count.{get_count, increment, decrement, take_first, any, tally}
use backend_bmo_blabs.Admission.Dispatch.{IsSaturated}
use backend_bmo_blabs.Admission.Calls.{run-Within, run-IsSaturated}
use backend_bmo_blabs.Admission.Reference.{
  view, nobody, let_in, serve, advance, replay, runs_as_reference,
}
use backend_bmo_blabs.Admission.{
  Slot, Principal, Limits, Admission, Call, acquires, releases, owner_of, ip_of, fresh,
  new_admission, acquire, release, step, run,
}

-- `avatarUploadAdmission`
abbrev upload_limits : Limits
upload_limits = record {
  max_active = 2;
  max_waiters = 4;
  max_active_per_owner = 1;
  max_waiters_per_owner = 2;
  max_active_per_ip = 1;
  max_waiters_per_ip = 2;
}

abbrev alice : Principal
alice = record { owner_key = 1; ip_key = 10 }

abbrev bob : Principal
bob = record { owner_key = 2; ip_key = 20 }

abbrev carol : Principal
carol = record { owner_key = 3; ip_key = 30 }

-- Alice's second upload waits for her first, and Carol for a place; then Alice's first ends.
abbrev uploads : List Call
uploads =
    acquires alice false
    ∷ acquires alice false
    ∷ acquires bob false
    ∷ acquires carol false
    ∷ releases 0
    ∷ []

start : Admission
unfolding fresh
start = fresh upload_limits

start_made : new_admission upload_limits ≡ some start
unfolding new_admission start
start_made = refl

abbrev tickets : List Slot → List ℕ
tickets [] = []
tickets (w ∷ ws) = w.ticket ∷ tickets ws

busy : Admission
unfolding run step acquire release start get_count increment decrement take_first any lookup insert
    erase
busy = run uploads start

-- The lease goes to Alice's waiting upload, and Carol still waits.
busy_leases : (length busy.leases ≡ 2) × (length busy.waiters ≡ 1)
unfolding busy
busy_leases = (refl, refl)

run-Within_example :
    let t = run uploads start in
    (t.active ≡ length t.leases)
    × (length t.leases ≤ 2)
    × (tally owner_of 1 t.leases ≤ 1)
    × (tally ip_of 1 t.leases ≤ 1)
    × (length t.waiters ≤ 4)
    × (tally owner_of 1 t.waiters ≤ 2)
    × (tally ip_of 1 t.waiters ≤ 2)
run-Within_example = run-Within upload_limits start uploads 1 start_made

run-IsSaturated_example : IsSaturated (run uploads start)
run-IsSaturated_example = run-IsSaturated upload_limits start uploads start_made

runs_as_reference_example :
    (view (run uploads start) ≡ replay upload_limits uploads nobody)
    × ((
      (view (acquire carol false (run uploads start)).0),
      (acquire carol false (run uploads start)).1,
    )
        ≡ let_in upload_limits carol false (replay upload_limits uploads nobody))
runs_as_reference_example = runs_as_reference upload_limits start uploads carol false start_made

-- In the reference too, Alice's second upload and Bob's are let in, and Carol waits.
carol_waits :
    (tickets (replay upload_limits uploads nobody).leases ≡ 1 ∷ 2 ∷ [])
    × (tickets (replay upload_limits uploads nobody).waiters ≡ 3 ∷ [])
unfolding replay advance serve take_first
carol_waits = (refl, refl)
