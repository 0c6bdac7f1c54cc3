-- ===== src/Chat/Queue/Tests.antt =====
-- Runs of the queue.
use backend_bmo_blabs.Base.{◌≡◌, refl, List, [], ◌∷◌, map}
use backend_bmo_blabs.Base.Picking.{take_first}
use backend_bmo_blabs.Chat.Queue.Keys.{has, add}
use backend_bmo_blabs.Chat.Queue.{
  new_queue, reserve, start, is_ready, drain, consume, push, commit, Call, step, run,
}
use backend_bmo_blabs.Chat.Queue.Bounded.{IsBounded, key_of, run-IsBounded}
use backend_bmo_blabs.Chat.Queue.Drained.{IsDrained, run-IsDrained}

-- Two jobs of key 8 and one of key 9; the first ends.
abbrev three_jobs : List Call
three_jobs =
    Call.reserves
    ∷ Call.reserves
    ∷ Call.reserves
    ∷ Call.commits 0 8
    ∷ Call.commits 1 8
    ∷ Call.commits 2 9
    ∷ []

-- The second job of key 8 is passed over.
passes_over : map key_of (run (new_queue 2 64) three_jobs).running ≡ 9 ∷ 8 ∷ []
unfolding run step new_queue reserve commit consume push drain start is_ready take_first has add
passes_over = refl

waits : map key_of (run (new_queue 2 64) three_jobs).waiting ≡ 8 ∷ []
unfolding run step new_queue reserve commit consume push drain start is_ready take_first has add
waits = refl

run-IsBounded_example : IsBounded (run (new_queue 2 64) three_jobs)
run-IsBounded_example = run-IsBounded 2 64 three_jobs

run-IsDrained_example : IsDrained (run (new_queue 2 64) three_jobs)
run-IsDrained_example = run-IsDrained 2 64 three_jobs
