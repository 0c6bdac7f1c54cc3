-- ===== src/Registry/Tests.antt =====
-- Runs of the registry.
use backend_bmo_blabs.Base.{◌≡◌, refl, true, none, some, List, [], ◌∷◌}
use backend_bmo_blabs.Base.Dict.{lookup, insert}
use backend_bmo_blabs.Registry.{
  new_registry, on_socket, set_application_binding, authenticate, Pending, authorize_begin,
  authorize_end, is_held, Call, step, run,
}
use backend_bmo_blabs.Registry.Stale.{reconnected_denies}

-- Device 3 is on socket 11 with binding 70.
abbrev bound_calls : List Call
bound_calls = Call.authenticated 3 11 0 ∷ Call.bound 3 11 70 ∷ []

abbrev held : Pending
held = record { identity = 0; binding = 70 }

begins : authorize_begin 3 (run new_registry bound_calls) ≡ some held
unfolding run step new_registry authenticate set_application_binding on_socket authorize_begin
    lookup insert
begins = refl

grants : (authorize_end 3 held true (run new_registry bound_calls)).1 ≡ some 70
unfolding run step new_registry authenticate set_application_binding on_socket authorize_end is_held
    lookup insert
grants = refl

reconnected_denies_example :
    let s =
      run
        (run (run new_registry bound_calls) [])
        (Call.authenticated 3 12 5 ∷ Call.bound 3 12 70 ∷ []) in
    authorize_end 3 held true s ≡ (s, none)
reconnected_denies_example =
    reconnected_denies 3 bound_calls [] (Call.bound 3 12 70 ∷ []) held 12 5 true begins
