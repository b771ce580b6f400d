-- ===== src/Relay/Registry/Routes/Runs.antt =====
-- Sequences of calls of the routing table's methods.
use termhop.Base.{List, [], ◌∷◌, ◌∙◌, ap, ◌≡◌, refl}
use termhop.Dict.{get}
use termhop.Relay.Registry.{SessionRegistry, session_for_device}
use termhop.Relay.Registry.Laws.{
  IsRegistry, attach-IsRegistry, detach-IsRegistry, remove-IsRegistry, set_phase-IsRegistry,
  register_device-IsRegistry,
}
use termhop.Relay.Registry.Routes.{
  Routes, Update, attaches, detaches, removes, sets_phase, registers, update, update_routes, view,
}
use termhop.Relay.Registry.Routes.Methods.{
  homes-attach, homes-detach, homes-set_phase, homes-remove, homes-register, same_routes,
  route-register, route-attach, route-set_phase, route-remove, route-detach,
}

update-routes :
    (u : Update) (r : SessionRegistry) → IsRegistry r → view (update u r) ≡ update_routes u (view r)
unfolding update session_for_device
update-routes (attaches s ρ ws) r v =
    same_routes _ _ (λ j σ. route-attach r s j ρ σ ws)
      (λ d. ap (λ m. get m d) (homes-attach r s ρ ws))
update-routes (detaches s ρ) r v =
    same_routes _ _ (λ j σ. route-detach r s j ρ σ) (λ d. ap (λ m. get m d) (homes-detach r s ρ))
update-routes (removes s) r v =
    same_routes _ _ (λ j σ. route-remove r s j σ) (λ d. homes-remove r s d v.devices_Unique)
update-routes (sets_phase s phase) r v =
    same_routes _ _ (λ j σ. route-set_phase r s j σ phase)
      (λ d. ap (λ m. get m d) (homes-set_phase r s phase))
update-routes (registers device s) r v =
    same_routes _ _ (λ j σ. route-register r device s j σ) (λ d. homes-register r device s d)

update-IsRegistry : (u : Update) (r : SessionRegistry) → IsRegistry r → IsRegistry (update u r)
unfolding update
update-IsRegistry (attaches s ρ ws) r v = attach-IsRegistry r v s ρ ws
update-IsRegistry (detaches s ρ) r v = detach-IsRegistry r v s ρ
update-IsRegistry (removes s) r v = remove-IsRegistry r v s
update-IsRegistry (sets_phase s phase) r v = set_phase-IsRegistry r v s phase
update-IsRegistry (registers device s) r v = register_device-IsRegistry r v s device

-- Any sequence of calls of the registry's methods.
unfoldable pub run_updates : List Update → SessionRegistry → SessionRegistry
run_updates [] r = r
run_updates (u ∷ us) r = run_updates us (update u r)

unfoldable pub run_routes : List Update → Routes → Routes
run_routes [] m = m
run_routes (u ∷ us) m = run_routes us (update_routes u m)

-- After any sequence of calls of `attach`, `detach`, `remove`, `register_device` and changes of phase
-- on a well-formed table, refused calls included, the table is well-formed (distinct keys, no session
-- without a connection), and its two maps are what the plain updates give: a connection or a device
-- that is held is never displaced, and a removed session leaves no route and no device behind.
pub run_updates-routes :
    (us : List Update) (r : SessionRegistry)
    → IsRegistry r
    → IsRegistry (run_updates us r) × (view (run_updates us r) ≡ run_routes us (view r))
unfolding run_updates run_routes
run_updates-routes [] r v = (v, refl)
run_updates-routes (u ∷ us) r v =
    let rest = run_updates-routes us (update u r) (update-IsRegistry u r v) in
    (rest.0, rest.1 ∙ ap (run_routes us) (update-routes u r v))
