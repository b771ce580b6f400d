-- ===== src/Relay/Router/Dispatch/Keeps.antt =====
-- One message, whatever it is, against an invariant of the registry.
use termhop.Dict.{get, AllItems, get-AllItems}
use termhop.Base.{
  Option-cases, Bool-cases, inl, inr, String, true, Option, none, some, ◌≡◌, refl, member,
}
use termhop.Relay.Errors.{Raised, relay}
use termhop.Relay.Exec.{try_except, recover, Result, ok, raised}
use termhop.Relay.Registry.{SessionRegistry, established, set_phase}
use termhop.Relay.Envelope.{Envelope, routable_types}
use termhop.Relay.System.{System, Machine, Action}
use termhop.Relay.Router.Replies.Keeps.{Keeps-send_error}
use termhop.Relay.Router.Grounds.{Completes, is_completion}
use termhop.Relay.Router.Pair.Keeps.{
  handle_pair_init-Keeps, handle_pair_request-Keeps, handle_pair_complete_at,
}
use termhop.Relay.Router.Resume.Keeps.{
  handle_resume_init-Keeps, handle_resume_request-Keeps, handle_resume_challenge-Keeps,
  handle_resume_proof-Keeps, handle_resume_complete_at,
}
use termhop.Relay.Router.Traffic.Keeps.{handle_routable-Keeps}
use termhop.Relay.Router.Dispatch.{role_types, answer_error, dispatch_table, run_handler, dispatch}
use termhop.Relay.Keeps.{Keeps, Relies, IsKept, Keeps-raise}

module _ {State : Type 0} {P : SessionRegistry → Type 0} (sys : System State) (rely : Relies sys P)
    (kept : IsKept P) where
  answer_error-Keeps : (e : Raised) → Keeps P (answer_error sys e)
  unfolding answer_error
  answer_error-Keeps (relay e) = Keeps-send_error sys rely _ _
  answer_error-Keeps e = Keeps-raise e

  answered :
      (r : Result (Unit {0})) (m : Machine State)
      → P m.world.registry
      → P (recover (answer_error sys) (r, m)).1.world.registry
  answered (ok a) m h = h
  answered (raised e) m h = (answer_error-Keeps e).at m h

  -- What a message may do, given that it may complete the session that it has the grounds for.
  abbrev Permitted : Envelope → Machine State → Type 0
  Permitted envelope m =
      is_completion envelope.type ≡ true
      → (session_id : String) → Completes m.world.registry m.ctx envelope session_id
      → P (set_phase session_id established m.world.registry)

  module _ (envelope : Envelope) (m : Machine State) (h : P m.world.registry) where
    -- The invariant after a handler that was looked up, or after the lookup failed.
    Handled : Option (Envelope → Action State (Unit {0})) → Type 0
    Handled o = P (run_handler sys o envelope m).1.world.registry

    tried :
        (handler : Envelope → Action State (Unit {0}))
        → P (handler envelope m).1.world.registry
        → Handled (some handler)
    unfolding run_handler try_except Handled
    tried handler k = answered (handler envelope m).0 (handler envelope m).1 k

    no_handler : Handled none
    unfolding run_handler Handled
    no_handler = elim (Bool-cases (member envelope.type routable_types)) [
      | inl e ↦ rw (e, run_handler) ((handle_routable-Keeps sys rely kept envelope).at m h)
      | inr e ↦ rw (e, run_handler) ((Keeps-send_error sys rely _ _).at m h)
    ]

    -- What each entry of the table does to the invariant.
    abbrev EntryKeeps : String → (Envelope → Action State (Unit {0})) → Type 0
    EntryKeeps type handler =
        ((is_completion type ≡ true)
          → (session_id : String) → Completes m.world.registry m.ctx envelope session_id
          → P (set_phase session_id established m.world.registry))
        → P (handler envelope m).1.world.registry

    table-keeps : AllItems EntryKeeps (dispatch_table sys)
    table-keeps = (
      λ _. (handle_pair_init-Keeps sys rely kept envelope).at m h,
      (
        λ _. (handle_pair_request-Keeps sys rely kept envelope).at m h,
        (
          λ allowed. handle_pair_complete_at sys rely kept envelope m h (allowed refl),
          (
            λ _. (handle_resume_init-Keeps sys rely kept envelope).at m h,
            (
              λ _. (handle_resume_request-Keeps sys rely kept envelope).at m h,
              (
                λ _. (handle_resume_challenge-Keeps sys rely kept envelope).at m h,
                (
                  λ _. (handle_resume_proof-Keeps sys rely kept envelope).at m h,
                  (
                    λ allowed. handle_resume_complete_at sys rely kept envelope m h (allowed refl),
                    tt,
                  ),
                ),
              ),
            ),
          ),
        ),
      ),
    )

    handled : Permitted envelope m → Handled (get (dispatch_table sys) envelope.type)
    handled permitted = elim (Option-cases (get (dispatch_table sys) envelope.type)) [
      | inl e ↦ rw e no_handler
      | inr (handler, e) ↦ rw e (
          tried handler
            (get-AllItems EntryKeeps (dispatch_table sys) envelope.type table-keeps e permitted))
    ]

    pub dispatch_at : Permitted envelope m → P (dispatch sys envelope m).1.world.registry
    unfolding dispatch Handled
    dispatch_at permitted = elim (Bool-cases (member envelope.type (role_types m.ctx.role))) [
      | inl e ↦ rw (e, dispatch) (handled permitted)
      | inr e ↦ rw (e, dispatch) ((Keeps-send_error sys rely _ _).at m h)
    ]
