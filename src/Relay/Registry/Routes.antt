-- ===== src/Relay/Registry/Routes.antt =====
-- What the routing table promises: a partial map from session and role to a connection, and one from
-- device to session. Each method is the plain update of these maps.
pub mod Methods
pub mod Runs
use termhop.Base.{
  List, [], ◌∷◌, ◌∙◌, ap, String, ◌≡◌, refl, ◌==◌, eq_iff, eq_refl, Bool, true, false, not, ◌&&◌,
  Option, none, some, arith, if◌then◌else◌, inl, inr, Bool-cases, Option-cases, get_or, is_none,
  eqb,
}
use termhop.Dict.{Dict, Unique, get, put, pop, discard, get-put, get-pop, get-discard}
use termhop.Relay.Exec.{Exec, Result, ok, raised}
use termhop.Relay.Registry.{
  WebSocket, Role, agent, client, SessionPhase, SessionSlot, new_slot, slot_get, slot_set, is_empty,
  SessionRegistry, new_registry, get_session, create, attach, set_phase, detach, remove, get_peer,
  other_role, register_device, session_for_device, taken_by_other, routed_elsewhere,
}
use termhop.Relay.Registry.Laws.{
  IsRegistry, get-create, attach-IsRegistry, detach-IsRegistry, remove-IsRegistry,
  set_phase-IsRegistry, register_device-IsRegistry,
}

abbrev pub same_role : Role → Role → Bool
same_role agent agent = true
same_role client client = true
same_role _ _ = false

-- The connection of a role in a session.
abbrev pub slot_route : Role → Option SessionSlot → Option WebSocket
slot_route ρ none = none
slot_route ρ (some slot) = slot_get slot ρ

unfoldable pub route : SessionRegistry → String → Role → Option WebSocket
route r s ρ = slot_route ρ (get r.sessions s)

-- The two abstract maps.
pub record Routes : Type 0 where
  pub sockets : String → Role → Option WebSocket
  pub homes : String → Option String

-- The methods that change the table.
pub data Update : Type 0 where
  attaches : String → Role → WebSocket → Update
  detaches : String → Role → Update
  removes : String → Update
  sets_phase : String → SessionPhase → Update
  registers : String → String → Update

-- The method as the program runs it, a raise included.
unfoldable pub update : Update → SessionRegistry → SessionRegistry
update (attaches s ρ ws) r = (attach s ρ ws r).1
update (detaches s ρ) r = detach s ρ r
update (removes s) r = remove s r
update (sets_phase s phase) r = set_phase s phase r
update (registers device s) r = (register_device device s r).1

abbrev pub claim : Option WebSocket → WebSocket → Option WebSocket
claim none ws = some ws
claim (some holder) ws = some holder

abbrev pub settle : Option String → String → Option String
settle none s = some s
settle (some home) s = some home

abbrev pub forget : String → Option String → Option String
forget s none = none
forget s (some home) = if home == s then none else some home

-- The same on the maps: first come, first served for a socket and for a device.
abbrev pub update_routes : Update → Routes → Routes
update_routes (attaches s ρ ws) m = record m {
  sockets = λ j σ. if s == j && same_role ρ σ then claim (m.sockets j σ) ws else m.sockets j σ;
}
update_routes (detaches s ρ) m = record m {
  sockets = λ j σ. if s == j && same_role ρ σ then none else m.sockets j σ;
}
update_routes (removes s) m = record {
  sockets = λ j σ. if s == j then none else m.sockets j σ;
  homes = λ d. forget s (m.homes d);
}
update_routes (sets_phase s phase) m = m
update_routes (registers device s) m = record m {
  homes = λ d. if device == d then settle (m.homes d) s else m.homes d;
}

abbrev pub view : SessionRegistry → Routes
view r = record { sockets = route r; homes = session_for_device r }
