-- ===== src/Relay/Registry.antt =====
-- relay-server/relay/session_registry.py: the in-process routing table. A WebSocket is the number of
-- its connection. A slot is named by its session id, so a method that changes a slot in place is an
-- update of the table at that id.
pub mod Laws
pub mod Routes
use termhop.Base.{
  ℕ, ◌≡◌, refl, String, ◌==◌, Bool, true, false, not, ◌&&◌, ◌||◌, Option, none, some, [], eqb,
  if◌then◌else◌, length, is_none, get_or,
}
use termhop.Dict.{Dict, get, put, pop, discard}
use termhop.Relay.Errors.{value_error}
use termhop.Relay.Exec.{Exec, Result, ok, raised}

abbrev pub WebSocket : Type 0
WebSocket = ℕ

pub data Role : Type 0 where
  agent client : Role

pub data SessionPhase : Type 0 where
  pairing waiting_resume resuming established : SessionPhase

unfoldable pub other_role : Role → Role
other_role agent = client
other_role client = agent

pub record SessionSlot : Type 0 where
  pub agent_ws : Option WebSocket
  pub client_ws : Option WebSocket
  pub phase : SessionPhase

-- SessionSlot()
abbrev pub new_slot : SessionSlot
new_slot = record { agent_ws = none; client_ws = none; phase = pairing }

-- SessionSlot.get
unfoldable pub slot_get : SessionSlot → Role → Option WebSocket
slot_get slot agent = slot.agent_ws
slot_get slot client = slot.client_ws

-- SessionSlot.set
unfoldable pub slot_set : SessionSlot → Role → Option WebSocket → SessionSlot
slot_set slot agent ws = record slot { agent_ws = ws }
slot_set slot client ws = record slot { client_ws = ws }

unfoldable pub is_empty : SessionSlot → Bool
is_empty slot = is_none slot.agent_ws && is_none slot.client_ws

pub record SessionRegistry : Type 0 where
  pub sessions : Dict SessionSlot
  pub devices : Dict String

abbrev pub new_registry : SessionRegistry
new_registry = record { sessions = []; devices = [] }

unfoldable pub get_session : SessionRegistry → String → Option SessionSlot
get_session r session_id = get r.sessions session_id

-- self._sessions.setdefault(session_id, SessionSlot())
unfoldable pub create : SessionRegistry → String → SessionRegistry
create r session_id = elim (get r.sessions session_id) [
  | none ↦ record r { sessions = put r.sessions session_id new_slot }
  | some slot ↦ r
]

-- existing is not None and existing is not ws
unfoldable pub taken_by_other : Option WebSocket → WebSocket → Bool
taken_by_other none ws = false
taken_by_other (some existing) ws = not (eqb existing ws)

unfoldable pub attach : String → Role → WebSocket → Exec SessionRegistry (Unit {0})
unfolding create taken_by_other slot_get slot_set
attach session_id role ws r =
    let created = create r session_id in
    let slot = get_or new_slot (get r.sessions session_id) in
    if taken_by_other (slot_get slot role) ws then (raised value_error, created) else (
      ok tt,
      record created { sessions = put created.sessions session_id (slot_set slot role (some ws)) },
    )

-- slot.phase = phase, for the slot of the session
unfoldable pub set_phase : String → SessionPhase → SessionRegistry → SessionRegistry
set_phase session_id phase r = elim (get r.sessions session_id) [
  | none ↦ r
  | some slot ↦ record r { sessions = put r.sessions session_id (record slot { phase = phase }) }
]

unfoldable pub get_peer : SessionRegistry → String → Role → Option WebSocket
unfolding slot_get other_role
get_peer r session_id role = elim (get r.sessions session_id) [
  | none ↦ none
  | some slot ↦ slot_get slot (other_role role)
]

-- `slot.set(role, None)`, and the session goes with its last connection
detach_slot : String → SessionSlot → SessionRegistry → SessionRegistry
unfolding is_empty
detach_slot session_id slot r =
    if is_empty slot
    then record r { sessions = pop r.sessions session_id }
    else record r { sessions = put r.sessions session_id slot }

unfoldable pub detach : String → Role → SessionRegistry → SessionRegistry
unfolding detach_slot slot_set
detach session_id role r = elim (get r.sessions session_id) [
  | none ↦ r
  | some slot ↦ detach_slot session_id (slot_set slot role none) r
]

unfoldable pub remove : String → SessionRegistry → SessionRegistry
remove session_id r = record {
  sessions = pop r.sessions session_id;
  devices = discard (λ routed_session. routed_session == session_id) r.devices;
}

-- existing is not None and existing != session_id
routed_elsewhere : Option String → String → Bool
routed_elsewhere none session_id = false
routed_elsewhere (some existing) session_id = not (existing == session_id)

unfoldable pub register_device : String → String → Exec SessionRegistry (Unit {0})
unfolding routed_elsewhere
register_device device_id session_id r =
    if routed_elsewhere (get r.devices device_id) session_id
    then (raised value_error, r)
    else (ok tt, record r { devices = put r.devices device_id session_id })

unfoldable pub session_for_device : SessionRegistry → String → Option String
session_for_device r device_id = get r.devices device_id

-- SessionRegistry.__len__
unfoldable pub registry_len : SessionRegistry → ℕ
registry_len r = length r.sessions
