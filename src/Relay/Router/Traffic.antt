-- ===== src/Relay/Router/Traffic.antt =====
-- relay-server/relay/router.py: handle_routable and teardown_session.
pub mod Keeps
pub mod Delivery
use termhop.Base.{
  String, ◌==◌, Bool, true, false, not, Option, none, some, if◌then◌else◌, is_none, opt_eq, ◌⧺◌,
}
use termhop.Relay.Exec.{Exec, Result, ok, raised, done, gets, ◌>>=◌, ◌>>◌}
use termhop.Relay.Registry.{
  SessionPhase, pairing, waiting_resume, resuming, established, SessionSlot, get_session, get_peer,
  remove,
}
use termhop.Relay.Envelope.{Envelope}
use termhop.Relay.System.{System, Machine, ConnectionContext, Action, change_registry, send_to}
use termhop.Relay.Pairing.{delete_session_record}
use termhop.Relay.Router.Replies.{send_error}

abbrev pub is_established : Option SessionSlot → Bool
is_established none = false
is_established (some slot) = elim slot.phase [
  | pairing ↦ false
  | waiting_resume ↦ false
  | resuming ↦ false
  | established ↦ true
]

module _ {State : Type 0} (sys : System State) where
  unfoldable pub teardown_session : String → Action State (Unit {0})
  teardown_session session_id = do
    change_registry (remove session_id)
    delete_session_record sys session_id

  forward : ConnectionContext → Envelope → String → Action State (Unit {0})
  unfolding teardown_session
  forward ctx envelope session_id = do
    peer_ws ← gets (λ m. get_peer m.world.registry session_id ctx.role)
    if is_none peer_ws then send_error sys "session_not_found" "peer is not connected" else do
      send_to sys peer_ws envelope
      if envelope.type == "session_close" then teardown_session session_id else done tt

  routable : ConnectionContext → Envelope → Option String → Action State (Unit {0})
  unfolding forward
  routable ctx envelope none =
      send_error sys "protocol_error" (envelope.type ⧺ " requires session_id")
  routable ctx envelope (some session_id) =
      if not (opt_eq envelope.session_id (some session_id))
      then send_error sys "session_mismatch" "envelope session_id does not match this connection"
      else (do
        slot ← gets (λ m. get_session m.world.registry session_id)
        if not (is_established slot)
            then send_error sys "handshake_incomplete" "session traffic requires authentication"
            else forward ctx envelope session_id)

  unfoldable pub handle_routable : Envelope → Action State (Unit {0})
  unfolding routable
  handle_routable envelope m = routable m.ctx envelope m.ctx.session_id m
