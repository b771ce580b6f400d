-- ===== src/Relay/Router/Resume.antt =====
-- relay-server/relay/router.py: the handlers of a saved device's reconnection.
pub mod Keeps
pub mod Conflict
use termhop.Base.{
  ℕ, ◌*◌, String, ◌==◌, Bool, true, false, not, ◌&&◌, ◌||◌, Option, none, some, List, [], ◌∷◌,
  if◌then◌else◌, is_some, is_none, opt_eq, ◌⧺◌,
}
use termhop.Json.{Value, str, Payload}
use termhop.Relay.Errors.{Raised}
use termhop.Relay.Exec.{Exec, Result, ok, raised, done, raise, gets, try_except, ◌>>=◌, ◌>>◌}
use termhop.Relay.Config.{Config}
use termhop.Relay.Registry.{
  WebSocket, Role, agent, client, SessionPhase, waiting_resume, resuming, established, SessionSlot,
  SessionRegistry, get_session, attach, set_phase, detach, get_peer, register_device,
  session_for_device,
}
use termhop.Relay.Envelope.{Envelope}
use termhop.Relay.System.{
  System, Machine, ConnectionContext, Action, on_registry, change_registry, bind_session,
  set_deadline, send_envelope, send_to,
}
use termhop.Relay.RateLimit.{check_ip_rate_limit, check_token_rate_limit}
use termhop.Relay.Router.Checks.{
  field_or_empty, field_or_none, text_of, valid_base64_size, valid_session_id, valid_device_id,
  valid_hostname,
}
use termhop.Relay.Router.Replies.{
  bound_to, envelope_of, send_error, is_agent, is_client, on_value_error,
}

-- `session_id and registry.get(session_id)`, and the agent of the slot; the empty id is no session.
routed_agent : Option String → SessionRegistry → Option WebSocket
routed_agent none r = none
routed_agent (some session_id) r =
    if session_id == ""
    then none
    else elim (get_session r session_id) [ none ↦ none | some slot ↦ slot.agent_ws ]

module _ {State : Type 0} (sys : System State) where
  -- In the source the handler of the `ValueError` detaches the agent of the session, whoever it is.
  reserve_device : ConnectionContext → String → String → Action State Bool
  reserve_device ctx session_id device_id =
      try_except
        (do
          on_registry (attach session_id agent ctx.ws)
          change_registry (set_phase session_id waiting_resume)
          on_registry (register_device device_id session_id)
          done true)
        (on_value_error (do
          change_registry (detach session_id agent)
          send_error sys "session_conflict" "device or session is already connected"
          done false))

  start_waiting : ConnectionContext → Envelope → String → String → Action State (Unit {0})
  unfolding reserve_device
  start_waiting ctx envelope session_id device_id = do
    reserved ← reserve_device ctx session_id device_id
    if not reserved then done tt else do
      bind_session (some session_id)
      send_envelope sys ctx.ws (envelope_of "resume_init_ack" (some session_id) 0 envelope.ts [])

  resume_init : ConnectionContext → Envelope → Action State (Unit {0})
  unfolding start_waiting
  resume_init ctx envelope =
      let session_id = field_or_empty envelope.payload "session_id" in
      let device_id = field_or_empty envelope.payload "device_id" in
      if not (is_agent ctx.role) || is_some ctx.session_id
      then send_error sys "protocol_error" "resume_init requires an unbound agent connection"
      else if not (valid_session_id session_id) || not (valid_device_id device_id)
      then send_error sys "protocol_error" "invalid resume session_id or device_id"
      else if not (valid_base64_size (field_or_empty envelope.payload "agent_pubkey") 32)
      then send_error sys "protocol_error" "agent_pubkey must encode exactly 32 bytes"
      else if not (valid_hostname (field_or_empty envelope.payload "agent_hostname"))
      then send_error sys "protocol_error" "agent_hostname is invalid"
      else start_waiting ctx envelope (text_of session_id) (text_of device_id)

  unfoldable pub handle_resume_init : Envelope → Action State (Unit {0})
  unfolding resume_init
  handle_resume_init envelope m = resume_init m.ctx envelope m

  join_device : ConnectionContext → String → Action State Bool
  join_device ctx session_id =
      try_except (do on_registry (attach session_id client ctx.ws); done true)
        (on_value_error (do
          send_error sys "session_conflict" "device already has a connected client"
          done false))

  -- From the two lookups to `agent_slot` the source does not await.
  ask_agent :
      ConnectionContext → Envelope → Option String → Option WebSocket → Action State (Unit {0})
  unfolding join_device
  ask_agent ctx envelope (some session_id) (some agent_ws) = do
    joined ← join_device ctx session_id
    if not joined then done tt else do
      bind_session (some session_id)
      set_deadline (ctx.cfg.handshake_timeout_s * 1000)
      change_registry (set_phase session_id resuming)
      send_envelope sys agent_ws (envelope_of "resume_request" (some session_id) 0 envelope.ts [])
  ask_agent ctx envelope _ _ =
      send_error sys "device_offline" "saved device is not currently connected"

  find_device : ConnectionContext → Envelope → String → Action State (Unit {0})
  unfolding routed_agent ask_agent
  find_device ctx envelope device_id = do
    check_ip_rate_limit sys ctx.cfg ctx.peer_ip
    check_token_rate_limit sys ctx.cfg ("resume-" ⧺ device_id)
    session_id ← gets (λ m. session_for_device m.world.registry device_id)
    agent_ws ← gets (λ m. routed_agent session_id m.world.registry)
    ask_agent ctx envelope session_id agent_ws

  resume_request : ConnectionContext → Envelope → Action State (Unit {0})
  unfolding find_device
  resume_request ctx envelope =
      let device_id = field_or_empty envelope.payload "device_id" in
      if not (is_client ctx.role) || is_some ctx.session_id
      then send_error sys "protocol_error" "resume_request requires an unbound client connection"
      else if not (valid_device_id device_id)
      then send_error sys "protocol_error" "invalid device_id"
      else find_device ctx envelope (text_of device_id)

  unfoldable pub handle_resume_request : Envelope → Action State (Unit {0})
  unfolding resume_request
  handle_resume_request envelope m = resume_request m.ctx envelope m

  resume_proof : ConnectionContext → Envelope → Option String → Action State (Unit {0})
  resume_proof ctx envelope none =
      send_error sys "protocol_error" "resume_proof requires the bound client session"
  resume_proof ctx envelope (some session_id) =
      if not (is_client ctx.role)
      then send_error sys "protocol_error" "resume_proof requires the bound client session"
      else if not (valid_base64_size (field_or_none envelope.payload "client_pubkey") 32)
          || not (valid_base64_size (field_or_none envelope.payload "client_proof") 32)
      then send_error sys "protocol_error" "resume key and proof must each encode 32 bytes"
      else (do
        peer ← gets (λ m. get_peer m.world.registry session_id client)
        if is_none peer
            then send_error sys "device_offline" "saved device disconnected"
            else send_to sys peer envelope)

  unfoldable pub handle_resume_proof : Envelope → Action State (Unit {0})
  unfolding resume_proof
  handle_resume_proof envelope m =
      resume_proof m.ctx envelope (bound_to m.ctx.session_id envelope) m

  resume_challenge : ConnectionContext → Envelope → Option String → Action State (Unit {0})
  resume_challenge ctx envelope none =
      send_error sys "protocol_error" "resume_challenge requires the bound agent session"
  resume_challenge ctx envelope (some session_id) =
      if not (is_agent ctx.role)
      then send_error sys "protocol_error" "resume_challenge requires the bound agent session"
      else if not (valid_base64_size (field_or_none envelope.payload "agent_pubkey") 32)
      then send_error sys "protocol_error" "agent_pubkey must encode 32 bytes"
      else (do
        peer ← gets (λ m. get_peer m.world.registry session_id agent)
        if is_none peer
            then send_error sys "session_not_found" "client disconnected"
            else do set_deadline (ctx.cfg.handshake_timeout_s * 1000); send_to sys peer envelope)

  unfoldable pub handle_resume_challenge : Envelope → Action State (Unit {0})
  unfolding resume_challenge
  handle_resume_challenge envelope m =
      resume_challenge m.ctx envelope (bound_to m.ctx.session_id envelope) m

  resume_complete : ConnectionContext → Envelope → Option String → Action State (Unit {0})
  resume_complete ctx envelope none =
      send_error sys "protocol_error" "resume_complete requires the bound agent session"
  resume_complete ctx envelope (some session_id) =
      if not (is_agent ctx.role)
      then send_error sys "protocol_error" "resume_complete requires the bound agent session"
      else if not (valid_base64_size (field_or_none envelope.payload "agent_proof") 32)
      then send_error sys "protocol_error" "agent_proof must encode 32 bytes"
      else (do
        peer ← gets (λ m. get_peer m.world.registry session_id agent)
        if is_none peer
            then send_error sys "session_not_found" "client disconnected"
            else do change_registry (set_phase session_id established); send_to sys peer envelope)

  unfoldable pub handle_resume_complete : Envelope → Action State (Unit {0})
  unfolding resume_complete
  handle_resume_complete envelope m =
      resume_complete m.ctx envelope (bound_to m.ctx.session_id envelope) m
