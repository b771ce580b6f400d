-- ===== src/Relay/Router/Pair.antt =====
-- relay-server/relay/router.py: handle_pair_init, handle_pair_request and handle_pair_complete.
pub mod Keeps
use termhop.Base.{
  ℕ, ◌*◌, String, ◌==◌, Bool, true, false, not, ◌&&◌, ◌||◌, Option, none, some, List, [], ◌∷◌,
  if◌then◌else◌, is_some, is_none, opt_eq, get_or,
}
use termhop.Dict.{Dict, get}
use termhop.Json.{Value, str, Payload, truthy}
use termhop.Relay.Errors.{Raised, key_error}
use termhop.Relay.Exec.{Exec, Result, ok, raised, done, raise, gets, lift, try_except, ◌>>=◌, ◌>>◌}
use termhop.Relay.Config.{Config}
use termhop.Relay.Registry.{
  WebSocket, Role, agent, client, SessionPhase, pairing, established, SessionSlot, get_session,
  attach, set_phase, detach, get_peer,
}
use termhop.Relay.Envelope.{Envelope}
use termhop.Relay.System.{
  System, Machine, ConnectionContext, Action, on_registry, change_registry, bind_session,
  set_deadline, send_envelope, send_to,
}
use termhop.Relay.Pairing.{
  validate_token_format, issue_token, consume_token, delete_token, create_session_record,
  set_session_state, mark_session_established,
}
use termhop.Relay.RateLimit.{check_ip_rate_limit, check_token_rate_limit}
use termhop.Relay.Router.Checks.{
  field_or_empty, field_or_none, text_of, valid_base64_size, valid_session_id, valid_hostname,
}
use termhop.Relay.Router.Replies.{envelope_of, send_error, is_agent, is_client, on_value_error}

-- fields[key]
required : {State : Type 0} → Dict String → String → Action State String
required fields key = elim (get fields key) [ none ↦ raise key_error | some value ↦ done value ]

abbrev agent_of : Option SessionSlot → Option WebSocket
agent_of none = none
agent_of (some slot) = slot.agent_ws

module _ {State : Type 0} (sys : System State) where
  -- `slot = registry.attach(..); slot.phase = "pairing"`: false where the session is already connected
  reserve_session : ConnectionContext → String → Action State Bool
  reserve_session ctx session_id =
      try_except
        (do
          on_registry (attach session_id agent ctx.ws)
          change_registry (set_phase session_id pairing)
          done true)
        (on_value_error
          (do send_error sys "session_conflict" "session_id is already connected"; done false))

  -- The relay's own state for the session. Of a failed second half the first is undone.
  register_pairing : ConnectionContext → Value → String → String → String → Action State (Unit {0})
  register_pairing ctx token agent_pubkey session_id agent_hostname = do
    check_ip_rate_limit sys ctx.cfg ctx.peer_ip
    text ← lift (validate_token_format token ctx.cfg)
    issue_token sys ctx.cfg token agent_pubkey session_id agent_hostname
    try_except (create_session_record sys ctx.cfg session_id)
        (λ e. do delete_token sys text; raise e)

  release_session : String → Raised → Action State (Unit {0})
  release_session session_id e = do
    change_registry (detach session_id agent)
    bind_session none
    raise e

  start_pairing :
      ConnectionContext → Envelope → Value → String → String → String → Action State (Unit {0})
  unfolding reserve_session register_pairing release_session
  start_pairing ctx envelope token agent_pubkey session_id agent_hostname = do
    reserved ← reserve_session ctx session_id
    if not reserved then done tt else do
      bind_session (some session_id)
      try_except (register_pairing ctx token agent_pubkey session_id agent_hostname)
          (release_session session_id)
      set_deadline (ctx.cfg.pairing_token_ttl_s * 1000)
      send_envelope sys ctx.ws (envelope_of "pair_init_ack" (some session_id) 0 envelope.ts [])

  pair_init : ConnectionContext → Envelope → Action State (Unit {0})
  unfolding start_pairing
  pair_init ctx envelope =
      let token = field_or_empty envelope.payload "token" in
      let agent_pubkey = field_or_empty envelope.payload "agent_pubkey" in
      let session_id = field_or_empty envelope.payload "session_id" in
      let agent_hostname = field_or_empty envelope.payload "agent_hostname" in
      if not (is_agent ctx.role)
      then send_error sys "protocol_error" "pair_init only valid on the agent connection"
      else if is_some ctx.session_id
      then send_error sys "protocol_error" "connection is already bound to a session"
      else if not (truthy session_id)
      then send_error sys "protocol_error" "pair_init.payload.session_id is required"
      else if not (valid_session_id session_id)
      then send_error sys "protocol_error"
          "session_id must be sess- followed by 1-64 url-safe characters"
      else if not (valid_base64_size agent_pubkey 32)
      then send_error sys "protocol_error"
          "agent_pubkey must be standard base64 encoding of 32 bytes"
      else if not (valid_hostname agent_hostname)
      then send_error sys "protocol_error" "agent_hostname is invalid"
      else start_pairing ctx envelope token (text_of agent_pubkey) (text_of session_id)
          (text_of agent_hostname)

  unfoldable pub handle_pair_init : Envelope → Action State (Unit {0})
  unfolding pair_init
  handle_pair_init envelope m = pair_init m.ctx envelope m

  -- `slot = registry.get(session_id)`, then the agent's connection, is there
  join_session : ConnectionContext → String → Action State Bool
  join_session ctx session_id =
      try_except (do on_registry (attach session_id client ctx.ws); done true)
        (on_value_error (do
          send_error sys "session_conflict" "client is already connected for this session"
          done false))

  -- The slot is read again where the source reads `slot.agent` after two awaits.
  challenge : ConnectionContext → Envelope → String → String → String → Action State (Unit {0})
  challenge ctx envelope session_id agent_pubkey agent_hostname = do
    bind_session (some session_id)
    set_deadline (ctx.cfg.handshake_timeout_s * 1000)
    set_session_state sys session_id "handshaking"
    send_envelope sys ctx.ws (
        envelope_of "pair_challenge" (some session_id) 0 envelope.ts
          (("peer_pubkey", str agent_pubkey) ∷ ("agent_hostname", str agent_hostname) ∷ []))
    agent_ws ← gets (λ m. agent_of (get_session m.world.registry session_id))
    send_to sys agent_ws (
        envelope_of "pair_challenge" (some session_id) 0 envelope.ts (
          ("peer_pubkey", field_or_empty envelope.payload "client_pubkey")
          ∷ ("client_proof", field_or_empty envelope.payload "client_proof")
          ∷ []))

  join_agent : ConnectionContext → Envelope → Dict String → Action State (Unit {0})
  unfolding required join_session challenge
  join_agent ctx envelope fields = do
    session_id ← required fields "session_id"
    agent_pubkey ← required fields "agent_pubkey"
    let agent_hostname = get_or "" (get fields "agent_hostname")
    agent_ws ← gets (λ m. agent_of (get_session m.world.registry session_id))
    if is_none agent_ws
        then send_error sys "session_not_found" "agent for this session is no longer connected"
        else do
          joined ← join_session ctx session_id
          if not joined
              then done tt
              else challenge ctx envelope session_id agent_pubkey agent_hostname

  redeem_token : ConnectionContext → Envelope → Action State (Unit {0})
  unfolding join_agent
  redeem_token ctx envelope = do
    text ← lift (validate_token_format (field_or_empty envelope.payload "token") ctx.cfg)
    check_ip_rate_limit sys ctx.cfg ctx.peer_ip
    check_token_rate_limit sys ctx.cfg text
    fields ← consume_token sys text
    join_agent ctx envelope fields

  pair_request : ConnectionContext → Envelope → Action State (Unit {0})
  unfolding redeem_token
  pair_request ctx envelope =
      let client_pubkey = field_or_empty envelope.payload "client_pubkey" in
      let client_proof = field_or_empty envelope.payload "client_proof" in
      if not (is_client ctx.role)
      then send_error sys "protocol_error" "pair_request only valid on the client connection"
      else if is_some ctx.session_id
      then send_error sys "protocol_error" "connection is already bound to a session"
      else if not (truthy client_pubkey) || not (truthy client_proof)
      then send_error sys "protocol_error" "pair_request requires client_pubkey and client_proof"
      else if not (valid_base64_size client_pubkey 32) || not (valid_base64_size client_proof 32)
      then send_error sys "protocol_error"
          "client_pubkey and client_proof must each encode exactly 32 bytes"
      else redeem_token ctx envelope

  unfoldable pub handle_pair_request : Envelope → Action State (Unit {0})
  unfolding pair_request
  handle_pair_request envelope m = pair_request m.ctx envelope m

  complete_pairing : ConnectionContext → Envelope → String → Action State (Unit {0})
  complete_pairing ctx envelope session_id = do
    peer_ws ← gets (λ m. get_peer m.world.registry session_id ctx.role)
    if is_none peer_ws then send_error sys "session_not_found" "peer is not connected" else do
      change_registry (set_phase session_id established)
      send_to sys peer_ws envelope
      mark_session_established sys session_id

  pair_complete : ConnectionContext → Envelope → Option String → Action State (Unit {0})
  unfolding complete_pairing
  pair_complete ctx envelope none =
      send_error sys "protocol_error" "pair_complete requires an established session_id"
  pair_complete ctx envelope (some session_id) =
      let agent_proof = field_or_none envelope.payload "agent_proof" in
      if not (is_agent ctx.role)
      then send_error sys "protocol_error" "pair_complete is only valid from the agent"
      else if not (opt_eq envelope.session_id (some session_id))
      then send_error sys "session_mismatch" "envelope session_id does not match this connection"
      else if not (truthy agent_proof)
      then send_error sys "protocol_error" "pair_complete requires agent_proof"
      else if not (valid_base64_size agent_proof 32)
      then send_error sys "protocol_error" "agent_proof must encode exactly 32 bytes"
      else complete_pairing ctx envelope session_id

  unfoldable pub handle_pair_complete : Envelope → Action State (Unit {0})
  unfolding pair_complete
  handle_pair_complete envelope m = pair_complete m.ctx envelope m.ctx.session_id m
