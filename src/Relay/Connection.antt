-- ===== src/Relay/Connection.antt =====
-- relay-server/relay/ws_handlers.py: the life of one connection. What its peer does is a list of
-- arrivals, each with the time that passes before it.
pub mod Cleanup
use termhop.Base.{
  ℕ, ◌+◌, ◌-◌, ◌*◌, String, ◌==◌, Bool, true, false, not, Option, none, some, List, [], ◌∷◌,
  if◌then◌else◌, eqb, leb, get_or, member, strip, rstrip, after_comma, first_chars,
}
use termhop.Json.{str}
use termhop.Relay.Errors.{Raised, relay, message}
use termhop.Relay.Exec.{Exec, Result, ok, raised, done, gets, try_except, ◌>>=◌, ◌>>◌}
use termhop.Relay.Config.{Config}
use termhop.Relay.Registry.{
  WebSocket, Role, agent, client, SessionPhase, pairing, waiting_resume, resuming, established,
  SessionSlot, get_session, get_peer, detach,
}
use termhop.Relay.Envelope.{Envelope, parse_envelope}
use termhop.Relay.System.{
  System, Machine, ConnectionContext, Action, change_registry, send_envelope, yield,
}
use termhop.Relay.RateLimit.{ConnectionLimiter, try_acquire}
use termhop.Relay.Router.Replies.{envelope_of}
use termhop.Relay.Router.Traffic.{teardown_session}
use termhop.Relay.Router.Dispatch.{dispatch}

-- The last hop of the header's value, where it names one.
last_hop : String → String → String
last_hop forwarded peer =
    let candidate = strip (get_or forwarded (after_comma forwarded)) in
    if candidate == "" then peer else candidate

forwarded_for : Option String → String → String
unfolding last_hop
forwarded_for none peer = peer
forwarded_for (some forwarded) peer = last_hop forwarded peer

-- websocket.client.host, and the header x-forwarded-for
unfoldable pub client_ip : Option String → Option String → List String → String
unfolding forwarded_for
client_ip host forwarded trusted_proxy_ips =
    let peer = get_or "unknown" host in
    if member peer trusted_proxy_ips then forwarded_for forwarded peer else peer

unfoldable pub origin_allowed : Role → Option String → Config → Bool
origin_allowed agent origin cfg = true
origin_allowed client none cfg = true
origin_allowed client (some origin) cfg =
    member (rstrip (λ c. eqb c b'/') origin) cfg.client_origins

pub data Admission : Type 0 where
  origin_refused too_many : Admission
  admitted : String → Admission

-- The tests before `websocket.accept()`.
unfoldable pub open_connection :
    Config
    → Role
    → Option String
    → Option String
    → Option String
    → ConnectionLimiter
    → Admission × ConnectionLimiter
unfolding origin_allowed client_ip
open_connection cfg role origin host forwarded limiter =
    let peer_ip = client_ip host forwarded cfg.trusted_proxy_ips in
    let (room, limiter') = try_acquire limiter peer_ip cfg.max_connections_per_ip in
    if not (origin_allowed role origin cfg)
    then (origin_refused, limiter)
    else if not room
    then (too_many, limiter')
    else (admitted peer_ip, limiter')

-- After some milliseconds the peer sends a text, or disconnects.
pub data Arrival : Type 0 where
  sends : ℕ → String → Arrival
  leaves : ℕ → Arrival

-- How the loop ends: by a close with a reason, by the peer, or by an exception of a handler.
pub data Ending : Type 0 where
  closed : String → Ending
  left : Ending
  failed : Raised → Ending

unfoldable pub waits_forever : Option SessionSlot → Bool
waits_forever none = false
waits_forever (some slot) = elim slot.phase [
  | pairing ↦ false
  | waiting_resume ↦ true
  | resuming ↦ false
  | established ↦ true
]

module _ {State : Type 0} where
  deadline_of : Machine State → ℕ
  deadline_of m = elim m.ctx.handshake_deadline [
    | none ↦ m.world.monotonic_ms + m.ctx.cfg.handshake_timeout_s * 1000
    | some deadline ↦ deadline
  ]

  -- ctx.handshake_deadline, set where it is None
  unfoldable pub default_deadline : Machine State → Machine State
  unfolding deadline_of
  default_deadline m = record m { ctx = record m.ctx { handshake_deadline = some (deadline_of m) } }

  exempt : Option String → Machine State → Bool
  unfolding waits_forever
  exempt none m = false
  exempt (some session_id) m = waits_forever (get_session m.world.registry session_id)

  unfoldable pub wait_timeout : Machine State → Option ℕ
  unfolding exempt
  wait_timeout m =
      if exempt m.ctx.session_id m
      then none
      else some (get_or 0 m.ctx.handshake_deadline - m.world.monotonic_ms)

  advance : ℕ → Machine State → Machine State
  advance ms m = record m { world = record m.world { monotonic_ms = m.world.monotonic_ms + ms } }

  unfoldable pub set_last_seq : ℕ → Machine State → Machine State
  set_last_seq seq m = record m { ctx = record m.ctx { last_seq = seq } }

abbrev delay : Arrival → ℕ
delay (sends ms raw) = ms
delay (leaves ms) = ms

-- Whether the timeout comes first.
unfoldable pub times_out : Option ℕ → Arrival → Bool
times_out none arrival = false
times_out (some timeout) arrival = leb timeout (delay arrival)

-- One round of the loop: it goes on after the message, or it ends.
pub data Round (State : Type 0) : Type 0 where
  goes_on : Envelope → Machine State → Round State
  stops : Ending → Machine State → Round State
  fails : Envelope → Raised → Machine State → Round State

-- The messages that were dispatched, how the loop ended, and where.
pub record Served (State : Type 0) : Type 0 where
  pub handled : List Envelope
  pub ending : Ending
  pub after : Machine State

module _ {State : Type 0} (sys : System State) where
  dispatched : Envelope → Result (Unit {0}) × Machine State → Round State
  dispatched envelope (ok _, m) = goes_on envelope m
  dispatched envelope (raised e, m) = fails envelope e m

  unfoldable pub check_sequence : Envelope → Machine State → Round State
  unfolding dispatched set_last_seq
  check_sequence envelope m =
      if leb envelope.seq m.ctx.last_seq
      then stops (closed "sequence numbers must increase") m
      else dispatched envelope (dispatch sys envelope (set_last_seq envelope.seq m))

  parsed : Result Envelope → Machine State → Round State
  unfolding check_sequence
  parsed (ok envelope) m = check_sequence envelope m
  parsed (raised (relay e)) m = stops (closed (first_chars 120 (message e))) m
  parsed (raised e) m = stops (failed e) m

  arrived : Arrival → Machine State → Round State
  unfolding parsed
  arrived (sends ms raw) m =
      parsed
        (parse_envelope sys.json_loads raw m.ctx.cfg.max_envelope_bytes m.ctx.cfg.protocol_version)
        m
  arrived (leaves ms) m = stops left m

  unfoldable pub round : Arrival → Machine State → Round State
  unfolding arrived default_deadline wait_timeout advance times_out
  round arrival m =
      let m₁ = default_deadline m in
      let timeout = wait_timeout m₁ in
      if times_out timeout arrival
      then stops (closed "handshake timed out") (yield sys (advance (get_or 0 timeout) m₁))
      else arrived arrival (yield sys (advance (delay arrival) m₁))

  next_round : (Machine State → Served State) → Round State → Served State
  next_round loop (goes_on envelope m) =
      let served = loop m in record served { handled = envelope ∷ served.handled }
  next_round loop (stops ending m) = record { handled = []; ending = ending; after = m }
  next_round loop (fails envelope e m) = record {
    handled = envelope ∷ [];
    ending = failed e;
    after = m;
  }

  -- `while True`
  unfoldable pub serve : List Arrival → Machine State → Served State
  unfolding round next_round
  serve [] m = record { handled = []; ending = left; after = m }
  serve (arrival ∷ arrivals) m = next_round (serve arrivals) (round arrival m)

  -- `except Exception: pass`
  tell_peer : String → Option WebSocket → Bool → Action State (Unit {0})
  tell_peer session_id (some peer_ws) true =
      try_except
        (send_envelope sys peer_ws (
          envelope_of "session_close" (some session_id) 0 0
            (("reason", str "peer_disconnected") ∷ [])))
        (λ e. done tt)
  tell_peer session_id _ _ = done tt

  abbrev is_connected : Option WebSocket → Machine State → Bool
  is_connected none m = false
  is_connected (some ws) m = m.world.connected ws

  close_session : ConnectionContext → Option String → Action State (Unit {0})
  unfolding tell_peer
  close_session ctx none = done tt
  close_session ctx (some session_id) = do
    peer_ws ← gets (λ m. get_peer m.world.registry session_id ctx.role)
    change_registry (detach session_id ctx.role)
    connected ← gets (is_connected peer_ws)
    tell_peer session_id peer_ws connected
    teardown_session sys session_id

  unfoldable pub handle_disconnect : Action State (Unit {0})
  unfolding close_session
  handle_disconnect m = close_session m.ctx m.ctx.session_id m

  -- From `websocket.accept()` to the end of `finally`.
  unfoldable pub run_connection : List Arrival → Machine State → Machine State
  unfolding serve handle_disconnect
  run_connection arrivals m = (handle_disconnect (serve arrivals (yield sys m)).after).1
