-- ===== src/Relay/System.antt =====
-- What a connection's coroutine runs in: the state that all connections share (`World`), the
-- connection's own context (router.py, `ConnectionContext`), and what the relay does not implement
-- (`System`). At each `await` other connections may run: `interfere` is all that they do there, and
-- `quiet` is that they do nothing.
use termhop.Base.{ℕ, String, Bool, Option, none, some, List, [], ◌∷◌, ◌++◌, ◌+◌, if◌then◌else◌}
use termhop.Json.{Value}
use termhop.Relay.Errors.{disconnected, redis_error, attribute_error}
use termhop.Relay.Exec.{Exec, Result, ok, raised, put_back}
use termhop.Relay.Config.{Config}
use termhop.Relay.Registry.{WebSocket, Role, SessionRegistry}
use termhop.Relay.Envelope.{Envelope}
use termhop.Relay.Redis.{Redis}

pub record World (State : Type 0) : Type 0 where
  pub registry : SessionRegistry
  pub store : State
  -- False while the Redis server cannot be reached.
  pub redis_up : Bool
  -- Every envelope that was sent, in order, with its receiver.
  pub outbox : List (WebSocket × Envelope)
  -- client_state == WebSocketState.CONNECTED
  pub connected : WebSocket → Bool
  -- time.monotonic() and time.time(), in milliseconds
  pub monotonic_ms : ℕ
  pub wall_ms : ℕ
  -- How many values `uuid.uuid4()` has given.
  pub uuids_drawn : ℕ

-- What was sent after a send: one to a connection that is gone raises.
abbrev pub with_sent :
    {State : Type 0} → World State → WebSocket → Envelope → List (WebSocket × Envelope)
with_sent w ws envelope = if w.connected ws then w.outbox ++ (ws, envelope) ∷ [] else w.outbox

pub record System (State : Type 0) : Type 0 where
  pub redis : Redis State
  pub sha256 : String → String
  pub uuid : ℕ → String
  pub json_loads : String → Option Value
  pub interfere : World State → World State

pub record ConnectionContext : Type 0 where
  pub ws : WebSocket
  pub role : Role
  pub peer_ip : String
  pub cfg : Config
  pub session_id : Option String
  pub last_seq : ℕ
  -- in milliseconds of the monotonic clock
  pub handshake_deadline : Option ℕ

pub record Machine (State : Type 0) : Type 0 where
  pub ctx : ConnectionContext
  pub world : World State

abbrev pub quiet : {State : Type 0} → World State → World State
quiet w = w

abbrev pub Action : Type 0 → Type 0 → Type 0
Action State A = Exec (Machine State) A

abbrev pub write_registry : {State : Type 0} → SessionRegistry → Machine State → Machine State
write_registry r m = record m { world = record m.world { registry = r } }

-- A call of a method of `ctx.registry`.
unfoldable pub on_registry : {State A : Type 0} → Exec SessionRegistry A → Action State A
on_registry f m = put_back write_registry m (f m.world.registry)

unfoldable pub change_registry :
    {State : Type 0} → (SessionRegistry → SessionRegistry) → Action State (Unit {0})
change_registry f m = (ok tt, write_registry (f m.world.registry) m)

unfoldable pub bind_session : {State : Type 0} → Option String → Action State (Unit {0})
bind_session session_id m = (ok tt, record m { ctx = record m.ctx { session_id = session_id } })

-- ctx.handshake_deadline = time.monotonic() + seconds
unfoldable pub set_deadline : {State : Type 0} → ℕ → Action State (Unit {0})
set_deadline ms m = (
  ok tt,
  record m { ctx = record m.ctx { handshake_deadline = some (m.world.monotonic_ms + ms) } },
)

module _ {State : Type 0} (sys : System State) where
  abbrev pub yield : Machine State → Machine State
  yield m = record m { world = sys.interfere m.world }

  abbrev on_store : {A : Type 0} → Machine State → A × State → Result A × Machine State
  on_store m (a, s) = (ok a, yield (record m { world = record m.world { store = s } }))

  -- `await redis.command(..)` and `await redis.eval(script, ..)`: a script runs as one command.
  unfoldable pub redis_call : {A : Type 0} → (State → A × State) → Action State A
  redis_call command m =
      let m' = yield m in
      if m'.world.redis_up then on_store m' (command m'.world.store) else (raised redis_error, m')

  -- await ws.send_text(envelope.model_dump_json())
  unfoldable pub send_envelope : WebSocket → Envelope → Action State (Unit {0})
  send_envelope ws envelope m =
      if m.world.connected ws
      then (
        ok tt,
        yield (record m {
          world = record m.world { outbox = m.world.outbox ++ (ws, envelope) ∷ [] };
        }),
      )
      else (raised disconnected, m)

  -- The same on a connection that may be `None`.
  unfoldable pub send_to : Option WebSocket → Envelope → Action State (Unit {0})
  unfolding send_envelope
  send_to none envelope m = (raised attribute_error, m)
  send_to (some ws) envelope m = send_envelope ws envelope m
