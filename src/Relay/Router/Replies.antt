-- ===== src/Relay/Router/Replies.antt =====
-- relay-server/relay/router.py: the envelopes that the relay makes itself, and what the handlers share.
pub mod Keeps
use termhop.Base.{
  ℕ, String, ◌==◌, Bool, true, false, Option, none, some, List, [], ◌∷◌, opt_eq, if◌then◌else◌,
}
use termhop.Json.{Value, str, Payload}
use termhop.Relay.Errors.{Raised, value_error}
use termhop.Relay.Exec.{Exec, Result, ok, raised, done, raise}
use termhop.Relay.Registry.{Role, agent, client}
use termhop.Relay.Envelope.{Envelope}
use termhop.Relay.System.{System, Machine, Action, send_envelope}

-- _envelope
abbrev pub envelope_of : String → Option String → ℕ → ℕ → Payload → Envelope
envelope_of type session_id seq ts payload = record {
  v = 2;
  type = type;
  session_id = session_id;
  seq = seq;
  ts = ts;
  payload = payload;
}

abbrev pub error_payload : String → String → Payload
error_payload code message = ("code", str code) ∷ ("message", str message) ∷ []

unfoldable pub send_error :
    {State : Type 0} → System State → String → String → Action State (Unit {0})
send_error sys code message m =
    send_envelope sys m.ctx.ws
      (envelope_of "error" m.ctx.session_id 0 0 (error_payload code message)) m

abbrev pub is_agent : Role → Bool
is_agent agent = true
is_agent client = false

abbrev pub is_client : Role → Bool
is_client agent = false
is_client client = true

-- `except ValueError: handler`, which lets every other exception through
abbrev pub on_value_error : {State A : Type 0} → Action State A → Raised → Action State A
on_value_error handler value_error = handler
on_value_error handler e = raise e

-- The session that a bound connection of the role speaks for, if the envelope names it.
abbrev pub bound_to : Option String → Envelope → Option String
bound_to none envelope = none
bound_to (some session_id) envelope =
    if opt_eq envelope.session_id (some session_id) then some session_id else none
