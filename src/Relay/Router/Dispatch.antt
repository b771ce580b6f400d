-- ===== src/Relay/Router/Dispatch.antt =====
-- relay-server/relay/router.py: the role table and dispatch.
pub mod Keeps
use termhop.Base.{
  String, ◌==◌, Bool, true, false, not, Option, none, some, List, [], ◌∷◌, if◌then◌else◌, member,
  ◌⧺◌,
}
use termhop.Dict.{Dict, get}
use termhop.Relay.Errors.{
  Raised, RelayError, relay, token_not_found, token_already_used, token_invalid, message,
}
use termhop.Relay.Exec.{Exec, Result, ok, raised, done, raise, try_except}
use termhop.Relay.Registry.{Role, agent, client}
use termhop.Relay.Envelope.{Envelope, routable_types}
use termhop.Relay.System.{System, Machine, Action}
use termhop.Relay.Router.Replies.{send_error}
use termhop.Relay.Router.Pair.{handle_pair_init, handle_pair_request, handle_pair_complete}
use termhop.Relay.Router.Resume.{
  handle_resume_init, handle_resume_request, handle_resume_challenge, handle_resume_proof,
  handle_resume_complete,
}
use termhop.Relay.Router.Traffic.{handle_routable}

abbrev pub role_types : Role → List String
role_types agent =
    "pair_init" ∷ "pair_complete" ∷ "resume_init" ∷ "resume_challenge" ∷ "resume_complete"
    ∷ "device_credential" ∷ "pty_data" ∷ "session_list" ∷ "session_close" ∷ "idle_alert"
    ∷ "port_forward_data" ∷ "port_forward_close" ∷ []
role_types client =
    "pair_request" ∷ "resume_request" ∷ "resume_proof" ∷ "pty_input" ∷ "session_open"
    ∷ "session_resize" ∷ "session_close" ∷ "port_forward_request" ∷ "port_forward_data"
    ∷ "port_forward_close" ∷ []

abbrev pub role_name : Role → String
role_name agent = "agent"
role_name client = "client"

-- The error code that `dispatch` answers with.
abbrev pub error_code : RelayError → String
error_code (token_not_found token) = "token_invalid"
error_code (token_already_used token) = "token_invalid"
error_code (token_invalid text) = "token_invalid"
error_code _ = "rate_limited"

module _ {State : Type 0} (sys : System State) where
  -- `except RelayError`; any other exception goes on to the connection's loop
  answer_error : Raised → Action State (Unit {0})
  answer_error (relay e) = send_error sys (error_code e) (message e)
  answer_error e = raise e

  -- _DISPATCH
  abbrev pub dispatch_table : Dict (Envelope → Action State (Unit {0}))
  dispatch_table =
      ("pair_init", handle_pair_init sys)
      ∷ ("pair_request", handle_pair_request sys)
      ∷ ("pair_complete", handle_pair_complete sys)
      ∷ ("resume_init", handle_resume_init sys)
      ∷ ("resume_request", handle_resume_request sys)
      ∷ ("resume_challenge", handle_resume_challenge sys)
      ∷ ("resume_proof", handle_resume_proof sys)
      ∷ ("resume_complete", handle_resume_complete sys)
      ∷ []

  run_handler : Option (Envelope → Action State (Unit {0})) → Envelope → Action State (Unit {0})
  unfolding answer_error
  run_handler (some handler) envelope = try_except (handler envelope) answer_error
  run_handler none envelope =
      if member envelope.type routable_types
      then handle_routable sys envelope
      else send_error sys "unknown_type" ("unrecognized message type: " ⧺ envelope.type)

  unfoldable pub dispatch : Envelope → Action State (Unit {0})
  unfolding run_handler
  dispatch envelope m =
      if not (member envelope.type (role_types m.ctx.role))
      then send_error sys "protocol_error"
          (envelope.type ⧺ " is not valid from the " ⧺ role_name m.ctx.role ⧺ " role") m
      else run_handler (get dispatch_table envelope.type) envelope m
