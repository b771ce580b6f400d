-- ===== src/Relay/Router/Traffic/Keeps.antt =====
-- Session traffic changes the registry by a teardown alone.
use termhop.Base.{String, Option, none, some}
use termhop.Relay.Registry.{SessionRegistry}
use termhop.Relay.Envelope.{Envelope}
use termhop.Relay.System.{System, ConnectionContext}
use termhop.Relay.Pairing.Keeps.{delete_session_record-Keeps}
use termhop.Relay.Router.Replies.Keeps.{Keeps-send_error}
use termhop.Relay.Router.Traffic.{teardown_session, forward, routable, handle_routable}
use termhop.Relay.Keeps.{Keeps, keeps_rules, Relies, IsKept, Keeps-send_to}

module _ {State : Type 0} {P : SessionRegistry → Type 0} (sys : System State) (rely : Relies sys P)
    (kept : IsKept P) where
  pub teardown_session-Keeps : (session_id : String) → Keeps P (teardown_session sys session_id)
  unfolding teardown_session
  teardown_session-Keeps session_id =
      search (keeps_rules, delete_session_record-Keeps sys rely, kept.remove_keeps)

  forward-Keeps :
      (ctx : ConnectionContext) (envelope : Envelope) (session_id : String)
      → Keeps P (forward sys ctx envelope session_id)
  unfolding forward
  forward-Keeps ctx envelope session_id =
      search
        (keeps_rules, Keeps-send_to sys rely, Keeps-send_error sys rely, teardown_session-Keeps)
        depth 10

  routable-Keeps :
      (ctx : ConnectionContext) (envelope : Envelope) (bound : Option String)
      → Keeps P (routable sys ctx envelope bound)
  unfolding routable
  routable-Keeps ctx envelope none = Keeps-send_error sys rely _ _
  routable-Keeps ctx envelope (some session_id) =
      search (keeps_rules, Keeps-send_error sys rely, forward-Keeps) depth 10

  pub handle_routable-Keeps : (envelope : Envelope) → Keeps P (handle_routable sys envelope)
  unfolding handle_routable
  handle_routable-Keeps envelope = record {
    at = λ m h. (routable-Keeps m.ctx envelope m.ctx.session_id).at m h;
  }
