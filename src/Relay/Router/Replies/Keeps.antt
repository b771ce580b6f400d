-- ===== src/Relay/Router/Replies/Keeps.antt =====
-- The relay's own replies leave the registry alone.
use termhop.Base.{String, Bool, true, false, ◌≡◌, refl, if◌then◌else◌}
use termhop.Relay.Errors.{Raised, value_error}
use termhop.Relay.Registry.{SessionRegistry}
use termhop.Relay.System.{System, Machine, Action}
use termhop.Relay.Router.Replies.{send_error, on_value_error}
use termhop.Relay.Keeps.{Keeps, Relies, Keeps-raise, Keeps-send_envelope}

module _ {State A : Type 0} {P : SessionRegistry → Type 0} where
  pub Keeps-on_value_error :
      (handler : Action State A) (e : Raised) → Keeps P handler → Keeps P (on_value_error handler e)
  Keeps-on_value_error handler value_error k = k
  Keeps-on_value_error handler e k = Keeps-raise e

module _ {State : Type 0} {P : SessionRegistry → Type 0} (sys : System State)
    (rely : Relies sys P) where
  pub Keeps-send_error : (code message : _) → Keeps P (send_error sys code message)
  unfolding send_error
  Keeps-send_error code message = record {
    at = λ m h. (Keeps-send_envelope sys rely m.ctx.ws _).at m h;
  }

module _ {State : Type 0} (P : SessionRegistry → Type 0) (sys : System State)
    (rely : Relies sys P) where
  -- A refusal, or the rest of the handler with the test passed.
  pub refuse_or :
      (b : Bool) (code message : String) (rest : Action State (Unit {0})) (m : Machine State)
      → P m.world.registry
      → (b ≡ false → P (rest m).1.world.registry)
      → P ((if b then send_error sys code message else rest) m).1.world.registry
  refuse_or true code message rest m h k = (Keeps-send_error sys rely code message).at m h
  refuse_or false code message rest m h k = k refl
