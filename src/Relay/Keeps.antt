-- ===== src/Relay/Keeps.antt =====
-- Invariants of actions, with one rule for each way to build an action. What other connections do at
-- an await has to keep the invariant too.
use termhop.Base.{String, Bool, true, false, Option, none, some, if◌then◌else◌}
use termhop.Relay.Errors.{Raised}
use termhop.Relay.Exec.{
  Exec, Result, ok, raised, done, raise, gets, lift, try_except, recover, resume, ◌>>=◌,
}
use termhop.Relay.Registry.{
  WebSocket, SessionRegistry, Role, attach, detach, remove, set_phase, pairing, waiting_resume,
  resuming, register_device,
}
use termhop.Relay.Envelope.{Envelope}
use termhop.Relay.System.{
  System, World, Machine, Action, on_registry, change_registry, bind_session, set_deadline,
  redis_call, send_envelope, send_to,
}

-- From a registry with `P` the action ends in one with `P`, whether it returns or raises.
pub record Keeps {State A : Type 0} (P : SessionRegistry → Type 0) (action : Action State A)
    : Type 0 where
  pub at : (m : Machine State) → P m.world.registry → P (action m).1.world.registry

module _ {State A : Type 0} {P : SessionRegistry → Type 0} where
  pub Keeps-done : (a : A) → Keeps P (done {S = Machine State} a)
  unfolding done
  Keeps-done a = record { at = λ m h. h }

  pub Keeps-raise : (e : Raised) → Keeps P (raise {S = Machine State} {A = A} e)
  unfolding raise
  Keeps-raise e = record { at = λ m h. h }

  pub Keeps-gets : (f : Machine State → A) → Keeps P (gets f)
  unfolding gets
  Keeps-gets f = record { at = λ m h. h }

  pub Keeps-lift : (r : Result A) → Keeps P (lift {S = Machine State} r)
  unfolding lift
  Keeps-lift r = record { at = λ m h. h }

  pub Keeps-if :
      (b : Bool) (a c : Action State A) → Keeps P a → Keeps P c → Keeps P (if b then a else c)
  Keeps-if true a c ka kc = ka
  Keeps-if false a c ka kc = kc

  Keeps-recover :
      (handler : Raised → Action State A) (r : Result A) (m : Machine State)
      → ((e : Raised) → Keeps P (handler e))
      → P m.world.registry
      → P (recover handler (r, m)).1.world.registry
  Keeps-recover handler (ok a) m k h = h
  Keeps-recover handler (raised e) m k h = (k e).at m h

  pub Keeps-try :
      (a : Action State A) (handler : Raised → Action State A)
      → Keeps P a
      → ((e : Raised) → Keeps P (handler e))
      → Keeps P (try_except a handler)
  unfolding try_except
  Keeps-try a handler ka kh = record {
    at = λ m h. Keeps-recover handler (a m).0 (a m).1 kh (ka.at m h);
  }

module _ {State A B : Type 0} {P : SessionRegistry → Type 0} where
  Keeps-resume :
      (f : A → Action State B) (r : Result A) (m : Machine State)
      → ((a : A) → Keeps P (f a))
      → P m.world.registry
      → P (resume f (r, m)).1.world.registry
  Keeps-resume f (ok a) m k h = (k a).at m h
  Keeps-resume f (raised e) m k h = h

  pub Keeps-bind :
      (a : Action State A) (f : A → Action State B)
      → Keeps P a
      → ((x : A) → Keeps P (f x))
      → Keeps P (a >>= f)
  unfolding ◌>>=◌
  Keeps-bind a f ka kf = record { at = λ m h. Keeps-resume f (a m).0 (a m).1 kf (ka.at m h) }

module _ {State : Type 0} {P : SessionRegistry → Type 0} where
  pub Keeps-bind_session :
      (session_id : Option _) → Keeps P (bind_session {State = State} session_id)
  unfolding bind_session
  Keeps-bind_session session_id = record { at = λ m h. h }

  pub Keeps-set_deadline : (ms : _) → Keeps P (set_deadline {State = State} ms)
  unfolding set_deadline
  Keeps-set_deadline ms = record { at = λ m h. h }

  pub Keeps-change_registry :
      (f : SessionRegistry → SessionRegistry)
      → ((r : SessionRegistry) → P r → P (f r))
      → Keeps P (change_registry {State = State} f)
  unfolding change_registry
  Keeps-change_registry f k = record { at = λ m h. k m.world.registry h }

  pub Keeps-on_registry :
      {A : Type 0} (f : Exec SessionRegistry A)
      → ((r : SessionRegistry) → P r → P (f r).1)
      → Keeps P (on_registry {State = State} f)
  unfolding on_registry
  Keeps-on_registry f k = record { at = λ m h. k m.world.registry h }

pub if_both :
    {A : Type 0} (Q : A → Type 0) (b : Bool) (x y : A) → Q x → Q y → Q (if b then x else y)
if_both Q true x y qx qy = qx
if_both Q false x y qx qy = qy

-- What is assumed of the other connections: at an await they keep `P`.
abbrev pub Relies : {State : Type 0} → System State → (SessionRegistry → Type 0) → Type 0
Relies {State} sys P = (w : World State) → P w.registry → P (sys.interfere w).registry

module _ {State : Type 0} {P : SessionRegistry → Type 0} (sys : System State)
    (rely : Relies sys P) where
  pub Keeps-redis_call :
      {A : Type 0} (command : State → A × State) → Keeps P (redis_call sys command)
  unfolding redis_call
  Keeps-redis_call {A} command = record {
    at = λ m h.
        if_both (λ (r : Result A × Machine State). P r.1.world.registry)
          (sys.interfere m.world).redis_up _ _ (rely _ (rely _ h)) (rely _ h);
  }

  pub Keeps-send_envelope :
      (ws : WebSocket) (envelope : Envelope) → Keeps P (send_envelope sys ws envelope)
  unfolding send_envelope
  Keeps-send_envelope ws envelope = record {
    at = λ m h.
        if_both (λ (r : Result (Unit {0}) × Machine State). P r.1.world.registry)
          (m.world.connected ws) _ _ (rely _ h) h;
  }

  pub Keeps-send_to :
      (ws : Option WebSocket) (envelope : Envelope) → Keeps P (send_to sys ws envelope)
  unfolding send_to
  Keeps-send_to none envelope = record { at = λ m h. h }
  Keeps-send_to (some ws) envelope = Keeps-send_envelope ws envelope

-- What the methods of the registry have to keep, for all the actions to keep it: a change of phase to
-- `established` is left out.
pub record IsKept (P : SessionRegistry → Type 0) : Type 0 where
  pub attach_keeps :
      (r : SessionRegistry) (s : String) (ρ : Role) (ws : WebSocket) → P r → P (attach s ρ ws r).1
  pub detach_keeps : (r : SessionRegistry) (s : String) (ρ : Role) → P r → P (detach s ρ r)
  pub remove_keeps : (r : SessionRegistry) (s : String) → P r → P (remove s r)
  pub pairing_keeps : (r : SessionRegistry) (s : String) → P r → P (set_phase s pairing r)
  pub waiting_keeps : (r : SessionRegistry) (s : String) → P r → P (set_phase s waiting_resume r)
  pub resuming_keeps : (r : SessionRegistry) (s : String) → P r → P (set_phase s resuming r)
  pub register_keeps : (r : SessionRegistry) (d s : String) → P r → P (register_device d s r).1

pub ruleset keeps_rules = (
  Keeps-done, Keeps-raise, Keeps-gets, Keeps-lift, Keeps-if, Keeps-try, Keeps-bind,
  Keeps-bind_session, Keeps-set_deadline, Keeps-change_registry, Keeps-on_registry,
)
