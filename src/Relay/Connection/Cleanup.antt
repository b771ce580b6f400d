-- ===== src/Relay/Connection/Cleanup.antt =====
-- What a connection leaves behind when it ends.
use termhop.Base.{
  String, eq_iff, eq_refl, ◌≡◌, refl, ◌∙◌, subst, sym, Bool, true, false, Option, none, some, List,
  [], ◌∷◌, arith, Bool-cases, inl, inr, leb,
}
use termhop.Relay.Errors.{relay}
use termhop.Relay.Exec.{Result, ok, raised, done, resume, try_except, ◌>>=◌}
use termhop.Relay.Registry.{
  WebSocket, Role, SessionRegistry, remove, detach, session_for_device, get_peer,
}
use termhop.Relay.Registry.Laws.{IsRegistry, detach-IsRegistry, remove-IsRegistry}
use termhop.Relay.Registry.Routes.{route, forget}
use termhop.Relay.Registry.Routes.Methods.{route-remove, homes-remove}
use termhop.Relay.Envelope.{Envelope}
use termhop.Relay.System.{System, Machine, change_registry, send_envelope, yield, write_registry}
use termhop.Relay.Pairing.Keeps.{delete_session_record-Keeps}
use termhop.Relay.Keeps.{if_both, Keeps, Keeps-try, Keeps-done, Relies, Keeps-send_envelope}
use termhop.Relay.Router.Traffic.{teardown_session}
use termhop.Relay.Router.Dispatch.{dispatch}
use termhop.Relay.Router.Phases.{dispatch-IsRegistry}
use termhop.Relay.Connection.{
  Arrival, sends, leaves, Round, goes_on, stops, fails, Served, default_deadline, wait_timeout,
  times_out, dispatched, check_sequence, parsed, arrived, round, next_round, serve, set_last_seq,
  tell_peer, is_connected, close_session, handle_disconnect, run_connection,
}

-- No connection is routed to the session, and no device.
pub record IsGone (s : String) (r : SessionRegistry) : Type 0 where
  pub no_socket : (ρ : Role) → route r s ρ ≡ none
  pub no_device : (d : String) → session_for_device r d ≡ some s → ⊥

forget-not : (s : String) (home : Option String) → forget s home ≡ some s → ⊥
forget-not s none h = cc
forget-not s (some home) h = ground (arith, eq_iff home s)

remove-IsGone : (r : SessionRegistry) (s : String) → IsRegistry r → IsGone s (remove s r)
remove-IsGone r s v = record {
  no_socket = λ ρ. route-remove r s s ρ ∙ rw (eq_refl s) refl;
  no_device =
      λ d h. forget-not s (session_for_device r d) (rw⁻¹ (homes-remove r s d v.devices_Unique) h);
}

-- The registry is well-formed, and the session is gone from it.
abbrev pub IsClean : String → SessionRegistry → Type 0
IsClean s r = IsRegistry r × IsGone s r

module _ {State : Type 0} (sys : System State) (rely : Relies sys IsRegistry) where
  abbrev machine_of : Round State → Machine State
  machine_of (goes_on envelope m) = m
  machine_of (stops ending m) = m
  machine_of (fails envelope e m) = m

  dispatched-machine :
      (envelope : Envelope) (r : Result (Unit {0}) × Machine State)
      → machine_of (dispatched sys envelope r) ≡ r.1
  unfolding dispatched
  dispatched-machine envelope (ok _, m) = refl
  dispatched-machine envelope (raised e, m) = refl

  check_sequence-IsRegistry :
      (envelope : Envelope) (m : Machine State)
      → IsRegistry m.world.registry
      → IsRegistry (machine_of (check_sequence sys envelope m)).world.registry
  unfolding check_sequence set_last_seq
  check_sequence-IsRegistry envelope m v =
      if_both (λ r. IsRegistry (machine_of r).world.registry) (leb envelope.seq m.ctx.last_seq) _ _
        v
        (rw (dispatched-machine envelope (dispatch sys envelope (set_last_seq envelope.seq m)))
          (dispatch-IsRegistry sys envelope (set_last_seq envelope.seq m) rely v))

  parsed-IsRegistry :
      (r : Result Envelope) (m : Machine State)
      → IsRegistry m.world.registry
      → IsRegistry (machine_of (parsed sys r m)).world.registry
  unfolding parsed
  parsed-IsRegistry (ok envelope) m v = check_sequence-IsRegistry envelope m v
  parsed-IsRegistry (raised (relay e)) m v = v
  parsed-IsRegistry (raised e) m v = v

  arrived-IsRegistry :
      (a : Arrival) (m : Machine State)
      → IsRegistry m.world.registry
      → IsRegistry (machine_of (arrived sys a m)).world.registry
  unfolding arrived
  arrived-IsRegistry (sends ms raw) m v = parsed-IsRegistry _ m v
  arrived-IsRegistry (leaves ms) m v = v

  round-IsRegistry :
      (a : Arrival) (m : Machine State)
      → IsRegistry m.world.registry
      → IsRegistry (machine_of (round sys a m)).world.registry
  unfolding round
  round-IsRegistry a m v =
      if_both (λ r. IsRegistry (machine_of r).world.registry)
        (times_out (wait_timeout (default_deadline m)) a) _ _ (rely _ v)
        (arrived-IsRegistry a _ (rely _ v))

  next_round-IsRegistry :
      (loop : Machine State → Served State) (r : Round State)
      → IsRegistry (machine_of r).world.registry
      → ((m : Machine State)
          → IsRegistry m.world.registry
          → IsRegistry (loop m).after.world.registry)
      → IsRegistry (next_round sys loop r).after.world.registry
  unfolding next_round
  next_round-IsRegistry loop (goes_on envelope m) v keep = keep m v
  next_round-IsRegistry loop (stops ending m) v keep = v
  next_round-IsRegistry loop (fails envelope e m) v keep = v

  serve-IsRegistry :
      (arrivals : List Arrival) (m : Machine State)
      → IsRegistry m.world.registry
      → IsRegistry (serve sys arrivals m).after.world.registry
  unfolding serve
  serve-IsRegistry [] m v = v
  serve-IsRegistry (a ∷ arrivals) m v =
      next_round-IsRegistry (serve sys arrivals) (round sys a m) (round-IsRegistry a m v)
        (serve-IsRegistry arrivals)

  tell_peer-ok :
      (s : String) (peer : Option WebSocket) (up : Bool) (m : Machine State)
      → (tell_peer sys s peer up m).0 ≡ ok tt
  unfolding tell_peer send_envelope done try_except
  tell_peer-ok s (some ws) true m = elim (Bool-cases (m.world.connected ws)) [
    | inl up ↦ rw (up, tell_peer) refl
    | inr down ↦ rw (down, tell_peer) refl
  ]
  tell_peer-ok s (some ws) false m = refl
  tell_peer-ok s none up m = refl

  tell_peer-Keeps :
      (s : String) (peer : Option WebSocket) (up : Bool)
      → Keeps IsRegistry (tell_peer sys s peer up)
  unfolding tell_peer
  tell_peer-Keeps s (some ws) true =
      Keeps-try _ _ (Keeps-send_envelope sys rely ws _) (λ e. Keeps-done tt)
  tell_peer-Keeps s (some ws) false = Keeps-done tt
  tell_peer-Keeps s none up = Keeps-done tt

  module _ (s : String) (rely_gone : Relies sys (IsGone s)) where
    teardown-IsClean :
        (m : Machine State)
        → IsRegistry m.world.registry
        → IsClean s (teardown_session sys s m).1.world.registry
    unfolding teardown_session ◌>>=◌ change_registry
    teardown-IsClean m v =
        (delete_session_record-Keeps {P = IsClean s} sys (λ w h. (rely w h.0, rely_gone w h.1))
            s).at
          (write_registry (remove s m.world.registry) m)
          (remove-IsRegistry m.world.registry v s, remove-IsGone m.world.registry s v)

    resumed-IsClean :
        (r : Result (Unit {0}) × Machine State)
        → r.0 ≡ ok tt
        → IsRegistry r.1.world.registry
        → IsClean s (resume (λ _. teardown_session sys s) r).1.world.registry
    resumed-IsClean (ok _, m) e v = teardown-IsClean m v
    resumed-IsClean (raised x, m) e v = cc

    close_session-IsClean :
        (m : Machine State)
        → IsRegistry m.world.registry
        → IsClean s (close_session sys m.ctx (some s) m).1.world.registry
    unfolding close_session ◌>>=◌ change_registry
    close_session-IsClean m v =
        let peer = get_peer m.world.registry s m.ctx.role in
        let detached = write_registry (detach s m.ctx.role m.world.registry) m in
        let up = is_connected sys peer detached in
        resumed-IsClean (tell_peer sys s peer up detached) (tell_peer-ok s peer up detached) (
          (tell_peer-Keeps s peer up).at detached
            (detach-IsRegistry m.world.registry v s m.ctx.role))

    -- When a connection that is bound to a session ends, however its loop ended, its `finally` leaves a
    -- well-formed registry in which no connection and no device is routed to the session, even if the
    -- peer cannot be told and Redis cannot be reached; provided that other connections keep the registry
    -- well-formed, and do not open the session again, at the awaits.
    pub run_connection-cleans :
        (arrivals : List Arrival) (m : Machine State)
        → IsRegistry m.world.registry
        → (serve sys arrivals (yield sys m)).after.ctx.session_id ≡ some s
        → IsClean s (run_connection sys arrivals m).world.registry
    unfolding run_connection handle_disconnect
    run_connection-cleans arrivals m v bound =
        let last = (serve sys arrivals (yield sys m)).after in
        subst (λ b. IsClean s (close_session sys last.ctx b last).1.world.registry) (sym bound)
          (close_session-IsClean last (serve-IsRegistry arrivals (yield sys m) (rely m.world v)))
