-- ===== src/Relay/Router/Pair/Keeps.antt =====
-- The pairing handlers keep what the registry's methods keep, whatever they answer and wherever they
-- raise; `handle_pair_complete` needs the step to `established` besides.
use termhop.Base.{not, opt_eq, String, Option, none, some, ◌≡◌, refl, inl, inr, Option-cases}
use termhop.Dict.{Dict, get}
use termhop.Json.{Value, truthy}
use termhop.Relay.Router.Checks.{field_or_none, valid_base64_size}
use termhop.Relay.Router.Replies.{is_agent}
use termhop.Relay.Errors.{Raised}
use termhop.Relay.Exec.{◌>>=◌}
use termhop.Relay.Registry.{SessionRegistry, WebSocket, get_peer, established, set_phase}
use termhop.Relay.Envelope.{Envelope}
use termhop.Relay.System.{System, Machine, ConnectionContext, change_registry, write_registry}
use termhop.Relay.Pairing.Keeps.{
  issue_token-Keeps, consume_token-Keeps, delete_token-Keeps, create_session_record-Keeps,
  set_session_state-Keeps, mark_session_established-Keeps,
}
use termhop.Relay.RateLimit.Keeps.{check_ip-Keeps, check_token-Keeps}
use termhop.Relay.Router.Replies.Keeps.{Keeps-on_value_error, Keeps-send_error, refuse_or}
use termhop.Relay.Router.Pair.{
  required, reserve_session, register_pairing, release_session, start_pairing, pair_init,
  handle_pair_init, join_session, challenge, join_agent, redeem_token, pair_request,
  handle_pair_request, complete_pairing, pair_complete, handle_pair_complete,
}
use termhop.Relay.Router.Grounds.{Completes, completes}
use termhop.Relay.Keeps.{
  Keeps, Keeps-bind, keeps_rules, Relies, IsKept, Keeps-send_envelope, Keeps-send_to, Keeps-raise,
  Keeps-done,
}

module _ {State : Type 0} {P : SessionRegistry → Type 0} (sys : System State) (rely : Relies sys P)
    (kept : IsKept P) where
  reserve_session-Keeps :
      (ctx : ConnectionContext) (session_id : String) → Keeps P (reserve_session sys ctx session_id)
  unfolding reserve_session
  reserve_session-Keeps ctx session_id =
      search
        (
          keeps_rules,
          Keeps-on_value_error,
          Keeps-send_error sys rely,
          kept.attach_keeps,
          kept.pairing_keeps,
        )
        depth 8

  register_pairing-Keeps :
      (ctx : ConnectionContext) (token : Value) (key session_id hostname : String)
      → Keeps P (register_pairing sys ctx token key session_id hostname)
  unfolding register_pairing
  register_pairing-Keeps ctx token key session_id hostname =
      search
        (
          keeps_rules,
          check_ip-Keeps sys rely,
          issue_token-Keeps sys rely,
          create_session_record-Keeps sys rely,
          delete_token-Keeps sys rely,
        )
        depth 9

  release_session-Keeps :
      (session_id : String) (e : Raised) → Keeps P (release_session sys session_id e)
  unfolding release_session
  release_session-Keeps session_id e = search (keeps_rules, kept.detach_keeps)

  start_pairing-Keeps :
      (ctx : ConnectionContext) (envelope : Envelope) (token : Value)
      (key session_id hostname : String)
      → Keeps P (start_pairing sys ctx envelope token key session_id hostname)
  unfolding start_pairing
  start_pairing-Keeps ctx envelope token key session_id hostname =
      search
        (
          keeps_rules,
          reserve_session-Keeps,
          register_pairing-Keeps,
          release_session-Keeps,
          Keeps-send_envelope sys rely,
        )
        depth 12

  pair_init-Keeps :
      (ctx : ConnectionContext) (envelope : Envelope) → Keeps P (pair_init sys ctx envelope)
  unfolding pair_init
  pair_init-Keeps ctx envelope =
      search (keeps_rules, start_pairing-Keeps, Keeps-send_error sys rely) depth 12

  pub handle_pair_init-Keeps : (envelope : Envelope) → Keeps P (handle_pair_init sys envelope)
  unfolding handle_pair_init
  handle_pair_init-Keeps envelope = record { at = λ m h. (pair_init-Keeps m.ctx envelope).at m h }

  required-Keeps :
      (fields : Dict String) (key : String) → Keeps P (required {State = State} fields key)
  unfolding required
  required-Keeps fields key = elim (Option-cases (get fields key)) [
    | inl e ↦ rw (e, required) (Keeps-raise _)
    | inr (value, e) ↦ rw (e, required) (Keeps-done value)
  ]

  join_session-Keeps :
      (ctx : ConnectionContext) (session_id : String) → Keeps P (join_session sys ctx session_id)
  unfolding join_session
  join_session-Keeps ctx session_id =
      search (keeps_rules, Keeps-on_value_error, Keeps-send_error sys rely, kept.attach_keeps) depth
        8

  challenge-Keeps :
      (ctx : ConnectionContext) (envelope : Envelope) (session_id key hostname : String)
      → Keeps P (challenge sys ctx envelope session_id key hostname)
  unfolding challenge
  challenge-Keeps ctx envelope session_id key hostname =
      search
        (
          keeps_rules,
          set_session_state-Keeps sys rely,
          Keeps-send_envelope sys rely,
          Keeps-send_to sys rely,
        )
        depth 12

  join_agent-Keeps :
      (ctx : ConnectionContext) (envelope : Envelope) (fields : Dict String)
      → Keeps P (join_agent sys ctx envelope fields)
  unfolding join_agent
  join_agent-Keeps ctx envelope fields =
      search
        (
          keeps_rules,
          required-Keeps,
          join_session-Keeps,
          challenge-Keeps,
          Keeps-send_error sys rely,
        )
        depth 12

  redeem_token-Keeps :
      (ctx : ConnectionContext) (envelope : Envelope) → Keeps P (redeem_token sys ctx envelope)
  unfolding redeem_token
  redeem_token-Keeps ctx envelope =
      search
        (
          keeps_rules,
          check_ip-Keeps sys rely,
          check_token-Keeps sys rely,
          consume_token-Keeps sys rely,
          join_agent-Keeps,
        )
        depth 12

  pair_request-Keeps :
      (ctx : ConnectionContext) (envelope : Envelope) → Keeps P (pair_request sys ctx envelope)
  unfolding pair_request
  pair_request-Keeps ctx envelope =
      search (keeps_rules, redeem_token-Keeps, Keeps-send_error sys rely) depth 12

  pub handle_pair_request-Keeps : (envelope : Envelope) → Keeps P (handle_pair_request sys envelope)
  unfolding handle_pair_request
  handle_pair_request-Keeps envelope = record {
    at = λ m h. (pair_request-Keeps m.ctx envelope).at m h;
  }

  -- The step to `established`, with the grounds on which it is made.
  complete_pairing_at :
      (envelope : Envelope) (session_id : String) (m : Machine State)
      → P m.world.registry
      → ((peer : WebSocket)
          → get_peer m.world.registry session_id m.ctx.role ≡ some peer
          → P (set_phase session_id established m.world.registry))
      → P (complete_pairing sys m.ctx envelope session_id m).1.world.registry
  unfolding complete_pairing ◌>>=◌ change_registry
  complete_pairing_at envelope session_id m h allowed =
      elim (Option-cases (get_peer m.world.registry session_id m.ctx.role)) [
        | inl e ↦ rw (e, complete_pairing) ((Keeps-send_error sys rely _ _).at m h)
        | inr (peer, e) ↦
            rw (e, complete_pairing)
              ((Keeps-bind _ _ (Keeps-send_to sys rely (some peer) envelope)
                  (λ _. mark_session_established-Keeps sys rely session_id)).at
                (write_registry (set_phase session_id established m.world.registry) m)
                (allowed peer e))
      ]

  pair_complete_at :
      (envelope : Envelope) (bound : Option String) (m : Machine State)
      → m.ctx.session_id ≡ bound
      → P m.world.registry
      → ((session_id : String)
          → Completes m.world.registry m.ctx envelope session_id
          → P (set_phase session_id established m.world.registry))
      → P (pair_complete sys m.ctx envelope bound m).1.world.registry
  unfolding pair_complete
  pair_complete_at envelope none m e h allowed = (Keeps-send_error sys rely _ _).at m h
  pair_complete_at envelope (some session_id) m e h allowed =
      let proof = field_or_none envelope.payload "agent_proof" in
      refuse_or P sys rely (not (is_agent m.ctx.role)) _ _ _ m h λ role.
        refuse_or P sys rely (not (opt_eq envelope.session_id (some session_id))) _ _ _ m h λ named.
          refuse_or P sys rely (not (truthy proof)) _ _ _ m h λ _.
            refuse_or P sys rely (not (valid_base64_size proof 32)) _ _ _ m h λ proven.
              complete_pairing_at envelope session_id m h
                λ peer attached. allowed session_id (completes role e named proven attached)

  -- Where the handler may set the phase, the invariant has to hold after that too.
  pub handle_pair_complete_at :
      (envelope : Envelope) (m : Machine State)
      → P m.world.registry
      → ((session_id : String)
          → Completes m.world.registry m.ctx envelope session_id
          → P (set_phase session_id established m.world.registry))
      → P (handle_pair_complete sys envelope m).1.world.registry
  unfolding handle_pair_complete
  handle_pair_complete_at envelope m h allowed =
      pair_complete_at envelope m.ctx.session_id m refl h allowed
