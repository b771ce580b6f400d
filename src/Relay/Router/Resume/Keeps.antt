-- ===== src/Relay/Router/Resume/Keeps.antt =====
-- The resume handlers keep what the registry's methods keep, whatever they answer and wherever they
-- raise; `handle_resume_complete` needs the step to `established` besides.
use termhop.Base.{not, inl, inr, Option-cases, String, Option, none, some, ◌≡◌, refl}
use termhop.Relay.Exec.{◌>>=◌}
use termhop.Relay.Registry.{SessionRegistry, WebSocket, agent, get_peer, established, set_phase}
use termhop.Relay.Envelope.{Envelope}
use termhop.Relay.System.{System, Machine, ConnectionContext, change_registry, write_registry}
use termhop.Relay.Router.Checks.{field_or_none, valid_base64_size}
use termhop.Relay.Router.Replies.{is_agent, bound_to}
use termhop.Relay.Router.Grounds.{Completes, resume-Completes}
use termhop.Relay.RateLimit.Keeps.{check_ip-Keeps, check_token-Keeps}
use termhop.Relay.Router.Replies.Keeps.{Keeps-on_value_error, Keeps-send_error, refuse_or}
use termhop.Relay.Router.Resume.{
  reserve_device, start_waiting, resume_init, handle_resume_init, join_device, ask_agent,
  find_device, resume_request, handle_resume_request, resume_proof, handle_resume_proof,
  resume_challenge, handle_resume_challenge, resume_complete, handle_resume_complete,
}
use termhop.Relay.Keeps.{Keeps, keeps_rules, Relies, IsKept, Keeps-send_envelope, Keeps-send_to}

module _ {State : Type 0} {P : SessionRegistry → Type 0} (sys : System State) (rely : Relies sys P)
    (kept : IsKept P) where
  reserve_device-Keeps :
      (ctx : ConnectionContext) (session_id device_id : String)
      → Keeps P (reserve_device sys ctx session_id device_id)
  unfolding reserve_device
  reserve_device-Keeps ctx session_id device_id =
      search
        (
          keeps_rules,
          Keeps-on_value_error,
          Keeps-send_error sys rely,
          kept.attach_keeps,
          kept.detach_keeps,
          kept.waiting_keeps,
          kept.register_keeps,
        )
        depth 10

  start_waiting-Keeps :
      (ctx : ConnectionContext) (envelope : Envelope) (session_id device_id : String)
      → Keeps P (start_waiting sys ctx envelope session_id device_id)
  unfolding start_waiting
  start_waiting-Keeps ctx envelope session_id device_id =
      search (keeps_rules, reserve_device-Keeps, Keeps-send_envelope sys rely) depth 10

  resume_init-Keeps :
      (ctx : ConnectionContext) (envelope : Envelope) → Keeps P (resume_init sys ctx envelope)
  unfolding resume_init
  resume_init-Keeps ctx envelope =
      search (keeps_rules, start_waiting-Keeps, Keeps-send_error sys rely) depth 10

  pub handle_resume_init-Keeps : (envelope : Envelope) → Keeps P (handle_resume_init sys envelope)
  unfolding handle_resume_init
  handle_resume_init-Keeps envelope = record {
    at = λ m h. (resume_init-Keeps m.ctx envelope).at m h;
  }

  join_device-Keeps :
      (ctx : ConnectionContext) (session_id : String) → Keeps P (join_device sys ctx session_id)
  unfolding join_device
  join_device-Keeps ctx session_id =
      search (keeps_rules, Keeps-on_value_error, Keeps-send_error sys rely, kept.attach_keeps) depth
        8

  ask_agent-Keeps :
      (ctx : ConnectionContext) (envelope : Envelope) (session_id : Option String)
      (agent_ws : Option WebSocket)
      → Keeps P (ask_agent sys ctx envelope session_id agent_ws)
  unfolding ask_agent
  ask_agent-Keeps ctx envelope (some session_id) (some agent_ws) =
      search (keeps_rules, join_device-Keeps, Keeps-send_envelope sys rely, kept.resuming_keeps)
        depth 12
  ask_agent-Keeps ctx envelope _ _ = Keeps-send_error sys rely _ _

  find_device-Keeps :
      (ctx : ConnectionContext) (envelope : Envelope) (device_id : String)
      → Keeps P (find_device sys ctx envelope device_id)
  unfolding find_device
  find_device-Keeps ctx envelope device_id =
      search (keeps_rules, check_ip-Keeps sys rely, check_token-Keeps sys rely, ask_agent-Keeps)
        depth 12

  resume_request-Keeps :
      (ctx : ConnectionContext) (envelope : Envelope) → Keeps P (resume_request sys ctx envelope)
  unfolding resume_request
  resume_request-Keeps ctx envelope =
      search (keeps_rules, find_device-Keeps, Keeps-send_error sys rely) depth 10

  pub handle_resume_request-Keeps :
      (envelope : Envelope) → Keeps P (handle_resume_request sys envelope)
  unfolding handle_resume_request
  handle_resume_request-Keeps envelope = record {
    at = λ m h. (resume_request-Keeps m.ctx envelope).at m h;
  }

  resume_proof-Keeps :
      (ctx : ConnectionContext) (envelope : Envelope) (bound : Option String)
      → Keeps P (resume_proof sys ctx envelope bound)
  unfolding resume_proof
  resume_proof-Keeps ctx envelope none = Keeps-send_error sys rely _ _
  resume_proof-Keeps ctx envelope (some session_id) =
      search (keeps_rules, Keeps-send_to sys rely, Keeps-send_error sys rely) depth 10

  pub handle_resume_proof-Keeps : (envelope : Envelope) → Keeps P (handle_resume_proof sys envelope)
  unfolding handle_resume_proof
  handle_resume_proof-Keeps envelope = record {
    at = λ m h. (resume_proof-Keeps m.ctx envelope (bound_to m.ctx.session_id envelope)).at m h;
  }

  resume_challenge-Keeps :
      (ctx : ConnectionContext) (envelope : Envelope) (bound : Option String)
      → Keeps P (resume_challenge sys ctx envelope bound)
  unfolding resume_challenge
  resume_challenge-Keeps ctx envelope none = Keeps-send_error sys rely _ _
  resume_challenge-Keeps ctx envelope (some session_id) =
      search (keeps_rules, Keeps-send_to sys rely, Keeps-send_error sys rely) depth 10

  pub handle_resume_challenge-Keeps :
      (envelope : Envelope) → Keeps P (handle_resume_challenge sys envelope)
  unfolding handle_resume_challenge
  handle_resume_challenge-Keeps envelope = record {
    at = λ m h. (resume_challenge-Keeps m.ctx envelope (bound_to m.ctx.session_id envelope)).at m h;
  }

  resume_complete_at :
      (envelope : Envelope) (bound : Option String) (m : Machine State)
      → bound_to m.ctx.session_id envelope ≡ bound
      → P m.world.registry
      → ((session_id : String)
          → Completes m.world.registry m.ctx envelope session_id
          → P (set_phase session_id established m.world.registry))
      → P (resume_complete sys m.ctx envelope bound m).1.world.registry
  unfolding resume_complete ◌>>=◌ change_registry
  resume_complete_at envelope none m e h allowed = (Keeps-send_error sys rely _ _).at m h
  resume_complete_at envelope (some session_id) m e h allowed =
      let proof = field_or_none envelope.payload "agent_proof" in
      refuse_or P sys rely (not (is_agent m.ctx.role)) _ _ _ m h λ role.
        refuse_or P sys rely (not (valid_base64_size proof 32)) _ _ _ m h λ proven.
          elim (Option-cases (get_peer m.world.registry session_id agent)) [
            | inl e' ↦ rw (e', resume_complete) ((Keeps-send_error sys rely _ _).at m h)
            | inr (peer, e') ↦
                rw (e', resume_complete)
                  ((Keeps-send_to sys rely (some peer) envelope).at
                    (write_registry (set_phase session_id established m.world.registry) m)
                    (allowed session_id (resume-Completes role e proven e')))
          ]

  -- Where the handler may set the phase, the invariant has to hold after that too.
  pub handle_resume_complete_at :
      (envelope : Envelope) (m : Machine State)
      → P m.world.registry
      → ((session_id : String)
          → Completes m.world.registry m.ctx envelope session_id
          → P (set_phase session_id established m.world.registry))
      → P (handle_resume_complete sys envelope m).1.world.registry
  unfolding handle_resume_complete
  handle_resume_complete_at envelope m h allowed =
      resume_complete_at envelope (bound_to m.ctx.session_id envelope) m refl h allowed
