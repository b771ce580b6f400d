-- ===== src/Relay/Router/Resume/Conflict.antt =====
-- What a refused `resume_init` does to the connection that it conflicts with.
use termhop.Base.{
  String, eq_refl, ◌≡◌, refl, sym, subst, Option, ◌∙◌, ap, true, false, none, some, inl, inr, arith,
  is_some, eqb, Bool-cases,
}
use termhop.Relay.Errors.{value_error}
use termhop.Relay.Exec.{raised, ◌>>=◌}
use termhop.Relay.Registry.{
  WebSocket, agent, SessionSlot, SessionRegistry, get_session, attach, detach, create,
  taken_by_other, slot_get,
}
use termhop.Relay.Registry.Routes.{route}
use termhop.Relay.Registry.Routes.Methods.{route-detach}
use termhop.Relay.Envelope.{Envelope}
use termhop.Relay.System.{
  System, World, Machine, ConnectionContext, on_registry, change_registry, send_envelope, with_sent,
}
use termhop.Relay.Router.Checks.{
  field_or_empty, text_of, valid_base64_size, valid_session_id, valid_device_id, valid_hostname,
}
use termhop.Relay.Router.Replies.{is_agent, send_error, envelope_of, error_payload}
use termhop.Relay.Router.Resume.{start_waiting, resume_init, handle_resume_init}

-- The message passes every test of the handler.
pub record IsResumeInit (envelope : Envelope) (session_id : String) : Type 0 where
  pub session_named : text_of (field_or_empty envelope.payload "session_id") ≡ session_id
  pub session_valid : valid_session_id (field_or_empty envelope.payload "session_id") ≡ true
  pub device_valid : valid_device_id (field_or_empty envelope.payload "device_id") ≡ true
  pub key_valid : valid_base64_size (field_or_empty envelope.payload "agent_pubkey") 32 ≡ true
  pub hostname_valid : valid_hostname (field_or_empty envelope.payload "agent_hostname") ≡ true

-- An attach that another connection blocks raises and changes nothing.
attach_taken :
    (r : SessionRegistry) (s : String) (ws : WebSocket) (slot : SessionSlot) (holder : WebSocket)
    → get_session r s ≡ some slot
    → slot.agent_ws ≡ some holder
    → eqb holder ws ≡ false
    → attach s agent ws r ≡ (raised value_error, r)
unfolding attach create taken_by_other get_session slot_get
attach_taken r s ws slot holder e held other = rw e (ground (arith, held, other))

-- The answer to a `resume_init` that conflicts with another connection
abbrev conflict_reply : Option String → Envelope
conflict_reply session_id =
    envelope_of "error" session_id 0 0
      (error_payload "session_conflict" "device or session is already connected")

module _ {State : Type 0} where
  -- The connection is bound to no session, it was told of the conflict, and the session has no agent.
  pub record IsEvicted (s : String) (m after : Machine State) : Type 0 where
    pub unbound : after.ctx.session_id ≡ none
    pub told : after.world.outbox ≡ with_sent m.world m.ctx.ws (conflict_reply none)
    pub no_agent : route after.world.registry s agent ≡ none

  -- The state after the refusal
  abbrev Detached : String → Machine State → Machine State → Type 0
  Detached s m after =
      (after.ctx ≡ m.ctx)
      × (after.world.outbox ≡ with_sent m.world m.ctx.ws (conflict_reply m.ctx.session_id))
      × (after.world.registry ≡ detach s agent m.world.registry)

module _ {State : Type 0} (sys : System State)
    (calm : (w : World State) → (sys.interfere w).registry ≡ w.registry)
    (still : (w : World State) → (sys.interfere w).outbox ≡ w.outbox) where
  module _ (m : Machine State) (envelope : Envelope) (s : String) (slot : SessionSlot)
      (holder : WebSocket) (there : get_session m.world.registry s ≡ some slot)
      (held : slot.agent_ws ≡ some holder) (other : eqb holder m.ctx.ws ≡ false) where
    start_waiting-Detached :
        (device_id : String) → Detached s m (start_waiting sys m.ctx envelope s device_id m).1
    unfolding start_waiting ◌>>=◌ on_registry change_registry send_error send_envelope
    start_waiting-Detached device_id = elim (Bool-cases (m.world.connected m.ctx.ws)) [
      | inl up ↦
          rw (attach_taken m.world.registry s m.ctx.ws slot holder there held other, up)
            (refl, still _, calm _)
      | inr down ↦
          rw (attach_taken m.world.registry s m.ctx.ws slot holder there held other, down)
            (refl, refl, refl)
    ]

  -- The tests of the handler, passed.
  resume_init-starts :
      (ctx : ConnectionContext) (envelope : Envelope) (s : String)
      → is_agent ctx.role ≡ true
      → is_some ctx.session_id ≡ false
      → IsResumeInit envelope s
      → resume_init sys ctx envelope
        ≡ start_waiting sys ctx envelope s (text_of (field_or_empty envelope.payload "device_id"))
  unfolding resume_init
  resume_init-starts ctx envelope s is unbound valid =
      rw
        (
          is, unbound, valid.session_valid, valid.device_valid, valid.key_valid,
          valid.hostname_valid, valid.session_named,
        )
        refl

  -- A `resume_init` that passes every test of its handler, from an unbound agent connection, for a
  -- session whose agent is another connection, is refused, and it takes that other connection out of
  -- the session: afterwards the connection that sent it is bound to no session, it was sent nothing but
  -- `session_conflict` (and that only if it is still connected), and the session has no agent. Other
  -- connections are taken to leave the registry alone, and to send nothing, at the awaits.
  pub resume_init-evicts :
      (m : Machine State) (envelope : Envelope) (s : String) (slot : SessionSlot)
      (holder : WebSocket)
      → m.ctx.role ≡ agent
      → m.ctx.session_id ≡ none
      → IsResumeInit envelope s
      → get_session m.world.registry s ≡ some slot
      → slot.agent_ws ≡ some holder
      → eqb holder m.ctx.ws ≡ false
      → IsEvicted s m (handle_resume_init sys envelope m).1
  unfolding handle_resume_init
  resume_init-evicts m envelope s slot holder is unbound valid there held other =
      let device_id = text_of (field_or_empty envelope.payload "device_id") in
      let refused = start_waiting-Detached m envelope s slot holder there held other device_id in
      subst (λ act. IsEvicted s m (act m).1)
        (sym (resume_init-starts m.ctx envelope s (ap is_agent is) (ap is_some unbound) valid))
        (record {
          unbound = ap (λ (c : ConnectionContext). c.session_id) refused.0 ∙ unbound;
          told =
              refused.1
              ∙ ap (λ session_id. with_sent m.world m.ctx.ws (conflict_reply session_id)) unbound;
          no_agent =
              ap (λ r. route r s agent) refused.2
              ∙ route-detach m.world.registry s s agent agent
              ∙ rw (eq_refl s) refl;
        })
