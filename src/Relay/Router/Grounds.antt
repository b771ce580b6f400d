-- ===== src/Relay/Router/Grounds.antt =====
-- The grounds on which the relay takes a session for authenticated.
use termhop.Base.{
  [], ◌∷◌, member, if◌then◌else◌, String, ◌≡◌, refl, Bool, true, false, not, Option, none, some,
  arith, opt_eq, eq_iff,
}
use termhop.Relay.Registry.{WebSocket, Role, agent, client, SessionRegistry, get_peer}
use termhop.Relay.Envelope.{Envelope}
use termhop.Relay.System.{ConnectionContext}
use termhop.Relay.Router.Checks.{field_or_none, valid_base64_size}
use termhop.Relay.Router.Replies.{is_agent, bound_to}

-- The message comes from the agent's connection, which is bound to the session, and names it; it
-- carries a proof of 32 bytes; and a client is attached to the session.
pub record Completes (r : SessionRegistry) (ctx : ConnectionContext) (envelope : Envelope)
    (session_id : String) : Type 0 where
  pub from_agent : ctx.role ≡ agent
  pub bound : ctx.session_id ≡ some session_id
  pub named : envelope.session_id ≡ some session_id
  pub proven : valid_base64_size (field_or_none envelope.payload "agent_proof") 32 ≡ true
  pub peer : WebSocket
  pub attached : get_peer r session_id agent ≡ some peer

-- The two messages that may complete a handshake.
abbrev pub is_completion : String → Bool
is_completion type = member type ("pair_complete" ∷ "resume_complete" ∷ [])

pub opt_eq-some : (o : Option String) (s : String) → not (opt_eq o (some s)) ≡ false → o ≡ some s
opt_eq-some none s h = cc
opt_eq-some (some t) s h = ground (arith, eq_iff t s)

role_of : (ρ : Role) → not (is_agent ρ) ≡ false → ρ ≡ agent
role_of agent h = refl
role_of client h = cc

pub completes :
    {r : SessionRegistry} {ctx : ConnectionContext} {envelope : Envelope} {session_id : String}
    {peer : WebSocket}
    → not (is_agent ctx.role) ≡ false
    → ctx.session_id ≡ some session_id
    → not (opt_eq envelope.session_id (some session_id)) ≡ false
    → not (valid_base64_size (field_or_none envelope.payload "agent_proof") 32) ≡ false
    → get_peer r session_id ctx.role ≡ some peer
    → Completes r ctx envelope session_id
completes {r} {ctx} {envelope} {session_id} {peer} role bound named proven attached = record {
  from_agent = role_of ctx.role role;
  bound = bound;
  named = opt_eq-some envelope.session_id session_id named;
  proven = ground arith;
  peer = peer;
  attached = rw (role_of ctx.role role) at attached;
}

named_some :
    (o : Option String) (t s : String)
    → (if opt_eq o (some t) then some t else none) ≡ some s
    → (some t ≡ some s) × (o ≡ some s)
named_some none t s h = cc
named_some (some u) t s h = ground (arith, eq_iff u t)

bound_to-some :
    (o : Option String) (envelope : Envelope) (s : String)
    → bound_to o envelope ≡ some s
    → (o ≡ some s) × (envelope.session_id ≡ some s)
bound_to-some none envelope s h = cc
bound_to-some (some t) envelope s h = named_some envelope.session_id t s h

pub resume-Completes :
    {r : SessionRegistry} {ctx : ConnectionContext} {envelope : Envelope} {session_id : String}
    {peer : WebSocket}
    → not (is_agent ctx.role) ≡ false
    → bound_to ctx.session_id envelope ≡ some session_id
    → not (valid_base64_size (field_or_none envelope.payload "agent_proof") 32) ≡ false
    → get_peer r session_id agent ≡ some peer
    → Completes r ctx envelope session_id
resume-Completes {r} {ctx} {envelope} {session_id} {peer} role bound proven attached =
    let b = bound_to-some ctx.session_id envelope session_id bound in
    record {
      from_agent = role_of ctx.role role;
      bound = b.0;
      named = b.1;
      proven = ground arith;
      peer = peer;
      attached = attached;
    }
