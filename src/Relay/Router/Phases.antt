-- ===== src/Relay/Router/Phases.antt =====
-- Two invariants of the registry that hold across any message: it stays well-formed, and a session is
-- established only on the grounds of `Completes`.
use termhop.Base.{
  false≢true, sym, subst, ◌∙◌, ◌⊎◌, String, ◌==◌, eq_iff, ◌≡◌, refl, Bool, true, false, Option,
  none, some, arith, if◌then◌else◌, get_or, inl, inr, Bool-cases, Option-cases,
}
use termhop.Dict.{get, get-put, get-pop}
use termhop.Relay.Registry.{
  SessionRegistry, SessionSlot, new_slot, Role, agent, client, WebSocket, SessionPhase, pairing,
  waiting_resume, resuming, established, get_session, attach, detach, remove, set_phase,
  register_device, slot_set,
}
use termhop.Relay.Registry.Laws.{
  IsRegistry, attach-IsRegistry, detach-IsRegistry, remove-IsRegistry, set_phase-IsRegistry,
  register_device-IsRegistry,
}
use termhop.Relay.Registry.Routes.Methods.{get-attach, get-detach}
use termhop.Relay.Envelope.{Envelope}
use termhop.Relay.System.{System, Machine}
use termhop.Relay.Router.Traffic.{is_established}
use termhop.Relay.Router.Grounds.{Completes, is_completion}
use termhop.Relay.Router.Dispatch.{dispatch}
use termhop.Relay.Router.Dispatch.Keeps.{dispatch_at}
use termhop.Relay.Keeps.{Relies, IsKept}

IsRegistry-kept : IsKept IsRegistry
IsRegistry-kept = record {
  attach_keeps = λ r s ρ ws v. attach-IsRegistry r v s ρ ws;
  detach_keeps = λ r s ρ v. detach-IsRegistry r v s ρ;
  remove_keeps = λ r s v. remove-IsRegistry r v s;
  pairing_keeps = λ r s v. set_phase-IsRegistry r v s pairing;
  waiting_keeps = λ r s v. set_phase-IsRegistry r v s waiting_resume;
  resuming_keeps = λ r s v. set_phase-IsRegistry r v s resuming;
  register_keeps = λ r d s v. register_device-IsRegistry r v s d;
}

-- Whatever message a connection sends, and however its handler ends, a well-formed registry (distinct
-- keys, no session without a connection) is well-formed after it, provided that the other connections
-- keep it well-formed at the awaits.
pub dispatch-IsRegistry :
    {State : Type 0} (sys : System State) (envelope : Envelope) (m : Machine State)
    → Relies sys IsRegistry
    → IsRegistry m.world.registry
    → IsRegistry (dispatch sys envelope m).1.world.registry
dispatch-IsRegistry sys envelope m rely v =
    dispatch_at sys rely IsRegistry-kept envelope m v
      λ _ s _. set_phase-IsRegistry m.world.registry v s established

-- The session is not authenticated.
abbrev pub IsPending : String → SessionRegistry → Type 0
IsPending s r = is_established (get r.sessions s) ≡ false

-- Whether a slot that is given the phase is authenticated.
abbrev with_phase : SessionPhase → Option SessionSlot → Bool
with_phase phase none = false
with_phase phase (some slot) = is_established (some (record slot { phase = phase }))

module _ (j : String) where
  slot_phase_set :
      (slot : SessionSlot) (ρ : Role) (o : Option WebSocket)
      → is_established (some (slot_set slot ρ o)) ≡ is_established (some slot)
  unfolding slot_set
  slot_phase_set slot agent o = refl
  slot_phase_set slot client o = refl

  attach-IsPending :
      (r : SessionRegistry) (s : String) (ρ : Role) (ws : WebSocket)
      → IsPending j r
      → IsPending j (attach s ρ ws r).1
  attach-IsPending r s ρ ws h =
      let slot = get_or new_slot (get r.sessions s) in
      ground (arith, get-attach r s j ρ ws, slot_phase_set slot ρ (some ws), eq_iff s j)

  detach-IsPending :
      (r : SessionRegistry) (s : String) (ρ : Role) → IsPending j r → IsPending j (detach s ρ r)
  detach-IsPending r s ρ h =
      let slot = get_or new_slot (get r.sessions s) in
      ground (arith, get-detach r s j ρ, slot_phase_set slot ρ none, eq_iff s j)

  remove-IsPending : (r : SessionRegistry) (s : String) → IsPending j r → IsPending j (remove s r)
  unfolding remove
  remove-IsPending r s h = ground (arith, get-pop r.sessions s j)

  get-set_phase :
      (r : SessionRegistry) (s : String) (phase : SessionPhase)
      → is_established (get (set_phase s phase r).sessions j) ≡ (
          if s == j then with_phase phase (get r.sessions s) else is_established (get r.sessions j))
  unfolding set_phase
  get-set_phase r s phase = elim (Option-cases (get r.sessions s)) [
    | inl e ↦ rw (e, set_phase) (ground (arith, e, eq_iff s j))
    | inr (slot, e) ↦
        rw (e, set_phase) (ground (arith, get-put r.sessions s j (record slot { phase = phase })))
  ]

  set_phase-IsPending :
      (r : SessionRegistry) (s : String) (phase : SessionPhase)
      → with_phase phase (get r.sessions s) ≡ false
      → IsPending j r
      → IsPending j (set_phase s phase r)
  set_phase-IsPending r s phase other h = ground (arith, get-set_phase r s phase)

  -- Another session than the one that is completed.
  set_phase-IsPending_ne :
      (r : SessionRegistry) (s : String) (phase : SessionPhase)
      → (s == j) ≡ false
      → IsPending j r
      → IsPending j (set_phase s phase r)
  set_phase-IsPending_ne r s phase other h = ground (arith, get-set_phase r s phase)

  no_phase :
      (phase : SessionPhase) (o : Option SessionSlot)
      → (phase ≡ established → ⊥)
      → with_phase phase o ≡ false
  no_phase pairing none f = refl
  no_phase pairing (some slot) f = refl
  no_phase waiting_resume none f = refl
  no_phase waiting_resume (some slot) f = refl
  no_phase resuming none f = refl
  no_phase resuming (some slot) f = refl
  no_phase established o f = absurd (f refl)

  register-IsPending :
      (r : SessionRegistry) (d s : String) → IsPending j r → IsPending j (register_device d s r).1
  unfolding register_device
  register-IsPending r d s h = ground arith

  IsPending-kept : IsKept (IsPending j)
  IsPending-kept = record {
    attach_keeps = attach-IsPending;
    detach_keeps = detach-IsPending;
    remove_keeps = remove-IsPending;
    pairing_keeps =
        λ r s h. set_phase-IsPending r s pairing (no_phase pairing (get r.sessions s) (λ e. cc)) h;
    waiting_keeps = λ r s h.
        set_phase-IsPending r s waiting_resume
          (no_phase waiting_resume (get r.sessions s) (λ e. cc)) h;
    resuming_keeps = λ r s h.
        set_phase-IsPending r s resuming (no_phase resuming (get r.sessions s) (λ e. cc)) h;
    register_keeps = register-IsPending;
  }

on_left : {A B G : Type 0} → (A → B) → A ⊎ G → B ⊎ G
on_left f (inl a) = inl (f a)
on_left f (inr g) = inr g

-- An invariant, or else a fact about the start.
module _ {P : SessionRegistry → Type 0} {G : Type 0} where
  or_kept : IsKept P → IsKept (λ r. P r ⊎ G)
  or_kept k = record {
    attach_keeps = λ r s ρ ws. on_left (k.attach_keeps r s ρ ws);
    detach_keeps = λ r s ρ. on_left (k.detach_keeps r s ρ);
    remove_keeps = λ r s. on_left (k.remove_keeps r s);
    pairing_keeps = λ r s. on_left (k.pairing_keeps r s);
    waiting_keeps = λ r s. on_left (k.waiting_keeps r s);
    resuming_keeps = λ r s. on_left (k.resuming_keeps r s);
    register_keeps = λ r d s. on_left (k.register_keeps r d s);
  }

settled : {b : Bool} {G : Type 0} → b ≡ true → (b ≡ false) ⊎ G → G
settled h (inl e) = absurd (false≢true (sym e ∙ h))
settled h (inr g) = g

-- A session that was not authenticated before a message, and is after it, was made so by a
-- `pair_complete` or a `resume_complete` that came from the agent's connection, bound to that session
-- and naming it, with a proof of 32 bytes, while a client was attached; provided that no other
-- connection authenticates the session at the awaits. No other message opens a session to traffic.
pub dispatch-establishes :
    {State : Type 0} (sys : System State) (envelope : Envelope) (m : Machine State) (s : String)
    → Relies sys (IsPending s)
    → is_established (get_session m.world.registry s) ≡ false
    → is_established (get_session (dispatch sys envelope m).1.world.registry s) ≡ true
    → (is_completion envelope.type ≡ true) × Completes m.world.registry m.ctx envelope s
unfolding get_session
dispatch-establishes sys envelope m s rely before after = settled after (
    dispatch_at sys (λ w. on_left (rely w)) (or_kept (IsPending-kept s)) envelope m (inl before)
      (λ complete t grounds. elim (Bool-cases (t == s)) [
        | inl e ↦
            inr (
              complete,
              subst (Completes m.world.registry m.ctx envelope) ((eq_iff t s).0 e) grounds,
            )
        | inr e ↦ inl (set_phase-IsPending_ne s m.world.registry t established e before)
      ]))
