-- ===== src/Relay/Router/Traffic/Delivery.antt =====
-- Where session traffic goes.
use termhop.Base.{
  String, ◌==◌, eq_iff, ◌≡◌, ◌≢◌, refl, ◌∙◌, Bool, true, false, not, Option, none, some, List, ◌⊎◌,
  inl, inr, arith, if◌then◌else◌, opt_eq, Bool-cases, Option-cases,
}
use termhop.Relay.Exec.{Result, ok, raised, done, resume, ◌>>=◌}
use termhop.Relay.Registry.{WebSocket, get_session, get_peer}
use termhop.Relay.Envelope.{Envelope}
use termhop.Relay.System.{
  System, World, Machine, Action, change_registry, redis_call, send_envelope, send_to, with_sent,
}
use termhop.Relay.Pairing.{delete_session_record}
use termhop.Relay.Router.Replies.{send_error, envelope_of, error_payload}
use termhop.Relay.Router.Grounds.{opt_eq-some}
use termhop.Relay.Router.Traffic.{
  is_established, teardown_session, forward, routable, handle_routable,
}

abbrev Outbox : Type 0
Outbox = List (WebSocket × Envelope)

module _ {State : Type 0} (m : Machine State) (envelope : Envelope) where
  -- The peer of an authenticated session that the sender is bound to and that the envelope names
  pub record IsDeliverable : Type 0 where
    pub session_id : String
    pub peer : WebSocket
    pub bound : m.ctx.session_id ≡ some session_id
    pub named : envelope.session_id ≡ some session_id
    pub authenticated : is_established (get_session m.world.registry session_id) ≡ true
    pub attached : get_peer m.world.registry session_id m.ctx.role ≡ some peer

  -- Why there is none: the sender is bound to no session, or to one that the envelope does not name, that is
  -- not authenticated, or that has no other end.
  abbrev pub IsUndeliverable : Type 0
  IsUndeliverable =
      (m.ctx.session_id ≡ none)
      ⊎ ((session_id : String) × (m.ctx.session_id ≡ some session_id)
          × ((envelope.session_id ≢ some session_id)
              ⊎ (is_established (get_session m.world.registry session_id) ≡ false)
              ⊎ (get_peer m.world.registry session_id m.ctx.role ≡ none)))

  module _ (after : Outbox) where
    -- The envelope went, unchanged, to that peer, if it is still connected.
    pub record IsForwarded : Type 0 where
      pub deliverable : IsDeliverable
      pub sent : after ≡ with_sent m.world deliverable.peer envelope

    -- The sender, if it is still connected, and nobody else, was told of an error.
    pub record IsRefused : Type 0 where
      pub reason : IsUndeliverable
      pub reply : Envelope
      pub is_error : reply.type ≡ "error"
      pub sent : after ≡ with_sent m.world m.ctx.ws reply

    abbrev pub Outcome : Type 0
    Outcome = IsRefused ⊎ IsForwarded

not_named : (o : Option String) (s : String) → not (opt_eq o (some s)) ≡ true → o ≢ some s
not_named none s h e = cc
not_named (some t) s h e = ground (arith, eq_iff t s, h, e)

-- A step that sends nothing leaves what was sent before it.
outbox-resume :
    {State A B : Type 0} (f : A → Action State B) (r : Result A) (m : Machine State)
    → ((x : A) (m' : Machine State) → (f x m').1.world.outbox ≡ m'.world.outbox)
    → (resume f (r, m)).1.world.outbox ≡ m.world.outbox
outbox-resume f (ok x) m silent = silent x m
outbox-resume f (raised e) m silent = refl

module _ {State : Type 0} (sys : System State)
    (calm : (w : World State) → (sys.interfere w).outbox ≡ w.outbox) where
  outbox-send_envelope :
      (ws : WebSocket) (e : Envelope) (m : Machine State)
      → (send_envelope sys ws e m).1.world.outbox ≡ with_sent m.world ws e
  unfolding send_envelope
  outbox-send_envelope ws e m = elim (Bool-cases (m.world.connected ws)) [
    | inl up ↦ rw (up, send_envelope) (calm _)
    | inr down ↦ rw (down, send_envelope)
  ]

  outbox-redis_call :
      {A : Type 0} (command : State → A × State) (m : Machine State)
      → (redis_call sys command m).1.world.outbox ≡ m.world.outbox
  unfolding redis_call
  outbox-redis_call command m = elim (Bool-cases (sys.interfere m.world).redis_up) [
    | inl up ↦ rw (up, redis_call) (calm _ ∙ calm m.world)
    | inr down ↦ rw (down, redis_call) (calm m.world)
  ]

  outbox-teardown :
      (session_id : String) (m : Machine State)
      → (teardown_session sys session_id m).1.world.outbox ≡ m.world.outbox
  unfolding teardown_session ◌>>=◌ change_registry delete_session_record
  outbox-teardown session_id m = outbox-redis_call _ _

  close_or_go_on :
      (b : Bool) (session_id : String) (m : Machine State)
      → ((if b then teardown_session sys session_id else done tt) m).1.world.outbox ≡ m.world.outbox
  unfolding done
  close_or_go_on true session_id m = outbox-teardown session_id m
  close_or_go_on false session_id m = refl

  module _ (m : Machine State) (envelope : Envelope) where
    refused :
        (code message : String)
        → IsUndeliverable m envelope
        → Outcome m envelope (send_error sys code message m).1.world.outbox
    unfolding send_error
    refused code message reason =
        let reply = envelope_of "error" m.ctx.session_id 0 0 (error_payload code message) in
        inl (record {
          reason = reason;
          reply = reply;
          is_error = refl;
          sent = outbox-send_envelope m.ctx.ws reply m;
        })

    refused_or :
        (b : Bool) (code message : String) (rest : Action State (Unit {0}))
        → (b ≡ true → IsUndeliverable m envelope)
        → (b ≡ false → Outcome m envelope (rest m).1.world.outbox)
        → Outcome m envelope ((if b then send_error sys code message else rest) m).1.world.outbox
    refused_or true code message rest why k = refused code message (why refl)
    refused_or false code message rest why k = k refl

    forwarded :
        (session_id : String)
        → m.ctx.session_id ≡ some session_id
        → envelope.session_id ≡ some session_id
        → is_established (get_session m.world.registry session_id) ≡ true
        → Outcome m envelope (forward sys m.ctx envelope session_id m).1.world.outbox
    unfolding forward ◌>>=◌ send_to
    forwarded session_id bound named authenticated =
        elim (Option-cases (get_peer m.world.registry session_id m.ctx.role)) [
          | inl e ↦ rw (e, forward) (refused _ _ (inr (session_id, bound, inr (inr e))))
          | inr (peer, e) ↦
              let sent₁ = send_envelope sys peer envelope m in
              let rest =
                outbox-resume
                  (λ _.
                    if envelope.type == "session_close"
                    then teardown_session sys session_id
                    else done tt)
                  sent₁.0 sent₁.1
                  (λ _ m'. close_or_go_on (envelope.type == "session_close") session_id m') in
              rw (e, forward)
                (inr (record {
                  deliverable = record {
                    session_id = session_id;
                    peer = peer;
                    bound = bound;
                    named = named;
                    authenticated = authenticated;
                    attached = e;
                  };
                  sent = rest ∙ outbox-send_envelope peer envelope m;
                }))
        ]

    routed :
        (bound : Option String)
        → m.ctx.session_id ≡ bound
        → Outcome m envelope (routable sys m.ctx envelope bound m).1.world.outbox
    unfolding routable ◌>>=◌
    routed none e = refused _ _ (inl e)
    routed (some session_id) e =
        refused_or (not (opt_eq envelope.session_id (some session_id))) _ _ _
          (λ other. inr (session_id, e, inl (not_named envelope.session_id session_id other)))
          λ named.
            refused_or (not (is_established (get_session m.world.registry session_id))) _ _ _
              (λ open_one. inr (session_id, e, inr (inl (ground arith))))
              λ authenticated.
                forwarded session_id e (opt_eq-some envelope.session_id session_id named)
                  (ground arith)

  -- If the other connections send nothing at the awaits, session traffic sends at most one envelope. Where
  -- the session that the sender is bound to is the one that the envelope names, is authenticated and has
  -- another end, it is the envelope itself, unchanged, to that other end; else it is an error, to the sender
  -- alone. Nothing is sent where the one that it is for is not connected any more, and only there.
  pub handle_routable-confined :
      (envelope : Envelope) (m : Machine State)
      → Outcome m envelope (handle_routable sys envelope m).1.world.outbox
  unfolding handle_routable
  handle_routable-confined envelope m = routed m envelope m.ctx.session_id refl
