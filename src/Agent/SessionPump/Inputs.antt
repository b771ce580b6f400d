-- ===== src/Agent/SessionPump/Inputs.antt =====
-- What is typed into the terminal: the texts of the accepted `pty_input` frames, each once and in order.
use termhop.Base.{
  ℕ, zero, suc, ◌<◌, ◌≡◌, refl, sym, subst, ◌⊎◌, inl, inr, String, ◌==◌, Bool, true, false, Option,
  none, some, List, [], ◌∷◌, arith, if◌then◌else◌, length,
}
use termhop.Base64.{Bytes}
use termhop.Relay.Envelope.{Envelope}
use termhop.Agent.Reply.{Reply, answer, failed, connection_closed, give, follow, ◌>>=◌, ◌>>◌}
use termhop.Agent.PtyBackend.{Backend, write, resize}
use termhop.Agent.PtyBackend.Open.{Typed, Takes, write-Takes, resize-Takes}
use termhop.Agent.RelayClient.{Platform, RelayClient, parse_frame}
use termhop.Agent.RelayClient.Receive.{Parsed, parse_frame-Parsed, recv_first, recv_last}
use termhop.Agent.RelayClient.Traffic.{decrypt_payload, recv_decrypted}
use termhop.Agent.RelayClient.Traffic.Replay.{Refuses, Accepts, decrypt_payload-cases}
use termhop.Agent.SessionPump.{
  Pump, Session, on_client, on_backend, from_relay, on_frame, resize_to, task_of, unless_done,
  pump_relay_to_pty,
}

abbrev typed : Reply Bytes × RelayClient → (RelayClient → List Bytes) → List Bytes
typed (failed e, c) rest = []
typed (answer text, c) rest = text ∷ rest c

abbrev input_of : Platform → Reply Envelope → RelayClient → (RelayClient → List Bytes) → List Bytes
input_of p (failed e) c rest = []
input_of p (answer e) c rest =
    if e.type == "pty_input"
    then typed (decrypt_payload p e c) rest
    else if e.type == "session_resize"
    then rest c
    else if e.type == "session_close"
    then []
    else rest c

-- The texts in the frames, up to the frame that ends the loop: one that is malformed, that is refused, or
-- that closes the session.
unfoldable pub inputs : Platform → List String → RelayClient → List Bytes
inputs p [] c = []
inputs p (raw ∷ frames) c =
    let d = record c { inbox = frames } in
    input_of p (parse_frame (p.json_loads raw) d).0 d (inputs p frames)

-- The texts onto those that were written before, the newest first
abbrev pub onto : List Bytes → List Bytes → List Bytes
onto [] written = written
onto (text ∷ texts) written = onto texts (text ∷ written)

abbrev pub Result : Type 0
Result = Reply (Unit {0}) × Session

module _ (p : Platform) where
  -- The loop ends, and by then it has typed the texts onto what was written.
  abbrev pub Types : ℕ → Session → List Bytes → List Bytes → Type 0
  Types n s texts ws =
      (r : Result) × (pump_relay_to_pty p n s ≡ some r) × Typed r.1.backend (onto texts ws)

  abbrev After : ℕ → Reply Bool × Session → List Bytes → List Bytes → Type 0
  After n r texts ws =
      (q : Result) × (unless_done (task_of r.0) (λ done. (done, r.1)) (pump_relay_to_pty p n r.1)
        ≡ some q)
      × Typed q.1.backend (onto texts ws)

  guarded :
      (e : Envelope) (c : RelayClient)
      → Refuses c (decrypt_payload p e c) ⊎ Accepts c e.seq (decrypt_payload p e c)
  guarded e c = elim (decrypt_payload-cases p c e) [
    | inl refused ↦ inl refused
    | inr (accepts, same, new) ↦ inr accepts
  ]

  module _ (n : ℕ) (frames : List String)
      (later : (s : Session) (ws : List Bytes)
        → s.client.inbox ≡ frames
        → s.client.ws ≡ true
        → Typed s.backend ws
        → Types n s (inputs p frames s.client) ws) where
    module _ (c : RelayClient) (from : c.inbox ≡ frames) (up : c.ws ≡ true) where
      -- The terminal has taken something, and the loop goes on.
      goes :
          (r : Reply (Unit {0}) × Backend) (ws : List Bytes)
          → Takes ws r
          → After n
              (follow (λ _. give true) (r.0, record { client = c; backend = r.1 }))
              (inputs p frames c)
              ws
      unfolding give
      goes (answer a, b) ws (ok, t) = later (record { client = c; backend = b }) ws from up t
      goes (failed e, b) ws (ok, t) = absurd cc

      sized :
          (rows cols : Option ℕ) (b : Backend) (ws : List Bytes)
          → Typed b ws
          → After n
              ((resize_to rows cols >> give true) (record { client = c; backend = b }))
              (inputs p frames c)
              ws
      unfolding resize_to on_backend ◌>>=◌ give
      sized none cols b ws t = later (record { client = c; backend = b }) ws from up t
      sized (some rows) none b ws t = later (record { client = c; backend = b }) ws from up t
      sized (some rows) (some cols) b ws t =
          goes (resize rows cols b) ws (resize-Takes b ws rows cols t)

    -- A test that the loop and the reading of the texts share
    split :
        (b : Bool) (m k : Pump Bool) (s : Session) (texts others ws : List Bytes)
        → (b ≡ true → After n (m s) texts ws)
        → (b ≡ false → After n (k s) others ws)
        → After n ((if b then m else k) s) (if b then texts else others) ws
    split true m k s texts others ws yes_case no_case = yes_case refl
    split false m k s texts others ws yes_case no_case = no_case refl

    -- What a decrypted text, or a refusal, leads to
    decrypted :
        (e : Envelope) (s : Session) (ws : List Bytes) (r : Reply Bytes × RelayClient)
        → s.client.inbox ≡ frames
        → s.client.ws ≡ true
        → Typed s.backend ws
        → Refuses s.client r ⊎ Accepts s.client e.seq r
        → After n
            (follow (λ text. on_backend (write text) >> give true) (r.0, record s { client = r.1 }))
            (typed r (inputs p frames))
            ws
    unfolding on_backend ◌>>=◌ give
    decrypted e s ws r from up t (inl (f, h)) =
        subst
          (λ (x : Reply Bytes × RelayClient).
            After n
              (follow (λ text. on_backend (write text) >> give true)
                (x.0, record s { client = x.1 }))
              (typed x (inputs p frames)) ws)
          (sym h) ((failed f, s), refl, t)
    decrypted e s ws r from up t (inr (text, h)) =
        let c = record s.client { last_peer_encrypted_seq = e.seq } in
        subst
          (λ (x : Reply Bytes × RelayClient).
            After n
              (follow (λ text. on_backend (write text) >> give true)
                (x.0, record s { client = x.1 }))
              (typed x (inputs p frames)) ws)
          (sym h)
          (goes c from up (write text s.backend) (text ∷ ws) (write-Takes s.backend ws text t))

    on_frame-After :
        (e : Envelope) (s : Session) (ws : List Bytes)
        → s.client.inbox ≡ frames
        → s.client.ws ≡ true
        → Typed s.backend ws
        → After n (on_frame p e s) (input_of p (answer e) s.client (inputs p frames)) ws
    unfolding on_frame ◌>>=◌ on_client give
    on_frame-After e s ws from up t =
        split (e.type == "pty_input") _ _ s _ _ ws
          (λ _. decrypted e s ws (decrypt_payload p e s.client) from up t (guarded e s.client))
          (λ _.
            split (e.type == "session_resize") _ _ s _ _ ws
              (λ _. sized s.client from up _ _ s.backend ws t)
              (λ _.
                split (e.type == "session_close") _ _ s _ _ ws (λ _. ((answer tt, s), refl, t))
                  (λ _. later s ws from up t)))

  -- A round that is done, of a session whose client has received
  module _ (n : ℕ) (s : Session) where
    round : Reply Envelope × RelayClient → Reply Bool × Session
    round r = follow (on_frame p) (r.0, record s { client = r.1 })

    round-After :
        (r : Reply Envelope × RelayClient) (raw : String) (frames : List String) (ws : List Bytes)
        → ((t : Session) (vs : List Bytes)
            → t.client.inbox ≡ frames
            → t.client.ws ≡ true
            → Typed t.backend vs
            → Types n t (inputs p frames t.client) vs)
        → s.client.ws ≡ true
        → Typed s.backend ws
        → Parsed (record s.client { inbox = frames }) r
        → After n
            (round r)
            (input_of p r.0 (record s.client { inbox = frames }) (inputs p frames))
            ws
    unfolding round
    round-After r raw frames ws later up t (inl (e, h)) =
        let d = record s.client { inbox = frames } in
        subst
          (λ (x : Reply Envelope × RelayClient).
            After n (round x) (input_of p x.0 d (inputs p frames)) ws)
          (sym h) ((failed e, record s { client = d }), refl, t)
    round-After r raw frames ws later up t (inr (frame, h)) =
        let d = record s.client { inbox = frames } in
        subst
          (λ (x : Reply Envelope × RelayClient).
            After n (round x) (input_of p x.0 d (inputs p frames)) ws)
          (sym h) (on_frame-After n frames later frame (record s { client = d }) ws refl up t)

-- On a terminal that is open, and for a client that is connected: given more rounds than frames wait, the
-- loop from the relay ends, and what it has typed is the texts that a reading of the frames alone gives, each
-- once, in their order, onto what was typed before.
pub pump_relay_to_pty-Types :
    (p : Platform) (n : ℕ) (frames : List String) (s : Session) (ws : List Bytes)
    → length frames < n
    → s.client.inbox ≡ frames
    → s.client.ws ≡ true
    → Typed s.backend ws
    → Types p n s (inputs p frames s.client) ws
unfolding pump_relay_to_pty from_relay recv_decrypted on_client ◌>>=◌ round inputs
pump_relay_to_pty-Types p zero frames s ws h from up t = absurd (omega arith)
pump_relay_to_pty-Types p (suc n) [] s ws h from up t =
    subst (λ x. After p n (round p n s x) [] ws) (sym (recv_last p s.client up from))
      ((failed connection_closed, s), refl, t)
pump_relay_to_pty-Types p (suc n) (raw ∷ frames) s ws h from up t =
    let d = record s.client { inbox = frames } in
    subst (λ x. After p n (round p n s x) (inputs p (raw ∷ frames) s.client) ws)
      (sym (recv_first p s.client raw frames up from))
      (round-After p n s (parse_frame (p.json_loads raw) d) raw frames ws
        (λ s' vs from' up' t'. pump_relay_to_pty-Types p n frames s' vs (omega arith) from' up' t')
        up t (parse_frame-Parsed (p.json_loads raw) d))
