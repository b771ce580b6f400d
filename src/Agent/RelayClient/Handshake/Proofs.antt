-- ===== src/Agent/RelayClient/Handshake/Proofs.antt =====
-- Who is paired has proved that they know the pairing secret.
use termhop.Base.{
  ◌&&◌, suc, ◌≡◌, refl, ap, ◌∙◌, ◌⊎◌, inl, inr, String, true, not, Option, none, some, List, [],
  ◌∷◌, arith,
}
use termhop.Json.{Value, str}
use termhop.Base64.{Bytes}
use termhop.Relay.Envelope.{Envelope}
use termhop.Agent.Reply.{
  Reply, answer, failed, Fault, connection_closed, validation_error, assertion_error,
  handshake_error, raise, change, reads, follow, ◌>>=◌, ◌>>◌,
}
use termhop.Agent.Reply.Cases.{lift_at, if_at}
use termhop.Agent.Crypto.{SessionKeys, derive_session_keys, verify_pairing_proof, pairing_proof}
use termhop.Agent.RelayClient.{
  Platform, RelayClient, Client, paired, needs, send, send_numbered, transmit, record_sent, tick,
  next_seq, is_open, wire_envelope, valid_envelope,
}
use termhop.Agent.RelayClient.Receive.{asserts_at}
use termhop.Agent.RelayClient.Handshake.{prove, set_state}

-- What a command did when it raised: nothing was sent, and the state of the handshake is what it was.
abbrev pub Silent : {A : Type 0} → RelayClient → Reply A × RelayClient → Type 0
Silent c r = (e : Fault) × (r.0 ≡ failed e) × (r.1.sent ≡ c.sent) × (r.1.state ≡ c.state)

-- One frame of this type went out, with this payload.
pub record Sends (type : String) (session_id : Option String) (payload : List (String × Value))
    (before after : List Envelope) : Type 0 where
  pub frame : Envelope
  pub sent_is : after ≡ frame ∷ before
  pub type_is : frame.type ≡ type
  pub session_is : frame.session_id ≡ session_id
  pub payload_is : frame.payload ≡ payload

module _ {B : Type 0} (Q : Reply B × RelayClient → Type 0) where
  pub needs_at :
      {A : Type 0} (o : Option A) (f : A → Client B) (c : RelayClient)
      → ((a : A) → o ≡ some a → Q (f a c))
      → ((e : Fault) → Q (failed e, c))
      → Q ((needs o >>= f) c)
  unfolding needs ◌>>=◌
  needs_at none f c k h = h assertion_error
  needs_at (some a) f c k h = k a refl

module _ (p : Platform) (type : String) (session_id : Option String)
    (payload : List (String × Value)) where
  -- Nothing was sent, or one frame, and the keys and the state are as they were.
  abbrev Sent : RelayClient → Reply (Unit {0}) × RelayClient → Type 0
  Sent c r =
      (Silent c r ⊎ ((r.0 ≡ answer tt) × Sends type session_id payload c.sent r.1.sent))
      × (r.1.state ≡ c.state)
      × (r.1.session_keys ≡ c.session_keys)

  send-Sent : (c : RelayClient) → Sent c (send p type session_id payload c)
  unfolding send send_numbered transmit tick next_seq record_sent reads raise change ◌>>=◌
  send-Sent c =
      asserts_at (Sent c) c.ws _ c
        (λ up.
          if_at (Sent c)
            (valid_envelope
              (wire_envelope type session_id payload (suc c.seq) (p.time_ms c.moment)))
            _ _ _
            (λ valid.
              if_at (Sent c) (p.up (suc c.moment) && is_open c.state) _ _ _
                (λ on. (
                  inr (
                    refl,
                    record {
                      frame = _;
                      sent_is = refl;
                      type_is = refl;
                      session_is = refl;
                      payload_is = refl;
                    },
                  ),
                  refl,
                  refl,
                ))
                (λ off. (inl (connection_closed, refl, refl, refl), refl, refl)))
            (λ bad. (inl (validation_error, refl, refl, refl), refl, refl)))
        (λ e. (inl (e, refl, refl, refl), refl, refl))

-- The proof of the client holds, under keys from the transcript and the pairing secret; the agent answers
-- with its own proof, in one frame, and is paired under those keys.
pub record Proved (p : Platform) (type : String) (private peer_raw : Bytes) (secret : String)
    (transcript : Bytes) (session_id : String) (proof : Value) (before : List Envelope)
    (c' : RelayClient) : Type 0 where
  pub keys : SessionKeys
  pub agent_proof : String
  pub derived : derive_session_keys p.primitives private peer_raw secret transcript ≡ answer keys
  pub proved : verify_pairing_proof p.primitives keys.proof transcript "client" proof ≡ answer true
  pub answered : pairing_proof p.primitives keys.proof transcript "agent" ≡ answer agent_proof
  pub sends : Sends type (some session_id) (("agent_proof", str agent_proof) ∷ []) before c'.sent
  pub state_is : c'.state ≡ paired
  pub keys_are : c'.session_keys ≡ some keys

module _ (p : Platform) (type refusal : String) (private peer_raw : Bytes) (secret : String)
    (transcript : Bytes) (session_id : String) (proof : Value) (c : RelayClient) where
  abbrev pub Outcome : Reply (Unit {0}) × RelayClient → Type 0
  Outcome r =
      Silent c r
      ⊎ ((r.0 ≡ answer tt)
          × Proved p type private peer_raw secret transcript session_id proof c.sent r.1)

  module _ (keys : SessionKeys)
      (derived : derive_session_keys p.primitives private peer_raw secret transcript ≡ answer keys)
      (proved : verify_pairing_proof p.primitives keys.proof transcript "client" proof
        ≡ answer true)
      (agent_proof : String)
      (answered : pairing_proof p.primitives keys.proof transcript "agent"
        ≡ answer agent_proof) where
    -- What a proof goes out with.
    answers :
        (r : Reply (Unit {0}) × RelayClient)
        → Sent p type
            (some session_id)
            (("agent_proof", str agent_proof) ∷ [])
            (record c { session_keys = some keys })
            r
        → Outcome (follow (λ _. change (set_state paired)) r)
    unfolding change
    answers (failed e, c') (inl (f, raised, sent, state), same, keyed) = inl (e, refl, sent, state)
    answers (failed e, c') (inr (ok, sends), same, keyed) = absurd cc
    answers (answer a, c') (inl (f, raised, sent, state), same, keyed) = absurd cc
    answers (answer a, c') (inr (ok, sends), same, keyed) = inr (
      refl,
      record {
        keys = keys;
        agent_proof = agent_proof;
        derived = derived;
        proved = proved;
        answered = answered;
        sends = sends;
        state_is = refl;
        keys_are = keyed;
      },
    )

  pub prove-Outcome :
      Outcome (prove p type refusal private peer_raw secret transcript session_id proof c)
  unfolding prove change raise ◌>>=◌
  prove-Outcome =
      lift_at Outcome (derive_session_keys p.primitives private peer_raw secret transcript) _ c
        (λ keys derived.
          let next = record c { session_keys = some keys } in
          lift_at Outcome (verify_pairing_proof p.primitives keys.proof transcript "client" proof) _
            next
            (λ valid proved.
              if_at Outcome (not valid) _ _ next
                (λ bad. inl (handshake_error refusal, refl, refl, refl))
                (λ good.
                  lift_at Outcome (pairing_proof p.primitives keys.proof transcript "agent")
                    (λ a.
                      send p type (some session_id) (("agent_proof", str a) ∷ [])
                      >> change (set_state paired))
                    next
                    (λ agent_proof answered.
                      answers keys derived (proved ∙ ap answer (ground (arith, good))) agent_proof
                        answered _
                        (send-Sent p type (some session_id) (("agent_proof", str agent_proof) ∷ [])
                          next))
                    (λ e. inl (e, refl, refl, refl))))
            (λ e. inl (e, refl, refl, refl)))
        (λ e. inl (e, refl, refl, refl))
