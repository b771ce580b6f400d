-- ===== src/Agent/RelayClient/Handshake/Challenge.antt =====
-- A challenge pairs the agent with a client that knows the pairing secret, and with no other.
use termhop.Base.{
  ◌≡◌, refl, sym, ◌⊎◌, inl, inr, String, ◌==◌, not, Option, none, some, List, arith, opt_eq, ◌⧺◌,
  eq_iff, subst,
}
use termhop.Base.Text.Laws.{opt_eq_sound}
use termhop.Dict.{get}
use termhop.Json.{Value, truthy}
use termhop.Base64.{Bytes}
use termhop.Relay.Envelope.{Envelope}
use termhop.Agent.Reply.{
  Reply, answer, failed, Fault, handshake_error, raise, give, change, reads, follow, ◌>>=◌,
}
use termhop.Agent.Reply.Cases.{lift_at, if_at}
use termhop.Agent.Crypto.{handshake_transcript, decode_pubkey}
use termhop.Agent.RelayClient.{Platform, RelayClient, Client, recv}
use termhop.Agent.RelayClient.Receive.{recv-Received}
use termhop.Agent.RelayClient.Handshake.{
  complete_challenge, check_challenge, on_challenge, await_pair_challenge_and_complete,
  payload_value, shown,
}
use termhop.Agent.RelayClient.Handshake.Proofs.{Silent, Proved, prove-Outcome, needs_at}

-- The pairing of `c` by this key and this proof of a client.
pub record Authenticated (p : Platform) (peer proof : Value) (c c' : RelayClient) : Type 0 where
  pub private_key : Bytes
  pub agent_pubkey : String
  pub secret : String
  pub token : String
  pub session_id : String
  pub peer_raw : Bytes
  pub transcript : Bytes
  pub private_key_is : c.own_private_key ≡ some private_key
  pub agent_pubkey_is : c.agent_pubkey_b64 ≡ some agent_pubkey
  pub secret_is : c.pairing_secret ≡ some secret
  pub token_is : c.token ≡ some token
  pub session_id_is : c.session_id ≡ some session_id
  pub key_decoded : decode_pubkey peer ≡ answer peer_raw
  pub bound : handshake_transcript session_id token agent_pubkey (shown p peer) ≡ answer transcript
  pub proves :
      Proved p "pair_complete" private_key peer_raw secret transcript session_id proof c.sent c'

module _ (p : Platform) (peer proof : Value) (c : RelayClient) where
  abbrev Completed : Reply (Unit {0}) × RelayClient → Type 0
  Completed r = Silent c r ⊎ ((r.0 ≡ answer tt) × Authenticated p peer proof c r.1)

  quiet : (e : Fault) → Completed (failed e, c)
  quiet e = inl (e, refl, refl, refl)

  complete_challenge-Completed : Completed (complete_challenge p peer proof c)
  unfolding complete_challenge reads change ◌>>=◌
  complete_challenge-Completed =
      needs_at Completed c.own_private_key _ c
        (λ private ha.
          needs_at Completed c.agent_pubkey_b64 _ c
            (λ agent_pubkey hb.
              needs_at Completed c.pairing_secret _ c
                (λ secret hc.
                  needs_at Completed c.token _ c
                    (λ token hd.
                      needs_at Completed c.session_id _ c
                        (λ session_id he.
                          lift_at Completed (decode_pubkey peer) _ c
                            (λ peer_raw hf.
                              lift_at Completed
                                (handshake_transcript session_id token agent_pubkey (shown p peer))
                                _ c
                                (λ transcript hg.
                                  elim (prove-Outcome p "pair_complete"
                                    "client pairing proof is invalid" private peer_raw secret
                                    transcript session_id proof
                                    (record c { transcript = some transcript })) [
                                      | inl silent ↦ inl silent
                                      | inr (ok, proves) ↦ inr (
                                        ok,
                                        record {
                                          private_key = private;
                                          agent_pubkey = agent_pubkey;
                                          secret = secret;
                                          token = token;
                                          session_id = session_id;
                                          peer_raw = peer_raw;
                                          transcript = transcript;
                                          private_key_is = ha;
                                          agent_pubkey_is = hb;
                                          secret_is = hc;
                                          token_is = hd;
                                          session_id_is = he;
                                          key_decoded = hf;
                                          bound = hg;
                                          proves = proves;
                                        },
                                      )
                                    ])
                                quiet)
                            quiet)
                        quiet)
                    quiet)
                quiet)
            quiet)
        quiet

-- A pairing by the challenge in this frame.
pub record Challenged (p : Platform) (frame : Envelope) (c c' : RelayClient) : Type 0 where
  pub peer : Value
  pub proof : Value
  pub peer_is : get frame.payload "peer_pubkey" ≡ some peer
  pub proof_is : get frame.payload "client_proof" ≡ some proof
  pub session_is : frame.session_id ≡ c.session_id
  pub authentic : Authenticated p peer proof c c'

module _ (p : Platform) (frame : Envelope) (c : RelayClient) where
  abbrev Checked : Reply (Unit {0}) × RelayClient → Type 0
  Checked r = Silent c r ⊎ ((r.0 ≡ answer tt) × Challenged p frame c r.1)

  module _ {B : Type 0} (Q : Reply B × RelayClient → Type 0) where
    required_at :
        (o : Option Value) (message : String) (f : Value → Client B)
        → ((v : Value) → o ≡ some v → Q (f v c))
        → ((e : Fault) → Q (failed e, c))
        → Q ((payload_value o message >>= f) c)
    unfolding payload_value raise give ◌>>=◌
    required_at none message f go stop = stop (handshake_error message)
    required_at (some v) message f go stop =
        if_at (λ r. Q (follow f r)) (truthy v) _ _ c (λ _. go v refl)
          (λ _. stop (handshake_error message))

  check_challenge-Checked : Checked (check_challenge p frame c)
  unfolding check_challenge reads raise ◌>>=◌
  check_challenge-Checked =
      required_at Checked (get frame.payload "peer_pubkey")
        "pair_challenge missing payload.peer_pubkey" _
        (λ peer ha.
          required_at Checked (get frame.payload "client_proof")
            "pair_challenge missing payload.client_proof" _
            (λ proof hb.
              if_at Checked (not (opt_eq frame.session_id c.session_id)) _ _ c
                (λ other. inl (_, refl, refl, refl))
                (λ same. elim (complete_challenge-Completed p peer proof c) [
                  | inl silent ↦ inl silent
                  | inr (ok, authentic) ↦ inr (
                    ok,
                    record {
                      peer = peer;
                      proof = proof;
                      peer_is = ha;
                      proof_is = hb;
                      session_is =
                          opt_eq_sound frame.session_id c.session_id (ground (arith, same));
                      authentic = authentic;
                    },
                  )
                ]))
            (λ e. inl (e, refl, refl, refl)))
        (λ e. inl (e, refl, refl, refl))

module _ (p : Platform) where
  module _ (c : RelayClient) where
    -- The frame that paired the client, which is then as the challenge left it.
    abbrev pub Pairs : Reply (Unit {0}) × RelayClient → Type 0
    Pairs r =
        (r.0 ≡ answer tt)
        × ((frame : Envelope) × (rest : List String) × (recv p c
              ≡ (answer frame, record c { inbox = rest }))
            × (frame.type ≡ "pair_challenge")
            × Challenged p frame (record c { inbox = rest }) r.1)

    on_challenge-Pairs :
        (frame : Envelope) (rest : List String)
        → Silent c (on_challenge p frame (record c { inbox = rest }))
          ⊎ ((frame.type ≡ "pair_challenge")
              × Checked p frame
                  (record c { inbox = rest })
                  (on_challenge p frame (record c { inbox = rest })))
    unfolding on_challenge raise
    on_challenge-Pairs frame rest =
        let after = record c { inbox = rest } in
        let Ends = λ (r : Reply (Unit {0}) × RelayClient).
          Silent c r ⊎ ((frame.type ≡ "pair_challenge") × Checked p frame after r) in
        if_at Ends (frame.type == "error") _ _ after
          (λ refused. inl (handshake_error "relay rejected pairing", refl, refl, refl))
          (λ _.
            if_at Ends (not (frame.type == "pair_challenge")) _ _ after
              (λ other.
                inl (
                  handshake_error ("expected pair_challenge, got " ⧺ frame.type),
                  refl,
                  refl,
                  refl,
                ))
              (λ kind. inr (
                (eq_iff frame.type "pair_challenge").0 (ground (arith, kind)),
                check_challenge-Checked p frame after,
              )))

    -- Awaiting the challenge ends in one of two ways. Either it raises, and then nothing was sent and the
    -- state of the handshake is what it was. Or the next frame is a `pair_challenge` for the client's own
    -- session, whose proof verifies under the keys that are derived from the client's private key, the
    -- key in the frame and the pairing secret, over the transcript of session, token and both keys; then
    -- exactly one frame is sent, the agent's own proof, and the client is paired under those keys.
    pub await_pair_challenge-Pairs :
        Silent c (await_pair_challenge_and_complete p c)
        ⊎ Pairs (await_pair_challenge_and_complete p c)
    unfolding await_pair_challenge_and_complete ◌>>=◌
    await_pair_challenge-Pairs =
        let Ends = λ (r : Reply Envelope × RelayClient).
          Silent c (follow (on_challenge p) r) ⊎ Pairs (follow (on_challenge p) r) in
        elim (recv-Received p c) [
          | inl (e, rest, h) ↦ subst Ends (sym h) (inl (e, refl, refl, refl))
          | inr (frame, raw, rest, h, from) ↦
              subst Ends (sym h) (elim (on_challenge-Pairs frame rest) [
                | inl silent ↦ inl silent
                | inr (kind, inl silent) ↦ inl silent
                | inr (kind, inr (ok, challenged)) ↦ inr (ok, (frame, rest, h, kind, challenged))
              ])
        ]
