-- ===== src/Agent/RelayClient/Handshake/Resume.antt =====
-- A saved client resumes the agent by a proof that it knows the device's secret, and not otherwise.
use termhop.Base.{◌≡◌, refl, sym, ◌∙◌, ◌⊎◌, inl, inr, String, some, List, [], ◌∷◌, subst}
use termhop.Json.{Payload, str}
use termhop.Base64.{Bytes}
use termhop.Relay.Envelope.{Envelope}
use termhop.Agent.Reply.{Reply, answer, failed, Fault, change, reads, ◌>>=◌}
use termhop.Agent.Reply.Cases.{lift_at, bind_at}
use termhop.Agent.Crypto.{handshake_transcript, decode_pubkey}
use termhop.Agent.RelayClient.{Platform, RelayClient, Client, recv, send}
use termhop.Agent.RelayClient.Handshake.{
  expect_own, complete_resume, await_resume_and_complete, get_or_empty, shown,
}
use termhop.Agent.RelayClient.Handshake.Proofs.{Proved, prove-Outcome}
use termhop.Agent.RelayClient.Handshake.Own.{
  Own, after_change, send-Own, filled_at, filled_key_at, expect_own_at,
}

-- The resumption of `c` by this payload of a proof, after these frames were sent
pub record Resumed (p : Platform) (payload : Payload) (c : RelayClient)
    (session_id agent_pubkey token : String) (before : List Envelope) (c' : RelayClient)
    : Type 0 where
  pub private_key : Bytes
  pub secret : String
  pub peer_raw : Bytes
  pub transcript : Bytes
  pub private_key_is : c.own_private_key ≡ some private_key
  pub secret_is : c.pairing_secret ≡ some secret
  pub key_decoded : decode_pubkey (get_or_empty payload "client_pubkey") ≡ answer peer_raw
  pub bound :
      handshake_transcript session_id token agent_pubkey
        (shown p (get_or_empty payload "client_pubkey"))
      ≡ answer transcript
  pub proves :
      Proved p "resume_complete" private_key peer_raw secret transcript session_id
        (get_or_empty payload "client_proof")
        before
        c'

module _ (p : Platform) where
  module _ (c : RelayClient) (session_id agent_pubkey token : String) (payload : Payload) where
    abbrev Completed : List Envelope → Reply (Unit {0}) × RelayClient → Type 0
    Completed before r =
        ((e : Fault) × (r.0 ≡ failed e) × (r.1.state ≡ c.state))
        ⊎ ((r.0 ≡ answer tt) × Resumed p payload c session_id agent_pubkey token before r.1)

    complete_resume-Completed :
        (c1 : RelayClient)
        → Own c c1
        → Completed c1.sent (complete_resume p session_id agent_pubkey token payload c1)
    unfolding complete_resume reads change ◌>>=◌
    complete_resume-Completed c1 own =
        let Q = Completed c1.sent in
        let pubkey = get_or_empty payload "client_pubkey" in
        filled_key_at Q c1.own_private_key _ c1
          (λ private ha.
            filled_at Q c1.pairing_secret _ c1
              (λ secret hb.
                lift_at Q (handshake_transcript session_id token agent_pubkey (shown p pubkey)) _ c1
                  (λ transcript hc.
                    let c2 = record c1 { transcript = some transcript } in
                    lift_at Q (decode_pubkey pubkey) _ c2
                      (λ peer_raw hd.
                        elim (prove-Outcome p "resume_complete" "saved client proof is invalid"
                          private peer_raw secret transcript session_id
                          (get_or_empty payload "client_proof") c2) [
                            | inl (e, raised, sent, state) ↦ inl (e, raised, state ∙ own.state_is)
                            | inr (ok, proves) ↦ inr (
                              ok,
                              record {
                                private_key = private;
                                secret = secret;
                                peer_raw = peer_raw;
                                transcript = transcript;
                                private_key_is = sym own.private_key_is ∙ ha;
                                secret_is = sym own.secret_is ∙ hb;
                                key_decoded = hd;
                                bound = hc;
                                proves = proves;
                              },
                            )
                          ])
                      (λ e. inl (e, refl, own.state_is)))
                  (λ e. inl (e, refl, own.state_is)))
              (λ e. inl (e, refl, own.state_is)))
          (λ e. inl (e, refl, own.state_is))

  -- The client was asked to resume its own session, sent its challenge, and then received a proof for that
  -- session: the frame is the one that it received.
  pub record Resumes (c c' : RelayClient) : Type 0 where
    pub session_id : String
    pub agent_pubkey : String
    pub token : String
    pub request : Envelope
    pub asked : RelayClient
    pub challenging : RelayClient
    pub frame : Envelope
    pub proven : RelayClient
    pub session_id_is : c.session_id ≡ some session_id
    pub agent_pubkey_is : c.agent_pubkey_b64 ≡ some agent_pubkey
    pub token_is : c.token ≡ some token
    pub request_received : recv p c ≡ (answer request, asked)
    pub request_is : request.type ≡ "resume_request"
    pub request_session_is : request.session_id ≡ c.session_id
    pub challenge_sent :
        send p "resume_challenge"
          (some session_id)
          (("agent_pubkey", str agent_pubkey) ∷ ("agent_hostname", str asked.agent_hostname) ∷ [])
          asked
        ≡ (answer tt, challenging)
    pub proof_received : recv p challenging ≡ (answer frame, proven)
    pub proof_is : frame.type ≡ "resume_proof"
    pub proof_session_is : frame.session_id ≡ c.session_id
    pub authentic : Resumed p frame.payload c session_id agent_pubkey token proven.sent c'

  module _ (c : RelayClient) where
    abbrev pub Ends : Reply (Unit {0}) × RelayClient → Type 0
    Ends r =
        ((e : Fault) × (r.0 ≡ failed e) × (r.1.state ≡ c.state))
        ⊎ ((r.0 ≡ answer tt) × Resumes c r.1)

    stops : (e : Fault) (c' : RelayClient) → Own c c' → Ends (failed e, c')
    stops e c' own = inl (e, refl, own.state_is)

    module _ (request : Envelope) (asked : RelayClient)
        (received : recv p c ≡ (answer request, asked)) (own1 : Own c asked)
        (request_is : request.type ≡ "resume_request")
        (request_session : request.session_id ≡ c.session_id)
        (session_id agent_pubkey token : String) (ha : asked.session_id ≡ some session_id)
        (hb : asked.agent_pubkey_b64 ≡ some agent_pubkey) (hc : asked.token ≡ some token) where
      abbrev challenge : Client (Unit {0})
      challenge =
          send p "resume_challenge" (some session_id)
            (("agent_pubkey", str agent_pubkey) ∷ ("agent_hostname", str asked.agent_hostname) ∷ [])

      on_proof :
          (challenging : RelayClient) (frame : Envelope) (c' : RelayClient)
          → challenge asked ≡ (answer tt, challenging)
          → recv p challenging ≡ (answer frame, c')
          → Own c c'
          → frame.type ≡ "resume_proof"
          → frame.session_id ≡ c.session_id
          → Ends (complete_resume p session_id agent_pubkey token frame.payload c')
      on_proof challenging frame c' sent got own type session =
          elim (complete_resume-Completed c session_id agent_pubkey token frame.payload c' own) [
            | inl raised ↦ inl raised
            | inr (ok, authentic) ↦ inr (
              ok,
              record {
                session_id = session_id;
                agent_pubkey = agent_pubkey;
                token = token;
                request = request;
                asked = asked;
                challenging = challenging;
                frame = frame;
                proven = c';
                session_id_is = sym own1.session_is ∙ ha;
                agent_pubkey_is = sym own1.agent_pubkey_is ∙ hb;
                token_is = sym own1.token_is ∙ hc;
                request_received = received;
                request_is = request_is;
                request_session_is = request_session;
                challenge_sent = sent;
                proof_received = got;
                proof_is = type;
                proof_session_is = session;
                authentic = authentic;
              },
            )
          ]

      after_request : Ends (
          (challenge >>= λ _. expect_own p "resume_proof" >>= λ proof.
          complete_resume p session_id agent_pubkey token proof.payload)
            asked)
      after_request =
          let own = λ (r : Reply (Unit {0}) × RelayClient) (q : challenge asked ≡ r).
            subst (λ (r : Reply (Unit {0}) × RelayClient). Own c r.1) q
              ((send-Own c p "resume_challenge" (some session_id) _).at asked own1) in
          bind_at Ends challenge _ asked
            (λ _ c2 q.
              expect_own_at Ends p "resume_proof"
                (λ proof. complete_resume p session_id agent_pubkey token proof.payload) c2
                (λ frame c3 got own3 type session.
                  on_proof c2 frame c3 q got (after_change c c2 c3 (own (answer tt, c2) q) own3)
                    type (session ∙ (own (answer tt, c2) q).session_is))
                (λ e c3 own3. stops e c3 (after_change c c2 c3 (own (answer tt, c2) q) own3)))
            (λ e c2 q. stops e c2 (own (failed e, c2) q))

    -- Awaiting the resumption ends in one of two ways. Either it raises, and then the state of the handshake is
    -- what it was. Or the client received a `resume_request` for its own session, sent its challenge, and
    -- received as the next frame a `resume_proof` for that session, whose proof verifies under the keys that
    -- are derived from the client's private key, the key in the frame and the pairing secret, over the
    -- transcript of session, token and both keys; then one more frame is sent, the agent's own proof, and
    -- the client is paired under those keys.
    pub await_resume-Ends : Ends (await_resume_and_complete p c)
    unfolding await_resume_and_complete reads ◌>>=◌
    await_resume-Ends =
        expect_own_at Ends p "resume_request" _ c
          (λ request c1 got own1 type session.
            filled_at Ends c1.session_id _ c1
              (λ session_id ha.
                filled_at Ends c1.agent_pubkey_b64 _ c1
                  (λ agent_pubkey hb.
                    filled_at Ends c1.token _ c1
                      (λ token hc.
                        after_request request c1 got own1 type session session_id agent_pubkey token
                          ha hb hc)
                      (λ e. stops e c1 own1))
                  (λ e. stops e c1 own1))
              (λ e. stops e c1 own1))
          stops
