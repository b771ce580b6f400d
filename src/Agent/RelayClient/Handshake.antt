-- ===== src/Agent/RelayClient/Handshake.antt =====
-- agent/common/relay_client.py: pairing and resuming, as the agent goes through them.
pub mod Sequence
pub mod Proofs
pub mod Challenge
pub mod Short
pub mod Own
pub mod Resume
pub mod Saved
use termhop.Base.{
  ℕ, String, ◌==◌, Bool, true, false, not, ◌&&◌, ◌||◌, Option, none, some, List, [], ◌∷◌,
  if◌then◌else◌, opt_eq, ◌⧺◌,
}
use termhop.Dict.{get}
use termhop.Json.{Value, str, truthy, Payload}
use termhop.Base64.{Bytes}
use termhop.Relay.Envelope.{Envelope}
use termhop.Agent.Reply.{
  Reply, answer, failed, handshake_error, assertion_error, Command, give, raise, reads, change,
  lift, ◌>>=◌, ◌>>◌,
}
use termhop.Agent.Crypto.{
  Primitives, SessionKeys, handshake_transcript, decode_pubkey, derive_session_keys,
  verify_pairing_proof, pairing_proof, encode_pubkey,
}
use termhop.Agent.RelayClient.{
  Platform, HandshakeState, awaiting_pair_init_ack, awaiting_pair_challenge, paired, streaming,
  RelayClient, Client, asserts, needs, send, recv, connect, generate_pairing_token,
  generate_pairing_secret, generate_session_id, generate_ephemeral_keypair,
}

abbrev pub set_state : HandshakeState → RelayClient → RelayClient
set_state state c = record c { state = state }

abbrev is_filled : Option String → Bool
is_filled none = false
is_filled (some s) = not (s == "")

-- pairing_secret or generate_pairing_secret()
abbrev text_or : Option String → String → String
text_or none other = other
text_or (some s) other = if s == "" then other else s

-- payload.get(key, "")
abbrev pub get_or_empty : Payload → String → Value
get_or_empty payload key = elim (get payload key) [ none ↦ str "" | some v ↦ v ]

-- payload.get(key), refused where it is false
payload_value : Option Value → String → Client Value
payload_value none message = raise (handshake_error message)
payload_value (some v) message = if truthy v then give v else raise (handshake_error message)

-- A text that the code asserts to be there and not empty
pub filled : Option String → Client String
filled none c = (failed assertion_error, c)
filled (some s) c = if s == "" then (failed assertion_error, c) else (answer s, c)

-- A key that the code asserts to be there and not empty
pub filled_key : Option Bytes → Client Bytes
filled_key none c = (failed assertion_error, c)
filled_key (some []) c = (failed assertion_error, c)
filled_key (some (b ∷ bs)) c = (answer (b ∷ bs), c)

module _ (p : Platform) where
  -- A value in an f-string
  abbrev pub shown : Value → String
  shown (str s) = s
  shown v = p.text_of v

  draw_secret : Option String → Client String
  unfolding generate_pairing_secret
  draw_secret given = if is_filled given then give (text_or given "") else generate_pairing_secret p

  unfoldable pub send_pair_init : Option String → Option String → Client (String × String)
  unfolding draw_secret generate_pairing_token generate_session_id generate_ephemeral_keypair send
  send_pair_init pairing_secret device_id = do
    token ← generate_pairing_token p
    change (λ c. record c { token = some token })
    secret ← draw_secret pairing_secret
    change (λ c. record c { pairing_secret = some secret })
    session_id ← generate_session_id p
    change (λ c. record c { session_id = some session_id })
    pair ← generate_ephemeral_keypair p
    change (λ c. record c {
      own_private_key = some pair.0;
      agent_pubkey_b64 = some (encode_pubkey pair.1);
      state = awaiting_pair_init_ack;
    })
    hostname ← reads (λ c. c.agent_hostname)
    send p "pair_init" none (
        ("token", str token)
        ∷ ("agent_pubkey", str (encode_pubkey pair.1))
        ∷ ("session_id", str session_id)
        ∷ ("agent_hostname", str hostname)
        ∷ ("device_id", str (text_or device_id ""))
        ∷ [])
    give (token, session_id)

  unfoldable pub await_pair_init_ack : Client (Unit {0})
  unfolding recv
  await_pair_init_ack = do
    envelope ← recv p
    if envelope.type == "error"
        then raise (handshake_error "relay rejected pair_init")
        else if not (envelope.type == "pair_init_ack")
        then raise (handshake_error ("expected pair_init_ack, got " ⧺ envelope.type))
        else change (set_state awaiting_pair_challenge)

  -- Keys from the transcript, the check of the client's proof, and the agent's own proof
  unfoldable pub prove :
      String → String → Bytes → Bytes → String → Bytes → String → Value → Client (Unit {0})
  unfolding derive_session_keys verify_pairing_proof pairing_proof send
  prove type refusal private peer_raw secret transcript session_id client_proof = do
    keys ← lift (derive_session_keys p.primitives private peer_raw secret transcript)
    change (λ c. record c { session_keys = some keys })
    valid ← lift (verify_pairing_proof p.primitives keys.proof transcript "client" client_proof)
    if not valid then raise (handshake_error refusal) else do
      agent_proof ← lift (pairing_proof p.primitives keys.proof transcript "agent")
      send p type (some session_id) (("agent_proof", str agent_proof) ∷ [])
      change (set_state paired)

  complete_challenge : Value → Value → Client (Unit {0})
  unfolding needs prove decode_pubkey handshake_transcript
  complete_challenge peer_pubkey client_proof = do
    c ← reads (λ c. c)
    private ← needs c.own_private_key
    agent_pubkey ← needs c.agent_pubkey_b64
    secret ← needs c.pairing_secret
    token ← needs c.token
    session_id ← needs c.session_id
    peer_raw ← lift (decode_pubkey peer_pubkey)
    transcript ← lift (handshake_transcript session_id token agent_pubkey (shown peer_pubkey))
    change (λ c. record c { transcript = some transcript })
    prove "pair_complete" "client pairing proof is invalid" private peer_raw secret transcript
        session_id client_proof

  check_challenge : Envelope → Client (Unit {0})
  unfolding payload_value complete_challenge
  check_challenge envelope = do
    peer_pubkey ←
        payload_value (get envelope.payload "peer_pubkey")
          "pair_challenge missing payload.peer_pubkey"
    client_proof ←
        payload_value (get envelope.payload "client_proof")
          "pair_challenge missing payload.client_proof"
    own ← reads (λ c. c.session_id)
    if not (opt_eq envelope.session_id own)
        then raise (handshake_error "pair_challenge session_id does not match the pairing link")
        else complete_challenge peer_pubkey client_proof

  on_challenge : Envelope → Client (Unit {0})
  unfolding check_challenge
  on_challenge envelope =
      if envelope.type == "error"
      then raise (handshake_error "relay rejected pairing")
      else if not (envelope.type == "pair_challenge")
      then raise (handshake_error ("expected pair_challenge, got " ⧺ envelope.type))
      else check_challenge envelope

  unfoldable pub await_pair_challenge_and_complete : Client (Unit {0})
  unfolding recv on_challenge
  await_pair_challenge_and_complete = recv p >>= on_challenge

  unfoldable pub pair : Client (String × String)
  unfolding connect send_pair_init await_pair_init_ack await_pair_challenge_and_complete
  pair = do
    connect p
    ids ← send_pair_init none none
    await_pair_init_ack
    await_pair_challenge_and_complete
    change (set_state streaming)
    give ids

  -- send_resume_init, once the token and the secret are set
  announce_device : String → Client String
  unfolding generate_session_id generate_ephemeral_keypair send recv
  announce_device device_id = do
    session_id ← generate_session_id p
    change (λ c. record c { session_id = some session_id })
    pair ← generate_ephemeral_keypair p
    change (λ c. record c {
      own_private_key = some pair.0;
      agent_pubkey_b64 = some (encode_pubkey pair.1);
    })
    hostname ← reads (λ c. c.agent_hostname)
    send p "resume_init" none (
        ("device_id", str device_id)
        ∷ ("session_id", str session_id)
        ∷ ("agent_pubkey", str (encode_pubkey pair.1))
        ∷ ("agent_hostname", str hostname)
        ∷ [])
    ack ← recv p
    if not (ack.type == "resume_init_ack")
        then raise (handshake_error ("expected resume_init_ack, got " ⧺ ack.type))
        else give session_id

  unfoldable pub send_resume_init : String → String → Client String
  unfolding announce_device
  send_resume_init device_id device_secret = do
    change (λ c. record c {
      token = some ("resume:" ⧺ device_id);
      pairing_secret = some device_secret;
    })
    announce_device device_id

  pub expect_own : String → Client Envelope
  unfolding recv
  expect_own type = do
    envelope ← recv p
    own ← reads (λ c. c.session_id)
    if not (envelope.type == type) || not (opt_eq envelope.session_id own)
        then raise (handshake_error ("expected " ⧺ type ⧺ ", got " ⧺ envelope.type))
        else give envelope

  complete_resume : String → String → String → Payload → Client (Unit {0})
  unfolding filled filled_key prove decode_pubkey handshake_transcript
  complete_resume session_id agent_pubkey token payload = do
    c ← reads (λ c. c)
    private ← filled_key c.own_private_key
    secret ← filled c.pairing_secret
    transcript ← lift (
        handshake_transcript session_id token agent_pubkey
          (shown (get_or_empty payload "client_pubkey")))
    change (λ c. record c { transcript = some transcript })
    peer_raw ← lift (decode_pubkey (get_or_empty payload "client_pubkey"))
    prove "resume_complete" "saved client proof is invalid" private peer_raw secret transcript
        session_id (get_or_empty payload "client_proof")

  unfoldable pub await_resume_and_complete : Client (Unit {0})
  unfolding expect_own filled complete_resume
  await_resume_and_complete = do
    expect_own "resume_request"
    c ← reads (λ c. c)
    session_id ← filled c.session_id
    agent_pubkey ← filled c.agent_pubkey_b64
    token ← filled c.token
    send p "resume_challenge" (some session_id)
        (("agent_pubkey", str agent_pubkey) ∷ ("agent_hostname", str c.agent_hostname) ∷ [])
    proof ← expect_own "resume_proof"
    complete_resume session_id agent_pubkey token proof.payload
