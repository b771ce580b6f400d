-- ===== src/Agent/Samples.antt =====
-- A toy instance of the agent's primitives, whose seal is the text itself after a tag of 16 zeros, and a
-- client on a relay that delivers a few frames.
use termhop.Base.{
  ℕ, String, ◌==◌, zero, suc, refl, codes, true, none, some, if◌then◌else◌, [], ◌∷◌, ◌++◌, take,
  drop, arith,
}
use termhop.Base64.{Bytes}
use termhop.Json.{Value, Fields, str, int, pos, obj, field, end}
use termhop.Relay.Envelope.{Envelope}
use termhop.Agent.Crypto.{Primitives, SessionKeys, encrypt, aad_text}
use termhop.Agent.RelayClient.{Platform, RelayClient, awaiting_pair_challenge}
use termhop.Agent.RelayClient.Traffic.Replay.{sealed_envelope}
use termhop.Agent.Crypto.Sealed.{IsAead}

abbrev zeros : ℕ → Bytes
zeros zero = []
zeros (suc n) = 0 ∷ zeros n

abbrev pub toy_primitives : Primitives
toy_primitives = record {
  scalarmult = λ a b. some (take 32 (a ++ b));
  scalarmult_base = λ a. a;
  sha256 = λ text. take 32 (text ++ zeros 32);
  hmac_sha256 = λ key text. take 32 (key ++ text);
  hkdf = λ salt info material. salt ++ material ++ zeros 32;
  aead_encrypt = λ text aad nonce key. zeros 16 ++ text;
  aead_decrypt = λ sealed aad nonce key. some (drop 16 sealed);
}

pub toy_primitives-IsAead : IsAead toy_primitives
toy_primitives-IsAead = record {
  sealed_bytes = λ text aad nonce key h. ground (arith, h);
  sealed_length = λ text aad nonce key. omega arith;
  opens = λ text aad nonce key h. refl;
}

abbrev pub test_key : String
test_key = "AAAAAAAAAAAAAAAAAAAAAAAAAAAAAAAAAAAAAAAAAAA="

-- Frames of the relay, decoded
abbrev pub test_frame : String → Fields → Value
test_frame type payload = obj (
    field "v" (int (pos 2)) (
      field "type" (str type) (
        field "session_id" (str "sess-01") (
          field "seq" (int (pos 4))
            (field "ts" (int (pos 1)) (field "payload" (obj payload) end))))))

abbrev pub test_challenge : Value
test_challenge =
    test_frame "pair_challenge"
      (field "peer_pubkey" (str test_key) (field "client_proof" (str test_key) end))

abbrev pub input_nonce : Bytes
input_nonce = codes "abcdefghijklmnopqrstuvwx"

-- "hi", as the peer seals it under this number
abbrev pub test_sealed : ℕ → String × String
test_sealed seq =
    encrypt toy_primitives input_nonce [] (104 ∷ 105 ∷ [])
      (codes (aad_text "pty_input" "sess-01" seq "client_to_agent"))

abbrev pub test_platform : Platform
test_platform = record {
  primitives = toy_primitives;
  token_urlsafe = λ k n. "token";
  token_hex = λ k n. "00";
  random = λ k n. codes "abcdefghijklmnopqrstuvwxyzabcdef";
  time_ms = λ k. k;
  up = λ k. true;
  json_loads = λ s.
      if s == "challenge"
      then some test_challenge
      else if s == "size"
      then some (
          test_frame "session_resize"
            (field "rows" (int (pos 24)) (field "cols" (int (pos 80)) end)))
      else if s == "close"
      then some (test_frame "session_close" end)
      else if s == "input"
      then some (
          test_frame "pty_input" (
            field "nonce" (str (test_sealed 4).0) (field "ciphertext" (str (test_sealed 4).1) end)))
      else none;
  json_dumps = λ d. [];
  text_of = λ v. "";
}

abbrev pub test_keys : SessionKeys
test_keys = record { agent_to_client = []; client_to_agent = []; proof = [] }

abbrev pub test_client : RelayClient
test_client = record {
  relay_url = "wss://relay.example.com";
  agent_hostname = "host";
  ws = true;
  seq = 1;
  state = awaiting_pair_challenge;
  token = some "token";
  pairing_secret = some "AAAAAAAAAAAAAAAAAAAAAAAAAAAAAAAAAAAAAAAAAAA";
  session_id = some "sess-01";
  own_private_key = some (codes "abcdefghijklmnopqrstuvwxyzabcdef");
  agent_pubkey_b64 = some test_key;
  session_keys = some test_keys;
  transcript = none;
  last_peer_encrypted_seq = 3;
  inbox = "challenge" ∷ [];
  sent = [];
  moment = 0;
}

abbrev pub test_input : ℕ → Envelope
test_input seq = sealed_envelope "pty_input" "sess-01" seq (test_sealed seq)

-- A relay on which a saved client resumes; with these primitives the proof is all zeros, as the key is.
abbrev pub resume_platform : Platform
resume_platform = record test_platform {
  token_hex = λ k n. "01";
  json_loads = λ s.
      if s == "resume_ack"
      then some (test_frame "resume_init_ack" end)
      else if s == "resume"
      then some (test_frame "resume_request" end)
      else if s == "proof"
      then some (
          test_frame "resume_proof"
            (field "client_pubkey" (str test_key) (field "client_proof" (str test_key) end)))
      else none;
}
