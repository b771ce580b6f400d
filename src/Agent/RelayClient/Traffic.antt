-- ===== src/Agent/RelayClient/Traffic.antt =====
-- agent/common/relay_client.py: the encrypted traffic of a paired client.
pub mod Sequence
pub mod Replay
pub mod Waiting
use termhop.Base.{
  ℕ, String, ◌==◌, Bool, true, false, not, ◌&&◌, ◌||◌, Option, none, some, List, [], ◌∷◌,
  if◌then◌else◌, opt_eq, leb, ◌⧺◌, zero, suc,
}
use termhop.Dict.{get}
use termhop.Json.{Value, str, arr, Items, nil, cons, truthy}
use termhop.Base64.{Bytes}
use termhop.Relay.Envelope.{Envelope}
use termhop.Agent.Reply.{
  Reply, answer, failed, Fault, crypto_error, handshake_error, Command, give, raise, reads, change,
  lift, ◌>>=◌, ◌>>◌,
}
use termhop.Agent.Crypto.{SessionKeys, message_aad, encrypt, decrypt, nonce_len}
use termhop.Agent.RelayClient.{
  Platform, RelayClient, Client, needs, next_seq, tick, send, send_with_seq, recv,
}

-- sessions[:64]
abbrev first_items : ℕ → Items → Items
first_items zero vs = nil
first_items (suc n) nil = nil
first_items (suc n) (cons v vs) = cons v (first_items n vs)

-- payload.get(key), where it is true
abbrev pub present : Option Value → Option Value
present none = none
present (some v) = if truthy v then some v else none

-- A CryptoError of `decrypt` becomes a HandshakeError.
as_handshake_error : Reply Bytes → Reply Bytes
as_handshake_error (answer plaintext) = answer plaintext
as_handshake_error (failed (crypto_error _)) =
    failed (handshake_error "encrypted message authentication failed")
as_handshake_error (failed e) = failed e

module _ (p : Platform) where
  unfoldable pub send_encrypted : String → Bytes → Client (Unit {0})
  unfolding needs next_seq tick send_with_seq encrypt message_aad
  send_encrypted type plaintext = do
    c ← reads (λ c. c)
    keys ← needs c.session_keys
    session_id ← needs c.session_id
    seq ← next_seq
    aad ← lift (message_aad type session_id seq "agent_to_client")
    n ← tick
    let sealed = encrypt p.primitives (p.random n nonce_len) keys.agent_to_client plaintext aad
    send_with_seq p type (some session_id)
        (("nonce", str sealed.0) ∷ ("ciphertext", str sealed.1) ∷ []) seq

  unfoldable pub send_pty_data : Bytes → Client (Unit {0})
  unfolding send_encrypted
  send_pty_data plaintext = send_encrypted "pty_data" plaintext

  unfoldable pub send_device_credential : String → String → Client (Unit {0})
  unfolding send_encrypted
  send_device_credential device_id device_secret =
      send_encrypted "device_credential"
        (p.json_dumps (("device_id", str device_id) ∷ ("device_secret", str device_secret) ∷ []))

  unfoldable pub recv_decrypted : Client Envelope
  unfolding recv
  recv_decrypted = recv p

  open_payload : SessionKeys → String → Envelope → Option Value → Option Value → Client Bytes
  unfolding as_handshake_error message_aad decrypt
  open_payload keys session_id envelope (some nonce_b64) (some ciphertext_b64) = do
    aad ← lift (message_aad envelope.type session_id envelope.seq "client_to_agent")
    plaintext ← lift (
        as_handshake_error (decrypt p.primitives keys.client_to_agent nonce_b64 ciphertext_b64 aad))
    change (λ c. record c { last_peer_encrypted_seq = envelope.seq })
    give plaintext
  open_payload keys session_id envelope _ _ =
      raise (handshake_error (envelope.type ⧺ " missing nonce/ciphertext"))

  unfoldable pub decrypt_payload : Envelope → Client Bytes
  unfolding needs open_payload
  decrypt_payload envelope = do
    c ← reads (λ c. c)
    keys ← needs c.session_keys
    session_id ← needs c.session_id
    if not (opt_eq envelope.session_id (some session_id))
        then raise (handshake_error "encrypted envelope session_id does not match this connection")
        else if leb envelope.seq c.last_peer_encrypted_seq
        then raise (handshake_error "replayed or out-of-order encrypted envelope")
        else open_payload keys session_id envelope (present (get envelope.payload "nonce"))
            (present (get envelope.payload "ciphertext"))

  unfoldable pub send_session_close : String → Client (Unit {0})
  unfolding send
  send_session_close reason = do
    c ← reads (λ c. c)
    send p "session_close" c.session_id (("reason", str reason) ∷ [])

  unfoldable pub send_session_list : Items → Client (Unit {0})
  unfolding send
  send_session_list sessions = do
    c ← reads (λ c. c)
    send p "session_list" c.session_id (("sessions", arr (first_items 64 sessions)) ∷ [])
