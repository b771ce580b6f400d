-- ===== src/Agent/RelayClient/Traffic/Sequence.antt =====
-- Encrypted traffic is numbered upwards.
use termhop.Base.{String, Option, none, some}
use termhop.Json.{Value, Items}
use termhop.Base64.{Bytes}
use termhop.Relay.Envelope.{Envelope}
use termhop.Agent.Reply.Keeps.{Keeps, reply_rules, Keeps-bind, Keeps-reads, Keeps-lift}
use termhop.Agent.Crypto.{SessionKeys}
use termhop.Agent.RelayClient.{Platform}
use termhop.Agent.RelayClient.Sequence.{
  Ordered, Reserved-IsQuiet, Keeps-needs, Keeps-tick, next_seq-Keeps, Numbered-bind,
  send_with_seq-Numbered, send-Keeps,
}
use termhop.Agent.RelayClient.Traffic.{
  send_encrypted, send_device_credential, open_payload, decrypt_payload, send_session_close,
  send_session_list,
}

module _ (p : Platform) where
  pub send_encrypted-Keeps :
      (type : String) (plaintext : Bytes) → Keeps Ordered (send_encrypted p type plaintext)
  unfolding send_encrypted
  send_encrypted-Keeps type plaintext = Keeps-bind _ _ (Keeps-reads _) λ c.
      Keeps-bind _ _ (Keeps-needs c.session_keys) λ keys.
        Keeps-bind _ _ (Keeps-needs c.session_id) λ session_id. next_seq-Keeps _ λ n.
          Numbered-bind n _ _ (Keeps-lift _) λ aad.
            Numbered-bind n _ _ (Keeps-tick (Reserved-IsQuiet n))
              λ k. send_with_seq-Numbered n p type (some session_id) _

  pub send_device_credential-Keeps :
      (device_id device_secret : String)
      → Keeps Ordered (send_device_credential p device_id device_secret)
  unfolding send_device_credential
  send_device_credential-Keeps device_id device_secret = send_encrypted-Keeps "device_credential" _

  open_payload-Keeps :
      (keys : SessionKeys) (s : String) (e : Envelope) (n t : Option Value)
      → Keeps Ordered (open_payload p keys s e n t)
  unfolding open_payload
  open_payload-Keeps keys s e none t = search reply_rules
  open_payload-Keeps keys s e (some n) none = search reply_rules
  open_payload-Keeps keys s e (some n) (some t) = search reply_rules depth 12

  pub decrypt_payload-Keeps : (e : Envelope) → Keeps Ordered (decrypt_payload p e)
  unfolding decrypt_payload
  decrypt_payload-Keeps e = search (reply_rules, Keeps-needs, open_payload-Keeps) depth 12

  pub send_session_close-Keeps : (reason : String) → Keeps Ordered (send_session_close p reason)
  unfolding send_session_close
  send_session_close-Keeps reason = search (reply_rules, send-Keeps)

  pub send_session_list-Keeps : (sessions : Items) → Keeps Ordered (send_session_list p sessions)
  unfolding send_session_list
  send_session_list-Keeps sessions = search (reply_rules, send-Keeps)
