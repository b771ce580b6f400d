-- ===== src/Agent/RelayClient/Traffic/Waiting.antt =====
-- Sending, and decrypting, leave the frames that wait in the inbox alone.
use termhop.Base.{ℕ, ◌≡◌, String, Option, none, some, List}
use termhop.Json.{Payload, Value}
use termhop.Base64.{Bytes}
use termhop.Relay.Envelope.{Envelope}
use termhop.Agent.Reply.{change}
use termhop.Agent.Reply.Keeps.{Keeps, reply_rules, Keeps-change}
use termhop.Agent.Crypto.{SessionKeys}
use termhop.Agent.RelayClient.{
  Platform, RelayClient, next_seq, tick, transmit, record_sent, send_numbered, send, send_with_seq,
}
use termhop.Agent.RelayClient.Sequence.{Keeps-asserts, Keeps-needs}
use termhop.Agent.RelayClient.Traffic.{
  send_encrypted, send_pty_data, send_session_close, open_payload, decrypt_payload,
}

-- The inbox holds these frames.
abbrev pub Waits : List String → RelayClient → Type 0
Waits frames c = c.inbox ≡ frames

module _ (frames : List String) where
  pub tick-Waits : Keeps (Waits frames) tick
  unfolding tick
  tick-Waits = record { at = λ c h. h }

  next_seq-Waits : Keeps (Waits frames) next_seq
  unfolding next_seq
  next_seq-Waits = record { at = λ c h. h }

  record_sent-Waits : (e : Envelope) → Keeps (Waits frames) (change (record_sent e))
  unfolding record_sent
  record_sent-Waits e = Keeps-change _ λ c h. h

  module _ (p : Platform) where
    transmit-Waits : (e : Envelope) → Keeps (Waits frames) (transmit p e)
    unfolding transmit
    transmit-Waits e = search (reply_rules, tick-Waits, record_sent-Waits)

    send_numbered-Waits :
        (type : String) (s : Option String) (body : Payload) (n : ℕ)
        → Keeps (Waits frames) (send_numbered p type s body n)
    unfolding send_numbered
    send_numbered-Waits type s body n = search (reply_rules, tick-Waits, transmit-Waits)

    pub send-Waits :
        (type : String) (s : Option String) (body : Payload)
        → Keeps (Waits frames) (send p type s body)
    unfolding send
    send-Waits type s body =
        search (reply_rules, Keeps-asserts, next_seq-Waits, send_numbered-Waits) depth 10

    send_with_seq-Waits :
        (type : String) (s : Option String) (body : Payload) (n : ℕ)
        → Keeps (Waits frames) (send_with_seq p type s body n)
    unfolding send_with_seq
    send_with_seq-Waits type s body n =
        search (reply_rules, Keeps-asserts, send_numbered-Waits) depth 10

    pub send_pty_data-Waits : (plaintext : Bytes) → Keeps (Waits frames) (send_pty_data p plaintext)
    unfolding send_pty_data send_encrypted
    send_pty_data-Waits plaintext =
        search (reply_rules, Keeps-needs, next_seq-Waits, tick-Waits, send_with_seq-Waits) depth 16

    pub send_session_close-Waits :
        (reason : String) → Keeps (Waits frames) (send_session_close p reason)
    unfolding send_session_close
    send_session_close-Waits reason = search (reply_rules, send-Waits)

    open_payload-Waits :
        (keys : SessionKeys) (s : String) (e : Envelope) (n t : Option Value)
        → Keeps (Waits frames) (open_payload p keys s e n t)
    unfolding open_payload
    open_payload-Waits keys s e none t = search reply_rules
    open_payload-Waits keys s e (some n) none = search reply_rules
    open_payload-Waits keys s e (some n) (some t) = search reply_rules depth 12

    pub decrypt_payload-Waits : (e : Envelope) → Keeps (Waits frames) (decrypt_payload p e)
    unfolding decrypt_payload
    decrypt_payload-Waits e = search (reply_rules, Keeps-needs, open_payload-Waits) depth 12
