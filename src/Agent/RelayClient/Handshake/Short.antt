-- ===== src/Agent/RelayClient/Handshake/Short.antt =====
-- Resuming takes frames from the inbox, and brings none.
use termhop.Base.{
  ℕ, ◌<◌, ◌≡◌, ap, refl, sym, subst, inl, inr, String, Option, List, [], ◌∷◌, arith, length,
}
use termhop.Json.{Value, Payload}
use termhop.Base64.{Bytes}
use termhop.Agent.Reply.{reads, ◌>>=◌}
use termhop.Agent.Reply.Keeps.{Keeps, reply_rules}
use termhop.Agent.RelayClient.{
  Platform, RelayClient, Client, take_frame, parse_frame, tick, recv, send, connect,
  generate_session_id, generate_ephemeral_keypair,
}
use termhop.Agent.RelayClient.Receive.{asserts_at, parse_frame-Parsed}
use termhop.Agent.RelayClient.Traffic.Waiting.{Waits, tick-Waits, send-Waits}
use termhop.Agent.RelayClient.Handshake.{
  prove, send_resume_init, announce_device, expect_own, complete_resume, await_resume_and_complete,
}
use termhop.Agent.RelayClient.Handshake.Sequence.{filled-Keeps, filled_key-Keeps}

-- Fewer frames than this wait.
abbrev pub Short : ℕ → RelayClient → Type 0
Short n c = length c.inbox < n

module _ (n : ℕ) where
  -- What leaves the inbox alone leaves it short.
  Waits-Short :
      {A : Type 0} (m : Client A)
      → ((frames : List String) → Keeps (Waits frames) m)
      → Keeps (Short n) m
  Waits-Short m k = record {
    at = λ c h. subst (λ (l : List String). length l < n) (sym ((k c.inbox).at c refl)) h;
  }

  tick-Short : Keeps (Short n) tick
  tick-Short = Waits-Short tick tick-Waits

  module _ (p : Platform) where
    take_frame-Short :
        (frames : List String) (c : RelayClient)
        → c.inbox ≡ frames
        → Short n c
        → Short n ((take_frame frames >>= λ raw. parse_frame (p.json_loads raw)) c).1
    unfolding take_frame ◌>>=◌
    take_frame-Short [] c from h = h
    take_frame-Short (raw ∷ frames) c from h =
        let shorter : length frames < n = omega (arith, ap length from, h) in
        elim (parse_frame-Parsed (p.json_loads raw) (record c { inbox = frames })) [
          | inl (e, q) ↦ rw q shorter
          | inr (frame, q) ↦ rw q shorter
        ]

    recv-Short : Keeps (Short n) (recv p)
    unfolding recv reads ◌>>=◌
    recv-Short = record {
      at = λ c h.
          asserts_at (λ r. Short n r.1) c.ws _ c (λ _. take_frame-Short c.inbox c refl h) (λ e. h);
    }

    pub connect-Short : Keeps (Short n) (connect p)
    unfolding connect
    connect-Short = search (reply_rules, tick-Short) depth 10

    send-Short :
        (type : String) (s : Option String) (body : Payload) → Keeps (Short n) (send p type s body)
    send-Short type s body =
        Waits-Short (send p type s body) λ frames. send-Waits frames p type s body

    generate_session_id-Short : Keeps (Short n) (generate_session_id p)
    unfolding generate_session_id
    generate_session_id-Short = search (reply_rules, tick-Short)

    generate_ephemeral_keypair-Short : Keeps (Short n) (generate_ephemeral_keypair p)
    unfolding generate_ephemeral_keypair
    generate_ephemeral_keypair-Short = search (reply_rules, tick-Short)

    pub send_resume_init-Short :
        (device secret : String) → Keeps (Short n) (send_resume_init p device secret)
    unfolding send_resume_init announce_device
    send_resume_init-Short device secret =
        search
          (
            reply_rules, generate_session_id-Short, generate_ephemeral_keypair-Short, recv-Short,
            send-Short,
          )
          depth 20

    prove-Short :
        (type refusal : String) (private peer_raw : Bytes) (secret : String) (transcript : Bytes)
        (session_id : String) (proof : Value)
        → Keeps (Short n) (prove p type refusal private peer_raw secret transcript session_id proof)
    unfolding prove
    prove-Short type refusal private peer_raw secret transcript session_id proof =
        search (reply_rules, send-Short) depth 16

    expect_own-Short : (type : String) → Keeps (Short n) (expect_own p type)
    unfolding expect_own
    expect_own-Short type = search (reply_rules, recv-Short) depth 10

    complete_resume-Short :
        (session agent token : String) (payload : Payload)
        → Keeps (Short n) (complete_resume p session agent token payload)
    unfolding complete_resume
    complete_resume-Short session agent token payload =
        search (reply_rules, filled-Keeps, filled_key-Keeps, prove-Short) depth 20

    pub await_resume-Short : Keeps (Short n) (await_resume_and_complete p)
    unfolding await_resume_and_complete
    await_resume-Short =
        search (reply_rules, filled-Keeps, expect_own-Short, complete_resume-Short, send-Short)
          depth 20
