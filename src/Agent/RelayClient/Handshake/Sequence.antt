-- ===== src/Agent/RelayClient/Handshake/Sequence.antt =====
-- Pairing and resuming number what they send upwards.
use termhop.Base.{String, Option, none, some, [], ◌∷◌, arith}
use termhop.Json.{Value, Payload}
use termhop.Base64.{Bytes}
use termhop.Relay.Envelope.{Envelope}
use termhop.Agent.Reply.Keeps.{Keeps, reply_rules}
use termhop.Agent.RelayClient.{Platform, RelayClient}
use termhop.Agent.RelayClient.Sequence.{
  Ordered, Ordered-IsQuiet, Keeps-needs, recv-Keeps, send-Keeps, connect-Keeps,
  generate_pairing_token-Keeps, generate_pairing_secret-Keeps, generate_session_id-Keeps,
  generate_ephemeral_keypair-Keeps,
}
use termhop.Agent.RelayClient.Handshake.{
  payload_value, filled, filled_key, draw_secret, send_pair_init, await_pair_init_ack, prove,
  complete_challenge, check_challenge, on_challenge, await_pair_challenge_and_complete, pair,
  send_resume_init, announce_device, expect_own, complete_resume, await_resume_and_complete,
}

module _ {P : RelayClient → Type 0} where
  payload_value-Keeps : (v : Option Value) (message : String) → Keeps P (payload_value v message)
  unfolding payload_value
  payload_value-Keeps none message = search reply_rules
  payload_value-Keeps (some v) message = search reply_rules

  pub filled-Keeps : (s : Option String) → Keeps P (filled s)
  unfolding filled
  filled-Keeps none = record { at = λ c h. h }
  filled-Keeps (some s) = record { at = λ c h. ground (arith, h) }

  pub filled_key-Keeps : (k : Option Bytes) → Keeps P (filled_key k)
  unfolding filled_key
  filled_key-Keeps none = record { at = λ c h. h }
  filled_key-Keeps (some []) = record { at = λ c h. h }
  filled_key-Keeps (some (b ∷ bs)) = record { at = λ c h. h }

module _ (p : Platform) where
  draw_secret-Keeps : (given : Option String) → Keeps Ordered (draw_secret p given)
  unfolding draw_secret
  draw_secret-Keeps given = search (reply_rules, generate_pairing_secret-Keeps Ordered-IsQuiet)

  pub send_pair_init-Keeps :
      (secret device : Option String) → Keeps Ordered (send_pair_init p secret device)
  unfolding send_pair_init
  send_pair_init-Keeps secret device =
      search
        (
          reply_rules,
          draw_secret-Keeps,
          generate_pairing_token-Keeps Ordered-IsQuiet,
          generate_session_id-Keeps Ordered-IsQuiet,
          generate_ephemeral_keypair-Keeps Ordered-IsQuiet,
          send-Keeps,
        )
        depth 20

  pub await_pair_init_ack-Keeps : Keeps Ordered (await_pair_init_ack p)
  unfolding await_pair_init_ack
  await_pair_init_ack-Keeps = search (reply_rules, recv-Keeps Ordered-IsQuiet) depth 10

  prove-Keeps :
      (type refusal : String) (private peer_raw : Bytes) (secret : String) (transcript : Bytes)
      (session_id : String) (proof : Value)
      → Keeps Ordered (prove p type refusal private peer_raw secret transcript session_id proof)
  unfolding prove
  prove-Keeps type refusal private peer_raw secret transcript session_id proof =
      search (reply_rules, send-Keeps) depth 16

  complete_challenge-Keeps : (peer proof : Value) → Keeps Ordered (complete_challenge p peer proof)
  unfolding complete_challenge
  complete_challenge-Keeps peer proof = search (reply_rules, Keeps-needs, prove-Keeps) depth 20

  check_challenge-Keeps : (e : Envelope) → Keeps Ordered (check_challenge p e)
  unfolding check_challenge
  check_challenge-Keeps e =
      search (reply_rules, payload_value-Keeps, complete_challenge-Keeps) depth 12

  on_challenge-Keeps : (e : Envelope) → Keeps Ordered (on_challenge p e)
  unfolding on_challenge
  on_challenge-Keeps e = search (reply_rules, check_challenge-Keeps) depth 8

  pub await_pair_challenge-Keeps : Keeps Ordered (await_pair_challenge_and_complete p)
  unfolding await_pair_challenge_and_complete
  await_pair_challenge-Keeps = search (reply_rules, recv-Keeps Ordered-IsQuiet, on_challenge-Keeps)

  pub pair-Keeps : Keeps Ordered (pair p)
  unfolding pair
  pair-Keeps =
      search
        (
          reply_rules, connect-Keeps, send_pair_init-Keeps, await_pair_init_ack-Keeps,
          await_pair_challenge-Keeps,
        )
        depth 16

  pub send_resume_init-Keeps :
      (device secret : String) → Keeps Ordered (send_resume_init p device secret)
  unfolding send_resume_init announce_device
  send_resume_init-Keeps device secret =
      search
        (
          reply_rules,
          generate_session_id-Keeps Ordered-IsQuiet,
          generate_ephemeral_keypair-Keeps Ordered-IsQuiet,
          recv-Keeps Ordered-IsQuiet,
          send-Keeps,
        )
        depth 20

  expect_own-Keeps : (type : String) → Keeps Ordered (expect_own p type)
  unfolding expect_own
  expect_own-Keeps type = search (reply_rules, recv-Keeps Ordered-IsQuiet) depth 10

  complete_resume-Keeps :
      (session agent token : String) (payload : Payload)
      → Keeps Ordered (complete_resume p session agent token payload)
  unfolding complete_resume
  complete_resume-Keeps session agent token payload =
      search (reply_rules, filled-Keeps, filled_key-Keeps, prove-Keeps) depth 20

  pub await_resume-Keeps : Keeps Ordered (await_resume_and_complete p)
  unfolding await_resume_and_complete
  await_resume-Keeps =
      search (reply_rules, filled-Keeps, expect_own-Keeps, complete_resume-Keeps, send-Keeps) depth
        20
