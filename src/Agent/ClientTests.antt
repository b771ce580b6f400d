-- ===== src/Agent/ClientTests.antt =====
-- The relay client on concrete frames, over the toy primitives.
use termhop.Agent.RelayClient.{RelayClient}
use termhop.Agent.RelayClient.Handshake.{await_resume_and_complete}
use termhop.Agent.RelayClient.Handshake.Resume
use termhop.Base.{◌≡◌, refl, ◌⊎◌, [], ◌∷◌, arith, codes, decimal}
use termhop.Json.{truthy}
use termhop.Dict.{get, put}
use termhop.Base64.{b64encode, b64decode}
use termhop.Relay.Envelope.{model_validate}
use termhop.Agent.Reply.{answer, ◌>>=◌}
use termhop.Agent.Crypto.{encode_ascii, message_aad, aad_text, decode_pairing_secret}
use termhop.Agent.Samples.{
  resume_platform, toy_primitives-IsAead, test_platform, test_client, test_keys, input_nonce,
  test_input,
}
use termhop.Agent.RelayClient.Calls.{connects, encrypts, ends, perform_all, perform_all-Ordered}
use termhop.Agent.RelayClient.Sequence.{Ordered}
use termhop.Agent.RelayClient.Traffic.{decrypt_payload}
use termhop.Agent.RelayClient.Traffic.Replay.{
  accepted, Increasing, accepted-Increasing, decrypt_payload-sealed,
}
use termhop.Agent.RelayClient.Handshake.{await_pair_challenge_and_complete}
use termhop.Agent.RelayClient.Handshake.Proofs.{Silent}
use termhop.Agent.RelayClient.Handshake.Challenge.{Pairs, await_pair_challenge-Pairs}

await_pair_challenge-Pairs_example :
    Silent test_client (await_pair_challenge_and_complete test_platform test_client)
    ⊎ Pairs test_platform test_client (await_pair_challenge_and_complete test_platform test_client)
await_pair_challenge-Pairs_example = await_pair_challenge-Pairs test_platform test_client

test_pairs : (await_pair_challenge_and_complete test_platform test_client).0 ≡ answer tt
unfolding await_pair_challenge_and_complete ◌>>=◌ model_validate put get truthy b64decode
    decode_pairing_secret b64encode
test_pairs = refl

perform_all-Ordered_example : Ordered (
    perform_all test_platform
      (connects ∷ encrypts "pty_data" (104 ∷ []) ∷ ends "" ∷ encrypts "pty_data" [] ∷ [])
      test_client)
perform_all-Ordered_example =
    perform_all-Ordered test_platform
      (connects ∷ encrypts "pty_data" (104 ∷ []) ∷ ends "" ∷ encrypts "pty_data" [] ∷ [])
      test_client tt

input_aad :
    message_aad "pty_input" "sess-01" 7 "client_to_agent"
    ≡ answer (codes (aad_text "pty_input" "sess-01" 7 "client_to_agent"))
unfolding message_aad encode_ascii decimal
input_aad = refl

accepted-Increasing_example : Increasing 3 (
    accepted test_platform
      (test_input 7 ∷ test_input 7 ∷ test_input 5 ∷ test_input 8 ∷ [])
      test_client)
accepted-Increasing_example =
    accepted-Increasing test_platform
      (test_input 7 ∷ test_input 7 ∷ test_input 5 ∷ test_input 8 ∷ []) test_client

decrypt_payload-sealed_example :
    decrypt_payload test_platform (test_input 7) test_client
    ≡ (answer (104 ∷ 105 ∷ []), record test_client { last_peer_encrypted_seq = 7 })
decrypt_payload-sealed_example =
    decrypt_payload-sealed test_platform toy_primitives-IsAead test_client test_keys "sess-01"
      "pty_input" 7 input_nonce (codes (aad_text "pty_input" "sess-01" 7 "client_to_agent"))
      (104 ∷ 105 ∷ []) refl refl (omega arith) input_aad (ground arith) refl (ground arith)

abbrev resumed_client : RelayClient
resumed_client = record test_client { inbox = "resume" ∷ "proof" ∷ [] }

-- The saved client is let in.
resumes : (await_resume_and_complete resume_platform resumed_client).0 ≡ answer tt
unfolding await_resume_and_complete ◌>>=◌ get put truthy model_validate b64decode
    decode_pairing_secret b64encode
resumes = refl

await_resume-Ends_example :
    Resume.Ends resume_platform resumed_client
      (await_resume_and_complete resume_platform resumed_client)
await_resume-Ends_example = Resume.await_resume-Ends resume_platform resumed_client
