-- ===== src/Agent/PumpTests.antt =====
-- A paired client and its terminal, over a few frames.
use termhop.Base.{◌≡◌, refl, Bool, true, false, some, List, [], ◌∷◌, String, arith, decimal}
use termhop.Dict.{get, put}
use termhop.Json.{truthy}
use termhop.Base64.{b64encode, b64decode}
use termhop.Relay.Envelope.{model_validate}
use termhop.Agent.Reply.{◌>>=◌}
use termhop.Agent.Crypto.{encode_ascii, message_aad, decrypt, encrypt}
use termhop.Agent.RelayClient.{parse_frame}
use termhop.Agent.RelayClient.Traffic.{decrypt_payload}
use termhop.Agent.Samples.{test_platform, test_client}
use termhop.Agent.PtyBackend.{Proc, Backend}
use termhop.Agent.PtyBackend.Sizes.{Sized}
use termhop.Agent.SessionPump.{Session, run_pty_session}
use termhop.Agent.SessionPump.Ending.{Gives, run_pty_session-Gives}
use termhop.Agent.SessionPump.Inputs.{Types, inputs, pump_relay_to_pty-Types}
use termhop.Agent.SessionPump.Sizes.{run_pty_session-Sized}

abbrev test_proc : Proc
test_proc = record {
  output = (36 ∷ []) ∷ [];
  written = [];
  sizes = [];
  is_open = true;
  running = true;
  exit_code = 0;
}

abbrev test_backend : Backend
test_backend = record { proc = some test_proc }

abbrev test_frames : List String
test_frames = "size" ∷ "input" ∷ "close" ∷ "input" ∷ []

abbrev test_session : Session
test_session = record {
  client = record test_client { inbox = test_frames };
  backend = test_backend;
}

-- Four frames wait, and the fifth turn ends the session at the latest.
abbrev test_turns : List Bool
test_turns = true ∷ false ∷ true ∷ false ∷ true ∷ true ∷ true ∷ []

run_pty_session-Gives_example : Gives (run_pty_session test_platform true test_turns test_session)
run_pty_session-Gives_example =
    run_pty_session-Gives test_platform true test_turns test_session (omega arith)

test_inputs : inputs test_platform test_frames test_session.client ≡ (104 ∷ 105 ∷ []) ∷ []
unfolding inputs parse_frame model_validate get put truthy decrypt_payload ◌>>=◌ message_aad
    encode_ascii decimal decrypt b64decode b64encode encrypt
test_inputs = refl

pump_relay_to_pty-Types_example :
    Types test_platform 5 test_session (inputs test_platform test_frames test_session.client) []
pump_relay_to_pty-Types_example =
    pump_relay_to_pty-Types test_platform 5 test_frames test_session [] (omega arith) refl refl
      (record { proc = test_proc; proc_is = refl; is_open = refl; written_is = refl })

abbrev ended : Gives (run_pty_session test_platform true test_turns test_session)
ended = run_pty_session-Gives test_platform true test_turns test_session (omega arith)

run_pty_session-Sized_example : Sized ended.0.1.backend
run_pty_session-Sized_example =
    run_pty_session-Sized test_platform true test_turns test_session ended.0 tt ended.1
