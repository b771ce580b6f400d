-- ===== src/Agent/CliTests.antt =====
-- An agent that pairs and streams, on a relay that delivers a few frames.
use termhop.Base.{
  decimal, ◌≡◌, refl, ◌==◌, true, false, none, some, List, [], ◌∷◌, arith, if◌then◌else◌,
}
use termhop.Json.{end, truthy}
use termhop.Dict.{get, put}
use termhop.Base64.{b64encode, b64decode}
use termhop.Relay.Envelope.{model_validate}
use termhop.Agent.Reply.{answer, ◌>>=◌}
use termhop.Agent.Crypto.{decode_pairing_secret, encode_pubkey}
use termhop.Agent.Config.{AgentConfig}
use termhop.Agent.PtyBackend.{Proc, new_backend}
use termhop.Agent.RelayClient.{Platform}
use termhop.Agent.SessionManager.{SessionManager, validate_text, is_session_id}
use termhop.Agent.SessionPump.{Session}
use termhop.Agent.Samples.{resume_platform, test_platform, test_client, test_frame}
use termhop.Agent.Cli.{World, Agent}
use termhop.Agent.Cli.Persistent.{Visit, attempt, run_persistent_session}
use termhop.Agent.Cli.Persistent.Proved.{Attempted, attempt-Attempted}
use termhop.Agent.Cli.Persistent.Ends.{
  Ending, child_ends_by, next_visit, Finishes, run_persistent_session-Finishes,
}
use termhop.Agent.Cli.Pairing.{connect_and_start, streams}
use termhop.Agent.Cli.Pairing.Saved.{Ends, connect_and_start-Ends}

abbrev cli_platform : Platform
cli_platform = record test_platform {
  token_urlsafe = λ k n. "AAAAAAAAAAAAAAAAAAAAAAAAAAAAAAAAAAAAAAAAAAA";
  token_hex = λ k n. "01";
  json_loads =
      λ s. if s == "ack" then some (test_frame "pair_init_ack" end) else test_platform.json_loads s;
}

abbrev shell : Proc
shell = record {
  output = (36 ∷ []) ∷ [];
  written = [];
  sizes = [];
  is_open = true;
  running = true;
  exit_code = 0;
}

abbrev manager : SessionManager
manager = record { manifest = none; lease_seconds = 300; sessions = []; leases = [] }

abbrev world : World
world = record {
  platform = cli_platform;
  urlparse = λ url. record {
    scheme = "wss";
    hostname = some "relay.example.com";
    username = none;
    password = none;
    query = "";
    fragment = "";
  };
  hostname = "host";
  shell_cwd = "/home/me";
  child = some shell;
  manager = manager;
  io = λ step. record {
    time_s = 10;
    monotonic_ms = 1000;
    token_hex = "0123456789abcdef0123456789abcdef";
    token_urlsafe = "lease";
    disk_up = true;
  };
}

abbrev config : AgentConfig
config = record {
  relay_url = some "wss://relay.example.com";
  device_id = none;
  device_secret = none;
}

abbrev agent : Agent
agent = record {
  session = record {
    client = record test_client { inbox = "ack" ∷ "challenge" ∷ [] };
    backend = new_backend;
  };
  replaced = false;
  settings = record { config = config; file = none };
  manager = manager;
}

-- A client pairs, and the shell starts.
starts :
    (connect_and_start world "Terminal session" agent).0
    ≡ answer (streams "ts-0123456789abcdef0123456789abcdef")
unfolding connect_and_start ◌>>=◌ get put truthy model_validate b64decode decode_pairing_secret
    b64encode encode_pubkey decimal validate_text is_session_id
starts = refl

connect_and_start-Ends_example :
    Ends world "Terminal session" agent (connect_and_start world "Terminal session" agent)
connect_and_start-Ends_example = connect_and_start-Ends world "Terminal session" agent

abbrev session : Session
session = record {
  client = record test_client { inbox = "close" ∷ [] };
  backend = record { proc = some shell };
}

-- The browser closes, and the first attempt brings no client; the shell ends in the second one, or in the
-- second visit.
abbrev visits : List Visit
visits =
    record {
      turns = true ∷ true ∷ true ∷ [];
      child_ends = false;
      attempts =
          record { child_ends = false; frames = [] }
          ∷ record { child_ends = true; frames = [] }
          ∷ [];
    }
    ∷ record { turns = true ∷ true ∷ true ∷ []; child_ends = true; attempts = [] }
    ∷ []

visits-Ending : Ending 2 visits
visits-Ending = next_visit (omega arith) (omega arith) refl (child_ends_by (omega arith) refl)

run_persistent_session-Finishes_example :
    Finishes (run_persistent_session world "wss://relay.example.com" config visits (session, false))
run_persistent_session-Finishes_example =
    run_persistent_session-Finishes world "wss://relay.example.com" config 2 visits-Ending
      (session, false) (omega arith)

abbrev resume_world : World
resume_world = record world { platform = resume_platform }

abbrev saved_config : AgentConfig
saved_config = record config {
  device_id = some "dev-1";
  device_secret = some "AAAAAAAAAAAAAAAAAAAAAAAAAAAAAAAAAAAAAAAAAAA";
}

-- The saved client is let in again.
reconnects :
    (attempt resume_world "wss://relay.example.com" saved_config
      ("resume_ack" ∷ "resume" ∷ "proof" ∷ [])
      session).0
    ≡ answer true
unfolding attempt ◌>>=◌ get put truthy model_validate b64decode decode_pairing_secret b64encode
    encode_pubkey
reconnects = refl

attempt-Attempted_example :
    Attempted resume_world "wss://relay.example.com" saved_config
      ("resume_ack" ∷ "resume" ∷ "proof" ∷ [])
      session
      (attempt resume_world "wss://relay.example.com" saved_config
        ("resume_ack" ∷ "resume" ∷ "proof" ∷ [])
        session)
attempt-Attempted_example =
    attempt-Attempted resume_world "wss://relay.example.com" saved_config
      ("resume_ack" ∷ "resume" ∷ "proof" ∷ []) session
