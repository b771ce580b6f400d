-- ===== src/Relay/Samples.antt =====
-- Concrete connections of the relay, with the store of `Redis/Memory` and nobody else at the awaits.
use termhop.Base.{ℕ, String, true, Option, none, some, [], ◌∷◌}
use termhop.Json.{str, Payload}
use termhop.Relay.Config.{Config}
use termhop.Relay.Registry.{Role, agent, SessionPhase, established, SessionSlot, SessionRegistry}
use termhop.Relay.Envelope.{Envelope}
use termhop.Relay.Redis.Memory.{Store, empty_store, memory}
use termhop.Relay.System.{World, System, ConnectionContext, Machine, quiet}

abbrev pub test_config : Config
test_config = record {
  domain = "relay.example.com";
  redis_url = "redis://localhost:6379/0";
  pairing_token_ttl_s = 120;
  session_pending_ttl_s = 60;
  max_envelope_bytes = 262144;
  protocol_version = 2;
  rate_limit_ip_max = 20;
  rate_limit_ip_window_s = 300;
  rate_limit_token_max = 5;
  token_min_len = 16;
  token_max_len = 128;
  handshake_timeout_s = 20;
  client_origins = "https://app.example.com" ∷ [];
  release = "test";
  trusted_proxy_ips = [];
  max_connections_per_ip = 40;
}

abbrev pub test_system : System Store
test_system = record {
  redis = memory;
  sha256 = λ s. s;
  uuid = λ n. "u";
  json_loads = λ s. none;
  interfere = quiet;
}

-- Connection 1 is an agent's and connection 2 a client's, in one session.
abbrev pub paired_slot : SessionPhase → SessionSlot
paired_slot phase = record { agent_ws = some 1; client_ws = some 2; phase = phase }

abbrev pub paired_registry : SessionPhase → SessionRegistry
paired_registry phase = record { sessions = ("sess-a", paired_slot phase) ∷ []; devices = [] }

abbrev pub test_world : SessionRegistry → World Store
test_world r = record {
  registry = r;
  store = empty_store;
  redis_up = true;
  outbox = [];
  connected = λ ws. true;
  monotonic_ms = 0;
  wall_ms = 0;
  uuids_drawn = 0;
}

abbrev pub test_context : ℕ → Role → Option String → ConnectionContext
test_context ws role session_id = record {
  ws = ws;
  role = role;
  peer_ip = "10.0.0.1";
  cfg = test_config;
  session_id = session_id;
  last_seq = 0;
  handshake_deadline = none;
}

abbrev pub agent_machine : SessionPhase → Machine Store
agent_machine phase = record {
  ctx = test_context 1 agent (some "sess-a");
  world = test_world (paired_registry phase);
}

abbrev pub proof_text : String
proof_text = "AAAAAAAAAAAAAAAAAAAAAAAAAAAAAAAAAAAAAAAAAAA="

abbrev pub test_envelope : String → Payload → Envelope
test_envelope type payload = record {
  v = 2;
  type = type;
  session_id = some "sess-a";
  seq = 1;
  ts = 0;
  payload = payload;
}

abbrev pub completion : Envelope
completion = test_envelope "pair_complete" (("agent_proof", str proof_text) ∷ [])

-- A second agent connection, bound to nothing, that names the session of the first.
abbrev pub late_machine : Machine Store
late_machine = record {
  ctx = test_context 3 agent none;
  world = test_world (paired_registry established);
}

abbrev pub late_init : Envelope
late_init = test_envelope "resume_init" (
    ("session_id", str "sess-a")
    ∷ ("device_id", str "dev-0123456789abcdef0123456789abcdef")
    ∷ ("agent_pubkey", str proof_text)
    ∷ ("agent_hostname", str "laptop")
    ∷ [])
