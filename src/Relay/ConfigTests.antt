-- ===== src/Relay/ConfigTests.antt =====
-- The configuration of a relay with three settings.
use termhop.Base.{String, ◌==◌, ◌≡◌, refl, none, some, [], ◌∷◌, if◌then◌else◌}
use termhop.Relay.Exec.{ok, ◌>>=◌}
use termhop.Relay.Config.{Config}
use termhop.Relay.Config.Env.{Environ, from_env}
use termhop.Relay.Config.Env.Bounds.{IsConfig, from_env-IsConfig}

abbrev test_environ : Environ
test_environ name =
    if name == "CLIENT_ORIGINS"
    then some " https://a.example/, ,https://b.example"
    else if name == "TOKEN_MIN_LEN"
    then some "64"
    else if name == "TOKEN_MAX_LEN"
    then some " 3_2"
    else none

abbrev test_scheme : String → String
test_scheme url = if url == "redis://localhost:6379/0" then "redis" else "https"

abbrev read_config : Config
read_config = record {
  domain = "relay.example.com";
  redis_url = "redis://localhost:6379/0";
  pairing_token_ttl_s = 120;
  session_pending_ttl_s = 60;
  max_envelope_bytes = 262144;
  protocol_version = 2;
  rate_limit_ip_max = 20;
  rate_limit_ip_window_s = 300;
  rate_limit_token_max = 5;
  token_min_len = 64;
  token_max_len = 32;
  handshake_timeout_s = 20;
  client_origins = "https://a.example" ∷ "https://b.example" ∷ [];
  release = "development";
  trusted_proxy_ips = [];
  max_connections_per_ip = 40;
}

test_read : (from_env test_scheme test_environ).0 ≡ ok read_config
unfolding from_env ◌>>=◌
test_read = refl

from_env-IsConfig_example : IsConfig test_scheme read_config
from_env-IsConfig_example = from_env-IsConfig test_scheme test_environ read_config test_read
