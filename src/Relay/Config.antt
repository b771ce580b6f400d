-- ===== src/Relay/Config.antt =====
-- relay-server/relay/config.py. Durations are in seconds, as in the source.
pub mod Env
use termhop.Base.{ℕ, String, List}

pub record Config : Type 0 where
  pub domain : String
  pub redis_url : String
  pub pairing_token_ttl_s : ℕ
  pub session_pending_ttl_s : ℕ
  pub max_envelope_bytes : ℕ
  pub protocol_version : ℕ
  pub rate_limit_ip_max : ℕ
  pub rate_limit_ip_window_s : ℕ
  pub rate_limit_token_max : ℕ
  pub token_min_len : ℕ
  pub token_max_len : ℕ
  pub handshake_timeout_s : ℕ
  pub client_origins : List String
  pub release : String
  pub trusted_proxy_ips : List String
  pub max_connections_per_ip : ℕ
