-- ===== src/Relay/Errors.antt =====
-- relay-server/relay/errors.py, and what else a handler of the relay can raise.
use termhop.Base.{ℕ, String, Option, decimal, ◌⧺◌}

pub data RelayError : Type 0 where
  token_expired : RelayError
  token_already_used token_not_found token_invalid : String → RelayError
  rate_limited : Option ℕ → RelayError
  session_not_found : RelayError
  envelope_too_large envelope_invalid : String → RelayError
  protocol_version_mismatch : ℕ → ℕ → RelayError

-- Every subclass of `RelayError`, the registry's `ValueError`, a missing key, a method call on `None`, a Redis that cannot be reached, and a send on
-- a socket that is no longer connected.
pub data Raised : Type 0 where
  relay : RelayError → Raised
  value_error key_error attribute_error disconnected redis_error : Raised

-- str(exc)
unfoldable pub message : RelayError → String
message token_expired = ""
message (token_already_used token) = token
message (token_not_found token) = token
message (token_invalid text) = text
message (rate_limited retry_after_s) = "rate limited"
message session_not_found = ""
message (envelope_too_large text) = text
message (envelope_invalid text) = text
message (protocol_version_mismatch got expected) =
    "protocol version " ⧺ decimal got ⧺ " unsupported, expected " ⧺ decimal expected
