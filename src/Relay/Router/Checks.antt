-- ===== src/Relay/Router/Checks.antt =====
-- relay-server/relay/router.py: the tests on payload values.
use termhop.Base.{
  after_prefix, ℕ, String, Bool, false, not, ◌&&◌, Option, none, some, List, eqb, leb, codes,
  str_len, url_safe, lower_hex, is_control, in_range, every, some_of, length, get_or,
}
use termhop.Dict.{get}
use termhop.Json.{Value, null, str, Payload}
use termhop.Base64.{decoded_size}

-- payload.get(key, "") and payload.get(key)
abbrev pub field_or_empty : Payload → String → Value
field_or_empty payload key = get_or (str "") (get payload key)

abbrev pub field_or_none : Payload → String → Value
field_or_none payload key = get_or null (get payload key)

-- The text of a value that a test has found to be one.
abbrev pub text_of : Value → String
text_of (str s) = s
text_of _ = ""

has_size : ℕ → Option ℕ → Bool
has_size size none = false
has_size size (some n) = eqb n size

unfoldable pub valid_base64_size : Value → ℕ → Bool
unfolding has_size
valid_base64_size (str s) size = has_size size (decoded_size s)
valid_base64_size _ size = false

session_tail : Option (List ℕ) → Bool
session_tail none = false
session_tail (some cs) = in_range 1 64 (length cs) && every url_safe cs

-- ^sess-[A-Za-z0-9_-]{1,64}$ under `fullmatch`
unfoldable pub valid_session_id : Value → Bool
unfolding session_tail
valid_session_id (str s) = session_tail (after_prefix (codes "sess-") (codes s))
valid_session_id _ = false

device_tail : Option (List ℕ) → Bool
device_tail none = false
device_tail (some cs) = eqb (length cs) 32 && every lower_hex cs

-- ^dev-[a-f0-9]{32}$ under `fullmatch`
unfoldable pub valid_device_id : Value → Bool
unfolding device_tail
valid_device_id (str s) = device_tail (after_prefix (codes "dev-") (codes s))
valid_device_id _ = false

abbrev pub max_hostname_chars : ℕ
max_hostname_chars = 255

unfoldable pub valid_hostname : Value → Bool
valid_hostname (str s) = leb (str_len s) max_hostname_chars && not (some_of is_control (codes s))
valid_hostname _ = false
