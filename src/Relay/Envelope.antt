-- ===== src/Relay/Envelope.antt =====
-- relay-server/relay/envelope.py (and its mirror agent/common/envelope.py): the wire envelope, its
-- validation, and the message types. `json.loads` is the argument `json_loads`, which gives `none`
-- where it raises; what Pydantic checks is written out from the field declarations.
pub mod Laws
use Prim.Native.String.{len}
use termhop.Base.{
  ℕ, ◌-◌, ◌^◌, String, ◌==◌, Bool, true, false, ◌&&◌, Option, none, some, List, [], ◌∷◌, ◌++◌, ltb,
  leb, eqb, if◌then◌else◌, str_len, codes, in_range, every, member, decimal, ◌⧺◌,
}
use termhop.Dict.{Dict, get, put}
use termhop.Json.{
  ℤ, pos, negsuc, Value, null, bool, int, float, str, arr, obj, Items, Fields, end, field, Payload,
}
use termhop.Relay.Errors.{
  RelayError, envelope_too_large, envelope_invalid, protocol_version_mismatch, relay,
}
use termhop.Relay.Exec.{Result, ok, raised}

abbrev pub session_control_types : List String
session_control_types =
    "session_list" ∷ "session_open" ∷ "session_resize" ∷ "session_close" ∷ "idle_alert" ∷ []

abbrev pub terminal_data_types : List String
terminal_data_types = "pty_data" ∷ "pty_input" ∷ "device_credential" ∷ []

abbrev pub port_forward_types : List String
port_forward_types = "port_forward_request" ∷ "port_forward_data" ∷ "port_forward_close" ∷ []

abbrev pub routable_types : List String
routable_types = session_control_types ++ terminal_data_types ++ port_forward_types

pub record Envelope : Type 0 where
  pub v : ℕ
  pub type : String
  pub session_id : Option String
  pub seq : ℕ
  pub ts : ℕ
  pub payload : Payload

-- The dict of a JSON object: of two equal keys the last one counts.
as_dict : Payload → Fields → Payload
as_dict d end = d
as_dict d (field k v fs) = as_dict (put d k v) fs

-- int = Field(ge=lo, le=hi), strict: no bool and no float
int_field : ℕ → ℕ → Option Value → Option ℕ
int_field lo hi (some (int (pos n))) = if in_range lo hi n then some n else none
int_field lo hi _ = none

-- ^[a-z][a-z0-9_]*$ and the length bounds
pub type_chars : List ℕ → Bool
type_chars [] = false
type_chars (c ∷ cs) =
    in_range b'a' b'z' c
    && every
        (λ d.
          if in_range b'a' b'z' d then true else if in_range b'0' b'9' d then true else eqb d b'_')
        cs

type_field : Option Value → Option String
unfolding type_chars
type_field (some (str s)) =
    if in_range 1 64 (str_len s) && type_chars (codes s) then some s else none
type_field _ = none

-- str | None = Field(default=None, max_length=69); the inner option is the value
session_field : Option Value → Option (Option String)
session_field none = some none
session_field (some null) = some none
session_field (some (str s)) = if leb (str_len s) 69 then some (some s) else none
session_field _ = none

-- dict = Field(default_factory=dict)
payload_field : Option Value → Option Payload
unfolding as_dict
payload_field none = some []
payload_field (some (obj fs)) = some (as_dict [] fs)
payload_field _ = none

-- extra="forbid"
known_fields : Dict Value → Bool
known_fields d =
    every (λ kv. member kv.0 ("v" ∷ "type" ∷ "session_id" ∷ "seq" ∷ "ts" ∷ "payload" ∷ [])) d

infixl 10 ◌>>=?◌
abbrev ◌>>=?◌ : {A B : Type 0} → Option A → (A → Option B) → Option B
none >>=? f = none
some a >>=? f = f a

validate_dict : Dict Value → Option Envelope
unfolding known_fields int_field type_field session_field payload_field
validate_dict d =
    if known_fields d
    then int_field 1 255 (get d "v") >>=? (λ version. type_field (get d "type") >>=? (λ kind.
      session_field (get d "session_id") >>=? (λ session.
        int_field 0 (2 ^ 53 - 1) (get d "seq") >>=? (λ number.
          int_field 0 (2 ^ 63 - 1) (get d "ts") >>=? (λ stamp.
            payload_field (get d "payload") >>=? (λ body. some (record {
              v = version;
              type = kind;
              session_id = session;
              seq = number;
              ts = stamp;
              payload = body;
            })))))))
    else none

-- Envelope.model_validate(data)
unfoldable pub model_validate : Value → Option Envelope
unfolding validate_dict
model_validate (obj fs) = validate_dict (as_dict [] fs)
model_validate _ = none

check_version : ℕ → Envelope → Result Envelope
check_version expected_version envelope =
    if eqb envelope.v expected_version
    then ok envelope
    else raised (relay (protocol_version_mismatch envelope.v expected_version))

validated : ℕ → Option Envelope → Result Envelope
unfolding check_version
validated expected_version none = raised (relay (envelope_invalid "invalid envelope shape"))
validated expected_version (some envelope) = check_version expected_version envelope

decoded : ℕ → Option Value → Result Envelope
unfolding validated
decoded expected_version none = raised (relay (envelope_invalid "invalid JSON"))
decoded expected_version (some value) = validated expected_version (model_validate value)

-- The texts that Pydantic and the JSON decoder add to their errors are left out.
unfoldable pub parse_envelope : (String → Option Value) → String → ℕ → ℕ → Result Envelope
unfolding decoded
parse_envelope json_loads raw max_bytes expected_version =
    if ltb max_bytes (len raw)
    then raised (
        relay (
          envelope_too_large
            ("envelope of " ⧺ decimal (len raw) ⧺ " bytes exceeds cap of " ⧺ decimal max_bytes)))
    else decoded expected_version (json_loads raw)
