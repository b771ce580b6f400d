-- ===== src/Relay/Config/Env.antt =====
-- relay-server/relay/config.py: `Config.from_env`. The environment is a function from names, and the
-- scheme of a URL, by `urlsplit`, is an argument. Of the digits that `int` reads those of ASCII are kept.
pub mod Bounds
use Prim.Native.Char.{Char, code}
use Prim.Native.String
use termhop.Base.{
  ◌≡◌, refl, ℕ, zero, suc, ◌+◌, ◌*◌, ◌-◌, String, ◌==◌, Bool, true, false, not, ◌&&◌, ◌||◌, Option,
  none, some, List, [], ◌∷◌, map, if◌then◌else◌, eqb, in_range, member, some_of, strip, rstrip,
  codes, is_some, is_none,
}
use termhop.Json.{ℤ, pos, negsuc}
use termhop.Relay.Errors.{value_error}
use termhop.Relay.Exec.{Exec, done, raise, gets, ◌>>=◌, ◌>>◌}
use termhop.Relay.Config.{Config}

abbrev pub supported_version : ℕ
supported_version = 2

-- The digits of a number, with single underscores between them: `acc` has been read, and `after_digit`
-- says that a digit came last.
digits_from : ℕ → Bool → List ℕ → Option ℕ
digits_from acc after_digit [] = if after_digit then some acc else none
digits_from acc after_digit (c ∷ cs) =
    let next = digits_from (acc * 10 + (c - b'0')) true cs in
    let skip = digits_from acc false cs in
    if in_range b'0' b'9' c then next else if eqb c b'_' && after_digit then skip else none

abbrev negated : Option ℕ → Option ℤ
negated none = none
negated (some zero) = some (pos zero)
negated (some (suc n)) = some (negsuc n)

abbrev positive : Option ℕ → Option ℤ
positive none = none
positive (some n) = some (pos n)

signed : List ℕ → Option ℤ
unfolding digits_from
signed [] = none
signed (c ∷ cs) =
    if eqb c b'-'
    then negated (digits_from 0 false cs)
    else if eqb c b'+'
    then positive (digits_from 0 false cs)
    else positive (digits_from 0 false (c ∷ cs))

-- int(raw)
unfoldable pub int_of : String → Option ℤ
unfolding signed
int_of raw = signed (codes (strip raw))

test_int :
    (int_of " +1_20 " ≡ some (pos 120)) × (int_of "-3" ≡ some (negsuc 2)) × (int_of "1__2" ≡ none)
unfolding int_of
test_int = (refl, refl, refl)

onto_first : Char → List String → List String
onto_first c [] = String.◌∷◌ c "" ∷ []
onto_first c (t ∷ ts) = String.◌∷◌ c t ∷ ts

-- text.split(",")
unfoldable pub split_commas : String → List String
unfolding onto_first
split_commas String.[] = "" ∷ []
split_commas (String.◌∷◌ c s) =
    let rest = split_commas s in if eqb (code c) b',' then "" ∷ rest else onto_first c rest

-- [entry.strip() for entry in entries if entry.strip()]
abbrev pub stripped : List String → List String
stripped [] = []
stripped (t ∷ ts) = let rest = stripped ts in if strip t == "" then rest else strip t ∷ rest

abbrev pub get_or : Option String → String → String
get_or none default = default
get_or (some s) default = s

-- os.environ
abbrev pub Environ : Type 0
Environ = String → Option String

abbrev pub Reader : Type 0 → Type 0
Reader A = Exec Environ A

unfoldable pub guard : Bool → Reader (Unit {0})
unfolding done raise
guard true = done tt
guard false = raise value_error

integer : Option ℤ → Reader ℤ
unfolding done raise
integer none = raise value_error
integer (some n) = done n

within : ℕ → ℕ → ℤ → Reader ℕ
unfolding done raise
within minimum maximum (pos n) = if in_range minimum maximum n then done n else raise value_error
within minimum maximum (negsuc n) = raise value_error

-- os.environ.get(name, default)
unfoldable pub env_text : String → String → Reader String
unfolding gets
env_text name default = gets (λ environ. get_or (environ name) default)

unfoldable pub env_int : String → ℕ → Reader ℤ
unfolding env_text int_of integer done
env_int name default = do
  raw ← env_text name ""
  if raw == "" then done (pos default) else integer (int_of raw)

unfoldable pub bounded_int : String → ℕ → ℕ → ℕ → Reader ℕ
unfolding env_int within
bounded_int name default minimum maximum = env_int name default >>= within minimum maximum

-- The origins, without a slash at their end.
unfoldable pub origins_of : String → List String
unfolding split_commas
origins_of text = map (rstrip (λ c. eqb c b'/')) (stripped (split_commas text))

-- The version that was read, if it is the one that the relay supports
unfoldable pub supported : ℤ → Reader ℕ
unfolding done raise
supported (pos n) = if eqb n supported_version then done n else raise value_error
supported (negsuc n) = raise value_error

module _ (urlsplit_scheme : String → String) where
  abbrev pub is_https : List String → Bool
  is_https [] = false
  is_https (t ∷ ts) = not (some_of (λ origin. not (urlsplit_scheme origin == "https")) (t ∷ ts))

  unfoldable pub from_env : Reader Config
  unfolding guard env_text env_int supported bounded_int origins_of split_commas done
  from_env = do
    url ← env_text "REDIS_URL" "redis://localhost:6379/0"
    guard (member (urlsplit_scheme url) ("redis" ∷ "rediss" ∷ "unix" ∷ []))
    version_read ← env_int "PROTOCOL_VERSION" supported_version
    version ← supported version_read
    listed ← env_text "CLIENT_ORIGINS" ""
    guard (is_https (origins_of listed))
    proxies ← env_text "TRUSTED_PROXY_IPS" ""
    domain ← env_text "DOMAIN" "relay.example.com"
    token_ttl ← bounded_int "PAIRING_TOKEN_TTL" 120 30 600
    pending_ttl ← bounded_int "SESSION_PENDING_TTL" 60 15 600
    envelope_bytes ← bounded_int "MAX_ENVELOPE_BYTES" 262144 4096 1048576
    ip_max ← bounded_int "RATE_LIMIT_IP_MAX" 20 1 10000
    ip_window ← bounded_int "RATE_LIMIT_IP_WINDOW_S" 300 1 86400
    attempts ← bounded_int "RATE_LIMIT_TOKEN_MAX" 5 1 100
    shortest ← bounded_int "TOKEN_MIN_LEN" 16 16 64
    longest ← bounded_int "TOKEN_MAX_LEN" 128 32 256
    timeout ← bounded_int "HANDSHAKE_TIMEOUT_S" 20 5 120
    release ← env_text "TERMHOP_RELEASE" "development"
    connections ← bounded_int "MAX_CONNECTIONS_PER_IP" 40 1 10000
    done (record {
      domain = domain;
      redis_url = url;
      pairing_token_ttl_s = token_ttl;
      session_pending_ttl_s = pending_ttl;
      max_envelope_bytes = envelope_bytes;
      protocol_version = version;
      rate_limit_ip_max = ip_max;
      rate_limit_ip_window_s = ip_window;
      rate_limit_token_max = attempts;
      token_min_len = shortest;
      token_max_len = longest;
      handshake_timeout_s = timeout;
      client_origins = origins_of listed;
      release = release;
      trusted_proxy_ips = stripped (split_commas proxies);
      max_connections_per_ip = connections;
    })
