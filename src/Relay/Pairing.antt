-- ===== src/Relay/Pairing.antt =====
-- relay-server/relay/pairing.py: pairing tokens and the session record in Redis.
pub mod Scripts
pub mod Tokens
pub mod Keeps
use termhop.Base.{
  ℕ, String, ◌==◌, Bool, true, false, ◌&&◌, Option, none, some, List, [], ◌∷◌, eqb, leb,
  if◌then◌else◌, codes, str_len, url_safe, decimal, ◌⧺◌,
}
use termhop.Dict.{Dict}
use termhop.Json.{Value, str}
use termhop.Relay.Errors.{token_already_used, token_not_found, token_invalid, relay}
use termhop.Relay.Exec.{Exec, Result, ok, raised, done, raise, gets, lift, ◌>>=◌, ◌>>◌}
use termhop.Relay.Config.{Config}
use termhop.Relay.Redis.{Redis}
use termhop.Relay.System.{System, Machine, Action, redis_call}
use Scripts.{
  Issued, Consumed, duplicate, issued, not_found, already_used, consumed, issue_script,
  consume_script,
}

-- ^[A-Za-z0-9_-]+$ under `re.match`: `$` also stands before a newline that ends the text.
token_tail : List ℕ → Bool
token_tail [] = true
token_tail (c ∷ []) = if url_safe c then true else eqb c 10
token_tail (c ∷ d ∷ cs) = url_safe c && token_tail (d ∷ cs)

unfoldable pub token_chars : List ℕ → Bool
unfolding token_tail
token_chars [] = false
token_chars (c ∷ cs) = url_safe c && token_tail cs

unfoldable pub is_token : Config → String → Bool
unfolding token_chars
is_token cfg token =
    leb cfg.token_min_len (str_len token)
    && leb (str_len token) cfg.token_max_len
    && token_chars (codes token)

token_message : Config → String
token_message cfg =
    "token must be "
    ⧺ decimal cfg.token_min_len
    ⧺ "-"
    ⧺ decimal cfg.token_max_len
    ⧺ " url-safe chars"

-- Gives the token back as a text, since it raises for every other value.
unfoldable pub validate_token_format : Value → Config → Result String
unfolding is_token token_message
validate_token_format (str token) cfg =
    if is_token cfg token then ok token else raised (relay (token_invalid (token_message cfg)))
validate_token_format _ cfg = raised (relay (token_invalid (token_message cfg)))

abbrev pub session_key : String → String
session_key session_id = "relay:session:" ⧺ session_id

module _ {State : Type 0} (sys : System State) where
  unfoldable pub token_digest : String → String
  token_digest token = sys.sha256 token

  unfoldable pub token_key : String → String
  unfolding token_digest
  token_key token = "relay:token:" ⧺ token_digest token

  raise_duplicate : Issued → Action State (Unit {0})
  raise_duplicate issued = done tt
  raise_duplicate duplicate = raise (relay (token_invalid "token already in use"))

  unfoldable pub issue_token : Config → Value → String → String → String → Action State (Unit {0})
  unfolding raise_duplicate
  issue_token cfg token agent_pubkey session_id agent_hostname = do
    text ← lift (validate_token_format token cfg)
    now ← gets (λ m. m.world.wall_ms)
    result ← redis_call sys (
        issue_script sys.redis (token_key text) agent_pubkey session_id agent_hostname (decimal now)
          cfg.pairing_token_ttl_s)
    raise_duplicate result

  raise_unusable : String → Consumed → Action State (Dict String)
  raise_unusable token not_found = raise (relay (token_not_found token))
  raise_unusable token already_used = raise (relay (token_already_used token))
  raise_unusable token (consumed fields) = done fields

  unfoldable pub consume_token : String → Action State (Dict String)
  unfolding raise_unusable
  consume_token token = do
    result ← redis_call sys (consume_script sys.redis (token_key token))
    raise_unusable token result

  unfoldable pub delete_token : String → Action State (Unit {0})
  delete_token token = redis_call sys (λ s. (tt, sys.redis.del s (token_key token)))

  unfoldable pub create_session_record : Config → String → Action State (Unit {0})
  create_session_record cfg session_id = do
    now ← gets (λ m. m.world.wall_ms)
    redis_call sys (λ s. (
      tt,
      sys.redis.hset (sys.redis.hset s (session_key session_id) "state" "awaiting_client")
          (session_key session_id) "created_at" (decimal now),
    ))
    redis_call sys
        (λ s. (tt, sys.redis.expire s (session_key session_id) cfg.session_pending_ttl_s))

  unfoldable pub set_session_state : String → String → Action State (Unit {0})
  set_session_state session_id state =
      redis_call sys (λ s. (tt, sys.redis.hset s (session_key session_id) "state" state))

  unfoldable pub mark_session_established : String → Action State (Unit {0})
  mark_session_established session_id = do
    redis_call sys (λ s. (tt, sys.redis.hset s (session_key session_id) "state" "established"))
    redis_call sys (λ s. (tt, sys.redis.persist s (session_key session_id)))

  unfoldable pub get_session_state : String → Action State (Option String)
  get_session_state session_id =
      redis_call sys (λ s. (sys.redis.hget s (session_key session_id) "state", s))

  unfoldable pub delete_session_record : String → Action State (Unit {0})
  delete_session_record session_id =
      redis_call sys (λ s. (tt, sys.redis.del s (session_key session_id)))
