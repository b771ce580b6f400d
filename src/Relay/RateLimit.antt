-- ===== src/Relay/RateLimit.antt =====
-- relay-server/relay/ratelimit.py: the two Lua limiters and the in-process connection limiter.
pub mod Window
pub mod Attempts
pub mod Connections
pub mod Keeps
use termhop.Base.{
  ℕ, ◌+◌, ◌-◌, ◌*◌, String, Bool, true, false, Option, none, some, ltb, leb, eqb, if◌then◌else◌,
  get_or, decimal, ◌⧺◌,
}
use termhop.Dict.{Dict, get, put, pop}
use termhop.Relay.Errors.{rate_limited, relay}
use termhop.Relay.Exec.{Exec, Result, ok, raised, done, raise, gets, ◌>>=◌, ◌>>◌}
use termhop.Relay.Config.{Config}
use termhop.Relay.Redis.{Redis}
use termhop.Relay.System.{System, Machine, Action, redis_call}
use termhop.Relay.Pairing.{token_digest}

pub data Verdict : Type 0 where
  allowed blocked : Verdict

module _ {State : Type 0} (R : Redis State) where
  -- `math.ceil(window_ms / 1000) + 1` is the window in seconds and one more: the caller's window is a
  -- whole number of seconds.
  unfoldable pub ip_window_script : String → ℕ → ℕ → ℕ → String → State → Verdict × State
  ip_window_script key now window_s limit member s =
      let s₁ = R.zremrangebyscore s key (now - window_s * 1000) in
      let s₂ = R.zadd s₁ key now member in
      let s₃ = R.expire s₂ key (window_s + 1) in
      (if ltb limit (R.zcard s₃ key) then blocked else allowed, s₃)

  first_expiry : String → ℕ → ℕ → State → State
  first_expiry count_key ttl count s = if eqb count 1 then R.expire s count_key ttl else s

  count_attempt : String → String → ℕ → ℕ → ℕ × State → Verdict × State
  unfolding first_expiry
  count_attempt count_key block_key limit ttl (count, s) =
      let s' = first_expiry count_key ttl count s in
      if ltb limit count then (blocked, R.set_ex s' block_key "1" ttl) else (allowed, s')

  unfoldable pub token_attempt_script : String → String → ℕ → ℕ → State → Verdict × State
  unfolding count_attempt
  token_attempt_script count_key block_key limit ttl s =
      if R.exists s block_key
      then (blocked, s)
      else count_attempt count_key block_key limit ttl (R.incr s count_key)

raise_blocked : {State : Type 0} → Option ℕ → Verdict → Action State (Unit {0})
raise_blocked retry_after_s allowed = done tt
raise_blocked retry_after_s blocked = raise (relay (rate_limited retry_after_s))

module _ {State : Type 0} (sys : System State) where
  draw_uuid : Action State String
  draw_uuid m = (
    ok (sys.uuid m.world.uuids_drawn),
    record m { world = record m.world { uuids_drawn = m.world.uuids_drawn + 1 } },
  )

  unfoldable pub check_ip_rate_limit : Config → String → Action State (Unit {0})
  unfolding raise_blocked draw_uuid
  check_ip_rate_limit cfg ip = do
    now_ms ← gets (λ m. m.world.wall_ms)
    id ← draw_uuid
    result ← redis_call sys (
        ip_window_script sys.redis ("relay:rl:ip:" ⧺ ip) now_ms cfg.rate_limit_ip_window_s
          cfg.rate_limit_ip_max (decimal now_ms ⧺ ":" ⧺ id))
    raise_blocked (some cfg.rate_limit_ip_window_s) result

  unfoldable pub check_token_rate_limit : Config → String → Action State (Unit {0})
  unfolding raise_blocked
  check_token_rate_limit cfg token = do
    result ← redis_call sys (
        token_attempt_script sys.redis ("relay:rl:token:" ⧺ token_digest sys token)
          ("relay:rl:token_blocked:" ⧺ token_digest sys token) cfg.rate_limit_token_max
          cfg.pairing_token_ttl_s)
    raise_blocked none result

-- ConnectionLimiter._counts
pub record ConnectionLimiter : Type 0 where
  pub counts : Dict ℕ

unfoldable pub try_acquire : ConnectionLimiter → String → ℕ → Bool × ConnectionLimiter
try_acquire l ip max_per_ip =
    let count = get_or 0 (get l.counts ip) in
    if leb max_per_ip count
    then (false, l)
    else (true, record { counts = put l.counts ip (count + 1) })

unfoldable pub release : ConnectionLimiter → String → ConnectionLimiter
release l ip =
    let count = get_or 0 (get l.counts ip) in
    if leb count 1
    then record { counts = pop l.counts ip }
    else record { counts = put l.counts ip (count - 1) }
