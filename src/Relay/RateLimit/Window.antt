-- ===== src/Relay/RateLimit/Window.antt =====
-- The sliding window: who is blocked, and what is remembered.
use termhop.Base.{ℕ, ◌+◌, ◌-◌, ◌*◌, ◌≤◌, String, ◌≡◌, none, ltb, if◌then◌else◌, arith}
use termhop.Relay.Redis.{Redis, IsRedis}
use termhop.Relay.RateLimit.{allowed, blocked, ip_window_script}

module _ {State : Type 0} (R : Redis State) (laws : IsRedis R) (key member : String)
    (now window_s limit : ℕ) (s : State) where
  -- On a store with the documented behaviour of Redis, an attempt under a fresh member is blocked
  -- exactly when the attempts that the window still holds, those of a score above `now - window`, are
  -- already `limit` or more; and, blocked or not, it counts towards every later window that it falls
  -- into, while older attempts are counted as before.
  pub ip_window_lem :
      R.zscore s key member ≡ none
      → ((ip_window_script R key now window_s limit member s).0
          ≡ (if ltb (R.zcount s key (now - window_s * 1000)) limit then allowed else blocked))
        × ((low : ℕ)
            → now - window_s * 1000 ≤ low
            → R.zcount (ip_window_script R key now window_s limit member s).1 key low
              ≡ (if ltb low now then R.zcount s key low + 1 else R.zcount s key low))
  unfolding ip_window_script
  ip_window_lem fresh =
      let old = now - window_s * 1000 in
      let s₁ = R.zremrangebyscore s key old in
      let s₂ = R.zadd s₁ key now member in
      let fresh₁ = laws.zscore-zremrangebyscore s key member old fresh in
      (
        ground (
          arith,
          laws.zcard-zremrangebyscore s key old,
          laws.zcard-zadd s₁ key now member fresh₁,
          laws.zcard-expire s₂ key key (window_s + 1),
        ),
        λ low h. ground (
          arith,
          laws.zcount-zremrangebyscore s key old low,
          laws.zcount-zadd s₁ key now low member fresh₁,
          laws.zcount-expire s₂ key key low (window_s + 1),
        ),
      )
