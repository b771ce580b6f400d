-- ===== src/Relay/Redis.antt =====
-- The Redis server, as the relay uses it: an interface of the commands that the relay's Lua scripts
-- and its client calls issue, and their documented behaviour (`IsRedis`). Time passes only between
-- commands, where it is part of what other parties do; so a law speaks of one command. A key holds one
-- type of value, and the relay's key prefixes keep the types apart.
pub mod Memory
use termhop.Base.{
  ℕ, ◌+◌, ◌<◌, String, ◌≡◌, ◌==◌, Bool, true, false, ◌&&◌, Option, none, some, ltb, if◌then◌else◌,
}
use termhop.Dict.{Dict, get}

pub record Redis (State : Type 0) : Type 0 where
  pub exists : State → String → Bool
  -- HSET key field value; HGET key field; HGETALL key
  pub hset : State → String → String → String → State
  pub hget : State → String → String → Option String
  pub hgetall : State → String → Dict String
  pub expire : State → String → ℕ → State
  pub persist : State → String → State
  pub del : State → String → State
  -- INCR key gives the new value; `counter` is what GET shows of it
  pub incr : State → String → ℕ × State
  pub counter : State → String → ℕ
  -- SET key value EX seconds
  pub set_ex : State → String → String → ℕ → State
  -- ZREMRANGEBYSCORE key -inf max; ZADD key score member; ZCARD key
  pub zremrangebyscore : State → String → ℕ → State
  pub zadd : State → String → ℕ → String → State
  pub zcard : State → String → ℕ
  -- ZSCORE key member; ZCOUNT key (min +inf
  pub zscore : State → String → String → Option ℕ
  pub zcount : State → String → ℕ → ℕ

pub record IsRedis {State : Type 0} (R : Redis State) : Type 0 where
  pub exists-hset :
      (s : State) (k j f v : String)
      → R.exists (R.hset s k f v) j ≡ (if k == j then true else R.exists s j)
  pub hget-hset :
      (s : State) (k j f g v : String)
      → R.hget (R.hset s k f v) j g ≡ (if k == j && f == g then some v else R.hget s j g)
  pub hget_missing : (s : State) (k f : String) → R.exists s k ≡ false → R.hget s k f ≡ none
  pub get-hgetall : (s : State) (k f : String) → get (R.hgetall s k) f ≡ R.hget s k f
  pub exists-expire :
      (s : State) (k j : String) (n : ℕ) → 0 < n → R.exists (R.expire s k n) j ≡ R.exists s j
  pub hget-expire :
      (s : State) (k j f : String) (n : ℕ) → 0 < n → R.hget (R.expire s k n) j f ≡ R.hget s j f
  pub exists-del :
      (s : State) (k j : String) → R.exists (R.del s k) j ≡ (if k == j then false else R.exists s j)
  pub hget-del :
      (s : State) (k j f : String)
      → R.hget (R.del s k) j f ≡ (if k == j then none else R.hget s j f)
  pub incr_value : (s : State) (k : String) → (R.incr s k).0 ≡ R.counter s k + 1
  pub counter-incr :
      (s : State) (k j : String)
      → R.counter (R.incr s k).1 j ≡ (if k == j then R.counter s j + 1 else R.counter s j)
  pub exists-incr :
      (s : State) (k j : String)
      → R.exists (R.incr s k).1 j ≡ (if k == j then true else R.exists s j)
  pub counter-expire :
      (s : State) (k j : String) (n : ℕ) → 0 < n → R.counter (R.expire s k n) j ≡ R.counter s j
  pub exists-set_ex :
      (s : State) (k j v : String) (n : ℕ)
      → 0 < n
      → R.exists (R.set_ex s k v n) j ≡ (if k == j then true else R.exists s j)
  pub counter-set_ex :
      (s : State) (k j v : String) (n : ℕ)
      → 0 < n
      → (k == j) ≡ false
      → R.counter (R.set_ex s k v n) j ≡ R.counter s j
  pub zcard-zremrangebyscore :
      (s : State) (k : String) (top : ℕ) → R.zcard (R.zremrangebyscore s k top) k ≡ R.zcount s k top
  pub zcard-zadd :
      (s : State) (k : String) (score : ℕ) (m : String)
      → R.zscore s k m ≡ none
      → R.zcard (R.zadd s k score m) k ≡ R.zcard s k + 1
  pub zcount-zadd :
      (s : State) (k : String) (score low : ℕ) (m : String)
      → R.zscore s k m ≡ none
      → R.zcount (R.zadd s k score m) k low
        ≡ (if ltb low score then R.zcount s k low + 1 else R.zcount s k low)
  pub zscore-zremrangebyscore :
      (s : State) (k m : String) (top : ℕ)
      → R.zscore s k m ≡ none
      → R.zscore (R.zremrangebyscore s k top) k m ≡ none
  pub zcount-zremrangebyscore :
      (s : State) (k : String) (top low : ℕ)
      → R.zcount (R.zremrangebyscore s k top) k low
        ≡ R.zcount s k (if ltb top low then low else top)
  pub zcard-expire :
      (s : State) (k j : String) (n : ℕ) → 0 < n → R.zcard (R.expire s k n) j ≡ R.zcard s j
  pub zcount-expire :
      (s : State) (k j : String) (low n : ℕ)
      → 0 < n
      → R.zcount (R.expire s k n) j low ≡ R.zcount s j low
