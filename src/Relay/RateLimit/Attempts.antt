-- ===== src/Relay/RateLimit/Attempts.antt =====
-- The attempts on one token: `limit` of them pass, and every later one is blocked.
use termhop.Base.{
  ℕ, zero, suc, ◌+◌, ◌-◌, ◌<◌, ◌≤◌, String, ◌≡◌, ◌==◌, eq_iff, refl, true, false, List, [], ◌∷◌,
  ltb, if◌then◌else◌, arith, Bool-cases, inl, inr,
}
use termhop.Relay.Redis.{Redis, IsRedis}
use termhop.Relay.RateLimit.{Verdict, allowed, blocked, token_attempt_script}

module _ {State : Type 0} (R : Redis State) (count_key block_key : String) (limit ttl : ℕ) where
  -- The verdicts of `n` attempts in a row.
  unfoldable pub attempts : ℕ → State → List Verdict
  attempts zero s = []
  attempts (suc n) s =
      let (verdict, s') = token_attempt_script R count_key block_key limit ttl s in
      verdict ∷ attempts n s'

-- `left` passes, and blocks from then on
unfoldable pub allow_first : ℕ → ℕ → List Verdict
allow_first left zero = []
allow_first zero (suc n) = blocked ∷ allow_first zero n
allow_first (suc left) (suc n) = allowed ∷ allow_first left n

module _ {State : Type 0} (R : Redis State) (laws : IsRedis R) (count_key block_key : String)
    (limit ttl : ℕ) (positive : 0 < ttl) (distinct : (count_key == block_key) ≡ false) where
  blocked_attempts :
      (n : ℕ) (s : State)
      → R.exists s block_key ≡ true
      → attempts R count_key block_key limit ttl n s ≡ allow_first 0 n
  unfolding attempts allow_first token_attempt_script
  blocked_attempts zero s h = refl
  blocked_attempts (suc n) s h = rw h (ground (arith, blocked_attempts n s h))

  module _ (s : State) (open_token : R.exists s block_key ≡ false) where
    -- One attempt: INCR, EXPIRE on the first one, and SET of the block past the limit.
    verdict_of :
        (token_attempt_script R count_key block_key limit ttl s).0
        ≡ (if ltb (R.counter s count_key) limit then allowed else blocked)
    unfolding token_attempt_script
    verdict_of = ground (arith, laws.incr_value s count_key)

    block_after :
        R.exists (token_attempt_script R count_key block_key limit ttl s).1 block_key
        ≡ (if ltb (R.counter s count_key) limit then false else true)
    unfolding token_attempt_script
    block_after =
        let s₁ = (R.incr s count_key).1 in
        ground (
          arith,
          laws.incr_value s count_key,
          laws.exists-incr s count_key block_key,
          laws.exists-expire s₁ count_key block_key ttl,
          laws.exists-set_ex s₁ block_key block_key "1" ttl,
          laws.exists-set_ex (R.expire s₁ count_key ttl) block_key block_key "1" ttl,
          eq_iff block_key block_key,
        )

    count_after :
        R.counter s count_key < limit
        → R.counter (token_attempt_script R count_key block_key limit ttl s).1 count_key
          ≡ R.counter s count_key + 1
    unfolding token_attempt_script
    count_after room =
        let s₁ = (R.incr s count_key).1 in
        ground (
          arith,
          laws.incr_value s count_key,
          laws.counter-incr s count_key count_key,
          laws.counter-expire s₁ count_key count_key ttl,
          eq_iff count_key count_key,
        )

  -- On a store with the documented behaviour of Redis, for a positive lifetime and two distinct keys: on
  -- a token that is not blocked and has at most `limit` attempts counted, the attempts that remain up
  -- to `limit` pass, and all later ones are blocked.
  pub attempts_lem :
      (n : ℕ) (s : State)
      → R.exists s block_key ≡ false
      → R.counter s count_key ≤ limit
      → attempts R count_key block_key limit ttl n s ≡ allow_first (limit - R.counter s count_key) n
  unfolding attempts allow_first
  attempts_lem zero s h le = ground arith
  attempts_lem (suc n) s h le =
      let s' = (token_attempt_script R count_key block_key limit ttl s).1 in
      elim (Bool-cases (ltb (R.counter s count_key) limit)) [
        | inl room ↦
            let left : limit - R.counter s count_key ≡ suc (limit - (R.counter s count_key + 1)) =
              ground arith in
            rw (left, verdict_of s h, room)
              (ground (arith, count_after s h, block_after s h, attempts_lem n s'))
        | inr full ↦
            let none_left : limit - R.counter s count_key ≡ 0 = ground arith in
            rw (none_left, verdict_of s h, full)
              (ground (arith, block_after s h, blocked_attempts n s'))
      ]
