-- ===== src/Relay/RateLimit/Keeps.antt =====
-- The limiters leave the registry to the connections that run meanwhile.
use termhop.Base.{ℕ, String, Option}
use termhop.Relay.Config.{Config}
use termhop.Relay.Registry.{SessionRegistry}
use termhop.Relay.System.{System}
use termhop.Relay.RateLimit.{
  Verdict, allowed, blocked, raise_blocked, draw_uuid, check_ip_rate_limit, check_token_rate_limit,
}
use termhop.Relay.Keeps.{Keeps, Relies, keeps_rules, Keeps-redis_call, Keeps-done, Keeps-raise}

module _ {State : Type 0} {P : SessionRegistry → Type 0} where
  raise_blocked-Keeps :
      (retry : Option ℕ) (v : Verdict) → Keeps P (raise_blocked {State = State} retry v)
  unfolding raise_blocked
  raise_blocked-Keeps retry allowed = Keeps-done tt
  raise_blocked-Keeps retry blocked = Keeps-raise _

  draw_uuid-Keeps : (sys : System State) → Keeps P (draw_uuid sys)
  unfolding draw_uuid
  draw_uuid-Keeps sys = record { at = λ m h. h }

module _ {State : Type 0} {P : SessionRegistry → Type 0} (sys : System State)
    (rely : Relies sys P) where
  pub check_ip-Keeps : (cfg : Config) (ip : String) → Keeps P (check_ip_rate_limit sys cfg ip)
  unfolding check_ip_rate_limit
  check_ip-Keeps cfg ip =
      search (keeps_rules, Keeps-redis_call sys rely, raise_blocked-Keeps, draw_uuid-Keeps)

  pub check_token-Keeps :
      (cfg : Config) (token : String) → Keeps P (check_token_rate_limit sys cfg token)
  unfolding check_token_rate_limit
  check_token-Keeps cfg token = search (keeps_rules, Keeps-redis_call sys rely, raise_blocked-Keeps)
