-- ===== src/Relay/Config/Env/Bounds.antt =====
-- A configuration that is read from the environment is within its bounds.
use termhop.Base.{
  ℕ, ◌≤◌, ◌≡◌, ◌≢◌, refl, subst, String, ◌==◌, eq_iff, Bool, true, false, not, List, [], ◌∷◌, arith,
  in_range, eqb, some_of, Bool-cases, inl, inr,
}
use termhop.Json.{ℤ, pos, negsuc}
use termhop.Relay.Errors.{Raised, value_error}
use termhop.Relay.Exec.{Result, ok, raised, done, raise, resume, ◌>>=◌}
use termhop.Relay.Config.{Config}
use termhop.Relay.Config.Env.{
  Environ, Reader, bounded_int, within, guard, supported, from_env, origins_of, is_https,
}

abbrev pub InRange : ℕ → ℕ → ℕ → Type 0
InRange lo hi n = (lo ≤ n) × (n ≤ hi)

-- Every origin is under https.
abbrev pub AreHttps : (String → String) → List String → Type 0
AreHttps scheme [] = Unit {0}
AreHttps scheme (t ∷ ts) = (scheme t ≡ "https") × AreHttps scheme ts

-- What a relay relies on.
pub record IsConfig (scheme : String → String) (c : Config) : Type 0 where
  pub token_ttl : InRange 30 600 c.pairing_token_ttl_s
  pub pending_ttl : InRange 15 600 c.session_pending_ttl_s
  pub envelope_bytes : InRange 4096 1048576 c.max_envelope_bytes
  pub version : c.protocol_version ≡ 2
  pub ip_max : InRange 1 10000 c.rate_limit_ip_max
  pub ip_window : InRange 1 86400 c.rate_limit_ip_window_s
  pub attempts : InRange 1 100 c.rate_limit_token_max
  pub shortest : InRange 16 64 c.token_min_len
  pub longest : InRange 32 256 c.token_max_len
  pub timeout : InRange 5 120 c.handshake_timeout_s
  pub connections : InRange 1 10000 c.max_connections_per_ip
  pub some_origin : c.client_origins ≢ []
  pub https : AreHttps scheme c.client_origins

-- A claim on what a reading of the environment gives, if it does not raise.
pub record Gives {A : Type 0} (Q : A → Type 0) (m : Reader A) : Type 0 where
  pub at : (environ : Environ) (a : A) → (m environ).0 ≡ ok a → Q a

ok_inj : {A : Type 0} (Q : A → Type 0) (a b : A) → ok a ≡ ok b → Q a → Q b
ok_inj Q a b e = subst Q cc

Gives-done : {A : Type 0} (Q : A → Type 0) (a : A) → Q a → Gives Q (done a)
unfolding done
Gives-done Q a h = record { at = λ environ b e. ok_inj Q a b e h }

Gives-raise : {A : Type 0} (Q : A → Type 0) (e : Raised) → Gives Q (raise e)
unfolding raise
Gives-raise Q e = record { at = λ environ a h. absurd cc }

any_Gives : {A : Type 0} (m : Reader A) → Gives (λ _. Unit {0}) m
any_Gives m = record { at = λ environ a e. tt }

module _ {A B : Type 0} (Q : B → Type 0) where
  bind_at :
      (f : A → Reader B) (r : Result A) (environ : Environ) (b : B)
      → ((a : A) → r ≡ ok a → Gives Q (f a))
      → (resume f (r, environ)).0 ≡ ok b
      → Q b
  bind_at f (ok a) environ b k e = (k a refl).at environ b e
  bind_at f (raised x) environ b k e = absurd cc

  bind_Gives :
      (P : A → Type 0) (m : Reader A) (f : A → Reader B)
      → Gives P m
      → ((a : A) → P a → Gives Q (f a))
      → Gives Q (m >>= f)
  unfolding ◌>>=◌
  bind_Gives P m f h k = record {
    at = λ environ b e. bind_at f (m environ).0 (m environ).1 b (λ a r. k a (h.at environ a r)) e;
  }

guard_Gives : (b : Bool) → Gives (λ _. b ≡ true) (guard b)
unfolding guard
guard_Gives true = Gives-done _ _ refl
guard_Gives false = Gives-raise _ _

within_Gives : (lo hi : ℕ) (n : ℤ) → Gives (InRange lo hi) (within lo hi n)
unfolding within
within_Gives lo hi (pos n) = elim (Bool-cases (in_range lo hi n)) [
  | inl inside ↦
      rw inside (Gives-done (InRange lo hi) n (ground (arith, inside), ground (arith, inside)))
  | inr outside ↦ rw outside (Gives-raise (InRange lo hi) value_error)
]
within_Gives lo hi (negsuc n) = Gives-raise _ _

supported_Gives : (n : ℤ) → Gives (λ version. version ≡ 2) (supported n)
unfolding supported
supported_Gives (pos n) = elim (Bool-cases (eqb n 2)) [
  | inl same ↦ rw same (Gives-done (λ version. version ≡ 2) n (ground (arith, same)))
  | inr other ↦ rw other (Gives-raise (λ version. version ≡ 2) value_error)
]
supported_Gives (negsuc n) = Gives-raise _ _

bounded_int_Gives :
    (name : String) (default lo hi : ℕ) → Gives (InRange lo hi) (bounded_int name default lo hi)
unfolding bounded_int
bounded_int_Gives name default lo hi = bind_Gives _ _ _ _ (any_Gives _) λ n _. within_Gives lo hi n

https_origins :
    (scheme : String → String) (ts : List String)
    → some_of (λ origin. not (scheme origin == "https")) ts ≡ false
    → AreHttps scheme ts
https_origins scheme [] h = tt
https_origins scheme (t ∷ ts) h =
    ((eq_iff (scheme t) "https").0 (ground (arith, h)), https_origins scheme ts (ground (arith, h)))

module _ (scheme : String → String) where
  served : (ts : List String) → is_https scheme ts ≡ true → (ts ≢ []) × AreHttps scheme ts
  served [] h = absurd cc
  served (t ∷ ts) h = ((λ e. cc), https_origins scheme (t ∷ ts) (ground (arith, h)))

  from_env-Gives : Gives (IsConfig scheme) (from_env scheme)
  unfolding from_env
  from_env-Gives =
      let Q = IsConfig scheme in
      let bounded = bounded_int_Gives in
      bind_Gives Q _ _ _ (any_Gives _) λ url _. bind_Gives Q _ _ _ (guard_Gives _) λ _ known.
        bind_Gives Q _ _ _ (any_Gives _) λ version_read _.
          bind_Gives Q _ _ _ (supported_Gives version_read) λ version is_version.
            bind_Gives Q _ _ _ (any_Gives _) λ listed _.
              bind_Gives Q _ _ _ (guard_Gives _) λ _ secure.
                bind_Gives Q _ _ _ (any_Gives _) λ proxies _.
                  bind_Gives Q _ _ _ (any_Gives _) λ domain _.
                    bind_Gives Q _ _ _ (bounded "PAIRING_TOKEN_TTL" 120 30 600) λ _ a.
                      bind_Gives Q _ _ _ (bounded "SESSION_PENDING_TTL" 60 15 600) λ _ b.
                        bind_Gives Q _ _ _ (bounded "MAX_ENVELOPE_BYTES" 262144 4096 1048576) λ _ c.
                          bind_Gives Q _ _ _ (bounded "RATE_LIMIT_IP_MAX" 20 1 10000) λ _ d.
                            bind_Gives Q _ _ _ (bounded "RATE_LIMIT_IP_WINDOW_S" 300 1 86400) λ _ e.
                              bind_Gives Q _ _ _ (bounded "RATE_LIMIT_TOKEN_MAX" 5 1 100) λ _ f.
                                bind_Gives Q _ _ _ (bounded "TOKEN_MIN_LEN" 16 16 64) λ _ g.
                                  bind_Gives Q _ _ _ (bounded "TOKEN_MAX_LEN" 128 32 256) λ _ h.
                                    bind_Gives Q _ _ _ (bounded "HANDSHAKE_TIMEOUT_S" 20 5 120)
                                      λ _ i. bind_Gives Q _ _ _ (any_Gives _) λ release _.
                                        bind_Gives Q _ _ _
                                          (bounded "MAX_CONNECTIONS_PER_IP" 40 1 10000)
                                          λ _ j.
                                            let s = served (origins_of listed) secure in
                                            Gives-done Q _ (record {
                                              token_ttl = a;
                                              pending_ttl = b;
                                              envelope_bytes = c;
                                              version = is_version;
                                              ip_max = d;
                                              ip_window = e;
                                              attempts = f;
                                              shortest = g;
                                              longest = h;
                                              timeout = i;
                                              connections = j;
                                              some_origin = s.0;
                                              https = s.1;
                                            })

  -- Whatever the environment, a configuration that `from_env` returns is within the bounds: every number of
  -- it within its range, the protocol version the supported one, and at least one origin, all under https.
  pub from_env-IsConfig :
      (environ : Environ) (c : Config) → (from_env scheme environ).0 ≡ ok c → IsConfig scheme c
  from_env-IsConfig environ c read = from_env-Gives.at environ c read
