-- ===== src/Relay/RateLimit/Connections.antt =====
-- The connection limiter counts the open connections of each address.
use mathlib.Core.Path.{fun_ext}
use termhop.Base.{
  ap, ◌∙◌, ℕ, ◌+◌, ◌-◌, ◌≤◌, String, ◌≡◌, ◌==◌, eq_iff, refl, List, [], ◌∷◌, ltb, if◌then◌else◌,
  arith, get_or,
}
use termhop.Dict.{get, get-put, get-pop}
use termhop.Relay.RateLimit.{ConnectionLimiter, try_acquire, release}

-- What arrives at the relay: an address opens a connection, or one of its connections ends.
pub data Event : Type 0 where
  opens closes : String → Event

-- `_ws_loop` releases only what it acquired: an address with no open connection ends none.
abbrev pub count_of : ConnectionLimiter → String → ℕ
count_of l ip = get_or 0 (get l.counts ip)

-- The live connections by address, admitted first come, first served while there is room.
abbrev pub admit : ℕ → Event → (String → ℕ) → String → ℕ
admit limit (opens ip) live j =
    if ip == j then (if ltb (live j) limit then live j + 1 else live j) else live j
admit limit (closes ip) live j = if ip == j then live j - 1 else live j

unfoldable pub handle_event : ℕ → Event → ConnectionLimiter → ConnectionLimiter
handle_event limit (opens ip) l = (try_acquire l ip limit).1
handle_event limit (closes ip) l = release l ip

unfoldable pub run_events : ℕ → List Event → ConnectionLimiter → ConnectionLimiter
run_events limit [] l = l
run_events limit (e ∷ es) l = run_events limit es (handle_event limit e l)

unfoldable pub run_live : ℕ → List Event → (String → ℕ) → String → ℕ
run_live limit [] live = live
run_live limit (e ∷ es) live = run_live limit es (admit limit e live)

handle_event-count :
    (limit : ℕ) (e : Event) (l : ConnectionLimiter) (j : String)
    → count_of (handle_event limit e l) j ≡ admit limit e (count_of l) j
unfolding handle_event try_acquire release
handle_event-count limit (opens ip) l j =
    ground (arith, get-put l.counts ip j (count_of l ip + 1), eq_iff ip j)
handle_event-count limit (closes ip) l j =
    ground (arith, get-put l.counts ip j (count_of l ip - 1), get-pop l.counts ip j, eq_iff ip j)

run_events-count :
    (limit : ℕ) (es : List Event) (l : ConnectionLimiter)
    → count_of (run_events limit es l) ≡ run_live limit es (count_of l)
unfolding run_events run_live
run_events-count limit [] l = refl
run_events-count limit (e ∷ es) l =
    run_events-count limit es (handle_event limit e l)
    ∙ ap (run_live limit es) (fun_ext λ j. handle_event-count limit e l j)

run_live-le :
    (limit : ℕ) (es : List Event) (live : String → ℕ)
    → ((j : String) → live j ≤ limit)
    → (j : String) → run_live limit es live j ≤ limit
unfolding run_live
run_live-le limit [] live h j = h j
run_live-le limit (opens ip ∷ es) live h j =
    run_live-le limit es (admit limit (opens ip) live) (λ k. ground (arith, h k)) j
run_live-le limit (closes ip ∷ es) live h j =
    run_live-le limit es (admit limit (closes ip) live) (λ k. ground (arith, h k)) j

abbrev pub new_limiter : ConnectionLimiter
new_limiter = record { counts = [] }

-- From a new limiter, after any connections opened and closed in any order, each address is charged
-- for exactly the connections that were admitted and not closed since (a close with none open is
-- ignored), an open is admitted exactly while the address is below the limit, and no address is ever
-- charged more than the limit.
pub run_events_lem :
    (limit : ℕ) (es : List Event) (ip : String)
    → let l = run_events limit es new_limiter in
      (count_of l ip ≡ run_live limit es (λ j. 0) ip)
      × ((try_acquire l ip limit).0 ≡ ltb (count_of l ip) limit)
      × (count_of l ip ≤ limit)
unfolding try_acquire get
run_events_lem limit es ip =
    let l = run_events limit es new_limiter in
    let charged : count_of l ip ≡ run_live limit es (λ j. 0) ip =
      ap (λ f. f ip) (run_events-count limit es new_limiter) in
    (charged, ground arith, rw charged (run_live-le limit es (λ j. 0) (λ j. omega arith) ip))
