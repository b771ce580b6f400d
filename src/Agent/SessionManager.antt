-- ===== src/Agent/SessionManager.antt =====
-- agent/common/session_manager.py: the records of terminal sessions and the leases of the browsers
-- that control them. The clocks, the random texts and whether the disk takes a write are inputs of a
-- call (`Inputs`); the manifest file is the list of records that it holds.
pub mod Calls
pub mod Exclusive
pub mod Manifest
use termhop.Base.{
  ℕ, ◌+◌, ◌*◌, String, ◌==◌, Bool, true, false, not, ◌&&◌, ◌||◌, Option, none, some, List, [], ◌∷◌,
  if◌then◌else◌, leb, eqb, codes, str_len, length, every, some_of, is_control, is_some, lower_hex,
  strip, after_prefix, ◌⧺◌, decimal,
}
use termhop.Dict.{Dict, get, put, pop, values}
use termhop.Json.{ℤ}
use termhop.Agent.Reply.{
  Reply, answer, failed, session_error, type_error, os_error, Command, give, raise, ◌>>=◌, ◌>>◌,
}

pub data SessionState : Type 0 where
  created running detached paused exited terminated : SessionState

pub record SessionRecord : Type 0 where
  pub session_id : String
  pub label : String
  pub cwd : String
  pub state : SessionState
  pub created_at : ℕ
  pub updated_at : ℕ
  pub exit_code : Option ℤ

-- The time is in milliseconds.
pub record Lease : Type 0 where
  pub token : String
  pub expires_at : ℕ

pub record SessionManager : Type 0 where
  pub manifest : Option (List SessionRecord)
  pub lease_seconds : ℕ
  pub sessions : Dict SessionRecord
  pub leases : Dict Lease

-- int(time.time()), time.monotonic(), secrets.token_hex(16) and token_urlsafe(24), and the disk
pub record Inputs : Type 0 where
  pub time_s : ℕ
  pub monotonic_ms : ℕ
  pub token_hex : String
  pub token_urlsafe : String
  pub disk_up : Bool

hex_tail : Option (List ℕ) → Bool
hex_tail none = false
hex_tail (some cs) = eqb (length cs) 32 && every lower_hex cs

-- ^ts-[a-f0-9]{32}$ under `fullmatch`
unfoldable pub is_session_id : String → Bool
unfolding hex_tail
is_session_id s = hex_tail (after_prefix (codes "ts-") (codes s))

-- The state as it stands in an f-string.
abbrev pub state_name : SessionState → String
state_name created = "created"
state_name running = "running"
state_name detached = "detached"
state_name paused = "paused"
state_name exited = "exited"
state_name terminated = "terminated"

abbrev pub has_ended : SessionState → Bool
has_ended created = false
has_ended running = false
has_ended detached = false
has_ended paused = false
has_ended exited = true
has_ended terminated = true

abbrev is_created : SessionState → Bool
is_created created = true
is_created _ = false

abbrev is_running : SessionState → Bool
is_running running = true
is_running _ = false

abbrev is_paused : SessionState → Bool
is_paused paused = true
is_paused _ = false

abbrev may_start : SessionState → Bool
may_start created = true
may_start detached = true
may_start _ = false

abbrev refuse : {A : Type 0} → String → Command SessionManager A
refuse text = raise (session_error text)

unfoldable pub validate_text : String → String → ℕ → Command SessionManager String
validate_text value label maximum =
    if strip value == "" || not (leb (str_len value) maximum)
    then refuse (label ⧺ " is required and must be at most " ⧺ decimal maximum ⧺ " characters")
    else if some_of is_control (codes value)
    then refuse (label ⧺ " contains a control character")
    else give (strip value)

module _ (io : Inputs) where
  write_manifest : Option (List SessionRecord) → Command SessionManager (Unit {0})
  write_manifest none m = (answer tt, m)
  write_manifest (some old) m =
      if io.disk_up
      then (answer tt, record m { manifest = some (values m.sessions) })
      else (failed os_error, m)

  -- _save
  unfoldable pub save : Command SessionManager (Unit {0})
  unfolding write_manifest
  save m = write_manifest m.manifest m

  -- A change of a record in place.
  unfoldable pub store_record : String → SessionRecord → Command SessionManager (Unit {0})
  store_record session_id r m = (answer tt, record m { sessions = put m.sessions session_id r })

  unfoldable pub drop_lease : String → Command SessionManager (Unit {0})
  drop_lease session_id m = (answer tt, record m { leases = pop m.leases session_id })

  abbrev pub new_record : String → String → SessionRecord
  new_record label cwd = record {
    session_id = "ts-" ⧺ io.token_hex;
    label = label;
    cwd = cwd;
    state = created;
    created_at = io.time_s;
    updated_at = io.time_s;
    exit_code = none;
  }

  unfoldable pub get_record : String → Command SessionManager SessionRecord
  get_record session_id m = elim (get m.sessions session_id) [
    | none ↦ (failed (session_error "session not found"), m)
    | some r ↦
        if is_session_id session_id
        then (answer r, m)
        else (failed (session_error "session not found"), m)
  ]

  -- What each method does last: the record changes, and the manifest is written.
  store_and_save : String → SessionRecord → Command SessionManager SessionRecord
  unfolding save store_record
  store_and_save session_id r = do store_record session_id r; save; give r

  unfoldable pub create : String → String → Command SessionManager SessionRecord
  unfolding store_and_save
  create label cwd = do
    label' ← validate_text label "label" 96
    cwd' ← validate_text cwd "cwd" 4096
    store_and_save ("ts-" ⧺ io.token_hex) (new_record label' cwd')

  -- list
  unfoldable pub list_records : Command SessionManager (List SessionRecord)
  list_records m = (answer (values m.sessions), m)

  abbrev pub in_state : SessionState → SessionRecord → SessionRecord
  in_state state r = record r { state = state; updated_at = io.time_s }

  unfoldable pub rename : String → String → Command SessionManager SessionRecord
  unfolding get_record store_and_save
  rename session_id label = do
    r ← get_record session_id
    label' ← validate_text label "label" 96
    store_and_save session_id (record r { label = label'; updated_at = io.time_s })

  unfoldable pub start : String → Command SessionManager SessionRecord
  unfolding get_record store_and_save
  start session_id = do
    r ← get_record session_id
    if may_start r.state
        then store_and_save session_id (in_state running r)
        else refuse ("cannot start a " ⧺ state_name r.state ⧺ " session")

  abbrev pub live : Option Lease → Bool
  live none = false
  live (some lease) = not (leb lease.expires_at io.monotonic_ms)

  -- _expire_lease
  unfoldable pub expire_lease : String → Command SessionManager (Unit {0})
  unfolding drop_lease
  expire_lease session_id m =
      if is_some (get m.leases session_id) && not (live (get m.leases session_id))
      then drop_lease session_id m
      else (answer tt, m)

  -- secrets.compare_digest takes texts of ASCII characters.
  check_token : Option Lease → String → Command SessionManager (Unit {0})
  check_token none token m =
      (failed (session_error "session control lease is invalid or expired"), m)
  check_token (some lease) token m =
      if not (every (λ c. leb c 127) (codes token))
      then (failed type_error, m)
      else if lease.token == token
      then (answer tt, m)
      else (failed (session_error "session control lease is invalid or expired"), m)

  check_lease : String → String → Command SessionManager (Unit {0})
  unfolding check_token
  check_lease session_id token m = check_token (get m.leases session_id) token m

  -- _require_lease
  unfoldable pub require_lease : String → String → Command SessionManager (Unit {0})
  unfolding expire_lease check_lease
  require_lease session_id token = do expire_lease session_id; check_lease session_id token

  grant : String → Command SessionManager (Unit {0})
  grant session_id m = (
    answer tt,
    record m {
      leases = put m.leases session_id (record {
        token = io.token_urlsafe;
        expires_at = io.monotonic_ms + m.lease_seconds * 1000;
      });
    },
  )

  -- self._leases, after the expiry
  is_locked : String → Command SessionManager Bool
  is_locked session_id m = (answer (is_some (get m.leases session_id)), m)

  take_lease : String → SessionRecord → Command SessionManager String
  unfolding grant store_and_save
  take_lease session_id r = do
    grant session_id
    if is_created r.state
        then (do store_and_save session_id (in_state running r); give io.token_urlsafe)
        else give io.token_urlsafe

  unfoldable pub attach : String → Command SessionManager String
  unfolding get_record expire_lease is_locked take_lease
  attach session_id = do
    r ← get_record session_id
    expire_lease session_id
    if has_ended r.state
        then refuse ("cannot attach to a " ⧺ state_name r.state ⧺ " session")
        else do
          locked ← is_locked session_id
          if locked then refuse "session is locked by another browser" else take_lease session_id r

  unfoldable pub detach : String → String → Command SessionManager SessionRecord
  unfolding get_record require_lease drop_lease store_and_save
  detach session_id lease_token = do
    r ← get_record session_id
    require_lease session_id lease_token
    drop_lease session_id
    if is_running r.state then store_and_save session_id (in_state detached r) else give r

  unfoldable pub pause : String → String → Command SessionManager SessionRecord
  unfolding get_record require_lease store_and_save
  pause session_id lease_token = do
    r ← get_record session_id
    require_lease session_id lease_token
    if is_running r.state
        then store_and_save session_id (in_state paused r)
        else refuse ("cannot pause a " ⧺ state_name r.state ⧺ " session")

  unfoldable pub resume : String → String → Command SessionManager SessionRecord
  unfolding get_record require_lease store_and_save
  resume session_id lease_token = do
    r ← get_record session_id
    require_lease session_id lease_token
    if is_paused r.state
        then store_and_save session_id (in_state running r)
        else refuse ("cannot resume a " ⧺ state_name r.state ⧺ " session")

  -- The lease goes before the manifest is written.
  unfoldable pub terminate : String → String → Command SessionManager SessionRecord
  unfolding get_record require_lease drop_lease store_and_save
  terminate session_id lease_token = do
    r ← get_record session_id
    require_lease session_id lease_token
    drop_lease session_id
    store_and_save session_id (in_state terminated r)

  unfoldable pub complete : String → Option ℤ → Command SessionManager SessionRecord
  unfolding get_record drop_lease store_and_save
  complete session_id exit_code = do
    r ← get_record session_id
    drop_lease session_id
    store_and_save session_id (record (in_state exited r) { exit_code = exit_code })
