-- ===== src/Relay/Pairing/Scripts.antt =====
-- relay-server/relay/pairing.py: the two Lua scripts, each one atomic command of the server.
use termhop.Base.{ℕ, String, some, if◌then◌else◌, opt_eq}
use termhop.Dict.{Dict}
use termhop.Relay.Redis.{Redis}

pub data Issued : Type 0 where
  issued duplicate : Issued

pub data Consumed : Type 0 where
  not_found already_used : Consumed
  consumed : Dict String → Consumed

module _ {State : Type 0} (R : Redis State) where
  -- HSET key 'agent_pubkey' .. 'session_id' .. 'agent_hostname' .. 'state' 'pending' 'created_at' ..
  unfoldable pub pending_record : State → String → String → String → String → String → State
  pending_record s key pubkey session_id hostname created_at =
      R.hset
        (R.hset
          (R.hset (R.hset (R.hset s key "agent_pubkey" pubkey) key "session_id" session_id) key
            "agent_hostname" hostname)
          key "state" "pending")
        key "created_at" created_at

  unfoldable pub issue_script :
      String → String → String → String → String → ℕ → State → Issued × State
  unfolding pending_record
  issue_script key pubkey session_id hostname created_at ttl s =
      if R.exists s key
      then (duplicate, s)
      else (issued, R.expire (pending_record s key pubkey session_id hostname created_at) key ttl)

  unfoldable pub consume_script : String → State → Consumed × State
  consume_script key s =
      if R.exists s key
      then (if opt_eq (R.hget s key "state") (some "consumed")
          then (already_used, s)
          else let s' = R.hset s key "state" "consumed" in (consumed (R.hgetall s' key), s'))
      else (not_found, s)
