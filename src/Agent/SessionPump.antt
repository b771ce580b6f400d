-- ===== src/Agent/SessionPump.antt =====
-- agent/common/session_pump.py: the two directions between a paired client and its terminal, as rounds
-- of their loops, and `run_pty_session`, which runs them side by side until one of them ends. A round
-- waits only at its start and at its end, so that the rounds of the two do not overlap.
pub mod Ending
pub mod Inputs
pub mod Sizes
use termhop.Base.{
  ℕ, zero, suc, String, ◌==◌, Bool, true, false, Option, none, some, List, [], ◌∷◌, if◌then◌else◌,
  in_range,
}
use termhop.Dict.{get}
use termhop.Json.{ℤ, pos, Value, int, Payload}
use termhop.Base64.{Bytes}
use termhop.Relay.Envelope.{Envelope}
use termhop.Agent.Reply.{
  Reply, answer, failed, Fault, handshake_error, envelope_error, connection_closed, eof_error,
  session_error, Command, give, raise, reads, ◌>>=◌, ◌>>◌,
}
use termhop.Agent.PtyBackend.{Backend, read, write, resize, wait, close}
use termhop.Agent.RelayClient.{Platform, RelayClient, Client}
use termhop.Agent.RelayClient.Traffic.{
  recv_decrypted, decrypt_payload, send_pty_data, send_session_close,
}

-- What the two tasks share.
pub record Session : Type 0 where
  pub client : RelayClient
  pub backend : Backend

abbrev pub Pump : Type 0 → Type 0
Pump A = Command Session A

module _ {A : Type 0} where
  unfoldable pub on_client : Client A → Pump A
  on_client m s = let r = m s.client in (r.0, record s { client = r.1 })

  unfoldable pub on_backend : Command Backend A → Pump A
  on_backend m s = let r = m s.backend in (r.0, record s { backend = r.1 })

-- isinstance(value, int) and not isinstance(value, bool) and 1 <= value <= 9999
abbrev pub dimension : Option Value → Option ℕ
dimension (some (int (pos n))) = if in_range 1 9999 n then some n else none
dimension _ = none

resize_to : Option ℕ → Option ℕ → Pump (Unit {0})
unfolding on_backend resize
resize_to (some rows) (some cols) = on_backend (resize rows cols)
resize_to _ _ = give tt

is_empty : Bytes → Bool
is_empty [] = true
is_empty (b ∷ bs) = false

-- How a task stands after a round: it goes on, or it is done.
pub data Task : Type 0 where
  goes_on : Task
  ends : Reply (Unit {0}) → Task

abbrev task_of : Reply Bool → Task
task_of (answer true) = goes_on
task_of (answer false) = ends (answer tt)
task_of (failed e) = ends (failed e)

-- What a task gave, if it is done, and else what comes later.
abbrev pub unless_done : {A : Type 0} → Task → (Reply (Unit {0}) → A) → Option A → Option A
unless_done goes_on result later = later
unless_done (ends done) result later = some (result done)

abbrev swallowed : Fault → Bool
swallowed connection_closed = true
swallowed (handshake_error text) = true
swallowed (envelope_error text) = true
swallowed _ = false

-- The exception of the task that is done
abbrev re_raised : Reply (Unit {0}) → Reply (Unit {0})
re_raised (answer _) = answer tt
re_raised (failed e) = if swallowed e then answer tt else failed e

module _ (p : Platform) where
  on_frame : Envelope → Pump Bool
  unfolding on_client on_backend decrypt_payload write resize_to
  on_frame envelope =
      if envelope.type == "pty_input"
      then (do
        plaintext ← on_client (decrypt_payload p envelope)
        on_backend (write plaintext)
        give true)
      else if envelope.type == "session_resize"
      then (do
        resize_to (dimension (get envelope.payload "rows"))
            (dimension (get envelope.payload "cols"))
        give true)
      else if envelope.type == "session_close"
      then give false
      else give true

  -- One round of `_pump_relay_to_pty`: whether the loop goes on
  unfoldable pub from_relay : Pump Bool
  unfolding on_client recv_decrypted on_frame
  from_relay = do envelope ← on_client (recv_decrypted p); on_frame envelope

  on_exit : Pump Bool
  unfolding on_client on_backend wait send_session_close
  on_exit = do on_backend wait; on_client (send_session_close p "process_exited"); give false

  -- What a read gives: a chunk to send, or the end of the process
  on_output : Reply Bytes → Pump Bool
  unfolding on_client send_pty_data is_empty on_exit
  on_output (answer chunk) =
      if is_empty chunk then give true else (do on_client (send_pty_data p chunk); give true)
  on_output (failed eof_error) = on_exit
  on_output (failed e) = raise e

  -- One round of `_pump_pty_to_relay`
  unfoldable pub to_relay : Pump Bool
  unfolding on_backend read on_output
  to_relay s = let r = on_backend read s in on_output r.0 r.1

  -- The loop of `_pump_relay_to_pty` alone, for so many rounds at most
  unfoldable pub pump_relay_to_pty : ℕ → Session → Option (Reply (Unit {0}) × Session)
  unfolding from_relay
  pump_relay_to_pty zero s = none
  pump_relay_to_pty (suc n) s =
      let r = from_relay s in
      unless_done (task_of r.0) (λ done. (done, r.1)) (pump_relay_to_pty n r.1)

  -- The loop of `_pump_pty_to_relay` alone
  unfoldable pub pump_pty_to_relay : ℕ → Session → Option (Reply (Unit {0}) × Session)
  unfolding to_relay
  pump_pty_to_relay zero s = none
  pump_pty_to_relay (suc n) s =
      let r = to_relay s in
      unless_done (task_of r.0) (λ done. (done, r.1)) (pump_pty_to_relay n r.1)

  finish : Bool → Reply (Unit {0}) → Session → Reply (Unit {0}) × Session
  unfolding on_backend close
  finish true done s = (re_raised done, s)
  finish false done s = (re_raised done, (on_backend close s).1)

  -- run_pty_session, under a schedule that says which task makes the next round, `true` for the one from
  -- the relay; none where the schedule ends first.
  unfoldable pub run_pty_session : Bool → List Bool → Session → Option (Reply (Unit {0}) × Session)
  unfolding from_relay to_relay finish
  run_pty_session preserve [] s = none
  run_pty_session preserve (turn ∷ turns) s =
      let r = (if turn then from_relay else to_relay) s in
      unless_done (task_of r.0) (λ done. finish preserve done r.1)
        (run_pty_session preserve turns r.1)
