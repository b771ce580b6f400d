-- ===== src/Agent/SessionPump/Ending.antt =====
-- The pump ends: each round from the relay uses up a frame, and no round brings one.
use termhop.Base.{
  ℕ, zero, suc, ◌<◌, ◌≡◌, refl, ap, sym, ◌∙◌, ◌⊎◌, inl, inr, subst, String, Bool, true, false,
  Option, none, some, List, [], ◌∷◌, arith, length,
}
use termhop.Base64.{Bytes}
use termhop.Relay.Envelope.{Envelope}
use termhop.Agent.Reply.{Reply, answer, failed, Fault, eof_error, Command, follow, ◌>>=◌}
use termhop.Agent.Reply.Keeps.{Keeps, reply_rules}
use termhop.Agent.PtyBackend.{Backend, read}
use termhop.Agent.RelayClient.{Platform, RelayClient, Client, recv}
use termhop.Agent.RelayClient.Traffic.{recv_decrypted}
use termhop.Agent.RelayClient.Receive.{recv-Received}
use termhop.Agent.RelayClient.Traffic.Waiting.{
  Waits, send_pty_data-Waits, send_session_close-Waits, decrypt_payload-Waits,
}
use termhop.Agent.SessionPump.{
  Session, on_client, on_backend, resize_to, on_frame, from_relay, on_exit, on_output, to_relay,
  task_of, goes_on, ends, pump_relay_to_pty, run_pty_session, Task, unless_done,
}

-- The frames that wait for the client of the session
abbrev pub frames_of : Session → List String
frames_of s = s.client.inbox

abbrev Has : List String → Session → Type 0
Has frames s = Waits frames s.client

module _ {A : Type 0} (frames : List String) where
  on_client-Has : (m : Client A) → Keeps (Waits frames) m → Keeps (Has frames) (on_client m)
  unfolding on_client
  on_client-Has m k = record { at = λ s h. k.at s.client h }

  on_backend-Has : (m : Command Backend A) → Keeps (Has frames) (on_backend m)
  unfolding on_backend
  on_backend-Has m = record { at = λ s h. h }

module _ (frames : List String) where
  resize_to-Has : (rows cols : Option ℕ) → Keeps (Has frames) (resize_to rows cols)
  unfolding resize_to
  resize_to-Has none cols = search reply_rules
  resize_to-Has (some r) none = search reply_rules
  resize_to-Has (some r) (some k) = on_backend-Has frames _

  module _ (p : Platform) where
    on_frame-Has : (e : Envelope) → Keeps (Has frames) (on_frame p e)
    unfolding on_frame
    on_frame-Has e =
        search (reply_rules, on_client-Has, on_backend-Has, resize_to-Has, decrypt_payload-Waits)
          depth 12

    on_exit-Has : Keeps (Has frames) (on_exit p)
    unfolding on_exit
    on_exit-Has =
        search (reply_rules, on_client-Has, on_backend-Has, send_session_close-Waits) depth 10

    on_output-Has : (r : Reply Bytes) → Keeps (Has frames) (on_output p r)
    unfolding on_output
    on_output-Has (answer chunk) = search (reply_rules, on_client-Has, send_pty_data-Waits) depth 10
    on_output-Has (failed eof_error) = on_exit-Has
    on_output-Has (failed e) = search reply_rules

    to_relay-Has : Keeps (Has frames) (to_relay p)
    unfolding to_relay
    to_relay-Has = record {
      at = λ s h.
          (on_output-Has (on_backend read s).0).at (on_backend read s).1
            ((on_backend-Has frames read).at s h);
    }

module _ (p : Platform) where
  -- How a round from the relay stands: done, or one frame further.
  abbrev Moves : Session → Reply Bool × Session → Type 0
  Moves s r =
      ((done : Reply (Unit {0})) × (task_of r.0 ≡ ends done))
      ⊎ (suc (length (frames_of r.1)) ≡ length (frames_of s))

  after_frame :
      (s : Session) (r : Reply Envelope × RelayClient)
      → ((e : Fault) × (rest : List String) × (r ≡ (failed e, record s.client { inbox = rest })))
        ⊎ ((frame : Envelope) × (raw : String) × (rest : List String) × (r
              ≡ (answer frame, record s.client { inbox = rest }))
            × (s.client.inbox ≡ raw ∷ rest))
      → Moves s (follow (on_frame p) (r.0, record s { client = r.1 }))
  after_frame s r (inl (e, rest, h)) = rw h (inl (failed e, refl))
  after_frame s r (inr (frame, raw, rest, h, from)) =
      subst (λ r. Moves s (follow (on_frame p) (r.0, record s { client = r.1 }))) (sym h)
        (inr (
          ap (λ l. suc (length l))
            ((on_frame-Has rest p frame).at (record s { client = record s.client { inbox = rest } })
              refl)
          ∙ sym (ap length from)))

  from_relay-Moves : (s : Session) → Moves s (from_relay p s)
  unfolding from_relay on_client recv_decrypted ◌>>=◌
  from_relay-Moves s = after_frame s (recv p s.client) (recv-Received p s.client)

  goes_shorter :
      (s : Session) (r : Reply Bool × Session)
      → Moves s r
      → task_of r.0 ≡ goes_on
      → suc (length (frames_of r.1)) ≡ length (frames_of s)
  goes_shorter s r (inl (done, e)) going = absurd cc
  goes_shorter s r (inr shorter) going = shorter

-- What is given at last is something.
abbrev pub Gives : {A : Type 0} → Option A → Type 0
Gives {A} o = (a : A) × (o ≡ some a)

unless_done-Gives :
    {A : Type 0} (t : Task) (result : Reply (Unit {0}) → A) (later : Option A)
    → (t ≡ goes_on → Gives later)
    → Gives (unless_done t result later)
unless_done-Gives goes_on result later k = k refl
unless_done-Gives (ends done) result later k = (result done, refl)

-- Given more rounds than frames wait for the client, the loop from the relay ends: it returns, or raises.
pub pump_relay_to_pty-Gives :
    (p : Platform) (n : ℕ) (s : Session)
    → length (frames_of s) < n
    → Gives (pump_relay_to_pty p n s)
unfolding pump_relay_to_pty
pump_relay_to_pty-Gives p zero s h = absurd (omega arith)
pump_relay_to_pty-Gives p (suc n) s h =
    let r = from_relay p s in
    unless_done-Gives (task_of r.0) _ _ λ e.
      pump_relay_to_pty-Gives p n r.1 (omega (arith, goes_shorter p s r (from_relay-Moves p s) e))

-- The turns of the task from the relay
abbrev pub turns_in : List Bool → ℕ
turns_in [] = 0
turns_in (true ∷ turns) = suc (turns_in turns)
turns_in (false ∷ turns) = turns_in turns

-- Whatever the terminal prints, and whatever else is scheduled between: once the task from the relay has had
-- more turns than frames wait for the client, `run_pty_session` has ended.
pub run_pty_session-Gives :
    (p : Platform) (preserve : Bool) (turns : List Bool) (s : Session)
    → length (frames_of s) < turns_in turns
    → Gives (run_pty_session p preserve turns s)
unfolding run_pty_session
run_pty_session-Gives p preserve [] s h = absurd (omega arith)
run_pty_session-Gives p preserve (true ∷ turns) s h =
    let r = from_relay p s in
    unless_done-Gives (task_of r.0) _ _ λ e.
      run_pty_session-Gives p preserve turns r.1
        (omega (arith, goes_shorter p s r (from_relay-Moves p s) e))
run_pty_session-Gives p preserve (false ∷ turns) s h =
    let r = to_relay p s in
    unless_done-Gives (task_of r.0) _ _ λ e.
      run_pty_session-Gives p preserve turns r.1
        (omega (arith, ap length ((to_relay-Has (frames_of s) p).at s refl)))
