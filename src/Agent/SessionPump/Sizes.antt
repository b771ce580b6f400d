-- ===== src/Agent/SessionPump/Sizes.antt =====
-- Whatever the relay sends, the terminal is only set to sizes that are in order.
use termhop.Base.{
  ℕ, ◌≤◌, ◌≡◌, refl, subst, Bool, true, false, Option, none, some, List, [], ◌∷◌, arith, in_range,
  Bool-cases, inl, inr,
}
use termhop.Json.{Value, pos, negsuc, int, null, bool, float, str, arr, obj}
use termhop.Base64.{Bytes}
use termhop.Relay.Envelope.{Envelope}
use termhop.Agent.Reply.{Reply, answer, failed, eof_error, Command}
use termhop.Agent.Reply.Keeps.{Keeps, reply_rules}
use termhop.Agent.PtyBackend.{Backend, read}
use termhop.Agent.PtyBackend.Sizes.{
  Sized, read-Sized, write-Sized, resize-Sized, wait-Sized, close-Sized,
}
use termhop.Agent.RelayClient.{Platform, Client}
use termhop.Agent.SessionPump.{
  Session, on_client, on_backend, dimension, resize_to, on_frame, from_relay, on_exit, on_output,
  to_relay, Task, goes_on, ends, task_of, unless_done, run_pty_session, finish,
}

abbrev Fits : Session → Type 0
Fits s = Sized s.backend

module _ {A : Type 0} where
  on_client-Fits : (m : Client A) → Keeps Fits (on_client m)
  unfolding on_client
  on_client-Fits m = record { at = λ s h. h }

  on_backend-Fits : (m : Command Backend A) → Keeps Sized m → Keeps Fits (on_backend m)
  unfolding on_backend
  on_backend-Fits m k = record { at = λ s h. k.at s.backend h }

dimension_lem : (v : Option Value) (n : ℕ) → dimension v ≡ some n → (1 ≤ n) × (n ≤ 9999)
dimension_lem (some (int (pos k))) n h = elim (Bool-cases (in_range 1 9999 k)) [
  | inl inside ↦ ground (arith, h, inside)
  | inr outside ↦ ground (arith, h, outside)
]
dimension_lem (some (int (negsuc k))) n h = cc
dimension_lem none n h = cc
dimension_lem (some null) n h = cc
dimension_lem (some (bool b)) n h = cc
dimension_lem (some (float b)) n h = cc
dimension_lem (some (str s)) n h = cc
dimension_lem (some (arr vs)) n h = cc
dimension_lem (some (obj fs)) n h = cc

resize_to-Fits :
    (rows cols : Option ℕ)
    → ((n : ℕ) → rows ≡ some n → (1 ≤ n) × (n ≤ 9999))
    → ((n : ℕ) → cols ≡ some n → (1 ≤ n) × (n ≤ 9999))
    → Keeps Fits (resize_to rows cols)
unfolding resize_to
resize_to-Fits none cols hr hc = search reply_rules
resize_to-Fits (some r) none hr hc = search reply_rules
resize_to-Fits (some r) (some c) hr hc =
    on_backend-Fits _
      (resize-Sized r c ((hr r refl).0, (hr r refl).1, (hc c refl).0, (hc c refl).1))

module _ (p : Platform) where
  sized_by : (rows cols : Option Value) → Keeps Fits (resize_to (dimension rows) (dimension cols))
  sized_by rows cols = resize_to-Fits _ _ (dimension_lem rows) (dimension_lem cols)

  on_frame-Fits : (e : Envelope) → Keeps Fits (on_frame p e)
  unfolding on_frame
  on_frame-Fits e =
      search (reply_rules, on_client-Fits, on_backend-Fits, write-Sized, sized_by) depth 12

  from_relay-Fits : Keeps Fits (from_relay p)
  unfolding from_relay
  from_relay-Fits = search (reply_rules, on_client-Fits, on_frame-Fits)

  on_exit-Fits : Keeps Fits (on_exit p)
  unfolding on_exit
  on_exit-Fits = search (reply_rules, on_client-Fits, on_backend-Fits, wait-Sized) depth 10

  on_output-Fits : (r : Reply Bytes) → Keeps Fits (on_output p r)
  unfolding on_output
  on_output-Fits (answer chunk) = search (reply_rules, on_client-Fits) depth 10
  on_output-Fits (failed eof_error) = on_exit-Fits
  on_output-Fits (failed e) = search reply_rules

  to_relay-Fits : Keeps Fits (to_relay p)
  unfolding to_relay
  to_relay-Fits = record {
    at = λ s h.
        (on_output-Fits (on_backend read s).0).at (on_backend read s).1
          ((on_backend-Fits read read-Sized).at s h);
  }

  finish-Fits :
      (preserve : Bool) (done : Reply (Unit {0})) (s : Session)
      → Fits s
      → Fits (finish p preserve done s).1
  unfolding finish
  finish-Fits true done s h = h
  finish-Fits false done s h = (on_backend-Fits _ close-Sized).at s h

-- Every session that may be given last
abbrev AllFit : Option (Reply (Unit {0}) × Session) → Type 0
AllFit none = Unit {0}
AllFit (some r) = Fits r.1

unless_done-AllFit :
    (t : Task) (result : Reply (Unit {0}) → Reply (Unit {0}) × Session)
    (later : Option (Reply (Unit {0}) × Session))
    → ((done : Reply (Unit {0})) → Fits (result done).1)
    → AllFit later
    → AllFit (unless_done t result later)
unless_done-AllFit goes_on result later now h = h
unless_done-AllFit (ends done) result later now h = now done

run_pty_session-AllFit :
    (p : Platform) (preserve : Bool) (turns : List Bool) (s : Session)
    → Fits s
    → AllFit (run_pty_session p preserve turns s)
unfolding run_pty_session
run_pty_session-AllFit p preserve [] s h = tt
run_pty_session-AllFit p preserve (true ∷ turns) s h =
    let k = (from_relay-Fits p).at s h in
    unless_done-AllFit (task_of (from_relay p s).0) _ _ (λ done. finish-Fits p preserve done _ k)
      (run_pty_session-AllFit p preserve turns _ k)
run_pty_session-AllFit p preserve (false ∷ turns) s h =
    let k = (to_relay-Fits p).at s h in
    unless_done-AllFit (task_of (to_relay p s).0) _ _ (λ done. finish-Fits p preserve done _ k)
      (run_pty_session-AllFit p preserve turns _ k)

-- Whatever frames the relay sends and however the two directions interleave: if the terminal was only set to
-- sizes from 1 to 9999 before a session, then so it was when the session has ended.
pub run_pty_session-Sized :
    (p : Platform) (preserve : Bool) (turns : List Bool) (s : Session)
    (r : Reply (Unit {0}) × Session)
    → Sized s.backend
    → run_pty_session p preserve turns s ≡ some r
    → Sized r.1.backend
run_pty_session-Sized p preserve turns s r h e =
    subst AllFit e (run_pty_session-AllFit p preserve turns s h)
