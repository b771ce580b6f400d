-- ===== src/Agent/Cli/Persistent.antt =====
-- agent/common/cli.py: `_run_persistent_session`, along a script of what happens at its awaits. A list that
-- is used up while the child still runs leaves the run open, which is `none`.
pub mod Reconnect
pub mod Ends
pub mod Proved
use termhop.Base.{String, Bool, true, false, not, Option, none, some, List, [], ◌∷◌, if◌then◌else◌}
use termhop.Agent.Reply.{
  Reply, answer, failed, Fault, Command, give, raise, reads, change, ◌>>=◌, ◌>>◌,
}
use termhop.Agent.Config.{AgentConfig}
use termhop.Agent.PtyBackend.{Backend, Proc, is_alive}
use termhop.Agent.PtyBackend
use termhop.Agent.RelayClient.{RelayClient, Client, init_client, connect}
use termhop.Agent.RelayClient
use termhop.Agent.RelayClient.Handshake.{send_resume_init, await_resume_and_complete}
use termhop.Agent.SessionPump.{Session, run_pty_session, on_client, on_backend}
use termhop.Agent.Cli.{World}

-- One attempt to reconnect: whether the child ends while it waits, and the frames that the relay delivers
pub record Attempt : Type 0 where
  pub child_ends : Bool
  pub frames : List String

-- One visit of a browser: how the rounds of its session are scheduled, whether the child ends by its end,
-- and what is tried after it
pub record Visit : Type 0 where
  pub turns : List Bool
  pub child_ends : Bool
  pub attempts : List Attempt

-- The session, and whether the client is no longer the one that the run began with
abbrev pub Standing : Type 0
Standing = Session × Bool

-- What a loop has come to, or none where the script ends first
abbrev pub Run : Type 0 → Type 0 → Type 0
Run A S = Option (Reply A × S)

abbrev pub text_or_empty : Option String → String
text_or_empty none = ""
text_or_empty (some s) = s

-- The child ends by itself.
unfoldable pub child_gone : Bool → Session → Session
unfolding PtyBackend.close
child_gone true s = record s { backend = (PtyBackend.close s.backend).1 }
child_gone false s = s

-- The head of a `while backend.is_alive()`, with what comes after the loop and what its body does
abbrev pub while_alive : {A S : Type 0} → Reply Bool → S → Run A S → Run A S → Run A S
while_alive (answer true) s after body = body
while_alive (answer false) s after body = after
while_alive (failed e) s after body = some (failed e, s)

-- `break` where the client was replaced, and else the next attempt
abbrev pub or_again : Reply Bool × Session → Run Bool Session → Run Bool Session
or_again (answer true, s) rest = some (answer true, s)
or_again (answer false, s) rest = rest
or_again (failed e, s) rest = some (failed e, s)

-- What an attempt leaves: the replacement is the client, or it is closed and dropped.
abbrev pub tried : Session → Reply (Unit {0}) × RelayClient → Reply Bool × Session
tried s (answer _, c) = (answer true, record s { client = c })
tried s (failed e, c) = (answer false, record s { client = record s.client { moment = c.moment } })

module _ (world : World) (relay_url : String) (config : AgentConfig) where
  -- connect, send_resume_init and await_resume_and_complete, in one `try`
  unfoldable pub resume_with : Client (Unit {0})
  unfolding connect send_resume_init await_resume_and_complete
  resume_with = do
    connect world.platform
    send_resume_init world.platform (text_or_empty config.device_id)
        (text_or_empty config.device_secret)
    await_resume_and_complete world.platform

  abbrev pub alive : Session → Reply Bool
  alive s = (is_alive s.backend).0

  -- RelayClient(relay_url, agent_hostname=hostname), now
  attempt_from : Reply RelayClient → Session → Reply Bool × Session
  unfolding resume_with
  attempt_from (failed e) s = (failed e, s)
  attempt_from (answer c) s = tried s (resume_with (record c { moment = s.client.moment }))

  unfoldable pub attempt : List String → Session → Reply Bool × Session
  unfolding init_client attempt_from
  attempt frames s = attempt_from (init_client world.urlparse relay_url world.hostname frames) s

  -- The inner loop: whether it replaced the client
  unfoldable pub reconnect : List Attempt → Session → Run Bool Session
  unfolding attempt child_gone is_alive
  reconnect [] s = while_alive (alive s) s (some (answer false, s)) none
  reconnect (a ∷ attempts) s =
      let r = attempt a.frames (child_gone a.child_ends s) in
      while_alive (alive s) s (some (answer false, s)) (or_again r (reconnect attempts r.1))

  -- backend.close(), client.close()
  unfoldable pub closing : Session → Session
  unfolding PtyBackend.close RelayClient.close
  closing s = record {
    client = (RelayClient.close world.platform s.client).1;
    backend = (PtyBackend.close s.backend).1;
  }

  -- client.close()
  unfoldable pub leaving : Session → Session
  unfolding RelayClient.close
  leaving s = record s { client = (RelayClient.close world.platform s.client).1 }

  abbrev pub ended_run : Standing → Run (Unit {0}) Standing
  ended_run standing = some (answer tt, (closing standing.0, standing.1))

  -- What follows the inner loop: `next` is the outer one from here.
  abbrev pub reconnected :
      Bool → Run Bool Session → (Standing → Run (Unit {0}) Standing) → Run (Unit {0}) Standing
  reconnected replaced none next = none
  reconnected replaced (some (failed e, s)) next = some (failed e, (s, replaced))
  reconnected replaced (some (answer false, s)) next = next (s, replaced)
  reconnected replaced (some (answer true, s)) next = next (s, true)

  -- What follows `run_pty_session`
  unfoldable pub visited :
      Visit
      → Bool
      → Run (Unit {0}) Session
      → (Standing → Run (Unit {0}) Standing)
      → Run (Unit {0}) Standing
  unfolding is_alive child_gone closing reconnect leaving
  visited visit replaced none next = none
  visited visit replaced (some (failed e, s)) next = some (failed e, (s, replaced))
  visited visit replaced (some (answer _, s0)) next =
      let s = child_gone visit.child_ends s0 in
      while_alive (alive s) (s, replaced) (ended_run (s, replaced))
        (reconnected replaced (reconnect visit.attempts (leaving s)) next)

  unfoldable pub run_persistent_session : List Visit → Standing → Run (Unit {0}) Standing
  unfolding is_alive closing visited run_pty_session
  run_persistent_session [] standing =
      while_alive (alive standing.0) standing (ended_run standing) none
  run_persistent_session (visit ∷ visits) standing =
      while_alive (alive standing.0) standing (ended_run standing) (
        visited visit standing.1 (run_pty_session world.platform true visit.turns standing.0)
          (run_persistent_session visits))
