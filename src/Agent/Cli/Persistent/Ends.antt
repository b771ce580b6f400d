-- ===== src/Agent/Cli/Persistent/Ends.antt =====
-- A persistent session ends once its child does, and leaves no child running and no client open.
use termhop.Base.{
  ℕ, ◌≤◌, ◌≡◌, refl, sym, subst, ◌⊎◌, inl, inr, String, Bool, true, false, some, List, [], ◌∷◌,
  arith,
}
use termhop.Agent.Reply.{Reply, answer, failed, Fault, change}
use termhop.Agent.Config.{AgentConfig}
use termhop.Agent.PtyBackend.Alive.{Dead, close-Dead, close-not_alive}
use termhop.Agent.RelayClient.{RelayClient, closed, init_client, ParsedUrl}
use termhop.Agent.RelayClient
use termhop.Agent.RelayClient.Handshake.Short.{Short}
use termhop.Agent.SessionPump.{Session}
use termhop.Agent.SessionPump.Ending.{turns_in, run_pty_session-Gives}
use termhop.Agent.Cli.{World}
use termhop.Agent.Cli.Persistent.{
  Visit, Standing, Run, child_gone, while_alive, alive, reconnect, closing, leaving, ended_run,
  reconnected, visited, run_persistent_session,
}
use termhop.Agent.Cli.Persistent.Reconnect.{Few, child_ends_in, Settled, Settles, reconnect-Settles}

-- How a run that is over stands: it raised, or no child runs, and the client is closed.
abbrev pub IsOver : Reply (Unit {0}) × Standing → Type 0
IsOver r = ((e : Fault) × (r.0 ≡ failed e)) ⊎ (Dead r.1.0.backend × (r.1.0.client.state ≡ closed))

abbrev pub Finishes : Run (Unit {0}) Standing → Type 0
Finishes o = (r : Reply (Unit {0}) × Standing) × (o ≡ some r) × IsOver r

module _ (n : ℕ) where
  -- A script by which the session must end. Every visit leaves the task of the relay more turns than frames
  -- can wait. The child ends in the course of a visit; or in that of one of the attempts after the visit,
  -- unless one before it brings a new client, with which the rest of the script has to end.
  pub data Ending : List Visit → Type 0 where
    child_ends_by :
        {v : Visit} {visits : List Visit}
        → n ≤ turns_in v.turns
        → v.child_ends ≡ true
        → Ending (v ∷ visits)
    next_visit :
        {v : Visit} {visits : List Visit}
        → n ≤ turns_in v.turns
        → Few n v.attempts
        → child_ends_in v.attempts ≡ true
        → Ending visits
        → Ending (v ∷ visits)

module _ (world : World) (relay_url : String) (config : AgentConfig) (n : ℕ) where
  ended_run-Finishes :
      (standing : Standing)
      → Dead standing.0.backend
      → Finishes (ended_run world relay_url config standing)
  unfolding closing RelayClient.close change
  ended_run-Finishes standing dead = (_, refl, inr (close-Dead standing.0.backend false dead, refl))

  while-Finishes :
      (r : Reply Bool) (standing : Standing) (body : Run (Unit {0}) Standing)
      → r ≡ alive world relay_url config standing.0
      → (r ≡ answer true → Finishes body)
      → Finishes (while_alive r standing (ended_run world relay_url config standing) body)
  while-Finishes (answer true) standing body same k = k refl
  while-Finishes (answer false) standing body same k = ended_run-Finishes standing (sym same)
  while-Finishes (failed e) standing body same k = ((failed e, standing), refl, inl (e, refl))

  gone_run-Finishes :
      (visits : List Visit) (standing : Standing)
      → Dead standing.0.backend
      → Finishes (run_persistent_session world relay_url config visits standing)
  unfolding run_persistent_session
  gone_run-Finishes [] standing dead = while-Finishes _ standing _ refl λ on. absurd (cc (dead, on))
  gone_run-Finishes (v ∷ visits) standing dead =
      while-Finishes _ standing _ refl λ on. absurd (cc (dead, on))

  -- What the outer loop does from any standing
  abbrev Goes : (Standing → Run (Unit {0}) Standing) → Type 0
  Goes next =
      ((standing : Standing) → Dead standing.0.backend → Finishes (next standing))
      × ((standing : Standing) → Short n standing.0.client → Finishes (next standing))

  module _ (next : Standing → Run (Unit {0}) Standing) (go : Goes next) where
    after_search-Finishes :
        (replaced : Bool) (r : Reply Bool × Session)
        → Settled n r
        → Finishes (reconnected world relay_url config replaced (some r) next)
    after_search-Finishes replaced (failed e, s) h = (_, refl, inl (e, refl))
    after_search-Finishes replaced (answer false, s) (inl (e, h)) = absurd cc
    after_search-Finishes replaced (answer false, s) (inr (inl (h, dead))) = go.0 (s, replaced) dead
    after_search-Finishes replaced (answer false, s) (inr (inr (h, few))) = absurd cc
    after_search-Finishes replaced (answer true, s) (inl (e, h)) = absurd cc
    after_search-Finishes replaced (answer true, s) (inr (inl (h, dead))) = absurd cc
    after_search-Finishes replaced (answer true, s) (inr (inr (h, few))) = go.1 (s, true) few

    reconnected-Finishes :
        (replaced : Bool) (o : Run Bool Session)
        → Settles n o
        → Finishes (reconnected world relay_url config replaced o next)
    reconnected-Finishes replaced o (r, q, h) =
        subst (λ o. Finishes (reconnected world relay_url config replaced o next)) (sym q)
          (after_search-Finishes replaced r h)

  -- After a visit: where the child lives on, the search for a new client goes on.
  abbrev Searches : Visit → Bool → (Standing → Run (Unit {0}) Standing) → Type 0
  Searches v replaced next =
      (s : Session)
      → alive world relay_url config (child_gone v.child_ends s) ≡ answer true
      → Finishes (
          reconnected world relay_url config replaced
            (reconnect world relay_url config v.attempts
              (leaving world relay_url config (child_gone v.child_ends s)))
            next)

  visited-Finishes :
      (v : Visit) (replaced : Bool) (r : Reply (Unit {0}) × Session)
      (next : Standing → Run (Unit {0}) Standing)
      → Searches v replaced next
      → Finishes (visited world relay_url config v replaced (some r) next)
  unfolding visited
  visited-Finishes v replaced (failed e, s) next searches = (_, refl, inl (e, refl))
  visited-Finishes v replaced (answer _, s) next searches =
      while-Finishes _ (child_gone v.child_ends s, replaced) _ refl λ on. searches s on

  -- A child that has ended does not live on.
  ended_in_visit :
      (b : Bool) (s : Session) (A : Type 0)
      → b ≡ true
      → alive world relay_url config (child_gone b s) ≡ answer true
      → A
  unfolding child_gone
  ended_in_visit true s A h on = absurd (close-not_alive s.backend on)
  ended_in_visit false s A h on = absurd cc

  -- A visit in which the child ends, or after which the search settles
  visit-Finishes :
      (v : Visit) (visits : List Visit) (standing : Standing)
      → n ≤ turns_in v.turns
      → Short n standing.0.client
      → Searches v standing.1 (run_persistent_session world relay_url config visits)
      → Finishes (run_persistent_session world relay_url config (v ∷ visits) standing)
  unfolding run_persistent_session
  visit-Finishes v visits standing turns few searches = while-Finishes _ standing _ refl λ on.
      let ran =
        run_pty_session-Gives world.platform true v.turns standing.0 (omega (arith, turns, few)) in
      subst
        (λ o. Finishes (
          visited world relay_url config v standing.1 o
            (run_persistent_session world relay_url config visits)))
        (sym ran.1) (visited-Finishes v standing.1 ran.0 _ searches)

  -- Once the child ends, by a script that ends a session in which fewer than `n` frames wait for the client at
  -- the beginning, `_run_persistent_session` is over: it has raised, or it has returned, and then no child
  -- runs and the client is closed. Such a script gives the relay's task of every visit at least `n` turns; in
  -- each search for a new client fewer than `n` frames come at every attempt, and the child ends by the last
  -- of them, unless one before it brings a new client; and the child ends by the end of the last visit.
  pub run_persistent_session-Finishes :
      {visits : List Visit}
      → Ending n visits
      → (standing : Standing) → Short n standing.0.client
      → Finishes (run_persistent_session world relay_url config visits standing)
  run_persistent_session-Finishes (child_ends_by {v} {visits} turns gone) standing few =
      visit-Finishes v visits standing turns few (λ s on. ended_in_visit v.child_ends s _ gone on)
  run_persistent_session-Finishes (next_visit {v} {visits} turns frames ends later) standing few =
      visit-Finishes v visits standing turns few (λ s on.
        reconnected-Finishes _ (gone_run-Finishes visits, run_persistent_session-Finishes later) _ _
          (reconnect-Settles world relay_url config n v.attempts _ frames λ _. ends))
