-- ===== src/Agent/Cli/Persistent/Reconnect.antt =====
-- The search for a new client ends once the child does, if not before.
use termhop.Base.{
  ℕ, ◌<◌, ◌≡◌, refl, sym, ◌∙◌, ap, ◌⊎◌, inl, inr, String, Bool, true, false, none, some, List, [],
  ◌∷◌, arith, length, some_of, ◌||◌, if◌then◌else◌,
}
use termhop.Agent.Reply.{Reply, answer, failed, Fault}
use termhop.Agent.Reply.Keeps.{Keeps, reply_rules}
use termhop.Agent.Config.{AgentConfig}
use termhop.Agent.PtyBackend.{Backend, is_alive}
use termhop.Agent.PtyBackend.Alive.{Dead, close-Dead}
use termhop.Agent.RelayClient.{RelayClient, init_client, ParsedUrl}
use termhop.Agent.RelayClient.Handshake.Short.{
  Short, connect-Short, send_resume_init-Short, await_resume-Short,
}
use termhop.Agent.SessionPump.{Session}
use termhop.Agent.Cli.{World}
use termhop.Agent.Cli.Persistent.{
  Attempt, Run, child_gone, while_alive, or_again, tried, resume_with, alive, attempt_from, attempt,
  reconnect,
}

module _ (frames : List String) where
  -- A new client waits for these frames.
  abbrev Fresh : Reply RelayClient → Type 0
  Fresh (answer c) = c.inbox ≡ frames
  Fresh (failed e) = Unit {0}

  if-Fresh : (b : Bool) (x y : Reply RelayClient) → Fresh x → Fresh y → Fresh (if b then x else y)
  if-Fresh true x y hx hy = hx
  if-Fresh false x y hx hy = hy

  init_client-Fresh :
      (urlparse : String → ParsedUrl) (relay_url hostname : String)
      → Fresh (init_client urlparse relay_url hostname frames)
  unfolding init_client
  init_client-Fresh urlparse relay_url hostname = search (if-Fresh, tt)

-- The child ends by the end of one of these attempts.
abbrev pub child_ends_in : List Attempt → Bool
child_ends_in attempts = some_of (λ (a : Attempt). a.child_ends) attempts

module _ (n : ℕ) where
  abbrev pub Few : List Attempt → Type 0
  Few [] = Unit {0}
  Few (a ∷ attempts) = (length a.frames < n) × Few attempts

  -- The inner loop has come to an end: it raised, or found the child dead, or brought a client with few
  -- frames.
  abbrev pub Settled : Reply Bool × Session → Type 0
  Settled r =
      ((e : Fault) × (r.0 ≡ failed e))
      ⊎ (((r.0 ≡ answer false) × Dead r.1.backend) ⊎ ((r.0 ≡ answer true) × Short n r.1.client))

  abbrev pub Settles : Run Bool Session → Type 0
  Settles o = (r : Reply Bool × Session) × (o ≡ some r) × Settled r

module _ (world : World) (relay_url : String) (config : AgentConfig) (n : ℕ) where
  resume_with-Short : Keeps (Short n) (resume_with world relay_url config)
  unfolding resume_with
  resume_with-Short =
      search (reply_rules, connect-Short, send_resume_init-Short, await_resume-Short) depth 10

  -- An attempt leaves the child alone; a client that it brings has few frames.
  abbrev Left : Session → Reply Bool × Session → Type 0
  Left s r = (r.1.backend ≡ s.backend) × (r.0 ≡ answer true → Short n r.1.client)

  tried-Left : (s : Session) (r : Reply (Unit {0}) × RelayClient) → Short n r.1 → Left s (tried s r)
  tried-Left s (answer _, c) few = (refl, λ _. few)
  tried-Left s (failed e, c) few = (refl, λ q. absurd cc)

  attempt_from-Left :
      (frames : List String) (r : Reply RelayClient) (s : Session)
      → length frames < n
      → Fresh frames r
      → Left s (attempt_from world relay_url config r s)
  unfolding attempt_from
  attempt_from-Left frames (failed e) s few fresh = (refl, λ q. absurd cc)
  attempt_from-Left frames (answer c) s few fresh =
      let now = record c { moment = s.client.moment } in
      tried-Left s (resume_with world relay_url config now)
        (resume_with-Short.at now (omega (arith, ap length fresh, few)))

  attempt-Left :
      (frames : List String) (s : Session)
      → length frames < n
      → Left s (attempt world relay_url config frames s)
  unfolding attempt
  attempt-Left frames s few =
      attempt_from-Left frames _ s few
        (init_client-Fresh frames world.urlparse relay_url world.hostname)

  -- The head of the loop, by what `is_alive` gives
  while-Settles :
      (r : Reply Bool) (s : Session) (body : Run Bool Session)
      → r ≡ alive world relay_url config s
      → (r ≡ answer true → Settles n body)
      → Settles n (while_alive r s (some (answer false, s)) body)
  while-Settles (answer true) s body same k = k refl
  while-Settles (answer false) s body same k = ((answer false, s), refl, inr (inl (refl, sym same)))
  while-Settles (failed e) s body same k = ((failed e, s), refl, inl (e, refl))

  or_again-Settles :
      (r : Reply Bool × Session) (rest : Run Bool Session)
      → (r.0 ≡ answer true → Short n r.1.client)
      → (r.0 ≡ answer false → Settles n rest)
      → Settles n (or_again r rest)
  or_again-Settles (answer true, s) rest h k = (_, refl, inr (inr (refl, h refl)))
  or_again-Settles (answer false, s) rest h k = k refl
  or_again-Settles (failed e, s) rest h k = (_, refl, inl (e, refl))

  -- A child that is alive after this moment did not end at it.
  outlives :
      (b later : Bool) (s : Session)
      → alive world relay_url config s ≡ answer true
      → (b || later) ≡ true
      → alive world relay_url config (child_gone b s) ≡ answer true
      → later ≡ true
  unfolding child_gone
  outlives true later s on ends still =
      let gone = close-Dead s.backend true on in absurd (cc (gone, still))
  outlives false later s on ends still = ends

  pub reconnect-Settles :
      (attempts : List Attempt) (s : Session)
      → Few n attempts
      → (alive world relay_url config s ≡ answer true → child_ends_in attempts ≡ true)
      → Settles n (reconnect world relay_url config attempts s)
  unfolding reconnect
  reconnect-Settles [] s few ends = while-Settles _ s none refl λ on. absurd (cc (ends on))
  reconnect-Settles (a ∷ attempts) s few ends =
      let s' = child_gone a.child_ends s in
      let r = attempt world relay_url config a.frames s' in
      let left = attempt-Left a.frames s' few.0 in
      while-Settles _ s _ refl λ on. or_again-Settles r _ left.1 λ again.
        reconnect-Settles attempts r.1 few.1 λ still.
          outlives a.child_ends _ s on (ends on)
            (ap (λ (b : Backend). (is_alive b).0) (sym left.0) ∙ still)
