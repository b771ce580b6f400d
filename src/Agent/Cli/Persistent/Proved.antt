-- ===== src/Agent/Cli/Persistent/Proved.antt =====
-- A persistent session reconnects to a client that proves that it knows the device's secret, and to no other.
use termhop.Base.{◌≡◌, refl, ap, subst, ◌⊎◌, inl, inr, String, Bool, true, false, List, ◌⧺◌}
use termhop.Agent.Reply.{Reply, answer, failed, Fault}
use termhop.Agent.Reply.Cases.{bind_at}
use termhop.Agent.Config.{AgentConfig}
use termhop.Agent.RelayClient.{Client, RelayClient, connect, init_client}
use termhop.Agent.RelayClient.Handshake.{send_resume_init, await_resume_and_complete}
use termhop.Agent.RelayClient.Handshake.Resume.{Resumes, await_resume-Ends}
use termhop.Agent.RelayClient.Handshake.Saved.{Carries, send_resume_init-Carries}
use termhop.Agent.SessionPump.{Session}
use termhop.Agent.Cli.{World}
use termhop.Agent.Cli.Persistent.{text_or_empty, tried, resume_with, attempt_from, attempt}

module _ (world : World) (relay_url : String) (config : AgentConfig) where
  abbrev announce_saved : Client String
  announce_saved =
      send_resume_init world.platform (text_or_empty config.device_id)
        (text_or_empty config.device_secret)

  -- From the client `c`: it connected and announced the saved device, and was then resumed by a proof under the
  -- secret of that device.
  pub record Proven (c c' : RelayClient) : Type 0 where
    pub online : RelayClient
    pub session_id : String
    pub announced : RelayClient
    pub connected : connect world.platform c ≡ (answer tt, online)
    pub announces : announce_saved online ≡ (answer session_id, announced)
    pub carries :
        Carries
          ("resume:" ⧺ text_or_empty config.device_id)
          (text_or_empty config.device_secret)
          announced
    pub resumes : Resumes world.platform announced c'

  abbrev Proves : RelayClient → Reply (Unit {0}) × RelayClient → Type 0
  Proves c r = ((e : Fault) × (r.0 ≡ failed e)) ⊎ Proven c r.1

  resume_with-Proves : (c : RelayClient) → Proves c (resume_with world relay_url config c)
  unfolding resume_with
  resume_with-Proves c =
      bind_at (Proves c) (connect world.platform) _ c
        (λ _ c1 q1.
          bind_at (Proves c) announce_saved (λ _. await_resume_and_complete world.platform) c1
            (λ session_id c2 q. elim (await_resume-Ends world.platform c2) [
              | inl (e, raised, state) ↦ inl (e, raised)
              | inr (ok, resumes) ↦ inr (record {
                online = c1;
                session_id = session_id;
                announced = c2;
                connected = q1;
                announces = q;
                carries =
                    subst
                      (λ (r : Reply String × RelayClient).
                        Carries ("resume:" ⧺ text_or_empty config.device_id)
                          (text_or_empty config.device_secret) r.1)
                      q
                      (send_resume_init-Carries world.platform (text_or_empty config.device_id)
                        (text_or_empty config.device_secret) c1);
                resumes = resumes;
              })
            ])
            (λ e c2 q. inl (e, refl)))
        (λ e c1 q. inl (e, refl))

  -- What an attempt does to the session `s`, by the client that it makes
  abbrev pub Attempted : List String → Session → Reply Bool × Session → Type 0
  Attempted frames s r =
      (r.1.backend ≡ s.backend)
      × (((e : Fault) × (init_client world.urlparse relay_url world.hostname frames ≡ failed e)
            × (r ≡ (failed e, s)))
          ⊎ ((fresh : RelayClient) × (init_client world.urlparse relay_url world.hostname frames
                ≡ answer fresh)
              × (((r.0 ≡ answer true)
                    × Proven (record fresh { moment = s.client.moment }) r.1.client)
                  ⊎ ((e : Fault) × (r.0 ≡ answer false)
                      × ((resume_with world relay_url config
                            (record fresh { moment = s.client.moment })).0
                          ≡ failed e)
                      × (r.1.client ≡ record s.client { moment = r.1.client.moment })))))

  module _ (frames : List String) (s : Session) where
    tried-Attempted :
        (fresh : RelayClient)
        → init_client world.urlparse relay_url world.hostname frames ≡ answer fresh
        → (r : Reply (Unit {0}) × RelayClient)
        → resume_with world relay_url config (record fresh { moment = s.client.moment }) ≡ r
        → Proves (record fresh { moment = s.client.moment }) r
        → Attempted frames s (tried s r)
    tried-Attempted fresh made (answer _, c) q (inl (e, raised)) = absurd cc
    tried-Attempted fresh made (answer _, c) q (inr proven) =
        (refl, inr (fresh, made, inl (refl, proven)))
    tried-Attempted fresh made (failed e, c) q h = (
      refl,
      inr (fresh, made, inr (e, refl, ap (λ (r : Reply (Unit {0}) × RelayClient). r.0) q, refl)),
    )

    attempt_from-Attempted :
        (r : Reply RelayClient)
        → init_client world.urlparse relay_url world.hostname frames ≡ r
        → Attempted frames s (attempt_from world relay_url config r s)
    unfolding attempt_from
    attempt_from-Attempted (failed e) made = (refl, inl (e, made, refl))
    attempt_from-Attempted (answer c) made =
        let now = record c { moment = s.client.moment } in
        tried-Attempted c made (resume_with world relay_url config now) refl
          (resume_with-Proves now)

    -- An attempt to reconnect leaves the terminal alone. It raises only where the relay's URL is refused. Else it
    -- makes a new client, and either replaces the old one by it, or keeps the old one. It replaces it where the
    -- new client connected, announced the saved device, and was resumed by a proof under the secret of that
    -- device, in the frame that it received for its session; it keeps it where this raised.
    pub attempt-Attempted : Attempted frames s (attempt world relay_url config frames s)
    unfolding attempt
    attempt-Attempted =
        attempt_from-Attempted (init_client world.urlparse relay_url world.hostname frames) refl
