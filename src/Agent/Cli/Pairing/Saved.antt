-- ===== src/Agent/Cli/Pairing/Saved.antt =====
-- When the file of settings changes, as the agent starts.
use termhop.Base.{
  ◌≡◌, refl, sym, ap, ◌∙◌, ◌⊎◌, inl, inr, String, Bool, true, false, some, if◌then◌else◌, subst,
}
use termhop.Agent.Reply.{
  Reply, answer, failed, Fault, handshake_error, os_error, give, reads, follow, ◌>>=◌,
}
use termhop.Agent.Reply.Cases.{if_at, bind_at}
use termhop.Agent.Config.{AgentConfig, config_text}
use termhop.Agent.RelayClient.{RelayClient, connect}
use termhop.Agent.RelayClient.Handshake.{await_pair_challenge_and_complete}
use termhop.Agent.RelayClient.Handshake.Challenge.{Pairs, await_pair_challenge-Pairs}
use termhop.Agent.RelayClient.Traffic.{send_device_credential}
use termhop.Agent.Cli.{World, credential_saved, Agent, on_relay}
use termhop.Agent.Cli.Persistent.{text_or_empty}
use termhop.Agent.Cli.Pairing.{
  Stage, exits, start_shell, resume_saved, save_and_start, await_client, announce, pair_new,
  connect_and_start, or_refused, has_credential,
}
use termhop.Agent.Cli.Pairing.Steps.{
  Holds, start_shell-Holds, resume_saved-Holds, at_client, on_relay_at, on_save_at,
}
use termhop.Agent.Cli.Pairing.Announced.{Stops, new_config, Announced, announce-Announced}

or_refused-cases :
    (e : Fault) → (or_refused (failed e) ≡ answer false) ⊎ (or_refused (failed e) ≡ failed e)
or_refused-cases (handshake_error text) = inl refl
or_refused-cases _ = inr refl

-- The client sent the credential, and the file holds it.
abbrev with_saved : Agent → RelayClient → Agent
with_saved a c = record (at_client a c) {
  settings = record a.settings { file = some (config_text a.settings.config) };
}

module _ (world : World) (label : String) where
  -- It raised with the file as it was; or the credential went out, the file was written, and the shell was
  -- started.
  abbrev Saves : Agent → Reply Stage × Agent → Type 0
  Saves a r =
      (Holds a.settings.file r.1 × Stops r)
      ⊎ ((c : RelayClient) × (send_device_credential world.platform
              (text_or_empty a.settings.config.device_id)
              (text_or_empty a.settings.config.device_secret) a.session.client
            ≡ (answer tt, c))
          × (r ≡ start_shell world label (with_saved a c)))

  save_and_start-Saves : (a : Agent) → Saves a (save_and_start world label a)
  unfolding save_and_start reads ◌>>=◌
  save_and_start-Saves a =
      on_relay_at (Saves a) (send_device_credential world.platform _ _) _ a
        (λ x c sent.
          on_save_at (Saves a) (world.io credential_saved) (λ _. start_shell world label)
            (at_client a c) (inr (c, sent, refl)) (inl (refl, (os_error, refl))))
        (λ e c stopped. inl (refl, (e, refl)))

  -- A run that paired. The client connected and announced a new device; it waited, and the challenge that it was
  -- sent was answered by the proof; the credential went out to that client; the file was written, with the
  -- credential and the URL of the relay; and the shell started from there.
  pub record Credential (a : Agent) (r : Reply Stage × Agent) : Type 0 where
    pub device_id : String
    pub device_secret : String
    pub first : RelayClient
    pub waiting : Agent
    pub after : RelayClient
    pub connected : connect world.platform a.session.client ≡ (answer tt, first)
    pub announced : announce world label (at_client a first) ≡ (answer tt, waiting)
    pub config_is :
        waiting.settings.config ≡ new_config a.settings.config.relay_url device_id device_secret
    pub challenged :
        Pairs world.platform waiting.session.client
          (await_pair_challenge_and_complete world.platform waiting.session.client)
    pub delivered :
        send_device_credential world.platform device_id device_secret
          (await_pair_challenge_and_complete world.platform waiting.session.client).1
        ≡ (answer tt, after)
    pub started : r ≡ start_shell world label (with_saved waiting after)
    pub saved :
        r.1.settings.file
        ≡ some (config_text (new_config a.settings.config.relay_url device_id device_secret))

  -- The file is as it was: the start raised or was refused, or the device had a credential already.
  abbrev Unchanged : Agent → Reply Stage × Agent → Type 0
  Unchanged a r =
      Holds a.settings.file r.1
      × (Stops r ⊎ (r.0 ≡ answer (exits 1)) ⊎ (has_credential a.settings.config ≡ true))

  module _ (a : Agent) where
    abbrev pub Ends : Reply Stage × Agent → Type 0
    Ends r = Unchanged a r ⊎ Credential a r

    -- From the wait for the challenge on
    module _ (device_id device_secret : String) (first : RelayClient) (b : Agent)
        (connected : connect world.platform a.session.client ≡ (answer tt, first))
        (announced : announce world label (at_client a first) ≡ (answer tt, b))
        (file_is : b.settings.file ≡ a.settings.file)
        (config_is : b.settings.config
          ≡ new_config a.settings.config.relay_url device_id device_secret) where
      authenticated :
          (c : RelayClient)
          → await_pair_challenge_and_complete world.platform b.session.client ≡ (answer tt, c)
          → Pairs world.platform b.session.client
              (await_pair_challenge_and_complete world.platform b.session.client)
      authenticated c q = elim (await_pair_challenge-Pairs world.platform b.session.client) [
        | inl (e, raised, sent, state) ↦ absurd (cc (raised, q))
        | inr pairs ↦ pairs
      ]

      saved_credential :
          (c : RelayClient)
          → await_pair_challenge_and_complete world.platform b.session.client ≡ (answer tt, c)
          → Ends (save_and_start world label (at_client b c))
      saved_credential c q = elim (save_and_start-Saves (at_client b c)) [
        | inl (same, stops) ↦ inl (same ∙ file_is, inl stops)
        | inr (after, sent, started) ↦ inr (record {
          device_id = device_id;
          device_secret = device_secret;
          first = first;
          waiting = b;
          after = after;
          connected = connected;
          announced = announced;
          config_is = config_is;
          challenged = authenticated c q;
          delivered =
              subst
                (λ (k : AgentConfig).
                  send_device_credential world.platform (text_or_empty k.device_id)
                    (text_or_empty k.device_secret)
                    (await_pair_challenge_and_complete world.platform b.session.client).1
                  ≡ (answer tt, after))
                config_is
                (subst
                  (λ (c' : RelayClient).
                    send_device_credential world.platform
                      (text_or_empty b.settings.config.device_id)
                      (text_or_empty b.settings.config.device_secret) c'
                    ≡ (answer tt, after))
                  (sym (ap (λ (r : Reply (Unit {0}) × RelayClient). r.1) q)) sent);
          started = started;
          saved =
              ap (λ (r : Reply Stage × Agent). r.1.settings.file) started
              ∙ (start_shell-Holds world label (some (config_text b.settings.config))).at
                  (with_saved b after) refl
              ∙ ap (λ (k : AgentConfig). some (config_text k)) config_is;
        })
      ]

      abbrev next : Reply Bool × Agent → Reply Stage × Agent
      next = follow λ is_paired. if is_paired then save_and_start world label else give (exits 1)

      answered :
          (r : Reply (Unit {0}) × RelayClient)
          → await_pair_challenge_and_complete world.platform b.session.client ≡ r
          → Ends (next (or_refused r.0, at_client b r.1))
      unfolding give
      answered (answer x, c) q = saved_credential c q
      answered (failed e, c) q =
          let Next = λ (r : Reply Bool). Ends (next (r, at_client b c)) in
          elim (or_refused-cases e) [
            | inl refused ↦ subst Next (sym refused) (inl (file_is, inr (inl refl)))
            | inr raised ↦ subst Next (sym raised) (inl (file_is, inl (e, refl)))
          ]

      challenge-Ends : Ends (
          (await_client world label >>= λ is_paired.
          if is_paired then save_and_start world label else give (exits 1))
            b)
      unfolding await_client on_relay ◌>>=◌
      challenge-Ends = answered _ refl

    pair_new-Ends :
        (first : RelayClient)
        → connect world.platform a.session.client ≡ (answer tt, first)
        → Ends (pair_new world label (at_client a first))
    unfolding pair_new
    pair_new-Ends first connected =
        let said =
          λ (r : Reply (Unit {0}) × Agent) (q : announce world label (at_client a first) ≡ r).
            subst (λ (r : Reply (Unit {0}) × Agent). Announced world label (at_client a first) r) q
              (announce-Announced world label (at_client a first)) in
        bind_at Ends (announce world label) _ (at_client a first)
          (λ _ b q. elim (said (answer tt, b) q).1 [
            | inl (e, raised) ↦ absurd cc
            | inr (device_id, device_secret, config_is) ↦
                challenge-Ends device_id device_secret first b connected q (said (answer tt, b) q).0
                  config_is
          ])
          (λ e b q. inl ((said (failed e, b) q).0, inl (e, refl)))

    -- However the start of the agent ends, one of two things holds. Either the file of settings is as it was, and
    -- the start raised or was refused, or the device had a credential already. Or the client connected and
    -- announced a new device, the challenge that it then waited for was answered, by the proof of a client
    -- that knows the pairing secret; after that the new credential went out to it; after that the file was
    -- written, and holds that credential and the URL of the relay; and the shell was started from there.
    pub connect_and_start-Ends : Ends (connect_and_start world label a)
    unfolding connect_and_start reads ◌>>=◌
    connect_and_start-Ends =
        on_relay_at Ends (connect world.platform) _ a
          (λ _ c q.
            if_at Ends (has_credential a.settings.config) (resume_saved world label)
              (pair_new world label) (at_client a c)
              (λ saved. inl (
                (resume_saved-Holds world label a.settings.file).at (at_client a c) refl,
                inr (inr saved),
              ))
              (λ new. pair_new-Ends c q))
          (λ e c _. inl (refl, inl (e, refl)))
