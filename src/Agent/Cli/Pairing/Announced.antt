-- ===== src/Agent/Cli/Pairing/Announced.antt =====
-- A new device that is announced: the settings hold its credential, and the file does not yet.
use termhop.Base.{◌≡◌, refl, ◌⊎◌, inl, inr, String, Option, none, some}
use termhop.Agent.Reply.{Reply, failed, Fault, Command, give, reads, change, ◌>>=◌, ◌>>◌}
use termhop.Agent.Config.{AgentConfig}
use termhop.Agent.RelayClient.{RelayClient, needs, generate_device_id, generate_pairing_secret}
use termhop.Agent.RelayClient.Handshake.{send_pair_init, await_pair_init_ack}
use termhop.Agent.Cli.{World, Agent, on_relay, on_settings}
use termhop.Agent.Cli.Pairing.{announce, set_device_id, set_device_secret}
use termhop.Agent.Cli.Pairing.Steps.{at_client, on_relay_at}

abbrev pub Stops : {A : Type 0} → Reply A × Agent → Type 0
Stops r = (e : Fault) × (r.0 ≡ failed e)

-- The settings of a new credential, under the URL of the relay
abbrev pub new_config : Option String → String → String → AgentConfig
new_config relay_url device_id device_secret = record {
  relay_url = relay_url;
  device_id = some device_id;
  device_secret = some device_secret;
}

module _ (world : World) (label : String) where
  -- The file is as it was; where the announcement went through, the settings hold a new credential.
  abbrev pub Announced : Agent → Reply (Unit {0}) × Agent → Type 0
  Announced b r =
      (r.1.settings.file ≡ b.settings.file)
      × (Stops r
          ⊎ ((device_id : String) × (device_secret : String) × (r.1.settings.config
                ≡ new_config b.settings.config.relay_url device_id device_secret)))

  -- The assertions
  abbrev needs_then : RelayClient → Command Agent (Unit {0})
  needs_then c =
      on_relay (needs c.pairing_secret) >> (on_relay (needs c.agent_pubkey_b64) >> give tt)

  abbrev ack_then : Command Agent (Unit {0})
  ack_then =
      on_relay (await_pair_init_ack world.platform)
      >> (reads (λ (a : Agent). a.session.client) >>= needs_then)

  abbrev secret_then : String → String → Command Agent (Unit {0})
  secret_then device_id secret =
      on_settings (change (set_device_secret (some secret)))
      >> (on_relay (send_pair_init world.platform none (some device_id)) >>= λ _. ack_then)

  abbrev id_then : String → Command Agent (Unit {0})
  id_then device_id =
      on_settings (change (set_device_id (some device_id)))
      >> (on_relay (generate_pairing_secret world.platform) >>= secret_then device_id)

  pub announce-Announced : (b : Agent) → Announced b (announce world label b)
  unfolding announce reads give on_settings change ◌>>=◌
  announce-Announced b =
      let Q = Announced b in
      on_relay_at Q (generate_device_id world.platform) id_then b
        (λ device_id c1 _.
          let b1 = record (at_client b c1) {
            settings = set_device_id (some device_id) b.settings;
          } in
          on_relay_at Q (generate_pairing_secret world.platform) (secret_then device_id) b1
            (λ device_secret c2 _.
              let b2 = record (at_client b c2) {
                settings = set_device_secret (some device_secret) b1.settings;
              } in
              on_relay_at Q (send_pair_init world.platform none (some device_id)) (λ _. ack_then) b2
                (λ ids c3 _.
                  on_relay_at Q (await_pair_init_ack world.platform)
                    (λ _. reads (λ (a : Agent). a.session.client) >>= needs_then) (at_client b2 c3)
                    (λ _ c4 _.
                      on_relay_at Q (needs c4.pairing_secret)
                        (λ _. on_relay (needs c4.agent_pubkey_b64) >> give tt) (at_client b2 c4)
                        (λ _ c5 _.
                          on_relay_at Q (needs c4.agent_pubkey_b64) (λ _. give tt) (at_client b2 c5)
                            (λ _ c6 _. (refl, inr (device_id, device_secret, refl)))
                            (λ e c _. (refl, inl (e, refl))))
                        (λ e c _. (refl, inl (e, refl))))
                    (λ e c _. (refl, inl (e, refl))))
                (λ e c _. (refl, inl (e, refl))))
            (λ e c _. (refl, inl (e, refl))))
        (λ e c _. (refl, inl (e, refl)))
