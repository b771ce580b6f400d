-- ===== src/Agent/Cli/Main.antt =====
-- agent/common/cli.py: `run_cli`, from the arguments and the file of settings to the exit code. Ctrl+C, and the
-- parsing of the arguments, are left out.
use termhop.Base.{String, Bool, false, not, Option, none, some, List, if◌then◌else◌, ℕ}
use termhop.Agent.Reply.{
  Reply, answer, failed, handshake_error, toml_error, Command, give, change, ◌>>◌,
}
use termhop.Agent.Config.{AgentConfig, load_config, is_set}
use termhop.Agent.PtyBackend.{new_backend}
use termhop.Agent.RelayClient.{RelayClient, init_client}
use termhop.Agent.Cli.{World, relay_url_saved, rotation_saved, Settings, Agent, save_settings}
use termhop.Agent.Cli.Persistent.{Visit, Run, text_or_empty}
use termhop.Agent.Cli.Pairing.{set_device_id, set_device_secret, pair_and_stream}

-- What the arguments of `pair` say
pub record Args : Type 0 where
  pub relay : Option String
  pub new_pairing : Bool
  pub label : String

-- args.relay or config.relay_url
abbrev relay_or : Option String → Option String → Option String
relay_or given saved = if is_set given then given else saved

abbrev set_relay_url : Option String → Settings → Settings
set_relay_url url s = record s { config = record s.config { relay_url = url } }

-- except HandshakeError: return 1
or_one : Reply ℕ → Reply ℕ
or_one (failed (handshake_error _)) = answer 1
or_one r = r

module _ (world : World) (args : Args) where
  keep_relay_url : Command Settings (Unit {0})
  unfolding save_settings
  keep_relay_url =
      if is_set args.relay
      then (do change (set_relay_url args.relay); save_settings (world.io relay_url_saved))
      else give tt

  rotate_credential : Command Settings (Unit {0})
  unfolding save_settings
  rotate_credential =
      if args.new_pairing
      then (do
        change (λ s. set_device_secret none (set_device_id none s))
        save_settings (world.io rotation_saved))
      else give tt

  -- What the options change before anything is sent
  unfoldable pub apply_args : Command Settings (Unit {0})
  unfolding keep_relay_url rotate_credential
  apply_args = do keep_relay_url; rotate_credential

  finished : Run ℕ Agent → Run ℕ (Option String)
  unfolding or_one
  finished none = none
  finished (some (r, a)) = some (or_one r, a.settings.file)

  -- asyncio.run(pair_and_stream(…)), with the client that it makes
  with_client : List Visit → String → Reply RelayClient → Settings → Run ℕ (Option String)
  unfolding finished or_one pair_and_stream
  with_client visits relay_url (failed e) s = some (or_one (failed e), s.file)
  with_client visits relay_url (answer c) s = finished (
      pair_and_stream world args.label relay_url visits (record {
        session = record { client = c; backend = new_backend };
        replaced = false;
        settings = s;
        manager = world.manager;
      }))

  -- What follows the check of the relay URL
  connected :
      List String → List Visit → String → Reply (Unit {0}) × Settings → Run ℕ (Option String)
  unfolding with_client init_client
  connected frames visits relay_url (failed e, s) = some (failed e, s.file)
  connected frames visits relay_url (answer _, s) =
      with_client visits relay_url (init_client world.urlparse relay_url world.hostname frames) s

  from_config :
      List String → List Visit → Option String → Option AgentConfig → Run ℕ (Option String)
  unfolding apply_args connected
  from_config frames visits file none = some (failed toml_error, file)
  from_config frames visits file (some config) =
      let relay_url = relay_or args.relay config.relay_url in
      if not (is_set relay_url)
      then some (answer 1, file)
      else connected frames visits (text_or_empty relay_url)
          (apply_args (record { config = config; file = file }))

  -- The exit code, or the exception that ends the program, and the file of settings
  unfoldable pub run_cli : List String → List Visit → Option String → Run ℕ (Option String)
  unfolding load_config from_config
  run_cli frames visits file = from_config frames visits file (load_config file)
