-- ===== src/Agent/Cli/Pairing.antt =====
-- agent/common/cli.py: `pair_and_stream`, up to the shell that it starts and on to its end. The
-- printing of the link is left out.
pub mod Steps
pub mod Announced
pub mod Saved
use termhop.Base.{
  String, ◌==◌, Bool, true, false, not, ◌&&◌, ◌||◌, Option, none, some, List, [], ◌∷◌,
  if◌then◌else◌, ℕ,
}
use termhop.Agent.Reply.{
  Reply, answer, failed, Fault, handshake_error, toml_error, Command, give, raise, reads, change,
  ◌>>=◌, ◌>>◌,
}
use termhop.Agent.Config.{AgentConfig, load_config, is_set}
use termhop.Agent.PtyBackend.{Backend, spawn, new_backend}
use termhop.Agent.RelayClient.{
  RelayClient, Client, init_client, connect, needs, generate_device_id, generate_pairing_secret,
}
use termhop.Agent.RelayClient
use termhop.Agent.RelayClient.Handshake.{
  send_pair_init, await_pair_init_ack, await_pair_challenge_and_complete, send_resume_init,
  await_resume_and_complete,
}
use termhop.Agent.RelayClient.Traffic.{send_device_credential, send_session_list}
use termhop.Agent.SessionManager.{SessionManager, create, start, list_records, complete}
use termhop.Agent.SessionPump.{Session}
use termhop.Agent.Cli.{
  World, relay_url_saved, rotation_saved, credential_saved, session_created, session_started,
  session_completed, Agent, on_relay, on_terminal, on_manager, on_settings, Settings, save_settings,
  listing,
}
use termhop.Agent.Cli.Persistent.{Visit, Standing, Run, text_or_empty, run_persistent_session}

-- How `pair_and_stream` stands before the terminal streams: it exits, or a session has started.
pub data Stage : Type 0 where
  exits : ℕ → Stage
  streams : String → Stage

abbrev pub set_device_id : Option String → Settings → Settings
set_device_id device_id s = record s { config = record s.config { device_id = device_id } }

abbrev pub set_device_secret : Option String → Settings → Settings
set_device_secret secret s = record s { config = record s.config { device_secret = secret } }

-- except HandshakeError: return 1
abbrev pub or_refused : Reply (Unit {0}) → Reply Bool
or_refused (answer _) = answer true
or_refused (failed (handshake_error _)) = answer false
or_refused (failed e) = failed e

-- config.device_id and config.device_secret
abbrev pub has_credential : AgentConfig → Bool
has_credential config = is_set config.device_id && is_set config.device_secret

module _ (world : World) (session_label : String) where
  -- From `backend_factory()` to the session list
  unfoldable pub start_shell : Command Agent Stage
  unfolding on_relay on_terminal on_manager spawn create start list_records send_session_list
  start_shell = do
    change (λ a. record a { session = record a.session { backend = new_backend } })
    on_terminal (spawn world.child)
    change (λ a. record a { manager = world.manager })
    r ← on_manager (create (world.io session_created) session_label world.shell_cwd)
    on_manager (start (world.io session_started) r.session_id)
    records ← on_manager (list_records (world.io session_started))
    on_relay (send_session_list world.platform (listing records))
    give (streams r.session_id)

  -- The branch of a device that is saved
  unfoldable pub resume_saved : Command Agent Stage
  unfolding on_relay send_resume_init await_resume_and_complete start_shell
  resume_saved = do
    config ← reads (λ a. a.settings.config)
    on_relay (
        send_resume_init world.platform (text_or_empty config.device_id)
          (text_or_empty config.device_secret))
    on_relay (await_resume_and_complete world.platform)
    start_shell

  -- What follows a challenge that was answered
  unfoldable pub save_and_start : Command Agent Stage
  unfolding on_relay on_settings send_device_credential save_settings start_shell
  save_and_start = do
    config ← reads (λ a. a.settings.config)
    on_relay (
        send_device_credential world.platform (text_or_empty config.device_id)
          (text_or_empty config.device_secret))
    on_settings (save_settings (world.io credential_saved))
    start_shell

  unfoldable pub await_client : Command Agent Bool
  unfolding on_relay await_pair_challenge_and_complete
  await_client a =
      let r = on_relay (await_pair_challenge_and_complete world.platform) a in (or_refused r.0, r.1)

  -- From the new credential to the assertions: the client waits for a challenge.
  unfoldable pub announce : Command Agent (Unit {0})
  unfolding on_relay on_settings generate_device_id generate_pairing_secret send_pair_init
      await_pair_init_ack needs
  announce = do
    device_id ← on_relay (generate_device_id world.platform)
    on_settings (change (set_device_id (some device_id)))
    device_secret ← on_relay (generate_pairing_secret world.platform)
    on_settings (change (set_device_secret (some device_secret)))
    on_relay (send_pair_init world.platform none (some device_id))
    on_relay (await_pair_init_ack world.platform)
    c ← reads (λ a. a.session.client)
    on_relay (needs c.pairing_secret)
    on_relay (needs c.agent_pubkey_b64)
    give tt

  unfoldable pub pair_new : Command Agent Stage
  unfolding announce await_client save_and_start
  pair_new = do
    announce
    is_paired ← await_client
    if is_paired then save_and_start else give (exits 1)

  unfoldable pub connect_and_start : Command Agent Stage
  unfolding on_relay connect resume_saved pair_new
  connect_and_start = do
    on_relay (connect world.platform)
    config ← reads (λ a. a.settings.config)
    if has_credential config then resume_saved else pair_new

  -- `client.close()` in the outer `finally`: of the client that the run began with
  finally_close : Agent → Agent
  unfolding on_relay RelayClient.close
  finally_close a = if a.replaced then a else (on_relay (RelayClient.close world.platform) a).1

  -- `session_manager.complete` in the inner `finally`: its own exception takes the place of the one before.
  completed : Reply (Unit {0}) → Reply (Unit {0}) → Reply ℕ
  completed result (failed e) = failed e
  completed (failed e) (answer _) = failed e
  completed (answer _) (answer _) = answer 0

  module _ (relay_url : String) where
    streamed : String → Agent → Run (Unit {0}) Standing → Run ℕ Agent
    unfolding on_manager complete completed finally_close
    streamed session_id a none = none
    streamed session_id a (some (result, standing)) =
        let ended = record a { session = standing.0; replaced = standing.1 } in
        let r =
          on_manager (do complete (world.io session_completed) session_id none; give tt) ended in
        some (completed result r.0, finally_close r.1)

    from_stage : List Visit → Reply Stage × Agent → Run ℕ Agent
    unfolding finally_close run_persistent_session streamed
    from_stage visits (failed e, a) = some (failed e, finally_close a)
    from_stage visits (answer (exits code), a) = some (answer code, finally_close a)
    from_stage visits (answer (streams session_id), a) =
        streamed session_id a
          (run_persistent_session world relay_url a.settings.config visits (a.session, a.replaced))

    unfoldable pub pair_and_stream : List Visit → Agent → Run ℕ Agent
    unfolding connect_and_start from_stage
    pair_and_stream visits a = from_stage visits (connect_and_start a)
