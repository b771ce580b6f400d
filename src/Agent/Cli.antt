-- ===== src/Agent/Cli.antt =====
-- agent/common/cli.py: the agent from its start to its end. What is outside is `World`: the machine, the
-- relay's frames, the child process, the clock and the disk. Printing is left out.
pub mod Persistent
pub mod Pairing
pub mod Main
use termhop.Base.{
  ℕ, String, ◌==◌, Bool, true, false, not, ◌&&◌, Option, none, some, List, [], ◌∷◌, ◌++◌,
  if◌then◌else◌, is_some, is_none,
}
use termhop.Dict.{Dict, get, put}
use termhop.Json.{Value, str, Items, nil, cons, obj, field, end}
use termhop.Agent.Reply.{
  Reply, answer, failed, Fault, handshake_error, type_error, os_error, Command, give, raise, reads,
  change, lift, ◌>>=◌, ◌>>◌,
}
use termhop.Agent.Config.{
  OsName, linux, darwin, win32, FilePath, Host, AgentConfig, load_config, save_config,
}
use termhop.Agent.PtyBackend.{Proc, Backend}
use termhop.Agent.RelayClient.{Platform, RelayClient, Client, ParsedUrl}
use termhop.Agent.SessionManager.{
  SessionManager, SessionRecord, Inputs, created, running, detached, paused, exited, terminated,
  state_name,
}
use termhop.Agent.SessionPump.{Session}

-- env.setdefault(key, value)
abbrev setdefault : Dict String → String → String → Dict String
setdefault env key value = if is_some (get env key) then env else put env key value

-- `_shell_environment` of the agent's own environment
unfoldable pub shell_environment : OsName → Dict String → Dict String
shell_environment platform environ =
    let env = setdefault (setdefault environ "TERM" "xterm-256color") "COLORTERM" "truecolor" in
    elim platform [
      | darwin ↦ setdefault (setdefault env "LANG" "en_US.UTF-8") "LC_ALL" "en_US.UTF-8"
      | linux ↦ setdefault (setdefault env "LANG" "C.UTF-8") "LC_ALL" "C.UTF-8"
      | win32 ↦ env
    ]

-- Path(os.environ.get(name, other))
abbrev env_path : Option String → FilePath → FilePath
env_path none other = other
env_path (some value) other = value ∷ []

unfoldable pub session_manifest_path : Host → FilePath
session_manifest_path host = elim host.platform [
  | win32 ↦
      env_path (host.environ "APPDATA") (host.home ++ "AppData" ∷ "Roaming" ∷ [])
      ++ "termhop" ∷ "sessions.json" ∷ []
  | darwin ↦ host.home ++ "Library" ∷ "Application Support" ∷ "termhop" ∷ "sessions.json" ∷ []
  | linux ↦
      env_path (host.environ "XDG_STATE_HOME") (host.home ++ ".local" ∷ "state" ∷ [])
      ++ "termhop" ∷ "sessions.json" ∷ []
]

-- The steps that ask for a clock or the disk
pub data Step : Type 0 where
  relay_url_saved rotation_saved credential_saved session_created session_started
        session_completed :
      Step

pub record World : Type 0 where
  pub platform : Platform
  pub urlparse : String → ParsedUrl
  pub hostname : String
  pub shell_cwd : String
  -- The child that `spawn` gives, or none where it raises
  pub child : Option Proc
  -- What SessionManager(path) finds
  pub manager : SessionManager
  pub io : Step → Inputs

-- The settings, and the file that they are saved in
pub record Settings : Type 0 where
  pub config : AgentConfig
  pub file : Option String

-- The state of a run: `replaced` tells that the client is no longer the one that the run began with.
pub record Agent : Type 0 where
  pub session : Session
  pub replaced : Bool
  pub settings : Settings
  pub manager : SessionManager

module _ {A : Type 0} where
  unfoldable pub on_relay : Client A → Command Agent A
  on_relay m a =
      let r = m a.session.client in (r.0, record a { session = record a.session { client = r.1 } })

  unfoldable pub on_terminal : Command Backend A → Command Agent A
  on_terminal m a =
      let r = m a.session.backend in
      (r.0, record a { session = record a.session { backend = r.1 } })

  unfoldable pub on_manager : Command SessionManager A → Command Agent A
  on_manager m a = let r = m a.manager in (r.0, record a { manager = r.1 })

  unfoldable pub on_settings : Command Settings A → Command Agent A
  on_settings m a = let r = m a.settings in (r.0, record a { settings = r.1 })

-- save_config(config)
unfoldable pub save_settings : Inputs → Command Settings (Unit {0})
unfolding save_config
save_settings io s =
    let r = save_config io.disk_up s.config s.file in
    if r.0 then (answer tt, record s { file = r.1 }) else (failed os_error, record s { file = r.1 })

-- One entry of a session list
abbrev listed : SessionRecord → Value
listed r = obj (
    field "session_id" (str r.session_id) (
      field "label" (str r.label)
        (field "cwd" (str r.cwd) (field "state" (str (state_name r.state)) end))))

abbrev pub listing : List SessionRecord → Items
listing [] = nil
listing (r ∷ rs) = cons (listed r) (listing rs)
