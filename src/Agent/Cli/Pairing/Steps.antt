-- ===== src/Agent/Cli/Pairing/Steps.antt =====
-- The steps of `pair_and_stream`: which leave the file of settings alone, and what a save does.
use termhop.Base.{◌≡◌, refl, sym, ◌⊎◌, inl, inr, String, Option, some, subst, Bool-cases}
use termhop.Agent.Reply.{Reply, answer, failed, Fault, os_error, Command, follow, ◌>>=◌}
use termhop.Agent.Reply.Keeps.{Keeps, reply_rules}
use termhop.Agent.Config.{config_text, save_config}
use termhop.Agent.PtyBackend.{Backend}
use termhop.Agent.RelayClient.{RelayClient, Client}
use termhop.Agent.SessionManager.{SessionManager, Inputs}
use termhop.Agent.Cli.{
  World, Settings, Agent, on_relay, on_terminal, on_manager, on_settings, save_settings,
}
use termhop.Agent.Cli.Pairing.{start_shell, resume_saved}

-- The file holds this.
abbrev pub Holds : Option String → Agent → Type 0
Holds file a = a.settings.file ≡ file

module _ {A : Type 0} (file : Option String) where
  on_relay-Holds : (m : Client A) → Keeps (Holds file) (on_relay m)
  unfolding on_relay
  on_relay-Holds m = record { at = λ a h. h }

  on_terminal-Holds : (m : Command Backend A) → Keeps (Holds file) (on_terminal m)
  unfolding on_terminal
  on_terminal-Holds m = record { at = λ a h. h }

  on_manager-Holds : (m : Command SessionManager A) → Keeps (Holds file) (on_manager m)
  unfolding on_manager
  on_manager-Holds m = record { at = λ a h. h }

module _ (world : World) (label : String) (file : Option String) where
  pub start_shell-Holds : Keeps (Holds file) (start_shell world label)
  unfolding start_shell
  start_shell-Holds =
      search (reply_rules, on_relay-Holds, on_terminal-Holds, on_manager-Holds) depth 20

  pub resume_saved-Holds : Keeps (Holds file) (resume_saved world label)
  unfolding resume_saved
  resume_saved-Holds = search (reply_rules, on_relay-Holds, start_shell-Holds) depth 12

abbrev pub at_client : Agent → RelayClient → Agent
at_client a c = record a { session = record a.session { client = c } }

-- The rule for a step of the client
module _ {A B : Type 0} (Q : Reply B × Agent → Type 0) where
  pub on_relay_at :
      (m : Client A) (f : A → Command Agent B) (a : Agent)
      → ((x : A) (c : RelayClient) → m a.session.client ≡ (answer x, c) → Q (f x (at_client a c)))
      → ((e : Fault) (c : RelayClient)
          → m a.session.client ≡ (failed e, c)
          → Q (failed e, at_client a c))
      → Q ((on_relay m >>= f) a)
  unfolding on_relay ◌>>=◌
  on_relay_at m f a go stop = next (m a.session.client) go stop
    where
      next :
          (r : Reply A × RelayClient)
          → ((x : A) (c : RelayClient) → r ≡ (answer x, c) → Q (f x (at_client a c)))
          → ((e : Fault) (c : RelayClient) → r ≡ (failed e, c) → Q (failed e, at_client a c))
          → Q (follow f (r.0, at_client a r.1))
      next (answer x, c) k h = k x c refl
      next (failed e, c) k h = h e c refl

-- What a save does: it writes the file, or raises.
save_settings-cases :
    (io : Inputs) (s : Settings)
    → (save_settings io s ≡ (answer tt, record s { file = some (config_text s.config) }))
      ⊎ (save_settings io s ≡ (failed os_error, s))
unfolding save_settings save_config
save_settings-cases io s = elim (Bool-cases io.disk_up) [
  | inl on ↦ inl (rw on refl)
  | inr off ↦ inr (rw off refl)
]

module _ {B : Type 0} (Q : Reply B × Agent → Type 0) where
  pub on_save_at :
      (io : Inputs) (f : Unit {0} → Command Agent B) (a : Agent)
      → Q (
          f tt (record a {
            settings = record a.settings { file = some (config_text a.settings.config) };
          }))
      → Q (failed os_error, a)
      → Q ((on_settings (save_settings io) >>= f) a)
  unfolding on_settings ◌>>=◌
  on_save_at io f a go stop =
      let After =
        λ (r : Reply (Unit {0}) × Settings). Q (follow f (r.0, record a { settings = r.1 })) in
      elim (save_settings-cases io a.settings) [
        | inl wrote ↦ subst After (sym wrote) go
        | inr raised ↦ subst After (sym raised) stop
      ]
