-- ===== src/Agent/SettingsTests.antt =====
-- Saved settings, and a small code.
use termhop.Base.{◌≡◌, refl, true, false, none, some, List, Bool, [], ◌∷◌}
use termhop.Agent.Config.{AgentConfig, load_config, save_config}
use termhop.Agent.Config.RoundTrip.{load_config-save_config}
use termhop.Agent.TerminalQr.{render_matrix}
use termhop.Agent.TerminalQr.Seen.{seen, paired, seen-render_matrix}

abbrev test_settings : AgentConfig
test_settings = record {
  relay_url = some "wss://a\"b\\c/";
  device_id = some "dev-1";
  device_secret = some "s3";
}

load_config-save_config_example :
    load_config (save_config true test_settings none).1 ≡ some test_settings
load_config-save_config_example = load_config-save_config test_settings none refl refl refl

abbrev test_matrix : List (List Bool)
test_matrix = (true ∷ true ∷ []) ∷ (false ∷ true ∷ []) ∷ []

seen-render_matrix_example :
    seen (render_matrix ((true ∷ false ∷ []) ∷ test_matrix))
    ≡ paired ((true ∷ false ∷ []) ∷ test_matrix)
seen-render_matrix_example =
    seen-render_matrix 2 (true ∷ false ∷ []) test_matrix (refl, (refl, (refl, tt)))
