-- ===== src/Agent/Config.antt =====
-- agent/common/config.py: where the settings of an agent are kept, how they are written, and how `tomllib`
-- reads what was written: a table of one string a line, in the order in which they are saved.
pub mod RoundTrip
use Prim.Native.Char.{Char, code}
use Prim.Native.String
use termhop.Base.{
  ℕ, suc, zero, String, ◌==◌, Bool, true, false, not, ◌&&◌, ◌||◌, Option, none, some, List, [], ◌∷◌,
  ◌++◌, if◌then◌else◌, eqb, leb, ◌⧺◌, replace_char,
}

-- sys.platform
pub data OsName : Type 0 where
  linux darwin win32 : OsName

-- The parts of a path, from the root
abbrev pub FilePath : Type 0
FilePath = List String

-- The machine that the agent runs on
pub record Host : Type 0 where
  pub platform : OsName
  pub home : FilePath
  pub environ : String → Option String

abbrev pub is_set : Option String → Bool
is_set none = false
is_set (some s) = not (s == "")

abbrev text_of_env : Option String → String
text_of_env none = ""
text_of_env (some s) = s

-- FilePath(value) if value else other
abbrev path_or : Option String → FilePath → FilePath
path_or value other = if is_set value then text_of_env value ∷ [] else other

unfoldable pub config_dir : Host → FilePath
config_dir host = elim host.platform [
  | darwin ↦ host.home ++ "Library" ∷ "Application Support" ∷ "termhop" ∷ []
  | win32 ↦
      path_or (host.environ "APPDATA") (host.home ++ "AppData" ∷ "Roaming" ∷ []) ++ "termhop" ∷ []
  | linux ↦ path_or (host.environ "XDG_CONFIG_HOME") (host.home ++ ".config" ∷ []) ++ "termhop" ∷ []
]

unfoldable pub config_path : Host → FilePath
unfolding config_dir
config_path host = config_dir host ++ "config.toml" ∷ []

pub record AgentConfig : Type 0 where
  pub relay_url : Option String
  pub device_id : Option String
  pub device_secret : Option String

-- value.replace("\\", "\\\\").replace('"', '\\"')
unfoldable pub escaped : String → String
escaped value = replace_char b'"' "\\\"" (replace_char b'\\' "\\\\" value)

-- f'{key} = "{value}"', the end of the line, and what follows
abbrev pub line : String → String → String → String
line key value rest = (key ⧺ " = \"") ⧺ (value ⧺ ("\"" ⧺ ("\n" ⧺ rest)))

url_lines : Option String → String → String
unfolding escaped
url_lines none rest = rest
url_lines (some url) rest = if url == "" then rest else line "url" (escaped url) rest

device_lines : Option String → Option String → String
device_lines (some id) (some secret) =
    if id == "" || secret == "" then "" else "\n[device]\n" ⧺ line "id" id (line "secret" secret "")
device_lines _ _ = ""

-- What `save_config` writes
unfoldable pub config_text : AgentConfig → String
unfolding url_lines device_lines
config_text config =
    "[relay]\n" ⧺ url_lines config.relay_url (device_lines config.device_id config.device_secret)

-- The file, and whether the disk takes a write: a save that fails leaves the old file.
unfoldable pub save_config : Bool → AgentConfig → Option String → Bool × Option String
unfolding config_text
save_config disk_up config file =
    if disk_up then (true, some (config_text config)) else (false, file)

-- What follows this text, where it stands here
unfoldable pub after_text : String → String → Option String
after_text String.[] s = some s
after_text (String.◌∷◌ k ks) String.[] = none
after_text (String.◌∷◌ k ks) (String.◌∷◌ c s) =
    let rest = after_text ks s in if eqb (code k) (code c) then rest else none

-- A character that stands for itself in a string of TOML, if it is no quote and no backslash
abbrev pub is_plain : ℕ → Bool
is_plain c = not (leb c 31 && not (eqb c 9)) && not (eqb c 127)

abbrev says : Char → Option (String × String) → Option (String × String)
says c none = none
says c (some (text, rest)) = some (String.◌∷◌ c text, rest)

-- A basic string of TOML after its opening quote, with the escapes of backslash and quote: what it says, and
-- what follows it. A control character that is no tab, or another escape, is refused. The flag tells that
-- a backslash has been read.
unfoldable pub read_basic : Bool → String → Option (String × String)
read_basic after_slash String.[] = none
read_basic true (String.◌∷◌ c s) =
    let next = read_basic false s in
    if eqb (code c) b'\\' || eqb (code c) b'"' then says c next else none
read_basic false (String.◌∷◌ c s) =
    let next = read_basic false s in
    let slash = read_basic true s in
    if eqb (code c) b'"'
    then some ("", s)
    else if eqb (code c) b'\\'
    then slash
    else if is_plain (code c)
    then says c next
    else none

infixl 10 ◌>>=?◌
unfoldable pub ◌>>=?◌ : {A B : Type 0} → Option A → (A → Option B) → Option B
none >>=? f = none
some a >>=? f = f a

-- key = "…", and the end of the line
unfoldable pub read_key : String → String → Option (String × String)
unfolding after_text read_basic ◌>>=?◌
read_key key s = after_text (key ⧺ " = \"") s >>=? λ body.
    read_basic false body >>=? λ r. after_text "\n" r.1 >>=? λ rest. some (r.0, rest)

-- data.get("device", {}), after the settings of the relay
read_device : Option String → Option String → Option AgentConfig
unfolding read_key ◌>>=?◌
read_device url none = some (record { relay_url = url; device_id = none; device_secret = none })
read_device url (some s) = read_key "id" s >>=? λ id. read_key "secret" id.1 >>=? λ secret.
    if secret.1 == ""
    then some (record { relay_url = url; device_id = some id.0; device_secret = some secret.0 })
    else none

read_rest : Option String → String → Option AgentConfig
unfolding read_device after_text
read_rest url s =
    if s == ""
    then read_device url none
    else (after_text "\n[device]\n" s >>=? λ body. read_device url (some body))

read_url : String → Option (String × String) → Option AgentConfig
unfolding read_rest
read_url s none = read_rest none s
read_url s (some (url, rest)) = read_rest (some url) rest

-- load_config of a file that is there
unfoldable pub load_text : String → Option AgentConfig
unfolding after_text read_key read_url ◌>>=?◌
load_text text = after_text "[relay]\n" text >>=? λ body. read_url body (read_key "url" body)

-- load_config; none where `tomllib` raises
unfoldable pub load_config : Option String → Option AgentConfig
unfolding load_text
load_config none = some (record { relay_url = none; device_id = none; device_secret = none })
load_config (some text) = load_text text
