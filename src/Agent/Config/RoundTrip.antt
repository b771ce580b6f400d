-- ===== src/Agent/Config/RoundTrip.antt =====
-- Settings that are saved are read back.
use Prim.Native.Char.{Char, code}
use Prim.Native.String.{String}
use text.Mathlib.TextEquality.{Char-path}
use text.Mathlib.TextLemmas.{nil-append, cons-append, append_assoc}
use termhop.Base.Text.Laws.{text-filled}
use termhop.Base.{
  ℕ, ◌==◌, ◌≡◌, refl, ap, sym, ◌∙◌, inl, inr, Bool, true, false, not, ◌&&◌, ◌||◌, Option, none,
  some, arith, if◌then◌else◌, eqb, eqb_iff, every, codes, ◌⧺◌, replace_char, Bool-cases,
}
use termhop.Agent.Config.{
  AgentConfig, escaped, line, url_lines, device_lines, config_text, save_config, after_text,
  is_plain, says, read_basic, ◌>>=?◌, read_key, read_device, read_rest, read_url, load_text,
  load_config,
}

-- The text holds no control character but tabs.
abbrev pub is_clean : String → Bool
is_clean s = every is_plain (codes s)

-- Nor a quote or a backslash
abbrev pub is_bare : String → Bool
is_bare s = every (λ c. is_plain c && not (eqb c b'"') && not (eqb c b'\\')) (codes s)

after_text-⧺ : (k s : String) → after_text k (k ⧺ s) ≡ some s
unfolding after_text
after_text-⧺ String.[] s = ap some (nil-append s)
after_text-⧺ (String.◌∷◌ c k) s = rw (cons-append c k s) (ground (arith, after_text-⧺ k s))

replace_char-⧺ :
    (a : ℕ) (t x y : String) → replace_char a t (x ⧺ y) ≡ replace_char a t x ⧺ replace_char a t y
replace_char-⧺ a t String.[] y =
    ap (replace_char a t) (nil-append y) ∙ sym (nil-append (replace_char a t y))
replace_char-⧺ a t (String.◌∷◌ c x) y =
    rw (cons-append c x y, replace_char-⧺ a t x y)
      (elim (Bool-cases (eqb (code c) a)) [
        | inl same ↦ rw same (sym (append_assoc t (replace_char a t x) (replace_char a t y)))
        | inr other ↦ rw other (sym (cons-append c (replace_char a t x) (replace_char a t y)))
      ])

quoted : (rest : String) → read_basic false ("\"" ⧺ rest) ≡ some ("", rest)
unfolding read_basic
quoted rest =
    ap (read_basic false) (cons-append "\"" "" rest ∙ ap (λ x. String.◌∷◌ "\"" x) (nil-append rest))

read_basic-bare :
    (s rest : String) → is_bare s ≡ true → read_basic false (s ⧺ ("\"" ⧺ rest)) ≡ some (s, rest)
unfolding read_basic
read_basic-bare String.[] rest h = rw (nil-append ("\"" ⧺ rest)) (quoted rest)
read_basic-bare (String.◌∷◌ c s) rest h =
    rw (cons-append c s ("\"" ⧺ rest))
      (rw (read_basic-bare s rest (ground (arith, h))) (ground (arith, h)))

-- What the escapes do to a first character
escaped_first :
    (c : Char) (s : String)
    → escaped (String.◌∷◌ c s) ≡ (
        if eqb (code c) b'\\'
        then "\\\\" ⧺ escaped s
        else if eqb (code c) b'"'
        then "\\\"" ⧺ escaped s
        else String.◌∷◌ c (escaped s))
unfolding escaped
escaped_first c s = elim (Bool-cases (eqb (code c) b'\\')) [
  | inl slash ↦ rw (slash, replace_char-⧺ b'"' "\\\"" "\\\\" (replace_char b'\\' "\\\\" s)) refl
  | inr other ↦ rw other refl
]

-- A character after a backslash
read_escape :
    (c : Char) (s : String)
    → eqb (code c) b'\\' || eqb (code c) b'"' ≡ true
    → read_basic true (String.◌∷◌ c s) ≡ says c (read_basic false s)
unfolding read_basic
read_escape c s h = rw h refl

two : (a b : Char) (s : String) → String.◌∷◌ a (String.◌∷◌ b "") ⧺ s ≡ String.◌∷◌ a (String.◌∷◌ b s)
two a b s =
    cons-append a _ s ∙ ap (String.◌∷◌ a) (cons-append b "" s ∙ ap (String.◌∷◌ b) (nil-append s))

-- An escaped character is read as itself.
escape_read :
    (c b : Char) (s e rest t : String)
    → code c ≡ code b
    → eqb (code b) b'\\' || eqb (code b) b'"' ≡ true
    → read_basic false (e ⧺ t) ≡ some (s, rest)
    → read_basic false ((String.◌∷◌ "\\" (String.◌∷◌ b "") ⧺ e) ⧺ t) ≡ some (String.◌∷◌ c s, rest)
unfolding read_basic
escape_read c b s e rest t same known ih =
    ap (read_basic false)
      (append_assoc (String.◌∷◌ "\\" (String.◌∷◌ b "")) e t ∙ two "\\" b (e ⧺ t))
    ∙ read_escape b (e ⧺ t) known
    ∙ ap (says b) ih
    ∙ ap (λ x. some (String.◌∷◌ x s, rest)) (sym (Char-path c b same))

read_basic-escaped :
    (s rest : String)
    → is_clean s ≡ true
    → read_basic false (escaped s ⧺ ("\"" ⧺ rest)) ≡ some (s, rest)
unfolding read_basic
read_basic-escaped String.[] rest h =
    unfold escaped in ap (read_basic false) (nil-append ("\"" ⧺ rest)) ∙ quoted rest
read_basic-escaped (String.◌∷◌ c s) rest h =
    let ih = read_basic-escaped s rest (ground (arith, h)) in
    rw (escaped_first c s) (elim (Bool-cases (eqb (code c) b'\\')) [
      | inl slash ↦ rw slash (
          escape_read c "\\" s (escaped s) rest ("\"" ⧺ rest) ((eqb_iff (code c) b'\\').0 slash)
            refl ih)
      | inr other ↦ elim (Bool-cases (eqb (code c) b'"')) [
        | inl quote ↦
            rw (other, quote)
              (escape_read c "\"" s (escaped s) rest ("\"" ⧺ rest) ((eqb_iff (code c) b'"').0 quote)
                refl ih)
        | inr plain ↦
            rw (other, plain)
              (ap (read_basic false) (cons-append c (escaped s) ("\"" ⧺ rest))
                ∙ rw ih (ground (arith, h)))
      ]
    ])

read_key-line :
    (key shown value rest : String)
    → read_basic false (shown ⧺ ("\"" ⧺ ("\n" ⧺ rest))) ≡ some (value, "\n" ⧺ rest)
    → read_key key (line key shown rest) ≡ some (value, rest)
unfolding read_key ◌>>=?◌
read_key-line key shown value rest h =
    rw (after_text-⧺ (key ⧺ " = \"") (shown ⧺ ("\"" ⧺ ("\n" ⧺ rest))), h, after_text-⧺ "\n" rest)
      refl

-- What is kept of the settings: a URL that is not empty, and a device with both its texts
abbrev pub kept_url : Option String → Option String
kept_url none = none
kept_url (some url) = if url == "" then none else some url

abbrev pub with_device : Option String → Option String → Option String → AgentConfig
with_device url (some id) (some secret) =
    if id == "" || secret == ""
    then record { relay_url = url; device_id = none; device_secret = none }
    else record { relay_url = url; device_id = some id; device_secret = some secret }
with_device url _ _ = record { relay_url = url; device_id = none; device_secret = none }

abbrev pub all_of : (String → Bool) → Option String → Bool
all_of test none = true
all_of test (some s) = test s

device_text : String → String → String
device_text id secret = "\n[device]\n" ⧺ line "id" id (line "secret" secret "")

device_text-filled : (id secret : String) → (device_text id secret == "") ≡ false
unfolding device_text
device_text-filled id secret =
    let rest = line "id" id (line "secret" secret "") in
    ap (λ x. x == "") (cons-append "\n" "[device]\n" rest) ∙ text-filled "\n" ("[device]\n" ⧺ rest)

device_body :
    (id secret : String)
    → after_text "\n[device]\n" (device_text id secret)
      ≡ some (line "id" id (line "secret" secret ""))
unfolding device_text
device_body id secret = after_text-⧺ "\n[device]\n" _

read_rest-device :
    (url : Option String) (id secret : String)
    → is_bare id ≡ true
    → is_bare secret ≡ true
    → read_rest url (device_text id secret)
      ≡ some (record { relay_url = url; device_id = some id; device_secret = some secret })
unfolding read_rest read_device ◌>>=?◌
read_rest-device url id secret hi hs =
    rw
      (
        device_text-filled id secret,
        device_body id secret,
        read_key-line "id" id id (line "secret" secret "") (read_basic-bare id _ hi),
        read_key-line "secret" secret secret "" (read_basic-bare secret _ hs),
      )
      refl

read_rest-devices :
    (url id secret : Option String)
    → all_of is_bare id ≡ true
    → all_of is_bare secret ≡ true
    → read_rest url (device_lines id secret) ≡ some (with_device url id secret)
unfolding device_lines
read_rest-devices url none secret hi hs = unfold read_rest read_device in refl
read_rest-devices url (some id) none hi hs = unfold read_rest read_device in refl
read_rest-devices url (some id) (some secret) hi hs = elim (Bool-cases (id == "" || secret == "")) [
  | inl empty ↦ rw empty (unfold read_rest read_device in refl)
  | inr both ↦ rw both (unfold device_text in read_rest-device url id secret hi hs)
]

-- No URL line stands before a device.
no_url : (id secret : Option String) → read_key "url" (device_lines id secret) ≡ none
unfolding read_key device_lines ◌>>=?◌ after_text
no_url none secret = refl
no_url (some id) none = refl
no_url (some id) (some secret) = elim (Bool-cases (id == "" || secret == "")) [
  | inl empty ↦ rw empty refl
  | inr both ↦
      rw both (
        ap (read_key "url")
          (cons-append "\n" "[device]\n" (line "id" id (line "secret" secret ""))))
]

read_back :
    (url id secret : Option String)
    → all_of is_clean url ≡ true
    → all_of is_bare id ≡ true
    → all_of is_bare secret ≡ true
    → read_url
        (url_lines url (device_lines id secret))
        (read_key "url" (url_lines url (device_lines id secret)))
      ≡ some (with_device (kept_url url) id secret)
unfolding url_lines read_url
read_back none id secret hu hi hs = rw (no_url id secret) (read_rest-devices none id secret hi hs)
read_back (some url) id secret hu hi hs = elim (Bool-cases (url == "")) [
  | inl empty ↦ rw empty (rw (no_url id secret) (read_rest-devices none id secret hi hs))
  | inr filled ↦ rw filled (
      rw
        (read_key-line "url" (escaped url) url (device_lines id secret)
          (read_basic-escaped url _ hu))
        (read_rest-devices (some url) id secret hi hs))
]

-- Settings that are saved are read back, a URL that is empty and a device without both its texts left out: if
-- no text holds a control character but tabs, and the device's texts no quote and no backslash.
pub load_config-save_config :
    (config : AgentConfig) (file : Option String)
    → all_of is_clean config.relay_url ≡ true
    → all_of is_bare config.device_id ≡ true
    → all_of is_bare config.device_secret ≡ true
    → load_config (save_config true config file).1
      ≡ some (with_device (kept_url config.relay_url) config.device_id config.device_secret)
unfolding load_config save_config load_text config_text ◌>>=?◌
load_config-save_config config file hu hi hs =
    rw
      (after_text-⧺ "[relay]\n"
        (url_lines config.relay_url (device_lines config.device_id config.device_secret)))
      (read_back config.relay_url config.device_id config.device_secret hu hi hs)
