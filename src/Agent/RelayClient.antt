-- ===== src/Agent/RelayClient.antt =====
-- agent/common/relay_client.py: the client's state, its construction, and what it sends and receives;
-- agent/common/envelope.py on the way in; agent/common/pairing.py. The random texts, the clock, the
-- JSON library and whether the connection is up are the parameter `Platform`, which is asked anew
-- at each moment. The frames that the relay will deliver wait in `inbox`, and those sent are `sent`,
-- the newest first; a frame is kept as the envelope that `dump_envelope` prints.
pub mod Sequence
pub mod Receive
pub mod Handshake
pub mod Traffic
pub mod Calls
use termhop.Base.{
  ℕ, suc, ◌-◌, ◌^◌, String, ◌==◌, Bool, true, false, not, ◌&&◌, ◌||◌, Option, none, some, List, [],
  ◌∷◌, if◌then◌else◌, eqb, leb, in_range, str_len, codes, member, is_some, ◌⧺◌, rstrip,
}
use termhop.Json.{Value, Payload}
use termhop.Base64.{Bytes}
use termhop.Relay.Envelope.{Envelope, type_chars, model_validate}
use termhop.Agent.Reply.{
  Reply, answer, failed, handshake_error, validation_error, os_error, assertion_error,
  connection_closed, Command, give, raise, reads, change, lift, ◌>>=◌, ◌>>◌,
}
use termhop.Agent.Crypto.{Primitives, SessionKeys}

pub record Platform : Type 0 where
  pub primitives : Primitives
  -- secrets.token_urlsafe(n), secrets.token_hex(n) and os.urandom(n)
  pub token_urlsafe : ℕ → ℕ → String
  pub token_hex : ℕ → ℕ → String
  pub random : ℕ → ℕ → Bytes
  -- int(time.time() * 1000)
  pub time_ms : ℕ → ℕ
  pub up : ℕ → Bool
  -- json.loads(raw), and json.dumps(value).encode()
  pub json_loads : String → Option Value
  pub json_dumps : Payload → Bytes
  -- A value in an f-string, where it is no text.
  pub text_of : Value → String

pub data HandshakeState : Type 0 where
  idle connecting awaiting_pair_init_ack awaiting_pair_challenge paired streaming closed :
      HandshakeState

pub record RelayClient : Type 0 where
  pub relay_url : String
  pub agent_hostname : String
  -- self._ws is not None
  pub ws : Bool
  pub seq : ℕ
  pub state : HandshakeState
  pub token : Option String
  pub pairing_secret : Option String
  pub session_id : Option String
  pub own_private_key : Option Bytes
  pub agent_pubkey_b64 : Option String
  pub session_keys : Option SessionKeys
  pub transcript : Option Bytes
  pub last_peer_encrypted_seq : ℕ
  pub inbox : List String
  pub sent : List Envelope
  pub moment : ℕ

abbrev pub Client : Type 0 → Type 0
Client A = Command RelayClient A

abbrev pub protocol_version : ℕ
protocol_version = 2

abbrev loopback_hosts : List String
loopback_hosts = "localhost" ∷ "127.0.0.1" ∷ "::1" ∷ []

-- urllib.parse.urlparse(relay_url)
pub record ParsedUrl : Type 0 where
  pub scheme : String
  pub hostname : Option String
  pub username : Option String
  pub password : Option String
  pub query : String
  pub fragment : String

abbrev new_client : String → String → List String → RelayClient
new_client relay_url agent_hostname inbox = record {
  relay_url = rstrip (λ c. eqb c b'/') relay_url;
  agent_hostname = agent_hostname;
  ws = false;
  seq = 0;
  state = idle;
  token = none;
  pairing_secret = none;
  session_id = none;
  own_private_key = none;
  agent_pubkey_b64 = none;
  session_keys = none;
  transcript = none;
  last_peer_encrypted_seq = 0;
  inbox = inbox;
  sent = [];
  moment = 0;
}

abbrev host_of : Option String → String
host_of none = ""
host_of (some h) = h

-- RelayClient(relay_url, agent_hostname=…)
unfoldable pub init_client :
    (String → ParsedUrl) → String → String → List String → Reply RelayClient
init_client urlparse relay_url agent_hostname inbox =
    let url = urlparse relay_url in
    if not (member url.scheme ("ws" ∷ "wss" ∷ [])) || host_of url.hostname == ""
    then failed (handshake_error "relay URL must use ws:// or wss://")
    else if is_some url.username
        || is_some url.password
        || not (url.query == "")
        || not (url.fragment == "")
    then failed (handshake_error "relay URL must not contain credentials, query, or fragment")
    else if url.scheme == "ws" && not (member (host_of url.hostname) loopback_hosts)
    then failed (handshake_error "plaintext ws:// is allowed only for loopback development")
    else answer (new_client relay_url agent_hostname inbox)

-- assert b
unfoldable pub asserts : Bool → Client (Unit {0})
asserts true c = (answer tt, c)
asserts false c = (failed assertion_error, c)

-- assert value is not None
unfoldable pub needs : {A : Type 0} → Option A → Client A
needs none c = (failed assertion_error, c)
needs (some a) c = (answer a, c)

unfoldable pub next_seq : Client ℕ
next_seq c = (answer (suc c.seq), record c { seq = suc c.seq })

-- A moment in which the platform is asked for something.
unfoldable pub tick : Client ℕ
tick c = (answer c.moment, record c { moment = suc c.moment })

-- What the declarations of the envelope's fields ask.
abbrev fits_session : Option String → Bool
fits_session none = true
fits_session (some s) = leb (str_len s) 69

unfoldable pub valid_envelope : Envelope → Bool
valid_envelope e =
    in_range 1 255 e.v
    && in_range 1 64 (str_len e.type)
    && type_chars (codes e.type)
    && fits_session e.session_id
    && leb e.seq (2 ^ 53 - 1)
    && leb e.ts (2 ^ 63 - 1)

abbrev pub wire_envelope : String → Option String → Payload → ℕ → ℕ → Envelope
wire_envelope type session_id payload seq ts = record {
  v = protocol_version;
  type = type;
  session_id = session_id;
  seq = seq;
  ts = ts;
  payload = payload;
}

is_open : HandshakeState → Bool
is_open closed = false
is_open _ = true

record_sent : Envelope → RelayClient → RelayClient
record_sent envelope c = record c { sent = envelope ∷ c.sent }

take_frame : List String → Client String
take_frame [] c = (failed connection_closed, c)
take_frame (raw ∷ frames) c = (answer raw, record c { inbox = frames })

check_protocol : Envelope → Client Envelope
check_protocol envelope =
    if eqb envelope.v protocol_version
    then give envelope
    else raise (handshake_error "relay protocol version does not match client version")

parse_shape : Option Envelope → Client Envelope
unfolding check_protocol
parse_shape none = raise (handshake_error "malformed envelope from relay: invalid envelope shape")
parse_shape (some envelope) = check_protocol envelope

-- parse_envelope, and what `_recv` makes of its errors
unfoldable pub parse_frame : Option Value → Client Envelope
unfolding parse_shape
parse_frame none = raise (handshake_error "malformed envelope from relay: invalid JSON")
parse_frame (some value) = parse_shape (model_validate value)

module _ (p : Platform) where
  unfoldable pub generate_pairing_token : Client String
  unfolding tick
  generate_pairing_token = do n ← tick; give (p.token_urlsafe n 16)

  unfoldable pub generate_pairing_secret : Client String
  unfolding tick
  generate_pairing_secret = do n ← tick; give (p.token_urlsafe n 32)

  unfoldable pub generate_session_id : Client String
  unfolding tick
  generate_session_id = do n ← tick; give ("sess-" ⧺ p.token_hex n 8)

  unfoldable pub generate_device_id : Client String
  unfolding tick
  generate_device_id = do n ← tick; give ("dev-" ⧺ p.token_hex n 16)

  unfoldable pub generate_ephemeral_keypair : Client (Bytes × Bytes)
  unfolding tick
  generate_ephemeral_keypair = do
    n ← tick
    give (p.random n 32, p.primitives.scalarmult_base (p.random n 32))

  unfoldable pub connect : Client (Unit {0})
  unfolding tick
  connect = do
    change (λ c. record c { state = connecting })
    n ← tick
    if p.up n then change (λ c. record c { ws = true }) else raise os_error

  -- self._ws.send(…), which raises once the connection was closed
  unfoldable pub transmit : Envelope → Client (Unit {0})
  unfolding tick record_sent is_open
  transmit envelope = do
    n ← tick
    state ← reads (λ c. c.state)
    if p.up n && is_open state then change (record_sent envelope) else raise connection_closed

  -- _send with its number
  unfoldable pub send_numbered : String → Option String → Payload → ℕ → Client (Unit {0})
  unfolding tick valid_envelope transmit
  send_numbered type session_id payload seq = do
    n ← tick
    let envelope = wire_envelope type session_id payload seq (p.time_ms n)
    if valid_envelope envelope then transmit envelope else raise validation_error

  -- _send without a number
  unfoldable pub send : String → Option String → Payload → Client (Unit {0})
  unfolding asserts next_seq send_numbered
  send type session_id payload = do
    has_ws ← reads (λ c. c.ws)
    asserts has_ws
    seq ← next_seq
    send_numbered type session_id payload seq

  -- _send(…, seq=seq)
  unfoldable pub send_with_seq : String → Option String → Payload → ℕ → Client (Unit {0})
  unfolding asserts send_numbered
  send_with_seq type session_id payload seq = do
    has_ws ← reads (λ c. c.ws)
    asserts has_ws
    send_numbered type session_id payload seq

  -- _recv
  unfoldable pub recv : Client Envelope
  unfolding asserts take_frame parse_frame
  recv = do
    has_ws ← reads (λ c. c.ws)
    asserts has_ws
    frames ← reads (λ c. c.inbox)
    raw ← take_frame frames
    parse_frame (p.json_loads raw)

  -- self._ws.close(), and the state
  unfoldable pub close : Client (Unit {0})
  close = change (λ c. record c { state = closed })
