-- ===== src/Lib.antt =====
-- A model of termhop: a relay server through which a browser reaches a terminal on another machine.
--
-- The relay (relay-server/relay) joins two WebSocket connections, an agent's and a client's, into a
-- session. An agent opens a session by `pair_init` under a one-time token, or, for a device that was
-- paired before, by `resume_init`; a client joins by `pair_request` or `resume_request`; the two ends
-- prove themselves to each other through the relay, and from the agent's last message of this
-- handshake on the relay passes encrypted traffic between them, which it cannot read.
--
-- Which file models what:
--   Base, Dict, Json, Base64: what the source uses of Python. The naturals are native, a dict is an
--     association list in the order of insertion (Dict), a decoded JSON document is a `Value` (Json)
--     with Python's truth value. Base64 encodes and decodes bytes; the relay only asks for the size
--     of what it decodes. Base64/RoundTrip and Base/Text/Laws say how base64 and numbers are read back.
--   Relay/Errors, Relay/Exec: relay-server/relay/errors.py, and coroutines as functions from a state
--     to a result or an exception and a state; what was written before a raise stays.
--   Relay/Config: the settings of relay-server/relay/config.py; Config/Env reads them (`from_env`).
--   Relay/Registry: relay-server/relay/session_registry.py, the in-process routing table
--     (`SessionRegistry`, a method under its own name, `get` and `__len__` as `get_session` and
--     `registry_len`). Registry/Laws has its invariant, Registry/Routes its abstract maps.
--   Relay/Envelope: relay-server/relay/envelope.py (`parse_envelope`, and the fields' declarations).
--   Relay/Redis: the commands of the Redis server that the relay issues, with their documented
--     behaviour (`IsRedis`); Redis/Memory is a store that behaves so.
--   Relay/System: what a coroutine runs in. `World` is the state that all connections share,
--     `ConnectionContext` the connection's own, `System` what the relay does not implement.
--   Relay/Pairing, Relay/RateLimit: relay-server/relay/pairing.py and ratelimit.py. A Lua script is
--     one atomic command on the store.
--   Relay/Router: relay-server/relay/router.py. Checks are its tests on payload values, Replies what
--     it sends itself, Pair, Resume and Traffic its handlers, Dispatch its tables and `dispatch`.
--     Grounds and Phases are about who completes a handshake.
--   Relay/Connection: relay-server/relay/ws_handlers.py. The peer of a connection is a list of arrivals;
--     `open_connection` has the tests before `accept`, `serve` the loop, `run_connection` the rest of
--     `_ws_loop` down to `_handle_disconnect`. Connection/Cleanup is about what it leaves behind.
--   Relay/Keeps: invariants of coroutines, with a rule for each way to build one.
--   Agent/SessionManager: agent/common/session_manager.py, which keeps the records of the
--     agent's terminal sessions and the leases of the browsers that control them. A method stands under
--     its own name, `get` and `list` as `get_record` and `list_records`; SessionManager/Calls has their
--     calls in sequence, SessionManager/Exclusive is about the leases; Manifest is
--     what `_save` writes and `_load` reads.
--   Agent/Crypto: agent/common/crypto.py over the record `Primitives`. Crypto/Encodings is about what is
--     authenticated, Crypto/Sealed about what is sealed and opened.
--   Agent/RelayClient: agent/common/relay_client.py, with envelope.py and pairing.py beside it: the state
--     of a client (`RelayClient`), its construction (`init_client`), and frames out and in.
--     RelayClient/Handshake has pairing and resuming, RelayClient/Traffic the encrypted messages; a
--     method stands under its own name, without a leading underscore. Sequence is about the numbers of
--     frames, Traffic/Replay about those received, Handshake/Challenge and Resume about who
--     is paired.
--   Agent/Reply: commands of the agent, with their exceptions; Reply/Keeps and Reply/Cases are the rules
--     for an invariant and for the branches of a command.
--   Agent/PtyBackend: agent/linux/pty_backend.py, which agent/macos/pty_backend.py repeats; its child
--     Interface has agent/common/ptybackend.py and both classes.
--   Agent/SessionPump: agent/common/session_pump.py, the rounds of its two loops, the loops, and
--     `run_pty_session`. SessionPump/Ending, Inputs and Sizes are about its end, what is typed, and sizes.
--   Agent/Config: agent/common/config.py (`load_config`, `save_config`), with a reader of the part of TOML
--     that is written. Agent/TerminalQr: the drawing in agent/common/terminal_qr.py.
--   Agent/Cli: agent/common/cli.py. Cli/Persistent has `_run_persistent_session`, Cli/Pairing has
--     `pair_and_stream` and Cli/Main `run_cli`; `World` is what the agent finds outside. Persistent/Reconnect,
--     Ends and Proved are about the end of a session and who joins it, Pairing/Steps, Announced
--     and Saved about what is saved when.
--   Relay/Samples, Agent/Samples, and the modules Tests, ConfigTests, ClientTests, PumpTests, CliTests and
--     SettingsTests: concrete connections, clients and settings, and the results applied to them.
--
-- Connections interleave at awaits. `System.interfere` is all that the other connections, and the
-- passing of time, do to the world at one await. It is any function: a theorem names what it asks of
-- it as a hypothesis. A send on a connection that is not `connected`, and a command while the Redis
-- server is down, raise.
--
-- A client of the agent runs alone: its commands go from a state to an answer or an exception, and a
-- state. `Platform` is asked anew at each `moment`, so that a send may fail at any of them.
--
-- Bounds: the handlers have no loops, and the loop of a connection is recursion on the arrivals. The
-- loops of the pump run for a number of rounds, or along a schedule of the two tasks, and give `none` where
-- that runs out; more rounds than frames wait are enough. The persistent session of the agent runs along a
-- script of visits and attempts to reconnect, and gives `none` where the script ends while the child runs. Else there is no fuel. A message that comes at
-- the deadline of a connection or later is not seen. Times are natural numbers of milliseconds, and
-- subtraction on them stops at zero. `math.ceil(window_ms / 1000) + 1` is written `window_s + 1`, since
-- every caller passes whole seconds.
--
-- Not modelled: log lines; the texts that the JSON decoder and Pydantic put into their errors; floats
-- beyond their truth value; start-up in relay-server/relay/main.py; of the agent
-- under agent/ the terminal of Windows, the pairing link, the parser of arguments, what is printed, and
-- Ctrl+C, and of the session manager the steps by which `_save` replaces the file, and calls on records
-- that `_load` took over with fields of other types. SHA-256, the other primitives of cryptography, UUIDs,
-- random texts, `urlparse` and the JSON library are parameters. The one
-- handler that keeps a slot over an await, `handle_pair_request`, reads the slot of the session again.
-- Once a client was closed its sends raise; the frames that came before may still be received.
-- `ptyprocess` is the record `Proc`: it gives its chunks in order and then EOFError, and always a number for
-- an exit code; the future and the callback by which `read` waits are one step.
pub mod Base
pub mod Dict
pub mod Json
pub mod Base64
pub mod Relay
pub mod Agent
