-- ===== src/Agent/Tests.antt =====
-- The session manager run on concrete calls, and the laws of the cryptography on concrete bytes.
use termhop.Base.{
  ℕ, String, ◌≡◌, codes, decimal, List, refl, true, false, none, some, [], ◌∷◌, arith,
}
use termhop.Json.{str}
use termhop.Dict.{get}
use termhop.Agent.Reply.{answer}
use termhop.Agent.Crypto.{
  encode_ascii, handshake_transcript, message_aad, transcript_text, aad_text, encrypt, decrypt,
}
use termhop.Agent.Crypto.Encodings.{handshake_transcript_inj, message_aad_inj}
use termhop.Agent.Crypto.Sealed.{decrypt-encrypt}
use termhop.Agent.Samples.{toy_primitives, toy_primitives-IsAead}
use termhop.Agent.SessionManager.{
  SessionManager, SessionRecord, running, Lease, Inputs, save, is_session_id,
}
use termhop.Agent.SessionManager.Manifest.{load, file_value}
use termhop.Agent.SessionManager.Manifest.RoundTrip.{loaded_of, load-save}
use termhop.Agent.SessionManager.Calls.{attaches, perform}
use termhop.Agent.SessionManager.Exclusive.{perform-excludes}

abbrev test_inputs : Inputs
test_inputs = record {
  time_s = 100;
  monotonic_ms = 5000;
  token_hex = "00000000000000000000000000000000";
  token_urlsafe = "mine";
  disk_up = true;
}

abbrev test_record : SessionRecord
test_record = record {
  session_id = "ts-0123456789abcdef0123456789abcdef";
  label = "shell";
  cwd = "/";
  state = running;
  created_at = 1;
  updated_at = 1;
  exit_code = none;
}

abbrev test_lease : Lease
test_lease = record { token = "theirs"; expires_at = 300000 }

abbrev test_manager : SessionManager
test_manager = record {
  manifest = none;
  lease_seconds = 300;
  sessions = ("ts-0123456789abcdef0123456789abcdef", test_record) ∷ [];
  leases = ("ts-0123456789abcdef0123456789abcdef", test_lease) ∷ [];
}

test_held : get test_manager.leases "ts-0123456789abcdef0123456789abcdef" ≡ some test_lease
unfolding get
test_held = refl

perform-excludes_example :
    perform test_inputs (attaches "ts-0123456789abcdef0123456789abcdef") test_manager
    ≡ (false, test_manager)
perform-excludes_example =
    perform-excludes test_inputs test_manager "ts-0123456789abcdef0123456789abcdef" test_lease
      (attaches "ts-0123456789abcdef0123456789abcdef") test_held refl refl

test_transcript :
    handshake_transcript "sess-01" "token" "AAAA" "BBBB"
    ≡ answer (codes (transcript_text "sess-01" "token" "AAAA" "BBBB"))
unfolding handshake_transcript encode_ascii
test_transcript = refl

handshake_transcript_inj_example :
    (◌≡◌ {A = String} "sess-01" "sess-01")
    × (◌≡◌ {A = String} "token" "token")
    × (◌≡◌ {A = String} "AAAA" "AAAA")
    × (◌≡◌ {A = String} "BBBB" "BBBB")
handshake_transcript_inj_example =
    handshake_transcript_inj "sess-01" "token" "AAAA" "BBBB" "sess-01" "token" "AAAA" "BBBB" refl
      refl refl refl refl refl test_transcript test_transcript

test_aad :
    message_aad "pty_data" "sess-01" 7 "agent_to_client"
    ≡ answer (codes (aad_text "pty_data" "sess-01" 7 "agent_to_client"))
unfolding message_aad encode_ascii decimal
test_aad = refl

message_aad_inj_example :
    (◌≡◌ {A = String} "pty_data" "pty_data")
    × (◌≡◌ {A = String} "sess-01" "sess-01")
    × (◌≡◌ {A = ℕ} 7 7)
    × (◌≡◌ {A = String} "agent_to_client" "agent_to_client")
message_aad_inj_example =
    message_aad_inj "pty_data" "sess-01" 7 "agent_to_client" "pty_data" "sess-01" 7
      "agent_to_client" refl refl refl refl test_aad test_aad

abbrev test_nonce : List ℕ
test_nonce = codes "abcdefghijklmnopqrstuvwx"

decrypt-encrypt_example :
    decrypt toy_primitives []
      (str (encrypt toy_primitives test_nonce [] (104 ∷ 105 ∷ []) []).0)
      (str (encrypt toy_primitives test_nonce [] (104 ∷ 105 ∷ []) []).1)
      []
    ≡ answer (104 ∷ 105 ∷ [])
decrypt-encrypt_example =
    decrypt-encrypt toy_primitives toy_primitives-IsAead test_nonce [] (104 ∷ 105 ∷ []) []
      (ground arith) refl (ground arith)

abbrev disk_manager : SessionManager
disk_manager = record test_manager { manifest = some [] }

test_fits : is_session_id "ts-0123456789abcdef0123456789abcdef" ≡ true
unfolding is_session_id
test_fits = refl

load-save_example :
    get
      (load (file_value (save test_inputs disk_manager).1.manifest))
      "ts-0123456789abcdef0123456789abcdef"
    ≡ loaded_of (get disk_manager.sessions "ts-0123456789abcdef0123456789abcdef")
unfolding get
load-save_example =
    load-save test_inputs disk_manager [] "ts-0123456789abcdef0123456789abcdef" refl refl
      (refl, test_fits, refl, tt)
