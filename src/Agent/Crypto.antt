-- ===== src/Agent/Crypto.antt =====
-- agent/common/crypto.py. The primitives of PyNaCl, `cryptography`, `hashlib` and `hmac` are the
-- parameter `Primitives`; bytes are numbers below 256, and text is encoded in ASCII or refused.
pub mod Encodings
pub mod Sealed
use termhop.Base.{
  ℕ, ◌+◌, ◌*◌, ◌-◌, ◌%◌, String, ◌==◌, Bool, true, false, not, ◌&&◌, ◌||◌, Option, none, some, List,
  [], ◌∷◌, ◌++◌, if◌then◌else◌, eqb, leb, ltb, codes, length, take, drop, every, member, decimal,
  ◌⧺◌, str_len, replace_char,
}
use termhop.Json.{Value, str}
use termhop.Base64.{Bytes, b64encode, b64decode}
use termhop.Agent.Reply.{Reply, answer, failed, Fault, crypto_error, unicode_error, type_error}

pub record Primitives : Type 0 where
  -- X25519; none where the binding raises
  pub scalarmult : Bytes → Bytes → Option Bytes
  pub scalarmult_base : Bytes → Bytes
  pub sha256 : Bytes → Bytes
  pub hmac_sha256 : Bytes → Bytes → Bytes
  -- HKDF-SHA256 of 96 bytes, from the salt, the info and the key material
  pub hkdf : Bytes → Bytes → Bytes → Bytes
  -- XChaCha20-Poly1305 of a text under additional data, a nonce and a key
  pub aead_encrypt : Bytes → Bytes → Bytes → Bytes → Bytes
  pub aead_decrypt : Bytes → Bytes → Bytes → Bytes → Option Bytes

abbrev session_key_len : ℕ
session_key_len = 32

abbrev pub nonce_len : ℕ
nonce_len = 24

-- crypto_aead_xchacha20poly1305_ietf_ABYTES
abbrev pub tag_len : ℕ
tag_len = 16

pub record SessionKeys : Type 0 where
  pub agent_to_client : Bytes
  pub client_to_agent : Bytes
  pub proof : Bytes

abbrev pub is_ascii : String → Bool
is_ascii s = every (λ c. leb c 127) (codes s)

-- s.encode("ascii")
unfoldable pub encode_ascii : String → Reply Bytes
encode_ascii s = if is_ascii s then answer (codes s) else failed unicode_error

abbrev pub transcript_text : String → String → String → String → String
transcript_text session_id token agent_pubkey client_pubkey =
    "termhop-handshake-v2\nsession_id=" ⧺ session_id ⧺ "\ntoken=" ⧺ token ⧺ "\nagent_pubkey="
    ⧺ agent_pubkey ⧺ "\nclient_pubkey=" ⧺ client_pubkey

unfoldable pub handshake_transcript : String → String → String → String → Reply Bytes
unfolding encode_ascii
handshake_transcript session_id token agent_pubkey_b64 client_pubkey_b64 =
    encode_ascii (transcript_text session_id token agent_pubkey_b64 client_pubkey_b64)

abbrev pub padding_of : ℕ → String
padding_of n =
    if eqb (n % 4) 0
    then ""
    else if eqb (n % 4) 1
    then "==="
    else if eqb (n % 4) 2
    then "=="
    else "="

exactly_32 : String → Option Bytes → Reply Bytes
exactly_32 what none = failed (crypto_error ("invalid " ⧺ what))
exactly_32 what (some raw) =
    if eqb (length raw) 32
    then answer raw
    else failed (crypto_error (what ⧺ " must decode to exactly 32 bytes"))

-- The url-safe alphabet, by `altchars`, which also admits the standard one.
unfoldable pub decode_pairing_secret : String → Reply Bytes
unfolding exactly_32
decode_pairing_secret pairing_secret = exactly_32 "pairing secret" (
    b64decode (
      replace_char b'_' "/"
        (replace_char b'-' "+" (pairing_secret ⧺ padding_of (str_len pairing_secret)))))

abbrev pub info_prefix : Bytes
info_prefix = codes "termhop-handshake-v2" ++ 0 ∷ []

abbrev pub split_keys : Bytes → SessionKeys
split_keys material = record {
  agent_to_client = take session_key_len material;
  client_to_agent = take session_key_len (drop session_key_len material);
  proof = drop (session_key_len * 2) material;
}

abbrev pub is_direction : String → Bool
is_direction direction = member direction ("agent_to_client" ∷ "client_to_agent" ∷ [])

abbrev pub aad_text : String → String → ℕ → String → String
aad_text type session_id seq direction =
    "termhop-message-v2\ndirection="
    ⧺ direction
    ⧺ "\ntype="
    ⧺ type
    ⧺ "\nsession_id="
    ⧺ session_id
    ⧺ "\nseq="
    ⧺ decimal seq

unfoldable pub message_aad : String → String → ℕ → String → Reply Bytes
unfolding encode_ascii
message_aad type session_id seq direction =
    if is_direction direction
    then encode_ascii (aad_text type session_id seq direction)
    else failed (crypto_error ("invalid message direction: " ⧺ direction))

unfoldable pub encode_pubkey : Bytes → String
encode_pubkey pubkey_raw = b64encode pubkey_raw

-- A value that is no text raises a TypeError in `b64decode`, which becomes a CryptoError.
unfoldable pub decode_pubkey : Value → Reply Bytes
unfolding exactly_32
decode_pubkey (str pubkey_b64) = exactly_32 "public key" (b64decode pubkey_b64)
decode_pubkey _ = failed (crypto_error "invalid base64 pubkey")

module _ (P : Primitives) where
  derive_with : Bytes → Bytes → Bytes → Reply SessionKeys
  derive_with salt transcript shared_secret =
      answer (split_keys (P.hkdf salt (info_prefix ++ P.sha256 transcript) shared_secret))

  derive_salted : Reply Bytes → Bytes → Bytes → Reply SessionKeys
  unfolding derive_with
  derive_salted (answer salt) transcript shared_secret = derive_with salt transcript shared_secret
  derive_salted (failed e) transcript shared_secret = failed e

  derive_shared : String → Bytes → Option Bytes → Reply SessionKeys
  unfolding derive_salted
  derive_shared pairing_secret transcript none = failed (crypto_error "ECDH failed")
  derive_shared pairing_secret transcript (some shared_secret) =
      derive_salted (decode_pairing_secret pairing_secret) transcript shared_secret

  unfoldable pub derive_session_keys : Bytes → Bytes → String → Bytes → Reply SessionKeys
  unfolding derive_shared
  derive_session_keys own_private_key peer_public_key pairing_secret transcript =
      if not (eqb (length own_private_key) 32) || not (eqb (length peer_public_key) 32)
      then failed (crypto_error "X25519 private and public keys must each be 32 bytes")
      else derive_shared pairing_secret transcript (P.scalarmult own_private_key peer_public_key)

  abbrev pub proof_of : Bytes → Bytes → String → String
  proof_of proof_key transcript role =
      b64encode (P.hmac_sha256 proof_key (transcript ++ codes ("\nrole=" ⧺ role)))

  unfoldable pub pairing_proof : Bytes → Bytes → String → Reply String
  pairing_proof proof_key transcript role =
      if member role ("agent" ∷ "client" ∷ [])
      then answer (proof_of proof_key transcript role)
      else failed (crypto_error ("invalid proof role: " ⧺ role))

  -- hmac.compare_digest takes two ASCII texts.
  compare_proof : Reply String → Value → Reply Bool
  compare_proof (failed e) proof = failed e
  compare_proof (answer expected) (str proof_b64) =
      if is_ascii proof_b64 then answer (expected == proof_b64) else failed type_error
  compare_proof (answer expected) _ = failed type_error

  unfoldable pub verify_pairing_proof : Bytes → Bytes → String → Value → Reply Bool
  unfolding compare_proof
  verify_pairing_proof proof_key transcript role proof_b64 =
      compare_proof (pairing_proof proof_key transcript role) proof_b64

  -- The nonce is what `os.urandom` gives.
  unfoldable pub encrypt : Bytes → Bytes → Bytes → Bytes → String × String
  encrypt nonce key plaintext aad =
      (b64encode nonce, b64encode (P.aead_encrypt plaintext aad nonce key))

  opened : Option Bytes → Reply Bytes
  opened none = failed (crypto_error "decryption/authentication failed")
  opened (some plaintext) = answer plaintext

  open_sealed : Bytes → Bytes → Option Bytes → Option Bytes → Reply Bytes
  unfolding opened
  open_sealed key aad (some nonce) (some ciphertext) =
      if not (eqb (length nonce) nonce_len)
      then failed (crypto_error "nonce must decode to exactly 24 bytes")
      else if ltb (length ciphertext) tag_len
      then failed (crypto_error "ciphertext is shorter than the authentication tag")
      else opened (P.aead_decrypt ciphertext aad nonce key)
  open_sealed key aad _ _ = failed (crypto_error "invalid base64 in encrypted payload")

  abbrev decode_value : Value → Option Bytes
  decode_value (str s) = b64decode s
  decode_value _ = none

  unfoldable pub decrypt : Bytes → Value → Value → Bytes → Reply Bytes
  unfolding open_sealed
  decrypt key nonce_b64 ciphertext_b64 aad =
      open_sealed key aad (decode_value nonce_b64) (decode_value ciphertext_b64)
