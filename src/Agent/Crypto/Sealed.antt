-- ===== src/Agent/Crypto/Sealed.antt =====
-- What is sealed is opened again, and nothing else is: `encrypt` and `decrypt`, and keys as texts.
use termhop.Base.{◌+◌, ◌≡◌, refl, some, arith, length}
use termhop.Json.{str}
use termhop.Base64.{Bytes}
use termhop.Base64.RoundTrip.{AreBytes, b64decode-b64encode}
use termhop.Agent.Reply.{answer}
use termhop.Agent.Crypto.{
  Primitives, exactly_32, encode_pubkey, decode_pubkey, encrypt, opened, open_sealed, decrypt,
}

-- The documented behaviour of XChaCha20-Poly1305 in combined mode on bytes: it gives bytes, 16 of them
-- the tag, and the same additional data, nonce and key open them.
pub record IsAead (P : Primitives) : Type 0 where
  pub sealed_bytes :
      (text aad nonce key : Bytes) → AreBytes text → AreBytes (P.aead_encrypt text aad nonce key)
  pub sealed_length :
      (text aad nonce key : Bytes) → length (P.aead_encrypt text aad nonce key) ≡ 16 + length text
  pub opens :
      (text aad nonce key : Bytes)
      → AreBytes text
      → P.aead_decrypt (P.aead_encrypt text aad nonce key) aad nonce key ≡ some text

open_sealed-seal :
    (P : Primitives)
    → IsAead P
    → (text aad nonce key : Bytes) → AreBytes text
    → length nonce ≡ 24
    → open_sealed P key aad (some nonce) (some (P.aead_encrypt text aad nonce key)) ≡ answer text
unfolding open_sealed opened
open_sealed-seal P law text aad nonce key plain size =
    rw (size, law.sealed_length text aad nonce key, law.opens text aad nonce key plain)
      (ground arith)

-- With an AEAD that opens what it sealed, and a nonce of 24 bytes, `decrypt` of what `encrypt` returns
-- for bytes is those bytes, under the same key and additional data.
pub decrypt-encrypt :
    (P : Primitives)
    → IsAead P
    → (nonce key text aad : Bytes) → AreBytes nonce
    → length nonce ≡ 24
    → AreBytes text
    → decrypt P key
        (str (encrypt P nonce key text aad).0)
        (str (encrypt P nonce key text aad).1)
        aad
      ≡ answer text
unfolding decrypt encrypt
decrypt-encrypt P law nonce key text aad bytes size plain =
    rw
      (
        b64decode-b64encode nonce bytes,
        b64decode-b64encode (P.aead_encrypt text aad nonce key)
            (law.sealed_bytes text aad nonce key plain),
      )
      (open_sealed-seal P law text aad nonce key plain size)

-- A public key of 32 bytes is read back from its text.
pub decode_pubkey-encode_pubkey :
    (raw : Bytes)
    → AreBytes raw
    → length raw ≡ 32
    → decode_pubkey (str (encode_pubkey raw)) ≡ answer raw
unfolding decode_pubkey encode_pubkey exactly_32
decode_pubkey-encode_pubkey raw bytes size = rw (b64decode-b64encode raw bytes, size) refl
