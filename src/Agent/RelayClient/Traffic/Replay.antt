-- ===== src/Agent/RelayClient/Traffic/Replay.antt =====
-- What is received is decrypted once, and in order.
use termhop.Base.{
  ℕ, ◌<◌, ◌≡◌, refl, sym, ◌∙◌, ◌⊎◌, inl, inr, String, eq_refl, true, false, Option, none, some,
  List, [], ◌∷◌, arith, leb, opt_eq, Bool-cases, Option-cases, length,
}
use termhop.Base.Text.Laws.{opt_eq_sound}
use termhop.Dict.{get}
use termhop.Json.{Value, str, truthy}
use termhop.Base64.{Bytes, b64encode}
use termhop.Base64.RoundTrip.{AreBytes, b64encode-filled}
use termhop.Relay.Envelope.{Envelope}
use termhop.Agent.Reply.{
  Reply, answer, failed, Fault, assertion_error, handshake_error, lift, raise, give, change, reads,
  ◌>>=◌, Reply-cases,
}
use termhop.Agent.Crypto.{SessionKeys, message_aad, encrypt, decrypt}
use termhop.Agent.Crypto.Sealed.{IsAead, decrypt-encrypt}
use termhop.Agent.RelayClient.{Platform, RelayClient, needs, protocol_version}
use termhop.Agent.RelayClient.Traffic.{present, as_handshake_error, open_payload, decrypt_payload}

-- A text was accepted under the number, and the client remembers the number.
abbrev pub Accepts : RelayClient → ℕ → Reply Bytes × RelayClient → Type 0
Accepts c seq r = (text : Bytes) × (r ≡ (answer text, record c { last_peer_encrypted_seq = seq }))

abbrev pub Refuses : RelayClient → Reply Bytes × RelayClient → Type 0
Refuses c r = (e : Fault) × (r ≡ (failed e, c))

module _ (p : Platform) (c : RelayClient) (e : Envelope) where
  open_payload-cases :
      (keys : SessionKeys) (s : String) (n t : Option Value)
      → Refuses c (open_payload p keys s e n t c) ⊎ Accepts c e.seq (open_payload p keys s e n t c)
  unfolding open_payload ◌>>=◌ lift raise give change
  open_payload-cases keys s none t = inl (_, refl)
  open_payload-cases keys s (some n) none = inl (_, refl)
  open_payload-cases keys s (some n) (some t) =
      elim (Reply-cases (message_aad e.type s e.seq "client_to_agent")) [
        | inr (f, h) ↦ inl (f, rw h refl)
        | inl (aad, h) ↦
            elim (Reply-cases
              (as_handshake_error (decrypt p.primitives keys.client_to_agent n t aad))) [
                | inr (f, g) ↦ inl (f, rw (h, g) refl)
                | inl (text, g) ↦ inr (text, rw (h, g) refl)
              ]
      ]

  -- What the guards of `decrypt_payload` let through.
  opens_at :
      (keys : SessionKeys) (s : String)
      → c.session_keys ≡ some keys
      → c.session_id ≡ some s
      → opt_eq e.session_id (some s) ≡ true
      → leb e.seq c.last_peer_encrypted_seq ≡ false
      → decrypt_payload p e c
        ≡ open_payload p keys s e
            (present (get e.payload "nonce"))
            (present (get e.payload "ciphertext"))
            c
  unfolding decrypt_payload ◌>>=◌ reads needs
  opens_at keys s k i same new = simp (k, i, same, new) refl

  pub decrypt_payload-cases :
      Refuses c (decrypt_payload p e c)
      ⊎ (Accepts c e.seq (decrypt_payload p e c)
          × (e.session_id ≡ c.session_id)
          × (c.last_peer_encrypted_seq < e.seq))
  unfolding decrypt_payload ◌>>=◌ reads needs raise
  decrypt_payload-cases = elim (Option-cases c.session_keys) [
    | inl missing ↦ inl (assertion_error, rw missing refl)
    | inr (keys, k) ↦ elim (Option-cases c.session_id) [
      | inl missing ↦ inl (assertion_error, rw (k, missing) refl)
      | inr (s, i) ↦ elim (Bool-cases (opt_eq e.session_id (some s))) [
        | inr other ↦ inl (
          handshake_error "encrypted envelope session_id does not match this connection",
          rw (k, i, other) refl,
        )
        | inl same ↦ elim (Bool-cases (leb e.seq c.last_peer_encrypted_seq)) [
          | inl old ↦ inl (
            handshake_error "replayed or out-of-order encrypted envelope",
            rw (k, i, same, old) refl,
          )
          | inr new ↦
              elim (open_payload-cases keys s (present (get e.payload "nonce"))
                (present (get e.payload "ciphertext"))) [
                  | inl (f, r) ↦ inl (f, opens_at keys s k i same new ∙ r)
                  | inr (text, r) ↦ inr (
                    (text, opens_at keys s k i same new ∙ r),
                    opt_eq_sound e.session_id (some s) same ∙ sym i,
                    ground arith,
                  )
                ]
        ]
      ]
    ]
  ]

-- The number of an envelope that was accepted, before those of later ones.
abbrev pub noted : Reply Bytes → ℕ → List ℕ → List ℕ
noted (answer text) seq rest = seq ∷ rest
noted (failed e) seq rest = rest

-- The numbers of the envelopes that are accepted, of those that come in turn; one that is refused is skipped.
unfoldable pub accepted : Platform → List Envelope → RelayClient → List ℕ
accepted p [] c = []
accepted p (e ∷ es) c = let r = decrypt_payload p e c in noted r.0 e.seq (accepted p es r.1)

abbrev pub Increasing : ℕ → List ℕ → Type 0
Increasing n [] = Unit {0}
Increasing n (k ∷ ks) = (n < k) × Increasing k ks

-- Whatever envelopes a client is given to decrypt, the numbers of those that it accepts increase
-- strictly, from the last one that it accepted before.
pub accepted-Increasing :
    (p : Platform) (es : List Envelope) (c : RelayClient)
    → Increasing c.last_peer_encrypted_seq (accepted p es c)
unfolding accepted
accepted-Increasing p [] c = tt
accepted-Increasing p (e ∷ es) c = elim (decrypt_payload-cases p c e) [
  | inl (f, r) ↦ rw r (accepted-Increasing p es c)
  | inr ((text, r), same, later) ↦
      rw r (later, accepted-Increasing p es (record c { last_peer_encrypted_seq = e.seq }))
]

-- An envelope as the client's peer seals it.
abbrev pub sealed_envelope : String → String → ℕ → String × String → Envelope
sealed_envelope type session_id seq sealed = record {
  v = protocol_version;
  type = type;
  session_id = some session_id;
  seq = seq;
  ts = 0;
  payload = ("nonce", str sealed.0) ∷ ("ciphertext", str sealed.1) ∷ [];
}

truthy-b64encode :
    (bs : Bytes) → 0 < length bs → present (some (str (b64encode bs))) ≡ some (str (b64encode bs))
unfolding truthy
truthy-b64encode bs h = rw (b64encode-filled bs h) refl

open_payload-opens :
    (p : Platform) (c : RelayClient) (e : Envelope) (keys : SessionKeys) (s : String) (n t : Value)
    (aad text : Bytes)
    → message_aad e.type s e.seq "client_to_agent" ≡ answer aad
    → decrypt p.primitives keys.client_to_agent n t aad ≡ answer text
    → open_payload p keys s e (some n) (some t) c
      ≡ (answer text, record c { last_peer_encrypted_seq = e.seq })
unfolding open_payload ◌>>=◌ lift give change as_handshake_error
open_payload-opens p c e keys s n t aad text bound opened = rw (bound, opened) refl

-- What a peer seals under the client's key for this direction, with a later number than the last, and in
-- the client's session, is decrypted to what it was; the client remembers the number, and nothing else
-- of it changes. The AEAD opens what it sealed, the nonce has 24 bytes, and the metadata are ASCII.
pub decrypt_payload-sealed :
    (p : Platform)
    → IsAead p.primitives
    → (c : RelayClient) (keys : SessionKeys) (s type : String) (seq : ℕ) (nonce aad text : Bytes)
    → c.session_keys ≡ some keys
    → c.session_id ≡ some s
    → c.last_peer_encrypted_seq < seq
    → message_aad type s seq "client_to_agent" ≡ answer aad
    → AreBytes nonce
    → length nonce ≡ 24
    → AreBytes text
    → decrypt_payload p
        (sealed_envelope type s seq (encrypt p.primitives nonce keys.client_to_agent text aad))
        c
      ≡ (answer text, record c { last_peer_encrypted_seq = seq })
unfolding encrypt get
decrypt_payload-sealed p law c keys s type seq nonce aad text k i later bound bytes size plain =
    let key = keys.client_to_agent in
    let e = sealed_envelope type s seq (encrypt p.primitives nonce key text aad) in
    opens_at p c e keys s k i (eq_refl s) (ground arith)
    ∙ rw
        (
          truthy-b64encode nonce (omega arith),
          truthy-b64encode (p.primitives.aead_encrypt text aad nonce key)
              (omega (arith, law.sealed_length text aad nonce key)),
        )
        (open_payload-opens p c e keys s _ _ aad text bound
          (decrypt-encrypt p.primitives law nonce key text aad bytes size plain))
