-- ===== src/Agent/Crypto/Encodings.antt =====
-- The transcript and the additional data are read back in one way only: the fields end at newlines.
use text.Mathlib.TextLemmas.{append_cancel_left}
use termhop.Base.Text.Laws.{codes-⧺, codes_inj, decimal_inj}
use termhop.Base.{
  ◌==◌, eq_iff, ℕ, String, ◌≡◌, refl, ap, sym, ◌∙◌, inl, inr, Bool, true, false, not, List, [], ◌∷◌,
  ◌++◌, arith, eqb, codes, ◌⧺◌, some_of, Bool-cases,
}
use termhop.Base64.{Bytes}
use termhop.Agent.Reply.{answer}
use termhop.Agent.Crypto.{
  encode_ascii, is_direction, transcript_text, aad_text, handshake_transcript, message_aad,
}

-- The text holds no newline.
abbrev pub is_line : String → Bool
is_line s = not (some_of (λ c. eqb c 10) (codes s))

-- A line and what follows its newline.
line_split :
    (a b r q : List ℕ)
    → some_of (λ c. eqb c 10) a ≡ false
    → some_of (λ c. eqb c 10) b ≡ false
    → a ++ 10 ∷ r ≡ b ++ 10 ∷ q
    → (a ≡ b) × (r ≡ q)
line_split [] [] r q ha hb h = (refl, cc)
line_split [] (d ∷ b) r q ha hb h = ground arith
line_split (c ∷ a) [] r q ha hb h = ground arith
line_split (c ∷ a) (d ∷ b) r q ha hb h = ground (arith, line_split a b r q)

-- A field is a line, and what follows it begins with a newline.
line_field :
    (a b k r q : String) (ks : List ℕ)
    → codes k ≡ 10 ∷ ks
    → is_line a ≡ true
    → is_line b ≡ true
    → a ⧺ (k ⧺ r) ≡ b ⧺ (k ⧺ q)
    → (a ≡ b) × (r ≡ q)
line_field a b k r q ks e ha hb h =
    let start = λ (x y : String).
      codes-⧺ x (k ⧺ y) ∙ ap (λ z. codes x ++ z) (codes-⧺ k y ∙ ap (λ z. z ++ codes y) e) in
    let p =
      line_split (codes a) (codes b) (ks ++ codes r) (ks ++ codes q) (ground (arith, ha))
        (ground (arith, hb)) (sym (start a r) ∙ ap codes h ∙ start b q) in
    let same = codes_inj a b p.0 in
    (
      same,
      append_cancel_left k r q
          (append_cancel_left a (k ⧺ r) (k ⧺ q) (h ∙ ap (λ z. z ⧺ (k ⧺ q)) (sym same))),
    )

-- Texts that hold no newline before the last field.
transcript_text_inj :
    (s t a c s' t' a' c' : String)
    → is_line s ≡ true
    → is_line t ≡ true
    → is_line a ≡ true
    → is_line s' ≡ true
    → is_line t' ≡ true
    → is_line a' ≡ true
    → transcript_text s t a c ≡ transcript_text s' t' a' c'
    → (s ≡ s') × (t ≡ t') × (a ≡ a') × (c ≡ c')
transcript_text_inj s t a c s' t' a' c' ls lt la ls' lt' la' h =
    let p =
      line_field s s' "\ntoken=" _ _ _ refl ls ls'
        (append_cancel_left "termhop-handshake-v2\nsession_id=" _ _ h) in
    let q = line_field t t' "\nagent_pubkey=" _ _ _ refl lt lt' p.1 in
    let r = line_field a a' "\nclient_pubkey=" _ _ _ refl la la' q.1 in (p.0, q.0, r.0, r.1)

encode_ascii-codes : (x : String) {b : Bytes} → encode_ascii x ≡ answer b → codes x ≡ b
unfolding encode_ascii
encode_ascii-codes x h = ground arith

-- The fields of a handshake can be read back from its transcript: two transcripts that are the same
-- bytes have the same session, token and keys, if no field but the last holds a newline.
pub handshake_transcript_inj :
    (s t a c s' t' a' c' : String) {b : Bytes}
    → is_line s ≡ true
    → is_line t ≡ true
    → is_line a ≡ true
    → is_line s' ≡ true
    → is_line t' ≡ true
    → is_line a' ≡ true
    → handshake_transcript s t a c ≡ answer b
    → handshake_transcript s' t' a' c' ≡ answer b
    → (s ≡ s') × (t ≡ t') × (a ≡ a') × (c ≡ c')
unfolding handshake_transcript
handshake_transcript_inj s t a c s' t' a' c' ls lt la ls' lt' la' h h' =
    transcript_text_inj s t a c s' t' a' c' ls lt la ls' lt' la' (
      codes_inj _ _ (
        encode_ascii-codes (transcript_text s t a c) h
        ∙ sym (encode_ascii-codes (transcript_text s' t' a' c') h')))

direction-is_line : (d : String) → is_direction d ≡ true → is_line d ≡ true
direction-is_line d h = elim (Bool-cases (d == "agent_to_client")) [
  | inl e ↦ rw ((eq_iff d "agent_to_client").0 e) refl
  | inr other ↦ rw ((eq_iff d "client_to_agent").0 (ground arith)) refl
]

aad_text_inj :
    (t s : String) (n : ℕ) (d t' s' : String) (n' : ℕ) (d' : String)
    → is_line t ≡ true
    → is_line s ≡ true
    → is_line d ≡ true
    → is_line t' ≡ true
    → is_line s' ≡ true
    → is_line d' ≡ true
    → aad_text t s n d ≡ aad_text t' s' n' d'
    → (t ≡ t') × (s ≡ s') × (n ≡ n') × (d ≡ d')
aad_text_inj t s n d t' s' n' d' lt ls ld lt' ls' ld' h =
    let p =
      line_field d d' "\ntype=" _ _ _ refl ld ld'
        (append_cancel_left "termhop-message-v2\ndirection=" _ _ h) in
    let q = line_field t t' "\nsession_id=" _ _ _ refl lt lt' p.1 in
    let r = line_field s s' "\nseq=" _ _ _ refl ls ls' q.1 in (q.0, r.0, decimal_inj n n' r.1, p.0)

message_aad-text :
    (t s : String) (n : ℕ) (d : String) {b : Bytes}
    → message_aad t s n d ≡ answer b
    → (is_direction d ≡ true) × (codes (aad_text t s n d) ≡ b)
unfolding message_aad
message_aad-text t s n d h = elim (Bool-cases (is_direction d)) [
  | inl known ↦ (known, encode_ascii-codes (aad_text t s n d) (ground (arith, h)))
  | inr unknown ↦ ground (arith, h)
]

-- The additional data of a message tells its direction, type, session and sequence number apart: two
-- messages with the same additional data agree in all four, if their types and sessions hold no newline.
pub message_aad_inj :
    (t s : String) (n : ℕ) (d t' s' : String) (n' : ℕ) (d' : String) {b : Bytes}
    → is_line t ≡ true
    → is_line s ≡ true
    → is_line t' ≡ true
    → is_line s' ≡ true
    → message_aad t s n d ≡ answer b
    → message_aad t' s' n' d' ≡ answer b
    → (t ≡ t') × (s ≡ s') × (n ≡ n') × (d ≡ d')
message_aad_inj t s n d t' s' n' d' lt ls lt' ls' h h' =
    let p = message_aad-text t s n d h in
    let p' = message_aad-text t' s' n' d' h' in
    aad_text_inj t s n d t' s' n' d' lt ls (direction-is_line d p.0) lt' ls'
      (direction-is_line d' p'.0) (codes_inj _ _ (p.1 ∙ sym p'.1))
