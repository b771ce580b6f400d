-- ===== src/Agent/RelayClient/Handshake/Own.antt =====
-- What a client holds of its own while it resumes: sending and receiving leave it alone.
use termhop.Base.{
  ◌≡◌, refl, ◌∙◌, String, ◌==◌, Bool, not, ◌||◌, Option, none, some, List, [], ◌∷◌, arith, opt_eq,
  eq_iff, ℕ, suc, Bool-cases, inl, inr, subst,
}
use termhop.Base.Text.Laws.{opt_eq_sound}
use termhop.Json.{Payload}
use termhop.Base64.{Bytes}
use termhop.Relay.Envelope.{Envelope}
use termhop.Agent.Reply.{
  Reply, answer, failed, Fault, assertion_error, raise, give, change, reads, follow, ◌>>=◌,
}
use termhop.Agent.Reply.Cases.{if_at, bind_at}
use termhop.Agent.Reply.Keeps.{Keeps, reply_rules, Keeps-change}
use termhop.Agent.RelayClient.{
  Platform, RelayClient, Client, recv, send, send_numbered, transmit, record_sent, tick, next_seq,
}
use termhop.Agent.RelayClient.Sequence.{IsQuiet, Keeps-asserts, Keeps-tick, recv-Keeps}
use termhop.Agent.RelayClient.Handshake.{filled, filled_key, expect_own}

-- The same identifiers, keys and secrets, and the same state of the handshake
pub record Own (c c' : RelayClient) : Type 0 where
  pub session_is : c'.session_id ≡ c.session_id
  pub agent_pubkey_is : c'.agent_pubkey_b64 ≡ c.agent_pubkey_b64
  pub token_is : c'.token ≡ c.token
  pub private_key_is : c'.own_private_key ≡ c.own_private_key
  pub secret_is : c'.pairing_secret ≡ c.pairing_secret
  pub state_is : c'.state ≡ c.state

-- What is changed besides
abbrev pub after_change : (c c' c'' : RelayClient) → Own c c' → Own c' c'' → Own c c''
after_change c c' c'' h k = record {
  session_is = k.session_is ∙ h.session_is;
  agent_pubkey_is = k.agent_pubkey_is ∙ h.agent_pubkey_is;
  token_is = k.token_is ∙ h.token_is;
  private_key_is = k.private_key_is ∙ h.private_key_is;
  secret_is = k.secret_is ∙ h.secret_is;
  state_is = k.state_is ∙ h.state_is;
}

pub own_refl : (c : RelayClient) → Own c c
own_refl c = record {
  session_is = refl;
  agent_pubkey_is = refl;
  token_is = refl;
  private_key_is = refl;
  secret_is = refl;
  state_is = refl;
}

-- A client that differs in what is sent and received
like :
    (c : RelayClient) (ws : Bool) (seq last moment : ℕ) (inbox : List String) (sent : List Envelope)
    → Own c (record c {
      ws = ws;
      seq = seq;
      last_peer_encrypted_seq = last;
      moment = moment;
      inbox = inbox;
      sent = sent;
    })
like c ws seq last moment inbox sent = record {
  session_is = refl;
  agent_pubkey_is = refl;
  token_is = refl;
  private_key_is = refl;
  secret_is = refl;
  state_is = refl;
}

module _ (c : RelayClient) where
  pub Own-IsQuiet : IsQuiet (Own c)
  Own-IsQuiet = record {
    moves = λ c' n h.
        after_change c c' _ h (like c' c'.ws c'.seq c'.last_peer_encrypted_seq n c'.inbox c'.sent);
    takes = λ c' frames h.
        after_change c c' _ h
          (like c' c'.ws c'.seq c'.last_peer_encrypted_seq c'.moment frames c'.sent);
  }

  tick-Own : Keeps (Own c) tick
  tick-Own = Keeps-tick Own-IsQuiet

  next_seq-Own : Keeps (Own c) next_seq
  unfolding next_seq
  next_seq-Own = record {
    at = λ c' h.
        after_change c c' _ h
          (like c' c'.ws (suc c'.seq) c'.last_peer_encrypted_seq c'.moment c'.inbox c'.sent);
  }

  record_sent-Own : (e : Envelope) → Keeps (Own c) (change (record_sent e))
  unfolding record_sent
  record_sent-Own e = Keeps-change _ λ c' h.
      after_change c c' _ h
        (like c' c'.ws c'.seq c'.last_peer_encrypted_seq c'.moment c'.inbox (e ∷ c'.sent))

  module _ (p : Platform) where
    transmit-Own : (e : Envelope) → Keeps (Own c) (transmit p e)
    unfolding transmit
    transmit-Own e = search (reply_rules, tick-Own, record_sent-Own)

    send_numbered-Own :
        (type : String) (s : Option String) (body : Payload) (n : ℕ)
        → Keeps (Own c) (send_numbered p type s body n)
    unfolding send_numbered
    send_numbered-Own type s body n = search (reply_rules, tick-Own, transmit-Own)

    pub send-Own :
        (type : String) (s : Option String) (body : Payload) → Keeps (Own c) (send p type s body)
    unfolding send
    send-Own type s body =
        search (reply_rules, Keeps-asserts, next_seq-Own, send_numbered-Own) depth 10

module _ {B : Type 0} (Q : Reply B × RelayClient → Type 0) where
  pub filled_at :
      (o : Option String) (f : String → Client B) (c : RelayClient)
      → ((s : String) → o ≡ some s → Q (f s c))
      → ((e : Fault) → Q (failed e, c))
      → Q ((filled o >>= f) c)
  unfolding filled ◌>>=◌
  filled_at none f c go stop = stop assertion_error
  filled_at (some s) f c go stop = elim (Bool-cases (s == "")) [
    | inl blank ↦ rw blank (stop assertion_error)
    | inr there ↦ rw there (go s refl)
  ]

  pub filled_key_at :
      (o : Option Bytes) (f : Bytes → Client B) (c : RelayClient)
      → ((k : Bytes) → o ≡ some k → Q (f k c))
      → ((e : Fault) → Q (failed e, c))
      → Q ((filled_key o >>= f) c)
  unfolding filled_key ◌>>=◌
  filled_key_at none f c go stop = stop assertion_error
  filled_key_at (some []) f c go stop = stop assertion_error
  filled_key_at (some (b ∷ bs)) f c go stop = go (b ∷ bs) refl

  -- A frame of this type for the client's own session
  pub expect_own_at :
      (p : Platform) (type : String) (f : Envelope → Client B) (c : RelayClient)
      → ((frame : Envelope) (c' : RelayClient)
          → recv p c ≡ (answer frame, c')
          → Own c c'
          → frame.type ≡ type
          → frame.session_id ≡ c.session_id
          → Q (f frame c'))
      → ((e : Fault) (c' : RelayClient) → Own c c' → Q (failed e, c'))
      → Q ((expect_own p type >>= f) c)
  unfolding expect_own reads raise give ◌>>=◌
  expect_own_at p type f c go stop =
      let got = λ (r : Reply Envelope × RelayClient) (q : recv p c ≡ r).
        subst (λ (r : Reply Envelope × RelayClient). Own c r.1) q
          ((recv-Keeps (Own-IsQuiet c) p).at c (own_refl c)) in
      bind_at (λ r. Q (follow f r)) (recv p) _ c
        (λ frame c' q.
          let own = got (answer frame, c') q in
          if_at (λ r. Q (follow f r))
            (not (frame.type == type) || not (opt_eq frame.session_id c'.session_id)) _ _ c'
            (λ other. stop _ c' own)
            (λ same. go frame c' q own ((eq_iff frame.type type).0 (ground (arith, same))) (
              opt_eq_sound frame.session_id c'.session_id (ground (arith, same)) ∙ own.session_is)))
        (λ e c' q. stop e c' (got (failed e, c') q))
