-- ===== src/Agent/RelayClient/Sequence.antt =====
-- Numbers of the frames that are sent: what a client sends is numbered upwards.
use termhop.Base.{
  ℕ, suc, ◌≤◌, ◌<◌, ◌≡◌, refl, String, Bool, true, false, Option, none, some, List, [], ◌∷◌, arith,
  if◌then◌else◌, ◌&&◌,
}
use termhop.Json.{Payload, Value}
use termhop.Relay.Envelope.{Envelope, model_validate}
use termhop.Agent.Reply.{Reply, answer, failed, change, reads, follow, ◌>>=◌}
use termhop.Agent.Reply.Keeps.{
  Keeps, reply_rules, Keeps-raise, Keeps-reads, Keeps-if, Keeps-change, Keeps-bind,
}
use termhop.Agent.RelayClient.{
  Platform, RelayClient, Client, asserts, needs, next_seq, tick, send, send_numbered, send_with_seq,
  transmit, is_open, record_sent, take_frame, parse_frame, parse_shape, check_protocol, recv,
  connect, generate_pairing_token, generate_pairing_secret, generate_session_id,
  generate_ephemeral_keypair,
}

-- The envelopes, the newest first, have falling numbers below the bound.
abbrev pub Below : ℕ → List Envelope → Type 0
Below n [] = Unit {0}
Below n (e ∷ es) = (e.seq < n) × Below e.seq es

-- All that was sent is numbered upwards, and the counter stands at the last number that was given out.
abbrev pub Ordered : RelayClient → Type 0
Ordered c = Below (suc c.seq) c.sent

-- The last number is given out, and not yet sent.
abbrev pub Reserved : ℕ → RelayClient → Type 0
Reserved n c = (c.seq ≡ n) × Below n c.sent

Below-weaken : (n k : ℕ) (es : List Envelope) → n ≤ k → Below n es → Below k es
Below-weaken n k [] le h = tt
Below-weaken n k (e ∷ es) le h = (omega arith, h.1)

Reserved-Ordered : (n : ℕ) (c : RelayClient) → Reserved n c → Ordered c
Reserved-Ordered n c h = Below-weaken n (suc c.seq) c.sent (omega arith) h.1

-- What only passes moments and takes frames.
pub record IsQuiet (P : RelayClient → Type 0) : Type 0 where
  pub moves : (c : RelayClient) (n : ℕ) → P c → P (record c { moment = n })
  pub takes : (c : RelayClient) (frames : List String) → P c → P (record c { inbox = frames })

pub Ordered-IsQuiet : IsQuiet Ordered
Ordered-IsQuiet = record { moves = λ c n h. h; takes = λ c frames h. h }

pub Reserved-IsQuiet : (n : ℕ) → IsQuiet (Reserved n)
Reserved-IsQuiet n = record { moves = λ c k h. h; takes = λ c frames h. h }

module _ {P : RelayClient → Type 0} where
  pub Keeps-asserts : (b : Bool) → Keeps P (asserts b)
  unfolding asserts
  Keeps-asserts true = record { at = λ c h. h }
  Keeps-asserts false = record { at = λ c h. h }

  pub Keeps-needs : {A : Type 0} (value : Option A) → Keeps P (needs value)
  unfolding needs
  Keeps-needs none = record { at = λ c h. h }
  Keeps-needs (some a) = record { at = λ c h. h }

  check_protocol-Keeps : (e : Envelope) → Keeps P (check_protocol e)
  unfolding check_protocol
  check_protocol-Keeps e = search reply_rules

  parse_shape-Keeps : (e : Option Envelope) → Keeps P (parse_shape e)
  unfolding parse_shape
  parse_shape-Keeps none = search reply_rules
  parse_shape-Keeps (some e) = check_protocol-Keeps e

  parse_frame-Keeps : (v : Option Value) → Keeps P (parse_frame v)
  unfolding parse_frame
  parse_frame-Keeps none = search reply_rules
  parse_frame-Keeps (some v) = parse_shape-Keeps (model_validate v)

module _ {P : RelayClient → Type 0} (quiet : IsQuiet P) where
  pub Keeps-tick : Keeps P tick
  unfolding tick
  Keeps-tick = record { at = λ c h. quiet.moves c (suc c.moment) h }

  take_frame-Keeps : (frames : List String) → Keeps P (take_frame frames)
  unfolding take_frame
  take_frame-Keeps [] = record { at = λ c h. h }
  take_frame-Keeps (raw ∷ frames) = record { at = λ c h. quiet.takes c frames h }

  module _ (p : Platform) where
    pub recv-Keeps : Keeps P (recv p)
    unfolding recv
    recv-Keeps = search (reply_rules, Keeps-asserts, take_frame-Keeps, parse_frame-Keeps) depth 10

    pub generate_pairing_token-Keeps : Keeps P (generate_pairing_token p)
    unfolding generate_pairing_token
    generate_pairing_token-Keeps = search (reply_rules, Keeps-tick)

    pub generate_pairing_secret-Keeps : Keeps P (generate_pairing_secret p)
    unfolding generate_pairing_secret
    generate_pairing_secret-Keeps = search (reply_rules, Keeps-tick)

    pub generate_session_id-Keeps : Keeps P (generate_session_id p)
    unfolding generate_session_id
    generate_session_id-Keeps = search (reply_rules, Keeps-tick)

    pub generate_ephemeral_keypair-Keeps : Keeps P (generate_ephemeral_keypair p)
    unfolding generate_ephemeral_keypair
    generate_ephemeral_keypair-Keeps = search (reply_rules, Keeps-tick)

-- From a state in which the number is reserved, the command ends in one that is ordered.
pub record Numbered {A : Type 0} (n : ℕ) (command : Client A) : Type 0 where
  pub run : (c : RelayClient) → Reserved n c → Ordered (command c).1

module _ (n : ℕ) where
  Numbered-Keeps : {A : Type 0} (m : Client A) → Keeps (Reserved n) m → Numbered n m
  Numbered-Keeps m k = record { run = λ c h. Reserved-Ordered n (m c).1 (k.at c h) }

  Numbered-follow :
      {A B : Type 0} (f : A → Client B) (r : Reply A) (c : RelayClient)
      → ((a : A) → Numbered n (f a))
      → Reserved n c
      → Ordered (follow f (r, c)).1
  Numbered-follow f (answer a) c k h = (k a).run c h
  Numbered-follow f (failed e) c k h = Reserved-Ordered n c h

  pub Numbered-bind :
      {A B : Type 0} (m : Client A) (f : A → Client B)
      → Keeps (Reserved n) m
      → ((a : A) → Numbered n (f a))
      → Numbered n (m >>= f)
  unfolding ◌>>=◌
  Numbered-bind m f km kf = record { run = λ c h. Numbered-follow f (m c).0 (m c).1 kf (km.at c h) }

  Numbered-if :
      {A : Type 0} (b : Bool) (m k : Client A)
      → Numbered n m
      → Numbered n k
      → Numbered n (if b then m else k)
  Numbered-if true m k hm hk = hm
  Numbered-if false m k hm hk = hk

  sends : (e : Envelope) → e.seq ≡ n → Numbered n (change (record_sent e))
  unfolding change record_sent
  sends e same = record { run = λ c h. (omega arith, rw same h.1) }

  transmit-Numbered : (p : Platform) (e : Envelope) → e.seq ≡ n → Numbered n (transmit p e)
  unfolding transmit
  transmit-Numbered p e same = Numbered-bind tick _ (Keeps-tick (Reserved-IsQuiet n)) λ k.
      Numbered-bind (reads _) _ (Keeps-reads _) λ state.
        Numbered-if (p.up k && is_open state) _ _ (sends e same) (Numbered-Keeps _ (Keeps-raise _))

  pub send_numbered-Numbered :
      (p : Platform) (type : String) (session_id : Option String) (payload : Payload)
      → Numbered n (send_numbered p type session_id payload n)
  unfolding send_numbered
  send_numbered-Numbered p type session_id payload =
      Numbered-bind tick _ (Keeps-tick (Reserved-IsQuiet n))
        λ k. Numbered-if _ _ _ (transmit-Numbered p _ refl) (Numbered-Keeps _ (Keeps-raise _))

  pub send_with_seq-Numbered :
      (p : Platform) (type : String) (session_id : Option String) (payload : Payload)
      → Numbered n (send_with_seq p type session_id payload n)
  unfolding send_with_seq
  send_with_seq-Numbered p type session_id payload =
      Numbered-bind _ _ (Keeps-reads _) λ b.
        Numbered-bind _ _ (Keeps-asserts b) λ _. send_numbered-Numbered p type session_id payload

-- A number is drawn, and the rest runs with it.
pub next_seq-Keeps :
    {A : Type 0} (f : ℕ → Client A) → ((n : ℕ) → Numbered n (f n)) → Keeps Ordered (next_seq >>= f)
unfolding next_seq ◌>>=◌
next_seq-Keeps f k = record {
  at = λ c h. (k (suc c.seq)).run (record c { seq = suc c.seq }) (refl, h);
}

module _ (p : Platform) where
  pub send-Keeps :
      (type : String) (session_id : Option String) (payload : Payload)
      → Keeps Ordered (send p type session_id payload)
  unfolding send
  send-Keeps type session_id payload = Keeps-bind _ _ (Keeps-reads _) λ b.
      Keeps-bind _ _ (Keeps-asserts b)
        λ _. next_seq-Keeps _ λ n. send_numbered-Numbered n p type session_id payload

  pub connect-Keeps : Keeps Ordered (connect p)
  unfolding connect
  connect-Keeps = Keeps-bind _ _ (Keeps-change _ λ c h. h) λ _.
      Keeps-bind _ _ (Keeps-tick Ordered-IsQuiet)
        λ n. Keeps-if (p.up n) _ _ (Keeps-change _ λ c h. h) (Keeps-raise _)
