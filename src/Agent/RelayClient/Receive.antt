-- ===== src/Agent/RelayClient/Receive.antt =====
-- Receiving takes one frame from the inbox, and changes nothing else.
use termhop.Base.{
  ◌≡◌, refl, ◌⊎◌, inl, inr, eqb, Bool, true, false, String, Option, none, some, List, [], ◌∷◌,
}
use termhop.Json.{Value}
use termhop.Relay.Envelope.{Envelope, model_validate}
use termhop.Agent.Reply.{
  Reply, answer, failed, Fault, assertion_error, connection_closed, raise, give, reads, ◌>>=◌, ◌>>◌,
}
use termhop.Agent.Reply.Cases.{if_at}
use termhop.Agent.RelayClient.{
  Platform, RelayClient, Client, asserts, recv, take_frame, parse_frame, parse_shape,
  check_protocol,
}

module _ {B : Type 0} (Q : Reply B × RelayClient → Type 0) where
  pub asserts_at :
      (b : Bool) (k : Client B) (c : RelayClient)
      → (b ≡ true → Q (k c))
      → ((e : Fault) → Q (failed e, c))
      → Q ((asserts b >> k) c)
  unfolding asserts ◌>>=◌
  asserts_at true k c go stop = go refl
  asserts_at false k c go stop = stop assertion_error

abbrev pub Parsed : RelayClient → Reply Envelope × RelayClient → Type 0
Parsed c r = ((e : Fault) × (r ≡ (failed e, c))) ⊎ ((frame : Envelope) × (r ≡ (answer frame, c)))

parse_shape-Parsed : (o : Option Envelope) (c : RelayClient) → Parsed c (parse_shape o c)
unfolding parse_shape check_protocol raise give
parse_shape-Parsed none c = inl (_, refl)
parse_shape-Parsed (some frame) c =
    if_at (Parsed c) (eqb frame.v 2) _ _ c (λ _. inr (frame, refl)) (λ _. inl (_, refl))

pub parse_frame-Parsed : (o : Option Value) (c : RelayClient) → Parsed c (parse_frame o c)
unfolding parse_frame raise
parse_frame-Parsed none c = inl (_, refl)
parse_frame-Parsed (some v) c = parse_shape-Parsed (model_validate v) c

-- What `_recv` does: it raises, or gives the first frame of the inbox, which is gone in both cases.
abbrev pub Received : RelayClient → Reply Envelope × RelayClient → Type 0
Received c r =
    ((e : Fault) × (rest : List String) × (r ≡ (failed e, record c { inbox = rest })))
    ⊎ ((frame : Envelope) × (raw : String) × (rest : List String) × (r
          ≡ (answer frame, record c { inbox = rest }))
        × (c.inbox ≡ raw ∷ rest))

module _ (p : Platform) where
  taken :
      (frames : List String) (c : RelayClient)
      → c.inbox ≡ frames
      → Received c ((take_frame frames >>= λ raw. parse_frame (p.json_loads raw)) c)
  unfolding take_frame ◌>>=◌
  taken [] c from = inl (connection_closed, c.inbox, refl)
  taken (raw ∷ frames) c from =
      elim (parse_frame-Parsed (p.json_loads raw) (record c { inbox = frames })) [
        | inl (e, h) ↦ inl (e, frames, h)
        | inr (frame, h) ↦ inr (frame, raw, frames, h, from)
      ]

  pub recv-Received : (c : RelayClient) → Received c (recv p c)
  unfolding recv reads ◌>>=◌
  recv-Received c =
      asserts_at (Received c) c.ws _ c (λ _. taken c.inbox c refl) (λ e. inl (e, c.inbox, refl))

-- The first frame, of a client that is connected
module _ (p : Platform) (c : RelayClient) (raw : String) (frames : List String) where
  pub recv_first :
      c.ws ≡ true
      → c.inbox ≡ raw ∷ frames
      → recv p c ≡ parse_frame (p.json_loads raw) (record c { inbox = frames })
  unfolding recv asserts reads take_frame ◌>>=◌
  recv_first up from = simp (up, from) refl

pub recv_last :
    (p : Platform) (c : RelayClient)
    → c.ws ≡ true
    → c.inbox ≡ []
    → recv p c ≡ (failed connection_closed, c)
unfolding recv asserts reads take_frame ◌>>=◌
recv_last p c up from = simp (up, from) refl
