-- ===== src/Relay/Pairing/Tokens.antt =====
-- A token's life, as the two scripts and the deletion of its key drive it: absent, then pending with
-- what the agent registered, then spent.
use mathlib.Core.Path.{ap₂, fun_ext}
use termhop.Base.{
  ℕ, ◌<◌, String, ◌≡◌, refl, ◌==◌, eq_iff, Bool, true, false, Option, some, List, [], ◌∷◌, arith,
  if◌then◌else◌, get_or, opt_eq, ap, Bool-cases, inl, inr, ◌∙◌,
}
use termhop.Dict.{get}
use termhop.Relay.Redis.{Redis, IsRedis}
use termhop.Relay.Pairing.Scripts.{
  Issued, Consumed, duplicate, issued, not_found, already_used, consumed, pending_record,
  issue_script, consume_script,
}

pub data TokenState : Type 0 where
  absent spent : TokenState
  pending : String → String → String → TokenState

-- What the server is asked to do, at a token's key.
pub data TokenCall : Type 0 where
  issues : String → String → String → String → String → TokenCall
  consumes deletes : String → TokenCall

pub data TokenReply : Type 0 where
  accepted refused unknown used_up deleted : TokenReply
  handed_out : String → String → String → TokenReply

abbrev pub TokenTable : Type 0
TokenTable = String → TokenState

abbrev pub after_issue : String → String → String → TokenState → TokenState
after_issue pubkey session_id hostname absent = pending pubkey session_id hostname
after_issue pubkey session_id hostname spent = spent
after_issue pubkey session_id hostname (pending p s h) = pending p s h

abbrev pub reply_issue : TokenState → TokenReply
reply_issue absent = accepted
reply_issue spent = refused
reply_issue (pending p s h) = refused

abbrev pub after_consume : TokenState → TokenState
after_consume absent = absent
after_consume spent = spent
after_consume (pending p s h) = spent

abbrev pub reply_consume : TokenState → TokenReply
reply_consume absent = unknown
reply_consume spent = used_up
reply_consume (pending p s h) = handed_out p s h

-- The specification: one table of token states.
abbrev pub spec_call : TokenCall → TokenTable → TokenReply × TokenTable
spec_call (issues key pubkey session_id hostname created_at) t = (
  reply_issue (t key),
  λ j. if key == j then after_issue pubkey session_id hostname (t j) else t j,
)
spec_call (consumes key) t =
    (reply_consume (t key), λ j. if key == j then after_consume (t j) else t j)
spec_call (deletes key) t = (deleted, λ j. if key == j then absent else t j)

unfoldable pub spec_calls : List TokenCall → TokenTable → List TokenReply
spec_calls [] t = []
spec_calls (c ∷ cs) t = let (reply, t') = spec_call c t in reply ∷ spec_calls cs t'

abbrev issue_answer : Issued → TokenReply
issue_answer issued = accepted
issue_answer duplicate = refused

-- dict(zip(..)), and the fields that `handle_pair_request` takes from it
abbrev consume_answer : Consumed → TokenReply
consume_answer not_found = unknown
consume_answer already_used = used_up
consume_answer (consumed fields) =
    handed_out (get_or "" (get fields "agent_pubkey")) (get_or "" (get fields "session_id"))
      (get_or "" (get fields "agent_hostname"))

module _ {State : Type 0} (R : Redis State) (ttl : ℕ) where
  -- The same calls as the relay makes them.
  abbrev pub real_call : TokenCall → State → TokenReply × State
  real_call (issues key pubkey session_id hostname created_at) s =
      let (status, s') = issue_script R key pubkey session_id hostname created_at ttl s in
      (issue_answer status, s')
  real_call (consumes key) s =
      let (status, s') = consume_script R key s in (consume_answer status, s')
  real_call (deletes key) s = (deleted, R.del s key)

  unfoldable pub real_calls : List TokenCall → State → List TokenReply
  real_calls [] s = []
  real_calls (c ∷ cs) s = let (reply, s') = real_call c s in reply ∷ real_calls cs s'

abbrev live_state : Bool → Option String → Option String → Option String → TokenState
live_state true pubkey session_id hostname = spent
live_state false pubkey session_id hostname =
    pending (get_or "" pubkey) (get_or "" session_id) (get_or "" hostname)

abbrev state_of : Bool → Option String → Option String → Option String → Option String → TokenState
state_of false state pubkey session_id hostname = absent
state_of true state pubkey session_id hostname =
    live_state (opt_eq state (some "consumed")) pubkey session_id hostname

module _ {State : Type 0} (R : Redis State) where
  -- The state of a token, read off the store.
  abbrev pub token_state : State → String → TokenState
  token_state s key =
      state_of (R.exists s key) (R.hget s key "state") (R.hget s key "agent_pubkey")
        (R.hget s key "session_id") (R.hget s key "agent_hostname")

module _ {State : Type 0} (R : Redis State) (laws : IsRedis R) (ttl : ℕ) (positive : 0 < ttl) where
  module _ (s : State) (k j p i h c : String) where
    exists-issued :
        R.exists (R.expire (pending_record R s k p i h c) k ttl) j
        ≡ (if k == j then true else R.exists s j)
    unfolding pending_record
    exists-issued = simp (laws.exists-expire _ k j ttl positive, laws.exists-hset) (ground arith)

    hget-issued :
        (f : String)
        → R.hget (R.expire (pending_record R s k p i h c) k ttl) j f ≡ (
            if k == j
            then (if "created_at" == f
                then some c
                else if "state" == f
                then some "pending"
                else if "agent_hostname" == f
                then some h
                else if "session_id" == f
                then some i
                else if "agent_pubkey" == f
                then some p
                else R.hget s j f)
            else R.hget s j f)
    unfolding pending_record
    hget-issued f = simp (laws.hget-expire _ k j f ttl positive, laws.hget-hset) (ground arith)

    issue_state :
        token_state R (issue_script R k p i h c ttl s).1 j
        ≡ (if k == j then after_issue p i h (token_state R s j) else token_state R s j)
    unfolding issue_script
    issue_state = elim (Bool-cases (R.exists s k)) [
      | inl old ↦ rw (old, issue_script) (ground (arith, eq_iff k j))
      | inr new ↦
          rw (new, issue_script)
            (ground (
              arith,
              exists-issued,
              hget-issued "state",
              hget-issued "agent_pubkey",
              hget-issued "session_id",
              hget-issued "agent_hostname",
              eq_iff k j,
            ))
    ]

    issue_reply : issue_answer (issue_script R k p i h c ttl s).0 ≡ reply_issue (token_state R s k)
    unfolding issue_script
    issue_reply = ground arith

  module _ (s : State) (k j : String) where
    consume_state :
        token_state R (consume_script R k s).1 j
        ≡ (if k == j then after_consume (token_state R s j) else token_state R s j)
    unfolding consume_script
    consume_state = ground (
      arith,
      laws.exists-hset s k j "state" "consumed",
      laws.hget-hset s k j "state" "state" "consumed",
      laws.hget-hset s k j "state" "agent_pubkey" "consumed",
      laws.hget-hset s k j "state" "session_id" "consumed",
      laws.hget-hset s k j "state" "agent_hostname" "consumed",
      eq_iff k j,
    )

    delete_state : token_state R (R.del s k) j ≡ (if k == j then absent else token_state R s j)
    delete_state = ground (
      arith,
      laws.exists-del s k j,
      laws.hget-del s k j "state",
      laws.hget-del s k j "agent_pubkey",
      laws.hget-del s k j "session_id",
      laws.hget-del s k j "agent_hostname",
    )

  consume_reply :
      (s : State) (k : String)
      → consume_answer (consume_script R k s).0 ≡ reply_consume (token_state R s k)
  unfolding consume_script
  consume_reply s k =
      let s' = R.hset s k "state" "consumed" in
      ground (
        arith,
        laws.get-hgetall s' k "agent_pubkey",
        laws.get-hgetall s' k "session_id",
        laws.get-hgetall s' k "agent_hostname",
        laws.hget-hset s k k "state" "agent_pubkey" "consumed",
        laws.hget-hset s k k "state" "session_id" "consumed",
        laws.hget-hset s k k "state" "agent_hostname" "consumed",
        eq_iff k k,
      )

  real_call-refines :
      (call : TokenCall) (s : State)
      → ((real_call R ttl call s).0 ≡ (spec_call call (token_state R s)).0)
        × (token_state R (real_call R ttl call s).1 ≡ (spec_call call (token_state R s)).1)
  real_call-refines (issues k p i h c) s =
      (issue_reply s k k p i h c, fun_ext λ j. issue_state s k j p i h c)
  real_call-refines (consumes k) s = (consume_reply s k, fun_ext λ j. consume_state s k j)
  real_call-refines (deletes k) s = (refl, fun_ext λ j. delete_state s k j)

  -- On any store with the documented behaviour of Redis and for a positive lifetime, any sequence of
  -- issues, consumptions and deletions of tokens answers what a table of token states answers: an issue
  -- is accepted only for an absent token, and a consumption hands out what the agent registered exactly
  -- once, then is refused until a deletion.
  pub real_calls-refines :
      (calls : List TokenCall) (s : State)
      → real_calls R ttl calls s ≡ spec_calls calls (token_state R s)
  unfolding real_calls spec_calls
  real_calls-refines [] s = refl
  real_calls-refines (call ∷ calls) s =
      let step = real_call-refines call s in
      ap₂ (λ reply rest. reply ∷ rest) step.0
        (real_calls-refines calls (real_call R ttl call s).1 ∙ ap (spec_calls calls) step.1)
