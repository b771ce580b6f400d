-- ===== src/Agent/SessionManager/Exclusive.antt =====
-- A session has one controller at a time.
use termhop.Base.{
  String, ◌==◌, ◌&&◌, not, eq_iff, ◌≡◌, refl, ap, ◌∙◌, ◌⊎◌, subst, sym, Bool, true, false, some,
  arith, leb, Bool-cases, Option-cases, inl, inr, codes, every,
}
use termhop.Dict.{get}
use termhop.Agent.Reply.{Reply, answer, failed, session_error, Command, follow, ◌>>=◌}
use termhop.Agent.SessionManager.{
  SessionManager, SessionRecord, Lease, Inputs, is_session_id, get_record, expire_lease,
  require_lease, attach, detach, pause, resume, terminate, has_ended,
}
use termhop.Agent.SessionManager.Calls.{
  Call, creates, renames, starts, attaches, detaches, pauses, resumes, terminates, completes,
  outcome, perform,
}

-- The call would take control of the session, or use it, without the lease of the token.
abbrev pub intrudes : String → String → Call → Bool
intrudes s token (attaches t) = t == s
intrudes s token (detaches t other) = t == s && not (token == other)
intrudes s token (pauses t other) = t == s && not (token == other)
intrudes s token (resumes t other) = t == s && not (token == other)
intrudes s token (terminates t other) = t == s && not (token == other)
intrudes s token _ = false

both : (t s : String) (b : Bool) → t == s && not b ≡ true → (t ≡ s) × (b ≡ false)
both t s b h = ground (arith, eq_iff t s)

follow-refused :
    {A B : Type 0} (f : A → Command SessionManager B) (r : Reply A × SessionManager)
    (m : SessionManager)
    → outcome r ≡ (false, m)
    → outcome (follow f r) ≡ (false, m)
follow-refused f (answer a, m') m h = cc
follow-refused f (failed e, m') m h = h

module _ (io : Inputs) (m : SessionManager) (s : String) where
  lookup-cases :
      (get_record io s m ≡ (failed (session_error "session not found"), m))
      ⊎ ((r : SessionRecord) × (get_record io s m ≡ (answer r, m)))
  unfolding get_record
  lookup-cases = elim (Option-cases (get m.sessions s)) [
    | inl e ↦ inl (rw (e, get_record) refl)
    | inr (r, e) ↦ elim (Bool-cases (is_session_id s)) [
      | inl valid ↦ inr (r, rw (e, valid, get_record) refl)
      | inr other ↦ inl (rw (e, other, get_record) refl)
    ]
  ]

  -- A method looks its record up first.
  refused_after :
      {A : Type 0} (body : SessionRecord → Command SessionManager A)
      → ((r : SessionRecord) → outcome (body r m) ≡ (false, m))
      → outcome ((get_record io s >>= body) m) ≡ (false, m)
  unfolding ◌>>=◌
  refused_after body k = elim lookup-cases [
    | inl e ↦ ap (λ x. outcome (follow body x)) e
    | inr (r, e) ↦ ap (λ x. outcome (follow body x)) e ∙ k r
  ]

  module _ (lease : Lease) (held : get m.leases s ≡ some lease)
      (in_time : leb lease.expires_at io.monotonic_ms ≡ false) where
    kept_lease : expire_lease io s m ≡ (answer tt, m)
    unfolding expire_lease
    kept_lease = rw (held, in_time) refl

    attach_refused : outcome (attach io s m) ≡ (false, m)
    unfolding attach ◌>>=◌
    attach_refused = refused_after _ λ r. rw kept_lease (elim (Bool-cases (has_ended r.state)) [
      | inl ended ↦ rw ended refl
      | inr other ↦ rw (other, held) refl
    ])

    check_refused :
        (token : String)
        → (lease.token == token) ≡ false
        → (outcome (require_lease io s token m)) ≡ (false, m)
    unfolding require_lease ◌>>=◌
    check_refused token other = rw kept_lease (
        rw held (elim (Bool-cases (every (λ c. leb c 127) (codes token))) [
          | inl ascii ↦ rw (ascii, other, outcome) refl
          | inr beyond ↦ rw (beyond, outcome) refl
        ]))

    -- A method that needs the lease, under another token.
    needs_lease :
        {A : Type 0} (token : String) (body : SessionRecord → Command SessionManager A)
        → (lease.token == token) ≡ false
        → outcome ((get_record io s >>= λ r. require_lease io s token >>= λ _. body r) m)
          ≡ (false, m)
    unfolding ◌>>=◌
    needs_lease token body other =
        refused_after _ λ r.
          follow-refused (λ _. body r) (require_lease io s token m) m (check_refused token other)

    excluded : (call : Call) → intrudes s lease.token call ≡ true → perform io call m ≡ (false, m)
    unfolding perform attach detach pause resume terminate
    excluded (attaches t) h =
        subst (λ u. outcome (attach io u m) ≡ (false, m)) (sym ((eq_iff t s).0 h)) attach_refused
    excluded (detaches t token) h =
        let p = both t s (lease.token == token) h in
        subst (λ u. outcome (detach io u token m) ≡ (false, m)) (sym p.0) (needs_lease token _ p.1)
    excluded (pauses t token) h =
        let p = both t s (lease.token == token) h in
        subst (λ u. outcome (pause io u token m) ≡ (false, m)) (sym p.0) (needs_lease token _ p.1)
    excluded (resumes t token) h =
        let p = both t s (lease.token == token) h in
        subst (λ u. outcome (resume io u token m) ≡ (false, m)) (sym p.0) (needs_lease token _ p.1)
    excluded (terminates t token) h =
        let p = both t s (lease.token == token) h in
        subst (λ u. outcome (terminate io u token m) ≡ (false, m)) (sym p.0)
          (needs_lease token _ p.1)
    excluded (creates l c) h = cc
    excluded (renames t l) h = cc
    excluded (starts t) h = cc
    excluded (completes t c) h = cc

-- While a lease on a session has not expired, every attempt to attach to the session, and every detach,
-- pause, resume and terminate of it under another token, raises and changes nothing.
pub perform-excludes :
    (io : Inputs) (m : SessionManager) (s : String) (lease : Lease) (call : Call)
    → get m.leases s ≡ some lease
    → leb lease.expires_at io.monotonic_ms ≡ false
    → intrudes s lease.token call ≡ true
    → perform io call m ≡ (false, m)
perform-excludes io m s lease call held in_time h = excluded io m s lease held in_time call h
