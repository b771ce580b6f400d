-- ===== src/Agent/PtyBackend/Alive.antt =====
-- A child that was closed does not run.
use termhop.Base.{
  ◌≡◌, ◌≢◌, refl, Bool, true, false, Option, none, some, Bool-cases, inl, inr, arith,
}
use termhop.Agent.Reply.{answer}
use termhop.Agent.PtyBackend.{Backend, Proc, is_alive, using, ended, close}

-- There is a child, and it does not run.
abbrev pub Dead : Backend → Type 0
Dead b = (is_alive b).0 ≡ answer false

ended-Dead :
    (o : Option Proc) (lives : Bool)
    → (is_alive (record { proc = o })).0 ≡ answer lives
    → Dead (record { proc = ended o })
unfolding is_alive using ended
ended-Dead none lives h = absurd cc
ended-Dead (some proc) lives h = elim (Bool-cases proc.running) [
  | inl on ↦ rw on refl
  | inr off ↦ rw off refl
]

pub close-Dead : (b : Backend) (lives : Bool) → (is_alive b).0 ≡ answer lives → Dead (close b).1
unfolding close
close-Dead b lives h = ended-Dead b.proc lives h

ended-not_alive : (o : Option Proc) → (is_alive (record { proc = ended o })).0 ≢ answer true
unfolding is_alive using ended
ended-not_alive none h = absurd cc
ended-not_alive (some proc) h = elim (Bool-cases proc.running) [
  | inl on ↦ absurd (ground (arith, h, on))
  | inr off ↦ absurd (ground (arith, h, off))
]

pub close-not_alive : (b : Backend) → (is_alive (close b).1).0 ≢ answer true
unfolding close
close-not_alive b h = ended-not_alive b.proc h
