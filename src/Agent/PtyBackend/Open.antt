-- ===== src/Agent/PtyBackend/Open.antt =====
-- A terminal that is open takes what is written to it.
use termhop.Base.{ℕ, ◌≡◌, refl, ap, Bool, true, false, some, List, ◌∷◌, if◌then◌else◌, subst, sym}
use termhop.Base64.{Bytes}
use termhop.Agent.Reply.{Reply, answer}
use termhop.Agent.PtyBackend.{Proc, Backend, with_proc, using, write, resize}

-- The terminal is open, and these texts were written to it, the newest first.
pub record Typed (b : Backend) (written : List Bytes) : Type 0 where
  pub proc : Proc
  pub proc_is : b.proc ≡ some proc
  pub is_open : proc.is_open ≡ true
  pub written_is : proc.written ≡ written

chosen : {A : Type 0} (b : Bool) (x y : A) → b ≡ true → (if b then x else y) ≡ x
chosen true x y h = refl
chosen false x y h = absurd cc

-- The answer, and what the terminal holds then.
abbrev pub Takes : List Bytes → Reply (Unit {0}) × Backend → Type 0
Takes ws r = (r.0 ≡ answer tt) × Typed r.1 ws

still :
    (proc : Proc) (ws : List Bytes)
    → proc.is_open ≡ true
    → proc.written ≡ ws
    → Takes ws (answer tt, with_proc proc)
still proc ws up same =
    (refl, record { proc = proc; proc_is = refl; is_open = up; written_is = same })

pub write-Takes :
    (b : Backend) (ws : List Bytes) (text : Bytes) → Typed b ws → Takes (text ∷ ws) (write text b)
unfolding write using
write-Takes b ws text h = rw h.proc_is (
    subst (λ (r : Reply (Unit {0}) × Proc). Takes (text ∷ ws) (r.0, with_proc r.1))
      (sym (chosen h.proc.is_open _ _ h.is_open))
      (still (record h.proc { written = text ∷ h.proc.written }) (text ∷ ws) h.is_open
        (ap (λ x. text ∷ x) h.written_is)))

pub resize-Takes :
    (b : Backend) (ws : List Bytes) (rows cols : ℕ) → Typed b ws → Takes ws (resize rows cols b)
unfolding resize using
resize-Takes b ws rows cols h = rw h.proc_is (
    subst (λ (r : Reply (Unit {0}) × Proc). Takes ws (r.0, with_proc r.1))
      (sym (chosen h.proc.is_open _ _ h.is_open))
      (still (record h.proc { sizes = (rows, cols) ∷ h.proc.sizes }) ws h.is_open h.written_is))
