-- ===== src/Agent/Reply/Keeps.antt =====
-- Invariants of commands, with one rule for each way to build a command.
use termhop.Base.{Bool, true, false, if◌then◌else◌}
use termhop.Agent.Reply.{
  Reply, answer, failed, Fault, Command, give, raise, reads, lift, change, follow, ◌>>=◌,
}

-- From a state with `P` the command ends in one with `P`, whether it answers or raises.
pub record Keeps {S A : Type 0} (P : S → Type 0) (command : Command S A) : Type 0 where
  pub at : (s : S) → P s → P (command s).1

module _ {S A : Type 0} {P : S → Type 0} where
  pub Keeps-give : (a : A) → Keeps P (give {S = S} a)
  unfolding give
  Keeps-give a = record { at = λ s h. h }

  pub Keeps-raise : (e : Fault) → Keeps P (raise {S = S} {A = A} e)
  unfolding raise
  Keeps-raise e = record { at = λ s h. h }

  pub Keeps-reads : (f : S → A) → Keeps P (reads f)
  unfolding reads
  Keeps-reads f = record { at = λ s h. h }

  pub Keeps-lift : (r : Reply A) → Keeps P (lift {S = S} r)
  unfolding lift
  Keeps-lift r = record { at = λ s h. h }

  pub Keeps-if :
      (b : Bool) (m n : Command S A) → Keeps P m → Keeps P n → Keeps P (if b then m else n)
  Keeps-if true m n km kn = km
  Keeps-if false m n km kn = kn

module _ {S : Type 0} {P : S → Type 0} where
  pub Keeps-change : (f : S → S) → ((s : S) → P s → P (f s)) → Keeps P (change f)
  unfolding change
  Keeps-change f k = record { at = λ s h. k s h }

module _ {S A B : Type 0} {P : S → Type 0} where
  Keeps-follow :
      (f : A → Command S B) (r : Reply A) (s : S)
      → ((a : A) → Keeps P (f a))
      → P s
      → P (follow f (r, s)).1
  Keeps-follow f (answer a) s k h = (k a).at s h
  Keeps-follow f (failed e) s k h = h

  pub Keeps-bind :
      (m : Command S A) (f : A → Command S B)
      → Keeps P m
      → ((a : A) → Keeps P (f a))
      → Keeps P (m >>= f)
  unfolding ◌>>=◌
  Keeps-bind m f km kf = record { at = λ s h. Keeps-follow f (m s).0 (m s).1 kf (km.at s h) }

pub ruleset reply_rules =
    (Keeps-give, Keeps-raise, Keeps-reads, Keeps-lift, Keeps-if, Keeps-change, Keeps-bind)
