-- ===== src/Agent/Reply/Cases.antt =====
-- A claim on how a command ends follows from the claim on how it goes on, one rule for each step.
use termhop.Base.{◌≡◌, refl, Bool, true, false, if◌then◌else◌}
use termhop.Agent.Reply.{Reply, answer, failed, Fault, Command, lift, follow, ◌>>=◌}

module _ {S B : Type 0} (Q : Reply B × S → Type 0) where
  pub lift_at :
      {A : Type 0} (r : Reply A) (f : A → Command S B) (s : S)
      → ((a : A) → r ≡ answer a → Q (f a s))
      → ((e : Fault) → Q (failed e, s))
      → Q ((lift r >>= f) s)
  unfolding lift ◌>>=◌
  lift_at (answer a) f s k h = k a refl
  lift_at (failed e) f s k h = h e

  pub if_at :
      (b : Bool) (m n : Command S B) (s : S)
      → (b ≡ true → Q (m s))
      → (b ≡ false → Q (n s))
      → Q ((if b then m else n) s)
  if_at true m n s km kn = km refl
  if_at false m n s km kn = kn refl

module _ {S A B : Type 0} (Q : Reply B × S → Type 0) where
  pub bind_at :
      (m : Command S A) (f : A → Command S B) (s : S)
      → ((a : A) (s' : S) → m s ≡ (answer a, s') → Q (f a s'))
      → ((e : Fault) (s' : S) → m s ≡ (failed e, s') → Q (failed e, s'))
      → Q ((m >>= f) s)
  unfolding ◌>>=◌
  bind_at m f s go stop = next (m s) go stop
    where
      next :
          (r : Reply A × S)
          → ((a : A) (s' : S) → r ≡ (answer a, s') → Q (f a s'))
          → ((e : Fault) (s' : S) → r ≡ (failed e, s') → Q (failed e, s'))
          → Q (follow f r)
      next (answer a, s') k h = k a s' refl
      next (failed e, s') k h = h e s' refl
