-- ===== src/Relay/Exec.antt =====
-- Coroutines that change a state and may raise. What was written before a raise stays written.
use termhop.Relay.Errors.{Raised}

pub data Result {ℓ} (A : Type ℓ) : Type ℓ where
  ok : A → Result A
  raised : Raised → Result A

abbrev pub Exec {ℓ} : Type ℓ → Type ℓ → Type ℓ
Exec S A = S → Result A × S

module _ {ℓ} {S A : Type ℓ} where
  unfoldable pub done : A → Exec S A
  done a s = (ok a, s)

  unfoldable pub raise : Raised → Exec S A
  raise e s = (raised e, s)

  unfoldable pub gets : (S → A) → Exec S A
  gets f s = (ok (f s), s)

  -- The result of a function that only computes.
  unfoldable pub lift : Result A → Exec S A
  lift r s = (r, s)

  -- `try: m except: handler`
  abbrev pub recover : (Raised → Exec S A) → Result A × S → Result A × S
  recover handler (ok a, s) = (ok a, s)
  recover handler (raised e, s) = handler e s

  unfoldable pub try_except : Exec S A → (Raised → Exec S A) → Exec S A
  try_except m handler s = recover handler (m s)

module _ {ℓ} {S A B : Type ℓ} where
  abbrev pub resume : (A → Exec S B) → Result A × S → Result B × S
  resume f (ok a, s) = f a s
  resume f (raised e, s) = (raised e, s)

  infixl 10 ◌>>=◌ ◌>>◌
  -- opening this opens the actions above too
  unfoldable pub ◌>>=◌ : Exec S A → (A → Exec S B) → Exec S B
  unfolding done raise gets lift try_except
  ◌>>=◌ m f s = resume f (m s)

  abbrev pub ◌>>◌ : Exec S A → Exec S B → Exec S B
  m >> n = m >>= λ _. n

-- An operation on a part of the state.
abbrev pub put_back {ℓ} : {S P A : Type ℓ} → (P → S → S) → S → Result A × P → Result A × S
put_back write s (r, p) = (r, write p s)
