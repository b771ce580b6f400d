-- ===== src/Agent/Reply.antt =====
-- Commands on an agent's state: they answer, or raise, and what was written before a raise stays.
pub mod Keeps
pub mod Cases
use termhop.Base.{String, ◌≡◌, refl, ◌⊎◌, inl, inr}

-- The exceptions of agent/common, and those of the libraries that its code meets.
pub data Fault : Type 0 where
  session_error handshake_error crypto_error envelope_error : String → Fault
  type_error toml_error unicode_error validation_error os_error eof_error assertion_error
        connection_closed :
      Fault

pub data Reply (A : Type 0) : Type 0 where
  answer : A → Reply A
  failed : Fault → Reply A

pub Reply-cases :
    {A : Type 0} (r : Reply A) → ((a : A) × (r ≡ answer a)) ⊎ ((e : Fault) × (r ≡ failed e))
Reply-cases (answer a) = inl (a, refl)
Reply-cases (failed e) = inr (e, refl)

abbrev pub Command : Type 0 → Type 0 → Type 0
Command S A = S → Reply A × S

module _ {S A : Type 0} where
  unfoldable pub give : A → Command S A
  give a s = (answer a, s)

  unfoldable pub raise : Fault → Command S A
  raise e s = (failed e, s)

  unfoldable pub reads : (S → A) → Command S A
  reads f s = (answer (f s), s)

  -- The result of a function that only computes.
  unfoldable pub lift : Reply A → Command S A
  lift r s = (r, s)

module _ {S : Type 0} where
  unfoldable pub change : (S → S) → Command S (Unit {0})
  change f s = (answer tt, f s)

module _ {S A B : Type 0} where
  abbrev pub follow : (A → Command S B) → Reply A × S → Reply B × S
  follow f (answer a, s) = f a s
  follow f (failed e, s) = (failed e, s)

  infixl 10 ◌>>=◌ ◌>>◌
  unfoldable pub ◌>>=◌ : Command S A → (A → Command S B) → Command S B
  unfolding give raise reads lift change
  ◌>>=◌ m f s = follow f (m s)

  abbrev pub ◌>>◌ : Command S A → Command S B → Command S B
  m >> n = m >>= λ _. n
