-- ===== src/Agent/PtyBackend/Sizes.antt =====
-- The sizes that a terminal was set to.
use termhop.Base.{
  ℕ, ◌≤◌, Bool, true, false, Option, none, some, List, [], ◌∷◌, if◌then◌else◌, Bool-cases, inl, inr,
}
use termhop.Base64.{Bytes}
use termhop.Agent.Reply.{Reply}
use termhop.Agent.Reply.Keeps.{Keeps}
use termhop.Agent.PtyBackend.{
  Proc, Backend, using, read_proc, read, write, resize, wait, close, ended,
}

-- Both sides are from 1 to 9999.
abbrev pub IsSize : ℕ → ℕ → Type 0
IsSize rows cols = (1 ≤ rows) × (rows ≤ 9999) × (1 ≤ cols) × (cols ≤ 9999)

abbrev pub AreSizes : List (ℕ × ℕ) → Type 0
AreSizes [] = Unit {0}
AreSizes ((rows, cols) ∷ sizes) = IsSize rows cols × AreSizes sizes

abbrev HasSizes : Option Proc → Type 0
HasSizes none = Unit {0}
HasSizes (some proc) = AreSizes proc.sizes

-- Every size that the terminal was ever set to
abbrev pub Sized : Backend → Type 0
Sized b = HasSizes b.proc

using-Sized :
    {A : Type 0} (f : Proc → Reply A × Proc) (o : Option Proc)
    → ((proc : Proc) → AreSizes proc.sizes → AreSizes (f proc).1.sizes)
    → HasSizes o
    → HasSizes (using f o).1.proc
unfolding using
using-Sized f none k h = tt
using-Sized f (some proc) k h = k proc h

either_open :
    (b : Bool) (x y : Reply (Unit {0}) × Proc)
    → AreSizes x.1.sizes
    → AreSizes y.1.sizes
    → AreSizes (if b then x else y).1.sizes
either_open true x y hx hy = hx
either_open false x y hx hy = hy

pub read-Sized : Keeps Sized read
unfolding read
read-Sized = record { at = λ b h. using-Sized _ b.proc (λ proc. next proc.output proc) h }
  where
    next :
        (chunks : List Bytes) (proc : Proc)
        → AreSizes proc.sizes
        → AreSizes (read_proc chunks proc).1.sizes
    next [] proc h = h
    next (chunk ∷ chunks) proc h = h

pub write-Sized : (text : Bytes) → Keeps Sized (write text)
unfolding write
write-Sized text = record {
  at = λ b h. using-Sized _ b.proc (λ proc k. either_open proc.is_open _ _ k k) h;
}

pub resize-Sized : (rows cols : ℕ) → IsSize rows cols → Keeps Sized (resize rows cols)
unfolding resize
resize-Sized rows cols fits = record {
  at = λ b h. using-Sized _ b.proc (λ proc k. either_open proc.is_open _ _ (fits, k) k) h;
}

pub wait-Sized : Keeps Sized wait
unfolding wait
wait-Sized = record { at = λ b h. using-Sized _ b.proc (λ proc k. k) h }

ended-HasSizes : (o : Option Proc) → HasSizes o → HasSizes (ended o)
unfolding ended
ended-HasSizes none h = tt
ended-HasSizes (some proc) h = elim (Bool-cases proc.running) [
  | inl alive ↦ rw alive h
  | inr dead ↦ rw dead h
]

pub close-Sized : Keeps Sized close
unfolding close
close-Sized = record { at = λ b h. ended-HasSizes b.proc h }
