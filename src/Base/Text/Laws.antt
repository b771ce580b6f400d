-- ===== src/Base/Text/Laws.antt =====
-- Texts and their characters; a decimal number is read back from its digits.
use Prim.Native.Char.{Char, code}
use Prim.Native.String.{String}
use Prim.Native.Nat.{ℕ, zero, suc, ◌+◌, ◌-◌, ◌*◌, ◌/◌, ◌%◌, ◌≤◌, ◌<◌}
use mathlib.Core.Path.{◌≡◌, refl, ap, sym, ◌∙◌}
use mathlib.Core.Logic.{inl, inr}
use text.Mathlib.Text.{◌==◌}
use mathlib.Core.Bool.{Bool, true, false}
use mathlib.Core.List.{List, [], ◌∷◌, ◌++◌}
use mathlib.Core.Option.{Option, none, some}
use native.Mathlib.Omega.{arith}
use text.Mathlib.TextEquality.{Char-path, eq_iff}
use text.Mathlib.TextLemmas.{nil-append, cons-append}
use termhop.Base.Tests.{ltb, eqb, Bool-cases}
use termhop.Base.Lists.{length, all_below_sound}
use termhop.Base.Text.{opt_eq, codes, ◌⧺◌, digit, decimal_loop, decimal}

pub codes-⧺ : (s t : String) → codes (s ⧺ t) ≡ codes s ++ codes t
codes-⧺ String.[] t = ap codes (nil-append t)
codes-⧺ (String.◌∷◌ c s) t = ap codes (cons-append c s t) ∙ ap (◌∷◌ (code c)) (codes-⧺ s t)

head_of : List ℕ → ℕ
head_of [] = 0
head_of (c ∷ cs) = c

tail_of : List ℕ → List ℕ
tail_of [] = []
tail_of (c ∷ cs) = cs

pub codes_inj : (s t : String) → codes s ≡ codes t → s ≡ t
codes_inj String.[] String.[] h = refl
codes_inj String.[] (String.◌∷◌ d t) h = cc
codes_inj (String.◌∷◌ c s) String.[] h = cc
codes_inj (String.◌∷◌ c s) (String.◌∷◌ d t) h = λ i.
    String.◌∷◌ (Char-path c d (unfold head_of in ap head_of h) i)
      (codes_inj s t (unfold tail_of in ap tail_of h) i)

is_one : List ℕ → ℕ → Bool
is_one (c ∷ []) n = eqb c n
is_one _ n = false

is_one_sound : (cs : List ℕ) (n : ℕ) → is_one cs n ≡ true → cs ≡ n ∷ []
unfolding is_one
is_one_sound [] n h = cc
is_one_sound (c ∷ []) n h = ground arith
is_one_sound (c ∷ d ∷ cs) n h = cc

codes-digit : (d : ℕ) → d < 10 → codes (digit d) ≡ (48 + d) ∷ []
codes-digit d h =
    let shown = λ (k : ℕ). is_one (codes (digit k)) (48 + k) in
    is_one_sound (codes (digit d)) (48 + d)
      (all_below_sound 10 shown d (unfold is_one digit in refl) h)

parse_from : ℕ → List ℕ → ℕ
parse_from acc [] = acc
parse_from acc (c ∷ cs) = parse_from (acc * 10 + (c - 48)) cs

parse_from-append :
    (xs ys : List ℕ) (acc : ℕ) → parse_from acc (xs ++ ys) ≡ parse_from (parse_from acc xs) ys
unfolding parse_from
parse_from-append [] ys acc = refl
parse_from-append (x ∷ xs) ys acc = parse_from-append xs ys (acc * 10 + (x - 48))

parse-decimal_loop : (f n : ℕ) → n ≤ f → parse_from 0 (codes (decimal_loop f n)) ≡ n
unfolding decimal_loop
parse-decimal_loop zero n h = rw (codes-digit n (omega arith)) (unfold parse_from in omega arith)
parse-decimal_loop (suc f) n h = elim (Bool-cases (ltb n 10)) [
  | inl small ↦ rw small (rw (codes-digit n (ground arith)) (unfold parse_from in omega arith))
  | inr large ↦ rw large (
      rw
        (
          codes-⧺ (decimal_loop f (n / 10)) (digit (n % 10)),
          codes-digit (n % 10) (omega arith),
          parse_from-append (codes (decimal_loop f (n / 10))),
          parse-decimal_loop f (n / 10) (ground arith),
        )
        (unfold parse_from in omega arith))
]

-- Two numbers with one decimal notation are equal.
pub decimal_inj : (n k : ℕ) → decimal n ≡ decimal k → n ≡ k
unfolding decimal
decimal_inj n k h =
    sym (parse-decimal_loop n n (omega arith))
    ∙ ap (λ s. parse_from 0 (codes s)) h
    ∙ parse-decimal_loop k k (omega arith)

pub opt_eq_sound : (a b : Option String) → opt_eq a b ≡ true → a ≡ b
opt_eq_sound none none h = refl
opt_eq_sound none (some t) h = cc
opt_eq_sound (some s) none h = cc
opt_eq_sound (some s) (some t) h = ap some ((eq_iff s t).0 h)

pub text-filled : (c : Char) (s : String) → (String.◌∷◌ c s == "") ≡ false
text-filled c s = elim (Bool-cases (String.◌∷◌ c s == "")) [
  | inl same ↦
      absurd (
        let h = ap (λ x. length (codes x)) ((eq_iff (String.◌∷◌ c s) "").0 same) in
        omega (arith, h))
  | inr other ↦ other
]
