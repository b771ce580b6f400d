-- ===== src/Base/Text.antt =====
-- Text as Python sees it: a string is a sequence of code points, and `len` counts them.
pub mod Laws
use Prim.Native.Nat.{ℕ, zero, suc, ◌/◌, ◌%◌}
use Prim.Native.Char.{code}
use Prim.Native.String.{String}
use Prim.Native.String
use mathlib.Core.Path.{◌≡◌, refl}
use mathlib.Core.Bool.{Bool, true, false, ◌&&◌, ◌||◌}
use mathlib.Core.Option.{Option, none, some}
use mathlib.Core.List.{List, [], ◌∷◌}
use text.Mathlib.Text.{◌==◌}
use termhop.Base.Tests.{ltb, leb, eqb, if◌then◌else◌}
use termhop.Base.Lists.{length, some_of}

abbrev pub codes : String → List ℕ
codes String.[] = []
codes (String.◌∷◌ c s) = code c ∷ codes s

-- len(s)
abbrev pub str_len : String → ℕ
str_len s = length (codes s)

abbrev pub in_range : ℕ → ℕ → ℕ → Bool
in_range lo hi c = leb lo c && leb c hi

-- [A-Za-z0-9_-]
abbrev pub url_safe : ℕ → Bool
url_safe c =
    in_range b'A' b'Z' c || in_range b'a' b'z' c || in_range b'0' b'9' c || eqb c b'_' || eqb c b'-'

-- [a-f0-9]
abbrev pub lower_hex : ℕ → Bool
lower_hex c = in_range b'a' b'f' c || in_range b'0' b'9' c

-- ord(c) < 32 or ord(c) == 127
abbrev pub is_control : ℕ → Bool
is_control c = leb (suc c) 32 || eqb c 127

-- x in {..}
abbrev pub member : String → List String → Bool
member x xs = some_of (λ y. x == y) xs

-- Equality of `str | None`.
abbrev pub opt_eq : Option String → Option String → Bool
opt_eq none none = true
opt_eq (some a) (some b) = a == b
opt_eq _ _ = false

-- Concatenation of texts, as in f-strings.
infixr 65 ◌⧺◌
abbrev pub ◌⧺◌ : String → String → String
a ⧺ b = String.◌++◌ a b

digit : ℕ → String
digit d =
    if eqb d 0
    then "0"
    else if eqb d 1
    then "1"
    else if eqb d 2
    then "2"
    else if eqb d 3
    then "3"
    else if eqb d 4
    then "4"
    else if eqb d 5
    then "5"
    else if eqb d 6
    then "6"
    else if eqb d 7
    then "7"
    else if eqb d 8
    then "8"
    else "9"

decimal_loop : ℕ → ℕ → String
unfolding digit
decimal_loop zero n = digit n
decimal_loop (suc fuel) n =
    let front = decimal_loop fuel (n / 10) in if ltb n 10 then digit n else front ⧺ digit (n % 10)

-- str(n): each round drops a digit, so that `n` rounds are enough.
unfoldable pub decimal : ℕ → String
unfolding decimal_loop
decimal n = decimal_loop n n

test_decimal : decimal 12045 ≡ "12045"
unfolding decimal
test_decimal = refl

-- s.lstrip() and s.rstrip(), of the characters that pass the test
module _ (test : ℕ → Bool) where
  abbrev pub lstrip : String → String
  lstrip String.[] = ""
  lstrip (String.◌∷◌ c s) = let rest = lstrip s in if test (code c) then rest else String.◌∷◌ c s

  abbrev pub rstrip : String → String
  rstrip String.[] = ""
  rstrip (String.◌∷◌ c s) =
      let rest = rstrip s in if test (code c) && rest == "" then "" else String.◌∷◌ c rest

-- c.isspace()
abbrev pub is_space : ℕ → Bool
is_space c =
    in_range 9 13 c
    || in_range 28 32 c
    || eqb c 133
    || eqb c 160
    || eqb c 5760
    || in_range 8192 8202 c
    || in_range 8232 8233 c
    || eqb c 8239
    || eqb c 8287
    || eqb c 12288

-- s.strip()
abbrev pub strip : String → String
strip s = lstrip is_space (rstrip is_space s)

-- What follows the prefix, for a text that has it.
abbrev pub after_prefix : List ℕ → List ℕ → Option (List ℕ)
after_prefix [] cs = some cs
after_prefix (p ∷ ps) [] = none
after_prefix (p ∷ ps) (c ∷ cs) = let rest = after_prefix ps cs in if eqb p c then rest else none

-- What follows the last comma, if there is one.
abbrev pub after_comma : String → Option String
after_comma String.[] = none
after_comma (String.◌∷◌ c s) = elim (after_comma s) [
  | none ↦ if eqb (code c) b',' then some s else none
  | some t ↦ some t
]

-- s[:n]
abbrev pub first_chars : ℕ → String → String
first_chars zero s = ""
first_chars (suc n) String.[] = ""
first_chars (suc n) (String.◌∷◌ c s) = String.◌∷◌ c (first_chars n s)

-- s.replace(c, t) for a character and a text
abbrev pub replace_char : ℕ → String → String → String
replace_char a t String.[] = ""
replace_char a t (String.◌∷◌ c s) =
    let rest = replace_char a t s in if eqb (code c) a then t ⧺ rest else String.◌∷◌ c rest
