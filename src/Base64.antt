-- ===== src/Base64.antt =====
-- Standard base64, as Python's `base64` encodes it, and as `b64decode(value, validate=True)` reads it.
-- `decoded_size` is the number of bytes that a text decodes to, or `none` where the decoder raises.
pub mod RoundTrip
use Prim.Native.Char.{Char, code, nul}
use Prim.Native.String
use termhop.Base.{
  ℕ, zero, suc, ◌*◌, ◌/◌, ◌%◌, ◌-◌, String, ◌≡◌, refl, Bool, true, false, ◌&&◌, ◌||◌, Option, none,
  some, List, [], ◌∷◌, eqb, leb, ◌+◌, if◌then◌else◌, in_range, codes, is_some,
}

-- A-Z a-z 0-9 + /
abbrev pub base64_char : ℕ → Bool
base64_char c =
    in_range b'A' b'Z' c || in_range b'a' b'z' c || in_range b'0' b'9' c || eqb c b'+' || eqb c b'/'

-- What follows the first padding character: `need` more of them, and then the end.
padding : ℕ → List ℕ → Bool
padding zero [] = true
padding zero (c ∷ cs) = false
padding (suc need) [] = false
padding (suc need) (c ∷ cs) = eqb c b'=' && padding need cs

-- The decoder's loop: `n` data characters have been read.
decode_loop : ℕ → List ℕ → Option ℕ
unfolding padding
decode_loop n [] = if eqb (n % 4) 0 then some (n / 4 * 3) else none
decode_loop n (c ∷ cs) =
    let rest = decode_loop (suc n) cs in
    if base64_char c
    then rest
    else if eqb c b'=' && leb 2 (n % 4) && padding (3 - n % 4) cs
    then some (n * 3 / 4)
    else none

-- len(base64.b64decode(value, validate=True))
unfoldable pub decoded_size : String → Option ℕ
unfolding decode_loop
decoded_size s = decode_loop 0 (codes s)

test_sizes :
    (decoded_size "AAAA" ≡ some 3)
    × (decoded_size "AA==" ≡ some 1)
    × (decoded_size "AAA=" ≡ some 2)
    × (decoded_size "AA=" ≡ none)
    × (decoded_size "A===" ≡ none)
    × (decoded_size "AA*A" ≡ none)
    × (decoded_size "AA==A" ≡ none)
unfolding decoded_size
test_sizes = (refl, refl, refl, refl, refl, refl, refl)

-- A string of bytes.
abbrev pub Bytes : Type 0
Bytes = List ℕ

alphabet : String
alphabet = "ABCDEFGHIJKLMNOPQRSTUVWXYZabcdefghijklmnopqrstuvwxyz0123456789+/"

char_at : ℕ → String → Char
char_at n String.[] = nul
char_at zero (String.◌∷◌ c s) = c
char_at (suc n) (String.◌∷◌ c s) = char_at n s

-- The character of a number below 64.
digit : ℕ → Char
unfolding char_at alphabet
digit n = char_at n alphabet

-- base64.b64encode(raw).decode("ascii")
unfoldable pub b64encode : Bytes → String
unfolding digit
b64encode [] = ""
b64encode (a ∷ []) = String.◌∷◌ (digit (a / 4)) (String.◌∷◌ (digit (a % 4 * 16)) "==")
b64encode (a ∷ b ∷ []) =
    String.◌∷◌ (digit (a / 4))
      (String.◌∷◌ (digit (a % 4 * 16 + b / 16)) (String.◌∷◌ (digit (b % 16 * 4)) "="))
b64encode (a ∷ b ∷ c ∷ rest) = String.◌∷◌ (digit (a / 4)) (
    String.◌∷◌ (digit (a % 4 * 16 + b / 16))
      (String.◌∷◌ (digit (b % 16 * 4 + c / 64)) (String.◌∷◌ (digit (c % 64)) (b64encode rest))))

value_of : ℕ → ℕ
value_of c =
    if in_range b'A' b'Z' c
    then c - b'A'
    else if in_range b'a' b'z' c
    then c + 26 - b'a'
    else if in_range b'0' b'9' c
    then c + 52 - b'0'
    else if eqb c b'+'
    then 62
    else 63

-- The numbers of the data characters, up to the padding.
sextets : List ℕ → List ℕ
unfolding value_of
sextets [] = []
sextets (c ∷ cs) = let rest = sextets cs in if base64_char c then value_of c ∷ rest else []

pack : List ℕ → Bytes
pack (a ∷ b ∷ c ∷ d ∷ rest) =
    (a * 4 + b / 16) ∷ (b % 16 * 16 + c / 4) ∷ (c % 4 * 64 + d) ∷ pack rest
pack (a ∷ b ∷ c ∷ []) = (a * 4 + b / 16) ∷ (b % 16 * 16 + c / 4) ∷ []
pack (a ∷ b ∷ []) = (a * 4 + b / 16) ∷ []
pack _ = []

-- base64.b64decode(value, validate=True)
unfoldable pub b64decode : String → Option Bytes
unfolding decoded_size sextets pack
b64decode s = if is_some (decoded_size s) then some (pack (sextets (codes s))) else none

test_b64 :
    (b64encode (0 ∷ 255 ∷ 16 ∷ 131 ∷ []) ≡ "AP8Qgw==")
    × (b64decode "AP8Qgw==" ≡ some (0 ∷ 255 ∷ 16 ∷ 131 ∷ []))
    × (b64decode "AP8Qg" ≡ none)
unfolding b64encode b64decode
test_b64 = (refl, refl, refl)
