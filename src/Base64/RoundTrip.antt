-- ===== src/Base64/RoundTrip.antt =====
-- What is encoded is read back.
use Prim.Native.Char.{code}
use termhop.Base.{
  ◌==◌, false, ℕ, suc, ◌+◌, ◌*◌, ◌/◌, ◌%◌, ◌<◌, ◌≡◌, refl, ap, ◌∙◌, Bool, true, ◌&&◌, some, List,
  [], ◌∷◌, arith, eqb, length, codes,
}
use termhop.Base.{all_below, all_below_sound}
use termhop.Base.Text.Laws.{text-filled}
use termhop.Base64.{
  Bytes, base64_char, decode_loop, decoded_size, digit, b64encode, value_of, sextets, pack,
  b64decode,
}

-- Every byte is below 256.
abbrev pub AreBytes : Bytes → Type 0
AreBytes [] = Unit {0}
AreBytes (b ∷ bs) = (b < 256) × AreBytes bs

good_digit : ℕ → Bool
good_digit n = base64_char (code (digit n)) && eqb (value_of (code (digit n))) n

good_digits : all_below 64 good_digit ≡ true
unfolding good_digit digit value_of
good_digits = refl

module _ (n : ℕ) (h : n < 64) where
  digit-base64_char : base64_char (code (digit n)) ≡ true
  unfolding good_digit
  digit-base64_char = ground (arith, all_below_sound 64 good_digit n good_digits h)

  value_of-digit : value_of (code (digit n)) ≡ n
  unfolding good_digit
  value_of-digit = ground (arith, all_below_sound 64 good_digit n good_digits h)

  sextets-digit : (cs : List ℕ) → sextets (code (digit n) ∷ cs) ≡ n ∷ sextets cs
  unfolding sextets
  sextets-digit cs = rw digit-base64_char (ap (λ x. x ∷ sextets cs) value_of-digit)

  decode_loop-digit :
      (k : ℕ) (cs : List ℕ) → decode_loop k (code (digit n) ∷ cs) ≡ decode_loop (suc k) cs
  unfolding decode_loop
  decode_loop-digit k cs = rw digit-base64_char refl

pack-sextets : (bs : Bytes) → AreBytes bs → pack (sextets (codes (b64encode bs))) ≡ bs
unfolding b64encode pack
pack-sextets [] h = unfold sextets in refl
pack-sextets (a ∷ []) h =
    rw (sextets-digit (a / 4) (omega arith), sextets-digit (a % 4 * 16) (omega arith))
      (unfold sextets in ground arith)
pack-sextets (a ∷ b ∷ []) h =
    rw
      (
        sextets-digit (a / 4) (omega arith),
        sextets-digit (a % 4 * 16 + b / 16) (omega arith),
        sextets-digit (b % 16 * 4) (omega arith),
      )
      (unfold sextets in ground arith)
pack-sextets (a ∷ b ∷ c ∷ rest) h =
    rw
      (
        sextets-digit (a / 4) (omega arith),
        sextets-digit (a % 4 * 16 + b / 16) (omega arith),
        sextets-digit (b % 16 * 4 + c / 64) (omega arith),
        sextets-digit (c % 64) (omega arith),
        pack-sextets rest h.1.1.1,
      )
      (ground arith)

module _ (k : ℕ) (whole : k % 4 ≡ 0) where
  decode_loop-two :
      (a b : ℕ)
      → a < 64
      → b < 64
      → decode_loop k (code (digit a) ∷ code (digit b) ∷ b'=' ∷ b'=' ∷ []) ≡ some (k / 4 * 3 + 1)
  decode_loop-two a b ha hb =
      rw (decode_loop-digit a ha, decode_loop-digit b hb) (unfold decode_loop in ground arith)

  decode_loop-three :
      (a b c : ℕ)
      → a < 64
      → b < 64
      → c < 64
      → decode_loop k (code (digit a) ∷ code (digit b) ∷ code (digit c) ∷ b'=' ∷ [])
        ≡ some (k / 4 * 3 + 2)
  decode_loop-three a b c ha hb hc =
      rw (decode_loop-digit a ha, decode_loop-digit b hb, decode_loop-digit c hc)
        (unfold decode_loop in ground arith)

decode_loop-b64encode :
    (bs : Bytes) (k : ℕ)
    → AreBytes bs
    → k % 4 ≡ 0
    → decode_loop k (codes (b64encode bs)) ≡ some (k / 4 * 3 + length bs)
unfolding b64encode
decode_loop-b64encode [] k h w = unfold decode_loop in ground arith
decode_loop-b64encode (a ∷ []) k h w =
    decode_loop-two k w (a / 4) (a % 4 * 16) (omega arith) (omega arith)
decode_loop-b64encode (a ∷ b ∷ []) k h w =
    decode_loop-three k w (a / 4) (a % 4 * 16 + b / 16) (b % 16 * 4) (omega arith) (omega arith)
      (omega arith)
decode_loop-b64encode (a ∷ b ∷ c ∷ rest) k h w =
    rw
      (
        decode_loop-digit (a / 4) (omega arith),
        decode_loop-digit (a % 4 * 16 + b / 16) (omega arith),
        decode_loop-digit (b % 16 * 4 + c / 64) (omega arith),
        decode_loop-digit (c % 64) (omega arith),
        decode_loop-b64encode rest (suc (suc (suc (suc k)))) h.1.1.1 (omega arith),
      )
      (ground arith)

-- The encoding of bytes has their number as its decoded size.
pub decoded_size-b64encode :
    (bs : Bytes) → AreBytes bs → decoded_size (b64encode bs) ≡ some (length bs)
unfolding decoded_size
decoded_size-b64encode bs h = decode_loop-b64encode bs 0 h refl ∙ ap some (omega arith)

pub b64decode-b64encode : (bs : Bytes) → AreBytes bs → b64decode (b64encode bs) ≡ some bs
unfolding b64decode
b64decode-b64encode bs h = rw (decoded_size-b64encode bs h) (ap some (pack-sextets bs h))

pub b64encode-filled : (bs : Bytes) → 0 < length bs → (b64encode bs == "") ≡ false
unfolding b64encode
b64encode-filled [] h = absurd (omega arith)
b64encode-filled (a ∷ []) h = text-filled _ _
b64encode-filled (a ∷ b ∷ []) h = text-filled _ _
b64encode-filled (a ∷ b ∷ c ∷ rest) h = text-filled _ _
