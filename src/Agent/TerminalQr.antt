-- ===== src/Agent/TerminalQr.antt =====
-- agent/common/terminal_qr.py: two rows of a QR code in one row of characters. The matrix is what the
-- `qrcode` library gives, `true` for a dark module.
pub mod Seen
use Prim.Native.Char.{Char, code}
use Prim.Native.String
use text.Mathlib.TextLemmas.{nil-append, cons-append, append_assoc}
use termhop.Base.{
  ℕ, suc, String, ◌≡◌, refl, ap, sym, ◌∙◌, Bool, true, false, List, [], ◌∷◌, arith, if◌then◌else◌,
  eqb, ◌⧺◌, length,
}

abbrev pub cell : Bool → Bool → Char
cell true true = "█"
cell true false = "▀"
cell false true = "▄"
cell false false = " "

-- The characters of zip(top, bottom)
unfoldable pub cells : List Bool → List Bool → String
cells [] bottom = ""
cells (t ∷ top) [] = ""
cells (t ∷ top) (b ∷ bottom) = String.◌∷◌ (cell t b) (cells top bottom)

-- [False] * len(row)
unfoldable pub blank : List Bool → List Bool
blank [] = []
blank (b ∷ row) = false ∷ blank row

unfoldable pub rows_of : List (List Bool) → List String
unfolding cells blank
rows_of [] = []
rows_of (top ∷ []) = cells top (blank top) ∷ []
rows_of (top ∷ bottom ∷ matrix) = cells top bottom ∷ rows_of matrix

-- "\n".join(rows)
unfoldable pub joined : List String → String
joined [] = ""
joined (row ∷ []) = row
joined (row ∷ next ∷ rows) = row ⧺ ("\n" ⧺ joined (next ∷ rows))

-- What `render_pairing_qr` returns for the code's matrix
unfoldable pub render_matrix : List (List Bool) → String
unfolding rows_of joined
render_matrix matrix = joined (rows_of matrix)

test_render :
    render_matrix ((true ∷ false ∷ []) ∷ (true ∷ true ∷ []) ∷ (false ∷ true ∷ []) ∷ []) ≡ "█▄\n ▀"
unfolding render_matrix
test_render = refl
