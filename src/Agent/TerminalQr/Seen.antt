-- ===== src/Agent/TerminalQr/Seen.antt =====
-- The characters show the modules of the code.
use Prim.Native.Char.{Char, code}
use text.Mathlib.TextLemmas.{nil-append, cons-append}
use termhop.Base.{
  ℕ, suc, String, ◌≡◌, refl, ap, ◌∙◌, Bool, true, false, List, [], ◌∷◌, arith, if◌then◌else◌, eqb,
  ◌⧺◌, length,
}
use termhop.Agent.TerminalQr.{cell, cells, blank, rows_of, joined, render_matrix}

-- A terminal shows the upper half of a character and its lower half.
upper : Char → Bool
upper c = if eqb (code c) 9608 then true else eqb (code c) 9600

lower : Char → Bool
lower c = if eqb (code c) 9608 then true else eqb (code c) 9604

abbrev with_column : Char → List (List Bool) → List (List Bool)
with_column c (top ∷ bottom ∷ shown) = (upper c ∷ top) ∷ (lower c ∷ bottom) ∷ shown
with_column c shown = shown

-- What is seen of a text, two rows for each line
unfoldable pub seen : String → List (List Bool)
unfolding upper lower
seen String.[] = [] ∷ [] ∷ []
seen (String.◌∷◌ c s) =
    let rest = seen s in if eqb (code c) 10 then [] ∷ [] ∷ rest else with_column c rest

-- The rows in pairs, with a blank row under a last one
unfoldable pub paired : List (List Bool) → List (List Bool)
unfolding blank
paired [] = []
paired (top ∷ []) = top ∷ blank top ∷ []
paired (top ∷ bottom ∷ matrix) = top ∷ bottom ∷ paired matrix

-- All rows have as many modules.
abbrev pub IsSquare : ℕ → List (List Bool) → Type 0
IsSquare n [] = Unit {0}
IsSquare n (row ∷ matrix) = (length row ≡ n) × IsSquare n matrix

length-blank : (row : List Bool) → length (blank row) ≡ length row
unfolding blank
length-blank [] = refl
length-blank (b ∷ row) = ap suc (length-blank row)

abbrev onto_rows : List Bool → List Bool → List (List Bool) → List (List Bool)
onto_rows top bottom (t ∷ b ∷ shown) = top ∷ bottom ∷ shown
onto_rows top bottom shown = shown

-- A character shows its two modules on top of what the rest of the line shows.
first_cell :
    (t b : Bool) (s : String) (top bottom : List Bool) (shown : List (List Bool))
    → seen s ≡ top ∷ bottom ∷ shown
    → seen (String.◌∷◌ (cell t b) s) ≡ (t ∷ top) ∷ (b ∷ bottom) ∷ shown
unfolding seen upper lower
first_cell true true s top bottom shown h = rw h refl
first_cell true false s top bottom shown h = rw h refl
first_cell false true s top bottom shown h = rw h refl
first_cell false false s top bottom shown h = rw h refl

new_line : (rest : String) → seen (String.◌∷◌ "\n" rest) ≡ [] ∷ [] ∷ seen rest
unfolding seen
new_line rest = refl

seen-last :
    (top bottom : List Bool)
    → length bottom ≡ length top
    → seen (cells top bottom) ≡ top ∷ bottom ∷ []
unfolding cells
seen-last [] [] h = unfold seen in refl
seen-last [] (b ∷ bottom) h = absurd (omega arith)
seen-last (t ∷ top) [] h = absurd (omega arith)
seen-last (t ∷ top) (b ∷ bottom) h = first_cell t b _ _ _ _ (seen-last top bottom (omega arith))

seen-next :
    (top bottom : List Bool) (rest : String)
    → length bottom ≡ length top
    → seen (cells top bottom ⧺ ("\n" ⧺ rest)) ≡ top ∷ bottom ∷ seen rest
unfolding cells
seen-next [] [] rest h =
    ap seen (
      nil-append ("\n" ⧺ rest)
      ∙ cons-append "\n" "" rest
      ∙ ap (λ x. String.◌∷◌ "\n" x) (nil-append rest))
    ∙ new_line rest
seen-next [] (b ∷ bottom) rest h = absurd (omega arith)
seen-next (t ∷ top) [] rest h = absurd (omega arith)
seen-next (t ∷ top) (b ∷ bottom) rest h =
    ap seen (cons-append (cell t b) (cells top bottom) ("\n" ⧺ rest))
    ∙ first_cell t b _ _ _ _ (seen-next top bottom rest (omega arith))

joined-rows :
    (row : String) (next : List Bool) (matrix : List (List Bool))
    → joined (row ∷ rows_of (next ∷ matrix)) ≡ row ⧺ ("\n" ⧺ joined (rows_of (next ∷ matrix)))
unfolding joined rows_of
joined-rows row next [] = refl
joined-rows row next (below ∷ matrix) = refl

-- A code of rows of the same length is seen as it is: the characters show every module of the matrix in its
-- place, and a blank row under the last if the rows are odd in number.
pub seen-render_matrix :
    (n : ℕ) (top : List Bool) (matrix : List (List Bool))
    → IsSquare n (top ∷ matrix)
    → seen (render_matrix (top ∷ matrix)) ≡ paired (top ∷ matrix)
unfolding render_matrix paired
seen-render_matrix n top [] h =
    unfold joined rows_of in seen-last top (blank top) (length-blank top)
seen-render_matrix n top (bottom ∷ []) h =
    let same : length bottom ≡ length top = omega (arith, h.0, h.1) in
    unfold joined rows_of in seen-last top bottom same
seen-render_matrix n top (bottom ∷ next ∷ matrix) h =
    ap seen (joined-rows (cells top bottom) next matrix)
    ∙ seen-next top bottom (render_matrix (next ∷ matrix)) (ground (arith, h))
    ∙ ap (λ x. top ∷ bottom ∷ x) (seen-render_matrix n next matrix (ground (arith, h)))
