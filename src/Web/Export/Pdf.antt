-- ===== src/Web/Export/Pdf.antt =====
-- internal/web/pdfdoc.go: the texts of the PDF, in columns of a fixed width. A text is
-- its bytes here.
pub mod Columns
pub mod Narrowing
pub mod Document
pub mod Offsets
pub mod Pages
use Prim.Native.Nat.{zero, suc}
use pos_agent.Base.{
  ℕ, ◌+◌, ◌-◌, Bool, true, false, not, ◌&&◌, ◌||◌, List, [], ◌∷◌, ◌++◌, map, Text, text,
  if◌then◌else◌, ltb, leb, nat_eqb, length, take, repeat, join,
}
use pos_agent.Web.Export.Tables.{ExportTable}

-- `lineLen`
abbrev pub sum_widths : List ℕ → ℕ
sum_widths [] = 0
sum_widths (w ∷ widths) = w + sum_widths widths

unfoldable pub line_len : List ℕ → ℕ
line_len widths =
    if ltb 1 (length widths) then sum_widths widths + (length widths - 1) else sum_widths widths

-- `c < len(t.numeric) && t.numeric[c]`, for the first column and for those behind it
abbrev pub first_numeric : List Bool → Bool
first_numeric [] = false
first_numeric (n ∷ numeric) = n

abbrev pub behind : List Bool → List Bool
behind [] = []
behind (n ∷ numeric) = numeric

-- The widths with the cells of a row; a cell past the headings counts nowhere.
unfoldable pub widen : List Text → List ℕ → List ℕ
widen [] widths = widths
widen (cell ∷ cells) [] = []
widen (cell ∷ cells) (w ∷ widths) =
    (if ltb w (length cell) then length cell else w) ∷ widen cells widths

unfoldable pub widen_all : List (List Text) → List ℕ → List ℕ
unfolding widen
widen_all [] widths = widths
widen_all (row ∷ rows) widths = widen_all rows (widen row widths)

abbrev pub at_most_44 : ℕ → ℕ
at_most_44 w = if ltb 44 w then 44 else w

-- The search for the victim: the greatest width of a column that is not one of money, and the first
-- such column, which is narrowed by one.
unfoldable pub best_width : List Bool → List ℕ → ℕ → ℕ
best_width numeric [] best = best
best_width numeric (w ∷ widths) best =
    best_width (behind numeric) widths
      (if not (first_numeric numeric) && ltb best w then w else best)

unfoldable pub narrow_first : List Bool → ℕ → List ℕ → List ℕ
narrow_first numeric best [] = []
narrow_first numeric best (w ∷ widths) =
    let rest = narrow_first (behind numeric) best widths in
    if not (first_numeric numeric) && nat_eqb w best then (w - 1) ∷ widths else w ∷ rest

-- What ends the loop of `fitWidths`: the row fits, or there is nothing left to give.
unfoldable pub is_settled : ℕ → List Bool → List ℕ → Bool
unfolding line_len best_width
is_settled budget numeric widths =
    not (ltb budget (line_len widths)) || leb (best_width numeric widths 0) 6

-- The loop of `fitWidths`; a row loses a byte in every round.
unfoldable pub shrink : ℕ → ℕ → List Bool → List ℕ → List ℕ
unfolding is_settled narrow_first
shrink zero budget numeric widths = widths
shrink (suc fuel) budget numeric widths =
    let rest =
      shrink fuel budget numeric (narrow_first numeric (best_width numeric widths 0) widths) in
    if is_settled budget numeric widths then widths else rest

-- `fitWidths`, with the length of a row as fuel
unfoldable pub fit_widths : ExportTable → ℕ → List ℕ
unfolding widen_all shrink
fit_widths t budget =
    let widths = map at_most_44 (widen_all t.rows (map length t.headers)) in
    shrink (line_len widths) budget t.numeric widths

-- `cellFit`
unfoldable pub cell_fit : Text → ℕ → Bool → Text
cell_fit s w right =
    let cut = if leb w 2 then take w s else take (w - 2) s ++ text ".." in
    let s' = if ltb w (length s) then cut else s in
    let pad = repeat b' ' (w - length s') in if right then pad ++ s' else s' ++ pad

abbrev pub first_cell : List Text → Text
first_cell [] = []
first_cell (cell ∷ cells) = cell

abbrev pub other_cells : List Text → List Text
other_cells [] = []
other_cells (cell ∷ cells) = cells

-- The parts of `formatRow`; a missing cell is empty.
unfoldable pub fit_cells : List Text → List ℕ → List Bool → List Text
unfolding cell_fit
fit_cells cells [] numeric = []
fit_cells cells (w ∷ widths) numeric =
    cell_fit (first_cell cells) w (first_numeric numeric)
    ∷ fit_cells (other_cells cells) widths (behind numeric)

-- `formatRow`
unfoldable pub format_row : List Text → List ℕ → List Bool → Text
unfolding fit_cells join
format_row cells widths numeric = join b' ' (fit_cells cells widths numeric)

-- `pdfString`
unfoldable pub pdf_string : Text → Text
pdf_string [] = []
pdf_string (c ∷ s) =
    (if nat_eqb c b'\\' || nat_eqb c b'(' || nat_eqb c b')'
      then b'\\' ∷ c ∷ []
      else if ltb c 32
      then b' ' ∷ []
      else c ∷ [])
    ++ pdf_string s
