-- ===== src/Web/Export.antt =====
-- internal/web/xlsx.go and export.go: the texts that an export writes. A text is its code points.
pub mod Columns
pub mod Escaping
pub mod Tables
pub mod Ledger
pub mod Pdf
pub mod Xlsx
mod Tests
use Prim.Native.Nat.{zero, suc}
use pos_agent.Base.{
  ℕ, ◌+◌, ◌-◌, ◌/◌, ◌%◌, Bool, true, false, not, ◌&&◌, ◌||◌, List, [], ◌∷◌, ◌++◌, Text, text,
  nat_eqb, leb, ltb, if◌then◌else◌,
}

abbrev pub is_formula_start : ℕ → Bool
is_formula_start c = nat_eqb c b'=' || nat_eqb c b'+' || nat_eqb c b'-' || nat_eqb c b'@'

-- `csvSafe`
unfoldable pub csv_safe : Text → Text
csv_safe [] = []
csv_safe (c ∷ v) = if is_formula_start c then b'\'' ∷ c ∷ v else c ∷ v

-- The loop of `isNumeric`: whether a dot and a digit were seen.
unfoldable pub numeric_rest : Bool → Bool → Text → Bool
numeric_rest dot digits [] = digits
numeric_rest dot digits (c ∷ s) =
    if leb b'0' c && leb c b'9'
    then numeric_rest dot true s
    else if nat_eqb c b'.' && not dot
    then numeric_rest true digits s
    else false

-- `isNumeric`; a lone minus has no digit.
unfoldable pub is_numeric : Text → Bool
unfolding numeric_rest
is_numeric [] = false
is_numeric (c ∷ s) =
    if nat_eqb c b'-' then numeric_rest false false s else numeric_rest false false (c ∷ s)

-- The loop of `colName`, on fuel: `i` shrinks in every round.
unfoldable pub col_loop : ℕ → ℕ → Text → Text
col_loop zero i name = name
col_loop (suc fuel) i name =
    let name' = (65 + i % 26) ∷ name in
    let rest = col_loop fuel (i / 26 - 1) name' in if nat_eqb (i / 26) 0 then name' else rest

-- `colName` of a column, which is not negative.
unfoldable pub col_name : ℕ → Text
unfolding col_loop
col_name i = col_loop (suc i) i []

-- The `switch` of `xmlEscape`.
unfoldable pub escape_rune : ℕ → Text
escape_rune r =
    if nat_eqb r b'&'
    then text "&amp;"
    else if nat_eqb r b'<'
    then text "&lt;"
    else if nat_eqb r b'>'
    then text "&gt;"
    else if nat_eqb r b'"'
    then text "&quot;"
    else if nat_eqb r b'\''
    then text "&apos;"
    else if nat_eqb r 9 || nat_eqb r 10 || nat_eqb r 13
    then r ∷ []
    else if ltb r 32
    then []
    else r ∷ []

-- `xmlEscape`
unfoldable pub xml_escape : Text → Text
unfolding escape_rune
xml_escape [] = []
xml_escape (r ∷ s) = escape_rune r ++ xml_escape s
