-- ===== src/Web/Export/Escaping.antt =====
-- internal/web/xlsx.go, `xmlEscape`, and export.go, `csvSafe`: what is written is not markup and not a
-- formula.
use pos_agent.Base.{All-append, ℕ, ◌≡◌, ◌≢◌, ◌⊎◌, ◌≤◌, refl, Bool, false, [], ◌∷◌, Text, All, arith}
use pos_agent.Web.Export.{escape_rune, xml_escape, csv_safe, is_formula_start}

-- A character that opens no tag, ends no attribute and is legal in XML 1.0.
abbrev pub IsPlain : ℕ → Type 0
IsPlain c =
    (c ≢ b'<') × (c ≢ b'>') × (c ≢ b'"') × (c ≢ b'\'') × ((32 ≤ c) ⊎ (c ≡ 9) ⊎ (c ≡ 10) ⊎ (c ≡ 13))

escape_rune-IsPlain : (r : ℕ) → All IsPlain (escape_rune r)
unfolding escape_rune
escape_rune-IsPlain r = ground arith

-- Whatever the text, what `xmlEscape` writes has no angle bracket, no quote and no control character
-- that XML 1.0 forbids.
pub xml_escape-IsPlain : (s : Text) → All IsPlain (xml_escape s)
unfolding xml_escape
xml_escape-IsPlain [] = tt
xml_escape-IsPlain (r ∷ s) =
    All-append IsPlain (escape_rune r) (xml_escape s) (escape_rune-IsPlain r) (xml_escape-IsPlain s)

-- A spreadsheet takes a cell for a formula by its first character.
unfoldable pub is_formula : Text → Bool
is_formula [] = false
is_formula (c ∷ v) = is_formula_start c

-- No text that `csvSafe` returns is taken for a formula.
pub csv_safe-is_formula : (v : Text) → is_formula (csv_safe v) ≡ false
unfolding csv_safe is_formula
csv_safe-is_formula [] = refl
csv_safe-is_formula (c ∷ v) = ground arith
