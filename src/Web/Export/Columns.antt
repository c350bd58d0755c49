-- ===== src/Web/Export/Columns.antt =====
-- internal/web/xlsx.go, `colName`: the letters of a column name it.
use Prim.Native.Nat.{zero, suc}
use pos_agent.Base.{
  ℕ, ◌+◌, ◌-◌, ◌*◌, ◌/◌, ◌%◌, ◌<◌, ◌≡◌, ap, ◌∙◌, [], ◌∷◌, Text, nat_eqb, arith, inl, inr,
  Bool-cases,
}
use pos_agent.Web.Export.{col_loop, col_name}

-- A spreadsheet's reading of letters: A is 1, Z is 26, AA is 27.
unfoldable pub read_letters : ℕ → Text → ℕ
read_letters n [] = n
read_letters n (c ∷ name) = read_letters (n * 26 + (c - 64)) name

read-col_loop :
    (fuel i : ℕ) (name : Text)
    → i < fuel
    → read_letters 0 (col_loop fuel i name) ≡ read_letters (suc i) name
unfolding col_loop read_letters
read-col_loop zero i name h = absurd (omega arith)
read-col_loop (suc fuel) i name h = elim (Bool-cases (nat_eqb (i / 26) 0)) [
  | inl one ↦ rw one (ap (λ n. read_letters n name) (ground arith))
  | inr more ↦ rw more (
      read-col_loop fuel (i / 26 - 1) ((65 + i % 26) ∷ name) (ground arith)
      ∙ ap (λ n. read_letters n name) (ground arith))
]

-- The letters that `colName` gives a column read back as that column, counted from 1.
pub read-col_name : (i : ℕ) → read_letters 0 (col_name i) ≡ suc i
unfolding col_name read_letters
read-col_name i = read-col_loop (suc i) i [] (omega arith)
