-- ===== src/Web/Export/Xlsx/Wellformed.antt =====
-- internal/web/xlsx.go: the tags of every part of the spreadsheet close.
use Prim.Native.Nat.{zero, suc}
use pos_agent.Base.{
  ℕ, ◌+◌, ◌%◌, ◌/◌, ◌-◌, ◌<◌, ◌≤◌, ◌≡◌, ◌⊎◌, inl, inr, refl, Bool, Bool-cases, true, false, not,
  ◌&&◌, if_lem, List, [], ◌∷◌, ◌++◌, All, All-append, Text, text, if◌then◌else◌, leb, ltb, nat_eqb,
  arith,
}
use pos_agent.Base.Int.{pos}
use pos_agent.Base.Decimal.{itoa, digits, digits_upto}
use pos_agent.Web.Export.{xml_escape, is_numeric, numeric_rest, col_name, col_loop}
use pos_agent.Web.Export.Escaping.{IsPlain, xml_escape-IsPlain}
use pos_agent.Web.Export.Pdf.{first_numeric, behind}
use pos_agent.Web.Export.Xlsx.Markup.{
  outside, Leads, Closes, Closes-append, IsPlain-outside, IsPlain-quoted, read_markup, read_char,
  read_markup-append,
}
use pos_agent.Web.Export.Tables.{ExportTable}
use pos_agent.Web.Export.Xlsx.{
  sheet_tab, workbook_xml, write_inline_cell, write_number_cell, header_cells, row_cells,
  sheet_rows, sheet_xml, xlsx_parts,
}

visible-IsPlain : (c : ℕ) → 45 ≤ c → c < 60 ⊎ ((65 ≤ c) × (c < 91)) → IsPlain c
visible-IsPlain c h k = ground (arith, h, k)

digits_upto-IsPlain : (f n : ℕ) → All IsPlain (digits_upto f n)
unfolding digits_upto
digits_upto-IsPlain zero n = tt
digits_upto-IsPlain (suc f) n = elim (Bool-cases (ltb n 10)) [
  | inl one ↦ rw one (visible-IsPlain (48 + n) (omega arith) (inl (ground (arith, one))), tt)
  | inr more ↦ rw more (
      All-append IsPlain (digits_upto f (n / 10)) ((48 + n % 10) ∷ [])
        (digits_upto-IsPlain f (n / 10))
        (visible-IsPlain (48 + n % 10) (omega arith) (inl (omega arith)), tt))
]

itoa-IsPlain : (n : ℕ) → All IsPlain (itoa (pos n))
unfolding itoa digits
itoa-IsPlain n = digits_upto-IsPlain (suc n) n

col_loop-IsPlain :
    (fuel i : ℕ) (name : Text) → All IsPlain name → All IsPlain (col_loop fuel i name)
unfolding col_loop
col_loop-IsPlain zero i name h = h
col_loop-IsPlain (suc fuel) i name h =
    let h' : All IsPlain ((65 + i % 26) ∷ name) =
      (visible-IsPlain (65 + i % 26) (omega arith) (inr (omega arith, omega arith)), h) in
    elim (Bool-cases (nat_eqb (i / 26) 0)) [
      | inl one ↦ rw one h'
      | inr more ↦ rw more (col_loop-IsPlain fuel (i / 26 - 1) ((65 + i % 26) ∷ name) h')
    ]

col_name-IsPlain : (i : ℕ) → All IsPlain (col_name i)
unfolding col_name
col_name-IsPlain i = col_loop-IsPlain (suc i) i [] tt

numeric_rest-IsPlain : (dot seen : Bool) (s : Text) → numeric_rest dot seen s ≡ true → All IsPlain s
unfolding numeric_rest
numeric_rest-IsPlain dot seen [] h = tt
numeric_rest-IsPlain dot seen (c ∷ s) h = elim (Bool-cases (leb b'0' c && leb c b'9')) [
  | inl digit ↦ (
    visible-IsPlain c (ground (arith, digit)) (inl (ground (arith, digit))),
    numeric_rest-IsPlain dot true s (rw digit at h),
  )
  | inr other ↦ elim (Bool-cases (nat_eqb c b'.' && not dot)) [
    | inl point ↦ (
      visible-IsPlain c (ground (arith, point)) (inl (ground (arith, point))),
      numeric_rest-IsPlain true seen s (rw (other, point) at h),
    )
    | inr bad ↦ absurd (ground (arith, h, other, bad))
  ]
]

is_numeric-IsPlain : (s : Text) → is_numeric s ≡ true → All IsPlain s
unfolding is_numeric
is_numeric-IsPlain [] h = tt
is_numeric-IsPlain (c ∷ s) h = elim (Bool-cases (nat_eqb c b'-')) [
  | inl minus ↦ (
    visible-IsPlain c (ground (arith, minus)) (inl (ground (arith, minus))),
    numeric_rest-IsPlain false false s (rw minus at h),
  )
  | inr other ↦ numeric_rest-IsPlain false false (c ∷ s) (rw other at h)
]

write_inline_cell-Closes : (ref s : Text) → All IsPlain ref → Closes (write_inline_cell ref s)
unfolding write_inline_cell read_markup read_char
write_inline_cell-Closes ref s h d =
    let deep : List Text = text "t" ∷ text "is" ∷ text "c" ∷ d in
    simp (
      read_markup-append,
      IsPlain-quoted ref d (text "c") h,
      IsPlain-outside (xml_escape s) deep (xml_escape-IsPlain s),
    )

write_number_cell-Closes :
    (ref value : Text) → All IsPlain ref → Closes (write_number_cell ref value)
unfolding write_number_cell read_markup read_char
write_number_cell-Closes ref value h d = elim (Bool-cases (is_numeric value)) [
  | inl number ↦
      let plain = is_numeric-IsPlain value number in
      rw number (
        simp (
          read_markup-append,
          IsPlain-quoted ref d (text "c") h,
          IsPlain-outside value (text "v" ∷ text "c" ∷ d) plain,
        ))
  | inr other ↦ rw other (write_inline_cell-Closes ref value h d)
]

header_cells-Closes : (c : ℕ) (headers : List Text) → Closes (header_cells c headers)
unfolding header_cells read_markup
header_cells-Closes c [] d = refl
header_cells-Closes c (h ∷ headers) d =
    let ref =
      All-append IsPlain (col_name c) (text "1") (col_name-IsPlain c)
        (visible-IsPlain b'1' (omega arith) (inl (omega arith)), tt) in
    Closes-append (write_inline_cell (col_name c ++ text "1") h) (header_cells (c + 1) headers)
      (write_inline_cell-Closes (col_name c ++ text "1") h ref)
      (header_cells-Closes (c + 1) headers) d

row_cells-Closes :
    (rn c : ℕ) (numeric : List Bool) (cells : List Text) → Closes (row_cells rn c numeric cells)
unfolding row_cells read_markup
row_cells-Closes rn c numeric [] d = refl
row_cells-Closes rn c numeric (cell ∷ cells) d =
    let ref = col_name c ++ itoa (pos rn) in
    let plain =
      All-append IsPlain (col_name c) (itoa (pos rn)) (col_name-IsPlain c) (itoa-IsPlain rn) in
    Closes-append
      (if first_numeric numeric then write_number_cell ref cell else write_inline_cell ref cell)
      (row_cells rn (c + 1) (behind numeric) cells)
      (if_lem Closes (first_numeric numeric) (write_number_cell-Closes ref cell plain)
        (write_inline_cell-Closes ref cell plain))
      (row_cells-Closes rn (c + 1) (behind numeric) cells) d

sheet_rows-Closes :
    (rn : ℕ) (numeric : List Bool) (rows : List (List Text)) → Closes (sheet_rows rn numeric rows)
unfolding sheet_rows read_markup read_char
sheet_rows-Closes rn numeric [] d = refl
sheet_rows-Closes rn numeric (row ∷ rows) d = simp (
  read_markup-append,
  IsPlain-quoted (itoa (pos rn)) d (text "row") (itoa-IsPlain rn),
  row_cells-Closes rn 0 numeric row (text "row" ∷ d),
  sheet_rows-Closes (rn + 1) numeric rows d,
)

sheet_xml-Closes : (t : ExportTable) → Closes (sheet_xml t)
unfolding sheet_xml read_markup read_char
sheet_xml-Closes t d = simp (
  read_markup-append,
  header_cells-Closes 0 t.headers (text "row" ∷ text "sheetData" ∷ text "worksheet" ∷ d),
  sheet_rows-Closes 2 t.numeric t.rows (text "sheetData" ∷ text "worksheet" ∷ d),
)

workbook_xml-Closes : (s : Text) → Closes (workbook_xml s)
unfolding workbook_xml read_markup read_char
workbook_xml-Closes s d =
    let name = xml_escape (sheet_tab s) in
    simp (
      read_markup-append,
      IsPlain-quoted name (text "sheets" ∷ text "workbook" ∷ d) (text "sheet")
          (xml_escape-IsPlain (sheet_tab s)),
    )

-- Whatever the headings, the names and the notes of a table are, the tags of every part of its
-- spreadsheet nest: each closing tag has the name of the innermost element that is open, every element
-- and every quoted attribute is closed by the end of the part, and no angle bracket stands elsewhere.
pub xlsx_parts-Closes :
    (t : ExportTable) → All (λ part. Leads part.1 (outside []) (outside [])) (xlsx_parts t)
unfolding xlsx_parts read_markup read_char
xlsx_parts-Closes t =
    (refl, (refl, (workbook_xml-Closes t.title [], (refl, (sheet_xml-Closes t [], tt)))))
