-- ===== src/Web/Export/Xlsx.antt =====
-- internal/web/xlsx.go: the parts of the spreadsheet's archive. archive/zip, which packs them, is not
-- modelled. The titles are ASCII, so that their bytes are their code points.
pub mod Markup
pub mod Wellformed
use pos_agent.Base.{
  ℕ, ◌+◌, Bool, ◌||◌, List, [], ◌∷◌, ◌++◌, map, Text, text, if◌then◌else◌, ltb, nat_eqb, length,
  take,
}
use pos_agent.Base.Int.{pos}
use pos_agent.Base.Decimal.{itoa}
use pos_agent.Web.Export.{xml_escape, is_numeric, col_name}
use pos_agent.Web.Export.Pdf.{first_numeric, behind}
use pos_agent.Web.Export.Tables.{ExportTable}

abbrev declaration : Text
declaration = text "<?xml version=\"1.0\" encoding=\"UTF-8\" standalone=\"yes\"?>"

-- `contentTypesXML`
abbrev pub content_types_xml : Text
content_types_xml =
    declaration
    ++ text "<Types xmlns=\"http://schemas.openxmlformats.org/package/2006/content-types\">"
    ++ text
        "<Default Extension=\"rels\" ContentType=\"application/vnd.openxmlformats-package.relationships+xml\"/>"
    ++ text "<Default Extension=\"xml\" ContentType=\"application/xml\"/>"
    ++ text
        "<Override PartName=\"/xl/workbook.xml\" ContentType=\"application/vnd.openxmlformats-officedocument.spreadsheetml.sheet.main+xml\"/>"
    ++ text
        "<Override PartName=\"/xl/worksheets/sheet1.xml\" ContentType=\"application/vnd.openxmlformats-officedocument.spreadsheetml.worksheet+xml\"/>"
    ++ text "</Types>"

-- `rootRelsXML`
abbrev pub root_rels_xml : Text
root_rels_xml =
    declaration
    ++ text "<Relationships xmlns=\"http://schemas.openxmlformats.org/package/2006/relationships\">"
    ++ text
        "<Relationship Id=\"rId1\" Type=\"http://schemas.openxmlformats.org/officeDocument/2006/relationships/officeDocument\" Target=\"xl/workbook.xml\"/>"
    ++ text "</Relationships>"

-- `workbookRelsXML`
abbrev pub workbook_rels_xml : Text
workbook_rels_xml =
    declaration
    ++ text "<Relationships xmlns=\"http://schemas.openxmlformats.org/package/2006/relationships\">"
    ++ text
        "<Relationship Id=\"rId1\" Type=\"http://schemas.openxmlformats.org/officeDocument/2006/relationships/worksheet\" Target=\"worksheets/sheet1.xml\"/>"
    ++ text "</Relationships>"

-- `sheetTab`
abbrev tab_char : ℕ → ℕ
tab_char r =
    if nat_eqb r b'\\'
      || nat_eqb r b'/'
      || nat_eqb r b'?'
      || nat_eqb r b'*'
      || nat_eqb r b'['
      || nat_eqb r b']'
      || nat_eqb r b':'
    then b'-'
    else r

abbrev or_sheet1 : Text → Text
or_sheet1 [] = text "Sheet1"
or_sheet1 (c ∷ s) = c ∷ s

unfoldable pub sheet_tab : Text → Text
sheet_tab s = let s' = map tab_char s in or_sheet1 (if ltb 31 (length s') then take 31 s' else s')

-- `workbookXML`
unfoldable pub workbook_xml : Text → Text
unfolding sheet_tab
workbook_xml sheet_name =
    declaration
    ++ text "<workbook xmlns=\"http://schemas.openxmlformats.org/spreadsheetml/2006/main\" "
    ++ text "xmlns:r=\"http://schemas.openxmlformats.org/officeDocument/2006/relationships\">"
    ++ text "<sheets><sheet name=\""
    ++ xml_escape (sheet_tab sheet_name)
    ++ text "\" sheetId=\"1\" r:id=\"rId1\"/></sheets>"
    ++ text "</workbook>"

-- `writeInlineCell`
unfoldable pub write_inline_cell : Text → Text → Text
write_inline_cell ref s =
    text "<c r=\""
    ++ ref
    ++ text "\" t=\"inlineStr\"><is><t xml:space=\"preserve\">"
    ++ xml_escape s
    ++ text "</t></is></c>"

-- `writeNumberCell`
unfoldable pub write_number_cell : Text → Text → Text
unfolding write_inline_cell
write_number_cell ref value =
    if is_numeric value
    then text "<c r=\"" ++ ref ++ text "\"><v>" ++ value ++ text "</v></c>"
    else write_inline_cell ref value

-- The cells of the first row, from the column `c` on.
unfoldable pub header_cells : ℕ → List Text → Text
unfolding write_inline_cell
header_cells c [] = []
header_cells c (h ∷ headers) =
    write_inline_cell (col_name c ++ text "1") h ++ header_cells (c + 1) headers

-- The cells of the row `rn`, from the column `c` on, with what is left of `t.numeric`.
unfoldable pub row_cells : ℕ → ℕ → List Bool → List Text → Text
unfolding write_number_cell
row_cells rn c numeric [] = []
row_cells rn c numeric (cell ∷ cells) =
    let ref = col_name c ++ itoa (pos rn) in
    (if first_numeric numeric then write_number_cell ref cell else write_inline_cell ref cell)
    ++ row_cells rn (c + 1) (behind numeric) cells

-- The rows from the row `rn` on.
unfoldable pub sheet_rows : ℕ → List Bool → List (List Text) → Text
unfolding row_cells
sheet_rows rn numeric [] = []
sheet_rows rn numeric (row ∷ rows) =
    text "<row r=\""
    ++ itoa (pos rn)
    ++ text "\">"
    ++ row_cells rn 0 numeric row
    ++ text "</row>"
    ++ sheet_rows (rn + 1) numeric rows

-- `sheetXML`
unfoldable pub sheet_xml : ExportTable → Text
unfolding header_cells sheet_rows
sheet_xml t =
    declaration
    ++ text
        "<worksheet xmlns=\"http://schemas.openxmlformats.org/spreadsheetml/2006/main\"><sheetData>"
    ++ text "<row r=\"1\">"
    ++ header_cells 0 t.headers
    ++ text "</row>"
    ++ sheet_rows 2 t.numeric t.rows
    ++ text "</sheetData></worksheet>"

-- The `parts` of `writeXLSX`, each with its name.
unfoldable pub xlsx_parts : ExportTable → List (Text × Text)
unfolding workbook_xml sheet_xml
xlsx_parts t =
    (text "[Content_Types].xml", content_types_xml)
    ∷ (text "_rels/.rels", root_rels_xml)
    ∷ (text "xl/workbook.xml", workbook_xml t.title)
    ∷ (text "xl/_rels/workbook.xml.rels", workbook_rels_xml)
    ∷ (text "xl/worksheets/sheet1.xml", sheet_xml t)
    ∷ []
