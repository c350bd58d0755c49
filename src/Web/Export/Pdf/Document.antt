-- ===== src/Web/Export/Pdf/Document.antt =====
-- internal/web/pdfdoc.go, `writePDF` and `assemblePDF`: the pages of a table and the file's bytes. The
-- sizes are constants of the source: 110 bytes a line, 55 lines a page, on a page of 612 by 792 points.
use Prim.Native.Nat.{zero, suc}
use pos_agent.Base.{
  ℕ, ◌+◌, ◌-◌, List, [], ◌∷◌, ◌++◌, map, Text, text, length, take, drop, repeat, join,
}
use pos_agent.Base.Int.{pos}
use pos_agent.Base.Decimal.{itoa}
use pos_agent.Web.Export.Tables.{ExportTable}
use pos_agent.Web.Export.Pdf.{line_len, fit_widths, format_row, pdf_string}

-- The rounds of the loop over `dataLines`: at most `perPage` lines each. The fuel is the number of lines.
unfoldable pub pages : ℕ → List Text → List (List Text)
pages zero lines = []
pages (suc fuel) [] = []
pages (suc fuel) (line ∷ lines) = take 55 (line ∷ lines) ∷ pages fuel (drop 55 (line ∷ lines))

abbrev shown_line : Text → Text
shown_line line = text "0 -12 Td\n(" ++ pdf_string line ++ text ") Tj\n"

abbrev shown_lines : List Text → Text
shown_lines [] = []
shown_lines (line ∷ lines) = shown_line line ++ shown_lines lines

-- The content stream of a page.
unfoldable pub page_stream : Text → Text → Text → List Text → Text
unfolding pdf_string
page_stream title_text header sep lines =
    text "BT\n/F2 14 Tf\n40 752 Td\n("
    ++ pdf_string title_text
    ++ text ") Tj\n/F1 8 Tf\n0 -22 Td\n("
    ++ pdf_string header
    ++ text ") Tj\n"
    ++ shown_line sep
    ++ shown_lines lines
    ++ text "ET\n"

-- `dataLines`
abbrev or_no_records : List Text → List Text
or_no_records [] = text "(no records in this range)" ∷ []
or_no_records (line ∷ lines) = line ∷ lines

unfoldable pub data_lines : ExportTable → List Text
unfolding fit_widths format_row
data_lines t =
    let widths = fit_widths t 110 in
    let formatted = map (λ row. format_row row widths t.numeric) t.rows in or_no_records formatted

-- `objects`: the content of a page and the page, for each stream from the object `number` on.
abbrev page_objects : ℕ → List Text → List Text
page_objects number [] = []
page_objects number (s ∷ streams) =
    (text "<< /Length " ++ itoa (pos (length s)) ++ text " >>\nstream\n" ++ s ++ text "\nendstream")
    ∷ (text "<< /Type /Page /Parent 2 0 R /MediaBox [0 0 612 792] "
        ++ text "/Resources << /Font << /F1 3 0 R /F2 4 0 R >> >> /Contents "
        ++ itoa (pos number)
        ++ text " 0 R >>")
    ∷ page_objects (number + 2) streams

abbrev kids : ℕ → List Text → List Text
kids number [] = []
kids number (s ∷ streams) = (itoa (pos number) ++ text " 0 R") ∷ kids (number + 2) streams

unfoldable pub pdf_objects : List Text → List Text
pdf_objects streams =
    text "<< /Type /Catalog /Pages 2 0 R >>"
    ∷ (text "<< /Type /Pages /Kids ["
        ++ join b' ' (kids 6 streams)
        ++ text "] /Count "
        ++ itoa (pos (length streams))
        ++ text " >>")
    ∷ text "<< /Type /Font /Subtype /Type1 /BaseFont /Courier >>"
    ∷ text "<< /Type /Font /Subtype /Type1 /BaseFont /Helvetica-Bold >>"
    ∷ page_objects 5 streams

abbrev pub object_text : ℕ → Text → Text
object_text number body = itoa (pos number) ++ text " 0 obj\n" ++ body ++ text "\nendobj\n"

-- The loop that writes the objects from `number` on, with the offset of each.
unfoldable pub write_objects : ℕ → Text → List Text → Text × List ℕ
write_objects number buf [] = (buf, [])
write_objects number buf (body ∷ objects) =
    let (buf', offsets) = write_objects (number + 1) (buf ++ object_text number body) objects in
    (buf', length buf ∷ offsets)

-- `%010d`
abbrev pub pad10 : ℕ → Text
pad10 n = let s = itoa (pos n) in repeat b'0' (10 - length s) ++ s

abbrev pub xref_lines : List ℕ → Text
xref_lines [] = []
xref_lines (at ∷ offsets) = pad10 at ++ text " 00000 n \n" ++ xref_lines offsets

-- From the cross-reference table on, which starts at `xref_at`.
unfoldable pub xref_and_trailer : ℕ → List ℕ → Text
xref_and_trailer xref_at offsets =
    let size = itoa (pos (length offsets + 1)) in
    text "xref\n0 "
    ++ size
    ++ text "\n0000000000 65535 f \n"
    ++ xref_lines offsets
    ++ text "trailer\n<< /Size "
    ++ size
    ++ text " /Root 1 0 R >>\nstartxref\n"
    ++ itoa (pos xref_at)
    ++ text "\n%%EOF\n"

-- `assemblePDF`
unfoldable pub assemble_pdf : List Text → Text
unfolding pdf_objects write_objects xref_and_trailer
assemble_pdf streams =
    let (buf, offsets) = write_objects 1 (text "%PDF-1.4\n") (pdf_objects streams) in
    buf ++ xref_and_trailer (length buf) offsets

-- `writePDF`; there is always a line, so always a page.
unfoldable pub write_pdf : Text → ExportTable → Text
unfolding pages page_stream data_lines assemble_pdf
write_pdf stamp t =
    let widths = fit_widths t 110 in
    let header = format_row t.headers widths [] in
    let sep = repeat b'-' (line_len widths) in
    let lines = data_lines t in
    let title_text =
      t.title ++ text "   " ++ stamp ++ text "   (" ++ itoa (pos (length t.rows)) ++ text ")" in
    assemble_pdf (map (page_stream title_text header sep) (pages (length lines) lines))
