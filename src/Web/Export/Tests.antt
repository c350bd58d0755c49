-- ===== src/Web/Export/Tests.antt =====
-- internal/web/xlsx.go and export.go: a column, an escaped name and a dangerous cell.
use pos_agent.Base.Decimal.{itoa, digits, digits_upto}
use pos_agent.Base.{
  ◌≤◌, ◌⊎◌, ltb, repeat, join, ◌^◌, ◌<◌, true, false, [], ◌∷◌, length, List, ◌≡◌, ◌↔◌, refl, inr,
  some, In, text, text_eq, Text, All, arith,
}
use pos_agent.Base.Sort.{IsAscending}
use pos_agent.Bolt.Memory.{memory, memory-IsLawful}
use pos_agent.Domain.{Sale}
use pos_agent.Boltstore.Fixture.{shop, sale_id, bread_sale, sold}
use pos_agent.Boltstore.Sales.{created, put_sale, mark_sale_pending, sale_of}
use pos_agent.Web.Export.Tables.{ExportTable, ledger}
use pos_agent.Web.Export.Xlsx.{xlsx_parts}
use pos_agent.Web.Export.Xlsx.Markup.{outside, Leads}
use pos_agent.Web.Export.Xlsx.Wellformed.{xlsx_parts-Closes}
use pos_agent.Web.Export.Pdf.{fit_widths, format_row}
use pos_agent.Web.Export.Pdf.Document.{write_objects, pdf_objects, xref_and_trailer, assemble_pdf}
use pos_agent.Web.Export.Pdf.Offsets.{IsReadable, assemble_pdf-IsReadable}
use pos_agent.Web.Export.Pdf.Narrowing.{
  natural_widths, AreNarrowed, AreNarrow, fit_widths-AreNarrowed,
}
use pos_agent.Web.Export.Ledger.{InRange, ledger-exact}

-- The sales of the small shop up to its eighth nanosecond.
sold_known : memory.get Sale sold.1.sales sale_id ≡ some bread_sale
unfolding shop memory text_eq put_sale mark_sale_pending sale_of
sold_known = refl

ledger-exact_example :
    (In bread_sale (ledger 0 8 sold.1) ↔ (
      ((k : Text) × (memory.get Sale sold.1.sales k ≡ some bread_sale)) × InRange 0 8 bread_sale))
    × IsAscending created (ledger 0 8 sold.1)
ledger-exact_example = ledger-exact memory-IsLawful 0 8 sold.1 bread_sale

bread_exported : In bread_sale (ledger 0 8 sold.1)
unfolding sale_of
bread_exported =
    (ledger-exact memory-IsLawful 0 8 sold.1 bread_sale).0.1
      ((sale_id, sold_known), (omega arith, inr (omega arith)))

-- Two columns for a page of 20 bytes a line.
abbrev names_and_prices : ExportTable
names_and_prices = record {
  title = text "Stock";
  base = text "stock";
  headers = text "Name" ∷ text "Price" ∷ [];
  numeric = false ∷ true ∷ [];
  rows =
      (text "Brown bread 800g, sliced" ∷ text "65.00" ∷ [])
      ∷ (text "<b>Milk & \"tea\"</b>" ∷ text "1200.00" ∷ [])
      ∷ [];
}

fit_widths-AreNarrowed_example :
    let widths = fit_widths names_and_prices 20 in
    let natural = natural_widths names_and_prices.headers names_and_prices.rows in
    let line = format_row (text "Brown bread" ∷ []) widths names_and_prices.numeric in
    AreNarrowed names_and_prices.numeric natural widths
    × ((length line ≤ 20) ⊎ AreNarrow names_and_prices.numeric widths)
    × ((widths ≡ natural) ⊎ (20 ≤ length line))
fit_widths-AreNarrowed_example =
    fit_widths-AreNarrowed names_and_prices 20 (text "Brown bread" ∷ [])

xlsx_parts-Closes_example :
    All (λ part. Leads part.1 (outside []) (outside [])) (xlsx_parts names_and_prices)
xlsx_parts-Closes_example = xlsx_parts-Closes names_and_prices

abbrev two_pages : List Text
two_pages = text "BT\nET\n" ∷ text "BT\n(Milk) Tj\nET\n" ∷ []

two_pages-fits : ltb (length (assemble_pdf two_pages)) (10 ^ 10) ≡ true
unfolding assemble_pdf xref_and_trailer pdf_objects write_objects itoa digits digits_upto repeat
    join
two_pages-fits = refl

two_pages-small : length (assemble_pdf two_pages) < 10 ^ 10
two_pages-small = ground (arith, two_pages-fits)

assemble_pdf-IsReadable_example : IsReadable (pdf_objects two_pages) (assemble_pdf two_pages)
assemble_pdf-IsReadable_example = assemble_pdf-IsReadable two_pages two_pages-small
