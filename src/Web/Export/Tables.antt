-- ===== src/Web/Export/Tables.antt =====
-- internal/web/export.go: the tables of the two exports, and the file that carries one. The formats of
-- dates in the local zone, `strings.ToLower` and encoding/csv are parameters; the spreadsheet and the
-- PDF stand for their table.
use pos_agent.Base.{
  ℕ, Bool, true, false, ◌||◌, Option, none, some, List, [], ◌∷◌, ◌++◌, map, Text, text, text_eq,
  ◌==◌, if◌then◌else◌, keep_if,
}
use pos_agent.Base.Decimal.{itoa}
use pos_agent.Base.Sort.{sort, earlier}
use pos_agent.Bolt.{Bolt}
use pos_agent.Domain.{Time, Sale, SaleItem, AuditEntry, is_zero, before}
use pos_agent.Domain.Keys.{payment_cash, payment_mpesa}
use pos_agent.Boltstore.Db.{Db}
use pos_agent.Boltstore.Audit.{audit, decimal_cents}
use pos_agent.Boltstore.Sales.{sales_since, created}
use pos_agent.Web.Export.{csv_safe}
use pos_agent.Web.Server.{Method, get, Outside}
use pos_agent.Web.Server.Selling.{parse_search_time}

pub record ExportTable : Type 0 where
  pub title : Text
  pub base : Text
  pub headers : List Text
  pub numeric : List Bool
  pub rows : List (List Text)

-- A file that the browser downloads, or an error.
pub data Download : Type 0 where
  xlsx_file : Text → ExportTable → Download
  pdf_file : Text → ExportTable → Download
  csv_file : Text → Text → Download
  export_error : ℕ → Text → Download

-- The query of an export.
pub record ExportQuery : Type 0 where
  pub from : Text
  pub to : Text
  pub format : Text

-- The formats `2006-01-02` and `15:04` in the local zone, and one record of encoding/csv.
pub record Formats : Type 0 where
  pub date : Time → Text
  pub clock : Time → Text
  pub csv_record : List Text → Text

abbrev item_part : SaleItem → Text
item_part it = it.name ++ text " x" ++ itoa it.qty

-- `itemsSummary`
unfoldable pub items_summary : List SaleItem → Text
unfolding itoa
items_summary [] = []
items_summary (it ∷ []) = item_part it
items_summary (it ∷ next ∷ items) = item_part it ++ text "; " ++ items_summary (next ∷ items)

-- `paymentLabel`
unfoldable pub payment_label : Text → Text
payment_label method =
    if method == payment_mpesa
    then text "M-Pesa"
    else if method == payment_cash || method == []
    then text "Cash"
    else method

abbrev time_or_zero : Option Time → Time
time_or_zero none = 0
time_or_zero (some t) = t

-- `exportRange`
unfoldable pub export_range : Outside → ExportQuery → Time × Time
unfolding parse_search_time
export_range o q =
    (time_or_zero (parse_search_time o q.from false), time_or_zero (parse_search_time o q.to true))

-- The sales of the file, oldest first.
unfoldable pub ledger : {B : Bolt} → Time → Time → Db B → List Sale
unfolding sales_since
ledger from to db =
    sort (earlier created)
      (keep_if (λ sale. is_zero to || before sale.created_at to) (sales_since from db))

abbrev money_cells : Bool → Text → Text
money_cells true cell = cell
money_cells false cell = csv_safe cell

-- The cells of a CSV row; a column past the marks is not one of money.
unfoldable pub csv_cells : List Bool → List Text → List Text
unfolding csv_safe
csv_cells numeric [] = []
csv_cells [] (cell ∷ cells) = csv_safe cell ∷ csv_cells [] cells
csv_cells (n ∷ numeric) (cell ∷ cells) = money_cells n cell ∷ csv_cells numeric cells

module _ (formats : Formats) where
  unfoldable pub sale_row : Sale → List Text
  unfolding items_summary decimal_cents payment_label
  sale_row sale =
      formats.date sale.created_at
      ∷ formats.clock sale.created_at
      ∷ items_summary sale.items
      ∷ decimal_cents sale.subtotal_cents
      ∷ decimal_cents sale.tax_cents
      ∷ decimal_cents sale.total_cents
      ∷ payment_label sale.payment_method
      ∷ sale.reference
      ∷ []

  -- The table of `handleSalesExport`
  unfoldable pub sales_table : {B : Bolt} → Time → Time → Db B → ExportTable
  unfolding sale_row ledger
  sales_table from to db = record {
    title = text "Transactions";
    base = text "transactions";
    headers =
        text "Date"
        ∷ text "Time"
        ∷ text "Items"
        ∷ text "Subtotal"
        ∷ text "Tax"
        ∷ text "Total"
        ∷ text "Payment"
        ∷ text "Reference"
        ∷ [];
    numeric = false ∷ false ∷ false ∷ true ∷ true ∷ true ∷ false ∷ false ∷ [];
    rows = map sale_row (ledger from to db);
  }

  abbrev audit_row : AuditEntry → List Text
  audit_row e = formats.date e.at ∷ formats.clock e.at ∷ e.action ∷ e.detail ∷ []

  -- The table of `handleAuditExport`
  unfoldable pub audit_table : {B : Bolt} → Time → Time → Db B → ExportTable
  unfolding audit
  audit_table from to db = record {
    title = text "Activity log";
    base = text "activity-log";
    headers = text "Date" ∷ text "Time" ∷ text "Action" ∷ text "Detail" ∷ [];
    numeric = false ∷ false ∷ false ∷ false ∷ [];
    rows = map audit_row (audit from to db);
  }

  -- `writeCSV`
  unfoldable pub write_rows : List Bool → List (List Text) → Text
  unfolding csv_cells
  write_rows numeric [] = []
  write_rows numeric (row ∷ rows) =
      formats.csv_record (csv_cells numeric row) ++ write_rows numeric rows

  unfoldable pub write_csv : ExportTable → Text
  unfolding write_rows
  write_csv t = formats.csv_record t.headers ++ write_rows t.numeric t.rows

  -- `writeExport`, with the name of the file
  unfoldable pub write_export : Outside → Text → ExportTable → Download
  unfolding write_csv
  write_export o format t =
      let name = t.base ++ b'-' ∷ formats.date o.now in
      if o.to_lower format == text "xlsx"
      then xlsx_file (name ++ text ".xlsx") t
      else if o.to_lower format == text "pdf"
      then pdf_file (name ++ text ".pdf") t
      else csv_file (name ++ text ".csv") (write_csv t)

  abbrev only_get : Method → Download → Download
  only_get get next = next
  only_get _ next = export_error 405 (text "Method not allowed.")

  -- `handleSalesExport`
  unfoldable pub handle_sales_export : {B : Bolt} → Outside → Method → ExportQuery → Db B → Download
  unfolding export_range sales_table write_export
  handle_sales_export o method q db =
      let (from, to) = export_range o q in
      only_get method (write_export o q.format (sales_table from to db))

  -- `handleAuditExport`
  unfoldable pub handle_audit_export : {B : Bolt} → Outside → Method → ExportQuery → Db B → Download
  unfolding export_range audit_table write_export
  handle_audit_export o method q db =
      let (from, to) = export_range o q in
      only_get method (write_export o q.format (audit_table from to db))
