-- ===== src/Boltstore/Sales.antt =====
-- internal/store/boltstore/boltstore.go, "Sales": completing a sale and looking sales up.
pub mod Completing
pub mod Kept
pub mod Recorded
pub mod Referenced
pub mod References
pub mod Sold
pub mod Values
use pos_agent.Base.{
  ℕ, Bool, true, false, ◌&&◌, ◌||◌, not, Option, none, some, List, [], ◌∷◌, ◌++◌, Text, text,
  text_eq, ◌==◌, if◌then◌else◌, keep_if, nat_eqb,
}
use pos_agent.Base.Int.{ℤ, pos, leb_ℤ, ltb_ℤ, sub64}
use pos_agent.Base.Decimal.{atoi}
use pos_agent.Base.Sort.{sort, later}
use pos_agent.Bolt.{Bolt}
use pos_agent.Domain.{Time, Product, Sale, SaleItem, SaleLine, SaleInput, before}
use pos_agent.Domain.Keys.{tax_mode_none, payment_cash, key_tax_rate_bps, key_tax_mode}
use pos_agent.Tax.{Taxed, compute_tax}
use pos_agent.Boltstore.Db.{
  Db, Error, invalid_quantity, unknown_product, empty_sale, underpaid, Result, ok, err, ◌>>=◌,
}

-- `markSalePending`
unfoldable pub mark_sale_pending : {B : Bolt} → Text → Db B → Db B
mark_sale_pending {B} id db = record db { pending_sales = B.put Unit db.pending_sales id tt }

-- `refKey`: "<reference>\x00<sale id>"
unfoldable pub ref_key : Text → Text → Text
ref_key reference sale_id = reference ++ 0 ∷ sale_id

unfoldable pub sale_item : Product → ℤ → SaleItem
sale_item p qty = record {
  product_id = p.id;
  name = p.name;
  price_cents = p.price_cents;
  qty = qty;
  taxable = p.taxable;
  tax_cents = pos 0;
}

unfoldable pub snapshot : SaleLine → Option Product → Result SaleItem
unfolding sale_item
snapshot line none = err (unknown_product line.product_id)
snapshot line (some p) = ok (sale_item p line.qty)

-- One requested line against the current products.
unfoldable pub resolve_line : {B : Bolt} → Db B → SaleLine → Result SaleItem
unfolding snapshot
resolve_line {B} db line =
    if leb_ℤ line.qty (pos 0)
    then err invalid_quantity
    else snapshot line (B.get Product db.products line.product_id)

-- The loop of `CreateSale`.
unfoldable pub resolve_lines : {B : Bolt} → Db B → List SaleLine → Result (List SaleItem)
unfolding resolve_line
resolve_lines db [] = ok []
resolve_lines db (line ∷ lines) = do
  item ← resolve_line db line
  items ← resolve_lines db lines
  ok (item ∷ items)

-- `taxFromBucket`
unfoldable pub tax_from_bucket : {B : Bolt} → Db B → ℤ × Text
unfolding atoi
tax_from_bucket {B} db = (
  elim (B.get Text db.settings key_tax_rate_bps) [ none ↦ pos 0 | some v ↦ (atoi v).value ],
  elim (B.get Text db.settings key_tax_mode) [
    | none ↦ tax_mode_none
    | some v ↦ if v == [] then tax_mode_none else v
  ],
)

unfoldable pub sale_of : Time → Text → SaleInput → ℤ × Text → Taxed → Sale
sale_of now id input (rate_bps, mode) taxed = record {
  id = id;
  created_at = now;
  items = taxed.items;
  subtotal_cents = taxed.subtotal;
  tax_cents = taxed.tax;
  total_cents = taxed.total;
  paid_cents = input.paid_cents;
  change_cents = sub64 input.paid_cents taxed.total;
  payment_method = if input.payment_method == [] then payment_cash else input.payment_method;
  reference = input.reference;
  tax_rate_bps = rate_bps;
  tax_mode = mode;
}

-- The bucket writes of a sale and of its reference.
unfoldable pub put_sale : {B : Bolt} → Sale → Db B → Db B
unfolding ref_key
put_sale {B} sale db =
    let stored = record db { sales = B.put Sale db.sales sale.id sale } in
    if sale.reference == []
    then stored
    else record stored { ref_idx = B.put Unit db.ref_idx (ref_key sale.reference sale.id) tt }

unfoldable pub finish_sale :
    {B : Bolt} → Time → Text → SaleInput → List SaleItem → Db B → Result (Sale × Db B)
unfolding tax_from_bucket sale_of put_sale mark_sale_pending
finish_sale now sale_id input [] db = err empty_sale
finish_sale now sale_id input (line ∷ lines) db =
    let tax = tax_from_bucket db in
    let taxed = compute_tax tax.0 tax.1 (line ∷ lines) in
    let sale = sale_of now sale_id input tax taxed in
    if ltb_ℤ input.paid_cents taxed.total
    then err underpaid
    else ok (sale, mark_sale_pending sale.id (put_sale sale db))

-- `CreateSale`
unfoldable pub create_sale : {B : Bolt} → Time → Text → SaleInput → Db B → Result (Sale × Db B)
unfolding resolve_lines finish_sale
create_sale now sale_id input db = do
  lines ← resolve_lines db input.lines
  finish_sale now sale_id input lines db

abbrev pub values : {V : Type 0} → List (Text × V) → List V
values [] = []
values ((_, v) ∷ r) = v ∷ values r

abbrev pub created : Sale → Time
created sale = sale.created_at

-- `SalesSince`, newest first
unfoldable pub sales_since : {B : Bolt} → Time → Db B → List Sale
sales_since {B} t db =
    sort (later created)
      (keep_if (λ sale. not (before sale.created_at t)) (values (B.entries Sale db.sales)))

-- `SaleByID`
unfoldable pub sale_by_id : {B : Bolt} → Text → Db B → Option Sale
sale_by_id {B} id db = B.get Sale db.sales id

-- What follows a prefix: `bytes.HasPrefix` and the slice behind it.
unfoldable pub strip_prefix : Text → Text → Option Text
strip_prefix [] key = some key
strip_prefix (p ∷ prefix) [] = none
strip_prefix (p ∷ prefix) (k ∷ key) = if nat_eqb p k then strip_prefix prefix key else none

-- A key that is not under the prefix, or that names no sale, adds nothing.
unfoldable pub add_found : Option Sale → List Sale → List Sale
add_found none rest = rest
add_found (some sale) rest = sale ∷ rest

unfoldable pub find_sale : {B : Bolt} → Db B → Option Text → Option Sale
find_sale db none = none
find_sale {B} db (some id) = B.get Sale db.sales id

-- The scan of the reference index: the keys under the prefix, each with the sale that it names.
unfoldable pub scan_refs : {B : Bolt} → Db B → Text → List (Text × Unit {0}) → List Sale
unfolding strip_prefix add_found find_sale
scan_refs db prefix [] = []
scan_refs db prefix ((key, _) ∷ keys) =
    add_found (find_sale db (strip_prefix prefix key)) (scan_refs db prefix keys)

-- `SalesByReference`, newest first
unfoldable pub sales_by_reference : {B : Bolt} → Text → Db B → List Sale
unfolding scan_refs
sales_by_reference {B} reference db =
    if reference == []
    then []
    else sort (later created) (scan_refs db (reference ++ 0 ∷ []) (B.entries Unit db.ref_idx))
