-- ===== src/Boltstore/Products.antt =====
-- internal/store/boltstore/boltstore.go, "Products" and "Seeding": the catalogue and its barcode
-- index.
pub mod Frame
pub mod Index
pub mod Barcodes
pub mod Edits
pub mod Scan
pub mod Scanned
pub mod Seeding
pub mod Counted
use mathlib.Core.Bool.{xor}
use pos_agent.Base.{
  ℕ, suc, Bool, true, false, ◌&&◌, ◌||◌, not, Option, none, some, List, [], ◌∷◌, ◌++◌, Text, text,
  text_eq, text_less, ◌==◌, if◌then◌else◌,
}
use pos_agent.Base.Int.{ℤ, pos, eqb_ℤ, sub32}
use pos_agent.Base.Decimal.{itoa}
use pos_agent.Base.Sort.{sort}
use pos_agent.Bolt.{Bolt}
use pos_agent.Domain.{Time, Product, ProductDraft, StockEvent, StockReason, initial, adjustment}
use pos_agent.Boltstore.Db.{Db, Draws, Error, barcode_taken, Result, ok, err, ◌>>=◌}
use pos_agent.Boltstore.Audit.{append_audit, audit_price}
use pos_agent.Boltstore.Stock.{append_stock_event, on_hand_of, stock_totals, Counts, max0, found_or}

abbrev pub not_empty : Text → Bool
not_empty s = not (s == [])

abbrev pub is_some {ℓ} : {A : Type ℓ} → Option A → Bool
is_some none = false
is_some (some _) = true

-- `markProductPending`
unfoldable pub mark_product_pending : {B : Bolt} → Text → Db B → Db B
mark_product_pending {B} id db = record db { pending_prods = B.put Unit db.pending_prods id tt }

-- `putJSON(tx.Bucket(bProducts), id, p)`
unfoldable pub put_product : {B : Bolt} → Text → Product → Db B → Db B
put_product {B} id p db = record db { products = B.put Product db.products id p }

-- The barcode index: `idx.Put`, `idx.Delete`, each where the barcode is not empty.
unfoldable pub index_barcode : {B : Bolt} → Text → Text → Db B → Db B
index_barcode {B} barcode id db =
    if not_empty barcode
    then record db { barcode_idx = B.put Text db.barcode_idx barcode id }
    else db

unfoldable pub drop_barcode : {B : Bolt} → Text → Db B → Db B
drop_barcode {B} barcode db =
    if not_empty barcode
    then record db { barcode_idx = B.delete Text db.barcode_idx barcode }
    else db

-- `derivedStock`
unfoldable pub derived_stock : Product → Counts → Counts → ℤ
unfolding max0
derived_stock p delta sold =
    if not p.track_stock then pos 0 else max0 (sub32 (delta p.id) (sold p.id))

-- The loop of `Products` over the bucket.
unfoldable pub active_products : Counts → Counts → List (Text × Product) → List Product
unfolding derived_stock
active_products delta sold [] = []
active_products delta sold ((_, p) ∷ ps) =
    let rest = active_products delta sold ps in
    if p.active then record p { stock = derived_stock p delta sold } ∷ rest else rest

abbrev pub by_name : Product → Product → Bool
by_name p q = text_less p.name q.name

-- `Products`
unfoldable pub products : {B : Bolt} → Db B → List Product
unfolding active_products
products {B} db =
    let (delta, sold) = stock_totals db in
    sort by_name (active_products delta sold (B.entries Product db.products))

unfoldable pub new_product : Time → Text → ProductDraft → Product
new_product now id d = record {
  id = id;
  name = d.name;
  price_cents = d.price_cents;
  barcode = d.barcode;
  track_stock = d.track_stock;
  stock = d.stock;
  taxable = d.taxable;
  active = true;
  updated_at = now;
  deleted_at = none;
}

-- The part of `addProduct` under `if pending`.
unfoldable pub record_added : {B : Bolt} → Time → Draws → ProductDraft → Product → Db B → Db B
unfolding append_audit append_stock_event mark_product_pending
record_added now draws d p db =
    let logged =
      append_audit now draws.audit_id (text "Item added")
        (p.name ++ text ", " ++ audit_price p.price_cents) db in
    let ev : StockEvent = record {
      id = draws.event_id;
      product_id = p.id;
      delta = d.stock;
      reason = initial;
      created_at = now;
    } in
    let counted =
      if d.track_stock && not (eqb_ℤ d.stock (pos 0))
      then append_stock_event ev logged
      else logged in
    mark_product_pending p.id counted

-- `addProduct`
unfoldable pub add_product :
    {B : Bolt} → Time → Draws → Bool → ProductDraft → Db B → Result (Product × Db B)
unfolding new_product put_product index_barcode record_added
add_product {B} now draws pending d db =
    let p = new_product now draws.record_id d in
    let stored = index_barcode d.barcode p.id (put_product p.id p db) in
    if not_empty d.barcode && is_some (B.get Text db.barcode_idx d.barcode)
    then err barcode_taken
    else ok (p, if pending then record_added now draws d p stored else stored)

unfoldable pub edited : Time → ProductDraft → Product → Product
edited now d p = record p {
  name = d.name;
  price_cents = d.price_cents;
  barcode = d.barcode;
  track_stock = d.track_stock;
  stock = d.stock;
  taxable = d.taxable;
  updated_at = now;
}

-- The detail of the "Item updated" line.
unfoldable pub edit_detail : ProductDraft → Product → Text
edit_detail d old =
    if not (eqb_ℤ old.price_cents d.price_cents)
    then d.name
      ++ text ", price "
      ++ audit_price old.price_cents
      ++ text " to "
      ++ audit_price d.price_cents
    else if not (old.name == d.name)
    then old.name ++ text " renamed to " ++ d.name
    else d.name

-- The line is written only for a change that the owner sees.
unfoldable pub is_visible_edit : ProductDraft → Product → Bool
is_visible_edit d old =
    not (old.name == d.name)
    || not (eqb_ℤ old.price_cents d.price_cents)
    || not (old.barcode == d.barcode)
    || xor old.taxable d.taxable

unfoldable pub log_edit : {B : Bolt} → Time → Draws → ProductDraft → Product → Db B → Db B
unfolding is_visible_edit edit_detail append_audit
log_edit now draws d old db =
    if is_visible_edit d old
    then append_audit now draws.audit_id (text "Item updated") (edit_detail d old) db
    else db

-- The correcting event for an edited count, and its line.
unfoldable pub correct_stock : {B : Bolt} → Time → Draws → Text → ProductDraft → ℤ → Db B → Db B
unfolding append_stock_event append_audit
correct_stock now draws id d before_on_hand db =
    let delta = sub32 d.stock before_on_hand in
    let ev : StockEvent = record {
      id = draws.event_id;
      product_id = id;
      delta = delta;
      reason = adjustment;
      created_at = now;
    } in
    if not d.track_stock || eqb_ℤ delta (pos 0)
    then db
    else append_audit now draws.audit_id' (text "Stock changed")
        (d.name ++ text ", set to " ++ itoa d.stock) (append_stock_event ev db)

-- Is the barcode another product's?
unfoldable pub is_taken : Text → Text → Option Text → Bool
is_taken id barcode none = false
is_taken id barcode (some cur) = not_empty barcode && not (cur == id)

-- `UpdateProduct` of a product that was found, with a barcode that is free.
unfoldable pub update_found :
    {B : Bolt} → Time → Draws → Text → ProductDraft → Product → Db B → Product × Db B
unfolding edited put_product index_barcode drop_barcode log_edit mark_product_pending correct_stock
update_found now draws id d old db =
    let before_on_hand = on_hand_of id db in
    let freed = if not (old.barcode == d.barcode) then drop_barcode old.barcode db else db in
    let p = edited now d old in
    let stored = index_barcode d.barcode id (put_product id p freed) in
    let marked = mark_product_pending id (log_edit now draws d old stored) in
    (
      record p { stock = if d.track_stock then d.stock else pos 0 },
      correct_stock now draws id d before_on_hand marked,
    )

-- `UpdateProduct`
unfoldable pub update_product :
    {B : Bolt} → Time → Draws → Text → ProductDraft → Db B → Result (Product × Db B)
unfolding update_found is_taken
update_product {B} now draws id d db = do
  old ← found_or (B.get Product db.products id)
  if is_taken id d.barcode (B.get Text db.barcode_idx d.barcode)
      then err barcode_taken
      else ok (update_found now draws id d old db)

unfoldable pub tombstone : Time → Product → Product
tombstone now p = record p { active = false; deleted_at = some now; updated_at = now }

-- `DeleteProduct`
unfoldable pub delete_product : {B : Bolt} → Time → Draws → Text → Db B → Result (Unit {0} × Db B)
unfolding tombstone drop_barcode put_product append_audit mark_product_pending
delete_product {B} now draws id db = do
  p ← found_or (B.get Product db.products id)
  let stored = put_product id (tombstone now p) (drop_barcode p.barcode db)
  let logged = append_audit now draws.audit_id (text "Item removed") p.name stored
  ok (tt, mark_product_pending id logged)

unfoldable pub shown : {B : Bolt} → Product → Db B → Product
unfolding max0
shown p db = if p.track_stock then record p { stock = max0 (on_hand_of p.id db) } else p

-- The product behind an id of the index, if it is there and active.
unfoldable pub scan_product : {B : Bolt} → Db B → Option Product → Option Product
unfolding shown
scan_product db none = none
scan_product db (some p) = if p.active then some (shown p db) else none

unfoldable pub scan_id : {B : Bolt} → Db B → Option Text → Option Product
unfolding scan_product
scan_id db none = none
scan_id {B} db (some id) = scan_product db (B.get Product db.products id)

-- `ProductByBarcode`
unfoldable pub product_by_barcode : {B : Bolt} → Text → Db B → Option Product
unfolding scan_id
product_by_barcode {B} code db = scan_id db (B.get Text db.barcode_idx code)
