-- ===== src/Boltstore/Stock.antt =====
-- internal/store/boltstore/stock.go: stock is an append-only log of events, and what is on hand is
-- the sum of a product's events less what its sales sold.
pub mod Sums
pub mod OnHand
pub mod Restock
use pos_agent.Base.{
  ℕ, ◌≡◌, Bool, Option, none, some, List, [], ◌∷◌, ◌++◌, Text, text, text_eq, ◌==◌, if◌then◌else◌,
}
use pos_agent.Base.Int.{ℤ, pos, ltb_ℤ, eqb_ℤ, add32, sub32}
use pos_agent.Base.Decimal.{itoa}
use pos_agent.Bolt.{Bolt}
use pos_agent.Domain.{Time, Product, StockEvent, StockReason, Sale, SaleItem, restock}
use pos_agent.Boltstore.Db.{Db, Draws, Error, not_found, Result, ok, err, ◌>>=◌}
use pos_agent.Boltstore.Audit.{append_audit}

-- `markStockEventPending`
unfoldable pub mark_stock_event_pending : {B : Bolt} → Text → Db B → Db B
mark_stock_event_pending {B} id db = record db {
  pending_stockev = B.put Unit db.pending_stockev id tt;
}

-- `appendStockEvent`
unfoldable pub append_stock_event : {B : Bolt} → StockEvent → Db B → Db B
unfolding mark_stock_event_pending
append_stock_event {B} ev db =
    mark_stock_event_pending ev.id
      (record db { stock_events = B.put StockEvent db.stock_events ev.id ev })

unfoldable pub max0 : ℤ → ℤ
max0 n = if ltb_ℤ n (pos 0) then pos 0 else n

-- The loop of `onHandOf` over the events.
unfoldable pub add_events : Text → ℤ → List (Text × StockEvent) → ℤ
add_events id total [] = total
add_events id total ((_, ev) ∷ events) =
    add_events id (if ev.product_id == id then add32 total ev.delta else total) events

unfoldable pub sub_items : Text → ℤ → List SaleItem → ℤ
sub_items id total [] = total
sub_items id total (it ∷ items) =
    sub_items id (if it.product_id == id then sub32 total it.qty else total) items

-- The loop of `onHandOf` over the sales.
unfoldable pub sub_sales : Text → ℤ → List (Text × Sale) → ℤ
unfolding sub_items
sub_sales id total [] = total
sub_sales id total ((_, sale) ∷ sales) = sub_sales id (sub_items id total sale.items) sales

-- `onHandOf`
unfoldable pub on_hand_of : {B : Bolt} → Text → Db B → ℤ
unfolding add_events sub_sales
on_hand_of {B} id db =
    sub_sales id (add_events id (pos 0) (B.entries StockEvent db.stock_events))
      (B.entries Sale db.sales)

-- A `map[string]int`, where a key that is not there reads 0, and its `m[k] += d`.
abbrev pub Counts : Type 0
Counts = Text → ℤ

abbrev pub no_counts : Counts
no_counts _ = pos 0

unfoldable pub bump : Text → ℤ → Counts → Counts
bump k d m j = if j == k then add32 (m j) d else m j

unfoldable pub count_events : Counts → List (Text × StockEvent) → Counts
unfolding bump
count_events m [] = m
count_events m ((_, ev) ∷ events) = count_events (bump ev.product_id ev.delta m) events

unfoldable pub count_items : Counts → List SaleItem → Counts
unfolding bump
count_items m [] = m
count_items m (it ∷ items) = count_items (bump it.product_id it.qty m) items

unfoldable pub count_sales : Counts → List (Text × Sale) → Counts
unfolding count_items
count_sales m [] = m
count_sales m ((_, sale) ∷ sales) = count_sales (count_items m sale.items) sales

-- `stockTotals`: the sums of the deltas and of the quantities sold.
unfoldable pub stock_totals : {B : Bolt} → Db B → Counts × Counts
unfolding count_events count_sales
stock_totals {B} db = (
  count_events no_counts (B.entries StockEvent db.stock_events),
  count_sales no_counts (B.entries Sale db.sales),
)

-- The line that `Restock` adds to the activity log.
unfoldable pub restock_detail : Product → ℤ → ℤ → Text
unfolding itoa max0
restock_detail p qty on_hand =
    let verb =
      if ltb_ℤ qty (pos 0)
      then text "removed " ++ itoa (sub32 (pos 0) qty)
      else text "added " ++ itoa qty in
    p.name ++ text ", " ++ verb ++ text " (now " ++ itoa (max0 on_hand) ++ text ")"

-- `Restock` of a product that was found; a quantity of zero writes nothing.
unfoldable pub restock_found :
    {B : Bolt} → Time → Draws → Text → ℤ → Product → Db B → Product × Db B
unfolding append_stock_event append_audit max0 restock_detail
restock_found now draws id qty p db =
    let ev : StockEvent = record {
      id = draws.event_id;
      product_id = id;
      delta = qty;
      reason = restock;
      created_at = now;
    } in
    let stocked = append_stock_event ev db in
    let on_hand = on_hand_of id stocked in
    let logged =
      append_audit now draws.audit_id (text "Stock changed") (restock_detail p qty on_hand)
        stocked in
    if eqb_ℤ qty (pos 0)
    then (record p { stock = max0 (on_hand_of id db) }, db)
    else (record p { stock = max0 on_hand }, logged)

-- A record that is not there is `ErrNotFound`.
abbrev pub found_or : {A : Type 0} → Option A → Result A
found_or none = err not_found
found_or (some a) = ok a

-- `Restock`
unfoldable pub restock_product :
    {B : Bolt} → Time → Draws → Text → ℤ → Db B → Result (Product × Db B)
unfolding restock_found
restock_product {B} now draws id qty db = do
  p ← found_or (B.get Product db.products id)
  ok (restock_found now draws id qty p db)
