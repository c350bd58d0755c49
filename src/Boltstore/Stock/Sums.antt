-- ===== src/Boltstore/Stock/Sums.antt =====
-- internal/store/boltstore/stock.go: the loops of `onHandOf` and `stockTotals` against exact sums.
use pos_agent.Base.{
  ◌≡◌, sym, ◌∙◌, ap, subst, Bool, true, false, List, [], ◌∷◌, Text, text_eq, ◌==◌, if◌then◌else◌,
  arith,
}
use pos_agent.Base.Int.{
  ℤ, pos, ◌+ℤ◌, ◌-ℤ◌, add32, sub32, wrap32, wrap32-add_left, wrap32-sub_left, wrap32_self,
  wrap32-InInt32, InInt32, int_laws, +ℤ_zero, +ℤ_zero_left, +ℤ_assoc,
}
use pos_agent.Domain.{StockEvent, Sale, SaleItem}
use pos_agent.Boltstore.Stock.{
  add_events, sub_items, sub_sales, Counts, bump, count_events, count_items, count_sales,
}

module _ (id : Text) where
  abbrev pub event_part : StockEvent → ℤ
  event_part ev = if ev.product_id == id then ev.delta else pos 0

  abbrev pub item_part : SaleItem → ℤ
  item_part it = if it.product_id == id then it.qty else pos 0

  -- The exact sum of a product's deltas.
  unfoldable pub events_sum : List (Text × StockEvent) → ℤ
  events_sum [] = pos 0
  events_sum ((_, ev) ∷ events) = event_part ev +ℤ events_sum events

  -- The exact quantity of a product that items, and sales, sold.
  unfoldable pub items_sum : List SaleItem → ℤ
  items_sum [] = pos 0
  items_sum (it ∷ items) = item_part it +ℤ items_sum items

  unfoldable pub sales_sum : List (Text × Sale) → ℤ
  sales_sum [] = pos 0
  sales_sum ((_, sale) ∷ sales) = items_sum sale.items +ℤ sales_sum sales

-- One step of a running wrapped sum, taken or passed over.
step_add :
    (b : Bool) (total x s : ℤ)
    → wrap32 ((if b then add32 total x else total) +ℤ s)
      ≡ wrap32 (total +ℤ ((if b then x else pos 0) +ℤ s))
step_add true total x s = rw (wrap32-add_left, +ℤ_assoc)
step_add false total x s = rw +ℤ_zero_left

step_sub :
    (b : Bool) (total x s : ℤ)
    → wrap32 ((if b then sub32 total x else total) -ℤ s)
      ≡ wrap32 (total -ℤ ((if b then x else pos 0) +ℤ s))
step_sub true total x s = rw wrap32-sub_left (ap wrap32 (omega int_laws))
step_sub false total x s = rw +ℤ_zero_left

step_add-InInt32 :
    (b : Bool) (total x : ℤ) → InInt32 total → InInt32 (if b then add32 total x else total)
step_add-InInt32 true total x h = wrap32-InInt32 (total +ℤ x)
step_add-InInt32 false total x h = h

step_sub-InInt32 :
    (b : Bool) (total x : ℤ) → InInt32 total → InInt32 (if b then sub32 total x else total)
step_sub-InInt32 true total x h = wrap32-InInt32 (total -ℤ x)
step_sub-InInt32 false total x h = h

-ℤ_zero : (a : ℤ) → a -ℤ pos 0 ≡ a
-ℤ_zero a = omega int_laws

sub-sub : (a b c : ℤ) → a -ℤ b -ℤ c ≡ a -ℤ (b +ℤ c)
sub-sub a b c = omega int_laws

eq_comm : (a b : Text) → (a == b) ≡ (b == a)
eq_comm a b = ground arith

bump_at :
    (k : Text) (d : ℤ) (m : Counts) (j : Text)
    → bump k d m j ≡ (if k == j then add32 (m j) d else m j)
unfolding bump
bump_at k d m j = rw (eq_comm k j)

module _ (id : Text) where
  pub add_events-sum :
      (events : List (Text × StockEvent)) (total : ℤ)
      → InInt32 total
      → add_events id total events ≡ wrap32 (total +ℤ events_sum id events)
  unfolding add_events events_sum
  add_events-sum [] total h = rw +ℤ_zero (sym (wrap32_self total h))
  add_events-sum ((k, ev) ∷ events) total h =
      let b = ev.product_id == id in
      add_events-sum events _ (step_add-InInt32 b total ev.delta h)
      ∙ step_add b total ev.delta (events_sum id events)

  sub_items-InInt32 :
      (items : List SaleItem) (total : ℤ) → InInt32 total → InInt32 (sub_items id total items)
  unfolding sub_items
  sub_items-InInt32 [] total h = h
  sub_items-InInt32 (it ∷ items) total h =
      sub_items-InInt32 items _ (step_sub-InInt32 (it.product_id == id) total it.qty h)

  sub_items-sum :
      (items : List SaleItem) (total : ℤ)
      → InInt32 total
      → sub_items id total items ≡ wrap32 (total -ℤ items_sum id items)
  unfolding sub_items items_sum
  sub_items-sum [] total h = rw -ℤ_zero (sym (wrap32_self total h))
  sub_items-sum (it ∷ items) total h =
      let b = it.product_id == id in
      sub_items-sum items _ (step_sub-InInt32 b total it.qty h)
      ∙ step_sub b total it.qty (items_sum id items)

  pub sub_sales-sum :
      (sales : List (Text × Sale)) (total : ℤ)
      → InInt32 total
      → sub_sales id total sales ≡ wrap32 (total -ℤ sales_sum id sales)
  unfolding sub_sales sales_sum
  sub_sales-sum [] total h = rw -ℤ_zero (sym (wrap32_self total h))
  sub_sales-sum ((k, sale) ∷ sales) total h =
      sub_sales-sum sales _ (sub_items-InInt32 sale.items total h)
      ∙ rw (sub_items-sum sale.items total h, wrap32-sub_left, sub-sub)

  -- The counts of `stockTotals`, at one product.
  pub count_events-sum :
      (events : List (Text × StockEvent)) (m : Counts)
      → InInt32 (m id)
      → count_events m events id ≡ wrap32 (m id +ℤ events_sum id events)
  unfolding count_events events_sum
  count_events-sum [] m h = rw +ℤ_zero (sym (wrap32_self (m id) h))
  count_events-sum ((k, ev) ∷ events) m h =
      let b = ev.product_id == id in
      let e : bump ev.product_id ev.delta m id ≡ (if b then add32 (m id) ev.delta else m id) =
        bump_at ev.product_id ev.delta m id in
      count_events-sum events _ (subst InInt32 (sym e) (step_add-InInt32 b (m id) ev.delta h))
      ∙ rw e (step_add b (m id) ev.delta (events_sum id events))

  count_items-InInt32 :
      (items : List SaleItem) (m : Counts) → InInt32 (m id) → InInt32 (count_items m items id)
  unfolding count_items
  count_items-InInt32 [] m h = h
  count_items-InInt32 (it ∷ items) m h = count_items-InInt32 items _ (
      subst InInt32 (sym (bump_at it.product_id it.qty m id))
        (step_add-InInt32 (it.product_id == id) (m id) it.qty h))

  count_items-sum :
      (items : List SaleItem) (m : Counts)
      → InInt32 (m id)
      → count_items m items id ≡ wrap32 (m id +ℤ items_sum id items)
  unfolding count_items items_sum
  count_items-sum [] m h = rw +ℤ_zero (sym (wrap32_self (m id) h))
  count_items-sum (it ∷ items) m h =
      let b = it.product_id == id in
      let e = bump_at it.product_id it.qty m id in
      count_items-sum items _ (subst InInt32 (sym e) (step_add-InInt32 b (m id) it.qty h))
      ∙ rw e (step_add b (m id) it.qty (items_sum id items))

  pub count_sales-sum :
      (sales : List (Text × Sale)) (m : Counts)
      → InInt32 (m id)
      → count_sales m sales id ≡ wrap32 (m id +ℤ sales_sum id sales)
  unfolding count_sales sales_sum
  count_sales-sum [] m h = rw +ℤ_zero (sym (wrap32_self (m id) h))
  count_sales-sum ((k, sale) ∷ sales) m h =
      count_sales-sum sales _ (count_items-InInt32 sale.items m h)
      ∙ rw (count_items-sum sale.items m h, wrap32-add_left, +ℤ_assoc)
