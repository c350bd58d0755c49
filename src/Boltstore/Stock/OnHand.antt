-- ===== src/Boltstore/Stock/OnHand.antt =====
-- internal/store/boltstore/stock.go: what is on hand, and what each write does to it.
use mathlib.Core.List.{Perm, Permᴰ}
use mathlib.Core.Logic.{∥∥₁_elim}
use native.Mathlib.Decide.{ℕ_discrete}
use pos_agent.Base.{◌≡◌, refl, sym, ◌∙◌, subst, none, List, Text, text_eq, arith}
use pos_agent.Base.Int.{
  ℤ, pos, ◌+ℤ◌, ◌-ℤ◌, add32, sub32, wrap32, wrap32-add_left, wrap32-sub_left, wrap32-sub_right,
  wrap32-InInt32, InInt32, int_laws, +ℤ_zero_left,
}
use pos_agent.Bolt.{Bolt, IsLawful}
use pos_agent.Domain.{StockEvent, Sale}
use pos_agent.Boltstore.Db.{Db}
use pos_agent.Boltstore.Stock.{on_hand_of, no_counts, stock_totals, append_stock_event}
use pos_agent.Boltstore.Sales.{put_sale}
use pos_agent.Boltstore.Stock.Sums.{
  events_sum, sales_sum, items_sum, event_part, add_events-sum, sub_sales-sum, count_events-sum,
  count_sales-sum,
}

ℤ-set : IsSet ℤ
ℤ-set = hlevel ℕ_discrete

swap_sums : (a b c : ℤ) → a +ℤ (b +ℤ c) ≡ b +ℤ (a +ℤ c)
swap_sums a b c = omega int_laws

events_sum-permᴰ :
    (id : Text) {l m : List (Text × StockEvent)} → Permᴰ l m → events_sum id l ≡ events_sum id m
unfolding events_sum
events_sum-permᴰ id Permᴰ.nil = refl
events_sum-permᴰ id (Permᴰ.cons e p) = rw (e, events_sum-permᴰ id p)
events_sum-permᴰ id (Permᴰ.swap e f) = rw (e, f) (swap_sums _ _ _)
events_sum-permᴰ id (Permᴰ.trans p q) = events_sum-permᴰ id p ∙ events_sum-permᴰ id q

-- The order in which a bucket is visited does not matter to a sum.
events_sum-perm :
    (id : Text) (l m : List (Text × StockEvent)) → Perm l m → events_sum id l ≡ events_sum id m
events_sum-perm id l m p =
    ∥∥₁_elim p (ℤ-set (events_sum id l) (events_sum id m)) (events_sum-permᴰ id)

sales_sum-permᴰ :
    (id : Text) {l m : List (Text × Sale)} → Permᴰ l m → sales_sum id l ≡ sales_sum id m
unfolding sales_sum
sales_sum-permᴰ id Permᴰ.nil = refl
sales_sum-permᴰ id (Permᴰ.cons e p) = rw (e, sales_sum-permᴰ id p)
sales_sum-permᴰ id (Permᴰ.swap e f) = rw (e, f) (swap_sums _ _ _)
sales_sum-permᴰ id (Permᴰ.trans p q) = sales_sum-permᴰ id p ∙ sales_sum-permᴰ id q

sales_sum-perm : (id : Text) (l m : List (Text × Sale)) → Perm l m → sales_sum id l ≡ sales_sum id m
sales_sum-perm id l m p = ∥∥₁_elim p (ℤ-set (sales_sum id l) (sales_sum id m)) (sales_sum-permᴰ id)

module _ {B : Bolt} (id : Text) (db : Db B) where
  -- The exact stock of a product: the deltas of its events less the quantities of its sales.
  pub exact_on_hand : ℤ
  exact_on_hand =
      events_sum id (B.entries StockEvent db.stock_events) -ℤ sales_sum id (B.entries Sale db.sales)

  -- What `onHandOf` returns is the exact stock as a 32-bit `int`.
  pub on_hand_of-exact : on_hand_of id db ≡ wrap32 exact_on_hand
  unfolding on_hand_of exact_on_hand
  on_hand_of-exact =
      sub_sales-sum id (B.entries Sale db.sales) _ (
        subst InInt32
          (sym (add_events-sum id (B.entries StockEvent db.stock_events) (pos 0) (omega arith)))
          (wrap32-InInt32 _))
      ∙ rw (
        add_events-sum id (B.entries StockEvent db.stock_events) (pos 0) (omega arith),
        wrap32-sub_left,
        +ℤ_zero_left,
      )

  -- The one-pass totals of the catalogue and the count of a single product agree on every product.
  pub stock_totals-on_hand :
      let (delta, sold) = stock_totals db in sub32 (delta id) (sold id) ≡ on_hand_of id db
  unfolding stock_totals exact_on_hand
  stock_totals-on_hand =
      rw
        (
          count_events-sum id (B.entries StockEvent db.stock_events) no_counts (omega arith),
          count_sales-sum id (B.entries Sale db.sales) no_counts (omega arith),
          +ℤ_zero_left (events_sum id (B.entries StockEvent db.stock_events)),
          +ℤ_zero_left (sales_sum id (B.entries Sale db.sales)),
          wrap32-sub_left,
          wrap32-sub_right,
        )
        (sym on_hand_of-exact)

module _ {B : Bolt} (sale : Sale) (db : Db B) where
  put_sale-events : (put_sale sale db).stock_events ≡ db.stock_events
  unfolding put_sale
  put_sale-events = ground arith

  put_sale-sales : (put_sale sale db).sales ≡ B.put Sale db.sales sale.id sale
  unfolding put_sale
  put_sale-sales = ground arith

module _ {B : Bolt} (L : IsLawful B) (id : Text) (db : Db B) where
  exact-append_event :
      (ev : StockEvent)
      → B.get StockEvent db.stock_events ev.id ≡ none
      → exact_on_hand id (append_stock_event ev db) ≡ exact_on_hand id db +ℤ event_part id ev
  unfolding exact_on_hand append_stock_event
  exact-append_event ev fresh =
      rw (events_sum-perm id _ _ (L.entries-put_new StockEvent db.stock_events ev.id ev fresh))
        (unfold events_sum in omega int_laws)

  -- A new event adds its delta to the stock of its own product, and nothing to another's.
  pub on_hand-append_event :
      (ev : StockEvent)
      → B.get StockEvent db.stock_events ev.id ≡ none
      → on_hand_of id (append_stock_event ev db) ≡ add32 (on_hand_of id db) (event_part id ev)
  on_hand-append_event ev fresh = rw (
    on_hand_of-exact id (append_stock_event ev db),
    on_hand_of-exact id db,
    exact-append_event ev fresh,
    wrap32-add_left,
  )

  exact-put_sale :
      (sale : Sale)
      → B.get Sale db.sales sale.id ≡ none
      → exact_on_hand id (put_sale sale db) ≡ exact_on_hand id db -ℤ items_sum id sale.items
  unfolding exact_on_hand
  exact-put_sale sale fresh =
      rw
        (
          put_sale-events sale db,
          put_sale-sales sale db,
          sales_sum-perm id _ _ (L.entries-put_new Sale db.sales sale.id sale fresh),
        )
        (unfold sales_sum in omega int_laws)

  -- A new sale takes the quantities of its items from the stock.
  pub on_hand-put_sale :
      (sale : Sale)
      → B.get Sale db.sales sale.id ≡ none
      → on_hand_of id (put_sale sale db) ≡ sub32 (on_hand_of id db) (items_sum id sale.items)
  on_hand-put_sale sale fresh = rw (
    on_hand_of-exact id (put_sale sale db),
    on_hand_of-exact id db,
    exact-put_sale sale fresh,
    wrap32-sub_left,
  )
