-- ===== src/Boltstore/Stock/Restock.antt =====
-- internal/store/boltstore/stock.go: what `Restock` does to the stock, and merging stock events.
use pos_agent.Base.{
  ◌≡◌, ◌≢◌, refl, sym, ◌∙◌, ap, subst, none, some, Text, text_eq, ◌==◌, if◌then◌else◌, arith, inl,
  inr, Bool-cases,
}
use pos_agent.Base.Int.{
  ℤ, pos, add32, eqb_ℤ, wrap32_self, wrap32-InInt32, InInt32, eq_of_parts, +ℤ_zero,
}
use pos_agent.Bolt.{Bolt, IsLawful}
use pos_agent.Domain.{Time, StockEvent, Product, restock}
use pos_agent.Boltstore.Db.{Db, Draws, ok, err, not_found, committed}
use pos_agent.Boltstore.Stock.{on_hand_of, append_stock_event, restock_found, restock_product, max0}
use pos_agent.Boltstore.Stock.OnHand.{on_hand_of-exact, exact_on_hand, on_hand-append_event}
use pos_agent.Boltstore.Stock.Sums.{event_part}

pub on_hand_of-InInt32 : {B : Bolt} (id : Text) (db : Db B) → InInt32 (on_hand_of id db)
on_hand_of-InInt32 id db =
    subst InInt32 (sym (on_hand_of-exact id db)) (wrap32-InInt32 (exact_on_hand id db))

-- Stock is read from the events and the sales alone.
pub on_hand_same :
    {B : Bolt} (id : Text) (a b : Db B)
    → a.stock_events ≡ b.stock_events
    → a.sales ≡ b.sales
    → on_hand_of id a ≡ on_hand_of id b
unfolding on_hand_of
on_hand_same id a b e f = rw (e, f)

pub add32_zero : (a : ℤ) → InInt32 a → add32 a (pos 0) ≡ a
add32_zero a h = rw +ℤ_zero (wrap32_self a h)

pub event_part_self : (ev : StockEvent) → event_part ev.product_id ev ≡ ev.delta
event_part_self ev = ground arith

pub event_part_ne : (id : Text) (ev : StockEvent) → ev.product_id ≢ id → event_part id ev ≡ pos 0
event_part_ne id ev ne = ground arith

module _ {B : Bolt} (L : IsLawful B) (db : Db B) where
  -- A new event, at its own product and at another.
  pub on_hand-append_self :
      (ev : StockEvent)
      → B.get StockEvent db.stock_events ev.id ≡ none
      → on_hand_of ev.product_id (append_stock_event ev db)
        ≡ add32 (on_hand_of ev.product_id db) ev.delta
  on_hand-append_self ev fresh =
      on_hand-append_event L ev.product_id db ev fresh
      ∙ ap (add32 (on_hand_of ev.product_id db)) (event_part_self ev)

  pub on_hand-append_ne :
      (id : Text) (ev : StockEvent)
      → B.get StockEvent db.stock_events ev.id ≡ none
      → ev.product_id ≢ id
      → on_hand_of id (append_stock_event ev db) ≡ on_hand_of id db
  on_hand-append_ne id ev fresh ne =
      on_hand-append_event L id db ev fresh
      ∙ rw (event_part_ne id ev ne) (add32_zero _ (on_hand_of-InInt32 id db))

  module _ (now : Time) (draws : Draws) (id : Text) (qty : ℤ) (p : Product) where
    abbrev restock_event : StockEvent
    restock_event = record {
      id = draws.event_id;
      product_id = id;
      delta = qty;
      reason = restock;
      created_at = now;
    }

    restocked_on_hand :
        B.get StockEvent db.stock_events draws.event_id ≡ none
        → on_hand_of id (restock_found now draws id qty p db).1 ≡ add32 (on_hand_of id db) qty
    unfolding restock_found
    restocked_on_hand fresh = elim (Bool-cases (eqb_ℤ qty (pos 0))) [
      | inl zero ↦
          rw (zero, eq_of_parts qty (pos 0) (ground arith))
            (sym (add32_zero _ (on_hand_of-InInt32 id db)))
      | inr more ↦ rw more (
          on_hand_same id _ (append_stock_event restock_event db) refl refl
          ∙ on_hand-append_self restock_event fresh)
    ]

    restocked_others :
        (j : Text)
        → B.get StockEvent db.stock_events draws.event_id ≡ none
        → id ≢ j
        → on_hand_of j (restock_found now draws id qty p db).1 ≡ on_hand_of j db
    unfolding restock_found
    restocked_others j fresh ne = elim (Bool-cases (eqb_ℤ qty (pos 0))) [
      | inl zero ↦ rw zero
      | inr more ↦ rw more (
          on_hand_same j _ (append_stock_event restock_event db) refl refl
          ∙ on_hand-append_ne j restock_event fresh ne)
    ]

    restocked_shown :
        let (p', db') = restock_found now draws id qty p db in p'.stock ≡ max0 (on_hand_of id db')
    unfolding restock_found
    restocked_shown = elim (Bool-cases (eqb_ℤ qty (pos 0))) [
      | inl zero ↦ rw zero
      | inr more ↦ rw more (ap max0 (on_hand_same id _ _ refl refl))
    ]

    -- `Restock` of a known product succeeds: the product's stock moves by exactly the quantity (in
    -- 32-bit arithmetic), no other product's stock moves, and the product that is returned shows
    -- the new stock, floored at zero. The event's UUID must be new.
    pub restock_product-on_hand :
        B.get Product db.products id ≡ some p
        → B.get StockEvent db.stock_events draws.event_id ≡ none
        → (r : Product × Db B) × (restock_product now draws id qty db ≡ ok r)
          × ((j : Text)
              → on_hand_of j r.1
                ≡ (if j == id then add32 (on_hand_of id db) qty else on_hand_of j db))
          × (r.0.stock ≡ max0 (on_hand_of id r.1))
    unfolding restock_product
    restock_product-on_hand known fresh = (
      restock_found now draws id qty p db,
      rw known,
      λ j. elim (Bool-cases (j == id)) [
        | inl same ↦ rw same (
            ap (λ (k : Text). on_hand_of k (restock_found now draws id qty p db).1) (ground arith)
            ∙ restocked_on_hand fresh)
        | inr other ↦ rw other (restocked_others j fresh (ground arith))
      ],
      restocked_shown,
    )

  -- `Restock` of an unknown product is `ErrNotFound`, and the database stays.
  pub restock_product_unknown :
      (now : Time) (draws : Draws) (id : Text) (qty : ℤ)
      → B.get Product db.products id ≡ none
      → (restock_product now draws id qty db ≡ err not_found)
        × (committed db (restock_product now draws id qty db) ≡ db)
  unfolding restock_product
  restock_product_unknown now draws id qty unknown = (rw unknown, rw unknown)
