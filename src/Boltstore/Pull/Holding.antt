-- ===== src/Boltstore/Pull/Holding.antt =====
-- internal/store/boltstore/sync.go, `ApplyPulled`: after a pull its records are all held, and a database
-- that holds them is not changed by their application.
use pos_agent.Base.{◌≡◌, ◌≤◌, refl, sym, ap, subst, ◌∙◌, true, some, List, text_eq, All}
use pos_agent.Bolt.{Bolt, IsLawful}
use pos_agent.Domain.{Product, Sale, StockEvent}
use pos_agent.Boltstore.Db.{Db}
use pos_agent.Boltstore.Products.{is_some}
use pos_agent.Boltstore.Pull.{apply_product, apply_sale, apply_stock_event, Pulled, apply_each}
use pos_agent.Boltstore.Pull.Settling.{
  apply_each-invariant, apply_each-settles, apply_each-skips, product_IsSettling, sale_IsSettling,
  event_IsSettling, HasProduct, HasSale, HasEvent, HasAll, pull_records, apply_sale-products,
  apply_stock_event-same,
}

module _ {B : Bolt} (L : IsLawful B) where
  HasProduct-same :
      (ps : List Product) (db db' : Db B)
      → db'.products ≡ db.products
      → All (λ p. HasProduct p db) ps
      → All (λ p. HasProduct p db') ps
  HasProduct-same ps db db' same h =
      subst
        (λ (b : B.Bucket Product).
          All
            (λ (p : Product).
              (q : Product) × (B.get Product b p.id ≡ some q) × (p.updated_at ≤ q.updated_at))
            ps)
        (sym same) h

  HasSale-same :
      (ss : List Sale) (db db' : Db B)
      → db'.sales ≡ db.sales
      → All (λ s. HasSale s db) ss
      → All (λ s. HasSale s db') ss
  HasSale-same ss db db' same h =
      subst (λ (b : B.Bucket Sale). All (λ (s : Sale). is_some (B.get Sale b s.id) ≡ true) ss)
        (sym same) h

  HasEvent-same :
      (evs : List StockEvent) (db db' : Db B)
      → db'.stock_events ≡ db.stock_events
      → All (λ ev. HasEvent ev db) evs
      → All (λ ev. HasEvent ev db') evs
  HasEvent-same evs db db' same h =
      subst
        (λ (b : B.Bucket StockEvent).
          All (λ (ev : StockEvent). is_some (B.get StockEvent b ev.id) ≡ true) evs)
        (sym same) h

  sales-products :
      (ss : List Sale) (db : Db B) → (apply_each apply_sale ss db).products ≡ db.products
  sales-products ss db =
      apply_each-invariant apply_sale (λ d. d.products ≡ db.products)
        (λ s d h. apply_sale-products L s d ∙ h) ss db refl

  events-same :
      (evs : List StockEvent) (db : Db B)
      → ((apply_each apply_stock_event evs db).products ≡ db.products)
        × ((apply_each apply_stock_event evs db).sales ≡ db.sales)
  events-same evs db =
      apply_each-invariant apply_stock_event
        (λ d. (d.products ≡ db.products) × (d.sales ≡ db.sales))
        (λ ev d (h, k). let (e, f) = apply_stock_event-same L ev d in (e ∙ h, f ∙ k)) evs db
        (refl, refl)

  pub pull_records-HasAll : (pulled : Pulled) (db : Db B) → HasAll pulled (pull_records pulled db)
  pull_records-HasAll pulled db =
      let first = apply_each apply_product pulled.products db in
      let second = apply_each apply_sale pulled.sales first in
      let third = apply_each apply_stock_event pulled.stock_events second in
      let (same_products, same_sales) = events-same pulled.stock_events second in
      (
        HasProduct-same pulled.products first third
            (same_products ∙ sales-products pulled.sales first)
            (apply_each-settles apply_product HasProduct (product_IsSettling L) pulled.products db),
        HasSale-same pulled.sales second third same_sales
            (apply_each-settles apply_sale HasSale (sale_IsSettling L) pulled.sales first),
        apply_each-settles apply_stock_event HasEvent (event_IsSettling L) pulled.stock_events
            second,
      )

  pub pull_records_skips :
      (pulled : Pulled) (db : Db B) → HasAll pulled db → pull_records pulled db ≡ db
  pull_records_skips pulled db (hp, hs, he) =
      ap
        (λ (d : Db B).
          apply_each apply_stock_event pulled.stock_events (apply_each apply_sale pulled.sales d))
        (apply_each-skips apply_product HasProduct (product_IsSettling L) pulled.products db hp)
      ∙ ap (apply_each apply_stock_event pulled.stock_events)
          (apply_each-skips apply_sale HasSale (sale_IsSettling L) pulled.sales db hs)
      ∙ apply_each-skips apply_stock_event HasEvent (event_IsSettling L) pulled.stock_events db he
