-- ===== src/Boltstore/Pull/Echo.antt =====
-- internal/store/boltstore/sync.go, `ApplyPulled`: what is pulled is not marked to be pushed.
use pos_agent.Base.{
  ◌≡◌, refl, sym, subst, ◌∙◌, not, Option, none, some, List, [], Text, text_eq, ◌==◌, if_lem,
}
use pos_agent.Bolt.{Bolt, IsLawful}
use pos_agent.Domain.{Time, Product, Sale, StockEvent, after}
use pos_agent.Boltstore.Db.{Db}
use pos_agent.Boltstore.Products.{put_product, index_barcode, drop_barcode, not_empty, is_some}
use pos_agent.Boltstore.Sales.{put_sale}
use pos_agent.Boltstore.Settings.{Settings}
use pos_agent.Boltstore.Pull.{
  store_pulled, merge_product, apply_product, apply_sale, apply_stock_event, Pulled, apply_each,
  apply_pulled, apply_pulled_settings,
}
use pos_agent.Boltstore.Pull.Merge.{pull_settings-only}
use pos_agent.Boltstore.Pull.Settling.{apply_each-invariant}

-- What a database holds of the outbox and of the link to the cloud.
abbrev pub SameOutbox : {B : Bolt} → Db B → Db B → Type 0
SameOutbox db db' =
    (db'.pending_prods ≡ db.pending_prods)
    × (db'.pending_sales ≡ db.pending_sales)
    × (db'.pending_stockev ≡ db.pending_stockev)
    × (db'.sync_state ≡ db.sync_state)

module _ {B : Bolt} (L : IsLawful B) where
  same : (db : Db B) → SameOutbox db db
  same db = (refl, refl, refl, refl)

  after_same : (a b c : Db B) → SameOutbox b c → SameOutbox a b → SameOutbox a c
  after_same a b c (p', q', r', s') (p, q, r, s) = (p' ∙ p, q' ∙ q, r' ∙ r, s' ∙ s)

  drop_barcode-SameOutbox : (c : Text) (db : Db B) → SameOutbox db (drop_barcode c db)
  unfolding drop_barcode
  drop_barcode-SameOutbox c db = if_lem (SameOutbox db) (not_empty c) (same db) (same db)

  index_barcode-SameOutbox : (c id : Text) (db : Db B) → SameOutbox db (index_barcode c id db)
  unfolding index_barcode
  index_barcode-SameOutbox c id db = if_lem (SameOutbox db) (not_empty c) (same db) (same db)

  store_pulled-SameOutbox : (p : Product) (db : Db B) → SameOutbox db (store_pulled p db)
  unfolding store_pulled put_product
  store_pulled-SameOutbox p db =
      if_lem (SameOutbox db) p.active
        (index_barcode-SameOutbox p.barcode p.id (put_product p.id p db)) (same db)

  merge_product-SameOutbox :
      (p : Product) (o : Option Product) (db : Db B) → SameOutbox db (merge_product p o db)
  unfolding merge_product
  merge_product-SameOutbox p none db = store_pulled-SameOutbox p db
  merge_product-SameOutbox p (some q) db =
      let freed = drop_barcode q.barcode db in
      if_lem (SameOutbox db) (not (after p.updated_at q.updated_at)) (same db) (
        after_same db freed (store_pulled p freed) (store_pulled-SameOutbox p freed)
          (drop_barcode-SameOutbox q.barcode db))

  apply_product-SameOutbox : (p : Product) (db : Db B) → SameOutbox db (apply_product p db)
  unfolding apply_product
  apply_product-SameOutbox p db = merge_product-SameOutbox p (B.get Product db.products p.id) db

  apply_sale-SameOutbox : (s : Sale) (db : Db B) → SameOutbox db (apply_sale s db)
  unfolding apply_sale put_sale
  apply_sale-SameOutbox s db =
      if_lem (SameOutbox db) (is_some (B.get Sale db.sales s.id)) (same db)
        (if_lem (SameOutbox db) (s.reference == []) (same db) (same db))

  apply_stock_event-SameOutbox :
      (ev : StockEvent) (db : Db B) → SameOutbox db (apply_stock_event ev db)
  unfolding apply_stock_event
  apply_stock_event-SameOutbox ev db =
      if_lem (SameOutbox db) (is_some (B.get StockEvent db.stock_events ev.id)) (same db) (same db)

  each-SameOutbox :
      {A : Type 0} (f : A → Db B → Db B)
      → ((x : A) (db : Db B) → SameOutbox db (f x db))
      → (xs : List A) (db : Db B) → SameOutbox db (apply_each f xs db)
  each-SameOutbox f kept xs db =
      apply_each-invariant f (SameOutbox db) (λ x d h. after_same db d (f x d) (kept x d) h) xs db
        (same db)

  settings-SameOutbox :
      (given : Option (Settings × Time)) (db : Db B)
      → SameOutbox db (apply_pulled_settings given db)
  settings-SameOutbox given db =
      subst (SameOutbox db) (sym (pull_settings-only L given db)) (same db)

  -- A pull marks nothing to be pushed and clears no mark, whatever it brings: the three outboxes
  -- and the sync state, with the marker of the settings, stay as they are.
  pub apply_pulled-SameOutbox :
      (pulled : Pulled) (db : Db B) → SameOutbox db (apply_pulled pulled db)
  unfolding apply_pulled
  apply_pulled-SameOutbox pulled db =
      let first = apply_each apply_product pulled.products db in
      let second = apply_each apply_sale pulled.sales first in
      let third = apply_each apply_stock_event pulled.stock_events second in
      after_same db third (apply_pulled_settings pulled.settings third)
        (settings-SameOutbox pulled.settings third)
        (after_same db second third
          (each-SameOutbox apply_stock_event apply_stock_event-SameOutbox pulled.stock_events
            second)
          (after_same db first second
            (each-SameOutbox apply_sale apply_sale-SameOutbox pulled.sales first)
            (each-SameOutbox apply_product apply_product-SameOutbox pulled.products db)))
