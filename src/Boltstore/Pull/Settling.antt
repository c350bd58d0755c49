-- ===== src/Boltstore/Pull/Settling.antt =====
-- internal/store/boltstore/sync.go, the loops of `ApplyPulled` over records: a record that was applied
-- is settled, and applying it again does nothing.
use pos_agent.Base.{
  ◌≡◌, ◌≤◌, refl, ap, ◌∙◌, true, not, Option, none, some, List, [], ◌∷◌, Text, text_eq, ◌==◌,
  if◌then◌else◌, arith, inl, inr, Bool-cases, if_lem, ◌&&◌, All,
}
use pos_agent.Bolt.{Bolt, IsLawful}
use pos_agent.Domain.{Product, Sale, StockEvent}
use pos_agent.Boltstore.Db.{Db}
use pos_agent.Boltstore.Products.{is_some}
use pos_agent.Boltstore.Sales.{put_sale}
use pos_agent.Boltstore.Pull.{
  merge_product, apply_product, apply_sale, apply_stock_event, Pulled, apply_each,
}
use pos_agent.Boltstore.Pull.Newest.{newest, apply_product-get}

-- An application that has settled an item does nothing with it again, and settled items stay.
pub record IsSettling {A S : Type 0} (f : A → S → S) (Settled : A → S → Type 0) : Type 0 where
  pub settles : (x : A) (s : S) → Settled x (f x s)
  pub keeps : (x y : A) (s : S) → Settled x s → Settled x (f y s)
  pub skips : (x : A) (s : S) → Settled x s → f x s ≡ s

module _ {A S : Type 0} (f : A → S → S) where
  pub apply_each-invariant :
      (P : S → Type 0)
      → ((y : A) (s : S) → P s → P (f y s))
      → (ys : List A) (s : S) → P s
      → P (apply_each f ys s)
  unfolding apply_each
  apply_each-invariant P kept [] s h = h
  apply_each-invariant P kept (y ∷ ys) s h = apply_each-invariant P kept ys (f y s) (kept y s h)

module _ {A S : Type 0} (f : A → S → S) (Settled : A → S → Type 0) (F : IsSettling f Settled) where
  pub apply_each-settles : (xs : List A) (s : S) → All (λ x. Settled x (apply_each f xs s)) xs
  unfolding apply_each
  apply_each-settles [] s = tt
  apply_each-settles (x ∷ xs) s = (
    apply_each-invariant f (Settled x) (λ y. F.keeps x y) xs (f x s) (F.settles x s),
    apply_each-settles xs (f x s),
  )

  pub apply_each-skips : (xs : List A) (s : S) → All (λ x. Settled x s) xs → apply_each f xs s ≡ s
  unfolding apply_each
  apply_each-skips [] s h = refl
  apply_each-skips (x ∷ xs) s (h, hs) =
      ap (apply_each f xs) (F.skips x s h) ∙ apply_each-skips xs s hs

module _ {B : Bolt} where
  -- A pull without its settings.
  abbrev pub pull_records : Pulled → Db B → Db B
  pull_records pulled db =
      apply_each apply_stock_event pulled.stock_events
        (apply_each apply_sale pulled.sales (apply_each apply_product pulled.products db))

  -- The local product is at least as new.
  abbrev pub HasProduct : Product → Db B → Type 0
  HasProduct p db =
      (q : Product) × (B.get Product db.products p.id ≡ some q) × (p.updated_at ≤ q.updated_at)

  abbrev pub HasSale : Sale → Db B → Type 0
  HasSale s db = is_some (B.get Sale db.sales s.id) ≡ true

  abbrev pub HasEvent : StockEvent → Db B → Type 0
  HasEvent ev db = is_some (B.get StockEvent db.stock_events ev.id) ≡ true

  -- What a database holds that was given all the records of a pull.
  abbrev pub HasAll : Pulled → Db B → Type 0
  HasAll pulled db =
      All (λ p. HasProduct p db) pulled.products
      × All (λ s. HasSale s db) pulled.sales
      × All (λ ev. HasEvent ev db) pulled.stock_events

  pub HasAll-settings :
      (pulled : Pulled) (db : Db B) (b : B.Bucket Text)
      → HasAll pulled db
      → HasAll pulled (record db { settings = b })
  HasAll-settings pulled db b h = h

module _ {B : Bolt} (L : IsLawful B) where
  newest_later : (p : Product) (o : Option Product) → p.updated_at ≤ (newest p o).updated_at
  unfolding newest
  newest_later p none = ground arith
  newest_later p (some q) = ground arith

  newest_later_than :
      (p q : Product) (o : Option Product) → o ≡ some q → q.updated_at ≤ (newest p o).updated_at
  unfolding newest
  newest_later_than p q none e = cc
  newest_later_than p q (some r) e = ground arith

  skip_product :
      (p q : Product) (o : Option Product) (db : Db B)
      → o ≡ some q
      → p.updated_at ≤ q.updated_at
      → merge_product p o db ≡ db
  unfolding merge_product
  skip_product p q none db e late = cc
  skip_product p q (some r) db e late = ground arith

  pub product_IsSettling : IsSettling (λ (p : Product) (db : Db B). apply_product p db) HasProduct
  unfolding apply_product
  product_IsSettling = record {
    settles = λ p db. (
      newest p (B.get Product db.products p.id),
      ground (arith, apply_product-get L p db p.id),
      newest_later p (B.get Product db.products p.id),
    );
    keeps = λ p q db (r, at, late). elim (Bool-cases (p.id == q.id)) [
      | inl same ↦ (
        newest q (B.get Product db.products q.id),
        ground (arith, apply_product-get L q db p.id),
        ground (arith, newest_later_than q r (B.get Product db.products q.id)),
      )
      | inr other ↦ (r, ground (arith, apply_product-get L q db p.id), late)
    ];
    skips = λ p db (q, at, late). skip_product p q (B.get Product db.products p.id) db at late;
  }

  put_sale-sales :
      (s : Sale) (db : Db B) (j : Text)
      → B.get Sale (put_sale s db).sales j ≡ (if j == s.id then some s else B.get Sale db.sales j)
  unfolding put_sale
  put_sale-sales s db j =
      if_lem
        (λ (d : Db B). B.get Sale d.sales j ≡ (if j == s.id then some s else B.get Sale db.sales j))
        (s.reference == []) (L.get-put Sale db.sales s.id s j) (L.get-put Sale db.sales s.id s j)

  skip_sale :
      (s : Sale) (db : Db B) → is_some (B.get Sale db.sales s.id) ≡ true → apply_sale s db ≡ db
  unfolding apply_sale
  skip_sale s db h = rw h

  apply_sale-get :
      (s : Sale) (db : Db B) (j : Text)
      → B.get Sale (apply_sale s db).sales j ≡ (
          if (j == s.id) && not (is_some (B.get Sale db.sales s.id))
          then some s
          else B.get Sale db.sales j)
  unfolding apply_sale
  apply_sale-get s db j = elim (Bool-cases (is_some (B.get Sale db.sales s.id))) [
    | inl known ↦ ground (arith, known)
    | inr new ↦ ground (arith, new, put_sale-sales s db j)
  ]

  pub sale_IsSettling : IsSettling (λ (s : Sale) (db : Db B). apply_sale s db) HasSale
  sale_IsSettling = record {
    settles = λ s db. ground (arith, apply_sale-get s db s.id);
    keeps = λ s t db h. ground (arith, apply_sale-get t db s.id);
    skips = λ s db h. skip_sale s db h;
  }

  apply_stock_event-get :
      (ev : StockEvent) (db : Db B) (j : Text)
      → B.get StockEvent (apply_stock_event ev db).stock_events j ≡ (
          if (j == ev.id) && not (is_some (B.get StockEvent db.stock_events ev.id))
          then some ev
          else B.get StockEvent db.stock_events j)
  unfolding apply_stock_event
  apply_stock_event-get ev db j = ground (arith, L.get-put StockEvent db.stock_events ev.id ev j)

  pub event_IsSettling :
      IsSettling (λ (ev : StockEvent) (db : Db B). apply_stock_event ev db) HasEvent
  unfolding apply_stock_event
  event_IsSettling = record {
    settles = λ ev db. ground (arith, apply_stock_event-get ev db ev.id);
    keeps = λ ev other db h. ground (arith, apply_stock_event-get other db ev.id);
    skips = λ ev db h. rw h;
  }

  pub apply_sale-products : (s : Sale) (db : Db B) → (apply_sale s db).products ≡ db.products
  unfolding apply_sale put_sale
  apply_sale-products s db =
      if_lem (λ (d : Db B). d.products ≡ db.products) (is_some (B.get Sale db.sales s.id)) refl
        (if_lem (λ (d : Db B). d.products ≡ db.products) (s.reference == []) refl refl)

  pub apply_stock_event-same :
      (ev : StockEvent) (db : Db B)
      → ((apply_stock_event ev db).products ≡ db.products)
        × ((apply_stock_event ev db).sales ≡ db.sales)
  unfolding apply_stock_event
  apply_stock_event-same ev db =
      if_lem (λ (d : Db B). (d.products ≡ db.products) × (d.sales ≡ db.sales))
        (is_some (B.get StockEvent db.stock_events ev.id)) (refl, refl) (refl, refl)
