-- ===== src/Boltstore/Pull/Newest.antt =====
-- internal/store/boltstore/sync.go, `applyPulledProduct`: of two edits of one product the newest
-- stays.
use pos_agent.Base.{
  ◌≡◌, ◌≢◌, ◌⊎◌, refl, Option, none, some, Text, text_eq, ◌==◌, if◌then◌else◌, arith, inl, inr,
  Bool-cases, if_lem,
}
use pos_agent.Bolt.{Bolt, IsLawful}
use pos_agent.Domain.{Product, after}
use pos_agent.Boltstore.Db.{Db}
use pos_agent.Boltstore.Products.{put_product, index_barcode, drop_barcode}
use pos_agent.Boltstore.Pull.{store_pulled, merge_product, apply_product}

-- The product that a device keeps for an id, of its own, if any, and of a pulled one.
unfoldable pub newest : Product → Option Product → Product
newest p none = p
newest p (some q) = if after p.updated_at q.updated_at then p else q

module _ {B : Bolt} (L : IsLawful B) where
  drop_barcode-products : (c : Text) (db : Db B) → (drop_barcode c db).products ≡ db.products
  unfolding drop_barcode
  drop_barcode-products c db = ground arith

  index_barcode-products :
      (c id : Text) (db : Db B) → (index_barcode c id db).products ≡ db.products
  unfolding index_barcode
  index_barcode-products c id db = ground arith

  store_pulled-products :
      (p : Product) (db : Db B) → (store_pulled p db).products ≡ B.put Product db.products p.id p
  unfolding store_pulled put_product
  store_pulled-products p db =
      if_lem (λ (d : Db B). d.products ≡ B.put Product db.products p.id p) p.active
        (index_barcode-products p.barcode p.id (put_product p.id p db)) refl

  merge_product-get :
      (p : Product) (db : Db B) (o : Option Product) (j : Text)
      → B.get Product db.products p.id ≡ o
      → B.get Product (merge_product p o db).products j
        ≡ (if j == p.id then some (newest p o) else B.get Product db.products j)
  unfolding merge_product newest
  merge_product-get p db none j at =
      rw (store_pulled-products p db, L.get-put Product db.products p.id p j)
  merge_product-get p db (some q) j at = elim (Bool-cases (after p.updated_at q.updated_at)) [
    | inl newer ↦ rw (
      newer,
      store_pulled-products p (drop_barcode q.barcode db),
      drop_barcode-products q.barcode db,
      L.get-put Product db.products p.id p j,
    )
    | inr older ↦ ground arith
  ]

  -- Applying a pulled product leaves the newest of it and the local one, and every other product.
  pub apply_product-get :
      (p : Product) (db : Db B) (j : Text)
      → B.get Product (apply_product p db).products j ≡ (
          if j == p.id
          then some (newest p (B.get Product db.products p.id))
          else B.get Product db.products j)
  unfolding apply_product
  apply_product-get p db j = merge_product-get p db (B.get Product db.products p.id) j refl

  newest-commute :
      (p q : Product) (o : Option Product)
      → p.updated_at ≢ q.updated_at
      → newest p (some (newest q o)) ≡ newest q (some (newest p o))
  unfolding newest
  newest-commute p q none apart = ground arith
  newest-commute p q (some r) apart = ground arith

  -- Two pulled edits leave the same products whichever comes first, where they are of two products
  -- or do not carry the same time.
  pub apply_product-commute :
      (p q : Product) (db : Db B) (j : Text)
      → (p.id ≢ q.id) ⊎ (p.updated_at ≢ q.updated_at)
      → B.get Product (apply_product p (apply_product q db)).products j
        ≡ B.get Product (apply_product q (apply_product p db)).products j
  apply_product-commute p q db j apart = elim (Bool-cases (p.id == q.id)) [
    | inl same ↦ ground (
      arith,
      apply_product-get p (apply_product q db) j,
      apply_product-get q (apply_product p db) j,
      apply_product-get p db j,
      apply_product-get q db j,
      apply_product-get p db q.id,
      apply_product-get q db p.id,
      newest-commute p q (B.get Product db.products p.id),
    )
    | inr other ↦ ground (
      arith,
      apply_product-get p (apply_product q db) j,
      apply_product-get q (apply_product p db) j,
      apply_product-get p db j,
      apply_product-get q db j,
      apply_product-get p db q.id,
      apply_product-get q db p.id,
    )
  ]
