-- ===== src/Boltstore/Products/Scan.antt =====
-- internal/store/boltstore/boltstore.go: `ProductByBarcode` over an exact index, and what a second
-- removal of a product does to it.
use pos_agent.Base.{
  ◌≡◌, ◌≢◌, sym, ap, ◌∙◌, true, none, some, [], Text, text_eq, arith, inl, inr, Option-cases,
}
use mathlib.Core.Option.{some-injective}
use pos_agent.Bolt.{Bolt, IsLawful}
use pos_agent.Domain.{Time, Product}
use pos_agent.Boltstore.Db.{Db, Draws, committed}
use pos_agent.Boltstore.Products.{
  product_by_barcode, delete_product, put_product, drop_barcode, tombstone,
}
use pos_agent.Boltstore.Products.Index.{upd_ne}
use pos_agent.Boltstore.Products.Barcodes.{
  IsIndexed, get-put_product, get-drop_barcode, products-drop_barcode,
}

module _ {B : Bolt} (db : Db B) (h : IsIndexed db) where
  -- Two active products do not share a barcode.
  pub active_barcode_unique :
      (i j : Text) (p q : Product)
      → B.get Product db.products i ≡ some p
      → B.get Product db.products j ≡ some q
      → p.active ≡ true
      → q.active ≡ true
      → p.barcode ≢ []
      → q.barcode ≡ p.barcode
      → i ≡ j
  active_barcode_unique i j p q at at' active active' ne same = some-injective i j (
      sym (h.complete i p at active ne)
      ∙ sym (ap (B.get Text db.barcode_idx) same)
      ∙ h.complete j q at' active' (λ b. ne (sym same ∙ b)))

  -- A scan of a barcode that no active product has finds nothing.
  pub product_by_barcode_absent :
      (code : Text)
      → ((id : Text) (p : Product)
          → B.get Product db.products id ≡ some p
          → p.active ≡ true
          → p.barcode ≢ code)
      → product_by_barcode code db ≡ none
  unfolding product_by_barcode
  product_by_barcode_absent code unused = elim (Option-cases (B.get Text db.barcode_idx code)) [
    | inl absent ↦ rw absent
    | inr (id, e) ↦ let (p, at, b, a) = h.sound code id e in absurd (unused id p at a b)
  ]

module _ {B : Bolt} (L : IsLawful B) (db : Db B) where
  gone :
      (old barcode id : Text) (p : Product)
      → old ≡ barcode
      → barcode ≢ []
      → B.get Text (put_product id p (drop_barcode old db)).barcode_idx barcode ≡ none
  unfolding put_product
  gone old barcode id p same given = rw (get-drop_barcode L db old) (ground arith)

  -- Removing a stored product whose barcode another active product has, as a tombstone may be once
  -- its barcode was given away, takes that barcode out of the index: a scan no longer finds the
  -- other product, which stays stored and active.
  pub delete_product_again :
      (now : Time) (draws : Draws) (id j : Text) (old q : Product)
      → B.get Product db.products id ≡ some old
      → B.get Product db.products j ≡ some q
      → id ≢ j
      → q.active ≡ true
      → old.barcode ≡ q.barcode
      → q.barcode ≢ []
      → let db' = committed db (delete_product now draws id db) in
        (product_by_barcode q.barcode db' ≡ none) × (B.get Product db'.products j ≡ some q)
  unfolding delete_product product_by_barcode
  delete_product_again now draws id j old q at at' ne active same given = (
    rw (at, gone old.barcode q.barcode id (tombstone now old) same given),
    rw at (
        ap (λ f. f j) (get-put_product L (drop_barcode old.barcode db) id (tombstone now old))
        ∙ upd_ne id (tombstone now old) (B.get Product (drop_barcode old.barcode db).products) j
            (λ e. ne (sym e))
        ∙ rw (products-drop_barcode db old.barcode) at'),
  )
