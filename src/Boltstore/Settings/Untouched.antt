-- ===== src/Boltstore/Settings/Untouched.antt =====
-- internal/store/boltstore: the operations on products and sales leave the settings as they are.
use pos_agent.Base.{
  ◌≡◌, refl, ap, ◌∙◌, subst, Bool, true, false, ◌&&◌, not, Text, text_eq, ◌==◌, [], if◌then◌else◌,
  if_lem,
}
use pos_agent.Base.Int.{ℤ, pos, eqb_ℤ}
use pos_agent.Bolt.{Bolt}
use pos_agent.Domain.{Time, Product, ProductDraft, Sale, SaleInput}
use pos_agent.Boltstore.Db.{Db, Draws, ok, err, ok-injective, >>=-ok_steps}
use pos_agent.Boltstore.Audit.{append_audit}
use pos_agent.Boltstore.Stock.{
  restock_product, restock_found, append_stock_event, found_or, on_hand_of,
}
use pos_agent.Boltstore.Products.{
  add_product, update_product, update_found, delete_product, record_added, correct_stock,
  mark_product_pending, put_product, index_barcode, drop_barcode, log_edit, edited, new_product,
}
use pos_agent.Boltstore.Products.Frame.{
  put_product-SameRest, index_barcode-SameRest, drop_barcode-SameRest, freed-SameRest,
  log_edit-SameRest, mark_product_pending-SameRest,
}
use pos_agent.Boltstore.Sales.{create_sale, put_sale, mark_sale_pending}
use pos_agent.Boltstore.Sales.Sold.{create_sale_allowed}

-- A successful result comes from the second branch of a test that refuses.
allowed-ok :
    {A : Type 0} (b : Bool) (why : _) (t : A) (u : A) → (if b then err why else ok t) ≡ ok u → t ≡ u
allowed-ok true why t u e = cc
allowed-ok false why t u e = ok-injective t u e

module _ {B : Bolt} where
  -- The settings are those of `db`.
  abbrev Keeps : Db B → Db B → Type 0
  Keeps db db' = db'.settings ≡ db.settings

  module _ (now : Time) (draws : Draws) (d : ProductDraft) where
    record_added-Keeps : (p : Product) (a : Db B) → Keeps a (record_added now draws d p a)
    unfolding record_added append_stock_event
    record_added-Keeps p a =
        if_lem (Keeps a) (d.track_stock && not (eqb_ℤ d.stock (pos 0))) refl refl

    correct_stock-Keeps :
        (id : Text) (n : ℤ) (a : Db B) → Keeps a (correct_stock now draws id d n a)
    unfolding correct_stock append_stock_event
    correct_stock-Keeps id n a = if_lem (Keeps a) _ refl refl

    pub add_product-settings :
        (pending : Bool) (db : Db B) (r : Product × Db B)
        → add_product now draws pending d db ≡ ok r
        → Keeps db r.1
    unfolding add_product
    add_product-settings pending db r e =
        let p = new_product now draws.record_id d in
        let stored = put_product p.id p db in
        let indexed : Keeps db (index_barcode d.barcode p.id stored) =
          (index_barcode-SameRest d.barcode p.id stored).settings
          ∙ (put_product-SameRest p.id p db).settings in
        let made = allowed-ok _ _ _ r e in
        subst (λ (s : Product × Db B). Keeps db s.1) made
          (if_lem (Keeps db) pending
            (record_added-Keeps p (index_barcode d.barcode p.id stored) ∙ indexed) indexed)

    update_found-Keeps :
        (id : Text) (old : Product) (db : Db B) → Keeps db (update_found now draws id d old db).1
    unfolding update_found
    update_found-Keeps id old db =
        let freed = if not (old.barcode == d.barcode) then drop_barcode old.barcode db else db in
        let stored = put_product id (edited now d old) freed in
        let indexed = index_barcode d.barcode id stored in
        let logged = log_edit now draws d old indexed in
        correct_stock-Keeps id (on_hand_of id db) (mark_product_pending id logged)
        ∙ (mark_product_pending-SameRest id logged).settings
        ∙ (log_edit-SameRest now draws d old indexed).settings
        ∙ (index_barcode-SameRest d.barcode id stored).settings
        ∙ (put_product-SameRest id (edited now d old) freed).settings
        ∙ (freed-SameRest (not (old.barcode == d.barcode)) old.barcode db).settings

    pub update_product-settings :
        (id : Text) (db : Db B) (r : Product × Db B)
        → update_product now draws id d db ≡ ok r
        → Keeps db r.1
    unfolding update_product
    update_product-settings id db r e =
        let (old, found, updated) = >>=-ok_steps (found_or (B.get Product db.products id)) _ e in
        subst (λ (s : Product × Db B). Keeps db s.1)
          (allowed-ok _ _ (update_found now draws id d old db) r updated)
          (update_found-Keeps id old db)

  pub delete_product-settings :
      (now : Time) (draws : Draws) (id : Text) (db : Db B) (r : Unit {0} × Db B)
      → delete_product now draws id db ≡ ok r
      → Keeps db r.1
  unfolding delete_product mark_product_pending append_audit put_product
  delete_product-settings now draws id db r e =
      let (p, found, deleted) = >>=-ok_steps (found_or (B.get Product db.products id)) _ e in
      subst (λ (s : Unit {0} × Db B). Keeps db s.1) (ok-injective _ r deleted)
        (drop_barcode-SameRest p.barcode db).settings

  restock_found-Keeps :
      (now : Time) (draws : Draws) (id : Text) (qty : ℤ) (p : Product) (db : Db B)
      → Keeps db (restock_found now draws id qty p db).1
  unfolding restock_found append_stock_event
  restock_found-Keeps now draws id qty p db =
      if_lem (λ (s : Product × Db B). Keeps db s.1) (eqb_ℤ qty (pos 0)) refl refl

  pub restock_product-settings :
      (now : Time) (draws : Draws) (id : Text) (qty : ℤ) (db : Db B) (r : Product × Db B)
      → restock_product now draws id qty db ≡ ok r
      → Keeps db r.1
  unfolding restock_product
  restock_product-settings now draws id qty db r e =
      let (p, found, done) = >>=-ok_steps (found_or (B.get Product db.products id)) _ e in
      subst (λ (s : Product × Db B). Keeps db s.1) (ok-injective _ r done)
        (restock_found-Keeps now draws id qty p db)

  pub create_sale-settings :
      (now : Time) (sale_id : Text) (input : SaleInput) (db : Db B) (r : Sale × Db B)
      → create_sale now sale_id input db ≡ ok r
      → Keeps db r.1
  unfolding put_sale mark_sale_pending
  create_sale-settings now sale_id input db r e =
      let (items, allowed, sale, stored) = create_sale_allowed db now sale_id input r e in
      ap (λ (s : Db B). s.settings) stored ∙ if_lem (Keeps db) (r.0.reference == []) refl refl
