-- ===== src/Boltstore/Products/Barcodes.antt =====
-- internal/store/boltstore/boltstore.go: every catalogue operation keeps the barcode index exact.
use mathlib.Core.Path.{subst₂}
use pos_agent.Base.{
  ◌≡◌, ◌≢◌, refl, sym, ap, ◌∙◌, fun_ext, Bool, true, false, ◌&&◌, not, Option, none, some, [], Text,
  text_eq, if◌then◌else◌, arith, inl, inr, Bool-cases,
}
use pos_agent.Base.Int.{eqb_ℤ, pos}
use pos_agent.Bolt.{Bolt, IsLawful}
use pos_agent.Domain.{Time, Product, ProductDraft}
use pos_agent.Boltstore.Db.{Db, Draws, committed}
use pos_agent.Boltstore.Products.{
  index_barcode, drop_barcode, put_product, record_added, add_product, new_product, not_empty,
  is_some,
}
use pos_agent.Boltstore.Products.Index.{
  Indexed, IndexedBut, upd, dropped, IndexedBut-of_absent, Indexed-put, Indexed-put_unnamed,
}

-- The index of the database holds exactly the barcodes of its active products.
abbrev pub IsIndexed : {B : Bolt} → Db B → Type 0
IsIndexed {B} db = Indexed (B.get Product db.products) (B.get Text db.barcode_idx)

-- The catalogue and the index alone decide it.
pub IsIndexed-same :
    {B : Bolt} (a b : Db B)
    → b.products ≡ a.products
    → b.barcode_idx ≡ a.barcode_idx
    → IsIndexed a
    → IsIndexed b
IsIndexed-same a b e f h = rw (e, f) h

abbrev pub indexed : Text → Text → (Text → Option Text) → Text → Option Text
indexed barcode id X = if not_empty barcode then upd barcode id X else X

module _ {B : Bolt} (L : IsLawful B) (db : Db B) where
  pub get-put_product :
      (id : Text) (p : Product)
      → B.get Product (put_product id p db).products ≡ upd id p (B.get Product db.products)
  unfolding put_product
  get-put_product id p = fun_ext (L.get-put Product db.products id p)

  pub get-index_barcode :
      (barcode id : Text)
      → B.get Text (index_barcode barcode id db).barcode_idx
        ≡ indexed barcode id (B.get Text db.barcode_idx)
  unfolding index_barcode
  get-index_barcode barcode id = elim (Bool-cases (not_empty barcode)) [
    | inl given ↦ rw given (fun_ext (L.get-put Text db.barcode_idx barcode id))
    | inr empty ↦ rw empty
  ]

  pub get-drop_barcode :
      (barcode : Text)
      → B.get Text (drop_barcode barcode db).barcode_idx
        ≡ dropped barcode (B.get Text db.barcode_idx)
  unfolding drop_barcode
  get-drop_barcode barcode = elim (Bool-cases (not_empty barcode)) [
    | inl given ↦ rw given (fun_ext (L.get-delete Text db.barcode_idx barcode))
    | inr empty ↦ rw empty
  ]

module _ {B : Bolt} (db : Db B) where
  pub products-index_barcode :
      (barcode id : Text) → (index_barcode barcode id db).products ≡ db.products
  unfolding index_barcode
  products-index_barcode barcode id = elim (Bool-cases (not_empty barcode)) [
    | inl given ↦ rw given
    | inr empty ↦ rw empty
  ]

  pub products-drop_barcode : (barcode : Text) → (drop_barcode barcode db).products ≡ db.products
  unfolding drop_barcode
  products-drop_barcode barcode = elim (Bool-cases (not_empty barcode)) [
    | inl given ↦ rw given
    | inr empty ↦ rw empty
  ]

  record_added_same :
      (now : Time) (draws : Draws) (d : ProductDraft) (p : Product)
      → ((record_added now draws d p db).products ≡ db.products)
        × ((record_added now draws d p db).barcode_idx ≡ db.barcode_idx)
  unfolding record_added
  record_added_same now draws d p =
      elim (Bool-cases (d.track_stock && not (eqb_ℤ d.stock (pos 0)))) [
        | inl counted ↦ (rw counted, rw counted)
        | inr free ↦ (rw free, rw free)
      ]

pub not_empty-false : (s : Text) → s ≡ [] → not_empty s ≡ false
not_empty-false s e = ground arith

pub not_empty-true : (s : Text) → s ≢ [] → not_empty s ≡ true
not_empty-true s ne = ground arith

module _ {B : Bolt} (L : IsLawful B) (db : Db B) where
  -- A product that the index does not name is stored and indexed.
  pub stored-IsIndexed :
      (p : Product)
      → IndexedBut p.id (B.get Product db.products) (B.get Text db.barcode_idx)
      → p.active ≡ true
      → (p.barcode ≢ [] → B.get Text db.barcode_idx p.barcode ≡ none)
      → IsIndexed (index_barcode p.barcode p.id (put_product p.id p db))
  unfolding put_product
  stored-IsIndexed p but active free =
      subst₂ Indexed
        (sym (
          ap (B.get Product) (products-index_barcode (put_product p.id p db) p.barcode p.id)
          ∙ get-put_product L db p.id p))
        (sym (get-index_barcode L (put_product p.id p db) p.barcode p.id))
        (elim (text_eq.dec p.barcode []) [
          | yes plain ↦
              rw (not_empty-false p.barcode plain) (Indexed-put_unnamed p but (λ _. plain))
          | no ne ↦ rw (not_empty-true p.barcode ne) (Indexed-put p but active ne (free ne))
        ])

-- What `AddProduct` tests before it takes a barcode.
free_of_test :
    (barcode : Text) (o : Option Text)
    → (not_empty barcode && is_some o) ≡ false
    → barcode ≢ []
    → o ≡ none
free_of_test barcode none test ne = refl
free_of_test barcode (some id) test ne = ground arith

module _ {B : Bolt} (L : IsLawful B) (now : Time) (draws : Draws) (db : Db B)
    (h : IsIndexed db) where
  added_same :
      (pending : Bool) (a : Db B) (p : Product) (d : ProductDraft)
      → IsIndexed a
      → IsIndexed (if pending then record_added now draws d p a else a)
  added_same true a p d i =
      let (e, f) = record_added_same a now draws d p in
      IsIndexed-same a (record_added now draws d p a) e f i
  added_same false a p d i = i

  -- `AddProduct`, and `addProduct` of a seed item, keep the barcode index exact, whether they store
  -- the product or refuse its barcode; the new UUID must be no product's.
  pub add_product-IsIndexed :
      (pending : Bool) (d : ProductDraft)
      → B.get Product db.products draws.record_id ≡ none
      → IsIndexed (committed db (add_product now draws pending d db))
  unfolding add_product
  add_product-IsIndexed pending d fresh =
      let p = new_product now draws.record_id d in
      let stored = index_barcode d.barcode draws.record_id (put_product draws.record_id p db) in
      elim (Bool-cases (not_empty d.barcode && is_some (B.get Text db.barcode_idx d.barcode))) [
        | inl taken ↦ rw taken h
        | inr test ↦ rw test (
            added_same pending stored p d (
              stored-IsIndexed L db p (IndexedBut-of_absent h draws.record_id fresh) refl
                (free_of_test d.barcode (B.get Text db.barcode_idx d.barcode) test)))
      ]
