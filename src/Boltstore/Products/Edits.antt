-- ===== src/Boltstore/Products/Edits.antt =====
-- internal/store/boltstore/boltstore.go: `UpdateProduct` and `DeleteProduct` of an active product
-- keep the barcode index exact.
use mathlib.Core.Path.{subst₂}
use pos_agent.Base.{
  ◌≡◌, ◌≢◌, refl, sym, ap, ◌∙◌, subst, Bool, true, false, ◌||◌, not, Option, none, some, [], Text,
  text_eq, ◌==◌, if◌then◌else◌, arith, inl, inr, Bool-cases, Option-cases,
}
use pos_agent.Base.Int.{eqb_ℤ, pos, ℤ, sub32}
use pos_agent.Bolt.{Bolt, IsLawful}
use pos_agent.Domain.{Time, Product, ProductDraft}
use pos_agent.Boltstore.Db.{Db, Draws, committed}
use pos_agent.Boltstore.Stock.{on_hand_of}
use pos_agent.Boltstore.Products.{
  index_barcode, drop_barcode, put_product, not_empty, edited, tombstone, is_taken, update_product,
  update_found, delete_product, log_edit, correct_stock, mark_product_pending, is_visible_edit,
}
use pos_agent.Boltstore.Products.Index.{
  Indexed, IndexedBut, upd-del, dropped, IndexedBut-dropped, Indexed-put_unnamed, named_barcode,
}
use pos_agent.Boltstore.Products.Barcodes.{
  IsIndexed, IsIndexed-same, indexed, get-put_product, get-index_barcode, get-drop_barcode,
  products-index_barcode, products-drop_barcode, stored-IsIndexed,
}

module _ {B : Bolt} (now : Time) (draws : Draws) (d : ProductDraft) (db : Db B) where
  log_edit_same :
      (old : Product)
      → ((log_edit now draws d old db).products ≡ db.products)
        × ((log_edit now draws d old db).barcode_idx ≡ db.barcode_idx)
  unfolding log_edit
  log_edit_same old = elim (Bool-cases (is_visible_edit d old)) [
    | inl visible ↦ (rw visible, rw visible)
    | inr hidden ↦ (rw hidden, rw hidden)
  ]

  correct_stock_same :
      (id : Text) (n : ℤ)
      → ((correct_stock now draws id d n db).products ≡ db.products)
        × ((correct_stock now draws id d n db).barcode_idx ≡ db.barcode_idx)
  unfolding correct_stock
  correct_stock_same id n =
      elim (Bool-cases (not d.track_stock || eqb_ℤ (sub32 d.stock n) (pos 0))) [
        | inl skip ↦ (rw skip, rw skip)
        | inr corrected ↦ (rw corrected, rw corrected)
      ]

is_own : (id barcode cur : Text) → is_taken id barcode (some cur) ≡ false → barcode ≢ [] → cur ≡ id
unfolding is_taken
is_own id barcode cur free ne = ground arith

dropped_absent :
    (old barcode : Text) (X : Text → Option Text) → X barcode ≡ none → dropped old X barcode ≡ none
dropped_absent old barcode X absent = ground arith

dropped_own :
    (old barcode : Text) (X : Text → Option Text)
    → barcode ≢ []
    → old ≡ barcode
    → dropped old X barcode ≡ none
dropped_own old barcode X ne e = ground arith

-- To drop a barcode and to index it again is to index it.
indexed-dropped :
    (barcode id : Text) (X : Text → Option Text)
    → indexed barcode id (dropped barcode X) ≡ indexed barcode id X
indexed-dropped barcode id X = elim (Bool-cases (not_empty barcode)) [
  | inl given ↦ rw given (upd-del barcode id X)
  | inr empty ↦ rw empty
]

module _ {B : Bolt} (L : IsLawful B) (db : Db B) (h : IsIndexed db) (id : Text) (old : Product)
    (known : B.get Product db.products id ≡ some old) (active : old.active ≡ true) where
  own : old.id ≡ id
  own = h.own_id id old known

  -- With the old barcode dropped the index does not name the product.
  dropped-IndexedBut :
      IndexedBut old.id
        (B.get Product (drop_barcode old.barcode db).products)
        (B.get Text (drop_barcode old.barcode db).barcode_idx)
  dropped-IndexedBut =
      rw (own, products-drop_barcode db old.barcode, get-drop_barcode L db old.barcode)
        (IndexedBut-dropped h id old known active)

  free_when_dropped :
      (barcode : Text)
      → is_taken id barcode (B.get Text db.barcode_idx barcode) ≡ false
      → barcode ≢ []
      → B.get Text (drop_barcode old.barcode db).barcode_idx barcode ≡ none
  free_when_dropped barcode free ne =
      rw (get-drop_barcode L db old.barcode)
        (elim (Option-cases (B.get Text db.barcode_idx barcode)) [
          | inl absent ↦ dropped_absent old.barcode barcode _ absent
          | inr (cur, e) ↦
              let same : cur ≡ id = is_own id barcode cur (rw e at free) ne in
              dropped_own old.barcode barcode _ ne
                (named_barcode h id barcode old known (e ∙ ap some same))
        ])

  deleted_IsIndexed :
      (now : Time) → IsIndexed (put_product id (tombstone now old) (drop_barcode old.barcode db))
  unfolding tombstone put_product
  deleted_IsIndexed now =
      let p = tombstone now old in
      subst (λ k. IsIndexed (put_product k p (drop_barcode old.barcode db))) own
        (subst (λ P. Indexed P (B.get Text (drop_barcode old.barcode db).barcode_idx))
          (sym (get-put_product L (drop_barcode old.barcode db) old.id p))
          (Indexed-put_unnamed p dropped-IndexedBut (λ e. ground arith)))

  module _ (now : Time) (draws : Draws) (d : ProductDraft) where
    -- The writes of the product over a database in which its old barcode was dropped.
    over_dropped :
        is_taken id d.barcode (B.get Text db.barcode_idx d.barcode) ≡ false
        → IsIndexed (
            index_barcode d.barcode id
              (put_product id (edited now d old) (drop_barcode old.barcode db)))
    unfolding edited
    over_dropped free =
        subst
          (λ k. IsIndexed (
            index_barcode d.barcode k
              (put_product k (edited now d old) (drop_barcode old.barcode db))))
          own
          (stored-IsIndexed L (drop_barcode old.barcode db) (edited now d old) dropped-IndexedBut
            active (free_when_dropped d.barcode free))

    -- With the barcode kept nothing is dropped first, and the result is the same.
    over_kept :
        (old.barcode ≡ d.barcode)
        → IsIndexed (
            index_barcode d.barcode id
              (put_product id (edited now d old) (drop_barcode old.barcode db)))
        → IsIndexed (index_barcode d.barcode id (put_product id (edited now d old) db))
    unfolding put_product
    over_kept kept i =
        let e = edited now d old in
        let over = put_product id e (drop_barcode old.barcode db) in
        let plain = put_product id e db in
        let X = B.get Text db.barcode_idx in
        subst₂ Indexed
          (ap (B.get Product) (
            products-index_barcode over d.barcode id
            ∙ ap (λ b. B.put Product b id e) (products-drop_barcode db old.barcode)
            ∙ sym (products-index_barcode plain d.barcode id)))
          (get-index_barcode L over d.barcode id
            ∙ ap (indexed d.barcode id)
                (get-drop_barcode L db old.barcode ∙ ap (λ s. dropped s X) kept)
            ∙ indexed-dropped d.barcode id X
            ∙ sym (get-index_barcode L plain d.barcode id))
          i

    freed_IsIndexed :
        (b : Bool)
        → (b ≡ false → old.barcode ≡ d.barcode)
        → is_taken id d.barcode (B.get Text db.barcode_idx d.barcode) ≡ false
        → IsIndexed (
            index_barcode d.barcode id
              (put_product id (edited now d old) (if b then drop_barcode old.barcode db else db)))
    freed_IsIndexed true kept free = over_dropped free
    freed_IsIndexed false kept free = over_kept (kept refl) (over_dropped free)

    update_found-IsIndexed :
        is_taken id d.barcode (B.get Text db.barcode_idx d.barcode) ≡ false
        → IsIndexed (update_found now draws id d old db).1
    unfolding update_found
    update_found-IsIndexed free =
        let changed = not (old.barcode == d.barcode) in
        let stored = index_barcode d.barcode id (
          put_product id (edited now d old)
            (if changed then drop_barcode old.barcode db else db)) in
        let logged = log_edit now draws d old stored in
        let marked = mark_product_pending id logged in
        let n = on_hand_of id db in
        let (e, f) = log_edit_same now draws d stored old in
        let (e', f') = correct_stock_same now draws d marked id n in
        IsIndexed-same marked (correct_stock now draws id d n marked) e' f'
          (IsIndexed-same stored marked e f (freed_IsIndexed changed (λ same. ground arith) free))

    -- `UpdateProduct` of an active product keeps the barcode index exact, whether it stores the
    -- edit or refuses the barcode.
    pub update_product-IsIndexed : IsIndexed (committed db (update_product now draws id d db))
    unfolding update_product
    update_product-IsIndexed =
        elim (Bool-cases (is_taken id d.barcode (B.get Text db.barcode_idx d.barcode))) [
          | inl taken ↦ rw (known, taken) h
          | inr free ↦ rw (known, free) (update_found-IsIndexed free)
        ]

    -- `DeleteProduct` of an active product keeps the barcode index exact.
    pub delete_product-IsIndexed : IsIndexed (committed db (delete_product now draws id db))
    unfolding delete_product
    delete_product-IsIndexed = rw known (deleted_IsIndexed now)
