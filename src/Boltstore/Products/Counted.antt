-- ===== src/Boltstore/Products/Counted.antt =====
-- internal/store/boltstore/boltstore.go: the stock after `AddProduct` and `UpdateProduct`, which
-- write it only as events.
use pos_agent.Base.{
  ◌≡◌, refl, sym, ◌∙◌, ap, true, false, not, none, some, Text, text_eq, ◌==◌, if◌then◌else◌, arith,
  inl, inr, Bool-cases,
}
use pos_agent.Base.Int.{
  ℤ, pos, ◌-ℤ◌, add32, sub32, eqb_ℤ, wrap32, wrap32_self, wrap32-add_right, InInt32, eq_of_parts,
  int_laws,
}
use pos_agent.Bolt.{Bolt, IsLawful}
use pos_agent.Domain.{Time, StockEvent, Product, ProductDraft, adjustment}
use pos_agent.Boltstore.Db.{Db, Draws, ok}
use pos_agent.Boltstore.Stock.{on_hand_of, append_stock_event}
use pos_agent.Boltstore.Stock.Restock.{
  on_hand_same, on_hand-append_self, on_hand_of-InInt32, add32_zero,
}
use pos_agent.Boltstore.Products.Frame.{
  SameRest, SameRest-trans, put_product-SameRest, index_barcode-SameRest, freed-SameRest,
  log_edit-SameRest, mark_product_pending-SameRest,
}
use pos_agent.Boltstore.Products.{
  correct_stock, update_found, update_product, is_taken, index_barcode, drop_barcode, log_edit,
  put_product, mark_product_pending, edited,
}

-- Correcting by the difference reaches the wanted count.
add_difference : (a b : ℤ) → InInt32 b → add32 a (sub32 b a) ≡ b
add_difference a b h = wrap32-add_right a (b -ℤ a) ∙ ap wrap32 (omega int_laws) ∙ wrap32_self b h

no_difference : (a b : ℤ) → InInt32 a → InInt32 b → sub32 b a ≡ pos 0 → a ≡ b
no_difference a b ha hb e = sym (add32_zero a ha) ∙ ap (add32 a) (sym e) ∙ add_difference a b hb

module _ {B : Bolt} (L : IsLawful B) (now : Time) (draws : Draws) (id : Text)
    (d : ProductDraft) where
  abbrev correcting_event : ℤ → StockEvent
  correcting_event before = record {
    id = draws.event_id;
    product_id = id;
    delta = sub32 d.stock before;
    reason = adjustment;
    created_at = now;
  }

  corrected_on_hand :
      (db : Db B)
      → B.get StockEvent db.stock_events draws.event_id ≡ none
      → d.track_stock ≡ true
      → InInt32 d.stock
      → on_hand_of id (correct_stock now draws id d (on_hand_of id db) db) ≡ d.stock
  unfolding correct_stock
  corrected_on_hand db fresh tracked h =
      elim (Bool-cases (eqb_ℤ (sub32 d.stock (on_hand_of id db)) (pos 0))) [
        | inl same ↦
            rw (tracked, same)
              (no_difference _ d.stock (on_hand_of-InInt32 id db) h
                (eq_of_parts _ (pos 0) (ground arith)))
        | inr differs ↦
            rw (tracked, differs)
              (on_hand_same id _ (append_stock_event (correcting_event (on_hand_of id db)) db) refl
                  refl
                ∙ on_hand-append_self L db (correcting_event (on_hand_of id db)) fresh
                ∙ add_difference (on_hand_of id db) d.stock h)
      ]

-- The database of `UpdateProduct` before the stock is corrected.
marked : {B : Bolt} → Time → Draws → Text → ProductDraft → Product → Db B → Db B
marked now draws id d old db = mark_product_pending id (
    log_edit now draws d old (
      index_barcode d.barcode id (
        put_product id (edited now d old)
          (if not (old.barcode == d.barcode) then drop_barcode old.barcode db else db))))

marked-SameRest :
    {B : Bolt} (now : Time) (draws : Draws) (id : Text) (d : ProductDraft) (old : Product)
    (db : Db B)
    → SameRest db (marked now draws id d old db)
unfolding marked
marked-SameRest now draws id d old db =
    SameRest-trans (freed-SameRest (not (old.barcode == d.barcode)) old.barcode db) (
      SameRest-trans (put_product-SameRest id (edited now d old) _) (
        SameRest-trans (index_barcode-SameRest d.barcode id _) (
          SameRest-trans (log_edit-SameRest now draws d old _)
            (mark_product_pending-SameRest id _))))

module _ {B : Bolt} (L : IsLawful B) (now : Time) (draws : Draws) (id : Text) (d : ProductDraft)
    (old : Product) (db : Db B) where
  -- `UpdateProduct` of a known product, with a barcode that is no other product's, stock tracking
  -- on and a count of 32 bits, succeeds, and the stock is then exactly the count that was entered,
  -- whatever it was before; the product returned shows that count. The event's UUID must be new.
  pub update_product-on_hand :
      B.get Product db.products id ≡ some old
      → is_taken id d.barcode (B.get Text db.barcode_idx d.barcode) ≡ false
      → B.get StockEvent db.stock_events draws.event_id ≡ none
      → d.track_stock ≡ true
      → InInt32 d.stock
      → (r : Product × Db B) × (update_product now draws id d db ≡ ok r)
        × (on_hand_of id r.1 ≡ d.stock)
        × (r.0.stock ≡ d.stock)
  unfolding update_product marked
  update_product-on_hand known free fresh tracked h =
      let rest = marked-SameRest now draws id d old db in
      let same = on_hand_same id (marked now draws id d old db) db rest.stock_events rest.sales in
      (
        update_found now draws id d old db,
        rw (known, free),
        rw (← same) (
            corrected_on_hand L now draws id d (marked now draws id d old db)
              (rw rest.stock_events fresh) tracked h),
        rw tracked,
      )
