-- ===== src/Boltstore/Products/Frame.antt =====
-- internal/store/boltstore/boltstore.go: what the writes of the catalogue leave alone.
use pos_agent.Base.{◌≡◌, refl, ◌∙◌, Bool, true, false, Text, text_eq, if◌then◌else◌, List}
use pos_agent.Bolt.{Bolt}
use pos_agent.Domain.{AuditEntry, Time, Product, ProductDraft}
use pos_agent.Boltstore.Db.{Db, Draws}
use pos_agent.Boltstore.Products.{
  index_barcode, drop_barcode, log_edit, is_visible_edit, put_product, mark_product_pending,
  not_empty,
}

-- Everything but the catalogue, its index, its outbox and the activity log.
pub record SameRest {B : Bolt} (a b : Db B) : Type 0 where
  pub stock_events : b.stock_events ≡ a.stock_events
  pub sales : b.sales ≡ a.sales
  pub settings : b.settings ≡ a.settings
  pub blobs : b.blobs ≡ a.blobs
  pub ref_idx : b.ref_idx ≡ a.ref_idx
  pub sync_state : b.sync_state ≡ a.sync_state
  pub pending_sales : b.pending_sales ≡ a.pending_sales
  pub pending_stockev : b.pending_stockev ≡ a.pending_stockev

module _ {B : Bolt} where
  pub SameRest-refl : (a : Db B) → SameRest a a
  SameRest-refl a = record {
    stock_events = refl;
    sales = refl;
    settings = refl;
    blobs = refl;
    ref_idx = refl;
    sync_state = refl;
    pending_sales = refl;
    pending_stockev = refl;
  }

  pub SameRest-trans : {a b c : Db B} → SameRest a b → SameRest b c → SameRest a c
  SameRest-trans f g = record {
    stock_events = g.stock_events ∙ f.stock_events;
    sales = g.sales ∙ f.sales;
    settings = g.settings ∙ f.settings;
    blobs = g.blobs ∙ f.blobs;
    ref_idx = g.ref_idx ∙ f.ref_idx;
    sync_state = g.sync_state ∙ f.sync_state;
    pending_sales = g.pending_sales ∙ f.pending_sales;
    pending_stockev = g.pending_stockev ∙ f.pending_stockev;
  }

  SameRest-if :
      (b : Bool) (a x y : Db B) → SameRest a x → SameRest a y → SameRest a (if b then x else y)
  SameRest-if true a x y f g = f
  SameRest-if false a x y f g = g

  -- A write to the catalogue, its index, its outbox or the log.
  written :
      (a : Db B) (products : B.Bucket Product) (barcode_idx : B.Bucket Text) (marks : B.Bucket Unit)
      (audit : List AuditEntry)
      → SameRest a (record a {
        products = products;
        barcode_idx = barcode_idx;
        pending_prods = marks;
        audit = audit;
      })
  written a products barcode_idx marks audit = record {
    stock_events = refl;
    sales = refl;
    settings = refl;
    blobs = refl;
    ref_idx = refl;
    sync_state = refl;
    pending_sales = refl;
    pending_stockev = refl;
  }

  pub put_product-SameRest : (id : Text) (p : Product) (a : Db B) → SameRest a (put_product id p a)
  unfolding put_product
  put_product-SameRest id p a = written a _ a.barcode_idx a.pending_prods a.audit

  pub index_barcode-SameRest :
      (barcode id : Text) (a : Db B) → SameRest a (index_barcode barcode id a)
  unfolding index_barcode
  index_barcode-SameRest barcode id a =
      SameRest-if (not_empty barcode) a _ a (written a a.products _ a.pending_prods a.audit)
        (SameRest-refl a)

  pub drop_barcode-SameRest : (barcode : Text) (a : Db B) → SameRest a (drop_barcode barcode a)
  unfolding drop_barcode
  drop_barcode-SameRest barcode a =
      SameRest-if (not_empty barcode) a _ a (written a a.products _ a.pending_prods a.audit)
        (SameRest-refl a)

  pub freed-SameRest :
      (b : Bool) (barcode : Text) (a : Db B) → SameRest a (if b then drop_barcode barcode a else a)
  freed-SameRest b barcode a =
      SameRest-if b a _ a (drop_barcode-SameRest barcode a) (SameRest-refl a)

  pub log_edit-SameRest :
      (now : Time) (draws : Draws) (d : ProductDraft) (old : Product) (a : Db B)
      → SameRest a (log_edit now draws d old a)
  unfolding log_edit
  log_edit-SameRest now draws d old a =
      SameRest-if (is_visible_edit d old) a _ a
        (written a a.products a.barcode_idx a.pending_prods _) (SameRest-refl a)

  pub mark_product_pending-SameRest :
      (id : Text) (a : Db B) → SameRest a (mark_product_pending id a)
  unfolding mark_product_pending
  mark_product_pending-SameRest id a = written a a.products a.barcode_idx _ a.audit
