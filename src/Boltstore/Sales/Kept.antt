-- ===== src/Boltstore/Sales/Kept.antt =====
-- internal/store/boltstore/boltstore.go, `CreateSale`: what a completed sale leaves in the database.
use pos_agent.Base.{◌≡◌, sym, ap, subst, ◌∙◌, none, some, Text, text_eq, arith, In}
use pos_agent.Bolt.{Bolt, IsLawful}
use pos_agent.Domain.{Time, Sale, SaleInput}
use pos_agent.Boltstore.Db.{Db, ok}
use pos_agent.Boltstore.Outbox.{pending_sales}
use pos_agent.Boltstore.Outbox.Marks.{In-outbox}
use pos_agent.Boltstore.Sales.{create_sale, sale_of, put_sale, mark_sale_pending, sale_by_id}
use pos_agent.Boltstore.Sales.Sold.{create_sale_allowed}
use pos_agent.Boltstore.Sales.References.{IsRefIndexed, NulFree}
use pos_agent.Boltstore.Sales.Referenced.{put_sale-sales, put_sale-IsRefIndexed}

marked-IsRefIndexed :
    {B : Bolt} (id : Text) (db : Db B) → IsRefIndexed db → IsRefIndexed (mark_sale_pending id db)
unfolding mark_sale_pending
marked-IsRefIndexed id db h = record {
  own_id = h.own_id;
  plain_id = h.plain_id;
  sound = h.sound;
  complete = h.complete;
}

module _ {B : Bolt} (L : IsLawful B) (db : Db B) (now : Time) (sale_id : Text)
    (input : SaleInput) where
  module _ (r : Sale × Db B) (done : create_sale now sale_id input db ≡ ok r) where
    stored : r.1 ≡ mark_sale_pending sale_id (put_sale r.0 db)
    stored = let (items, allowed, sale, e) = create_sale_allowed db now sale_id input r done in e

    named : r.0.id ≡ sale_id
    unfolding sale_of
    named =
        let (items, allowed, sale, e) = create_sale_allowed db now sale_id input r done in
        ap (λ (s : Sale). s.id) sale

    sales_then : (j : Text) → B.get Sale r.1.sales j ≡ B.get Sale (put_sale r.0 db).sales j
    unfolding mark_sale_pending
    sales_then j = ap (λ (d : Db B). B.get Sale d.sales j) stored

    found_then : B.get Sale r.1.sales sale_id ≡ some r.0
    found_then = sales_then sale_id ∙ ground (arith, put_sale-sales L db r.0 sale_id, named)

    marked_then : B.get Unit r.1.pending_sales sale_id ≡ some tt
    unfolding mark_sale_pending put_sale
    marked_then =
        ap (λ (d : Db B). B.get Unit d.pending_sales sale_id) stored
        ∙ ground (arith, L.get-put Unit (put_sale r.0 db).pending_sales sale_id tt sale_id)

    -- A sale that `CreateSale` returned is found under its id, and waits to be pushed.
    pub create_sale-kept : (sale_by_id sale_id r.1 ≡ some r.0) × In r.0 (pending_sales r.1)
    unfolding sale_by_id pending_sales
    create_sale-kept = (
      found_then,
      (In-outbox L r.0 (B.get Sale r.1.sales) r.1.pending_sales).1
          (sale_id, marked_then, found_then),
    )

    -- Completing a sale under a new id without a NUL byte keeps the reference index exact.
    pub create_sale-IsRefIndexed :
        IsRefIndexed db → B.get Sale db.sales sale_id ≡ none → NulFree sale_id → IsRefIndexed r.1
    create_sale-IsRefIndexed indexed fresh plain = subst IsRefIndexed (sym stored) (
        marked-IsRefIndexed sale_id (put_sale r.0 db)
          (put_sale-IsRefIndexed L db r.0 indexed (rw named fresh) (rw named plain)))
