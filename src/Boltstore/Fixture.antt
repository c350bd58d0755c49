-- ===== src/Boltstore/Fixture.antt =====
-- internal/store/boltstore: a small shop that the tests run on, made by the operations themselves.
use pos_agent.Base.{◌≡◌, refl, true, none, some, List, [], ◌∷◌, Text, text, text_eq, arith}
use pos_agent.Base.Int.{pos, wrap64, ◌+ℤ◌, ◌*ℤ◌}
use pos_agent.Bolt.Memory.{memory, memory-IsLawful}
use pos_agent.Domain.{Product, ProductDraft, Sale, SaleItem, SaleInput}
use pos_agent.Tax.{compute_tax, tax_round}
use pos_agent.Boltstore.Db.{ok, Db, Draws, init, committed}
use pos_agent.Boltstore.Products.{add_product}
use pos_agent.Boltstore.Products.Barcodes.{IsIndexed, add_product-IsIndexed}
use pos_agent.Boltstore.Sales.{
  create_sale, sale_item, tax_from_bucket, sale_of, put_sale, mark_sale_pending,
}
use pos_agent.Boltstore.Sales.References.{IsRefIndexed, NulFree}
use pos_agent.Boltstore.Sales.Kept.{create_sale-IsRefIndexed}
use pos_agent.Boltstore.Sales.Completing.{create_sale_completes, MayComplete, charged}

abbrev pub bread_id : Text
bread_id = text "p1"

abbrev pub bread_draft : ProductDraft
bread_draft = record {
  name = text "Bread";
  price_cents = pos 250;
  barcode = text "5901";
  track_stock = true;
  stock = pos 10;
  taxable = true;
}

abbrev pub dear_draft : ProductDraft
dear_draft = record bread_draft { price_cents = pos 300; barcode = text "5902"; stock = pos 4 }

abbrev pub opening : Draws
opening = record {
  record_id = bread_id;
  event_id = text "e1";
  audit_id = text "a1";
  audit_id' = text "a2";
}

abbrev pub later_draws : Draws
later_draws = record {
  record_id = text "p2";
  event_id = text "e2";
  audit_id = text "a3";
  audit_id' = text "a4";
}

abbrev pub bread : Product
bread = record {
  id = bread_id;
  name = text "Bread";
  price_cents = pos 250;
  barcode = text "5901";
  track_stock = true;
  stock = pos 10;
  taxable = true;
  active = true;
  updated_at = 5;
  deleted_at = none;
}

-- The shop after one `AddProduct` on a new file.
unfoldable pub shop : Db memory
unfolding add_product memory init
shop = committed (init memory) (add_product 5 opening true bread_draft (init memory))

pub bread_known : memory.get Product shop.products bread_id ≡ some bread
unfolding shop memory text_eq
bread_known = refl

pub init-IsIndexed : IsIndexed (init memory)
unfolding memory init
init-IsIndexed = record {
  own_id = λ id p e. cc;
  sound = λ code id e. cc;
  complete = λ id p e a n. cc;
  nonempty = refl;
}

pub shop-IsIndexed : IsIndexed shop
unfolding shop memory init
shop-IsIndexed =
    add_product-IsIndexed memory-IsLawful 5 opening (init memory) init-IsIndexed true bread_draft
      refl

abbrev pub three_breads : SaleInput
three_breads = record {
  lines = record { product_id = bread_id; qty = pos 3 } ∷ [];
  paid_cents = pos 1000;
  payment_method = [];
  reference = text "R1";
}

abbrev pub bread_lines : List SaleItem
bread_lines = sale_item bread (pos 3) ∷ []

pub shop-MayComplete : MayComplete shop three_breads bread_lines
unfolding shop memory text_eq sale_item compute_tax tax_from_bucket tax_round wrap64 ◌+ℤ◌ ◌*ℤ◌
shop-MayComplete = record {
  some_line = ground arith;
  positive = (omega arith, tt);
  snapshots = ((bread, refl, refl), tt);
  paid = omega arith;
}

abbrev pub sale_id : Text
sale_id = text "s1"

abbrev pub bread_sale : Sale
bread_sale = sale_of 6 sale_id three_breads (tax_from_bucket shop) (charged shop bread_lines)

abbrev pub sold : Sale × Db memory
sold = (bread_sale, mark_sale_pending sale_id (put_sale bread_sale shop))

pub sold_done : create_sale 6 sale_id three_breads shop ≡ ok sold
sold_done = create_sale_completes shop 6 sale_id three_breads bread_lines shop-MayComplete

pub sale_fresh : memory.get Sale shop.sales sale_id ≡ none
unfolding shop memory text_eq
sale_fresh = refl

pub shop-IsRefIndexed : IsRefIndexed shop
unfolding shop memory text_eq
shop-IsRefIndexed = record {
  own_id = λ id s e. cc;
  plain_id = λ id s e. cc;
  sound = λ key e. cc;
  complete = λ id s e n. cc;
}

pub sale_id-NulFree : NulFree sale_id
sale_id-NulFree = (ground arith, (ground arith, tt))

pub sold-IsRefIndexed : IsRefIndexed sold.1
sold-IsRefIndexed =
    create_sale-IsRefIndexed memory-IsLawful shop 6 sale_id three_breads sold sold_done
      shop-IsRefIndexed sale_fresh sale_id-NulFree
