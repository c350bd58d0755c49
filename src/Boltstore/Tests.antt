-- ===== src/Boltstore/Tests.antt =====
-- internal/store/boltstore: the operations on the small shop of Fixture.
use pos_agent.Base.{
  ◌≡◌, ◌↔◌, refl, true, false, none, some, List, Text, text, text_eq, arith, In, ◌==◌,
  if◌then◌else◌,
}
use pos_agent.Base.Int.{pos, sub32, add32}
use pos_agent.Bolt.Memory.{memory, memory-IsLawful}
use pos_agent.Domain.{Product, Sale, SaleItem, StockEvent}
use pos_agent.Boltstore.Db.{Db, committed, ok}
use pos_agent.Boltstore.Fixture.{
  bread_id, dear_draft, later_draws, bread, shop, bread_known, shop-IsIndexed, three_breads,
  bread_lines, shop-MayComplete, sale_id, bread_sale, sold, sold_done, sale_fresh,
  shop-IsRefIndexed, sale_id-NulFree, sold-IsRefIndexed,
}
use pos_agent.Boltstore.Stock.{stock_totals, on_hand_of, max0, restock_product}
use pos_agent.Boltstore.Stock.Sums.{items_sum}
use pos_agent.Boltstore.Stock.OnHand.{stock_totals-on_hand}
use pos_agent.Boltstore.Stock.Restock.{restock_product-on_hand}
use pos_agent.Boltstore.Products.{
  is_taken, update_product, delete_product, add_product, product_by_barcode,
}
use pos_agent.Boltstore.Products.Barcodes.{IsIndexed, add_product-IsIndexed}
use pos_agent.Boltstore.Products.Edits.{update_product-IsIndexed, delete_product-IsIndexed}
use pos_agent.Boltstore.Products.Scan.{delete_product_again}
use pos_agent.Boltstore.Products.Scanned.{
  IsShown, IsIndexed-IsScannable, product_by_barcode-IsShown,
}
use pos_agent.Boltstore.Products.Counted.{update_product-on_hand}
use pos_agent.Boltstore.Sales.{
  create_sale, sale_of, tax_from_bucket, put_sale, mark_sale_pending, sales_by_reference,
}
use pos_agent.Boltstore.Sales.Completing.{charged, MayComplete}
use pos_agent.Boltstore.Sales.Sold.{create_sale_allowed, create_sale-on_hand}
use pos_agent.Boltstore.Sales.References.{sales_by_reference_exact, IsRefIndexed}
use pos_agent.Boltstore.Sales.Recorded.{IsSaleOf, IsKept, create_sale-IsSaleOf}
use pos_agent.Boltstore.Sales.Kept.{create_sale-IsRefIndexed}

create_sale-IsSaleOf_example :
    (sale : Sale) × (after : Db memory) × (create_sale 6 sale_id three_breads shop
      ≡ ok (sale, after))
    × IsSaleOf shop 6 sale_id three_breads sale
    × IsKept shop sale after
create_sale-IsSaleOf_example =
    create_sale-IsSaleOf shop memory-IsLawful 6 sale_id three_breads bread_lines shop-MayComplete

create_sale_allowed_example :
    (items : List SaleItem) × MayComplete shop three_breads items
    × (sold.0 ≡ sale_of 6 sale_id three_breads (tax_from_bucket shop) (charged shop items))
    × (sold.1 ≡ mark_sale_pending sale_id (put_sale sold.0 shop))
create_sale_allowed_example = create_sale_allowed shop 6 sale_id three_breads sold sold_done

create_sale-on_hand_example :
    on_hand_of bread_id sold.1 ≡ sub32 (on_hand_of bread_id shop) (items_sum bread_id sold.0.items)
create_sale-on_hand_example =
    create_sale-on_hand memory-IsLawful shop 6 sale_id three_breads sold bread_id sale_fresh
      sold_done

bread_at : memory.get Product shop.products bread_id ≡ some bread
bread_at = bread_known

event_fresh : memory.get StockEvent shop.stock_events (text "e2") ≡ none
unfolding shop memory text_eq
event_fresh = refl

barcode_free :
    is_taken bread_id (text "5902") (memory.get Text shop.barcode_idx (text "5902")) ≡ false
unfolding shop memory text_eq is_taken
barcode_free = refl

bread_plain : bread.active ≡ true
bread_plain = refl

update_product-on_hand_example :
    (r : Product × Db memory) × (update_product 7 later_draws bread_id dear_draft shop ≡ ok r)
    × (on_hand_of bread_id r.1 ≡ pos 4)
    × (r.0.stock ≡ pos 4)
update_product-on_hand_example =
    update_product-on_hand memory-IsLawful 7 later_draws bread_id dear_draft bread shop bread_at
      barcode_free event_fresh refl (omega arith)

add_product-IsIndexed_example :
    IsIndexed (committed shop (add_product 7 later_draws true dear_draft shop))
unfolding shop memory text_eq
add_product-IsIndexed_example =
    add_product-IsIndexed memory-IsLawful 7 later_draws shop shop-IsIndexed true dear_draft refl

update_product-IsIndexed_example :
    IsIndexed (committed shop (update_product 7 later_draws bread_id dear_draft shop))
update_product-IsIndexed_example =
    update_product-IsIndexed memory-IsLawful shop shop-IsIndexed bread_id bread bread_at bread_plain
      7 later_draws dear_draft

delete_product-IsIndexed_example :
    IsIndexed (committed shop (delete_product 7 later_draws bread_id shop))
delete_product-IsIndexed_example =
    delete_product-IsIndexed memory-IsLawful shop shop-IsIndexed bread_id bread bread_at bread_plain
      7 later_draws dear_draft

product_by_barcode-IsShown_example : (product_by_barcode (text "5901") shop ≡ some bread) ↔ (
    (id : Text) × (p : Product) × (memory.get Product shop.products id ≡ some p)
    × (p.active ≡ true)
    × (p.barcode ≡ text "5901")
    × IsShown shop p bread)
product_by_barcode-IsShown_example =
    product_by_barcode-IsShown shop (text "5901") bread (ground arith)
      (IsIndexed-IsScannable shop shop-IsIndexed)

restock_product-on_hand_example :
    (r : Product × Db memory) × (restock_product 7 later_draws bread_id (pos 5) shop ≡ ok r)
    × ((j : Text)
        → on_hand_of j r.1
          ≡ (if j == bread_id then add32 (on_hand_of bread_id shop) (pos 5) else on_hand_of j shop))
    × (r.0.stock ≡ max0 (on_hand_of bread_id r.1))
restock_product-on_hand_example =
    restock_product-on_hand memory-IsLawful shop 7 later_draws bread_id (pos 5) bread bread_at
      event_fresh

create_sale-IsRefIndexed_example : IsRefIndexed sold.1
create_sale-IsRefIndexed_example =
    create_sale-IsRefIndexed memory-IsLawful shop 6 sale_id three_breads sold sold_done
      shop-IsRefIndexed sale_fresh sale_id-NulFree

sales_by_reference_exact_example : In bread_sale (sales_by_reference (text "R1") sold.1) ↔ (
    (memory.get Sale sold.1.sales bread_sale.id ≡ some bread_sale)
    × (bread_sale.reference ≡ text "R1"))
sales_by_reference_exact_example =
    sales_by_reference_exact memory-IsLawful sold.1 sold-IsRefIndexed (text "R1") bread_sale
      (ground arith)

stock_totals-on_hand_example :
    sub32 ((stock_totals shop).0 bread_id) ((stock_totals shop).1 bread_id)
    ≡ on_hand_of bread_id shop
stock_totals-on_hand_example = stock_totals-on_hand bread_id shop

-- The bread was removed, and another product took its barcode.
abbrev gone : Product
gone = record bread { active = false; deleted_at = some 6 }

abbrev rolls : Product
rolls = record bread { id = text "p2"; name = text "Rolls" }

unfoldable reused : Db memory
unfolding memory
reused = record shop {
  products = memory.put Product (memory.put Product shop.products bread_id gone) (text "p2") rolls;
  barcode_idx = memory.put Text shop.barcode_idx (text "5901") (text "p2");
}

gone_at : memory.get Product reused.products bread_id ≡ some gone
unfolding reused shop memory text_eq
gone_at = refl

rolls_at : memory.get Product reused.products (text "p2") ≡ some rolls
unfolding reused shop memory text_eq
rolls_at = refl

delete_product_again_example :
    let left = committed reused (delete_product 9 later_draws bread_id reused) in
    (product_by_barcode (text "5901") left ≡ none)
    × (memory.get Product left.products (text "p2") ≡ some rolls)
delete_product_again_example =
    delete_product_again memory-IsLawful reused 9 later_draws bread_id (text "p2") gone rolls
      gone_at rolls_at (ground arith) refl refl (ground arith)
