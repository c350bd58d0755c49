-- ===== src/Boltstore/SyncTests.antt =====
-- internal/store/boltstore/sync.go, search.go and the settings: the operations on the small shop of
-- Fixture.
use pos_agent.Base.{
  ◌≡◌, ◌⊎◌, refl, inl, inr, none, some, [], ◌∷◌, Text, text, text_eq, arith, In, All, length, ◌+◌,
  ◌-◌, ◌*◌, ◌/◌, ◌%◌, ◌≤◌,
}
use pos_agent.Base.Int.{pos, pos_part, neg_part}
use pos_agent.Base.Sort.{IsDescending}
use pos_agent.Bolt.Memory.{memory, memory-IsLawful}
use pos_agent.Domain.{Sale, Product, SearchCriteria}
use pos_agent.Boltstore.Fixture.{bread_id, bread, shop, sold, bread_sale, sold-IsRefIndexed}
use pos_agent.Boltstore.Sales.{
  created, mark_sale_pending, put_sale, sale_of, tax_from_bucket, sale_item,
}
use pos_agent.Tax.{compute_tax, tax_round}
use pos_agent.Boltstore.Pull.{Pulled, apply_product, apply_pulled}
use pos_agent.Boltstore.Pull.Newest.{apply_product-commute}
use pos_agent.Boltstore.Pull.Replay.{apply_pulled-again}
use pos_agent.Boltstore.Pull.Echo.{SameOutbox, apply_pulled-SameOutbox}
use pos_agent.Base.Decimal.{itoa}
use pos_agent.Boltstore.Analytics.{Calendar}
use pos_agent.Boltstore.Search.{search_sales, ascii_lower}
use pos_agent.Boltstore.Search.Criteria.{Meets}
use pos_agent.Boltstore.Search.Exact.{IsMatch, search_sales-IsMatch, search_sales-found}

-- An edit of the bread from another device, and a later one.
abbrev cheaper : Product
cheaper = record bread { price_cents = pos 200; updated_at = 8 }

abbrev dearer : Product
dearer = record bread { price_cents = pos 300; updated_at = 9 }

apply_product-commute_example :
    memory.get Product (apply_product cheaper (apply_product dearer shop)).products bread_id
    ≡ memory.get Product (apply_product dearer (apply_product cheaper shop)).products bread_id
apply_product-commute_example =
    apply_product-commute memory-IsLawful cheaper dearer shop bread_id (inr (ground arith))

abbrev two_edits : Pulled
two_edits = record {
  products = dearer ∷ cheaper ∷ [];
  sales = [];
  stock_events = [];
  settings = none;
}

apply_pulled-again_example :
    (apply_pulled two_edits (apply_pulled two_edits shop) ≡ record (apply_pulled two_edits shop) {
      settings = (apply_pulled two_edits (apply_pulled two_edits shop)).settings;
    })
    × ((j : Text)
        → memory.get Text (apply_pulled two_edits (apply_pulled two_edits shop)).settings j
          ≡ memory.get Text (apply_pulled two_edits shop).settings j)
apply_pulled-again_example = apply_pulled-again memory-IsLawful two_edits shop

apply_pulled-SameOutbox_example : SameOutbox shop (apply_pulled two_edits shop)
apply_pulled-SameOutbox_example = apply_pulled-SameOutbox memory-IsLawful two_edits shop

abbrev cash_sales : SearchCriteria
cash_sales = record {
  reference = [];
  item_name = text "bread";
  payment_method = text "cash";
  start = 0;
  end = 0;
  min_cents = pos 0;
  max_cents = pos 0;
  limit = pos 1;
}

search_sales-IsMatch_example :
    All
      (IsMatch memory-IsLawful ascii_lower cash_sales sold.1 sold-IsRefIndexed)
      (search_sales ascii_lower cash_sales sold.1)
    × (length (search_sales ascii_lower cash_sales sold.1) ≤ 1)
    × IsDescending created (search_sales ascii_lower cash_sales sold.1)
search_sales-IsMatch_example =
    search_sales-IsMatch memory-IsLawful ascii_lower cash_sales sold.1 sold-IsRefIndexed 1
      (inr (omega arith, refl))

-- The sale is stored, and meets the criteria by its item, its method and its time.
sold_known : memory.get Sale sold.1.sales bread_sale.id ≡ some bread_sale
unfolding shop memory text_eq put_sale mark_sale_pending sale_of
sold_known = refl

sold-Meets : Meets ascii_lower cash_sales bread_sale
unfolding shop memory text_eq sale_of compute_tax tax_round tax_from_bucket sale_item
sold-Meets = record {
  reference = inl refl;
  item = inr (sale_item bread (pos 3), inl refl, ([], [], refl));
  method = inr refl;
  since = omega arith;
  until = inl refl;
  at_least = inl (omega arith);
  at_most = inl (omega arith);
}

search_sales-found_example :
    In bread_sale (search_sales ascii_lower cash_sales sold.1)
    ⊎ ((length (search_sales ascii_lower cash_sales sold.1) ≡ 1)
        × All
            (λ s. bread_sale.created_at ≤ s.created_at)
            (search_sales ascii_lower cash_sales sold.1))
search_sales-found_example =
    search_sales-found memory-IsLawful ascii_lower cash_sales sold.1 sold-IsRefIndexed 1 bread_sale
      (inr (omega arith, refl)) sold_known sold-Meets

-- A calendar of days of 24 hours, in seconds; a date is the day's number.
abbrev utc : Calendar
utc = record {
  start_of_day = λ t. t - t % 86400;
  add_days = λ n t. t + pos_part n * 86400 - neg_part n * 86400;
  date = λ t. itoa (pos (t / 86400));
  label = λ t. itoa (pos (t / 86400 % 7));
  hour = λ t. t / 3600 % 24;
}
