-- ===== src/Boltstore/Search.antt =====
-- internal/store/boltstore/search.go: the search over sales.
pub mod Criteria
pub mod Exact
pub mod Found
use Prim.Native.Nat.{zero, suc}
use pos_agent.Base.{
  ℕ, ◌+◌, Bool, true, false, ◌&&◌, ◌||◌, not, Option, none, some, List, [], ◌∷◌, map, Text, text_eq,
  ◌==◌, if◌then◌else◌, keep_if, any, leb, take, length, ltb,
}
use pos_agent.Base.Int.{ℤ, pos, negsuc, ltb_ℤ, leb_ℤ, pos_part}
use pos_agent.Base.Sort.{sort, later}
use pos_agent.Bolt.{Bolt}
use pos_agent.Domain.{Time, Sale, SaleItem, SearchCriteria, is_zero, before}
use pos_agent.Boltstore.Db.{Db}
use pos_agent.Boltstore.Sales.{values, created, strip_prefix, sales_by_reference}

abbrev pub default_search_cap : ℕ
default_search_cap = 500

-- `strings.Contains`
unfoldable pub contains : Text → Text → Bool
unfolding strip_prefix
contains [] q = elim (strip_prefix q []) [ none ↦ false | some _ ↦ true ]
contains (c ∷ s) q = elim (strip_prefix q (c ∷ s)) [ none ↦ contains s q | some _ ↦ true ]

-- `strings.ToLower` is a parameter: on ASCII it is `ascii_lower`.
module _ (to_lower : Text → Text) where
  unfoldable pub has_item : Text → List SaleItem → Bool
  unfolding contains any
  has_item item_name items =
      any (λ (item : SaleItem). contains (to_lower item.name) (to_lower item_name)) items

  -- `matchesCriteria`
  unfoldable pub matches_criteria : Sale → SearchCriteria → Bool
  unfolding has_item
  matches_criteria sale c =
      if not (c.item_name == []) && not (has_item c.item_name sale.items)
      then false
      else if not (c.payment_method == []) && not (sale.payment_method == c.payment_method)
      then false
      else if not (is_zero c.start) && before sale.created_at c.start
      then false
      else if not (is_zero c.end) && not (before sale.created_at c.end)
      then false
      else if ltb_ℤ (pos 0) c.min_cents && ltb_ℤ sale.total_cents c.min_cents
      then false
      else if ltb_ℤ (pos 0) c.max_cents && ltb_ℤ c.max_cents sale.total_cents
      then false
      else true

  unfoldable pub candidates : {B : Bolt} → SearchCriteria → Db B → List Sale
  candidates {B} c db =
      if not (c.reference == [])
      then sales_by_reference c.reference db
      else values (B.entries Sale db.sales)

  unfoldable pub limit_of : SearchCriteria → ℕ
  limit_of c = if leb_ℤ c.limit (pos 0) then default_search_cap else pos_part c.limit

  -- `SearchSales`
  unfoldable pub search_sales : {B : Bolt} → SearchCriteria → Db B → List Sale
  unfolding matches_criteria candidates limit_of
  search_sales c db =
      take (limit_of c)
        (sort (later created) (keep_if (λ sale. matches_criteria sale c) (candidates c db)))

-- The ASCII part of `strings.ToLower`.
abbrev pub ascii_lower : Text → Text
ascii_lower = map (λ c. if leb b'A' c && leb c b'Z' then c + 32 else c)
