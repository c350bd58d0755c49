-- ===== src/Boltstore/Analytics.antt =====
-- internal/store/boltstore/boltstore.go, "Analytics": the dashboard of the last seven days. The
-- calendar of the place (package time) is a parameter.
pub mod Today
use Prim.Native.Nat.{zero, suc}
use pos_agent.Base.{
  ℕ, Bool, true, false, not, Option, none, some, List, [], ◌∷◌, map, Text, text_eq, ◌==◌, text_less,
  if◌then◌else◌, any, take,
}
use pos_agent.Base.Int.{ℤ, pos, negsuc, add64, mul64, add32, ltb_ℤ, eqb_ℤ}
use pos_agent.Base.Sort.{sort}
use pos_agent.Bolt.{Bolt}
use pos_agent.Domain.{Time, Sale, SaleItem, before}
use pos_agent.Boltstore.Db.{Db}
use pos_agent.Boltstore.Sales.{values}

pub record Calendar : Type 0 where
  -- `startOfDay`, by `t.Date()` and `time.Date`
  pub start_of_day : Time → Time
  -- `AddDate(0, 0, n)`
  pub add_days : ℤ → Time → Time
  -- `Format("2006-01-02")`, `Format("Mon")` and `Hour()`
  pub date : Time → Text
  pub label : Time → Text
  pub hour : Time → ℕ

pub record DaySummary : Type 0 where
  pub total_cents : ℤ
  pub sale_count : ℤ
  pub item_count : ℤ

pub record DayBucket : Type 0 where
  pub date : Text
  pub label : Text
  pub total_cents : ℤ

pub record ProductStat : Type 0 where
  pub name : Text
  pub qty : ℤ
  pub revenue_cents : ℤ

pub record HourBucket : Type 0 where
  pub hour : ℕ
  pub total_cents : ℤ

pub record Analytics : Type 0 where
  pub today : DaySummary
  pub yesterday : DaySummary
  pub days : List DayBucket
  pub top_products : List ProductStat
  pub hours : List HourBucket

-- `a.Days[dayIndex[key]].TotalCents += total`: the index names the last bucket of a date.
unfoldable pub add_to_day : Text → ℤ → List DayBucket → List DayBucket
unfolding any
add_to_day key total [] = []
add_to_day key total (d ∷ days) =
    let rest = add_to_day key total days in
    if any (λ (e : DayBucket). e.date == key) days
    then d ∷ rest
    else if d.date == key
    then record d { total_cents = add64 d.total_cents total } ∷ days
    else d ∷ days

-- `a.Hours[h].TotalCents += total`
unfoldable pub add_to_hour : ℕ → ℤ → List HourBucket → List HourBucket
add_to_hour h total [] = []
add_to_hour zero total (b ∷ hours) = record b { total_cents = add64 b.total_cents total } ∷ hours
add_to_hour (suc h) total (b ∷ hours) = b ∷ add_to_hour h total hours

unfoldable pub count_item : SaleItem → ProductStat → ProductStat
count_item it ps = record ps {
  qty = add32 ps.qty it.qty;
  revenue_cents = add64 ps.revenue_cents (mul64 it.price_cents it.qty);
}

-- `prodAgg[it.Name]`, made where it is nil.
unfoldable pub add_to_stats : SaleItem → List ProductStat → List ProductStat
unfolding count_item
add_to_stats it [] =
    count_item it (record { name = it.name; qty = pos 0; revenue_cents = pos 0 }) ∷ []
add_to_stats it (ps ∷ stats) =
    let rest = add_to_stats it stats in
    if ps.name == it.name then count_item it ps ∷ stats else ps ∷ rest

unfoldable pub add_items : List SaleItem → List ProductStat → List ProductStat
unfolding add_to_stats
add_items [] stats = stats
add_items (it ∷ items) stats = add_items items (add_to_stats it stats)

-- `items += it.Qty`
unfoldable pub count_qty : List SaleItem → ℤ → ℤ
count_qty [] n = n
count_qty (it ∷ items) n = count_qty items (add32 n it.qty)

unfoldable pub add_sale : Sale → DaySummary → DaySummary
unfolding count_qty
add_sale sale d = record {
  total_cents = add64 d.total_cents sale.total_cents;
  sale_count = add32 d.sale_count (pos 1);
  item_count = add32 d.item_count (count_qty sale.items (pos 0));
}

-- `sort.Slice(ranked, …)`
unfoldable pub ranks_before : ProductStat → ProductStat → Bool
ranks_before p q =
    if not (eqb_ℤ p.revenue_cents q.revenue_cents)
    then ltb_ℤ q.revenue_cents p.revenue_cents
    else text_less p.name q.name

abbrev pub no_sales : DaySummary
no_sales = record { total_cents = pos 0; sale_count = pos 0; item_count = pos 0 }

abbrev pub first_hours : ℕ → ℕ → List HourBucket
first_hours zero h = []
first_hours (suc n) h = record { hour = h; total_cents = pos 0 } ∷ first_hours n (suc h)

module _ (calendar : Calendar) where
  unfoldable pub empty_days : ℕ → ℕ → Time → List DayBucket
  empty_days zero i window_start = []
  empty_days (suc n) i window_start =
      let d = calendar.add_days (pos i) window_start in
      record { date = calendar.date d; label = calendar.label d; total_cents = pos 0 }
      ∷ empty_days n (suc i) window_start

  -- The three starts of days that the loop compares with.
  pub record Starts : Type 0 where
    pub today : Time
    pub yesterday : Time
    pub window : Time

  -- The body of the loop for a sale of the window.
  unfoldable pub count_sale : Starts → Sale → Analytics → Analytics
  unfolding add_items add_to_day add_to_hour add_sale
  count_sale starts sale a = record {
    today = if not (before sale.created_at starts.today) then add_sale sale a.today else a.today;
    yesterday =
        if not (before sale.created_at starts.today)
        then a.yesterday
        else if not (before sale.created_at starts.yesterday)
        then add_sale sale a.yesterday
        else a.yesterday;
    days = add_to_day (calendar.date sale.created_at) sale.total_cents a.days;
    top_products = add_items sale.items a.top_products;
    hours = add_to_hour (calendar.hour sale.created_at) sale.total_cents a.hours;
  }

  -- One round of the loop.
  unfoldable pub count_recent : Starts → Sale → Analytics → Analytics
  unfolding count_sale
  count_recent starts sale a =
      if before sale.created_at starts.window then a else count_sale starts sale a

  -- The loop over the sales; `top_products` has every product until it ends.
  unfoldable pub count_window : Starts → List Sale → Analytics → Analytics
  unfolding count_recent
  count_window starts [] a = a
  count_window starts (sale ∷ sales) a = count_window starts sales (count_recent starts sale a)

  unfoldable pub starts_at : Time → Starts
  starts_at now =
      let today_start = calendar.start_of_day now in
      record {
        today = today_start;
        yesterday = calendar.add_days (negsuc 0) today_start;
        window = calendar.add_days (negsuc 5) today_start;
      }

  unfoldable pub rank : Analytics → Analytics
  unfolding ranks_before
  rank a = record a { top_products = take 5 (sort ranks_before a.top_products) }

  -- `Analytics`
  unfoldable pub analytics : {B : Bolt} → Time → Db B → Analytics
  unfolding empty_days count_window starts_at rank
  analytics {B} now db =
      let starts = starts_at now in
      rank (
        count_window starts (values (B.entries Sale db.sales)) (record {
          today = no_sales;
          yesterday = no_sales;
          days = empty_days 7 0 starts.window;
          top_products = [];
          hours = first_hours 24 0;
        }))
