-- ===== src/Web/Server/Selling.antt =====
-- internal/web/server.go, "Selling", and internal/web/search.go.
use pos_agent.Base.{
  Bool, true, false, Option, none, some, List, [], ◌∷◌, Text, text, text_eq, ◌==◌, if◌then◌else◌,
  no_items, length, nat_eqb,
}
use pos_agent.Base.Int.{ℤ, pos, pos_part, leb_ℤ, add64}
use pos_agent.Bolt.{Bolt}
use pos_agent.Domain.{Time, Sale, SaleInput, SaleLine, SearchCriteria}
use pos_agent.Boltstore.Sales.{create_sale, sales_since, sale_by_id}
use pos_agent.Boltstore.Search.{search_sales, default_search_cap}
use pos_agent.Boltstore.Analytics.{analytics}
use pos_agent.Web.Server.{
  Method, World, Answer, Outside, reply, refuse, only_post, with_body, after_store, nudge_sync,
  sale_done, sales_total, sales_found, done, summary,
}
use pos_agent.Web.Server.Printing.{print_sale}

-- The body of `handleSales`.
pub record SaleForm : Type 0 where
  pub items : List SaleLine
  pub paid_cents : ℤ
  pub payment_method : Text
  pub reference : Text
  pub print : Option Bool

abbrev pub sale_input : SaleForm → SaleInput
sale_input form = record {
  lines = form.items;
  paid_cents = form.paid_cents;
  payment_method = form.payment_method;
  reference = form.reference;
}

-- `searchRequest`
pub record SearchRequest : Type 0 where
  pub reference : Text
  pub item_name : Text
  pub payment_method : Text
  pub start : Text
  pub end : Text
  pub min_cents : ℤ
  pub max_cents : ℤ
  pub limit : ℤ

abbrev pub wants_print : Option Bool → Bool
wants_print none = true
wants_print (some b) = b

abbrev sum_totals : List Sale → ℤ → ℤ
sum_totals [] total = total
sum_totals (sale ∷ sales) total = sum_totals sales (add64 total sale.total_cents)

abbrev empty_cart : Text
empty_cart = text "Your cart is empty."

module _ (o : Outside) where
  abbrev next_day : Bool → Option Time → Option Time
  next_day end_of_day none = none
  next_day true (some d) = some (o.add_date_utc (pos 1) d)
  next_day false (some d) = some d

  abbrev timestamp_or : Option Time → Option Time → Option Time
  timestamp_or none date = date
  timestamp_or (some t) date = some t

  -- `parseSearchTime`.
  unfoldable pub parse_search_time : Text → Bool → Option Time
  parse_search_time v end_of_day =
      if v == []
      then none
      else timestamp_or (o.parse_rfc3339 v) (next_day end_of_day (o.parse_date v))

  abbrev time_or_zero : Option Time → Time
  time_or_zero none = 0
  time_or_zero (some t) = t

  unfoldable pub search_criteria : SearchRequest → SearchCriteria
  unfolding parse_search_time
  search_criteria body = record {
    reference = body.reference;
    item_name = body.item_name;
    payment_method = body.payment_method;
    start = time_or_zero (parse_search_time body.start false);
    end = time_or_zero (parse_search_time body.end true);
    min_cents = body.min_cents;
    max_cents = body.max_cents;
    limit = body.limit;
  }

module _ {B : Bolt} (o : Outside) where
  abbrev pub answer_sale : Sale → Bool × Text × World B → Answer B
  answer_sale sale (printed, message, w) = reply (sale_done sale printed message) w

  -- What follows a sale that is saved: the receipt, if it is wanted.
  unfoldable pub after_sale : Option Bool → Sale → World B → Answer B
  after_sale print sale w =
      if wants_print print
      then answer_sale sale (print_sale o sale w)
      else reply (sale_done sale false []) w

  -- `handleSales`
  unfoldable pub handle_sales : Method → Option SaleForm → World B → Answer B
  unfolding after_sale
  handle_sales method body w = only_post method w (
      with_body body empty_cart w (λ form.
        if no_items form.items
        then refuse 400 empty_cart w
        else after_store (create_sale o.now o.draws.record_id (sale_input form) w.db)
            (λ _. text "Could not complete the sale. Please check the amount paid.") w
            (λ sale w'. after_sale form.print sale (nudge_sync o w'))))

  -- `handleSalesToday`
  unfoldable pub handle_sales_today : World B → Answer B
  handle_sales_today w =
      let sales = sales_since (o.calendar.start_of_day o.now) w.db in
      reply (sales_total sales (sum_totals sales (pos 0))) w

  -- `handleAnalytics`
  unfoldable pub handle_analytics : World B → Answer B
  handle_analytics w = reply (summary (analytics o.calendar o.now w.db)) w

  abbrev pub answer_reprint : Bool × Text × World B → Answer B
  answer_reprint (true, message, w) = reply done w
  answer_reprint (false, message, w) = refuse 502 message w

  abbrev pub reprint_found : Option Sale → World B → Answer B
  reprint_found none w = refuse 404 (text "That sale could not be found.") w
  reprint_found (some sale) w = answer_reprint (print_sale o sale w)

  -- `handleReprint`
  unfoldable pub handle_reprint : Method → Option Text → World B → Answer B
  handle_reprint method body w = only_post method w (
      with_body body (text "No sale was selected.") w (λ id.
        if id == []
        then refuse 400 (text "No sale was selected.") w
        else reprint_found (sale_by_id id w.db) w))

  -- `handleSalesSearch`
  unfoldable pub handle_sales_search : Method → Option SearchRequest → World B → Answer B
  unfolding search_criteria
  handle_sales_search method body w = only_post method w (
      with_body body (text "Could not read the search.") w (λ req.
        let sales = search_sales o.to_lower (search_criteria o req) w.db in
        let limit = if leb_ℤ req.limit (pos 0) then default_search_cap else pos_part req.limit in
        reply (sales_found sales (nat_eqb (length sales) limit)) w))
