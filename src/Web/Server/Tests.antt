-- ===== src/Web/Server/Tests.antt =====
-- internal/web/server.go: requests to the small shop of Boltstore/Fixture.
use pos_agent.Base.{
  ◌≡◌, ◌≢◌, refl, true, false, none, some, List, [], ◌∷◌, text, text_eq, arith, In, ◌==◌,
  if◌then◌else◌,
}
use pos_agent.Base.Int.{pos, ◌≤ℤ◌}
use pos_agent.Bolt.Memory.{memory, memory-IsLawful}
use pos_agent.Boltstore.Db.{ok, init}
use pos_agent.Boltstore.Fixture.{
  opening, shop, three_breads, bread_lines, shop-MayComplete, sale_id, bread_sale, sold,
}
use pos_agent.Boltstore.Analytics.{Calendar}
use pos_agent.Boltstore.Outbox.{pending_sales}
use pos_agent.Boltstore.Sales.{create_sale, sale_by_id, tax_from_bucket}
use pos_agent.Boltstore.Sales.Completing.{create_sale_completes}
use pos_agent.Boltstore.Outbox.{link, sync_state, pending_products}
use pos_agent.Cloudsync.Engine.{answer, sync_once}
use pos_agent.Cloudsync.Client.{Http, http_client}
use pos_agent.Cloudsync.Controller.{Controller, new_controller, sync}
use pos_agent.Web.Server.SyncApi.{LinkForm, SyncOutside, handle_sync_now}
use pos_agent.Web.Server.SyncApi.Reported.{IsUpToDate, handle_sync_now-IsUpToDate}
use pos_agent.Domain.Keys.{key_tax_rate_bps}
use pos_agent.Web.Server.{get, post, World, Outside}
use pos_agent.Web.Server.SettingsForm.{Form, is_mode}
use pos_agent.Web.Server.Selling.{SaleForm, sale_input, handle_sales}
use pos_agent.Web.Server.Routes.{product_delete, settings, serve}
use pos_agent.Web.Server.Receipts.{serve-refused, handle_sales-kept}
use pos_agent.Web.Server.SyncedSettings.{CloudIsValid}
use pos_agent.Web.Server.History.{
  Event, page, sync_now, sync_link, background, after_events, after_events-tax,
}
use pos_agent.Web.Server.TaxSettings.{new_world}

abbrev days : Calendar
days = record {
  start_of_day = λ t. t;
  add_days = λ n t. t;
  date = λ t. [];
  label = λ t. [];
  hour = λ t. 0;
}

-- A printer that is always off.
abbrev unlucky : Outside
unlucky = record {
  now = 6;
  draws = record opening { record_id = sale_id };
  setting_draws = λ k. record { now = 6; now' = 6; audit_id = k };
  has_sync = true;
  send_raw = λ addr job. false;
  image_decode = λ file. none;
  valid_image = λ file. false;
  calendar = days;
  format_when = λ t. [];
  trim_space = λ s. s;
  to_lower = λ s. s;
  quote = λ s. s;
  parse_rfc3339 = λ s. none;
  parse_date = λ s. none;
  add_date_utc = λ n t. t;
}

abbrev open_shop : World memory
open_shop = record { db = shop; nudges = 0; jobs = [] }

abbrev breads_form : SaleForm
breads_form = record {
  items = three_breads.lines;
  paid_cents = three_breads.paid_cents;
  payment_method = three_breads.payment_method;
  reference = three_breads.reference;
  print = none;
}

got : (serve unlucky (product_delete get none) open_shop).0.status ≢ 200
unfolding serve
got e = ground (arith, e)

serve-refused_example :
    ((serve unlucky (product_delete get none) open_shop).1.db ≡ shop)
    × ((serve unlucky (product_delete get none) open_shop).1.nudges ≡ 0)
serve-refused_example = serve-refused unlucky open_shop (product_delete get none) got

breads_sold : create_sale 6 sale_id (sale_input breads_form) shop ≡ ok sold
breads_sold = create_sale_completes shop 6 sale_id three_breads bread_lines shop-MayComplete

handle_sales-kept_example :
    let answer = handle_sales unlucky post (some breads_form) open_shop in
    (answer.0.status ≡ 200)
    × (answer.1.db ≡ sold.1)
    × (sale_by_id sale_id answer.1.db ≡ some bread_sale)
    × In bread_sale (pending_sales answer.1.db)
handle_sales-kept_example =
    handle_sales-kept unlucky open_shop memory-IsLawful breads_form bread_sale sold.1 breads_sold

abbrev vat_form : Form
vat_form = record {
  keys = key_tax_rate_bps ∷ [];
  value = λ k. if k == key_tax_rate_bps then some (text "1600") else none;
}

-- A cloud that takes everything and has nothing new.
abbrev kind_cloud : Http
kind_cloud = record {
  request =
      λ url cookie body. answer (record { status = 200; error = []; body = []; cookies = [] });
  login_body = λ email password. [];
  push_body = λ payload. [];
  pull_body = λ since. [];
  read_login = λ body. answer (text "shop", text "owner@example.com");
  read_push = λ body. answer tt;
  read_pull = λ body. answer (record {
    cursor = pos 4;
    changes = record { products = []; sales = []; stock_events = []; settings = none };
  });
}

abbrev online : SyncOutside memory
online = record {
  has_sync = true;
  cloud_url = [];
  http = kind_cloud;
  unreachable = λ message. true;
  now = 9;
  during_push = λ db. db;
  during_pull = λ db. db;
  trim_space = λ s. s;
}

abbrev linked : Controller memory
linked =
    new_controller
      (link (text "https://cloud") (text "shop") (text "owner@example.com") (text "t") shop)

linked_now : (sync_state linked.db).linked ≡ true
unfolding sync_state link shop text_eq memory
linked_now = refl

synced : (handle_sync_now online post linked).0.code ≡ 200
unfolding handle_sync_now http_client sync_once link shop text_eq memory sync sync_state
    pending_products
synced = refl

handle_sync_now-IsUpToDate_example : IsUpToDate online linked (handle_sync_now online post linked)
handle_sync_now-IsUpToDate_example = handle_sync_now-IsUpToDate online linked refl linked_now synced

abbrev owner : LinkForm
owner = record {
  base_url = text "https://cloud";
  email = text "owner@example.com";
  password = text "secret";
}

-- A request of the settings page, the link to a cloud, and two syncs with it: one that has
-- nothing new.
abbrev a_day : List (Event memory)
a_day =
    page unlucky (settings post (some vat_form))
    ∷ sync_link online post (some owner)
    ∷ sync_now online post
    ∷ background online
    ∷ []

online-CloudIsValid : CloudIsValid online
unfolding http_client
online-CloudIsValid = record {
  pulls = λ base_url token since. tt;
  during_push = λ db h. h;
  during_pull = λ db h. h;
}

after_events-tax_example :
    let tax =
      tax_from_bucket (after_events a_day (new_world memory) (new_controller (init memory))).db in
    (pos 0 ≤ℤ tax.0) × (is_mode tax.1 ≡ true)
after_events-tax_example =
    after_events-tax memory-IsLawful a_day
      (tt, (online-CloudIsValid, (online-CloudIsValid, (online-CloudIsValid, tt))))
