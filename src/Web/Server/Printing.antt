-- ===== src/Web/Server/Printing.antt =====
-- internal/web/server.go, "Printer setup" and `printSale`: what goes to the printer.
use pos_agent.Base.{
  Bool, true, false, Option, none, some, List, [], ◌∷◌, map, Text, text, text_eq, ◌==◌,
  if◌then◌else◌,
}
use pos_agent.Base.Int.{ℤ, pos, sub64}
use pos_agent.Base.Decimal.{atoi}
use pos_agent.Bolt.{Bolt}
use pos_agent.Domain.{Sale, SaleItem}
use pos_agent.Domain.Keys.{
  key_shop_name, key_paper_width, key_printer_addr, key_receipt_theme, key_header_line, key_footer,
  key_tax_rate_bps, key_tax_mode,
}
use pos_agent.Tax.{compute_tax}
use pos_agent.Boltstore.Db.{Db}
use pos_agent.Boltstore.Settings.{settings, logo, value_or_empty}
use pos_agent.Printer.Escpos.{test_receipt}
use pos_agent.Printer.Logo.{raster_from_image}
use pos_agent.Printer.Receipt.{ReceiptItem, ReceiptData, render_receipt, preview_text}
use pos_agent.Web.Server.{
  Method, World, Answer, Outside, reply, refuse, only_post, with_body, done, preview,
}

-- `settings[key]`
abbrev pub setting : {B : Bolt} → Text → Db B → Text
setting key db = value_or_empty (settings db key)

abbrev receipt_item : SaleItem → ReceiptItem
receipt_item it = record { name = it.name; qty = it.qty; price_cents = it.price_cents }

-- The receipt of a sale with the shop's settings.
unfoldable pub sale_receipt : {B : Bolt} → Sale → Db B → ReceiptData
unfolding atoi
sale_receipt sale db = record {
  shop_name = setting key_shop_name db;
  header_line = setting key_header_line db;
  footer = setting key_footer db;
  logo = value_or_empty (logo db);
  when = sale.created_at;
  width_mm = (atoi (setting key_paper_width db)).value;
  theme = setting key_receipt_theme db;
  items = map receipt_item sale.items;
  subtotal_cents = sale.subtotal_cents;
  tax_cents = sale.tax_cents;
  tax_rate_bps = sale.tax_rate_bps;
  tax_mode = sale.tax_mode;
  total_cents = sale.total_cents;
  paid_cents = sale.paid_cents;
  change_cents = sale.change_cents;
}

-- `receiptOverrides`
pub record ReceiptOverrides : Type 0 where
  pub theme : Text
  pub header : Option Text
  pub footer : Option Text

abbrev sample_item : Text → ℤ → ℤ → SaleItem
sample_item name qty price_cents = record {
  product_id = [];
  name = name;
  price_cents = price_cents;
  qty = qty;
  taxable = true;
  tax_cents = pos 0;
}

abbrev pub sample : List SaleItem
sample =
    sample_item (text "Bread") (pos 2) (pos 6500)
    ∷ sample_item (text "Cooking Oil 1L") (pos 1) (pos 35000)
    ∷ sample_item (text "Sugar 1kg") (pos 1) (pos 20000)
    ∷ []

abbrev overridden : Text → Option Text → Text
overridden saved none = saved
overridden saved (some v) = v

-- `sampleReceipt`
unfoldable pub sample_receipt : {B : Bolt} → Outside → ReceiptOverrides → Db B → ReceiptData
unfolding atoi
sample_receipt o ov db =
    let rate_bps = (atoi (setting key_tax_rate_bps db)).value in
    let mode = setting key_tax_mode db in
    let taxed = compute_tax rate_bps mode sample in
    record {
      shop_name = setting key_shop_name db;
      header_line = overridden (setting key_header_line db) ov.header;
      footer = overridden (setting key_footer db) ov.footer;
      logo = value_or_empty (logo db);
      when = o.now;
      width_mm = (atoi (setting key_paper_width db)).value;
      theme = if ov.theme == [] then setting key_receipt_theme db else ov.theme;
      items = map receipt_item sample;
      subtotal_cents = taxed.subtotal;
      tax_cents = taxed.tax;
      tax_rate_bps = rate_bps;
      tax_mode = mode;
      total_cents = taxed.total;
      paid_cents = pos 100000;
      change_cents = sub64 (pos 100000) taxed.total;
    }

module _ {B : Bolt} (o : Outside) where
  -- `SendRaw`: the job is handed to the network, and the printer takes it or not.
  abbrev pub send : Text → Text → World B → Bool × World B
  send addr job w = (o.send_raw addr job, record w { jobs = (addr, job) ∷ w.jobs })

  -- `PrintReceipt`
  abbrev pub print_receipt : Text → ReceiptData → World B → Bool × World B
  print_receipt addr d w =
      send addr (render_receipt o.format_when o.trim_space (raster_from_image o.image_decode) d) w

  -- The two results of `printSale`, and the world after it.
  abbrev pub printed : Bool × World B → Bool × Text × World B
  printed (true, w) = (true, [], w)
  printed (false, w) = (
    false,
    text "The sale was saved, but the receipt could not print. Please check the printer.",
    w,
  )

  -- `printSale`
  unfoldable pub print_sale : Sale → World B → Bool × Text × World B
  unfolding sale_receipt
  print_sale sale w =
      let addr = setting key_printer_addr w.db in
      if addr == []
      then (false, text "No printer is set up yet.", w)
      else printed (print_receipt addr (sale_receipt sale w.db) w)

  abbrev pub answer_print : Bool × World B → Answer B
  answer_print (true, w) = reply done w
  answer_print (false, w) =
      refuse 502 (text "Could not reach the printer. Please check that it is on.") w

  -- `handleTestPrint`
  unfoldable pub handle_test_print : Method → Option Text → World B → Answer B
  handle_test_print method body w = only_post method w (
      with_body body (text "No printer was selected.") w (λ addr.
        if addr == []
        then refuse 400 (text "No printer was selected.") w
        else answer_print (send addr test_receipt w)))

  -- `handleReceiptPreview`, from the query of the request
  unfoldable pub handle_receipt_preview : ReceiptOverrides → World B → Answer B
  unfolding sample_receipt
  handle_receipt_preview ov w =
      reply (preview (preview_text o.format_when o.trim_space (sample_receipt o ov w.db))) w

  -- `handleReceiptTest`; a body that is unreadable has no theme.
  unfoldable pub handle_receipt_test : Method → Text → World B → Answer B
  unfolding sample_receipt
  handle_receipt_test method theme w =
      let addr = setting key_printer_addr w.db in
      let ov : ReceiptOverrides = record { theme = theme; header = none; footer = none } in
      only_post method w (
        if addr == []
        then refuse 400 (text "No printer is set up yet.") w
        else answer_print (print_receipt addr (sample_receipt o ov w.db) w))
