-- ===== src/Web/Server/Served.antt =====
-- internal/web/server.go: what each handler does to the database.
use pos_agent.Base.{
  no_items, ltb, ◌*◌, ◌^◌, length, not, [], Option-cases, ◌≡◌, inl, inr, refl, ◌∙◌, sym, subst,
  Bool, true, false, Option, none, some, Text, text_eq, ◌==◌, if_lem, arith,
}
use pos_agent.Base.Int.{pos, eqb_ℤ}
use pos_agent.Bolt.{Bolt}
use pos_agent.Domain.{Sale}
use pos_agent.Domain.Keys.{key_tax_rate_bps, key_tax_mode, key_printer_addr}
use pos_agent.Boltstore.Products.{add_product, update_product, delete_product}
use pos_agent.Boltstore.Stock.{restock_product}
use pos_agent.Boltstore.Sales.{create_sale, sale_by_id}
use pos_agent.Boltstore.Settings.{logo as stored_logo}
use pos_agent.Printer.Escpos.{test_receipt}
use pos_agent.Web.Server.{Method, get, post, other, World, Answer, Outside, nudge_sync}
use pos_agent.Web.Server.Catalogue.{
  or_else, RestockForm, Fields, draft_from_fields, handle_products, handle_product_update,
  handle_product_delete, handle_product_restock,
}
use pos_agent.Web.Server.SettingsForm.{
  Form, is_rate, is_mode, passes, save_all, handle_settings, handle_logo, handle_logo_delete,
}
use pos_agent.Web.Server.Printing.{
  setting, send, print_receipt, printed, answer_print, print_sale, handle_test_print,
  handle_receipt_test,
}
use pos_agent.Web.Server.Selling.{
  wants_print, after_sale, SaleForm, sale_input, answer_reprint, reprint_found, handle_sales,
  handle_reprint,
}
use pos_agent.Web.Server.Routes.{
  Request, test_print, receipt_preview, receipt_test, logo, logo_delete, products, product_update,
  product_delete, product_restock, settings, sales, sales_today, sales_search, analytics, reprint,
  serve,
}
use pos_agent.Web.Server.Answers.{
  Served, Change, added, updated, deleted, restocked, sold, saved, logo_saved, logo_removed,
  only_post-Served, refuse-Served, reply-Served, with_body-Served, after_store-Served,
  nudge_sync-db, if-Served,
}

passed : (b : Bool) → not b ≡ false → b ≡ true
passed b h = ground (arith, h)

module _ {B : Bolt} (o : Outside) where
  handle_products-Served :
      (m : Method) (body : Option Fields) (w : World B) → Served o w (handle_products o m body w)
  unfolding handle_products
  handle_products-Served get body w = reply-Served
  handle_products-Served post body w = with_body-Served body _ _ (λ raw.
      with_body-Served (draft_from_fields raw) _ _ (λ draft.
        after_store-Served (add_product o.now o.draws true draft w.db) _ _
          (λ p db e. added draft p e) (λ p w'. (refl, nudge_sync-db o w'))))
  handle_products-Served other body w = refuse-Served

  handle_product_update-Served :
      (m : Method) (body : Option Fields) (w : World B)
      → Served o w (handle_product_update o m body w)
  unfolding handle_product_update
  handle_product_update-Served m body w = only_post-Served m (
      with_body-Served body _ _ (λ raw.
        if-Served (or_else [] raw.id == []) (λ _. refuse-Served)
          (λ _. with_body-Served (draft_from_fields raw) _ _ (λ draft.
            after_store-Served (update_product o.now o.draws (or_else [] raw.id) draft w.db) _ _
              (λ p db e. updated _ draft p e) (λ p w'. (refl, nudge_sync-db o w'))))))

  handle_product_delete-Served :
      (m : Method) (body : Option Text) (w : World B)
      → Served o w (handle_product_delete o m body w)
  unfolding handle_product_delete
  handle_product_delete-Served m body w = only_post-Served m (
      with_body-Served body _ _ (λ id.
        if-Served (id == []) (λ _. refuse-Served)
          (λ _.
            after_store-Served (delete_product o.now o.draws id w.db) _ _ (λ p db e. deleted id e)
              (λ p w'. (refl, nudge_sync-db o w')))))

  handle_product_restock-Served :
      (m : Method) (body : Option RestockForm) (w : World B)
      → Served o w (handle_product_restock o m body w)
  unfolding handle_product_restock
  handle_product_restock-Served m body w = only_post-Served m (
      with_body-Served body _ _ (λ form.
        if-Served (form.id == []) (λ _. refuse-Served)
          (λ _.
            if-Served (eqb_ℤ form.qty (pos 0)) (λ _. refuse-Served)
              (λ _.
                after_store-Served (restock_product o.now o.draws form.id form.qty w.db) _ _
                  (λ p db e. restocked _ _ p e) (λ p w'. (refl, nudge_sync-db o w'))))))

  handle_settings-Served :
      (m : Method) (body : Option Form) (w : World B) → Served o w (handle_settings o m body w)
  unfolding handle_settings
  handle_settings-Served get body w = reply-Served
  handle_settings-Served post body w = with_body-Served body _ _ (λ form.
      if-Served (not (passes is_rate (form.value key_tax_rate_bps))) (λ _. refuse-Served)
        (λ rate.
          if-Served (not (passes is_mode (form.value key_tax_mode))) (λ _. refuse-Served)
            (λ mode.
              let now_saved : World B = record w { db = save_all o form.value form.keys w.db } in
              let same = nudge_sync-db o now_saved in
              record {
                outcome = inr (
                  refl,
                  subst (Change o w.db) (sym same) (saved form (passed _ rate) (passed _ mode)),
                );
              })))
  handle_settings-Served other body w = refuse-Served

  handle_logo-Served :
      (m : Method) (body : Text) (w : World B) → Served o w (handle_logo o m body w)
  unfolding handle_logo
  handle_logo-Served get body w = elim (Option-cases (stored_logo w.db)) [
    | inl missing ↦ rw missing refuse-Served
    | inr (image, there) ↦ rw there reply-Served
  ]
  handle_logo-Served post body w =
      if-Served (ltb (2 * 2 ^ 20) (length body)) (λ _. refuse-Served)
        (λ _.
          if-Served (not (o.valid_image body)) (λ _. refuse-Served)
            (λ valid. record { outcome = inr (refl, logo_saved body (passed _ valid)) }))
  handle_logo-Served other body w = refuse-Served

  handle_logo_delete-Served : (m : Method) (w : World B) → Served o w (handle_logo_delete m w)
  unfolding handle_logo_delete
  handle_logo_delete-Served m w = only_post-Served m (record { outcome = inr (refl, logo_removed) })

  answer_print-Served :
      (w : World B) (r : Bool × World B)
      → (r.1.db ≡ w.db) × (r.1.nudges ≡ w.nudges)
      → Served o w (answer_print o r)
  answer_print-Served w (true, v) h = record { outcome = inl h }
  answer_print-Served w (false, v) h = record { outcome = inl h }

  handle_test_print-Served :
      (m : Method) (body : Option Text) (w : World B) → Served o w (handle_test_print o m body w)
  unfolding handle_test_print
  handle_test_print-Served m body w = only_post-Served m (
      with_body-Served body _ _ (λ addr.
        if-Served (addr == []) (λ _. refuse-Served)
          (λ _. answer_print-Served w (send o addr test_receipt w) (refl, refl))))

  handle_receipt_test-Served :
      (m : Method) (theme : Text) (w : World B) → Served o w (handle_receipt_test o m theme w)
  unfolding handle_receipt_test
  handle_receipt_test-Served m theme w = only_post-Served m (
      if-Served (setting key_printer_addr w.db == []) (λ _. refuse-Served)
        (λ _. answer_print-Served w (print_receipt o _ _ w) (refl, refl)))

  -- Printing changes the jobs only.
  abbrev pub OnlyPrints : World B → Bool × Text × World B → Type 0
  OnlyPrints w r = let (_, _, v) = r in (v.db ≡ w.db) × (v.nudges ≡ w.nudges)

  printed-OnlyPrints :
      (b : Bool) (w v : World B)
      → v.db ≡ w.db
      → v.nudges ≡ w.nudges
      → OnlyPrints w (printed o (b, v))
  printed-OnlyPrints true w v e n = (e, n)
  printed-OnlyPrints false w v e n = (e, n)

  pub print_sale-OnlyPrints : (sale : Sale) (w : World B) → OnlyPrints w (print_sale o sale w)
  unfolding print_sale
  print_sale-OnlyPrints sale w =
      if_lem (OnlyPrints w) _ (refl, refl) (printed-OnlyPrints _ w _ refl refl)

  answer_reprint-Served :
      (w : World B) (r : Bool × Text × World B) → OnlyPrints w r → Served o w (answer_reprint o r)
  answer_reprint-Served w (true, message, v) h = record { outcome = inl h }
  answer_reprint-Served w (false, message, v) h = record { outcome = inl h }

  reprint_found-Served : (found : Option Sale) (w : World B) → Served o w (reprint_found o found w)
  reprint_found-Served none w = refuse-Served
  reprint_found-Served (some sale) w =
      answer_reprint-Served w (print_sale o sale w) (print_sale-OnlyPrints sale w)

  handle_reprint-Served :
      (m : Method) (body : Option Text) (w : World B) → Served o w (handle_reprint o m body w)
  unfolding handle_reprint
  handle_reprint-Served m body w = only_post-Served m (
      with_body-Served body _ _ (λ id.
        if-Served (id == []) (λ _. refuse-Served)
          (λ _. reprint_found-Served (sale_by_id id w.db) w)))

  -- A sale that is saved is answered 200, and its receipt changes the database no more.
  pub after_sale-done :
      (print : Option Bool) (sale : Sale) (w : World B)
      → ((after_sale o print sale w).0.status ≡ 200) × ((after_sale o print sale w).1.db ≡ w.db)
  unfolding after_sale
  after_sale-done print sale w =
      if_lem (λ (a : Answer B). (a.0.status ≡ 200) × (a.1.db ≡ w.db)) (wants_print print)
        (refl, (print_sale-OnlyPrints sale w).0) (refl, refl)

  handle_sales-Served :
      (m : Method) (body : Option SaleForm) (w : World B) → Served o w (handle_sales o m body w)
  unfolding handle_sales
  handle_sales-Served m body w = only_post-Served m (
      with_body-Served body _ _ (λ form.
        if-Served (no_items form.items) (λ _. refuse-Served)
          (λ _.
            after_store-Served (create_sale o.now o.draws.record_id (sale_input form) w.db) _ _
              (λ sale db e. sold _ sale e)
              (λ sale w'.
                let (done, same) = after_sale-done form.print sale (nudge_sync o w') in
                (done, same ∙ nudge_sync-db o w')))))

  -- Every request is answered 200 and made one change of the database by an operation of the store, or
  -- it left the database and the sync requests as they were: so does every request that is refused.
  pub serve-Served : (r : Request) (w : World B) → Served o w (serve o r w)
  unfolding serve
  serve-Served (test_print m body) w = handle_test_print-Served m body w
  serve-Served (receipt_preview query) w = reply-Served
  serve-Served (receipt_test m theme) w = handle_receipt_test-Served m theme w
  serve-Served (logo m body) w = handle_logo-Served m body w
  serve-Served (logo_delete m) w = handle_logo_delete-Served m w
  serve-Served (products m body) w = handle_products-Served m body w
  serve-Served (product_update m body) w = handle_product_update-Served m body w
  serve-Served (product_delete m body) w = handle_product_delete-Served m body w
  serve-Served (product_restock m body) w = handle_product_restock-Served m body w
  serve-Served (settings m body) w = handle_settings-Served m body w
  serve-Served (sales m body) w = handle_sales-Served m body w
  serve-Served sales_today w = reply-Served
  serve-Served (sales_search m body) w =
      only_post-Served m (with_body-Served body _ _ (λ req. reply-Served))
  serve-Served analytics w = reply-Served
  serve-Served (reprint m body) w = handle_reprint-Served m body w
