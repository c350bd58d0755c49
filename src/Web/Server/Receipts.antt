-- ===== src/Web/Server/Receipts.antt =====
-- internal/web/server.go, `handleSales`: a printer never costs a sale.
use pos_agent.Base.{
  inl, inr, ◌≡◌, ◌≢◌, refl, sym, ◌∙◌, subst, false, some, List, [], ◌∷◌, In, no_items,
}
use pos_agent.Bolt.{Bolt, IsLawful}
use pos_agent.Domain.{Sale, SaleLine}
use pos_agent.Boltstore.Db.{Db, ok}
use pos_agent.Boltstore.Outbox.{pending_sales}
use pos_agent.Boltstore.Sales.{create_sale, sale_by_id}
use pos_agent.Boltstore.Sales.Sold.{create_sale_allowed}
use pos_agent.Boltstore.Sales.Kept.{create_sale-kept}
use pos_agent.Web.Server.{post, World, Outside, nudge_sync}
use pos_agent.Web.Server.Selling.{SaleForm, sale_input, handle_sales}
use pos_agent.Web.Server.Answers.{nudge_sync-db}
use pos_agent.Web.Server.Served.{after_sale-done}
use pos_agent.Web.Server.Routes.{Request, serve}
use pos_agent.Web.Server.Served.{serve-Served}

some_items : (items : List SaleLine) → items ≢ [] → no_items items ≡ false
some_items [] h = absurd (h refl)
some_items (x ∷ items) h = refl

module _ {B : Bolt} (o : Outside) (w : World B) where
  -- A request to one of the till's own routes (the catalogue, the settings, the logo, selling, the
  -- lookups of sales and printing; not the sync endpoints) that is not answered 200 leaves the database as
  -- it was and asks for no sync.
  pub serve-refused :
      (r : Request)
      → (serve o r w).0.status ≢ 200
      → ((serve o r w).1.db ≡ w.db) × ((serve o r w).1.nudges ≡ w.nudges)
  serve-refused r refused = elim (serve-Served o r w).outcome [
    | inl same ↦ same
    | inr (done, change) ↦ absurd (refused done)
  ]

  -- A sale that the store completes is answered 200, is found under its id and waits to be uploaded,
  -- whatever becomes of its receipt: without a printer, with one that is off, or with one that works.
  pub handle_sales-kept :
      IsLawful B
      → (form : SaleForm) (sale : Sale) (db : Db B)
      → create_sale o.now o.draws.record_id (sale_input form) w.db ≡ ok (sale, db)
      → let (response, w') = handle_sales o post (some form) w in
        (response.status ≡ 200)
        × (w'.db ≡ db)
        × (sale_by_id o.draws.record_id w'.db ≡ some sale)
        × In sale (pending_sales w'.db)
  unfolding handle_sales
  handle_sales-kept L form sale db completed =
      let (items, allowed, _, _) =
        create_sale_allowed w.db o.now o.draws.record_id (sale_input form) (sale, db) completed in
      let (found, waits) =
        create_sale-kept L w.db o.now o.draws.record_id (sale_input form) (sale, db) completed in
      let sold : World B = record w { db = db } in
      let (done, same) = after_sale-done o form.print sale (nudge_sync o sold) in
      let e = same ∙ nudge_sync-db o sold in
      rw (some_items form.items allowed.some_line, completed)
        (
          done,
          e,
          subst (λ d. sale_by_id o.draws.record_id d ≡ some sale) (sym e) found,
          subst (λ d. In sale (pending_sales d)) (sym e) waits,
        )
