-- ===== src/Web/Server/History.antt =====
-- internal/web/server.go and sync.go over internal/cloudsync: the tax settings over a run of the till, with
-- the requests of its pages and of its sync endpoints.
use pos_agent.Base.{◌≡◌, refl, text_eq, true, Option, List, [], ◌∷◌, Text, All}
use pos_agent.Base.Int.{pos, ◌≤ℤ◌}
use pos_agent.Bolt.{Bolt, IsLawful}
use pos_agent.Domain.Keys.{key_tax_rate_bps, key_tax_mode}
use pos_agent.Boltstore.Db.{init}
use pos_agent.Boltstore.Sales.{tax_from_bucket}
use pos_agent.Cloudsync.Controller.{Controller, new_controller, sync}
use pos_agent.Web.Server.{Method, World, Outside}
use pos_agent.Web.Server.SettingsForm.{is_mode}
use pos_agent.Web.Server.Routes.{Request, serve}
use pos_agent.Web.Server.SyncApi.{
  SyncOutside, LinkForm, handle_sync_link, handle_sync_now, handle_sync_unlink,
}
use pos_agent.Web.Server.TaxSettings.{
  TaxIsValid, serve-TaxIsValid, tax_from_bucket-valid, new_world,
}
use pos_agent.Web.Server.SyncedSettings.{
  CloudIsValid, sync-TaxIsValid, handle_sync_now-Leaves, handle_sync_link-Leaves,
  handle_sync_unlink-Leaves,
}

-- What happens to a till: a request to one of its own routes, one to a sync endpoint, or a sync of the
-- background loop, each with what it meets outside.
pub data Event (B : Bolt) : Type 0 where
  page : Outside → Request → Event B
  sync_now : SyncOutside B → Method → Event B
  sync_link : SyncOutside B → Method → Option LinkForm → Event B
  sync_unlink : SyncOutside B → Method → Event B
  background : SyncOutside B → Event B

-- The world of the pages and the controller of the sync share the database.
abbrev pub after_event : {B : Bolt} → Event B → World B → Controller B → World B × Controller B
after_event (page o r) w c = let w' = (serve o r w).1 in (w', record c { db = w'.db })
after_event (sync_now s m) w c = let c' = (handle_sync_now s m c).1 in (record w { db = c'.db }, c')
after_event (sync_link s m body) w c =
    let c' = (handle_sync_link s m body c).1 in (record w { db = c'.db }, c')
after_event (sync_unlink s m) w c =
    let c' = (handle_sync_unlink s m c).1 in (record w { db = c'.db }, c')
after_event (background s) w c =
    let c' = (sync s.http s.unreachable s.now s.during_push s.during_pull c).1 in
    (record w { db = c'.db }, c')

unfoldable pub after_events : {B : Bolt} → List (Event B) → World B → Controller B → World B
unfolding serve handle_sync_now handle_sync_link handle_sync_unlink sync
after_events [] w c = w
after_events (e ∷ es) w c = let (w', c') = after_event e w c in after_events es w' c'

abbrev pub EventIsValid : {B : Bolt} → Event B → Type 0
EventIsValid (page o r) = Unit
EventIsValid (sync_now s m) = CloudIsValid s
EventIsValid (sync_link s m body) = CloudIsValid s
EventIsValid (sync_unlink s m) = CloudIsValid s
EventIsValid (background s) = CloudIsValid s

module _ {B : Bolt} (L : IsLawful B) where
  after_events-TaxIsValid :
      (es : List (Event B)) (w : World B) (c : Controller B)
      → All EventIsValid es
      → TaxIsValid w.db
      → TaxIsValid c.db
      → TaxIsValid (after_events es w c).db
  unfolding after_events
  after_events-TaxIsValid [] w c good h k = h
  after_events-TaxIsValid (page o r ∷ es) w c good h k =
      let v = serve-TaxIsValid L o r w h in
      after_events-TaxIsValid es (serve o r w).1 (record c { db = (serve o r w).1.db }) good.1 v v
  after_events-TaxIsValid (sync_now s m ∷ es) w c (own, good) h k =
      let c' = (handle_sync_now s m c).1 in
      let v = handle_sync_now-Leaves L s own m c k in
      after_events-TaxIsValid es (record w { db = c'.db }) c' good v v
  after_events-TaxIsValid (sync_link s m body ∷ es) w c (own, good) h k =
      let c' = (handle_sync_link s m body c).1 in
      let v = handle_sync_link-Leaves L s own m body c k in
      after_events-TaxIsValid es (record w { db = c'.db }) c' good v v
  after_events-TaxIsValid (sync_unlink s m ∷ es) w c (own, good) h k =
      let c' = (handle_sync_unlink s m c).1 in
      let v = handle_sync_unlink-Leaves L s own m c k in
      after_events-TaxIsValid es (record w { db = c'.db }) c' good v v
  after_events-TaxIsValid (background s ∷ es) w c (own, good) h k =
      let c' = (sync s.http s.unreachable s.now s.during_push s.during_pull c).1 in
      let v = sync-TaxIsValid L s own c k in
      after_events-TaxIsValid es (record w { db = c'.db }) c' good v v

  -- Whatever requests to its pages and to its sync endpoints, and whatever syncs in the background,
  -- happened to a till since its database was new, the next sale is charged with a rate that is not
  -- negative and in one of the three modes: where the cloud sent only such tax settings, which a pull
  -- does not test, and what the till did while a request was in flight kept them so.
  pub after_events-tax :
      (es : List (Event B))
      → All EventIsValid es
      → let tax = tax_from_bucket (after_events es (new_world B) (new_controller (init B))).db in
        (pos 0 ≤ℤ tax.0) × (is_mode tax.1 ≡ true)
  unfolding init
  after_events-tax es good =
      let v : TaxIsValid (init B) =
        (rw (L.get-empty Text key_tax_rate_bps) refl, rw (L.get-empty Text key_tax_mode) refl) in
      tax_from_bucket-valid (after_events es (new_world B) (new_controller (init B))).db
        (after_events-TaxIsValid es (new_world B) (new_controller (init B)) good v v)
