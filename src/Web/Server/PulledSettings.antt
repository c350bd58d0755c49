-- ===== src/Web/Server/PulledSettings.antt =====
-- internal/store/boltstore/sync.go, `ApplyPulled`: what a pull makes of the tax settings.
use pos_agent.Base.{
  ◌≡◌, refl, sym, ap, ◌∙◌, text_eq, ◌==◌, Bool, true, not, Option, Option-cases, none, some, List,
  [], ◌∷◌, Text, if_lem, inl, inr,
}
use pos_agent.Bolt.{Bolt, IsLawful}
use pos_agent.Domain.{Product, Sale, StockEvent, after}
use pos_agent.Domain.Keys.{key_tax_rate_bps, key_tax_mode}
use pos_agent.Boltstore.Db.{Db}
use pos_agent.Boltstore.Sales.{put_sale}
use pos_agent.Boltstore.Settings.{Settings, put_setting, sync_setting_keys}
use pos_agent.Boltstore.Products.{put_product, index_barcode, drop_barcode, is_some}
use pos_agent.Boltstore.Products.Frame.{index_barcode-SameRest, drop_barcode-SameRest}
use pos_agent.Boltstore.Pull.{
  Pulled, apply_each, apply_product, merge_product, store_pulled, apply_sale, apply_stock_event,
  keeps_local, put_if_given, put_settings, apply_settings, apply_pulled_settings, apply_pulled,
}
use pos_agent.Cloudsync.Engine.{PullResult, Reply, answer, failed}
use pos_agent.Web.Server.SettingsForm.{is_rate, is_mode, passes}
use pos_agent.Web.Server.TaxSettings.{TaxIsValid, TaxIsValid-same, put-passes}

-- The tax settings that a pull brings, where it brings any, are ones that the till could have saved.
abbrev pub PullIsValid : Pulled → Type 0
PullIsValid changes = elim changes.settings [
  | none ↦ Unit
  | some sent ↦
      (passes is_rate (sent.0 key_tax_rate_bps) ≡ true)
      × (passes is_mode (sent.0 key_tax_mode) ≡ true)
]

abbrev pub ReplyIsValid : Reply PullResult → Type 0
ReplyIsValid (failed message) = Unit
ReplyIsValid (answer res) = PullIsValid res.changes

module _ {B : Bolt} where
  -- The products, sales and stock events of a pull are not settings.
  abbrev KeepsSettings : Db B → Db B → Type 0
  KeepsSettings a b = b.settings ≡ a.settings

  index_barcode-settings :
      (barcode id : Text) (db : Db B) → KeepsSettings db (index_barcode barcode id db)
  index_barcode-settings barcode id db = (index_barcode-SameRest barcode id db).settings

  store_pulled-settings : (p : Product) (db : Db B) → KeepsSettings db (store_pulled p db)
  unfolding store_pulled put_product
  store_pulled-settings p db =
      if_lem (KeepsSettings db) p.active
        (index_barcode-settings p.barcode p.id (put_product p.id p db)) refl

  merge_product-settings :
      (p : Product) (old : Option Product) (db : Db B) → KeepsSettings db (merge_product p old db)
  unfolding merge_product
  merge_product-settings p none db = store_pulled-settings p db
  merge_product-settings p (some old) db =
      if_lem (KeepsSettings db) (not (after p.updated_at old.updated_at)) refl (
        store_pulled-settings p (drop_barcode old.barcode db)
        ∙ (drop_barcode-SameRest old.barcode db).settings)

  apply_product-settings : (p : Product) (db : Db B) → KeepsSettings db (apply_product p db)
  unfolding apply_product
  apply_product-settings p db = merge_product-settings p (B.get Product db.products p.id) db

  apply_sale-settings : (sale : Sale) (db : Db B) → KeepsSettings db (apply_sale sale db)
  unfolding apply_sale put_sale
  apply_sale-settings sale db =
      if_lem (KeepsSettings db) (is_some (B.get Sale db.sales sale.id)) refl
        (if_lem (KeepsSettings db) (sale.reference == []) refl refl)

  apply_stock_event-settings :
      (ev : StockEvent) (db : Db B) → KeepsSettings db (apply_stock_event ev db)
  unfolding apply_stock_event
  apply_stock_event-settings ev db =
      if_lem (KeepsSettings db) (is_some (B.get StockEvent db.stock_events ev.id)) refl refl

  apply_each-settings :
      {A : Type 0} (f : A → Db B → Db B)
      → ((x : A) (db : Db B) → KeepsSettings db (f x db))
      → (xs : List A) (db : Db B) → KeepsSettings db (apply_each f xs db)
  unfolding apply_each
  apply_each-settings f keeps [] db = refl
  apply_each-settings f keeps (x ∷ xs) db = apply_each-settings f keeps xs (f x db) ∙ keeps x db

  module _ (L : IsLawful B) where
    put_if_given-passes :
        (test : Text → Bool) (j k : Text) (sent : Settings) (db : Db B)
        → passes test (sent j) ≡ true
        → passes test (B.get Text db.settings j) ≡ true
        → passes test (B.get Text (put_if_given k (sent k) db).settings j) ≡ true
    unfolding put_if_given put_setting
    put_if_given-passes test j k sent db good before = elim (Option-cases (sent k)) [
      | inl missing ↦ rw missing before
      | inr (v, there) ↦
          let own : j ≡ k → test v ≡ true =
            λ same. ap (passes test) (sym there ∙ ap sent (sym same)) ∙ good in
          rw there (put-passes L test j k v db.settings own before)
    ]

    put_settings-passes :
        (test : Text → Bool) (j : Text) (sent : Settings) (keys : List Text) (db : Db B)
        → passes test (sent j) ≡ true
        → passes test (B.get Text db.settings j) ≡ true
        → passes test (B.get Text (put_settings sent keys db).settings j) ≡ true
    unfolding put_settings
    put_settings-passes test j sent [] db good before = before
    put_settings-passes test j sent (k ∷ keys) db good before =
        put_settings-passes test j sent keys (put_if_given k (sent k) db) good
          (put_if_given-passes test j k sent db good before)

    apply_pulled_settings-TaxIsValid :
        (changes : Pulled) (db : Db B)
        → PullIsValid changes
        → TaxIsValid db
        → TaxIsValid (apply_pulled_settings changes.settings db)
    unfolding apply_settings
    apply_pulled_settings-TaxIsValid changes db good h = elim (Option-cases changes.settings) [
      | inl nothing ↦ rw nothing h
      | inr ((sent, at), there) ↦
          let (rate, mode) = rw there at good in
          rw there (
            if_lem (λ (d : Db B). TaxIsValid d) (keeps_local at db.sync_state.settings_due) {x = db}
              {y = put_settings sent sync_setting_keys db} h
              (
                put_settings-passes is_rate key_tax_rate_bps sent sync_setting_keys db rate h.0,
                put_settings-passes is_mode key_tax_mode sent sync_setting_keys db mode h.1,
              ))
    ]

    pub apply_pulled-TaxIsValid :
        (changes : Pulled) (db : Db B)
        → PullIsValid changes
        → TaxIsValid db
        → TaxIsValid (apply_pulled changes db)
    unfolding apply_pulled
    apply_pulled-TaxIsValid changes db good h =
        let a = apply_each apply_product changes.products db in
        let b = apply_each apply_sale changes.sales a in
        let c = apply_each apply_stock_event changes.stock_events b in
        let same : KeepsSettings db c =
          apply_each-settings apply_stock_event apply_stock_event-settings changes.stock_events b
          ∙ apply_each-settings apply_sale apply_sale-settings changes.sales a
          ∙ apply_each-settings apply_product apply_product-settings changes.products db in
        apply_pulled_settings-TaxIsValid changes c good (TaxIsValid-same db c same h)
