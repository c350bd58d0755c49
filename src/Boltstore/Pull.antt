-- ===== src/Boltstore/Pull.antt =====
-- internal/store/boltstore/sync.go, "Applying pulled changes": merging what the cloud sends.
pub mod Echo
pub mod Holding
pub mod Merge
pub mod Newest
pub mod Replay
pub mod Settling
use pos_agent.Base.{
  ℕ, Bool, true, false, ◌&&◌, not, Option, none, some, List, [], ◌∷◌, Text, text_eq, ◌==◌,
  if◌then◌else◌,
}
use pos_agent.Bolt.{Bolt}
use pos_agent.Domain.{Time, Product, Sale, StockEvent, after}
use pos_agent.Boltstore.Db.{Db}
use pos_agent.Boltstore.Products.{put_product, index_barcode, drop_barcode, is_some}
use pos_agent.Boltstore.Sales.{put_sale}
use pos_agent.Boltstore.Settings.{Settings, put_setting, sync_setting_keys}

-- The write of a pulled product, and its place in the barcode index.
unfoldable pub store_pulled : {B : Bolt} → Product → Db B → Db B
unfolding put_product index_barcode
store_pulled p db =
    let stored = put_product p.id p db in
    if p.active then index_barcode p.barcode p.id stored else stored

-- The merge with the local product of the same id.
unfoldable pub merge_product : {B : Bolt} → Product → Option Product → Db B → Db B
unfolding store_pulled drop_barcode
merge_product p none db = store_pulled p db
merge_product p (some existing) db =
    if not (after p.updated_at existing.updated_at)
    then db
    else store_pulled p (drop_barcode existing.barcode db)

-- `applyPulledProduct`
unfoldable pub apply_product : {B : Bolt} → Product → Db B → Db B
unfolding merge_product
apply_product {B} p db = merge_product p (B.get Product db.products p.id) db

-- `applyPulledSale`
unfoldable pub apply_sale : {B : Bolt} → Sale → Db B → Db B
unfolding put_sale
apply_sale {B} sale db = if is_some (B.get Sale db.sales sale.id) then db else put_sale sale db

-- `applyPulledStockEvent`
unfoldable pub apply_stock_event : {B : Bolt} → StockEvent → Db B → Db B
apply_stock_event {B} ev db =
    if is_some (B.get StockEvent db.stock_events ev.id)
    then db
    else record db { stock_events = B.put StockEvent db.stock_events ev.id ev }

-- A key that the pulled map lacks is left alone.
unfoldable pub put_if_given : {B : Bolt} → Text → Option Text → Db B → Db B
unfolding put_setting
put_if_given k none db = db
put_if_given k (some v) db = put_setting k v db

-- The loop over the keys that sync.
unfoldable pub put_settings : {B : Bolt} → Settings → List Text → Db B → Db B
unfolding put_if_given
put_settings pulled [] db = db
put_settings pulled (k ∷ keys) db = put_settings pulled keys (put_if_given k (pulled k) db)

-- Settings that wait to be pushed win, where they are the newer ones.
unfoldable pub keeps_local : Time → Option Time → Bool
keeps_local at none = false
keeps_local at (some local) = after local at

-- `applyPulledSettings`
unfoldable pub apply_settings : {B : Bolt} → Settings → Time → Db B → Db B
unfolding keeps_local put_settings
apply_settings pulled at db =
    if keeps_local at db.sync_state.settings_due
    then db
    else put_settings pulled sync_setting_keys db

-- What one pull brings. `none` is a nil map or time.
pub record Pulled : Type 0 where
  pub products : List Product
  pub sales : List Sale
  pub stock_events : List StockEvent
  pub settings : Option (Settings × Time)

unfoldable pub apply_each : {A S : Type 0} → (A → S → S) → List A → S → S
apply_each f [] s = s
apply_each f (x ∷ xs) s = apply_each f xs (f x s)

abbrev pub apply_pulled_settings : {B : Bolt} → Option (Settings × Time) → Db B → Db B
apply_pulled_settings none db = db
apply_pulled_settings (some (pulled, at)) db = apply_settings pulled at db

-- `ApplyPulled`
unfoldable pub apply_pulled : {B : Bolt} → Pulled → Db B → Db B
unfolding apply_each
apply_pulled pulled db = apply_pulled_settings pulled.settings (
    apply_each apply_stock_event pulled.stock_events
      (apply_each apply_sale pulled.sales (apply_each apply_product pulled.products db)))
