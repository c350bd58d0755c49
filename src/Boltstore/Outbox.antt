-- ===== src/Boltstore/Outbox.antt =====
-- internal/store/boltstore/sync.go: the link to a cloud shop, and the outbox of what waits to be
-- pushed.
pub mod Marks
use pos_agent.Base.{
  ℕ, Bool, true, false, ◌&&◌, not, Option, none, some, List, [], ◌∷◌, Text, text, text_eq, ◌==◌,
  if◌then◌else◌, map,
}
use pos_agent.Base.Int.{ℤ, pos}
use pos_agent.Bolt.{Bolt}
use pos_agent.Domain.{Time, Product, Sale, StockEvent, SyncState, after}
use pos_agent.Boltstore.Db.{Db, SyncBucket}
use pos_agent.Boltstore.Settings.{Settings, settings, sync_setting_keys, value_or_empty}

abbrev time_or_zero : Option Time → Time
time_or_zero none = 0
time_or_zero (some t) = t

abbrev int_or_zero : Option ℤ → ℤ
int_or_zero none = pos 0
int_or_zero (some n) = n

-- `SyncState`
unfoldable pub sync_state : {B : Bolt} → Db B → SyncState
sync_state db =
    let b = db.sync_state in
    record {
      linked = b.linked == text "yes";
      base_url = b.base_url;
      shop_id = b.shop_id;
      email = b.email;
      token = b.token;
      cursor = int_or_zero b.cursor;
      last_sync = time_or_zero b.last_sync;
      last_error = b.last_error;
    }

-- `Link`. The cursor is not among the keys that it writes.
unfoldable pub link : {B : Bolt} → Text → Text → Text → Text → Db B → Db B
link base_url shop_id email token db = record db {
  sync_state = record db.sync_state {
    linked = text "yes";
    base_url = base_url;
    shop_id = shop_id;
    email = email;
    token = token;
    last_error = [];
  };
}

-- `Unlink`
unfoldable pub unlink : {B : Bolt} → Db B → Db B
unlink db = record db {
  sync_state = record db.sync_state {
    linked = [];
    base_url = [];
    shop_id = [];
    email = [];
    token = [];
    cursor = none;
    last_error = [];
  };
}

-- `SetToken`
unfoldable pub set_token : {B : Bolt} → Text → Db B → Db B
set_token token db = record db { sync_state = record db.sync_state { token = token } }

-- `SetCursor`
unfoldable pub set_cursor : {B : Bolt} → ℤ → Db B → Db B
set_cursor cursor db = record db { sync_state = record db.sync_state { cursor = some cursor } }

-- `SetSyncResult`
unfoldable pub set_sync_result : {B : Bolt} → Time → Text → Db B → Db B
set_sync_result at message db = record db {
  sync_state = record db.sync_state { last_sync = some at; last_error = message };
}

-- A mark with no record is passed over.
unfoldable pub add_record : {V : Type 0} → Option V → List V → List V
add_record none rest = rest
add_record (some v) rest = v ∷ rest

-- The loop of `PendingProducts`, `PendingSales` and `PendingStockEvents`: the current records of
-- the marked ids.
unfoldable pub marked_records : {V : Type 0} → (Text → Option V) → List (Text × Unit {0}) → List V
unfolding add_record
marked_records get [] = []
marked_records get ((id, _) ∷ marks) = add_record (get id) (marked_records get marks)

unfoldable pub pending_products : {B : Bolt} → Db B → List Product
unfolding marked_records
pending_products {B} db =
    marked_records (B.get Product db.products) (B.entries Unit db.pending_prods)

unfoldable pub pending_sales : {B : Bolt} → Db B → List Sale
unfolding marked_records
pending_sales {B} db = marked_records (B.get Sale db.sales) (B.entries Unit db.pending_sales)

unfoldable pub pending_stock_events : {B : Bolt} → Db B → List StockEvent
unfolding marked_records
pending_stock_events {B} db =
    marked_records (B.get StockEvent db.stock_events) (B.entries Unit db.pending_stockev)

-- `map[string]string` of the keys that sync, as pairs.
unfoldable pub synced_values : Settings → List Text → List (Text × Text)
synced_values all [] = []
synced_values all (k ∷ keys) = (k, value_or_empty (all k)) ∷ synced_values all keys

unfoldable pub settings_if_due : Settings → Option Time → Option (List (Text × Text) × Time)
unfolding synced_values
settings_if_due all none = none
settings_if_due all (some at) = some (synced_values all sync_setting_keys, at)

-- `PendingSettings`, `none` where the settings are not dirty
unfoldable pub pending_settings : {B : Bolt} → Db B → Option (List (Text × Text) × Time)
unfolding settings_if_due
pending_settings db = settings_if_due (settings db) db.sync_state.settings_due

-- A loop of `Delete` over the pushed ids.
unfoldable pub delete_all : (B : Bolt) → List Text → B.Bucket Unit → B.Bucket Unit
delete_all B [] marks = marks
delete_all B (id ∷ ids) marks = delete_all B ids (B.delete Unit marks id)

-- Clear the settings marker, unless it has advanced past what was pushed.
unfoldable pub clear_due : Bool → Time → Option Time → Option Time
clear_due false at due = due
clear_due true at none = none
clear_due true at (some t) = if after t at then some t else none

-- `ClearPushed`
unfoldable pub clear_pushed :
    {B : Bolt} → List Text → List Text → List Text → Time → Bool → Db B → Db B
unfolding delete_all clear_due
clear_pushed {B} product_ids sale_ids event_ids settings_at settings_pushed db = record db {
  pending_prods = delete_all B product_ids db.pending_prods;
  pending_sales = delete_all B sale_ids db.pending_sales;
  pending_stockev = delete_all B event_ids db.pending_stockev;
  sync_state = record db.sync_state {
    settings_due = clear_due settings_pushed settings_at db.sync_state.settings_due;
  };
}
