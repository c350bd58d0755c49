-- ===== src/Boltstore/Db.antt =====
-- internal/store/boltstore: the buckets of the database, the errors that the operations return, and
-- what one call of an operation draws from its surroundings.
use pos_agent.Base.{◌≡◌, refl, Option, none, List, [], Text, text_eq}
use pos_agent.Base.Int.{ℤ}
use pos_agent.Bolt.{Bolt}
use pos_agent.Domain.{Time, Product, StockEvent, Sale, AuditEntry}

-- `bSyncState`: the link, the cursor and the settings-dirty marker. A field holds what its text
-- stands for; a missing or empty text is the empty text or `none`.
pub record SyncBucket : Type 0 where
  pub linked : Text
  pub base_url : Text
  pub shop_id : Text
  pub email : Text
  pub token : Text
  pub cursor : Option ℤ
  pub last_sync : Option Time
  pub last_error : Text
  pub settings_due : Option Time

-- The keys of `bAudit` are a growing sequence, so it is a list in the order of recording.
pub record Db (B : Bolt) : Type 0 where
  pub products : B.Bucket Product
  pub sales : B.Bucket Sale
  pub settings : B.Bucket Text
  pub blobs : B.Bucket Text
  pub barcode_idx : B.Bucket Text
  pub ref_idx : B.Bucket Unit
  pub audit : List AuditEntry
  pub stock_events : B.Bucket StockEvent
  pub sync_state : SyncBucket
  pub pending_prods : B.Bucket Unit
  pub pending_sales : B.Bucket Unit
  pub pending_stockev : B.Bucket Unit

abbrev pub no_sync : SyncBucket
no_sync = record {
  linked = [];
  base_url = [];
  shop_id = [];
  email = [];
  token = [];
  cursor = none;
  last_sync = none;
  last_error = [];
  settings_due = none;
}

-- `Open` and `init` on a new file
unfoldable pub init : (B : Bolt) → Db B
init B = record {
  products = B.empty Product;
  sales = B.empty Sale;
  settings = B.empty Text;
  blobs = B.empty Text;
  barcode_idx = B.empty Text;
  ref_idx = B.empty Unit;
  audit = [];
  stock_events = B.empty StockEvent;
  sync_state = no_sync;
  pending_prods = B.empty Unit;
  pending_sales = B.empty Unit;
  pending_stockev = B.empty Unit;
}

pub data Error : Type 0 where
  not_found : Error
  barcode_taken : Error
  invalid_quantity : Error
  unknown_product : Text → Error
  empty_sale : Error
  underpaid : Error

-- A transaction returns its result and the new database, or an error: then `db.Update` keeps the
-- database that it had.
pub data Result {ℓ} (T : Type ℓ) : Type ℓ where
  err : Error → Result T
  ok : T → Result T

-- `if err != nil { return err }`, and how a chain of these that succeeded came about.
module _ {ℓ κ} {T : Type ℓ} {U : Type κ} where
  infixl 5 ◌>>=◌
  abbrev pub ◌>>=◌ : Result T → (T → Result U) → Result U
  err why >>= next = err why
  ok t >>= next = next t

  pub >>=-ok_steps :
      (first : Result T) (next : T → Result U) {u : U}
      → (first >>= next) ≡ ok u
      → (t : T) × (first ≡ ok t) × (next t ≡ ok u)
  >>=-ok_steps (err why) next done = cc
  >>=-ok_steps (ok t) next done = (t, refl, done)

-- The database after `db.Update`.
abbrev pub committed {ℓ} : {A S : Type ℓ} → S → Result (A × S) → S
committed db (ok (_, db')) = db'
committed db (err _) = db

-- The UUIDs (github.com/google/uuid) that one call draws, one for each place that draws.
pub record Draws : Type 0 where
  pub record_id : Text
  pub event_id : Text
  pub audit_id : Text
  pub audit_id' : Text

pub ok-injective {ℓ} : {A : Type ℓ} (a b : A) → ok a ≡ ok b → a ≡ b
ok-injective a b e = cc
