-- ===== src/Web/Server.antt =====
-- internal/web/server.go: what the handlers of the local API share: requests, answers, and the world
-- that a handler reads and changes. A bolt transaction fails only by the errors of Boltstore/Db, so
-- that the answers to a broken disk are not here.
pub mod Catalogue
pub mod SettingsForm
pub mod Printing
pub mod Selling
pub mod SyncApi
pub mod Routes
pub mod Answers
pub mod Served
pub mod Receipts
pub mod TaxSettings
pub mod PulledSettings
pub mod SyncedSettings
pub mod History
mod Tests
use Prim.Native.Nat.{suc}
use pos_agent.Base.{
  ℕ, ◌-◌, Bool, true, false, ◌&&◌, Option, none, some, List, [], ◌∷◌, ◌++◌, Text, text,
  if◌then◌else◌, leb,
}
use pos_agent.Base.Int.{ℤ}
use pos_agent.Bolt.{Bolt}
use pos_agent.Domain.{Time, Product, Sale}
use pos_agent.Boltstore.Db.{
  Db, Draws, Error, not_found, barcode_taken, invalid_quantity, unknown_product, empty_sale,
  underpaid, Result, ok, err,
}
use pos_agent.Boltstore.Settings.{Settings}
use pos_agent.Boltstore.Analytics.{Calendar, Analytics}
use pos_agent.Printer.Logo.{Image}

pub data Method : Type 0 where
  get post other : Method

-- The JSON of an answer, by what it carries.
pub data Body : Type 0 where
  error_message : Text → Body
  done : Body
  one_product : Product → Body
  all_products : List Product → Body
  all_settings : Settings → Body
  picture : Text → Body
  preview : Text → Body
  sale_done : Sale → Bool → Text → Body
  sales_total : List Sale → ℤ → Body
  sales_found : List Sale → Bool → Body
  summary : Analytics → Body

pub record Response : Type 0 where
  pub status : ℕ
  pub body : Body

-- What the handlers change: the database, how often a sync was asked for, and the jobs that were
-- handed to a printer, the newest first, each with its address.
pub record World (B : Bolt) : Type 0 where
  pub db : Db B
  pub nudges : ℕ
  pub jobs : List (Text × Text)

abbrev pub Answer : Bolt → Type 0
Answer B = Response × World B

-- The clock and the UUIDs of one `SetSetting`.
pub record SettingDraws : Type 0 where
  pub now : Time
  pub now' : Time
  pub audit_id : Text

-- What a request meets outside of the repository: the clock, the UUIDs, the network, the image
-- decoder, the calendar, and functions of package strings, strconv and time. `send_raw` tells whether
-- the printer at an address took a job. `time.Parse` reads a plain date in UTC, and `AddDate` then adds
-- days in UTC; `calendar` is that of the local zone.
pub record Outside : Type 0 where
  pub now : Time
  pub draws : Draws
  pub setting_draws : Text → SettingDraws
  pub has_sync : Bool
  pub send_raw : Text → Text → Bool
  pub image_decode : Text → Option Image
  pub valid_image : Text → Bool
  pub calendar : Calendar
  pub format_when : Time → Text
  pub trim_space : Text → Text
  pub to_lower : Text → Text
  pub quote : Text → Text
  pub parse_rfc3339 : Text → Option Time
  pub parse_date : Text → Option Time
  pub add_date_utc : ℤ → Time → Time

module _ {B : Bolt} where
  -- `writeJSON` with status 200
  abbrev pub reply : Body → World B → Answer B
  reply body w = (record { status = 200; body = body }, w)

  -- `writeError`
  abbrev pub refuse : ℕ → Text → World B → Answer B
  refuse status message w = (record { status = status; body = error_message message }, w)

  -- The check of the method that a handler starts with.
  abbrev pub only_post : Method → World B → Answer B → Answer B
  only_post post w next = next
  only_post _ w next = refuse 405 (text "Method not allowed.") w

  -- The decoding of a body that a handler refuses with 400.
  abbrev pub with_body : {A : Type 0} → Option A → Text → World B → (A → Answer B) → Answer B
  with_body none message w next = refuse 400 message w
  with_body (some body) message w next = next body

  -- The result of a store call: an error is answered 400, a success goes on in the new database.
  abbrev pub after_store :
      {A : Type 0}
      → Result (A × Db B)
      → (Error → Text)
      → World B
      → (A → World B → Answer B)
      → Answer B
  after_store (err e) says w next = refuse 400 (says e) w
  after_store (ok (a, db)) says w next = next a (record w { db = db })

  -- `nudgeSync`
  unfoldable pub nudge_sync : Outside → World B → World B
  nudge_sync o w = if o.has_sync then record w { nudges = suc w.nudges } else w

-- `capitalize`, on an ASCII letter
unfoldable pub capitalize : Text → Text
capitalize [] = []
capitalize (c ∷ s) = (if leb b'a' c && leb c b'z' then c - 32 else c) ∷ s

-- `err.Error()`
unfoldable pub error_text : Outside → Error → Text
error_text o not_found = text "that item could not be found"
error_text o barcode_taken = text "an item with this barcode already exists"
error_text o invalid_quantity = text "invalid quantity"
error_text o (unknown_product id) = text "unknown product " ++ o.quote id
error_text o empty_sale = text "empty sale"
error_text o underpaid = text "payment is less than the total"
