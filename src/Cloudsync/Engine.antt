-- ===== src/Cloudsync/Engine.antt =====
-- internal/cloudsync/engine.go: one sync cycle, push then pull, over the store of Boltstore. The
-- transport (`SyncClient`) is a parameter: what it answers is the cloud's. Each store call is a
-- transaction of its own, and the till goes on selling while a request is in flight: what it does
-- to the database meanwhile is the argument `during_push` or `during_pull`.
pub mod Cycle
pub mod Pushing
use pos_agent.Base.{
  no_items, ℕ, Bool, true, false, ◌&&◌, not, Option, none, some, List, [], ◌∷◌, map, Text,
  if◌then◌else◌,
}
use pos_agent.Base.Int.{ℤ}
use pos_agent.Bolt.{Bolt}
use pos_agent.Domain.{Time, Product, Sale, StockEvent, SyncState}
use pos_agent.Boltstore.Db.{Db}
use pos_agent.Boltstore.Outbox.{
  sync_state, pending_products, pending_sales, pending_stock_events, pending_settings, clear_pushed,
  set_cursor, set_sync_result,
}
use pos_agent.Boltstore.Pull.{Pulled, apply_pulled}

pub record PushPayload : Type 0 where
  pub products : List Product
  pub sales : List Sale
  pub stock_events : List StockEvent
  pub settings : Option (List (Text × Text) × Time)

pub record PullResult : Type 0 where
  pub cursor : ℤ
  pub changes : Pulled

-- An error is its message, `err.Error()`.
pub data Reply {ℓ} (A : Type ℓ) : Type ℓ where
  answer : A → Reply A
  failed : Text → Reply A

-- `SyncClient`: base URL, token, then the request.
pub record SyncClient : Type 0 where
  pub push : Text → Text → PushPayload → Reply (Unit {0})
  pub pull : Text → Text → ℤ → Reply PullResult

-- What `push` reads before it calls the cloud.
unfoldable pub gather : {B : Bolt} → Db B → PushPayload
gather db = record {
  products = pending_products db;
  sales = pending_sales db;
  stock_events = pending_stock_events db;
  settings = pending_settings db;
}

abbrev pub is_dirty {ℓ} : {A : Type ℓ} → Option A → Bool
is_dirty none = false
is_dirty (some _) = true

unfoldable pub is_empty : PushPayload → Bool
is_empty payload =
    no_items payload.products
    && no_items payload.sales
    && no_items payload.stock_events
    && not (is_dirty payload.settings)

abbrev pub dirty_since : {A : Type 0} → Option (A × Time) → Time
dirty_since none = 0
dirty_since (some (_, at)) = at

-- The call of `ClearPushed` with the ids of what was pushed.
unfoldable pub clear_gathered : {B : Bolt} → PushPayload → Db B → Db B
clear_gathered payload =
    clear_pushed (map (λ (p : Product). p.id) payload.products)
      (map (λ (s : Sale). s.id) payload.sales)
      (map (λ (ev : StockEvent). ev.id) payload.stock_events) (dirty_since payload.settings)
      (is_dirty payload.settings)

-- A step that may fail leaves the database that it reached.
abbrev pub Outcome : Bolt → Type 0
Outcome B = Option Text × Db B

-- What follows the answer to a push, and to a pull.
unfoldable pub pushed : {B : Bolt} → PushPayload → Reply (Unit {0}) → Db B → Outcome B
unfolding clear_gathered
pushed payload (failed message) db = (some message, db)
pushed payload (answer _) db = (none, clear_gathered payload db)

unfoldable pub pulled : {B : Bolt} → Reply PullResult → Db B → Outcome B
pulled (failed message) db = (some message, db)
pulled (answer res) db = (none, set_cursor res.cursor (apply_pulled res.changes db))

-- `record`
unfoldable pub record_outcome : {B : Bolt} → Time → Option Text → Db B → Db B
record_outcome now none db = set_sync_result now [] db
record_outcome now (some message) db = set_sync_result now message db

module _ {B : Bolt} (client : SyncClient) where
  -- `push`
  unfoldable pub push : SyncState → (Db B → Db B) → Db B → Outcome B
  unfolding gather is_empty pushed
  push st during_push db =
      let payload = gather db in
      if is_empty payload
      then (none, db)
      else pushed payload (client.push st.base_url st.token payload) (during_push db)

  -- `pull`
  unfoldable pub pull : SyncState → (Db B → Db B) → Db B → Outcome B
  unfolding pulled
  pull st during_pull db = pulled (client.pull st.base_url st.token st.cursor) (during_pull db)

  -- The part of `SyncOnce` after a push.
  unfoldable pub after_push : Time → (Db B → Db B) → Outcome B → Outcome B
  unfolding pull record_outcome
  after_push now during_pull (some message, db) =
      (some message, record_outcome now (some message) db)
  after_push now during_pull (none, db) =
      let (e, db') = pull (sync_state db) during_pull db in (e, record_outcome now e db')

  -- `SyncOnce`
  unfoldable pub sync_once : Time → (Db B → Db B) → (Db B → Db B) → Db B → Outcome B
  unfolding push after_push
  sync_once now during_push during_pull db =
      let st = sync_state db in
      if st.linked then after_push now during_pull (push st during_push db) else (none, db)
