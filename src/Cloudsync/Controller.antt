-- ===== src/Cloudsync/Controller.antt =====
-- internal/cloudsync/controller.go: the device's link to the cloud, one sync at a time. The mutex makes
-- `Sync` one step of the model. The transport and the kinds of its errors are parameters.
pub mod Loop
pub mod Nudges
mod Tests
use pos_agent.Base.{ℕ, Bool, true, false, not, ◌&&◌, Option, none, some, Text, length}
use pos_agent.Bolt.{Bolt}
use pos_agent.Domain.{Time, SyncState}
use pos_agent.Boltstore.Db.{Db}
use pos_agent.Boltstore.Outbox.{
  sync_state, pending_products, pending_sales, pending_settings, link, unlink,
}
use pos_agent.Cloudsync.Client.{LinkInfo, Http, login, http_client}
use pos_agent.Cloudsync.Engine.{Reply, answer, failed, sync_once, is_dirty}

pub record Controller (B : Bolt) : Type 0 where
  pub db : Db B
  pub trigger : Bool
  pub syncing : Bool
  pub offline : Bool

pub record Status : Type 0 where
  pub state : SyncState
  pub pending_products : ℕ
  pub pending_sales : ℕ
  pub pending_settings : Bool
  pub syncing : Bool
  pub online : Bool

-- `NewController`
abbrev pub new_controller : {B : Bolt} → Db B → Controller B
new_controller db = record { db = db; trigger = false; syncing = false; offline = false }

-- `Nudge`: a full channel stays as it is.
unfoldable pub nudge : {B : Bolt} → Controller B → Controller B
nudge c = record c { trigger = true }

-- `Status`
unfoldable pub status : {B : Bolt} → Controller B → Status
status c =
    let st = sync_state c.db in
    record {
      state = st;
      pending_products = length (pending_products c.db);
      pending_sales = length (pending_sales c.db);
      pending_settings = is_dirty (pending_settings c.db);
      syncing = c.syncing;
      online = st.linked && not c.offline;
    }

-- `IsOffline`; the parameter tells whether the error of a message wraps one of package net.
abbrev pub is_offline : (Text → Bool) → Option Text → Bool
is_offline unreachable none = false
is_offline unreachable (some message) = unreachable message

module _ {B : Bolt} (http : Http) (unreachable : Text → Bool) (now : Time) where
  -- `Sync`, with what the till does while a request is in flight
  unfoldable pub sync : (Db B → Db B) → (Db B → Db B) → Controller B → Option Text × Controller B
  sync during_push during_pull c =
      let (e, db) = sync_once (http_client http) now during_push during_pull c.db in
      (e, record c { db = db; syncing = false; offline = is_offline unreachable e })

  abbrev pub logged_in :
      Text
      → (Db B → Db B)
      → (Db B → Db B)
      → Reply LinkInfo
      → Controller B
      → Option Text × Controller B
  logged_in base_url during_push during_pull (failed message) c = (some message, c)
  logged_in base_url during_push during_pull (answer info) c =
      sync during_push during_pull
        (record c { db = link base_url info.shop_id info.email info.token c.db })

  -- `Link`
  unfoldable pub link_device :
      (Db B → Db B) → (Db B → Db B) → Text → Text → Text → Controller B → Option Text × Controller B
  unfolding sync login
  link_device during_push during_pull base_url email password c =
      logged_in base_url during_push during_pull (login http base_url email password) c

-- `Unlink`
unfoldable pub unlink_device : {B : Bolt} → Controller B → Controller B
unlink_device c = record c { db = unlink c.db }
