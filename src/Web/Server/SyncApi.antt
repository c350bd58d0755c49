-- ===== src/Web/Server/SyncApi.antt =====
-- internal/web/sync.go: the sync endpoints over the controller of the cloud link.
pub mod Reported
use pos_agent.Base.{
  ℕ, Bool, true, false, ◌||◌, not, Option, none, some, [], ◌++◌, Text, text, text_eq, ◌==◌,
  if◌then◌else◌,
}
use pos_agent.Bolt.{Bolt}
use pos_agent.Boltstore.Db.{Db}
use pos_agent.Domain.{Time}
use pos_agent.Cloudsync.Client.{Http}
use pos_agent.Cloudsync.Controller.{
  Controller, Status, status, sync, link_device, unlink_device, is_offline,
}
use pos_agent.Web.Server.{Method, get, post, other, capitalize}

-- What a sync endpoint sends: an error, that there is no sync, or the state of the link, with the address
-- that the form offers.
pub data Report : Type 0 where
  problem : Text → Report
  unavailable : Report
  link_status : Text → Status → Report

pub record SyncResponse : Type 0 where
  pub code : ℕ
  pub report : Report

abbrev pub SyncAnswer : Bolt → Type 0
SyncAnswer B = SyncResponse × Controller B

-- The body of `handleSyncLink`.
pub record LinkForm : Type 0 where
  pub base_url : Text
  pub email : Text
  pub password : Text

-- The server's `sync` and `cloudURL`, and what a request meets outside: the cloud, the clock, what the
-- till does while a request is in flight, and `strings.TrimSpace`. Without `has_sync` the agent is local.
pub record SyncOutside (B : Bolt) : Type 0 where
  pub has_sync : Bool
  pub cloud_url : Text
  pub http : Http
  pub unreachable : Text → Bool
  pub now : Time
  pub during_push : Db B → Db B
  pub during_pull : Db B → Db B
  pub trim_space : Text → Text

abbrev offline_message : Text
offline_message =
    text
      "You appear to be offline. Your changes are saved on this device and will sync when you reconnect."

abbrev pub not_available : Text
not_available = text "Cloud sync is not available on this device."

module _ {B : Bolt} (o : SyncOutside B) where
  abbrev pub fail : ℕ → Text → Controller B → SyncAnswer B
  fail code message c = (record { code = code; report = problem message }, c)

  -- `writeSyncStatus`
  unfoldable pub write_sync_status : Controller B → SyncAnswer B
  write_sync_status c =
      if not o.has_sync
      then (record { code = 200; report = unavailable }, c)
      else (record { code = 200; report = link_status o.cloud_url (status c) }, c)

  abbrev if_posted : Method → Controller B → SyncAnswer B → SyncAnswer B
  if_posted post c next = next
  if_posted _ c next = fail 405 (text "Method not allowed.") c

  abbrev pub after_link : Option Text × Controller B → SyncAnswer B
  after_link (none, c) = write_sync_status c
  after_link (some message, c) = fail 400 (capitalize message ++ text ".") c

  -- The part of `handleSyncLink` on a body that was read.
  unfoldable pub link_form : LinkForm → Controller B → SyncAnswer B
  unfolding write_sync_status
  link_form form c =
      let given = o.trim_space form.base_url in
      let base = if given == [] then o.cloud_url else given in
      let email = o.trim_space form.email in
      if email == [] || form.password == []
      then fail 400 (text "Please enter your email and password.") c
      else if base == []
      then fail 500 (text "Cloud sync is not set up on this device.") c
      else after_link (
          link_device o.http o.unreachable o.now o.during_push o.during_pull base email
            form.password c)

  abbrev pub read_form : Option LinkForm → Controller B → SyncAnswer B
  read_form none c = fail 400 (text "Could not read your details.") c
  read_form (some form) c = link_form form c

  -- `handleSyncLink`
  unfoldable pub handle_sync_link : Method → Option LinkForm → Controller B → SyncAnswer B
  unfolding link_form
  handle_sync_link method body c =
      if_posted method c (if not o.has_sync then fail 400 not_available c else read_form body c)

  abbrev pub after_sync : Option Text × Controller B → SyncAnswer B
  after_sync (none, c) = write_sync_status c
  after_sync (some message, c) =
      if is_offline o.unreachable (some message)
      then fail 502 offline_message c
      else fail 502 (capitalize message ++ text ".") c

  -- `handleSyncNow`
  unfoldable pub handle_sync_now : Method → Controller B → SyncAnswer B
  unfolding write_sync_status
  handle_sync_now method c = if_posted method c (
      if not o.has_sync
      then fail 400 not_available c
      else after_sync (sync o.http o.unreachable o.now o.during_push o.during_pull c))

  -- `handleSyncUnlink`
  unfoldable pub handle_sync_unlink : Method → Controller B → SyncAnswer B
  unfolding write_sync_status
  handle_sync_unlink method c =
      if_posted method c (write_sync_status (if o.has_sync then unlink_device c else c))

  -- `handleSyncStatus`
  unfoldable pub handle_sync_status : Controller B → SyncAnswer B
  unfolding write_sync_status
  handle_sync_status c = write_sync_status c
