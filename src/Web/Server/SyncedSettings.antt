-- ===== src/Web/Server/SyncedSettings.antt =====
-- internal/web/sync.go over internal/cloudsync: a sync, from an endpoint or the background loop, keeps the
-- tax settings valid where those that the cloud sends are.
use pos_agent.Base.{
  text, ◌||◌, false, if◌then◌else◌, text_eq, ◌==◌, Bool, Bool-cases, true, not, Option, none, some,
  [], Text, if_lem, inl, inr,
}
use pos_agent.Base.Int.{ℤ}
use pos_agent.Bolt.{Bolt, IsLawful}
use pos_agent.Domain.{SyncState}
use pos_agent.Boltstore.Db.{Db}
use pos_agent.Boltstore.Outbox.{clear_pushed, set_cursor, set_sync_result, link, unlink, sync_state}
use pos_agent.Cloudsync.Client.{LinkInfo, login, http_client}
use pos_agent.Cloudsync.Engine.{
  PushPayload, PullResult, Reply, answer, failed, SyncClient, Outcome, gather, is_empty,
  clear_gathered, pushed, push, pulled, pull, record_outcome, after_push, sync_once,
}
use pos_agent.Cloudsync.Controller.{Controller, sync, logged_in, link_device, unlink_device}
use pos_agent.Web.Server.{Method, get, post, other}
use pos_agent.Web.Server.SyncApi.{
  SyncOutside, SyncAnswer, fail, not_available, LinkForm, write_sync_status, after_link, after_sync,
  link_form, read_form, handle_sync_link, handle_sync_now, handle_sync_unlink,
}
use pos_agent.Web.Server.TaxSettings.{TaxIsValid}
use pos_agent.Web.Server.PulledSettings.{ReplyIsValid, apply_pulled-TaxIsValid}

-- What a sync endpoint meets leaves the tax settings valid: those that the cloud sends, and what the till
-- does while a request is in flight.
pub record CloudIsValid {B : Bolt} (s : SyncOutside B) : Type 0 where
  pub pulls :
      (base_url token : Text) (since : ℤ)
      → ReplyIsValid ((http_client s.http).pull base_url token since)
  pub during_push : (db : Db B) → TaxIsValid db → TaxIsValid (s.during_push db)
  pub during_pull : (db : Db B) → TaxIsValid db → TaxIsValid (s.during_pull db)

module _ {B : Bolt} (L : IsLawful B) (s : SyncOutside B) (valid : CloudIsValid s) where
  pushed-TaxIsValid :
      (payload : PushPayload) (reply : Reply (Unit {0})) (db : Db B)
      → TaxIsValid db
      → TaxIsValid (pushed payload reply db).1
  unfolding pushed clear_gathered clear_pushed
  pushed-TaxIsValid payload (failed message) db h = h
  pushed-TaxIsValid payload (answer _) db h = h

  push-TaxIsValid :
      (client : SyncClient) (st : SyncState) (db : Db B)
      → TaxIsValid db
      → TaxIsValid (push client st s.during_push db).1
  unfolding push
  push-TaxIsValid client st db h =
      let payload = gather db in
      let reply = client.push st.base_url st.token payload in
      if_lem (λ (r : Outcome B). TaxIsValid r.1) (is_empty payload) {x = (none, db)}
        {y = pushed payload reply (s.during_push db)} h
        (pushed-TaxIsValid payload reply (s.during_push db) (valid.during_push db h))

  pulled-TaxIsValid :
      (reply : Reply PullResult) (db : Db B)
      → ReplyIsValid reply
      → TaxIsValid db
      → TaxIsValid (pulled reply db).1
  unfolding pulled set_cursor
  pulled-TaxIsValid (failed message) db good h = h
  pulled-TaxIsValid (answer res) db good h = apply_pulled-TaxIsValid L res.changes db good h

  record_outcome-TaxIsValid :
      (e : Option Text) (db : Db B) → TaxIsValid db → TaxIsValid (record_outcome s.now e db)
  unfolding record_outcome set_sync_result
  record_outcome-TaxIsValid none db h = h
  record_outcome-TaxIsValid (some message) db h = h

  after_push-TaxIsValid :
      (r : Outcome B)
      → TaxIsValid r.1
      → TaxIsValid (after_push (http_client s.http) s.now s.during_pull r).1
  unfolding after_push pull
  after_push-TaxIsValid (some message, db) h = record_outcome-TaxIsValid (some message) db h
  after_push-TaxIsValid (none, db) h =
      let st = sync_state db in
      let reply = (http_client s.http).pull st.base_url st.token st.cursor in
      let done = pulled reply (s.during_pull db) in
      record_outcome-TaxIsValid done.0 done.1 (
        pulled-TaxIsValid reply (s.during_pull db) (valid.pulls st.base_url st.token st.cursor)
          (valid.during_pull db h))

  pub sync-TaxIsValid :
      (c : Controller B)
      → TaxIsValid c.db
      → TaxIsValid (sync s.http s.unreachable s.now s.during_push s.during_pull c).1.db
  unfolding sync sync_once
  sync-TaxIsValid c h =
      let client = http_client s.http in
      let st = sync_state c.db in
      let sent = push client st s.during_push c.db in
      if_lem (λ (r : Outcome B). TaxIsValid r.1) st.linked
        {x = after_push client s.now s.during_pull sent} {y = (none, c.db)}
        (after_push-TaxIsValid sent (push-TaxIsValid client st c.db h)) h

  link_device-TaxIsValid :
      (base email password : Text) (c : Controller B)
      → TaxIsValid c.db
      → TaxIsValid
          (link_device s.http s.unreachable s.now s.during_push s.during_pull base email password
            c).1.db
  unfolding link_device link
  link_device-TaxIsValid base email password c h = linked (login s.http base email password)
    where
      linked :
          (info : Reply LinkInfo)
          → TaxIsValid
              (logged_in s.http s.unreachable s.now base s.during_push s.during_pull info c).1.db
      linked (failed message) = h
      linked (answer info) =
          sync-TaxIsValid (record c { db = link base info.shop_id info.email info.token c.db }) h

  -- An answer with the state that it leaves.
  abbrev Leaves : SyncAnswer B → Type 0
  Leaves r = TaxIsValid r.1.db

  write_sync_status-Leaves : (c : Controller B) → TaxIsValid c.db → Leaves (write_sync_status s c)
  unfolding write_sync_status
  write_sync_status-Leaves c h = elim (Bool-cases s.has_sync) [
    | inl there ↦ rw there h
    | inr absent ↦ rw absent h
  ]

  after_sync-Leaves : (r : Option Text × Controller B) → TaxIsValid r.1.db → Leaves (after_sync s r)
  after_sync-Leaves (none, c) h = write_sync_status-Leaves c h
  after_sync-Leaves (some message, c) h = elim (Bool-cases (s.unreachable message)) [
    | inl off ↦ rw off h
    | inr on ↦ rw on h
  ]

  if_available :
      (c : Controller B) (next : SyncAnswer B)
      → TaxIsValid c.db
      → Leaves next
      → Leaves (if not s.has_sync then fail s 400 not_available c else next)
  if_available c next h k =
      if_lem (λ (r : SyncAnswer B). Leaves r) (not s.has_sync) {x = fail s 400 not_available c}
        {y = next} h k

  pub handle_sync_now-Leaves :
      (m : Method) (c : Controller B) → TaxIsValid c.db → Leaves (handle_sync_now s m c)
  unfolding handle_sync_now
  handle_sync_now-Leaves get c h = h
  handle_sync_now-Leaves other c h = h
  handle_sync_now-Leaves post c h =
      let r = sync s.http s.unreachable s.now s.during_push s.during_pull c in
      if_available c (after_sync s r) h (after_sync-Leaves r (sync-TaxIsValid c h))

  after_link-Leaves : (r : Option Text × Controller B) → TaxIsValid r.1.db → Leaves (after_link s r)
  after_link-Leaves (none, c) h = write_sync_status-Leaves c h
  after_link-Leaves (some message, c) h = h

  link_form-Leaves :
      (form : LinkForm) (c : Controller B) → TaxIsValid c.db → Leaves (link_form s form c)
  unfolding link_form
  link_form-Leaves form c h =
      let given = s.trim_space form.base_url in
      let base = if given == [] then s.cloud_url else given in
      let email = s.trim_space form.email in
      let r =
        link_device s.http s.unreachable s.now s.during_push s.during_pull base email form.password
          c in
      let no_cloud = fail s 500 (text "Cloud sync is not set up on this device.") c in
      if_lem (λ (r : SyncAnswer B). Leaves r) (email == [] || form.password == [])
        {x = fail s 400 (text "Please enter your email and password.") c}
        {y = if base == [] then no_cloud else after_link s r} h
        (if_lem (λ (r : SyncAnswer B). Leaves r) (base == []) {x = no_cloud} {y = after_link s r} h
          (after_link-Leaves r (link_device-TaxIsValid base email form.password c h)))

  read_form-Leaves :
      (body : Option LinkForm) (c : Controller B) → TaxIsValid c.db → Leaves (read_form s body c)
  read_form-Leaves none c h = h
  read_form-Leaves (some form) c h = link_form-Leaves form c h

  pub handle_sync_link-Leaves :
      (m : Method) (body : Option LinkForm) (c : Controller B)
      → TaxIsValid c.db
      → Leaves (handle_sync_link s m body c)
  unfolding handle_sync_link
  handle_sync_link-Leaves get body c h = h
  handle_sync_link-Leaves other body c h = h
  handle_sync_link-Leaves post body c h =
      if_available c (read_form s body c) h (read_form-Leaves body c h)

  unlinked :
      (b : Bool) (c : Controller B)
      → TaxIsValid c.db
      → TaxIsValid (if b then unlink_device c else c).db
  unfolding unlink_device unlink
  unlinked true c h = h
  unlinked false c h = h

  pub handle_sync_unlink-Leaves :
      (m : Method) (c : Controller B) → TaxIsValid c.db → Leaves (handle_sync_unlink s m c)
  unfolding handle_sync_unlink
  handle_sync_unlink-Leaves get c h = h
  handle_sync_unlink-Leaves other c h = h
  handle_sync_unlink-Leaves post c h =
      write_sync_status-Leaves (if s.has_sync then unlink_device c else c) (unlinked s.has_sync c h)
