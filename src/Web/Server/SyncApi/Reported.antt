-- ===== src/Web/Server/SyncApi/Reported.antt =====
-- internal/web/sync.go, `handleSyncNow`: what a sync that was asked for reports.
use pos_agent.Base.{
  ◌≡◌, refl, sym, ap, subst, ◌∙◌, Bool, true, false, not, if_lem, ◌&&◌, Option, none, some, [],
  Text, arith,
}
use pos_agent.Bolt.{Bolt}
use pos_agent.Boltstore.Outbox.{sync_state}
use pos_agent.Cloudsync.Client.{http_client}
use pos_agent.Cloudsync.Engine.Cycle.{message_of, sync_once-recorded}
use pos_agent.Cloudsync.Controller.{Controller, Status, status, sync, is_offline}
use pos_agent.Web.Server.{post}
use pos_agent.Web.Server.SyncApi.{
  link_status, SyncAnswer, SyncOutside, handle_sync_now, write_sync_status, after_sync,
}

and_true : (b : Bool) → b && not false ≡ b
and_true b = ground arith

module _ {B : Bolt} (o : SyncOutside B) (c : Controller B) where
  -- The state that is reported after a sync without an error.
  abbrev pub IsUpToDate : SyncAnswer B → Type 0
  IsUpToDate a =
      (st : Status) × (a.0.report ≡ link_status o.cloud_url st)
      × (st.state.last_error ≡ [])
      × (st.state.last_sync ≡ o.now)
      × (st.syncing ≡ false)
      × (st.online ≡ st.state.linked)

  failed_code :
      (message : Text) (c' : Controller B) → (after_sync o (some message, c')).0.code ≡ 502
  failed_code message c' =
      if_lem (λ (a : SyncAnswer B). a.0.code ≡ 502) (o.unreachable message) refl refl

  after_sync-IsUpToDate :
      (r : Option Text × Controller B)
      → o.has_sync ≡ true
      → r.1.db.sync_state.last_error ≡ message_of r.0
      → r.1.db.sync_state.last_sync ≡ some o.now
      → r.1.syncing ≡ false
      → r.1.offline ≡ is_offline o.unreachable r.0
      → (after_sync o r).0.code ≡ 200
      → IsUpToDate (after_sync o r)
  unfolding write_sync_status status sync_state
  after_sync-IsUpToDate (some message, c') available error at idle off answered =
      absurd (let e = sym (failed_code message c') ∙ answered in ground (arith, e))
  after_sync-IsUpToDate (none, c') available error at idle off answered =
      rw available
        (status c', refl, error, rw at refl, idle, rw off (and_true (sync_state c'.db).linked))

  -- A sync that was asked for on a linked device and is answered 200 ended without an error: the status
  -- in the answer has no error and the time of this sync, and shows the device online while it is linked.
  pub handle_sync_now-IsUpToDate :
      o.has_sync ≡ true
      → (sync_state c.db).linked ≡ true
      → (handle_sync_now o post c).0.code ≡ 200
      → IsUpToDate (handle_sync_now o post c)
  unfolding handle_sync_now sync
  handle_sync_now-IsUpToDate available linked answered =
      let r = sync o.http o.unreachable o.now o.during_push o.during_pull c in
      let (error, at) =
        sync_once-recorded (http_client o.http) o.now o.during_push o.during_pull c.db linked in
      let e : handle_sync_now o post c ≡ after_sync o r = rw available refl in
      subst IsUpToDate (sym e) (
        after_sync-IsUpToDate r available error at refl refl
          (ap (λ (a : SyncAnswer B). a.0.code) (sym e) ∙ answered))
