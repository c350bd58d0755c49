-- ===== src/Cloudsync/Engine/Cycle.antt =====
-- internal/cloudsync/engine.go, `SyncOnce`: what a cycle records, and from where the next one pulls.
use pos_agent.Base.{
  ◌≡◌, refl, ◌∙◌, true, Option, none, some, [], Text, if_lem, inl, inr, Bool-cases,
}
use pos_agent.Bolt.{Bolt}
use pos_agent.Domain.{Time, SyncState}
use pos_agent.Boltstore.Db.{Db}
use pos_agent.Boltstore.Outbox.{sync_state, set_sync_result, clear_pushed}
use pos_agent.Cloudsync.Engine.{
  PushPayload, PullResult, Reply, answer, failed, SyncClient, gather, is_empty, clear_gathered,
  pushed, pulled, push, pull, record_outcome, after_push, sync_once, Outcome,
}

abbrev pub message_of : Option Text → Text
message_of none = []
message_of (some message) = message

-- An activity of the till that leaves the cursor of the sync alone.
abbrev pub KeepsCursor : {B : Bolt} → (Db B → Db B) → Type 0
KeepsCursor {B} f = (db : Db B) → (f db).sync_state.cursor ≡ db.sync_state.cursor

module _ {B : Bolt} (client : SyncClient) where
  HasRecord : Time → Outcome B → Type 0
  HasRecord now r =
      (r.1.sync_state.last_error ≡ message_of r.0) × (r.1.sync_state.last_sync ≡ some now)

  recorded : (now : Time) (e : Option Text) (db : Db B) → HasRecord now (e, record_outcome now e db)
  unfolding HasRecord record_outcome set_sync_result
  recorded now none db = (refl, refl)
  recorded now (some message) db = (refl, refl)

  after_push-recorded :
      (now : Time) (during_pull : Db B → Db B) (r : Outcome B)
      → HasRecord now (after_push client now during_pull r)
  unfolding after_push
  after_push-recorded now during_pull (some message, db) = recorded now (some message) db
  after_push-recorded now during_pull (none, db) =
      let r = pull client (sync_state db) during_pull db in recorded now r.0 r.1

  -- A cycle of a linked device always leaves its time and its outcome in the sync state: the message
  -- of the error that it returns, and no message where it returns none.
  pub sync_once-recorded :
      (now : Time) (during_push during_pull : Db B → Db B) (db : Db B)
      → (sync_state db).linked ≡ true
      → let (e, left) = sync_once client now during_push during_pull db in
        (left.sync_state.last_error ≡ message_of e) × (left.sync_state.last_sync ≡ some now)
  unfolding sync_once HasRecord
  sync_once-recorded now during_push during_pull db linked =
      rw linked (after_push-recorded now during_pull (push client (sync_state db) during_push db))

  pushed-cursor :
      (payload : PushPayload) (reply : Reply (Unit {0})) (db : Db B)
      → (pushed payload reply db).1.sync_state.cursor ≡ db.sync_state.cursor
  unfolding pushed clear_gathered clear_pushed
  pushed-cursor payload (failed message) db = refl
  pushed-cursor payload (answer _) db = refl

  push-cursor :
      (st : SyncState) (during_push : Db B → Db B) (db : Db B)
      → KeepsCursor during_push
      → (push client st during_push db).1.sync_state.cursor ≡ db.sync_state.cursor
  unfolding push
  push-cursor st during_push db kept =
      if_lem (λ (r : Outcome B). r.1.sync_state.cursor ≡ db.sync_state.cursor)
        (is_empty (gather db)) refl
        (pushed-cursor (gather db) (client.push st.base_url st.token (gather db)) (during_push db)
          ∙ kept db)

  pulled-cursor :
      (reply : Reply PullResult) (db : Db B) (message : Text)
      → (pulled reply db).0 ≡ some message
      → (pulled reply db).1.sync_state.cursor ≡ db.sync_state.cursor
  unfolding pulled
  pulled-cursor (failed m) db message e = refl
  pulled-cursor (answer res) db message e = cc

  record_outcome-cursor :
      (now : Time) (e : Option Text) (db : Db B)
      → (record_outcome now e db).sync_state.cursor ≡ db.sync_state.cursor
  unfolding record_outcome set_sync_result
  record_outcome-cursor now none db = refl
  record_outcome-cursor now (some m) db = refl

  after_push-cursor :
      (now : Time) (during_pull : Db B → Db B) (r : Outcome B) (message : Text)
      → KeepsCursor during_pull
      → (after_push client now during_pull r).0 ≡ some message
      → (after_push client now during_pull r).1.sync_state.cursor ≡ r.1.sync_state.cursor
  unfolding after_push pull
  after_push-cursor now during_pull (some m, db) message kept e =
      record_outcome-cursor now (some m) db
  after_push-cursor now during_pull (none, db) message kept e =
      let st = sync_state db in
      let reply = client.pull st.base_url st.token st.cursor in
      let r = pulled reply (during_pull db) in
      record_outcome-cursor now r.0 r.1 ∙ pulled-cursor reply (during_pull db) message e ∙ kept db

  -- A cycle that fails, in the push or in the pull, leaves the cursor where it was, so that the next
  -- cycle pulls the same changes again; the till does not move the cursor meanwhile.
  pub sync_once-failed_cursor :
      (now : Time) (during_push during_pull : Db B → Db B) (db : Db B) (message : Text)
      → KeepsCursor during_push
      → KeepsCursor during_pull
      → (sync_once client now during_push during_pull db).0 ≡ some message
      → (sync_once client now during_push during_pull db).1.sync_state.cursor ≡ db.sync_state.cursor
  unfolding sync_once
  sync_once-failed_cursor now during_push during_pull db message kept kept' e =
      let st = sync_state db in
      elim (Bool-cases st.linked) [
        | inl linked ↦ rw linked (
            after_push-cursor now during_pull (push client st during_push db) message kept'
              (rw linked at e)
            ∙ push-cursor st during_push db kept)
        | inr unlinked ↦ rw unlinked refl
      ]
