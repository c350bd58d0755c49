-- ===== src/Cloudsync/Engine/Pushing.antt =====
-- internal/cloudsync/engine.go, `push`: what is left in the outbox by a push.
use pos_agent.Base.{
  no_items, ◌≡◌, refl, true, false, Option, none, some, List, [], ◌∷◌, map, In, Text, text_eq,
  if◌then◌else◌, arith, inl, inr, Bool-cases,
}
use pos_agent.Bolt.{Bolt, IsLawful}
use pos_agent.Domain.{Time, Product, Sale, StockEvent, SyncState, after}
use pos_agent.Boltstore.Db.{Db}
use pos_agent.Boltstore.Settings.{settings}
use pos_agent.Boltstore.Outbox.{
  pending_products, pending_sales, pending_stock_events, pending_settings, settings_if_due,
  clear_pushed, clear_due,
}
use pos_agent.Boltstore.Outbox.Marks.{
  has_id, has_id-map, delete_all-get, IsDrained, no_records-IsDrained, delete_all-IsDrained,
}
use pos_agent.Cloudsync.Engine.{
  PushPayload, Reply, answer, failed, SyncClient, gather, is_empty, clear_gathered, pushed, push,
  is_dirty, dirty_since,
}

-- Each record is stored under its own id.
pub record IsKeyed {B : Bolt} (db : Db B) : Type 0 where
  pub products : (id : Text) (p : Product) → B.get Product db.products id ≡ some p → p.id ≡ id
  pub sales : (id : Text) (s : Sale) → B.get Sale db.sales id ≡ some s → s.id ≡ id
  pub events :
      (id : Text) (ev : StockEvent) → B.get StockEvent db.stock_events id ≡ some ev → ev.id ≡ id

-- The mark of an id after the answer, of what it was before it.
unfoldable pub mark_left :
    Reply (Unit {0}) → List Text → Text → Option (Unit {0}) → Option (Unit {0})
mark_left (failed message) ids id mark = mark
mark_left (answer _) ids id mark = if has_id ids id then none else mark

module _ {B : Bolt} (L : IsLawful B) where
  no_items-eq : {A : Type 0} (xs : List A) → no_items xs ≡ true → xs ≡ []
  no_items-eq [] e = refl
  no_items-eq (x ∷ xs) e = cc

  after_refl : (t : Time) → after t t ≡ false
  after_refl t = ground arith

  clear_due-drains :
      (all : Text → Option Text) (due : Option Time)
      → clear_due (is_dirty (settings_if_due all due)) (dirty_since (settings_if_due all due)) due
        ≡ none
  unfolding clear_due settings_if_due
  clear_due-drains all none = refl
  clear_due-drains all (some t) = rw (after_refl t)

  clean-due :
      (all : Text → Option Text) (due : Option Time)
      → is_dirty (settings_if_due all due) ≡ false
      → due ≡ none
  unfolding settings_if_due
  clean-due all none e = refl
  clean-due all (some t) e = cc

  -- No mark is left under which a product, sale or stock event is stored, and the settings are not
  -- due.
  abbrev pub NothingWaits : Db B → Text → Type 0
  NothingWaits db id =
      IsDrained L (B.get Product db.products) db.pending_prods id
      × IsDrained L (B.get Sale db.sales) db.pending_sales id
      × IsDrained L (B.get StockEvent db.stock_events) db.pending_stockev id
      × (db.sync_state.settings_due ≡ none)

  gather-NothingWaits : (db : Db B) → is_empty (gather db) ≡ true → (id : Text) → NothingWaits db id
  unfolding gather is_empty pending_products pending_sales pending_stock_events pending_settings
  gather-NothingWaits db bare id =
      let products : no_items (pending_products db) ≡ true = ground (arith, bare) in
      let sales : no_items (pending_sales db) ≡ true = ground (arith, bare) in
      let events : no_items (pending_stock_events db) ≡ true = ground (arith, bare) in
      let clean : is_dirty (pending_settings db) ≡ false = ground (arith, bare) in
      (
        no_records-IsDrained L (B.get Product db.products) db.pending_prods (no_items-eq _ products)
            id,
        no_records-IsDrained L (B.get Sale db.sales) db.pending_sales (no_items-eq _ sales) id,
        no_records-IsDrained L (B.get StockEvent db.stock_events) db.pending_stockev
            (no_items-eq _ events) id,
        clean-due (settings db) db.sync_state.settings_due clean,
      )

  cleared-NothingWaits :
      (db : Db B) → IsKeyed db → (id : Text) → NothingWaits (clear_gathered (gather db) db) id
  unfolding clear_gathered gather clear_pushed pending_products pending_sales pending_stock_events
      pending_settings
  cleared-NothingWaits db keyed id = (
    delete_all-IsDrained L (λ (p : Product). p.id) (B.get Product db.products) db.pending_prods
        keyed.products id,
    delete_all-IsDrained L (λ (s : Sale). s.id) (B.get Sale db.sales) db.pending_sales keyed.sales
        id,
    delete_all-IsDrained L (λ (ev : StockEvent). ev.id) (B.get StockEvent db.stock_events)
        db.pending_stockev keyed.events id,
    clear_due-drains (settings db) db.sync_state.settings_due,
  )

  -- A push that the cloud accepts empties the outbox: where every record is stored under its own
  -- id and the till changes nothing meanwhile, there is then no id that is marked in an outbox and under
  -- which a product, sale or stock event is stored, nor are the settings due, and no error is returned.
  pub push-drains :
      (client : SyncClient) (st : SyncState) (db : Db B)
      → IsKeyed db
      → client.push st.base_url st.token (gather db) ≡ answer tt
      → (id : Text)
      → ((push client st (λ d. d) db).0 ≡ none) × NothingWaits (push client st (λ d. d) db).1 id
  unfolding push pushed
  push-drains client st db keyed accepted id = elim (Bool-cases (is_empty (gather db))) [
    | inl bare ↦ rw bare (refl, gather-NothingWaits db bare id)
    | inr due ↦ rw (due, accepted) (refl, cleared-NothingWaits db keyed id)
  ]

  pushed-marks :
      (payload : PushPayload) (reply : Reply (Unit {0})) (db : Db B) (id : Text)
      → let left = (pushed payload reply db).1 in
        (B.get Unit left.pending_prods id
          ≡ mark_left reply
              (map (λ (p : Product). p.id) payload.products)
              id
              (B.get Unit db.pending_prods id))
        × (B.get Unit left.pending_sales id
            ≡ mark_left reply
                (map (λ (s : Sale). s.id) payload.sales)
                id
                (B.get Unit db.pending_sales id))
        × (B.get Unit left.pending_stockev id
            ≡ mark_left reply
                (map (λ (ev : StockEvent). ev.id) payload.stock_events)
                id
                (B.get Unit db.pending_stockev id))
  unfolding pushed clear_gathered clear_pushed mark_left
  pushed-marks payload (failed message) db id = (refl, refl, refl)
  pushed-marks payload (answer _) db id = (
    delete_all-get L (map (λ (p : Product). p.id) payload.products) db.pending_prods id,
    delete_all-get L (map (λ (s : Sale). s.id) payload.sales) db.pending_sales id,
    delete_all-get L (map (λ (ev : StockEvent). ev.id) payload.stock_events) db.pending_stockev id,
  )

  -- After a push that had something to send the outbox has the marks that the till left while the
  -- request was in flight, less, where the cloud accepted it, those of the records that were read
  -- before the request: what was not read is still marked, and a push that fails clears nothing.
  pub push-marks :
      (client : SyncClient) (st : SyncState) (during_push : Db B → Db B) (db : Db B) (id : Text)
      → is_empty (gather db) ≡ false
      → let payload = gather db in
        let reply = client.push st.base_url st.token payload in
        let left = (push client st during_push db).1 in
        (B.get Unit left.pending_prods id
          ≡ mark_left reply
              (map (λ (p : Product). p.id) payload.products)
              id
              (B.get Unit (during_push db).pending_prods id))
        × (B.get Unit left.pending_sales id
            ≡ mark_left reply
                (map (λ (s : Sale). s.id) payload.sales)
                id
                (B.get Unit (during_push db).pending_sales id))
        × (B.get Unit left.pending_stockev id
            ≡ mark_left reply
                (map (λ (ev : StockEvent). ev.id) payload.stock_events)
                id
                (B.get Unit (during_push db).pending_stockev id))
  unfolding push
  push-marks client st during_push db id due =
      rw due (
        pushed-marks (gather db) (client.push st.base_url st.token (gather db)) (during_push db) id)

  no_items-In : {A : Type 0} (x : A) (xs : List A) → In x xs → no_items xs ≡ false
  no_items-In x [] h = absurd h
  no_items-In x (y ∷ xs) h = refl

  -- An accepted push clears the mark of every product that it read, whatever the till does while
  -- the request is in flight, and leaves the catalogue as the till left it: an edit of such a
  -- product meanwhile stays with no mark to push it.
  pub push_forgets_edit :
      (client : SyncClient) (st : SyncState) (during_push : Db B → Db B) (db : Db B) (p : Product)
      → In p (pending_products db)
      → client.push st.base_url st.token (gather db) ≡ answer tt
      → let left = (push client st during_push db).1 in
        (left.products ≡ (during_push db).products) × (B.get Unit left.pending_prods p.id ≡ none)
  unfolding push is_empty gather pushed clear_gathered clear_pushed
  push_forgets_edit client st during_push db p waits accepted =
      rw (no_items-In p (pending_products db) waits, accepted)
        (
          refl,
          rw (
            delete_all-get L (map (λ (p : Product). p.id) (pending_products db))
                (during_push db).pending_prods p.id,
            has_id-map L (λ (p : Product). p.id) p (pending_products db) waits,
          ),
        )
