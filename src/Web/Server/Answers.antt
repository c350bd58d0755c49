-- ===== src/Web/Server/Answers.antt =====
-- internal/web/server.go: what a refused request leaves behind.
use pos_agent.Base.{
  ◌≡◌, ◌⊎◌, inl, inr, refl, sym, subst, ℕ, Bool, true, false, Option, none, some, Text, text_eq,
  if_lem, if◌then◌else◌,
}
use pos_agent.Base.Int.{ℤ}
use pos_agent.Bolt.{Bolt}
use pos_agent.Domain.{Product, ProductDraft, Sale, SaleInput}
use pos_agent.Domain.Keys.{key_tax_rate_bps, key_tax_mode}
use pos_agent.Boltstore.Products.{add_product, update_product, delete_product}
use pos_agent.Boltstore.Stock.{restock_product}
use pos_agent.Boltstore.Sales.{create_sale}
use pos_agent.Boltstore.Settings.{set_logo, delete_logo}
use pos_agent.Boltstore.Db.{Db, Error, Result, ok, err}
use pos_agent.Web.Server.{
  Method, get, post, other, World, Answer, Outside, reply, refuse, only_post, with_body,
  after_store, nudge_sync, Body,
}
use pos_agent.Web.Server.SettingsForm.{Form, is_rate, is_mode, passes, save_all}

module _ {B : Bolt} (o : Outside) where
  -- One change of the database by an operation of the store that succeeded.
  pub data Change (db : Db B) : Db B → Type 0 where
    added :
        (d : ProductDraft) (p : Product) {db' : Db B}
        → add_product o.now o.draws true d db ≡ ok (p, db')
        → Change db db'
    updated :
        (id : Text) (d : ProductDraft) (p : Product) {db' : Db B}
        → update_product o.now o.draws id d db ≡ ok (p, db')
        → Change db db'
    deleted :
        (id : Text) {db' : Db B} → delete_product o.now o.draws id db ≡ ok (tt, db') → Change db db'
    restocked :
        (id : Text) (qty : ℤ) (p : Product) {db' : Db B}
        → restock_product o.now o.draws id qty db ≡ ok (p, db')
        → Change db db'
    sold :
        (input : SaleInput) (sale : Sale) {db' : Db B}
        → create_sale o.now o.draws.record_id input db ≡ ok (sale, db')
        → Change db db'
    saved :
        (form : Form)
        → passes is_rate (form.value key_tax_rate_bps) ≡ true
        → passes is_mode (form.value key_tax_mode) ≡ true
        → Change db (save_all o form.value form.keys db)
    logo_saved : (image : Text) → o.valid_image image ≡ true → Change db (set_logo image db)
    logo_removed : Change db (delete_logo db)

  -- The database and the sync requests are as before, or the request is answered 200 and made one change.
  pub record Served (w : World B) (a : Answer B) : Type 0 where
    pub outcome :
        ((a.1.db ≡ w.db) × (a.1.nudges ≡ w.nudges)) ⊎ ((a.0.status ≡ 200) × Change w.db a.1.db)

  pub nudge_sync-db : (w : World B) → (nudge_sync o w).db ≡ w.db
  unfolding nudge_sync
  nudge_sync-db w = if_lem (λ (v : World B). v.db ≡ w.db) o.has_sync refl refl

-- What is done after a store call succeeded is answered 200 and leaves the database alone.
abbrev Finishes : {B : Bolt} {A : Type 0} → (A → World B → Answer B) → Type 0
Finishes {B = B} {A = A} next =
    (a : A) (w : World B) → ((next a w).0.status ≡ 200) × ((next a w).1.db ≡ w.db)

module _ {B : Bolt} {o : Outside} where
  pub only_post-Served :
      (m : Method) {w : World B} {next : Answer B}
      → Served o w next
      → Served o w (only_post m w next)
  only_post-Served get h = record { outcome = inl (refl, refl) }
  only_post-Served post h = h
  only_post-Served other h = record { outcome = inl (refl, refl) }

  pub refuse-Served :
      {w : World B} {status : ℕ} {message : Text} → Served o w (refuse status message w)
  refuse-Served = record { outcome = inl (refl, refl) }

  pub reply-Served : {w : World B} {body : Body} → Served o w (reply body w)
  reply-Served = record { outcome = inl (refl, refl) }

  pub with_body-Served :
      {A : Type 0} (body : Option A) (message : Text) {w : World B} (next : A → Answer B)
      → ((a : A) → Served o w (next a))
      → Served o w (with_body body message w next)
  with_body-Served none message next h = refuse-Served
  with_body-Served (some a) message next h = h a

  pub after_store-Served :
      {A : Type 0} (r : Result (A × Db B)) (says : Error → Text) {w : World B}
      (next : A → World B → Answer B)
      → ((a : A) (db : Db B) → r ≡ ok (a, db) → Change o w.db db)
      → Finishes next
      → Served o w (after_store r says w next)
  after_store-Served (err e) says next made finishes = refuse-Served
  after_store-Served (ok (a, db)) says {w = w} next made finishes =
      let (done, same) = finishes a (record w { db = db }) in
      record { outcome = inr (done, subst (Change o w.db) (sym same) (made a db refl)) }

  pub if-Served :
      (b : Bool) {w : World B} {x y : Answer B}
      → (b ≡ true → Served o w x)
      → (b ≡ false → Served o w y)
      → Served o w (if b then x else y)
  if-Served true h k = h refl
  if-Served false h k = k refl
