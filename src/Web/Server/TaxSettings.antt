-- ===== src/Web/Server/TaxSettings.antt =====
-- internal/web/server.go, `handleSettings`: no request can leave unusable tax settings behind.
use pos_agent.Base.{
  ◌≡◌, refl, sym, ap, ◌∙◌, Bool, true, Option, none, some, List, [], ◌∷◌, Text, text, text_eq, ◌==◌,
  if◌then◌else◌, arith, inl, inr, Option-cases, if_lem,
}
use pos_agent.Base.Int.{pos, ◌≤ℤ◌}
use pos_agent.Base.Decimal.{atoi}
use pos_agent.Bolt.{Bolt, IsLawful}
use pos_agent.Domain.Keys.{tax_mode_none, key_tax_rate_bps, key_tax_mode, key_has_logo}
use pos_agent.Boltstore.Db.{Db, init}
use pos_agent.Boltstore.Sales.{tax_from_bucket}
use pos_agent.Boltstore.Settings.{Settings, set_logo, delete_logo, put_setting, logo_key}
use pos_agent.Boltstore.Settings.Saving.{saved}
use pos_agent.Boltstore.Settings.Untouched.{
  add_product-settings, update_product-settings, delete_product-settings, restock_product-settings,
  create_sale-settings,
}
use pos_agent.Web.Server.{World, Outside}
use pos_agent.Web.Server.SettingsForm.{is_rate, is_mode, passes, save_one, save_all, is_allowed}
use pos_agent.Web.Server.Answers.{
  Change, added, updated, deleted, restocked, sold, logo_saved, logo_removed, Served,
}
use pos_agent.Web.Server.Answers
use pos_agent.Web.Server.Routes.{Request, serve}
use pos_agent.Web.Server.Served.{serve-Served}

read_rate :
    (o : Option Text)
    → passes is_rate o ≡ true
    → pos 0 ≤ℤ (elim o [ none ↦ pos 0 | some v ↦ (atoi v).value ])
unfolding is_rate
read_rate none h = omega arith
read_rate (some v) h = ground (arith, h)

read_mode :
    (o : Option Text)
    → passes is_mode o ≡ true
    → is_mode (elim o [ none ↦ tax_mode_none | some v ↦ if v == [] then tax_mode_none else v ])
      ≡ true
unfolding is_mode text_eq
read_mode none h = refl
read_mode (some v) h = if_lem (λ m. is_mode m ≡ true) (v == []) refl h

module _ {B : Bolt} where
  -- A saved rate reads as a number that is not negative, and a saved mode is one of the three.
  abbrev pub TaxIsValid : Db B → Type 0
  TaxIsValid db =
      (passes is_rate (B.get Text db.settings key_tax_rate_bps) ≡ true)
      × (passes is_mode (B.get Text db.settings key_tax_mode) ≡ true)

  pub TaxIsValid-same : (a b : Db B) → b.settings ≡ a.settings → TaxIsValid a → TaxIsValid b
  TaxIsValid-same a b e h = rw e h

  module _ (L : IsLawful B) where
    pub put-passes :
        (test : Text → Bool) (j k v : Text) (b : B.Bucket Text)
        → (j ≡ k → test v ≡ true)
        → passes test (B.get Text b j) ≡ true
        → passes test (B.get Text (B.put Text b k v) j) ≡ true
    put-passes test j k v b given before =
        let e = L.get-put Text b k v j in
        elim (text_eq.dec j k)
            as (λ d. text_eq.dec j k ≡ d → passes test (B.get Text (B.put Text b k v) j) ≡ true) [
              | yes same ↦ λ d. rw (e, d) (given same)
              | no differ ↦ λ d. rw (e, d) before
            ]
          refl

  module _ (L : IsLawful B) (o : Outside) where
    save_one-passes :
        (test : Text → Bool) (j k : Text) (value : Settings) (db : Db B)
        → passes test (value j) ≡ true
        → passes test (B.get Text db.settings j) ≡ true
        → passes test (B.get Text (save_one o k (value k) db).settings j) ≡ true
    unfolding save_one
    save_one-passes test j k value db given before = elim (Option-cases (value k)) [
      | inl missing ↦ rw missing before
      | inr (v, there) ↦
          let drawn = o.setting_draws k in
          let good : j ≡ k → test v ≡ true =
            λ same. ap (passes test) (sym there ∙ ap value (sym same)) ∙ given in
          let P : Db B → Type 0 = λ d. passes test (B.get Text d.settings j) ≡ true in
          rw there (
            if_lem P (is_allowed k)
              (rw (saved drawn.now drawn.now' drawn.audit_id k v db)
                (put-passes L test j k v db.settings good before))
              before)
    ]

    save_all-passes :
        (test : Text → Bool) (j : Text) (value : Settings) (ks : List Text) (db : Db B)
        → passes test (value j) ≡ true
        → passes test (B.get Text db.settings j) ≡ true
        → passes test (B.get Text (save_all o value ks db).settings j) ≡ true
    unfolding save_all
    save_all-passes test j value [] db given before = before
    save_all-passes test j value (k ∷ ks) db given before =
        save_all-passes test j value ks (save_one o k (value k) db) given
          (save_one-passes test j k value db given before)

    has_logo-TaxIsValid :
        (v : Text) (db : Db B) → TaxIsValid db → TaxIsValid (put_setting key_has_logo v db)
    unfolding put_setting
    has_logo-TaxIsValid v db h = (
      put-passes L is_rate key_tax_rate_bps key_has_logo v db.settings (λ e. ground (arith, e)) h.0,
      put-passes L is_mode key_tax_mode key_has_logo v db.settings (λ e. ground (arith, e)) h.1,
    )

    Change-TaxIsValid : (a b : Db B) → TaxIsValid a → Change o a b → TaxIsValid b
    unfolding set_logo delete_logo
    Change-TaxIsValid a b h (added d p e) =
        TaxIsValid-same a b (add_product-settings o.now o.draws d true a (p, b) e) h
    Change-TaxIsValid a b h (updated id d p e) =
        TaxIsValid-same a b (update_product-settings o.now o.draws d id a (p, b) e) h
    Change-TaxIsValid a b h (deleted id e) =
        TaxIsValid-same a b (delete_product-settings o.now o.draws id a (tt, b) e) h
    Change-TaxIsValid a b h (restocked id qty p e) =
        TaxIsValid-same a b (restock_product-settings o.now o.draws id qty a (p, b) e) h
    Change-TaxIsValid a b h (sold input sale e) =
        TaxIsValid-same a b (create_sale-settings o.now o.draws.record_id input a (sale, b) e) h
    Change-TaxIsValid a b h (Answers.saved form rate mode) = (
      save_all-passes is_rate key_tax_rate_bps form.value form.keys a rate h.0,
      save_all-passes is_mode key_tax_mode form.value form.keys a mode h.1,
    )
    Change-TaxIsValid a b h (logo_saved image valid) =
        has_logo-TaxIsValid (text "yes") (record a { blobs = B.put Text a.blobs logo_key image }) h
    Change-TaxIsValid a b h logo_removed =
        has_logo-TaxIsValid (text "no") (record a { blobs = B.delete Text a.blobs logo_key }) h

    pub serve-TaxIsValid :
        (r : Request) (w : World B) → TaxIsValid w.db → TaxIsValid (serve o r w).1.db
    serve-TaxIsValid r w h = elim (serve-Served o r w).outcome [
      | inl (same, quiet) ↦
          TaxIsValid-same w.db (serve o r w).1.db (ap (λ (d : Db B). d.settings) same) h
      | inr (done, change) ↦ Change-TaxIsValid w.db (serve o r w).1.db h change
    ]

  pub tax_from_bucket-valid :
      (db : Db B)
      → TaxIsValid db
      → (pos 0 ≤ℤ (tax_from_bucket db).0) × (is_mode (tax_from_bucket db).1 ≡ true)
  unfolding tax_from_bucket
  tax_from_bucket-valid db (rate, mode) = (
    read_rate (B.get Text db.settings key_tax_rate_bps) rate,
    read_mode (B.get Text db.settings key_tax_mode) mode,
  )

-- The world of a shop with a new database.
abbrev pub new_world : (B : Bolt) → World B
new_world B = record { db = init B; nudges = 0; jobs = [] }
