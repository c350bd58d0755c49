-- ===== src/Boltstore/Settings/Saving.antt =====
-- internal/store/boltstore/boltstore.go, `SetSetting`: what `Settings` shows afterwards, and what is
-- due to be pushed.
use pos_agent.Base.{
  ◌≡◌, refl, ap, ◌∙◌, Bool, true, false, Option, some, Text, text_eq, ◌==◌, if◌then◌else◌, inl, inr,
  Bool-cases, if_lem,
}
use pos_agent.Bolt.{Bolt, IsLawful}
use pos_agent.Domain.{Time}
use pos_agent.Domain.Keys.{defaults}
use pos_agent.Boltstore.Db.{Db}
use pos_agent.Boltstore.Audit.{append_audit}
use pos_agent.Boltstore.Settings.{
  settings, merged, set_setting, put_setting, is_syncable, mark_settings_pending, value_or_empty,
  get_setting,
}

merged-test :
    (b : Bool) (v : Text) (o default : Option Text)
    → merged (if b then some v else o) default ≡ (if b then some v else merged o default)
unfolding merged
merged-test true v o default = refl
merged-test false v o default = refl

module _ {B : Bolt} (now now' : Time) (audit_id key value : Text) (db : Db B) where
  pub saved :
      (set_setting now now' audit_id key value db).settings ≡ B.put Text db.settings key value
  unfolding set_setting put_setting append_audit mark_settings_pending
  saved =
      let P : Db B → Type 0 = λ d. d.settings ≡ B.put Text db.settings key value in
      let unchanged = value_or_empty (B.get Text db.settings key) == value in
      if_lem P (is_syncable key) (if_lem P unchanged refl refl) (if_lem P unchanged refl refl)

  due :
      (set_setting now now' audit_id key value db).sync_state.settings_due
      ≡ (if is_syncable key then some now' else db.sync_state.settings_due)
  unfolding set_setting put_setting append_audit mark_settings_pending
  due =
      let P : Db B → Type 0 = λ d. d.sync_state.settings_due ≡ db.sync_state.settings_due in
      let unchanged = value_or_empty (B.get Text db.settings key) == value in
      elim (Bool-cases (is_syncable key)) [
        | inl synced ↦ rw synced
        | inr local ↦ rw local (if_lem P unchanged refl refl)
      ]

  -- After `SetSetting` the settings show the new value under its key and every other one as before;
  -- a key that syncs, and no other, makes the settings due to be pushed.
  pub set_setting-settings :
      IsLawful B
      → ((j : Text)
          → settings (set_setting now now' audit_id key value db) j
            ≡ (if j == key then some value else settings db j))
        × ((set_setting now now' audit_id key value db).sync_state.settings_due
            ≡ (if is_syncable key then some now' else db.sync_state.settings_due))
  unfolding settings merged
  set_setting-settings L = (
    λ j.
        ap (λ (b : B.Bucket Text). merged (B.get Text b j) (get_setting j defaults)) saved
        ∙ ap (λ (o : Option Text). merged o (get_setting j defaults))
            (L.get-put Text db.settings key value j)
        ∙ merged-test (j == key) value (B.get Text db.settings j) (get_setting j defaults),
    due,
  )
