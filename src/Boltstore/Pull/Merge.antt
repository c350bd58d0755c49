-- ===== src/Boltstore/Pull/Merge.antt =====
-- internal/store/boltstore/sync.go, `applyPulledSettings`: what a pull leaves of the settings.
use pos_agent.Base.{
  ◌≡◌, refl, ap, ◌∙◌, Bool, false, not, Option, none, some, List, [], ◌∷◌, Text, text_eq, ◌==◌,
  if◌then◌else◌, arith, inl, inr, Bool-cases, if_lem, ◌&&◌, ◌||◌,
}
use pos_agent.Bolt.{Bolt, IsLawful}
use pos_agent.Domain.{Time}
use pos_agent.Boltstore.Db.{Db}
use pos_agent.Boltstore.Settings.{put_setting, Settings, sync_setting_keys}
use pos_agent.Boltstore.Pull.{
  put_if_given, put_settings, keeps_local, apply_settings, apply_pulled_settings,
}

module _ {B : Bolt} (L : IsLawful B) where
  -- What a pulled setting leaves, of what the local one was.
  unfoldable pub given_or : Option Text → Option Text → Option Text
  given_or none o = o
  given_or (some v) o = some v

  unfoldable pub has_key : List Text → Text → Bool
  has_key [] j = false
  has_key (k ∷ keys) j = (j == k) || has_key keys j

  put_if_given-get :
      (k : Text) (given : Option Text) (db : Db B) (j : Text)
      → B.get Text (put_if_given k given db).settings j
        ≡ (if j == k then given_or given (B.get Text db.settings j) else B.get Text db.settings j)
  unfolding put_if_given given_or put_setting
  put_if_given-get k none db j = ground arith
  put_if_given-get k (some v) db j = ground (arith, L.get-put Text db.settings k v j)

  given_or-again : (g o : Option Text) → given_or g (given_or g o) ≡ given_or g o
  unfolding given_or
  given_or-again none o = refl
  given_or-again (some v) o = refl

  put_settings-get :
      (pulled : Settings) (keys : List Text) (db : Db B) (j : Text)
      → B.get Text (put_settings pulled keys db).settings j ≡ (
          if has_key keys j
          then given_or (pulled j) (B.get Text db.settings j)
          else B.get Text db.settings j)
  unfolding put_settings has_key
  put_settings-get pulled [] db j = refl
  put_settings-get pulled (k ∷ keys) db j = elim (Bool-cases (j == k)) [
    | inl same ↦ ground (
      arith,
      put_settings-get pulled keys (put_if_given k (pulled k) db) j,
      put_if_given-get k (pulled k) db j,
      given_or-again (pulled k) (B.get Text db.settings j),
    )
    | inr other ↦ ground (
      arith,
      put_settings-get pulled keys (put_if_given k (pulled k) db) j,
      put_if_given-get k (pulled k) db j,
    )
  ]

  put_if_given-only :
      (k : Text) (given : Option Text) (db : Db B)
      → put_if_given k given db ≡ record db { settings = (put_if_given k given db).settings }
  unfolding put_if_given put_setting
  put_if_given-only k none db = refl
  put_if_given-only k (some v) db = refl

  put_settings-only :
      (pulled : Settings) (keys : List Text) (db : Db B)
      → put_settings pulled keys db
        ≡ record db { settings = (put_settings pulled keys db).settings }
  unfolding put_settings
  put_settings-only pulled [] db = refl
  put_settings-only pulled (k ∷ keys) db =
      let next = put_if_given k (pulled k) db in
      put_settings-only pulled keys next
      ∙ ap (λ (d : Db B). record d { settings = (put_settings pulled keys next).settings })
          (put_if_given-only k (pulled k) db)

  -- Settings alone change.
  pub pull_settings-only :
      (given : Option (Settings × Time)) (db : Db B)
      → apply_pulled_settings given db
        ≡ record db { settings = (apply_pulled_settings given db).settings }
  unfolding apply_settings
  pull_settings-only none db = refl
  pull_settings-only (some (pulled, at)) db =
      if_lem (λ (d : Db B). d ≡ record db { settings = d.settings })
        (keeps_local at db.sync_state.settings_due) refl
        (put_settings-only pulled sync_setting_keys db)

  pub apply_settings-get :
      (pulled : Settings) (at : Time) (db : Db B) (j : Text)
      → B.get Text (apply_settings pulled at db).settings j ≡ (
          if not (keeps_local at db.sync_state.settings_due) && has_key sync_setting_keys j
          then given_or (pulled j) (B.get Text db.settings j)
          else B.get Text db.settings j)
  unfolding apply_settings
  apply_settings-get pulled at db j =
      elim (Bool-cases (keeps_local at db.sync_state.settings_due)) [
        | inl kept ↦ rw kept
        | inr merged ↦ rw (merged, put_settings-get pulled sync_setting_keys db j)
      ]

  pub pull_settings-again :
      (given : Option (Settings × Time)) (db : Db B) (j : Text)
      → B.get Text (apply_pulled_settings given (apply_pulled_settings given db)).settings j
        ≡ B.get Text (apply_pulled_settings given db).settings j
  pull_settings-again none db j = refl
  pull_settings-again (some (pulled, at)) db j =
      let once = apply_settings pulled at db in
      ground (
        arith,
        apply_settings-get pulled at once j,
        apply_settings-get pulled at db j,
        ap (λ (d : Db B). keeps_local at d.sync_state.settings_due)
            (pull_settings-only (some (pulled, at)) db),
        given_or-again (pulled j) (B.get Text db.settings j),
      )
