-- ===== src/Boltstore/Settings.antt =====
-- internal/store/boltstore/boltstore.go, "Settings" and "Logo".
pub mod Saving
pub mod Untouched
use pos_agent.Base.{
  ℕ, Bool, true, false, ◌||◌, not, Option, none, some, List, [], ◌∷◌, Text, text, text_eq, ◌==◌,
  if◌then◌else◌, any,
}
use pos_agent.Bolt.{Bolt}
use pos_agent.Domain.{Time}
use pos_agent.Domain.Keys.{
  key_shop_name, key_paper_width, key_scanner, key_receipt_theme, key_header_line, key_footer,
  key_tax_rate_bps, key_tax_mode, key_has_logo, defaults,
}
use pos_agent.Boltstore.Db.{Db}
use pos_agent.Boltstore.Audit.{append_audit, setting_audit}

-- `map[string]string`, read with the missing key told apart.
abbrev pub Settings : Type 0
Settings = Text → Option Text

abbrev pub get_setting : Text → List (Text × Text) → Option Text
get_setting k [] = none
get_setting k ((j, v) ∷ r) = if k == j then some v else get_setting k r

-- A value that was saved, and a default beneath it.
unfoldable pub merged : Option Text → Option Text → Option Text
merged none default = default
merged (some v) _ = some v

-- `Settings`
unfoldable pub settings : {B : Bolt} → Db B → Settings
unfolding merged
settings {B} db k = merged (B.get Text db.settings k) (get_setting k defaults)

-- `syncSettingKeys`
abbrev pub sync_setting_keys : List Text
sync_setting_keys =
    key_shop_name ∷ key_paper_width ∷ key_scanner ∷ key_receipt_theme ∷ key_header_line ∷ key_footer
    ∷ key_tax_rate_bps ∷ key_tax_mode ∷ []

-- `syncableSettingKey`
unfoldable pub is_syncable : Text → Bool
unfolding any
is_syncable key = any (λ k. k == key) sync_setting_keys

abbrev pub value_or_empty : Option Text → Text
value_or_empty none = []
value_or_empty (some v) = v

-- `markSettingsPending`
unfoldable pub mark_settings_pending : {B : Bolt} → Time → Db B → Db B
mark_settings_pending at db = record db {
  sync_state = record db.sync_state { settings_due = some at };
}

unfoldable pub put_setting : {B : Bolt} → Text → Text → Db B → Db B
put_setting {B} key value db = record db { settings = B.put Text db.settings key value }

-- `SetSetting`. The clock is read twice: for the log, and for the sync marker.
unfoldable pub set_setting : {B : Bolt} → Time → Time → Text → Text → Text → Db B → Db B
unfolding put_setting append_audit mark_settings_pending is_syncable
set_setting {B} now now' audit_id key value db =
    let unchanged = value_or_empty (B.get Text db.settings key) == value in
    let stored = put_setting key value db in
    let line = setting_audit key value in
    let logged = if unchanged then stored else append_audit now audit_id line.0 line.1 stored in
    if is_syncable key then mark_settings_pending now' logged else logged

abbrev pub logo_key : Text
logo_key = text "logo"

-- `SetLogo`, `Logo`, `DeleteLogo`
unfoldable pub set_logo : {B : Bolt} → Text → Db B → Db B
unfolding put_setting
set_logo {B} image db =
    put_setting key_has_logo (text "yes") (record db { blobs = B.put Text db.blobs logo_key image })

unfoldable pub logo : {B : Bolt} → Db B → Option Text
logo {B} db = B.get Text db.blobs logo_key

unfoldable pub delete_logo : {B : Bolt} → Db B → Db B
unfolding put_setting
delete_logo {B} db =
    put_setting key_has_logo (text "no") (record db { blobs = B.delete Text db.blobs logo_key })
