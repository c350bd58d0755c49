-- ===== src/Web/Server/SettingsForm.antt =====
-- internal/web/server.go, "Settings", and the logo.
use pos_agent.Base.{
  ◌*◌, ◌^◌, Bool, true, not, ◌&&◌, ◌||◌, Option, none, some, List, [], ◌∷◌, Text, text, text_eq,
  ◌==◌, if◌then◌else◌, any, ltb, length,
}
use pos_agent.Base.Int.{pos, ltb_ℤ}
use pos_agent.Base.Decimal.{atoi}
use pos_agent.Bolt.{Bolt}
use pos_agent.Domain.Keys.{
  tax_mode_none, tax_mode_inclusive, tax_mode_exclusive, key_shop_name, key_paper_width,
  key_printer_addr, key_scanner, key_receipt_theme, key_header_line, key_footer, key_tax_rate_bps,
  key_tax_mode,
}
use pos_agent.Boltstore.Db.{Db}
use pos_agent.Boltstore.Settings.{Settings, settings, set_setting, set_logo, logo, delete_logo}
use pos_agent.Web.Server.{
  Method, get, post, other, World, Answer, Outside, reply, refuse, only_post, with_body, nudge_sync,
  all_settings, picture, done,
}

-- A decoded `map[string]string`: its keys in the order in which `range` meets them, and its values.
pub record Form : Type 0 where
  pub keys : List Text
  pub value : Settings

-- `allowed`
abbrev allowed_keys : List Text
allowed_keys =
    key_shop_name ∷ key_paper_width ∷ key_printer_addr ∷ key_scanner ∷ key_receipt_theme
    ∷ key_header_line ∷ key_footer ∷ key_tax_rate_bps ∷ key_tax_mode ∷ []

unfoldable pub is_allowed : Text → Bool
unfolding any
is_allowed key = any (λ k. k == key) allowed_keys

-- The check of a rate: digits that read as an `int` that is not negative.
unfoldable pub is_rate : Text → Bool
unfolding atoi
is_rate v = let n = atoi v in n.ok && not (ltb_ℤ n.value (pos 0))

unfoldable pub is_mode : Text → Bool
is_mode v = v == tax_mode_none || v == tax_mode_inclusive || v == tax_mode_exclusive

-- A key that is not in the form passes.
abbrev pub passes : (Text → Bool) → Option Text → Bool
passes test none = true
passes test (some v) = test v

module _ {B : Bolt} (o : Outside) where
  -- One round of the loop over the form.
  unfoldable pub save_one : Text → Option Text → Db B → Db B
  unfolding is_allowed
  save_one k none db = db
  save_one k (some v) db =
      let drawn = o.setting_draws k in
      if is_allowed k then set_setting drawn.now drawn.now' drawn.audit_id k v db else db

  unfoldable pub save_all : Settings → List Text → Db B → Db B
  unfolding save_one
  save_all value [] db = db
  save_all value (k ∷ ks) db = save_all value ks (save_one k (value k) db)

  -- `handleSettings`
  unfoldable pub handle_settings : Method → Option Form → World B → Answer B
  unfolding is_rate is_mode save_all
  handle_settings get body w = reply (all_settings (settings w.db)) w
  handle_settings post body w = with_body body (text "Could not read the settings.") w (λ form.
      if not (passes is_rate (form.value key_tax_rate_bps))
      then refuse 400
          (text "Tax rate must be a whole number of basis points, for example 1600 for 16%.") w
      else if not (passes is_mode (form.value key_tax_mode))
      then refuse 400 (text "Tax mode must be none, inclusive, or exclusive.") w
      else reply done (nudge_sync o (record w { db = save_all form.value form.keys w.db })))
  handle_settings other body w = refuse 405 (text "Method not allowed.") w

  -- The answer to a request for the logo; without one it is `http.NotFound`.
  abbrev pub show_logo : Option Text → World B → Answer B
  show_logo none w = refuse 404 (text "404 page not found") w
  show_logo (some image) w = reply (picture image) w

  -- `handleLogo`; the body is the upload.
  unfoldable pub handle_logo : Method → Text → World B → Answer B
  handle_logo get body w = show_logo (logo w.db) w
  handle_logo post body w =
      if ltb (2 * 2 ^ 20) (length body)
      then refuse 400 (text "That image is too big. Please use one under 2 MB.") w
      else if not (o.valid_image body)
      then refuse 400 (text "That file is not a picture we can use. Please upload a PNG or JPG.") w
      else reply done (record w { db = set_logo body w.db })
  handle_logo other body w = refuse 405 (text "Method not allowed.") w

-- `handleLogoDelete`
unfoldable pub handle_logo_delete : {B : Bolt} → Method → World B → Answer B
handle_logo_delete method w = only_post method w (reply done (record w { db = delete_logo w.db }))
