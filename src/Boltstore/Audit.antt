-- ===== src/Boltstore/Audit.antt =====
-- internal/store/boltstore/audit.go: the activity log and the texts of its lines.
use pos_agent.Base.{
  Bool, false, ◌&&◌, not, List, [], ◌∷◌, ◌++◌, Text, text, text_eq, ◌==◌, if◌then◌else◌, keep_if,
}
use pos_agent.Base.Int.{ℤ, pos, ltb_ℤ, eqb_ℤ, sub64, quot, rem}
use pos_agent.Base.Decimal.{itoa, pad2, atoi}
use pos_agent.Base.Sort.{sort, earlier}
use pos_agent.Bolt.{Bolt}
use pos_agent.Domain.{Time, AuditEntry, is_zero, before}
use pos_agent.Domain.Keys.{
  key_shop_name, key_paper_width, key_printer_addr, key_scanner, key_receipt_theme, key_header_line,
  key_footer, key_tax_rate_bps, key_tax_mode,
}
use pos_agent.Boltstore.Db.{Db}

unfoldable pub append_audit : {B : Bolt} → Time → Text → Text → Text → Db B → Db B
append_audit at audit_id action detail db = record db {
  audit = db.audit ++ record { id = audit_id; at = at; action = action; detail = detail } ∷ [];
}

unfoldable pub in_range : Time → Time → AuditEntry → Bool
in_range from to e =
    if not (is_zero from) && before e.at from
    then false
    else not (not (is_zero to) && not (before e.at to))

-- `Audit`
unfoldable pub audit : {B : Bolt} → Time → Time → Db B → List AuditEntry
unfolding in_range
audit from to db = sort (earlier (λ (e : AuditEntry). e.at)) (keep_if (in_range from to) db.audit)

unfoldable pub decimal_cents : ℤ → Text
unfolding itoa pad2
decimal_cents cents =
    let neg = ltb_ℤ cents (pos 0) in
    let magnitude = if neg then sub64 (pos 0) cents else cents in
    let s = itoa (quot magnitude (pos 100)) ++ b'.' ∷ pad2 (rem magnitude (pos 100)) in
    if neg then b'-' ∷ s else s

unfoldable pub audit_price : ℤ → Text
unfolding decimal_cents
audit_price cents = text "KSh " ++ decimal_cents cents

-- `settingLabels[key]`, empty for a key that is not there
unfoldable pub setting_label : Text → Text
setting_label key =
    if key == key_shop_name
    then text "Shop name"
    else if key == key_paper_width
    then text "Receipt paper size"
    else if key == key_printer_addr
    then text "Printer address"
    else if key == key_scanner
    then text "Barcode scanner"
    else if key == key_receipt_theme
    then text "Receipt style"
    else if key == key_header_line
    then text "Receipt header line"
    else if key == key_footer
    then text "Receipt ending message"
    else if key == key_tax_rate_bps
    then text "Tax rate"
    else if key == key_tax_mode
    then text "Tax mode"
    else []

unfoldable pub format_bps : ℤ → Text
unfolding itoa pad2
format_bps bps =
    let whole = quot bps (pos 100) in
    let frac = rem bps (pos 100) in
    if eqb_ℤ frac (pos 0)
    then itoa whole ++ text "%"
    else if eqb_ℤ (rem frac (pos 10)) (pos 0)
    then itoa whole ++ b'.' ∷ itoa (quot frac (pos 10)) ++ text "%"
    else itoa whole ++ b'.' ∷ pad2 frac ++ text "%"

-- The action is "Setting changed".
unfoldable pub setting_audit : Text → Text → Text × Text
unfolding setting_label format_bps atoi
setting_audit key value =
    let known = setting_label key in
    let label = if known == [] then key else known in
    let detail =
      if key == key_tax_rate_bps
      then label ++ text " set to " ++ format_bps (atoi value).value
      else if value == []
      then label ++ text " cleared"
      else label ++ text " set to " ++ value in
    (text "Setting changed", detail)
