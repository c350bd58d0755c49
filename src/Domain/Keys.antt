-- ===== src/Domain/Keys.antt =====
-- The string constants of internal/store/store.go: tax modes, payment methods and setting keys.
use pos_agent.Base.{Text, text, List, [], ◌∷◌}

abbrev pub tax_mode_none : Text
tax_mode_none = text "none"

abbrev pub tax_mode_inclusive : Text
tax_mode_inclusive = text "inclusive"

abbrev pub tax_mode_exclusive : Text
tax_mode_exclusive = text "exclusive"

abbrev pub payment_cash : Text
payment_cash = text "cash"

abbrev pub payment_mpesa : Text
payment_mpesa = text "mpesa"

abbrev pub key_shop_name : Text
key_shop_name = text "shop_name"

abbrev pub key_paper_width : Text
key_paper_width = text "paper_width"

abbrev pub key_printer_addr : Text
key_printer_addr = text "printer_addr"

abbrev pub key_scanner : Text
key_scanner = text "barcode_scanner"

abbrev pub key_receipt_theme : Text
key_receipt_theme = text "receipt_theme"

abbrev pub key_header_line : Text
key_header_line = text "receipt_header"

abbrev pub key_footer : Text
key_footer = text "receipt_footer"

abbrev pub key_has_logo : Text
key_has_logo = text "has_logo"

abbrev pub key_tax_rate_bps : Text
key_tax_rate_bps = text "tax_rate_bps"

abbrev pub key_tax_mode : Text
key_tax_mode = text "tax_mode"

-- `Defaults`, as the pairs of the map
abbrev pub defaults : List (Text × Text)
defaults =
    (key_shop_name, text "My Shop")
    ∷ (key_paper_width, text "80")
    ∷ (key_printer_addr, [])
    ∷ (key_scanner, text "off")
    ∷ (key_receipt_theme, text "classic")
    ∷ (key_header_line, [])
    ∷ (key_footer, text "Asante sana\nThank you")
    ∷ (key_has_logo, text "no")
    ∷ (key_tax_rate_bps, text "0")
    ∷ (key_tax_mode, text "none")
    ∷ []
