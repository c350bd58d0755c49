-- ===== src/Printer/Receipt.antt =====
-- internal/printer/receipt.go: the lines of a receipt in each theme, its bytes and its preview.
-- `Time.Format`, `strings.TrimSpace` and the raster of a logo are parameters.
use pos_agent.Base.{
  ℕ, Bool, true, false, not, ◌&&◌, Option, none, some, List, [], ◌∷◌, ◌++◌, map, Text, text,
  text_eq, ◌==◌, nat_eq, if◌then◌else◌, no_items, repeat, split, trim_right,
}
use pos_agent.Base.Int.{ℤ, pos, ltb_ℤ, eqb_ℤ, mul64}
use pos_agent.Base.Decimal.{itoa}
use pos_agent.Domain.{Time}
use pos_agent.Printer.Layout.{left_right, center, money, vat_label}
use pos_agent.Printer.Escpos.{
  esc_init, align_center, align_left, bold_on, bold_off, double_size, normal_size, feed_and_cut,
  line_feed, new_line,
}

pub record ReceiptItem : Type 0 where
  pub name : Text
  pub qty : ℤ
  pub price_cents : ℤ

pub record ReceiptData : Type 0 where
  pub shop_name : Text
  pub header_line : Text
  pub footer : Text
  pub logo : Text
  pub when : Time
  pub width_mm : ℤ
  pub theme : Text
  pub items : List ReceiptItem
  pub subtotal_cents : ℤ
  pub tax_cents : ℤ
  pub tax_rate_bps : ℤ
  pub tax_mode : Text
  pub total_cents : ℤ
  pub paid_cents : ℤ
  pub change_cents : ℤ

-- `line`; its field `text` is `content` here.
pub record Line : Type 0 where
  pub center : Bool
  pub bold : Bool
  pub double : Bool
  pub content : Text

abbrev pub plain : Text → Line
plain s = record { center = false; bold = false; double = false; content = s }

abbrev pub centered : Text → Line
centered s = record (plain s) { center = true }

abbrev pub title : Text → Line
title s = record { center = true; bold = true; double = true; content = s }

-- `charsForWidth` and `paperDots`
unfoldable pub chars_for_width : ℤ → ℕ
chars_for_width mm = if eqb_ℤ mm (pos 58) then 32 else 48

unfoldable pub paper_dots : ℤ → ℤ
paper_dots mm = if eqb_ℤ mm (pos 58) then pos 384 else pos 576

-- The name of a row, with its quantity above one.
unfoldable pub item_label : ReceiptItem → Text
unfolding itoa
item_label it = if ltb_ℤ (pos 1) it.qty then it.name ++ text " x" ++ itoa it.qty else it.name

-- `itemLines`
unfoldable pub item_lines : List ReceiptItem → ℕ → List Line
unfolding item_label left_right money
item_lines items w =
    map
      (λ (it : ReceiptItem).
        plain (left_right (item_label it) (money (mul64 it.price_cents it.qty)) w))
      items

-- `moneyLines`
unfoldable pub money_lines : ReceiptData → ℕ → Text → Bool → List Line
unfolding left_right money vat_label
money_lines d w total_label total_bold =
    let inclusive = d.tax_mode == text "inclusive" in
    let taxed = ltb_ℤ (pos 0) d.tax_cents in
    let before =
      if taxed && not inclusive
      then plain (left_right (text "Subtotal") (money d.subtotal_cents) w)
        ∷ plain (left_right (vat_label d.tax_rate_bps) (money d.tax_cents) w)
        ∷ []
      else [] in
    let note =
      if taxed && inclusive
      then plain (left_right (text "Incl. " ++ vat_label d.tax_rate_bps) (money d.tax_cents) w) ∷ []
      else [] in
    before
    ++ record (plain (left_right total_label (money d.total_cents) w)) { bold = total_bold } ∷ note
    ++ plain (left_right (text "Cash") (money d.paid_cents) w)
      ∷ plain (left_right (text "Change") (money d.change_cents) w)
      ∷ []

-- `writeLines`
unfoldable pub write_line : Line → Text
write_line ln =
    (if ln.center then align_center else align_left)
    ++ (if ln.double then double_size else [])
    ++ (if ln.bold then bold_on else [])
    ++ ln.content
    ++ new_line
    ++ (if ln.bold then bold_off else [])
    ++ (if ln.double then normal_size else [])

unfoldable pub write_lines : List Line → Text
unfolding write_line
write_lines [] = []
write_lines (ln ∷ ls) = write_line ln ++ write_lines ls

-- `linesToText`
unfoldable pub lines_to_text : List Line → ℕ → Text
unfolding center
lines_to_text [] w = []
lines_to_text (ln ∷ ls) w =
    (if ln.center then center ln.content w else ln.content) ++ new_line ++ lines_to_text ls w

-- A logo that decodes, centred above the receipt.
unfoldable pub logo_bytes : Option Text → Text
logo_bytes none = []
logo_bytes (some raster) = align_center ++ raster ++ new_line ++ align_left

module _ (format_when : Time → Text) (trim_space : Text → Text) where
  -- `footerLines`
  unfoldable pub footer_lines : Text → List Text
  unfolding split trim_right
  footer_lines footer =
      if trim_space footer == [] then [] else [] ∷ map (trim_right 13) (split 10 footer)

  -- The optional line under the name.
  unfoldable pub header_lines : (Text → Line) → Text → List Line
  header_lines style header =
      let h = trim_space header in if not (h == []) then style h ∷ [] else []

  -- `classicLines`
  unfoldable pub classic_lines : ReceiptData → ℕ → List Line
  unfolding footer_lines header_lines item_lines money_lines repeat
  classic_lines d w =
      title d.shop_name ∷ centered (format_when d.when) ∷ header_lines centered d.header_line
      ++ plain (repeat b'-' w) ∷ item_lines d.items w
      ++ plain (repeat b'-' w) ∷ money_lines d w (text "TOTAL") true
      ++ map centered (footer_lines d.footer)

  -- `minimalLines`
  unfoldable pub minimal_lines : ReceiptData → ℕ → List Line
  unfolding footer_lines header_lines item_lines money_lines
  minimal_lines d w =
      record (plain d.shop_name) { bold = true }
        ∷ plain (format_when d.when)
        ∷ header_lines plain d.header_line
      ++ plain [] ∷ item_lines d.items w
      ++ plain [] ∷ money_lines d w (text "Total") false
      ++ map plain (footer_lines d.footer)

  -- `boldLines`
  unfoldable pub bold_lines : ReceiptData → ℕ → List Line
  unfolding footer_lines header_lines item_lines money_lines repeat
  bold_lines d w =
      plain (repeat b'=' w)
        ∷ title d.shop_name
        ∷ centered (format_when d.when)
        ∷ header_lines centered d.header_line
      ++ plain (repeat b'=' w) ∷ item_lines d.items w
      ++ plain (repeat b'=' w) ∷ money_lines d w (text "TOTAL") true
      ++ map (λ f. record (centered f) { bold = true }) (footer_lines d.footer)

  -- `themeLines`
  unfoldable pub theme_lines : ReceiptData → ℕ → List Line
  unfolding classic_lines minimal_lines bold_lines
  theme_lines d w =
      if d.theme == text "minimal"
      then minimal_lines d w
      else if d.theme == text "bold"
      then bold_lines d w
      else classic_lines d w

  -- `PreviewText`
  unfoldable pub preview_text : ReceiptData → Text
  unfolding chars_for_width theme_lines lines_to_text
  preview_text d = let w = chars_for_width d.width_mm in lines_to_text (theme_lines d w) w

  -- `RenderReceipt`; the raster of an image that does not decode is `none`.
  module _ (raster_from_image : Text → ℤ → Option Text) where
    unfoldable pub render_receipt : ReceiptData → Text
    unfolding logo_bytes chars_for_width paper_dots theme_lines write_lines
    render_receipt d =
        let w = chars_for_width d.width_mm in
        let picture =
          if not (no_items d.logo)
          then logo_bytes (raster_from_image d.logo (paper_dots d.width_mm))
          else [] in
        esc_init
        ++ picture
        ++ write_lines (theme_lines d w)
        ++ align_left
        ++ line_feed
        ++ feed_and_cut
