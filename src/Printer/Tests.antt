-- ===== src/Printer/Tests.antt =====
-- internal/printer and cmd/fakeprinter: a receipt of the small paper, with a logo of eight dots.
use pos_agent.Base.{
  ◌≡◌, ◌++◌, refl, true, false, Option, some, [], ◌∷◌, Text, text, text_eq, arith, All, any,
  keep_if,
}
use pos_agent.Base.Int.{pos, negsuc, wrap64, ◌*ℤ◌}
use pos_agent.Domain.{Time}
use pos_agent.Printer.Layout.{money}
use pos_agent.Printer.Layout.ReadBack.{read_money, read-money}
use pos_agent.Printer.Logo.{Image, raster_from_image, raster_command}
use pos_agent.Printer.Receipt.{
  ReceiptData, item_lines, money_lines, chars_for_width, theme_lines, render_receipt,
}
use pos_agent.Printer.Rows.{Fills, amount_rows-Fills}
use pos_agent.Printer.Fakeprinter.{text_preview, is_printable}
use pos_agent.Printer.Fakeprinter.Reading.{is_control}
use pos_agent.Printer.Printed.{text_of, as_preview, text_preview-render_receipt}

abbrev black_row : Text → Option Image
black_row file = some (record {
  min_x = pos 0;
  min_y = pos 0;
  width = 8;
  height = 1;
  color = λ x y. record { red = 0; green = 0; blue = 0; alpha = 65535 };
})

abbrev new_year : Time → Text
new_year t = text "01 Jan 2025, 10:00"

abbrev as_it_is : Text → Text
as_it_is s = s

abbrev two_breads : ReceiptData
two_breads = record {
  shop_name = text "Duka";
  header_line = [];
  footer = text "Asante";
  logo = 1 ∷ [];
  when = 5;
  width_mm = pos 58;
  theme = text "minimal";
  items = record { name = text "Bread"; qty = pos 2; price_cents = pos 6500 } ∷ [];
  subtotal_cents = pos 13000;
  tax_cents = pos 0;
  tax_rate_bps = pos 0;
  tax_mode = text "none";
  total_cents = pos 13000;
  paid_cents = pos 20000;
  change_cents = pos 7000;
}

amount_rows-Fills_example :
    All (Fills 32) (item_lines two_breads.items 32 ++ money_lines two_breads 32 (text "TOTAL") true)
unfolding chars_for_width
amount_rows-Fills_example = amount_rows-Fills two_breads (text "TOTAL") true (
  (omega arith, omega arith),
  (omega arith, omega arith),
  (omega arith, omega arith),
  (omega arith, omega arith),
  (omega arith, omega arith),
)

read-money_example : read_money (money (negsuc 123455)) ≡ some (negsuc 123455)
read-money_example = read-money (negsuc 123455) (omega arith)

abbrev raster : Text
raster = raster_command 1 1 (255 ∷ [])

plain_receipt :
    any is_control (text_of (theme_lines new_year as_it_is two_breads (chars_for_width (pos 58))))
    ≡ false
unfolding any text_of theme_lines chars_for_width text_eq wrap64 ◌*ℤ◌
plain_receipt = refl

text_preview-render_receipt_example :
    text_preview (render_receipt new_year as_it_is (raster_from_image black_row) two_breads)
    ≡ as_preview (
        keep_if is_printable
          (text_of (theme_lines new_year as_it_is two_breads (chars_for_width (pos 58)))))
text_preview-render_receipt_example =
    text_preview-render_receipt new_year as_it_is black_row two_breads plain_receipt
