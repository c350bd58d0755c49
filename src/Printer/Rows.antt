-- ===== src/Printer/Rows.antt =====
-- internal/printer/receipt.go, `itemLines` and `moneyLines`: every row of amounts fits the paper.
use pos_agent.Base.{
  ℕ, ◌≡◌, ◌≤◌, ◌++◌, ◌&&◌, not, Bool, List, [], ◌∷◌, Text, text, arith, length, All, All-append,
  if_lem, ◌==◌, text_eq,
}
use pos_agent.Base.Int.{ℤ, pos, InInt64, mul64, wrap64-InInt64, ◌*ℤ◌, ltb_ℤ}
use pos_agent.Printer.Layout.{left_right, money, vat_label}
use pos_agent.Printer.Layout.Rows.{length-left_right}
use pos_agent.Printer.Layout.Money.{length-money}
use pos_agent.Printer.Receipt.{
  ReceiptItem, ReceiptData, Line, item_label, item_lines, money_lines, chars_for_width,
}

-- The amounts of a receipt are what an `int64` can hold.
abbrev pub AmountsInRange : ReceiptData → Type 0
AmountsInRange d =
    InInt64 d.subtotal_cents
    × InInt64 d.tax_cents
    × InInt64 d.total_cents
    × InInt64 d.paid_cents
    × InInt64 d.change_cents

abbrev pub Fills : ℕ → Line → Type 0
Fills w ln = length ln.content ≡ w

length-amount_row :
    (label : Text) (cents : ℤ) (w : ℕ)
    → 32 ≤ w
    → InInt64 cents
    → length (left_right label (money cents) w) ≡ w
length-amount_row label cents w wide h =
    let short = length-money cents h in length-left_right label (money cents) w (omega arith)

item_lines-Fills : (items : List ReceiptItem) (w : ℕ) → 32 ≤ w → All (Fills w) (item_lines items w)
unfolding item_lines
item_lines-Fills [] w wide = tt
item_lines-Fills (it ∷ items) w wide = (
  length-amount_row (item_label it) (mul64 it.price_cents it.qty) w wide
      (wrap64-InInt64 (it.price_cents *ℤ it.qty)),
  item_lines-Fills items w wide,
)

money_lines-Fills :
    (d : ReceiptData) (w : ℕ) (label : Text) (bold : Bool)
    → 32 ≤ w
    → AmountsInRange d
    → All (Fills w) (money_lines d w label bold)
unfolding money_lines
money_lines-Fills d w label bold wide (sub, tax, total, paid, change) =
    let row = λ (t : Text) (c : ℤ) (h : InInt64 c). length-amount_row t c w wide h in
    let All_rows = All (Fills w) in
    All-append (Fills w) _ _
      (All-append (Fills w) _ _
        (if_lem All_rows (ltb_ℤ (pos 0) d.tax_cents && not (d.tax_mode == text "inclusive"))
          (
            row (text "Subtotal") d.subtotal_cents sub,
            (row (vat_label d.tax_rate_bps) d.tax_cents tax, tt),
          )
          tt)
        (
          row label d.total_cents total,
          if_lem All_rows (ltb_ℤ (pos 0) d.tax_cents && (d.tax_mode == text "inclusive"))
              (row (text "Incl. " ++ vat_label d.tax_rate_bps) d.tax_cents tax, tt) tt,
        ))
      (row (text "Cash") d.paid_cents paid, (row (text "Change") d.change_cents change, tt))

wide_enough : (mm : ℤ) → 32 ≤ chars_for_width mm
unfolding chars_for_width
wide_enough mm = ground arith

-- On either paper every row of items and amounts of a receipt is exactly as wide as the paper, where
-- the amounts of the sale are `int64`s: no amount is too long for its row, whatever the prices,
-- quantities and names are.
pub amount_rows-Fills :
    (d : ReceiptData) (label : Text) (bold : Bool)
    → AmountsInRange d
    → let w = chars_for_width d.width_mm in
      All (Fills w) (item_lines d.items w ++ money_lines d w label bold)
amount_rows-Fills d label bold h =
    let w = chars_for_width d.width_mm in
    let wide = wide_enough d.width_mm in
    All-append (Fills w) _ _ (item_lines-Fills d.items w wide)
      (money_lines-Fills d w label bold wide h)
