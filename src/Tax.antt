-- ===== src/Tax.antt =====
-- internal/store/tax.go: `ComputeTax` and `roundHalfUp`. The loop writes each line's TaxCents in
-- place, so the model returns the lines beside the three sums.
pub mod Totals
pub mod Rounding
mod Tests
use pos_agent.Base.{Bool, ◌&&◌, ◌||◌, not, List, [], ◌∷◌, Text, text_eq, ◌==◌, if◌then◌else◌}
use pos_agent.Base.Int.{ℤ, pos, leb_ℤ, ltb_ℤ, eqb_ℤ, add32, add64, mul64, div64}
use pos_agent.Domain.{SaleItem}
use pos_agent.Domain.Keys.{tax_mode_none, tax_mode_inclusive, tax_mode_exclusive}

unfoldable pub round_half_up : ℤ → ℤ → ℤ
round_half_up n d = if eqb_ℤ d (pos 0) then pos 0 else div64 (add64 n (div64 d (pos 2))) d

-- `gross := items[i].PriceCents * int64(items[i].Qty)`
unfoldable pub gross_of : SaleItem → ℤ
gross_of item = mul64 item.price_cents item.qty

-- The lines that the loop leaves by `continue`.
unfoldable pub is_exempt : ℤ → Text → SaleItem → Bool
is_exempt rate_bps mode item =
    leb_ℤ rate_bps (pos 0) || mode == tax_mode_none || mode == [] || not item.taxable

-- The `switch mode`.
unfoldable pub mode_tax : ℤ → Text → ℤ → ℤ
unfolding round_half_up
mode_tax rate_bps mode gross =
    if mode == tax_mode_exclusive
    then round_half_up (mul64 gross rate_bps) (pos 10000)
    else if mode == tax_mode_inclusive
    then round_half_up (mul64 gross rate_bps) (add32 (pos 10000) rate_bps)
    else pos 0

pub record Sums : Type 0 where
  pub subtotal : ℤ
  pub tax : ℤ

-- One round of the loop: the line as it is left, and the running sums.
unfoldable pub tax_round : ℤ → Text → SaleItem → Sums → SaleItem × Sums
unfolding is_exempt mode_tax gross_of
tax_round rate_bps mode item sums =
    let subtotal' = add64 sums.subtotal (gross_of item) in
    let t = mode_tax rate_bps mode (gross_of item) in
    if is_exempt rate_bps mode item
    then (record item { tax_cents = pos 0 }, record sums { subtotal = subtotal' })
    else (record item { tax_cents = t }, record { subtotal = subtotal'; tax = add64 sums.tax t })

unfoldable pub tax_loop : ℤ → Text → List SaleItem → Sums → List SaleItem × Sums
tax_loop rate_bps mode [] sums = ([], sums)
tax_loop rate_bps mode (item ∷ items) sums =
    let (item', sums') = tax_round rate_bps mode item sums in
    let (items', totals) = tax_loop rate_bps mode items sums' in (item' ∷ items', totals)

pub record Taxed : Type 0 where
  pub items : List SaleItem
  pub subtotal : ℤ
  pub tax : ℤ
  pub total : ℤ

unfoldable pub total_of : ℤ → Text → Sums → ℤ
total_of rate_bps mode sums =
    if mode == tax_mode_exclusive && ltb_ℤ (pos 0) rate_bps
    then add64 sums.subtotal sums.tax
    else sums.subtotal

unfoldable pub compute_tax : ℤ → Text → List SaleItem → Taxed
unfolding tax_loop total_of
compute_tax rate_bps mode items =
    let (items', sums) = tax_loop rate_bps mode items (record { subtotal = pos 0; tax = pos 0 }) in
    record {
      items = items';
      subtotal = sums.subtotal;
      tax = sums.tax;
      total = total_of rate_bps mode sums;
    }
