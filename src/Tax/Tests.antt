-- ===== src/Tax/Tests.antt =====
-- internal/store/tax.go: the tax of a price of 9.99 at 16 per cent, and of two lines.
use pos_agent.Base.{
  ◌≡◌, ◌≤◌, true, false, ◌&&◌, List, [], ◌∷◌, text, text_eq, ◌==◌, arith, ℕ, ◌*◌, ◌+◌, map,
  if◌then◌else◌,
}
use pos_agent.Base.Int.{pos, add64, wrap64, ltb_ℤ}
use pos_agent.Domain.{SaleItem}
use pos_agent.Domain.Keys.{tax_mode_exclusive, tax_mode_inclusive}
use pos_agent.Tax.{mode_tax, compute_tax, gross_of}
use pos_agent.Tax.Rounding.{IsRounded, mode_tax_exclusive, mode_tax_inclusive}
use pos_agent.Tax.Totals.{compute_tax-sums, tax_cents_of, sum}

mode_tax_exclusive_example :
    (t : ℕ) × (mode_tax (pos 1600) tax_mode_exclusive (pos 999) ≡ pos t)
    × IsRounded (999 * 1600) 10000 t
mode_tax_exclusive_example = mode_tax_exclusive 999 1600 (omega arith)

mode_tax_inclusive_example :
    (t : ℕ) × (mode_tax (pos 1600) tax_mode_inclusive (pos 999) ≡ pos t)
    × IsRounded (999 * 1600) (10000 + 1600) t
    × (t ≤ 999)
mode_tax_inclusive_example = mode_tax_inclusive 999 1600 (omega arith) (omega arith)

abbrev milk : SaleItem
milk = record {
  product_id = text "p1";
  name = text "Milk";
  price_cents = pos 120;
  qty = pos 2;
  taxable = true;
  tax_cents = pos 0;
}

abbrev stamps : SaleItem
stamps = record milk { name = text "Stamps"; taxable = false }

abbrev basket : List SaleItem
basket = milk ∷ stamps ∷ []

compute_tax-sums_example :
    let r = compute_tax (pos 1600) tax_mode_exclusive basket in
    (r.subtotal ≡ wrap64 (sum (map gross_of basket)))
    × (r.tax ≡ wrap64 (sum (map tax_cents_of r.items)))
    × (r.total ≡ (
        if tax_mode_exclusive == tax_mode_exclusive && ltb_ℤ (pos 0) (pos 1600)
        then add64 r.subtotal r.tax
        else r.subtotal))
compute_tax-sums_example = compute_tax-sums (pos 1600) tax_mode_exclusive basket
