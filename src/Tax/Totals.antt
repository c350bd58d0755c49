-- ===== src/Tax/Totals.antt =====
-- `ComputeTax` (internal/store/tax.go): what the sums are, over all lines.
use mathlib.Core.Path.{ap₂}
use pos_agent.Base.{
  ◌&&◌, if◌then◌else◌, ◌≡◌, refl, sym, subst, ◌∙◌, true, inl, inr, Bool-cases, All, List, [], ◌∷◌,
  map, Text, text_eq, ◌==◌, if◌then◌else◌, arith,
}
use pos_agent.Base.Int.{
  ltb_ℤ, ℤ, pos, ◌+ℤ◌, add64, wrap64, wrap64-add_left, InInt64, wrap64-InInt64, wrap64_self,
  +ℤ_assoc, +ℤ_zero, +ℤ_zero_left,
}
use pos_agent.Domain.{SaleItem}
use pos_agent.Domain.Keys.{tax_mode_exclusive}
use pos_agent.Tax.{Sums, tax_round, tax_loop, compute_tax, total_of, gross_of, is_exempt}

-- The exact sum, with no overflow.
abbrev pub sum : List ℤ → ℤ
sum [] = pos 0
sum (x ∷ xs) = x +ℤ sum xs

abbrev pub tax_cents_of : SaleItem → ℤ
tax_cents_of item = item.tax_cents

-- A running wrapped sum is the wrapped exact sum.
pub add64-sum : (s x t : ℤ) → wrap64 (add64 s x +ℤ t) ≡ wrap64 (s +ℤ (x +ℤ t))
add64-sum s x t = rw (wrap64-add_left, +ℤ_assoc)

wrap64_self_add : (a : ℤ) → InInt64 a → add64 a (pos 0) ≡ a
wrap64_self_add a h = rw (+ℤ_zero a) (wrap64_self a h)

module _ (rate_bps : ℤ) (mode : Text) where
  round-tax :
      (item : SaleItem) (sums : Sums)
      → InInt64 sums.tax
      → let (item', sums') = tax_round rate_bps mode item sums in
        sums'.tax ≡ add64 sums.tax item'.tax_cents
  unfolding tax_round
  round-tax item sums h = elim (Bool-cases (is_exempt rate_bps mode item)) [
    | inl exempt ↦ rw exempt (sym (wrap64_self_add sums.tax h))
    | inr taxed ↦ rw taxed
  ]

  round-subtotal :
      (item : SaleItem) (sums : Sums)
      → (tax_round rate_bps mode item sums).1.subtotal ≡ add64 sums.subtotal (gross_of item)
  unfolding tax_round
  round-subtotal item sums = ground arith

  round-gross :
      (item : SaleItem) (sums : Sums)
      → gross_of (tax_round rate_bps mode item sums).0 ≡ gross_of item
  unfolding tax_round gross_of
  round-gross item sums = ground arith

  loop-tax :
      (items : List SaleItem) (sums : Sums)
      → InInt64 sums.tax
      → let (items', sums') = tax_loop rate_bps mode items sums in
        sums'.tax ≡ wrap64 (sums.tax +ℤ sum (map tax_cents_of items'))
  unfolding tax_loop
  loop-tax [] sums h = sym (wrap64_self_add sums.tax h)
  loop-tax (item ∷ items) sums h =
      let (item', sums') = tax_round rate_bps mode item sums in
      let e = round-tax item sums h in
      loop-tax items sums' (subst InInt64 (sym e) (wrap64-InInt64 _))
      ∙ rw e (add64-sum sums.tax item'.tax_cents _)

  loop-subtotal :
      (items : List SaleItem) (sums : Sums)
      → InInt64 sums.subtotal
      → (tax_loop rate_bps mode items sums).1.subtotal
        ≡ wrap64 (sums.subtotal +ℤ sum (map gross_of items))
  unfolding tax_loop
  loop-subtotal [] sums h = sym (wrap64_self_add sums.subtotal h)
  loop-subtotal (item ∷ items) sums h =
      let (item', sums') = tax_round rate_bps mode item sums in
      let e = round-subtotal item sums in
      loop-subtotal items sums' (subst InInt64 (sym e) (wrap64-InInt64 _))
      ∙ rw e (add64-sum sums.subtotal (gross_of item) _)

-- The subtotal is the sum of the lines' gross amounts and the tax is the sum of the lines' TaxCents
-- as they are left, both as wrapped 64-bit sums; the total adds the tax in exclusive mode at a
-- positive rate and is the subtotal otherwise.
pub compute_tax-sums :
    (rate_bps : ℤ) (mode : Text) (items : List SaleItem)
    → let r = compute_tax rate_bps mode items in
      (r.subtotal ≡ wrap64 (sum (map gross_of items)))
      × (r.tax ≡ wrap64 (sum (map tax_cents_of r.items)))
      × (r.total ≡ (
          if mode == tax_mode_exclusive && ltb_ℤ (pos 0) rate_bps
          then add64 r.subtotal r.tax
          else r.subtotal))
unfolding compute_tax total_of
compute_tax-sums rate_bps mode items = (
  loop-subtotal rate_bps mode items _ (omega arith) ∙ rw +ℤ_zero_left,
  loop-tax rate_bps mode items _ (omega arith) ∙ rw +ℤ_zero_left,
  refl,
)

total_of_untaxed :
    (rate_bps : ℤ) (mode : Text) (sums : Sums)
    → sums.tax ≡ pos 0
    → InInt64 sums.subtotal
    → total_of rate_bps mode sums ≡ sums.subtotal
unfolding total_of
total_of_untaxed rate_bps mode sums e h = rw e (ground (arith, wrap64_self_add sums.subtotal h))

-- What the loop leaves of a line besides its tax.
abbrev pub untaxed : SaleItem → SaleItem
untaxed item = record item { tax_cents = pos 0 }

module _ (rate_bps : ℤ) (mode : Text) where
  round-untaxed :
      (item : SaleItem) (sums : Sums) → untaxed (tax_round rate_bps mode item sums).0 ≡ untaxed item
  unfolding tax_round
  round-untaxed item sums = elim (Bool-cases (is_exempt rate_bps mode item)) [
    | inl exempt ↦ rw exempt
    | inr taxed ↦ rw taxed
  ]

  loop-untaxed :
      (items : List SaleItem) (sums : Sums)
      → map untaxed (tax_loop rate_bps mode items sums).0 ≡ map untaxed items
  unfolding tax_loop
  loop-untaxed [] sums = refl
  loop-untaxed (item ∷ items) sums =
      ap₂ ◌∷◌ (round-untaxed item sums) (loop-untaxed items (tax_round rate_bps mode item sums).1)

  -- The lines keep their order, names, prices, quantities and flags: only TaxCents is written.
  pub compute_tax-untaxed :
      (items : List SaleItem)
      → map untaxed (compute_tax rate_bps mode items).items ≡ map untaxed items
  unfolding compute_tax
  compute_tax-untaxed items = loop-untaxed items _

  abbrev pub IsUntaxed : SaleItem → Type 0
  IsUntaxed item = item.tax_cents ≡ pos 0

  loop_of_exempt :
      (items : List SaleItem) (sums : Sums)
      → All (λ item. is_exempt rate_bps mode item ≡ true) items
      → let (items', sums') = tax_loop rate_bps mode items sums in
        All IsUntaxed items' × (sums'.tax ≡ sums.tax)
  unfolding tax_loop tax_round
  loop_of_exempt [] sums h = (tt, refl)
  loop_of_exempt (item ∷ items) sums (h, rest) =
      rw h (let (a, e) = loop_of_exempt items _ rest in ((refl, a), e))

  -- Where every line is exempt (tax off, a rate of zero or less, or a line not taxable) every
  -- TaxCents and the tax are zero, and the total is the subtotal.
  pub compute_tax_of_exempt :
      (items : List SaleItem)
      → All (λ item. is_exempt rate_bps mode item ≡ true) items
      → let r = compute_tax rate_bps mode items in
        All IsUntaxed r.items × (r.tax ≡ pos 0) × (r.total ≡ r.subtotal)
  unfolding compute_tax
  compute_tax_of_exempt items h =
      let (a, e) = loop_of_exempt items (record { subtotal = pos 0; tax = pos 0 }) h in
      (
        a,
        e,
        total_of_untaxed rate_bps mode _ e (
            subst InInt64 (sym (loop-subtotal rate_bps mode items _ (omega arith)))
              (wrap64-InInt64 _)),
      )
