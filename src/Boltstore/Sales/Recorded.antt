-- ===== src/Boltstore/Sales/Recorded.antt =====
-- internal/store/boltstore/boltstore.go, `CreateSale`: what a completed sale is, field by field, and what
-- the database then holds.
use mathlib.Core.List
use pos_agent.Base.{
  ◌≡◌, ◌⊎◌, refl, sym, ap, ◌∙◌, ◌&&◌, some, List, [], ◌∷◌, ◌++◌, map, Text, text_eq, ◌==◌,
  if◌then◌else◌, arith, inl, inr, Bool-cases,
}
use pos_agent.Base.Int.{ℤ, pos, ltb_ℤ, add64, sub64, mul64, wrap64}
use pos_agent.Bolt.{Bolt, IsLawful}
use pos_agent.Domain.{Time, Product, Sale, SaleItem, SaleLine, SaleInput}
use pos_agent.Domain.Keys.{tax_mode_exclusive, payment_cash}
use pos_agent.Tax.{gross_of}
use pos_agent.Tax.Totals.{sum, tax_cents_of, untaxed, compute_tax-untaxed, compute_tax-sums}
use pos_agent.Boltstore.Db.{Db, ok}
use pos_agent.Boltstore.Sales.{
  create_sale, sale_of, sale_item, tax_from_bucket, put_sale, mark_sale_pending, ref_key,
}
use pos_agent.Boltstore.Sales.Completing.{Snapshots, charged, MayComplete, create_sale_completes}
use pos_agent.Boltstore.Sales.Referenced.{put_sale-sales, put_sale-ref_idx}

-- The gross amount of a line of a sale, in 64 bits.
abbrev pub line_cents : SaleItem → ℤ
line_cents item = mul64 item.price_cents item.qty

map-line_cents : (items : List SaleItem) → map line_cents (map untaxed items) ≡ map line_cents items
map-line_cents [] = refl
map-line_cents (item ∷ items) = ap (λ r. line_cents item ∷ r) (map-line_cents items)

gross_of-line_cents : (items : List SaleItem) → map gross_of items ≡ map line_cents items
unfolding gross_of
gross_of-line_cents [] = refl
gross_of-line_cents (item ∷ items) = ap (λ r. line_cents item ∷ r) (gross_of-line_cents items)

module _ {B : Bolt} (db : Db B) where
  -- The items of a sale are its lines, each with what its product has now.
  abbrev pub AreSold : List SaleLine → List SaleItem → Type 0
  AreSold [] [] = Unit
  AreSold [] (_ ∷ _) = ⊥
  AreSold (_ ∷ _) [] = ⊥
  AreSold (line ∷ lines) (item ∷ items) =
      ((p : Product) × (B.get Product db.products line.product_id ≡ some p)
        × (item.product_id ≡ p.id)
        × (item.name ≡ p.name)
        × (item.price_cents ≡ p.price_cents)
        × (item.taxable ≡ p.taxable)
        × (item.qty ≡ line.qty))
      × AreSold lines items

  Snapshots-AreSold :
      (lines : List SaleLine) (items taxed : List SaleItem)
      → Snapshots db lines items
      → map untaxed taxed ≡ map untaxed items
      → AreSold lines taxed
  Snapshots-AreSold [] [] [] s e = tt
  Snapshots-AreSold [] [] (_ ∷ _) s e = cc
  Snapshots-AreSold [] (_ ∷ _) taxed s e = absurd s
  Snapshots-AreSold (_ ∷ _) [] taxed s e = absurd s
  Snapshots-AreSold (line ∷ lines) (item ∷ items) [] s e = cc
  Snapshots-AreSold (line ∷ lines) (item ∷ items) (it ∷ taxed) ((p, at, same), s) e =
      let own : untaxed it ≡ untaxed (sale_item p line.qty) =
        List.head-eq_of_cons-eq e ∙ ap untaxed same in
      (
        (
          p,
          at,
          unfold sale_item in ap (λ (i : SaleItem). i.product_id) own,
          unfold sale_item in ap (λ (i : SaleItem). i.name) own,
          unfold sale_item in ap (λ (i : SaleItem). i.price_cents) own,
          unfold sale_item in ap (λ (i : SaleItem). i.taxable) own,
          unfold sale_item in ap (λ (i : SaleItem). i.qty) own,
        ),
        Snapshots-AreSold lines items taxed s (List.tail-eq_of_cons-eq e),
      )

  -- The sale of this input, under the tax settings that the database has.
  pub record IsSaleOf (now : Time) (sale_id : Text) (input : SaleInput) (sale : Sale) : Type 0 where
    pub id : sale.id ≡ sale_id
    pub created_at : sale.created_at ≡ now
    pub items : AreSold input.lines sale.items
    pub subtotal : sale.subtotal_cents ≡ wrap64 (sum (map line_cents sale.items))
    pub tax : sale.tax_cents ≡ wrap64 (sum (map tax_cents_of sale.items))
    pub total : sale.total_cents ≡ (
        if sale.tax_mode == tax_mode_exclusive && ltb_ℤ (pos 0) sale.tax_rate_bps
        then add64 sale.subtotal_cents sale.tax_cents
        else sale.subtotal_cents)
    pub paid : sale.paid_cents ≡ input.paid_cents
    pub change : sale.change_cents ≡ sub64 input.paid_cents sale.total_cents
    pub method :
        sale.payment_method
        ≡ (if input.payment_method == [] then payment_cash else input.payment_method)
    pub reference : sale.reference ≡ input.reference
    pub settings : (sale.tax_rate_bps, sale.tax_mode) ≡ tax_from_bucket db

  -- What a database holds after the sale: the sale under its id and no other sale changed, its entry in
  -- the reference index where it has a reference, and its mark for the next push.
  pub record IsKept (sale : Sale) (after : Db B) : Type 0 where
    pub sales :
        (j : Text)
        → B.get Sale after.sales j ≡ (if j == sale.id then some sale else B.get Sale db.sales j)
    pub indexed :
        (sale.reference ≡ []) ⊎ (B.get Unit after.ref_idx (sale.reference ++ 0 ∷ sale.id) ≡ some tt)
    pub marked : B.get Unit after.pending_sales sale.id ≡ some tt

  module _ (L : IsLawful B) where
    sale_of-IsSaleOf :
        (now : Time) (sale_id : Text) (input : SaleInput) (items : List SaleItem)
        → MayComplete db input items
        → IsSaleOf now sale_id input
            (sale_of now sale_id input (tax_from_bucket db) (charged db items))
    unfolding sale_of
    sale_of-IsSaleOf now sale_id input items m =
        let (rate_bps, mode) = tax_from_bucket db in
        let (subtotal, tax, total) = compute_tax-sums rate_bps mode items in
        let lines = compute_tax-untaxed rate_bps mode items in
        record {
          id = refl;
          created_at = refl;
          items = Snapshots-AreSold input.lines items (charged db items).items m.snapshots lines;
          subtotal =
              subtotal
              ∙ ap (λ l. wrap64 (sum l))
                  (gross_of-line_cents items
                    ∙ sym (map-line_cents items)
                    ∙ sym (ap (map line_cents) lines)
                    ∙ map-line_cents (charged db items).items);
          tax = tax;
          total = total;
          paid = refl;
          change = refl;
          method = refl;
          reference = refl;
          settings = refl;
        }

    put_sale-IsKept : (sale : Sale) → IsKept sale (mark_sale_pending sale.id (put_sale sale db))
    unfolding mark_sale_pending ref_key
    put_sale-IsKept sale = record {
      sales = put_sale-sales L db sale;
      indexed = elim (Bool-cases (sale.reference == [])) [
        | inl bare ↦ inl (ground arith)
        | inr named ↦
            inr (ground (arith, put_sale-ref_idx L db sale (ref_key sale.reference sale.id), named))
      ];
      marked = ground (arith, L.get-put Unit (put_sale sale db).pending_sales sale.id tt sale.id);
    }

    -- `CreateSale` completes every sale that the shop may complete. The sale has a line for each line of
    -- the input with its product's name, price and taxability, the sums of the gross amounts and of the
    -- tax of these lines, the total, the change, the payment method or else cash, and the tax settings of
    -- the shop; and it is then stored under its id, indexed under its reference and marked for the next
    -- push, with every other sale as it was.
    pub create_sale-IsSaleOf :
        (now : Time) (sale_id : Text) (input : SaleInput) (items : List SaleItem)
        → MayComplete db input items
        → (sale : Sale) × (after : Db B) × (create_sale now sale_id input db ≡ ok (sale, after))
          × IsSaleOf now sale_id input sale
          × IsKept sale after
    unfolding sale_of
    create_sale-IsSaleOf now sale_id input items m =
        let sale = sale_of now sale_id input (tax_from_bucket db) (charged db items) in
        (
          sale,
          mark_sale_pending sale.id (put_sale sale db),
          create_sale_completes db now sale_id input items m,
          sale_of-IsSaleOf now sale_id input items m,
          put_sale-IsKept sale,
        )
