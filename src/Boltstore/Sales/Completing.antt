-- ===== src/Boltstore/Sales/Completing.antt =====
-- internal/store/boltstore/boltstore.go: what `CreateSale` records, when it succeeds, and what it
-- takes from the stock.
use pos_agent.Base.{
  ◌≡◌, ◌≢◌, refl, sym, subst, false, some, List, [], ◌∷◌, Text, text_eq, arith, inl, inr,
  Bool-cases, Option-cases, All,
}
use pos_agent.Base.Int.{pos, ◌≤ℤ◌, ◌<ℤ◌, ltb_ℤ, leb_ℤ}
use pos_agent.Bolt.{Bolt}
use pos_agent.Domain.{Time, Product, SaleItem, SaleLine, SaleInput}
use pos_agent.Tax.{Taxed, compute_tax}
use pos_agent.Boltstore.Db.{Db, ok, >>=-ok_steps, ok-injective}
use pos_agent.Boltstore.Sales.{
  resolve_line, resolve_lines, finish_sale, sale_item, tax_from_bucket, sale_of, put_sale,
  mark_sale_pending, create_sale,
}

module _ {B : Bolt} (db : Db B) where
  abbrev pub IsPositive : SaleLine → Type 0
  IsPositive line = pos 0 <ℤ line.qty

  -- The items are the lines, each with the name, price and taxability its product has now.
  abbrev pub Snapshots : List SaleLine → List SaleItem → Type 0
  Snapshots [] [] = Unit
  Snapshots [] (_ ∷ _) = ⊥
  Snapshots (_ ∷ _) [] = ⊥
  Snapshots (line ∷ lines) (item ∷ items) =
      ((p : Product) × (B.get Product db.products line.product_id ≡ some p)
        × (item ≡ sale_item p line.qty))
      × Snapshots lines items

  -- The loop succeeds on sellable lines, with their snapshots.
  resolve_lines_ok :
      (lines : List SaleLine) (items : List SaleItem)
      → All IsPositive lines
      → Snapshots lines items
      → resolve_lines db lines ≡ ok items
  unfolding resolve_lines
  resolve_lines_ok [] [] h s = refl
  resolve_lines_ok [] (_ ∷ _) h s = absurd s
  resolve_lines_ok (line ∷ lines) [] h s = absurd s
  resolve_lines_ok (line ∷ lines) (item ∷ items) (more, rest) ((p, at, e), s) =
      let positive : leb_ℤ line.qty (pos 0) ≡ false = ground arith in
      rw (positive, at, resolve_lines_ok lines items rest s, e)

  resolve_line_sellable :
      (line : SaleLine) (item : SaleItem)
      → resolve_line db line ≡ ok item
      → (pos 0 <ℤ line.qty)
        × ((p : Product) × (B.get Product db.products line.product_id ≡ some p)
            × (item ≡ sale_item p line.qty))
  unfolding resolve_line
  resolve_line_sellable line item e = elim (Bool-cases (leb_ℤ line.qty (pos 0))) [
    | inl low ↦ cc (rw low at e)
    | inr positive ↦ elim (Option-cases (B.get Product db.products line.product_id)) [
      | inl unknown ↦ cc (rw (positive, unknown) at e)
      | inr (p, at) ↦ (
        ground arith,
        (p, at, sym (ok-injective (sale_item p line.qty) item (rw (positive, at) at e))),
      )
    ]
  ]

  -- What the loop accepts was sellable, line for line.
  pub resolve_lines_sellable :
      (lines : List SaleLine) (items : List SaleItem)
      → resolve_lines db lines ≡ ok items
      → All IsPositive lines × Snapshots lines items
  unfolding resolve_lines
  resolve_lines_sellable [] [] e = (tt, tt)
  resolve_lines_sellable [] (_ ∷ _) e = absurd (ground arith)
  resolve_lines_sellable (line ∷ lines) items e =
      let (item, first, e') = >>=-ok_steps (resolve_line db line) _ e in
      let (rest, others, done) = >>=-ok_steps (resolve_lines db lines) _ e' in
      let (more, shot) = resolve_line_sellable line item first in
      let (sellable, shots) = resolve_lines_sellable lines rest others in
      subst (λ l. All IsPositive (line ∷ lines) × Snapshots (line ∷ lines) l)
        (ok-injective (item ∷ rest) items done) ((more, sellable), (shot, shots))

  abbrev pub charged : List SaleItem → Taxed
  charged items = let (rate_bps, mode) = tax_from_bucket db in compute_tax rate_bps mode items

  -- A sale that the shop may complete: at least one line, positive quantities of known products,
  -- and a payment of at least the total that the tax settings make of the snapshots.
  pub record MayComplete (input : SaleInput) (items : List SaleItem) : Type 0 where
    pub some_line : input.lines ≢ []
    pub positive : All IsPositive input.lines
    pub snapshots : Snapshots input.lines items
    pub paid : (charged items).total ≤ℤ input.paid_cents

  finish_sale_ok :
      (now : Time) (sale_id : Text) (input : SaleInput) (items : List SaleItem)
      → items ≢ []
      → (charged items).total ≤ℤ input.paid_cents
      → let sale = sale_of now sale_id input (tax_from_bucket db) (charged items) in
        finish_sale now sale_id input items db
        ≡ ok (sale, mark_sale_pending sale_id (put_sale sale db))
  unfolding finish_sale
  finish_sale_ok now sale_id input [] ne paid = absurd (ne refl)
  finish_sale_ok now sale_id input (item ∷ items) ne paid =
      let enough : ltb_ℤ input.paid_cents (charged (item ∷ items)).total ≡ false = ground arith in
      rw enough

  some_item :
      (lines : List SaleLine) (items : List SaleItem)
      → lines ≢ []
      → Snapshots lines items
      → items ≢ []
  some_item [] items ne s = absurd (ne refl)
  some_item (line ∷ lines) [] ne s = absurd s
  some_item (line ∷ lines) (item ∷ items) ne s = ground arith

  -- What the shop may complete it completes.
  pub create_sale_completes :
      (now : Time) (sale_id : Text) (input : SaleInput) (items : List SaleItem)
      → MayComplete input items
      → let sale = sale_of now sale_id input (tax_from_bucket db) (charged items) in
        create_sale now sale_id input db ≡ ok (sale, mark_sale_pending sale_id (put_sale sale db))
  unfolding create_sale
  create_sale_completes now sale_id input items m =
      rw (resolve_lines_ok input.lines items m.positive m.snapshots) (
        finish_sale_ok now sale_id input items (some_item input.lines items m.some_line m.snapshots)
          m.paid)
