-- ===== src/Boltstore/Sales/Sold.antt =====
-- internal/store/boltstore/boltstore.go: a sale that `CreateSale` returned was allowed, and it takes
-- its quantities from the stock.
use pos_agent.Base.{
  ◌≡◌, ◌≢◌, refl, sym, ap, subst, ◌∙◌, none, List, [], ◌∷◌, Text, text_eq, arith, inl, inr,
  Bool-cases,
}
use pos_agent.Base.Int.{◌≤ℤ◌, ltb_ℤ, sub32}
use pos_agent.Bolt.{Bolt, IsLawful}
use pos_agent.Domain.{Time, Sale, SaleItem, SaleLine, SaleInput}
use pos_agent.Boltstore.Db.{Db, ok, >>=-ok_steps, ok-injective}
use pos_agent.Boltstore.Stock.{on_hand_of}
use pos_agent.Boltstore.Stock.Sums.{items_sum}
use pos_agent.Boltstore.Stock.OnHand.{on_hand-put_sale}
use pos_agent.Boltstore.Sales.{
  resolve_lines, finish_sale, tax_from_bucket, sale_of, put_sale, mark_sale_pending, create_sale,
}
use pos_agent.Boltstore.Stock.Restock.{on_hand_same}
use pos_agent.Boltstore.Sales.Completing.{charged, MayComplete, Snapshots, resolve_lines_sellable}

module _ {B : Bolt} (db : Db B) where
  some_line_of :
      (lines : List SaleLine) (items : List SaleItem)
      → items ≢ []
      → Snapshots db lines items
      → lines ≢ []
  some_line_of [] [] ne s e = ne refl
  some_line_of [] (_ ∷ _) ne s e = absurd s
  some_line_of (line ∷ lines) items ne s e = cc

  finish_sale_allowed :
      (now : Time) (sale_id : Text) (input : SaleInput) (items : List SaleItem) (r : Sale × Db B)
      → finish_sale now sale_id input items db ≡ ok r
      → (items ≢ [])
        × ((charged db items).total ≤ℤ input.paid_cents)
        × (r.0 ≡ sale_of now sale_id input (tax_from_bucket db) (charged db items))
        × (r.1 ≡ mark_sale_pending sale_id (put_sale r.0 db))
  unfolding finish_sale
  finish_sale_allowed now sale_id input [] r e = cc
  finish_sale_allowed now sale_id input (item ∷ items) r e =
      elim (Bool-cases (ltb_ℤ input.paid_cents (charged db (item ∷ items)).total)) [
        | inl short ↦ cc (rw short at e)
        | inr enough ↦
            let e' = ok-injective _ r (rw enough at e) in
            (
              ground arith,
              ground arith,
              ap (λ (t : Sale × Db B). t.0) (sym e'),
              subst (λ (t : Sale × Db B). t.1 ≡ mark_sale_pending sale_id (put_sale t.0 db)) e'
                  refl,
            )
      ]

  -- Only a sale that may be completed is: a sale that `CreateSale` returns has at least one line, positive
  -- quantities of known products and enough paid, and it is the sale of their snapshots.
  pub create_sale_allowed :
      (now : Time) (sale_id : Text) (input : SaleInput) (r : Sale × Db B)
      → create_sale now sale_id input db ≡ ok r
      → (items : List SaleItem) × MayComplete db input items
        × (r.0 ≡ sale_of now sale_id input (tax_from_bucket db) (charged db items))
        × (r.1 ≡ mark_sale_pending sale_id (put_sale r.0 db))
  unfolding create_sale
  create_sale_allowed now sale_id input r e =
      let (items, resolved, finished) = >>=-ok_steps (resolve_lines db input.lines) _ e in
      let (positive, shots) = resolve_lines_sellable db input.lines items resolved in
      let (ne, paid, sale, stored) = finish_sale_allowed now sale_id input items r finished in
      (
        items,
        record {
          some_line = some_line_of input.lines items ne shots;
          positive = positive;
          snapshots = shots;
          paid = paid;
        },
        sale,
        stored,
      )

module _ {B : Bolt} (L : IsLawful B) (db : Db B) where
  -- A completed sale, under a new UUID, lowers the stock of every product by exactly the quantity of
  -- it that the sale holds (in 32-bit arithmetic).
  pub create_sale-on_hand :
      (now : Time) (sale_id : Text) (input : SaleInput) (r : Sale × Db B) (id : Text)
      → B.get Sale db.sales sale_id ≡ none
      → create_sale now sale_id input db ≡ ok r
      → on_hand_of id r.1 ≡ sub32 (on_hand_of id db) (items_sum id r.0.items)
  create_sale-on_hand now sale_id input r id fresh e =
      let (items, allowed, sale, stored) = create_sale_allowed db now sale_id input r e in
      let named : r.0.id ≡ sale_id = unfold sale_of in ap (λ (s : Sale). s.id) sale in
      ap (on_hand_of id) stored
      ∙ unfold mark_sale_pending in
        on_hand_same id (mark_sale_pending sale_id (put_sale r.0 db)) (put_sale r.0 db) refl refl
        ∙ on_hand-put_sale L id db r.0 (rw named fresh)
