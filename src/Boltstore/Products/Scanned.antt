-- ===== src/Boltstore/Products/Scanned.antt =====
-- internal/store/boltstore/boltstore.go, `ProductByBarcode`: which product a scan finds, and the stock
-- that it shows.
use pos_agent.Base.{
  ◌≡◌, ◌≢◌, ◌⊎◌, ◌↔◌, refl, sym, ap, ◌∙◌, subst, true, false, none, some, [], Text, text_eq, arith,
  inl, inr, Bool-cases, Option-cases, if◌then◌else◌,
}
use mathlib.Core.Option.{some-injective}
use pos_agent.Base.Int.{ℤ, pos, ◌≤ℤ◌, ◌<ℤ◌, wrap32, ltb_ℤ}
use pos_agent.Bolt.{Bolt}
use pos_agent.Domain.{Product}
use pos_agent.Boltstore.Db.{Db}
use pos_agent.Boltstore.Stock.{on_hand_of, max0}
use pos_agent.Boltstore.Stock.OnHand.{exact_on_hand, on_hand_of-exact}
use pos_agent.Boltstore.Products.{product_by_barcode, scan_id, scan_product, shown}
use pos_agent.Boltstore.Products.Barcodes.{IsIndexed}

module _ {B : Bolt} (db : Db B) where
  -- The stock that is shown: the product's events less its sales, in 32 bits, and zero where this is
  -- negative.
  abbrev pub IsShownStock : Text → ℤ → Type 0
  IsShownStock id n =
      ((pos 0 ≤ℤ wrap32 (exact_on_hand id db)) × (n ≡ wrap32 (exact_on_hand id db)))
      ⊎ ((wrap32 (exact_on_hand id db) <ℤ pos 0) × (n ≡ pos 0))

  -- The stored product with its stock, where it is tracked.
  abbrev pub IsShown : Product → Product → Type 0
  IsShown p q =
      ((p.track_stock ≡ false) × (q ≡ p))
      ⊎ ((p.track_stock ≡ true) × ((n : ℤ) × IsShownStock p.id n × (q ≡ record p { stock = n })))

  -- The index holds every active product with a barcode, and what an entry names has that barcode. It may
  -- name a product that was removed.
  pub record IsScannable : Type 0 where
    pub complete :
        (id : Text) (p : Product)
        → B.get Product db.products id ≡ some p
        → p.active ≡ true
        → p.barcode ≢ []
        → B.get Text db.barcode_idx p.barcode ≡ some id
    pub named :
        (code id : Text) (p : Product)
        → B.get Text db.barcode_idx code ≡ some id
        → B.get Product db.products id ≡ some p
        → p.barcode ≡ code

  pub IsIndexed-IsScannable : IsIndexed db → IsScannable
  IsIndexed-IsScannable h = record {
    complete = h.complete;
    named = λ code id p e at.
        let (q, at', same, active) = h.sound code id e in
        ap (λ (x : Product). x.barcode) (some-injective p q (sym at ∙ at')) ∙ same;
  }

  max0-IsShownStock : (id : Text) → IsShownStock id (max0 (on_hand_of id db))
  unfolding max0
  max0-IsShownStock id =
      rw (on_hand_of-exact id db)
        (elim (Bool-cases (ltb_ℤ (wrap32 (exact_on_hand id db)) (pos 0))) [
          | inl low ↦ inr (ground arith, rw low refl)
          | inr enough ↦ inl (ground arith, rw enough refl)
        ])

  IsShownStock-max0 : (id : Text) (n : ℤ) → IsShownStock id n → n ≡ max0 (on_hand_of id db)
  unfolding max0
  IsShownStock-max0 id n (inl (enough, e)) =
      let high : ltb_ℤ (wrap32 (exact_on_hand id db)) (pos 0) ≡ false = ground arith in
      rw (on_hand_of-exact id db, high) e
  IsShownStock-max0 id n (inr (low, e)) =
      let low' : ltb_ℤ (wrap32 (exact_on_hand id db)) (pos 0) ≡ true = ground arith in
      rw (on_hand_of-exact id db, low') e

  shown-IsShown : (p : Product) → IsShown p (shown p db)
  unfolding shown
  shown-IsShown p = elim (Bool-cases p.track_stock) [
    | inl tracked ↦
        inr (tracked, (max0 (on_hand_of p.id db), max0-IsShownStock p.id, rw tracked refl))
    | inr untracked ↦ inl (untracked, rw untracked refl)
  ]

  IsShown-shown : (p q : Product) → IsShown p q → q ≡ shown p db
  unfolding shown
  IsShown-shown p q (inl (untracked, e)) =
      e ∙ sym (ap (λ b. if b then record p { stock = max0 (on_hand_of p.id db) } else p) untracked)
  IsShown-shown p q (inr (tracked, (n, stock, e))) =
      e
      ∙ ap (λ m. record p { stock = m }) (IsShownStock-max0 p.id n stock)
      ∙ sym (ap (λ b. if b then record p { stock = max0 (on_hand_of p.id db) } else p) tracked)

  scan_product-active :
      (p : Product) → p.active ≡ true → scan_product db (some p) ≡ some (shown p db)
  unfolding scan_product
  scan_product-active p active = ap (λ b. if b then some (shown p db) else none) active

  scan_product-removed : (p : Product) → p.active ≡ false → scan_product db (some p) ≡ none
  unfolding scan_product
  scan_product-removed p removed = ap (λ b. if b then some (shown p db) else none) removed

  -- Where the barcode index holds every active product, and no product under a barcode that is not its
  -- own, a scan of a barcode finds a product if and only if a stored product that is active has that
  -- barcode; what it returns is this product, with its stock where stock is tracked: its events less its
  -- sales, in 32 bits, and never less than zero.
  pub product_by_barcode-IsShown :
      (code : Text) (q : Product)
      → code ≢ []
      → IsScannable
      → (product_by_barcode code db ≡ some q) ↔ (
          (id : Text) × (p : Product) × (B.get Product db.products id ≡ some p)
          × (p.active ≡ true)
          × (p.barcode ≡ code)
          × IsShown p q)
  unfolding product_by_barcode scan_id
  product_by_barcode-IsShown code q given h = (
    (λ e. elim (Option-cases (B.get Text db.barcode_idx code)) [
      | inl absent ↦ cc (rw absent at e)
      | inr (id, entry) ↦ elim (Option-cases (B.get Product db.products id)) [
        | inl gone ↦ cc (rw (entry, gone) at e)
        | inr (p, at) ↦ elim (Bool-cases p.active) [
          | inl active ↦
              let same : shown p db ≡ q =
                some-injective (shown p db) q
                  (sym (scan_product-active p active) ∙ rw (entry, at) at e) in
              (
                id,
                p,
                at,
                active,
                h.named code id p entry at,
                subst (IsShown p) same (shown-IsShown p),
              )
          | inr removed ↦ cc (sym (scan_product-removed p removed) ∙ rw (entry, at) at e)
        ]
      ]
    ]),
    (λ (id, p, at, active, code_of, look).
        let entry : B.get Text db.barcode_idx code ≡ some id =
          ap (B.get Text db.barcode_idx) (sym code_of)
          ∙ h.complete id p at active (λ bare. given (sym code_of ∙ bare)) in
        rw (entry, at) (scan_product-active p active ∙ ap some (sym (IsShown-shown p q look)))),
  )
