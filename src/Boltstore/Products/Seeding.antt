-- ===== src/Boltstore/Products/Seeding.antt =====
-- internal/store/boltstore/boltstore.go, `SeedIfEmpty`: the starter catalogue of a new shop.
use pos_agent.Base.{ℕ, suc, true, false, Option, none, some, List, [], ◌∷◌, Text, text, text_eq}
use pos_agent.Base.Int.{pos}
use pos_agent.Bolt.{Bolt}
use pos_agent.Domain.{Time, ProductDraft}
use pos_agent.Boltstore.Db.{Db, Draws, Error, ok, err}
use pos_agent.Boltstore.Products.{add_product, products}

abbrev starter : List (Text × ℕ)
starter =
    (text "Bread", 6500)
    ∷ (text "Milk 500ml", 6000)
    ∷ (text "Sugar 1kg", 20000)
    ∷ (text "Soda 500ml", 8000)
    ∷ (text "Cooking Oil 1L", 35000)
    ∷ (text "Rice 1kg", 18000)
    ∷ (text "Soap bar", 5000)
    ∷ (text "Eggs (tray)", 38000)
    ∷ []

unfoldable pub starter_draft : Text × ℕ → ProductDraft
starter_draft (name, cents) = record {
  name = name;
  price_cents = pos cents;
  barcode = [];
  track_stock = false;
  stock = pos 0;
  taxable = true;
}

-- The loop of `SeedIfEmpty`: each item is a transaction of its own, with a time and draws of its own.
unfoldable pub add_starters :
    {B : Bolt} → (ℕ → Time × Draws) → ℕ → List (Text × ℕ) → Db B → Option Error × Db B
unfolding starter_draft
add_starters env n [] db = (none, db)
add_starters env n (item ∷ items) db =
    elim (add_product (env n).0 (env n).1 false (starter_draft item) db) [
      | ok (_, db') ↦ add_starters env (suc n) items db'
      | err e ↦ (some e, db)
    ]

-- `SeedIfEmpty`
unfoldable pub seed_if_empty : {B : Bolt} → (ℕ → Time × Draws) → Db B → Option Error × Db B
unfolding add_starters
seed_if_empty env db = elim (products db) [
  | [] ↦ add_starters env 0 starter db
  | _ ∷ _ ↦ (none, db)
]
