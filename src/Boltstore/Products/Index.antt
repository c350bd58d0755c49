-- ===== src/Boltstore/Products/Index.antt =====
-- internal/store/boltstore/boltstore.go: the barcode index against the catalogue, both as the maps
-- that their buckets stand for.
use pos_agent.Base.{
  ◌≡◌, ◌≢◌, sym, fun_ext, true, Option, none, some, [], Text, text_eq, ◌==◌, if◌then◌else◌, arith,
}
use pos_agent.Domain.{Product}
use pos_agent.Boltstore.Products.{not_empty}

abbrev pub upd : {V : Type 0} → Text → V → (Text → Option V) → Text → Option V
upd k v f j = if j == k then some v else f j

abbrev pub del : {V : Type 0} → Text → (Text → Option V) → Text → Option V
del k f j = if j == k then none else f j

-- The index holds exactly the barcodes of the active products, each with its product.
pub record Indexed (P : Text → Option Product) (X : Text → Option Text) : Type 0 where
  pub own_id : (id : Text) (p : Product) → P id ≡ some p → p.id ≡ id
  pub sound :
      (code id : Text)
      → X code ≡ some id
      → (p : Product) × (P id ≡ some p) × (p.barcode ≡ code) × (p.active ≡ true)
  pub complete :
      (id : Text) (p : Product)
      → P id ≡ some p
      → p.active ≡ true
      → p.barcode ≢ []
      → X p.barcode ≡ some id
  pub nonempty : X [] ≡ none

-- The same while product `k` is between two states: the index does not name it.
pub record IndexedBut (k : Text) (P : Text → Option Product) (X : Text → Option Text) : Type 0 where
  pub own_id : (id : Text) (p : Product) → P id ≡ some p → p.id ≡ id
  pub unnamed : (code : Text) → X code ≢ some k
  pub sound :
      (code id : Text)
      → X code ≡ some id
      → (p : Product) × (P id ≡ some p) × (p.barcode ≡ code) × (p.active ≡ true)
  pub complete :
      (id : Text) (p : Product)
      → id ≢ k
      → P id ≡ some p
      → p.active ≡ true
      → p.barcode ≢ []
      → X p.barcode ≡ some id
  pub nonempty : X [] ≡ none

module _ {V : Type 0} (k : Text) (v : V) (f : Text → Option V) where
  pub upd_self : upd k v f k ≡ some v
  upd_self = ground arith

  pub upd_ne : (j : Text) → j ≢ k → upd k v f j ≡ f j
  upd_ne j ne = ground arith

  -- What is deleted and put again is put.
  pub upd-del : upd k v (del k f) ≡ upd k v f
  upd-del = fun_ext λ j. ground arith

-- The index without the barcode of a product, where that is not empty.
abbrev pub dropped : Text → (Text → Option Text) → Text → Option Text
dropped barcode X = if not_empty barcode then del barcode X else X

module _ {P : Text → Option Product} {X : Text → Option Text} (h : Indexed P X) where
  pub IndexedBut-of_absent : (k : Text) → P k ≡ none → IndexedBut k P X
  IndexedBut-of_absent k absent = record {
    own_id = h.own_id;
    unnamed = λ code e. let (p, at, _, _) = h.sound code k e in ground (arith, at);
    sound = h.sound;
    complete = λ id p ne. h.complete id p;
    nonempty = h.nonempty;
  }

  pub IndexedBut-dropped :
      (k : Text) (old : Product)
      → P k ≡ some old
      → old.active ≡ true
      → IndexedBut k P (dropped old.barcode X)
  IndexedBut-dropped k old at active = record {
    own_id = h.own_id;
    unnamed = λ code e. ground (arith, h.sound code k, h.nonempty);
    sound = λ code id e. h.sound code id (ground arith);
    complete =
        λ id p ne at' a b. ground (arith, h.complete id p at' a b, h.complete k old at active);
    nonempty = ground (arith, h.nonempty);
  }

  -- A barcode that the index gives to `k` is the one that `k` has.
  pub named_barcode :
      (k code : Text) (old : Product) → P k ≡ some old → X code ≡ some k → old.barcode ≡ code
  named_barcode k code old at e = let (p, at', b, _) = h.sound code k e in ground (arith, at', b)

module _ {P : Text → Option Product} {X : Text → Option Text} (p : Product)
    (h : IndexedBut p.id P X) where
  pub Indexed-put :
      p.active ≡ true
      → p.barcode ≢ []
      → X p.barcode ≡ none
      → Indexed (upd p.id p P) (upd p.barcode p.id X)
  Indexed-put active ne free = record {
    own_id = λ id q e. ground (arith, h.own_id id q);
    sound = λ code id e. elim (text_eq.dec code p.barcode) [
      | yes same ↦ (p, ground arith, sym same, active)
      | no other ↦
          let (q, at, b, a) = h.sound code id (ground arith) in
          (q, ground (arith, h.unnamed code, at), b, a)
    ];
    complete = λ id q e a b. elim (text_eq.dec id p.id) [
      | yes same ↦ ground arith
      | no other ↦ ground (arith, h.complete id q other (ground arith) a b)
    ];
    nonempty = ground (arith, h.nonempty);
  }

  -- Without a barcode, or inactive, the product is not named.
  pub Indexed-put_unnamed : (p.active ≡ true → p.barcode ≡ []) → Indexed (upd p.id p P) X
  Indexed-put_unnamed plain = record {
    own_id = λ id q e. ground (arith, h.own_id id q);
    sound = λ code id e.
        let (q, at, b, a) = h.sound code id e in (q, ground (arith, h.unnamed code, at), b, a);
    complete = λ id q e a b. elim (text_eq.dec id p.id) [
      | yes same ↦ ground (arith, plain)
      | no other ↦ ground (arith, h.complete id q other (ground arith) a b)
    ];
    nonempty = h.nonempty;
  }
