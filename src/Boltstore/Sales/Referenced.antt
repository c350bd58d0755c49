-- ===== src/Boltstore/Sales/Referenced.antt =====
-- internal/store/boltstore/boltstore.go: storing a sale keeps the reference index exact.
use pos_agent.Base.{
  ◌≡◌, ◌≢◌, not, ◌&&◌, none, some, [], Text, text_eq, ◌==◌, if◌then◌else◌, arith, inl, inr,
  Bool-cases,
}
use pos_agent.Bolt.{Bolt, IsLawful}
use pos_agent.Domain.{Sale}
use pos_agent.Boltstore.Db.{Db}
use pos_agent.Boltstore.Sales.{ref_key, put_sale}
use pos_agent.Boltstore.Sales.References.{NulFree, IsRefIndexed}

module _ {B : Bolt} (L : IsLawful B) (db : Db B) (sale : Sale) where
  pub put_sale-sales :
      (j : Text)
      → B.get Sale (put_sale sale db).sales j
        ≡ (if j == sale.id then some sale else B.get Sale db.sales j)
  unfolding put_sale
  put_sale-sales j = elim (Bool-cases (sale.reference == [])) [
    | inl bare ↦ rw (bare, L.get-put Sale db.sales sale.id sale j)
    | inr named ↦ rw (named, L.get-put Sale db.sales sale.id sale j)
  ]

  pub put_sale-ref_idx :
      (key : Text)
      → B.get Unit (put_sale sale db).ref_idx key ≡ (
          if not (sale.reference == []) && (key == ref_key sale.reference sale.id)
          then some tt
          else B.get Unit db.ref_idx key)
  unfolding put_sale
  put_sale-ref_idx key = elim (Bool-cases (sale.reference == [])) [
    | inl bare ↦ rw bare
    | inr named ↦ rw (named, L.get-put Unit db.ref_idx (ref_key sale.reference sale.id) tt key)
  ]

  module _ (indexed : IsRefIndexed db) where
    own_id_after :
        (id : Text) (s : Sale) → B.get Sale (put_sale sale db).sales id ≡ some s → s.id ≡ id
    own_id_after id s at = ground (arith, put_sale-sales id, indexed.own_id id s)

    plain_id_after :
        NulFree sale.id
        → (id : Text) (s : Sale) → B.get Sale (put_sale sale db).sales id ≡ some s
        → NulFree id
    plain_id_after plain id s at = ground (arith, put_sale-sales id, indexed.plain_id id s)

    sound_after :
        B.get Sale db.sales sale.id ≡ none
        → (key : Text) → B.get Unit (put_sale sale db).ref_idx key ≡ some tt
        → (s : Sale) × (B.get Sale (put_sale sale db).sales s.id ≡ some s)
          × (s.reference ≢ [])
          × (key ≡ ref_key s.reference s.id)
    sound_after fresh key at =
        elim (Bool-cases (not (sale.reference == []) && (key == ref_key sale.reference sale.id))) [
          | inl new ↦ (sale, ground (arith, put_sale-sales sale.id), ground arith, ground arith)
          | inr old ↦
              let (s, s_at, given, split) =
                indexed.sound key (rw (put_sale-ref_idx key, old) at at) in
              (s, ground (arith, put_sale-sales s.id), given, split)
        ]

    complete_after :
        B.get Sale db.sales sale.id ≡ none
        → (id : Text) (s : Sale) → B.get Sale (put_sale sale db).sales id ≡ some s
        → s.reference ≢ []
        → B.get Unit (put_sale sale db).ref_idx (ref_key s.reference s.id) ≡ some tt
    complete_after fresh id s at given = elim (Bool-cases (id == sale.id)) [
      | inl new ↦ ground (arith, put_sale-sales id, put_sale-ref_idx (ref_key s.reference s.id))
      | inr old ↦ ground (
        arith,
        put_sale-sales id,
        put_sale-ref_idx (ref_key s.reference s.id),
        indexed.complete id s,
      )
    ]

    -- Storing a sale under an id that no sale has, and that has no NUL byte, keeps the reference
    -- index exact.
    pub put_sale-IsRefIndexed :
        B.get Sale db.sales sale.id ≡ none → NulFree sale.id → IsRefIndexed (put_sale sale db)
    put_sale-IsRefIndexed fresh plain = record {
      own_id = own_id_after;
      plain_id = plain_id_after plain;
      sound = sound_after fresh;
      complete = complete_after fresh;
    }
