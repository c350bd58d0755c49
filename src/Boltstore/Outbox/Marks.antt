-- ===== src/Boltstore/Outbox/Marks.antt =====
-- internal/store/boltstore/sync.go: what the marks of the outbox stand for, and which marks
-- `ClearPushed` leaves.
use mathlib.Core.Option.{some-injective}
use pos_agent.Base.{
  ◌≡◌, ◌⊎◌, ◌↔◌, refl, sym, ap, subst, ◌∙◌, Bool, true, false, ◌||◌, Option, none, some, List, [],
  ◌∷◌, map, In, Text, text_eq, ◌==◌, if◌then◌else◌, arith, inl, inr, Option-cases,
}
use pos_agent.Bolt.{Bolt, IsLawful}
use pos_agent.Boltstore.Outbox.{add_record, marked_records, delete_all}

abbrev pub has_id : List Text → Text → Bool
has_id [] j = false
has_id (id ∷ ids) j = (j == id) || has_id ids j

module _ {V : Type 0} where
  In-add_record :
      (v : V) (o : Option V) (rest : List V) → In v (add_record o rest) → (o ≡ some v) ⊎ In v rest
  unfolding add_record
  In-add_record v none rest h = inr h
  In-add_record v (some w) rest (inl e) = inl (ap some (sym e))
  In-add_record v (some w) rest (inr h) = inr h

  add_record-tail : (v : V) (o : Option V) (rest : List V) → In v rest → In v (add_record o rest)
  unfolding add_record
  add_record-tail v none rest h = h
  add_record-tail v (some w) rest h = inr h

  add_record-head : (v : V) (o : Option V) (rest : List V) → o ≡ some v → In v (add_record o rest)
  unfolding add_record
  add_record-head v none rest e = cc
  add_record-head v (some w) rest e = inl (sym (some-injective w v e))

  module _ (get : Text → Option V) where
    marked_records_sound :
        (v : V) (marks : List (Text × Unit {0}))
        → In v (marked_records get marks)
        → (id : Text) × In (id, tt) marks × (get id ≡ some v)
    unfolding marked_records
    marked_records_sound v [] h = absurd h
    marked_records_sound v ((id, u) ∷ marks) h =
        elim (In-add_record v (get id) (marked_records get marks) h) [
          | inl e ↦ (id, inl refl, e)
          | inr r ↦ let (j, at, e) = marked_records_sound v marks r in (j, inr at, e)
        ]

    marked_records_complete :
        (v : V) (id : Text) (marks : List (Text × Unit {0}))
        → In (id, tt) marks
        → get id ≡ some v
        → In v (marked_records get marks)
    unfolding marked_records
    marked_records_complete v id [] h e = absurd h
    marked_records_complete v id ((j, u) ∷ marks) (inl same) e =
        add_record-head v (get j) (marked_records get marks)
          (ap get (sym (ap (λ (q : Text × Unit {0}). q.0) same)) ∙ e)
    marked_records_complete v id ((j, u) ∷ marks) (inr h) e =
        add_record-tail v (get j) (marked_records get marks)
          (marked_records_complete v id marks h e)

module _ {B : Bolt} (L : IsLawful B) where
  -- The outbox of a kind of record holds the records whose id is marked.
  pub In-outbox :
      {V : Type 0} (v : V) (get : Text → Option V) (marks : B.Bucket Unit)
      → In v (marked_records get (B.entries Unit marks))
        ↔ ((id : Text) × (B.get Unit marks id ≡ some tt) × (get id ≡ some v))
  In-outbox v get marks = (
    λ h.
        let (id, at, e) = marked_records_sound get v (B.entries Unit marks) h in
        (id, L.get_of_In Unit marks id tt at, e),
    λ (id, at, e).
        marked_records_complete get v id (B.entries Unit marks) (L.In_of_get Unit marks id tt at) e,
  )

  -- `ClearPushed` leaves the marks of the ids that are not among the pushed ones.
  pub delete_all-get :
      (ids : List Text) (marks : B.Bucket Unit) (j : Text)
      → B.get Unit (delete_all B ids marks) j ≡ (if has_id ids j then none else B.get Unit marks j)
  unfolding delete_all
  delete_all-get [] marks j = refl
  delete_all-get (id ∷ ids) marks j =
      ground (arith, delete_all-get ids (B.delete Unit marks id) j, L.get-delete Unit marks id j)

  pub has_id-map :
      {V : Type 0} (key : V → Text) (v : V) (vs : List V)
      → In v vs
      → has_id (map key vs) (key v) ≡ true
  has_id-map key v [] h = absurd h
  has_id-map key v (w ∷ vs) (inl e) = ground (arith, ap key e)
  has_id-map key v (w ∷ vs) (inr h) = ground (arith, has_id-map key v vs h)

  -- Under this id nothing waits: there is no mark, or no record.
  abbrev pub IsDrained : {V : Type 0} → (Text → Option V) → B.Bucket Unit → Text → Type 0
  IsDrained get marks id = (B.get Unit marks id ≡ none) ⊎ (get id ≡ none)

  -- What waits nowhere among the records of the marks waits under no id.
  pub no_records-IsDrained :
      {V : Type 0} (get : Text → Option V) (marks : B.Bucket Unit)
      → marked_records get (B.entries Unit marks) ≡ []
      → (id : Text) → IsDrained get marks id
  no_records-IsDrained get marks bare id = elim (Option-cases (get id)) [
    | inl missing ↦ inr missing
    | inr (v, e) ↦ elim (Option-cases (B.get Unit marks id)) [
      | inl clear ↦ inl clear
      | inr (tt, marked) ↦ absurd (subst (In v) bare ((In-outbox v get marks).1 (id, marked, e)))
    ]
  ]

  -- Once the marks of everything in the outbox are cleared, nothing waits under any id.
  pub delete_all-IsDrained :
      {V : Type 0} (key : V → Text) (get : Text → Option V) (marks : B.Bucket Unit)
      → ((id : Text) (v : V) → get id ≡ some v → key v ≡ id)
      → (id : Text)
      → IsDrained get (delete_all B (map key (marked_records get (B.entries Unit marks))) marks) id
  delete_all-IsDrained key get marks own id =
      let records = marked_records get (B.entries Unit marks) in
      let ids = map key records in
      elim (Option-cases (get id)) [
        | inl missing ↦ inr missing
        | inr (v, e) ↦ inl (elim (Option-cases (B.get Unit marks id)) [
          | inl clear ↦ ground (arith, delete_all-get ids marks id, clear)
          | inr (tt, marked) ↦
              let listed : has_id ids id ≡ true =
                subst (λ j. has_id ids j ≡ true) (own id v e)
                  (has_id-map key v records ((In-outbox v get marks).1 (id, marked, e))) in
              ground (arith, delete_all-get ids marks id, listed)
        ])
      ]
