-- ===== src/Boltstore/Search/Criteria.antt =====
-- internal/store/boltstore/search.go, `matchesCriteria`: what each criterion asks of a sale.
use mathlib.Core.List
use pos_agent.Base.{
  ◌≡◌, ◌≤◌, ◌<◌, ◌⊎◌, refl, sym, ap, ◌∙◌, Bool-cases, Option-cases, true, false, ◌||◌, ◌&&◌, not,
  some, List, [], ◌∷◌, ◌++◌, Text, text_eq, ◌==◌, In, any, arith, inl, inr,
}
use pos_agent.Base.Int.{pos, ltb_ℤ, ◌≤ℤ◌}
use pos_agent.Domain.{Sale, SaleItem, SearchCriteria, is_zero, before}
use pos_agent.Boltstore.Sales.{strip_prefix}
use pos_agent.Boltstore.Sales.References.{strip_append, append_of_strip}
use pos_agent.Boltstore.Search.{contains, has_item, matches_criteria}

-- The second text stands somewhere in the first.
abbrev pub Holds : Text → Text → Type 0
Holds s q = (front : Text) × (back : Text) × (s ≡ front ++ (q ++ back))

contains-Holds : (s q : Text) → contains s q ≡ true → Holds s q
unfolding contains
contains-Holds [] q h = elim (Option-cases (strip_prefix q [])) [
  | inl absent ↦ cc (rw (contains, absent) at h)
  | inr (back, e) ↦ ([], back, append_of_strip q [] back e)
]
contains-Holds (c ∷ s) q h = elim (Option-cases (strip_prefix q (c ∷ s))) [
  | inl absent ↦
      let (front, back, e) = contains-Holds s q (rw (contains, absent) at h) in
      (c ∷ front, back, ap (λ r. c ∷ r) e)
  | inr (back, e) ↦ ([], back, append_of_strip q (c ∷ s) back e)
]

contains_front : (s q back : Text) → s ≡ q ++ back → contains s q ≡ true
unfolding contains
contains_front [] q back e =
    let there : strip_prefix q [] ≡ some back = ap (strip_prefix q) e ∙ strip_append q back in
    rw (contains, there) refl
contains_front (c ∷ s) q back e =
    let there : strip_prefix q (c ∷ s) ≡ some back = ap (strip_prefix q) e ∙ strip_append q back in
    rw (contains, there) refl

Holds-contains : (s q front back : Text) → s ≡ front ++ (q ++ back) → contains s q ≡ true
unfolding contains
Holds-contains s q [] back e = contains_front s q back e
Holds-contains [] q (f ∷ front) back e = cc
Holds-contains (c ∷ s) q (f ∷ front) back e = elim (Option-cases (strip_prefix q (c ∷ s))) [
  | inl absent ↦ rw (contains, absent) (Holds-contains s q front back (List.tail-eq_of_cons-eq e))
  | inr (rest, yes') ↦ rw (contains, yes') refl
]

module _ (to_lower : Text → Text) where
  -- The name of an item holds the text, in lower case.
  abbrev pub IsNamed : Text → SaleItem → Type 0
  IsNamed q item = Holds (to_lower item.name) (to_lower q)

  has_item-IsNamed :
      (q : Text) (items : List SaleItem)
      → has_item to_lower q items ≡ true
      → (item : SaleItem) × In item items × IsNamed q item
  unfolding has_item any
  has_item-IsNamed q [] h = cc
  has_item-IsNamed q (item ∷ items) h =
      elim (Bool-cases (contains (to_lower item.name) (to_lower q))) [
        | inl here ↦ (item, inl refl, contains-Holds (to_lower item.name) (to_lower q) here)
        | inr elsewhere ↦
            let (it, at, named) = has_item-IsNamed q items (rw elsewhere at h) in
            (it, inr at, named)
      ]

  IsNamed-has_item :
      (q : Text) (item : SaleItem) (items : List SaleItem)
      → In item items
      → IsNamed q item
      → has_item to_lower q items ≡ true
  unfolding has_item any
  IsNamed-has_item q item [] h named = absurd h
  IsNamed-has_item q item (it ∷ items) (inl e) (front, back, held) =
      rw
        (Holds-contains (to_lower it.name) (to_lower q) front back
          (ap (λ (i : SaleItem). to_lower i.name) (sym e) ∙ held))
        refl
  IsNamed-has_item q item (it ∷ items) (inr h) named =
      ground (arith, IsNamed-has_item q item items h named)

  -- A sale meets the criteria: an empty text, an end of zero and an amount that is not positive ask
  -- nothing; the reference and the payment method are exact, a name is part of an item's name whatever
  -- its case, the start is included and the end is not, and both amounts are included.
  pub record Meets (c : SearchCriteria) (s : Sale) : Type 0 where
    pub reference : (c.reference ≡ []) ⊎ (s.reference ≡ c.reference)
    pub item : (c.item_name ≡ []) ⊎ ((item : SaleItem) × In item s.items × IsNamed c.item_name item)
    pub method : (c.payment_method ≡ []) ⊎ (s.payment_method ≡ c.payment_method)
    pub since : c.start ≤ s.created_at
    pub until : (c.end ≡ 0) ⊎ (s.created_at < c.end)
    pub at_least : (c.min_cents ≤ℤ pos 0) ⊎ (c.min_cents ≤ℤ s.total_cents)
    pub at_most : (c.max_cents ≤ℤ pos 0) ⊎ (s.total_cents ≤ℤ c.max_cents)

  module _ (c : SearchCriteria) (s : Sale) where
    asked_item :
        (c.item_name == []) || has_item to_lower c.item_name s.items ≡ true
        → (c.item_name ≡ []) ⊎ ((item : SaleItem) × In item s.items × IsNamed c.item_name item)
    asked_item h = elim (Bool-cases (c.item_name == [])) [
      | inl any_name ↦ inl (ground arith)
      | inr given ↦ inr (has_item-IsNamed c.item_name s.items (ground (arith, h, given)))
    ]

    pub matches_criteria-Meets :
        matches_criteria to_lower s c ≡ true
        → (c.reference ≡ []) ⊎ (s.reference ≡ c.reference)
        → Meets c s
    unfolding matches_criteria
    matches_criteria-Meets h reference = record {
      reference = reference;
      item = asked_item (ground (arith, h));
      method = ground (arith, h);
      since = ground (arith, h);
      until = ground (arith, h);
      at_least = ground (arith, h);
      at_most = ground (arith, h);
    }

    item_ok :
        (c.item_name ≡ []) ⊎ ((item : SaleItem) × In item s.items × IsNamed c.item_name item)
        → not (c.item_name == []) && not (has_item to_lower c.item_name s.items) ≡ false
    item_ok (inl none') = ground arith
    item_ok (inr (item, at, named)) =
        ground (arith, IsNamed-has_item c.item_name item s.items at named)

    method_ok :
        (c.payment_method ≡ []) ⊎ (s.payment_method ≡ c.payment_method)
        → not (c.payment_method == []) && not (s.payment_method == c.payment_method) ≡ false
    method_ok h = ground (arith, h)

    since_ok : c.start ≤ s.created_at → not (is_zero c.start) && before s.created_at c.start ≡ false
    since_ok h = ground (arith, h)

    until_ok :
        (c.end ≡ 0) ⊎ (s.created_at < c.end)
        → not (is_zero c.end) && not (before s.created_at c.end) ≡ false
    until_ok h = ground (arith, h)

    at_least_ok :
        (c.min_cents ≤ℤ pos 0) ⊎ (c.min_cents ≤ℤ s.total_cents)
        → ltb_ℤ (pos 0) c.min_cents && ltb_ℤ s.total_cents c.min_cents ≡ false
    at_least_ok h = ground (arith, h)

    at_most_ok :
        (c.max_cents ≤ℤ pos 0) ⊎ (s.total_cents ≤ℤ c.max_cents)
        → ltb_ℤ (pos 0) c.max_cents && ltb_ℤ c.max_cents s.total_cents ≡ false
    at_most_ok h = ground (arith, h)

    pub Meets-matches_criteria : Meets c s → matches_criteria to_lower s c ≡ true
    unfolding matches_criteria
    Meets-matches_criteria m =
        let item : not (c.item_name == []) && not (has_item to_lower c.item_name s.items) ≡ false =
          item_ok m.item in
        let method : not (c.payment_method == []) && not (s.payment_method == c.payment_method)
            ≡ false =
          method_ok m.method in
        let since : not (is_zero c.start) && before s.created_at c.start ≡ false =
          since_ok m.since in
        let until : not (is_zero c.end) && not (before s.created_at c.end) ≡ false =
          until_ok m.until in
        let at_least : ltb_ℤ (pos 0) c.min_cents && ltb_ℤ s.total_cents c.min_cents ≡ false =
          at_least_ok m.at_least in
        let at_most : ltb_ℤ (pos 0) c.max_cents && ltb_ℤ c.max_cents s.total_cents ≡ false =
          at_most_ok m.at_most in
        rw (item, method, since, until, at_least, at_most) refl
