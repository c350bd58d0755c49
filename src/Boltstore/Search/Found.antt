-- ===== src/Boltstore/Search/Found.antt =====
-- internal/store/boltstore/search.go: what `SearchSales` finds.
use Prim.Native.Nat.{zero, suc}
use pos_agent.Base.{
  ℕ, ◌≡◌, ◌≤◌, ◌⊎◌, ◌↔◌, refl, sym, subst, ap, true, List, [], ◌∷◌, Text, All, In, In-keep_if,
  keep_if, arith, inl, inr, take, drop, length,
}
use pos_agent.Base.Sort.{sort, later, IsDescending, In-sort, sort-IsDescending}
use pos_agent.Bolt.{Bolt}
use pos_agent.Domain.{Sale, SearchCriteria}
use pos_agent.Boltstore.Db.{Db}
use pos_agent.Boltstore.Sales.{created}
use pos_agent.Boltstore.Search.{matches_criteria, candidates, limit_of, search_sales}

module _ {A : Type 0} where
  In-take : (x : A) (n : ℕ) (xs : List A) → In x (take n xs) → In x xs
  In-take x zero xs h = absurd h
  In-take x (suc n) [] h = h
  In-take x (suc n) (y ∷ xs) (inl e) = inl e
  In-take x (suc n) (y ∷ xs) (inr h) = inr (In-take x n xs h)

  pub length-take : (n : ℕ) (xs : List A) → length (take n xs) ≤ n
  length-take zero xs = omega arith
  length-take (suc n) [] = omega arith
  length-take (suc n) (x ∷ xs) = let h = length-take n xs in omega arith

  In-drop : (x : A) (n : ℕ) (xs : List A) → In x (drop n xs) → In x xs
  In-drop x zero xs h = h
  In-drop x (suc n) [] h = h
  In-drop x (suc n) (y ∷ xs) h = inr (In-drop x n xs h)

  take_or_cut :
      (x : A) (n : ℕ) (xs : List A)
      → In x xs
      → In x (take n xs) ⊎ ((length (take n xs) ≡ n) × In x (drop n xs))
  take_or_cut x zero xs h = inr (refl, h)
  take_or_cut x (suc n) [] h = inl h
  take_or_cut x (suc n) (y ∷ xs) (inl e) = inl (inl e)
  take_or_cut x (suc n) (y ∷ xs) (inr h) = elim (take_or_cut x n xs h) [
    | inl kept ↦ inl (inr kept)
    | inr (full, cut) ↦ inr (ap suc full, cut)
  ]

  pub All-of_In : (P : A → Type 0) (xs : List A) → ((x : A) → In x xs → P x) → All P xs
  All-of_In P [] h = tt
  All-of_In P (x ∷ xs) h = (h x (inl refl), All-of_In P xs (λ y at. h y (inr at)))

module _ {A : Type 0} (P : A → Type 0) where
  pub In-All : (x : A) (xs : List A) → All P xs → In x xs → P x
  In-All x [] a h = absurd h
  In-All x (y ∷ xs) (p, a) (inl e) = subst P (sym e) p
  In-All x (y ∷ xs) (p, a) (inr h) = In-All x xs a h

module _ {A : Type 0} (key : A → ℕ) where
  All-In : (n : ℕ) (x : A) (xs : List A) → All (λ y. key y ≤ n) xs → In x xs → key x ≤ n
  All-In n x [] a h = absurd h
  All-In n x (y ∷ xs) a (inl e) = ground (arith, ap key e)
  All-In n x (y ∷ xs) a (inr h) = All-In n x xs a.1 h

  All-take : (k n : ℕ) (xs : List A) → All (λ y. key y ≤ k) xs → All (λ y. key y ≤ k) (take n xs)
  All-take k zero xs a = tt
  All-take k (suc n) [] a = tt
  All-take k (suc n) (x ∷ xs) a = (a.0, All-take k n xs a.1)

  take-IsDescending : (n : ℕ) (xs : List A) → IsDescending key xs → IsDescending key (take n xs)
  take-IsDescending zero xs h = tt
  take-IsDescending (suc n) [] h = tt
  take-IsDescending (suc n) (x ∷ xs) h = (All-take (key x) n xs h.0, take-IsDescending n xs h.1)

  -- What a prefix of a descending list cuts off is not greater than what it keeps.
  cut_less :
      (n : ℕ) (x y : A) (xs : List A)
      → IsDescending key xs
      → In x (take n xs)
      → In y (drop n xs)
      → key y ≤ key x
  cut_less zero x y xs d h k = absurd h
  cut_less (suc n) x y [] d h k = absurd h
  cut_less (suc n) x y (z ∷ xs) d (inl e) k =
      ground (arith, All-In (key z) y xs d.0 (In-drop y n xs k), ap key e)
  cut_less (suc n) x y (z ∷ xs) d (inr h) k = cut_less n x y xs d.1 h k

module _ {B : Bolt} (to_lower : Text → Text) (c : SearchCriteria) (db : Db B) where
  matching : List Sale
  matching = keep_if (λ sale. matches_criteria to_lower sale c) (candidates to_lower c db)

  In-matching :
      (s : Sale)
      → In s (sort (later created) matching)
        ↔ (In s (candidates to_lower c db) × (matches_criteria to_lower s c ≡ true))
  unfolding matching
  In-matching s = grind (
    arith,
    In-sort (later created) s matching,
    In-keep_if (λ sale. matches_criteria to_lower sale c) s (candidates to_lower c db),
  )

  -- What a search finds are candidates that pass the tests.
  pub search_sales_sound :
      All
        (λ s. In s (candidates to_lower c db) × (matches_criteria to_lower s c ≡ true))
        (search_sales to_lower c db)
      × (length (search_sales to_lower c db) ≤ limit_of to_lower c)
      × IsDescending created (search_sales to_lower c db)
  unfolding search_sales matching
  search_sales_sound = (
    All-of_In (λ s. In s (candidates to_lower c db) × (matches_criteria to_lower s c ≡ true))
        (take (limit_of to_lower c) (sort (later created) matching))
        (λ s h.
          (In-matching s).0 (In-take s (limit_of to_lower c) (sort (later created) matching) h)),
    length-take (limit_of to_lower c) (sort (later created) matching),
    take-IsDescending created (limit_of to_lower c) (sort (later created) matching)
        (sort-IsDescending created matching),
  )

  -- A candidate that passes the tests is found or cut off.
  pub search_sales_complete :
      (t : Sale)
      → In t (candidates to_lower c db)
      → matches_criteria to_lower t c ≡ true
      → In t (search_sales to_lower c db)
        ⊎ ((length (search_sales to_lower c db) ≡ limit_of to_lower c)
            × All (λ s. t.created_at ≤ s.created_at) (search_sales to_lower c db))
  unfolding search_sales matching
  search_sales_complete t h m =
      let found = sort (later created) matching in
      let n = limit_of to_lower c in
      elim (take_or_cut t n found ((In-matching t).1 (h, m))) [
        | inl kept ↦ inl kept
        | inr (full, cut) ↦ inr (
          full,
          All-of_In (λ s. t.created_at ≤ s.created_at) (take n found)
              (λ s at. cut_less created n s t found (sort-IsDescending created matching) at cut),
        )
      ]
