-- ===== src/Boltstore/Search/Exact.antt =====
-- internal/store/boltstore/search.go, `SearchSales`: which sales are found, in terms of what is stored.
use pos_agent.Base.{
  ℕ, ◌≡◌, ◌≢◌, ◌≤◌, ◌<◌, ◌⊎◌, ◌↔◌, ap, ◌∙◌, subst, true, some, [], Text, text_eq, ◌==◌, All, In,
  arith, inl, inr, length, Bool-cases,
}
use pos_agent.Base.Int.{pos, ◌≤ℤ◌}
use pos_agent.Base.Sort.{IsDescending}
use pos_agent.Bolt.{Bolt, IsLawful}
use pos_agent.Domain.{Sale, SearchCriteria}
use pos_agent.Boltstore.Db.{Db}
use pos_agent.Boltstore.Sales.{created}
use pos_agent.Boltstore.Sales.Values.{In-values}
use pos_agent.Boltstore.Sales.References.{IsRefIndexed, sales_by_reference_exact}
use pos_agent.Boltstore.Search.{candidates, limit_of, matches_criteria, search_sales}
use pos_agent.Boltstore.Search.Criteria.{Meets, matches_criteria-Meets, Meets-matches_criteria}
use pos_agent.Boltstore.Search.Found.{search_sales_sound, search_sales_complete, All-of_In, In-All}

-- The most sales that a search may find: the caller's limit, or 500 where it gives none.
abbrev pub IsLimit : SearchCriteria → ℕ → Type 0
IsLimit c n = ((c.limit ≤ℤ pos 0) × (n ≡ 500)) ⊎ ((0 < n) × (c.limit ≡ pos n))

module _ {B : Bolt} (L : IsLawful B) (to_lower : Text → Text) (c : SearchCriteria) (db : Db B)
    (indexed : IsRefIndexed db) where
  -- A stored sale that meets the criteria.
  abbrev pub IsMatch : Sale → Type 0
  IsMatch s = (B.get Sale db.sales s.id ≡ some s) × Meets to_lower c s

  limit_of-IsLimit : (n : ℕ) → IsLimit c n → limit_of to_lower c ≡ n
  unfolding limit_of
  limit_of-IsLimit n (inl (none', e)) = ground (arith, none', e)
  limit_of-IsLimit n (inr (some', e)) = ground (arith, some', e)

  candidates-stored :
      (s : Sale)
      → In s (candidates to_lower c db)
        ↔ ((B.get Sale db.sales s.id ≡ some s) × ((c.reference ≡ []) ⊎ (s.reference ≡ c.reference)))
  unfolding candidates
  candidates-stored s = elim (Bool-cases (c.reference == [])) [
    | inl bare ↦
        let empty : c.reference ≡ [] = ground (arith, bare) in
        let (value, key) = In-values s (B.entries Sale db.sales) in
        rw bare (
          (λ h.
              let (k, at) = value h in
              let found = L.get_of_In Sale db.sales k s at in
              (ap (B.get Sale db.sales) (indexed.own_id k s found) ∙ found, inl empty)),
          (λ (found, _). key (s.id, L.In_of_get Sale db.sales s.id s found)),
        )
    | inr given ↦
        let some_text : c.reference ≢ [] = λ e. ground (arith, given, e) in
        let (out, into) = sales_by_reference_exact L db indexed c.reference s some_text in
        rw given (
          (λ h. let (found, same) = out h in (found, inr same)),
          (λ (found, asked). elim asked [
            | inl bare ↦ absurd (some_text bare)
            | inr same ↦ into (found, same)
          ]),
        )
  ]

  -- Where the reference index is exact, every sale that `SearchSales` finds is stored and meets every
  -- criterion; there are at most as many as the caller's limit, or 500 where there is none, newest first.
  pub search_sales-IsMatch :
      (n : ℕ)
      → IsLimit c n
      → All IsMatch (search_sales to_lower c db)
        × (length (search_sales to_lower c db) ≤ n)
        × IsDescending created (search_sales to_lower c db)
  search_sales-IsMatch n limit =
      let (found, few, order) = search_sales_sound to_lower c db in
      (
        All-of_In IsMatch (search_sales to_lower c db) (λ s at.
            let (candidate, matches) =
              In-All (λ x. In x (candidates to_lower c db) × (matches_criteria to_lower x c ≡ true))
                s (search_sales to_lower c db) found at in
            let (stored, reference) = (candidates-stored s).0 candidate in
            (stored, matches_criteria-Meets to_lower c s matches reference)),
        subst (λ m. length (search_sales to_lower c db) ≤ m) (limit_of-IsLimit n limit) few,
        order,
      )

  -- Where the reference index is exact, a stored sale that meets every criterion is found, unless the
  -- search has found as many as the caller's limit, or 500 where there is none; then no sale that it
  -- found is older.
  pub search_sales-found :
      (n : ℕ) (t : Sale)
      → IsLimit c n
      → B.get Sale db.sales t.id ≡ some t
      → Meets to_lower c t
      → In t (search_sales to_lower c db)
        ⊎ ((length (search_sales to_lower c db) ≡ n)
            × All (λ s. t.created_at ≤ s.created_at) (search_sales to_lower c db))
  search_sales-found n t limit stored m =
      subst
        (λ k.
          In t (search_sales to_lower c db)
          ⊎ ((length (search_sales to_lower c db) ≡ k)
              × All (λ s. t.created_at ≤ s.created_at) (search_sales to_lower c db)))
        (limit_of-IsLimit n limit)
        (search_sales_complete to_lower c db t ((candidates-stored t).1 (stored, m.reference))
          (Meets-matches_criteria to_lower c t m))
