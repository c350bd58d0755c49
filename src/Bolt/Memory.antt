-- ===== src/Bolt/Memory.antt =====
-- A bucket kept as a list of pairs, the newest first: it shows that the laws of bbolt's interface
-- can hold, and the tests run on it.
use mathlib.Core.List.Perm
use pos_agent.Base.{
  ◌≡◌, ◌≢◌, refl, ap, Option, none, some, List, [], ◌∷◌, Text, text_eq, ◌==◌, if◌then◌else◌, arith,
  In, ◌∙◌,
}
use pos_agent.Bolt.{Bolt, IsLawful}

abbrev Pairs : Type 0 → Type 0
Pairs V = List (Text × V)

module _ {V : Type 0} where
  lookup : Text → Pairs V → Option V
  lookup k [] = none
  lookup k ((j, v) ∷ b) = if k == j then some v else lookup k b

  without : Text → Pairs V → Pairs V
  without k [] = []
  without k ((j, v) ∷ b) = let rest = without k b in if k == j then rest else (j, v) ∷ rest

  -- an overwritten pair is not visited
  visible : Pairs V → Pairs V
  visible [] = []
  visible ((k, v) ∷ b) = (k, v) ∷ without k (visible b)

  lookup-without :
      (k j : Text) (b : Pairs V) → lookup j (without k b) ≡ (if j == k then none else lookup j b)
  unfolding lookup without
  lookup-without k j [] = ground arith
  lookup-without k j ((i, v) ∷ b) = ground (arith, lookup-without k j b)

  lookup-visible : (j : Text) (b : Pairs V) → lookup j (visible b) ≡ lookup j b
  unfolding lookup visible
  lookup-visible j [] = refl
  lookup-visible j ((k, v) ∷ b) = ground (arith, lookup-without k j (visible b), lookup-visible j b)

  without_of_absent : (k : Text) (b : Pairs V) → lookup k b ≡ none → without k b ≡ b
  unfolding lookup without
  without_of_absent k [] h = refl
  without_of_absent k ((j, v) ∷ b) h = ground (arith, without_of_absent k b)

  In-of_lookup : (k : Text) (v : V) (b : Pairs V) → lookup k b ≡ some v → In (k, v) b
  unfolding lookup
  In-of_lookup k v [] h = ground arith
  In-of_lookup k v ((j, w) ∷ b) h = ground (arith, In-of_lookup k v b)

  In-without : (k j : Text) (v : V) (b : Pairs V) → In (j, v) (without k b) → (j ≢ k) × In (j, v) b
  unfolding without
  In-without k j v [] h = absurd h
  In-without k j v ((i, w) ∷ b) h = ground (arith, In-without k j v b)

  lookup_of_In : (k : Text) (v : V) (b : Pairs V) → In (k, v) (visible b) → lookup k b ≡ some v
  unfolding lookup visible
  lookup_of_In k v [] h = absurd h
  lookup_of_In k v ((j, w) ∷ b) h = ground (arith, In-without j k v (visible b), lookup_of_In k v b)

  In-without_ne : (k j : Text) (v : V) (b : Pairs V) → j ≢ k → In (j, v) b → In (j, v) (without k b)
  unfolding without
  In-without_ne k j v [] ne h = h
  In-without_ne k j v ((i, w) ∷ b) ne h = grind (arith, In-without_ne k j v b)

  In-visible_of_lookup :
      (k : Text) (v : V) (b : Pairs V) → lookup k b ≡ some v → In (k, v) (visible b)
  unfolding lookup visible
  In-visible_of_lookup k v [] h = ground arith
  In-visible_of_lookup k v ((j, w) ∷ b) h =
      ground (arith, In-visible_of_lookup k v b, In-without_ne j k v (visible b))

  visible-put_new :
      (b : Pairs V) (k : Text) (v : V)
      → lookup k b ≡ none
      → visible ((k, v) ∷ b) ≡ (k, v) ∷ visible b
  unfolding visible
  visible-put_new b k v h =
      ap (◌∷◌ (k, v)) (without_of_absent k (visible b) (lookup-visible k b ∙ h))

unfoldable pub memory : Bolt
unfolding lookup without visible
memory = record {
  Bucket = Pairs;
  empty = λ V. [];
  get = λ V b k. lookup k b;
  put = λ V b k v. (k, v) ∷ b;
  delete = λ V b k. without k b;
  entries = λ V b. visible b;
}

-- The list of pairs meets every law of the interface.
pub memory-IsLawful : IsLawful memory
unfolding memory
memory-IsLawful = record {
  get-empty = λ V k. refl;
  get-put = λ V b k v j. refl;
  get-delete = λ V b k j. lookup-without k j b;
  entries-empty = λ V. refl;
  get_of_In = λ V b k v. lookup_of_In k v b;
  In_of_get = λ V b k v. In-visible_of_lookup k v b;
  entries-put_new = λ V b k v h. rw (visible-put_new b k v h) (Perm.refl _);
}
