-- ===== src/Base/Sort.antt =====
-- Go's `sort.Slice` and `sort.SliceStable`, as insertion sort over the `less` that the source
-- passes. The order of equal elements is one that `sort.Slice` allows.
use mathlib.Core.List.{Perm}
use mathlib.Core.List.Perm
use Prim.Native.Nat.{ℕ, ◌≤◌}
use mathlib.Core.Path.{◌≡◌}
use mathlib.Core.Logic.{◌⊎◌, inl, inr, ◌↔◌}
use mathlib.Core.Bool.{Bool}
use mathlib.Core.List.{List, [], ◌∷◌}
use native.Mathlib.Omega.{arith}
use pos_agent.Base.Tests.{if◌then◌else◌, Bool-cases, ltb}
use pos_agent.Base.Lists.{In, All}

module _ {ℓ} {A : Type ℓ} (less : A → A → Bool) where
  -- before the first element that does not come before `x`: `x` was read earlier
  insert : A → List A → List A
  insert x [] = x ∷ []
  insert x (y ∷ ys) = if less y x then y ∷ insert x ys else x ∷ y ∷ ys

  unfoldable pub sort : List A → List A
  unfolding insert
  sort [] = []
  sort (x ∷ xs) = insert x (sort xs)

  insert-perm : (x : A) (xs : List A) → Perm (insert x xs) (x ∷ xs)
  unfolding insert
  insert-perm x [] = Perm.refl _
  insert-perm x (y ∷ ys) = elim (Bool-cases (less y x)) [
    | inl later ↦ rw later (Perm.trans (Perm.cons y (insert-perm x ys)) (Perm.swap _ _ _))
    | inr first ↦ rw first (Perm.refl _)
  ]

  -- A sorted list holds what the list held.
  pub sort-perm : (xs : List A) → Perm (sort xs) xs
  unfolding sort
  sort-perm [] = Perm.refl []
  sort-perm (x ∷ xs) = Perm.trans (insert-perm x (sort xs)) (Perm.cons x (sort-perm xs))

module _ {A : Type 0} (less : A → A → Bool) where
  In-insert : (a x : A) (xs : List A) → In a (insert less x xs) ↔ ((a ≡ x) ⊎ In a xs)
  unfolding insert
  In-insert a x [] = (λ h. h, λ h. h)
  In-insert a x (y ∷ ys) = grind (arith, In-insert a x ys)

  pub In-sort : (a : A) (xs : List A) → In a (sort less xs) ↔ In a xs
  unfolding sort
  In-sort a [] = (λ h. h, λ h. h)
  In-sort a (x ∷ xs) = grind (arith, In-insert a x (sort less xs), In-sort a xs)

-- Sorting by a number, the smallest or the largest first.
module _ {A : Type 0} (key : A → ℕ) where
  abbrev pub IsAscending : List A → Type 0
  IsAscending [] = Unit
  IsAscending (x ∷ xs) = All (λ y. key x ≤ key y) xs × IsAscending xs

  abbrev pub IsDescending : List A → Type 0
  IsDescending [] = Unit
  IsDescending (x ∷ xs) = All (λ y. key y ≤ key x) xs × IsDescending xs

  abbrev pub earlier : A → A → Bool
  earlier x y = ltb (key x) (key y)

  abbrev pub later : A → A → Bool
  later x y = ltb (key y) (key x)

module _ {A : Type 0} (P : A → Type 0) (less : A → A → Bool) where
  All-insert : (x : A) (xs : List A) → P x → All P xs → All P (insert less x xs)
  unfolding insert
  All-insert x [] p h = (p, tt)
  All-insert x (y ∷ ys) p h = ground (arith, All-insert x ys p)

module _ {A : Type 0} (key : A → ℕ) where
  All-le : (n m : ℕ) (xs : List A) → n ≤ m → All (λ y. key y ≤ n) xs → All (λ y. key y ≤ m) xs
  All-le n m [] h a = tt
  All-le n m (x ∷ xs) h a = (omega arith, All-le n m xs h a.1)

  All-ge : (n m : ℕ) (xs : List A) → m ≤ n → All (λ y. n ≤ key y) xs → All (λ y. m ≤ key y) xs
  All-ge n m [] h a = tt
  All-ge n m (x ∷ xs) h a = (omega arith, All-ge n m xs h a.1)

  insert-IsDescending :
      (x : A) (xs : List A) → IsDescending key xs → IsDescending key (insert (later key) x xs)
  unfolding insert
  insert-IsDescending x [] h = (tt, tt)
  insert-IsDescending x (y ∷ ys) h = ground (
    arith,
    insert-IsDescending x ys h.1,
    All-insert (λ z. key z ≤ key y) (later key) x ys,
    All-le (key y) (key x) ys,
  )

  insert-IsAscending :
      (x : A) (xs : List A) → IsAscending key xs → IsAscending key (insert (earlier key) x xs)
  unfolding insert
  insert-IsAscending x [] h = (tt, tt)
  insert-IsAscending x (y ∷ ys) h = ground (
    arith,
    insert-IsAscending x ys h.1,
    All-insert (λ z. key y ≤ key z) (earlier key) x ys,
    All-ge (key y) (key x) ys,
  )

  pub sort-IsDescending : (xs : List A) → IsDescending key (sort (later key) xs)
  unfolding sort
  sort-IsDescending [] = tt
  sort-IsDescending (x ∷ xs) = insert-IsDescending x (sort (later key) xs) (sort-IsDescending xs)

  pub sort-IsAscending : (xs : List A) → IsAscending key (sort (earlier key) xs)
  unfolding sort
  sort-IsAscending [] = tt
  sort-IsAscending (x ∷ xs) = insert-IsAscending x (sort (earlier key) xs) (sort-IsAscending xs)
