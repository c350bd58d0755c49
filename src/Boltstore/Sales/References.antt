-- ===== src/Boltstore/Sales/References.antt =====
-- internal/store/boltstore/boltstore.go: the reference index, and the search by its prefix.
use mathlib.Core.List
use mathlib.Core.Option.{some-injective}
use pos_agent.Base.{
  ◌≡◌, ◌≢◌, ◌↔◌, ◌⊎◌, refl, sym, ap, subst, ◌∙◌, Option, none, some, List, [], ◌∷◌, ◌++◌, Text,
  text_eq, arith, inl, inr, All, In,
}
use pos_agent.Base.Sort.{In-sort, later}
use pos_agent.Bolt.{Bolt, IsLawful}
use pos_agent.Domain.{Sale}
use pos_agent.Boltstore.Db.{Db}
use pos_agent.Boltstore.Sales.{
  ref_key, strip_prefix, add_found, find_sale, scan_refs, sales_by_reference, created,
}

abbrev pub NulFree : Text → Type 0
NulFree = All (λ c. c ≢ 0)

not-NulFree : (a x : Text) → ¬ NulFree (a ++ 0 ∷ x)
not-NulFree [] x h = h.0 refl
not-NulFree (c ∷ a) x h = not-NulFree a x h.1

-- Around its last NUL a key splits in one way.
split_nul : (a b x y : Text) → NulFree x → NulFree y → a ++ 0 ∷ x ≡ b ++ 0 ∷ y → (a ≡ b) × (x ≡ y)
split_nul [] [] x y hx hy e = (refl, List.tail-eq_of_cons-eq e)
split_nul [] (c ∷ b) x y hx hy e =
    absurd (not-NulFree b y (subst NulFree (List.tail-eq_of_cons-eq e) hx))
split_nul (c ∷ a) [] x y hx hy e =
    absurd (not-NulFree a x (subst NulFree (sym (List.tail-eq_of_cons-eq e)) hy))
split_nul (c ∷ a) (d ∷ b) x y hx hy e =
    let (p, q) = split_nul a b x y hx hy (List.tail-eq_of_cons-eq e) in
    (ground (arith, p, List.head-eq_of_cons-eq e), q)

pub strip_append : (p id : Text) → strip_prefix p (p ++ id) ≡ some id
unfolding strip_prefix
strip_append [] id = refl
strip_append (c ∷ p) id = ground (arith, strip_append p id)

pub append_of_strip : (p key id : Text) → strip_prefix p key ≡ some id → key ≡ p ++ id
unfolding strip_prefix
append_of_strip [] key id e = some-injective key id e
append_of_strip (c ∷ p) [] id e = cc
append_of_strip (c ∷ p) (k ∷ key) id e = ground (arith, append_of_strip p key id)

-- The reference index holds the keys of exactly the sales with a reference, and no sale's id has a
-- NUL byte, as a UUID's text has none.
pub record IsRefIndexed {B : Bolt} (db : Db B) : Type 0 where
  pub own_id : (id : Text) (s : Sale) → B.get Sale db.sales id ≡ some s → s.id ≡ id
  pub plain_id : (id : Text) (s : Sale) → B.get Sale db.sales id ≡ some s → NulFree id
  pub sound :
      (key : Text)
      → B.get Unit db.ref_idx key ≡ some tt
      → (s : Sale) × (B.get Sale db.sales s.id ≡ some s)
        × (s.reference ≢ [])
        × (key ≡ ref_key s.reference s.id)
  pub complete :
      (id : Text) (s : Sale)
      → B.get Sale db.sales id ≡ some s
      → s.reference ≢ []
      → B.get Unit db.ref_idx (ref_key s.reference s.id) ≡ some tt

In-add_found :
    (s : Sale) (o : Option Sale) (rest : List Sale)
    → In s (add_found o rest)
    → (o ≡ some s) ⊎ In s rest
unfolding add_found
In-add_found s none rest h = inr h
In-add_found s (some t) rest (inl e) = inl (ap some (sym e))
In-add_found s (some t) rest (inr h) = inr h

add_found-head :
    (s : Sale) (o : Option Sale) (rest : List Sale) → o ≡ some s → In s (add_found o rest)
unfolding add_found
add_found-head s none rest e = cc
add_found-head s (some t) rest e = inl (sym (some-injective t s e))

add_found-tail :
    (s : Sale) (o : Option Sale) (rest : List Sale) → In s rest → In s (add_found o rest)
unfolding add_found
add_found-tail s none rest h = h
add_found-tail s (some t) rest h = inr h

module _ {B : Bolt} (db : Db B) where
  find_sale-some :
      (s : Sale) (o : Option Text)
      → find_sale db o ≡ some s
      → (id : Text) × (o ≡ some id) × (B.get Sale db.sales id ≡ some s)
  unfolding find_sale
  find_sale-some s none e = cc
  find_sale-some s (some id) e = (id, refl, e)

  scan_refs_sound :
      (s : Sale) (prefix : Text) (keys : List (Text × Unit {0}))
      → In s (scan_refs db prefix keys)
      → (key : Text) × (id : Text) × In (key, tt) keys
        × (strip_prefix prefix key ≡ some id)
        × (B.get Sale db.sales id ≡ some s)
  unfolding scan_refs
  scan_refs_sound s prefix [] h = absurd h
  scan_refs_sound s prefix ((key, u) ∷ keys) h =
      elim (In-add_found s (find_sale db (strip_prefix prefix key)) (scan_refs db prefix keys) h) [
        | inl e ↦
            let (id, found, at) = find_sale-some s (strip_prefix prefix key) e in
            (key, id, inl refl, found, at)
        | inr r ↦
            let (k, id, at, stripped, found) = scan_refs_sound s prefix keys r in
            (k, id, inr at, stripped, found)
      ]

  scan_refs_complete :
      (s : Sale) (prefix key id : Text) (keys : List (Text × Unit {0}))
      → In (key, tt) keys
      → strip_prefix prefix key ≡ some id
      → B.get Sale db.sales id ≡ some s
      → In s (scan_refs db prefix keys)
  unfolding scan_refs find_sale
  scan_refs_complete s prefix key id [] h e at = absurd h
  scan_refs_complete s prefix key id ((k, u) ∷ keys) (inl same) e at =
      let here : find_sale db (strip_prefix prefix k) ≡ some s =
        subst (λ (x : Option Text). find_sale db x ≡ some s)
          (sym e ∙ ap (λ (q : Text × Unit {0}). strip_prefix prefix q.0) same) at in
      add_found-head s (find_sale db (strip_prefix prefix k)) (scan_refs db prefix keys) here
  scan_refs_complete s prefix key id ((k, u) ∷ keys) (inr h) e at =
      add_found-tail s (find_sale db (strip_prefix prefix k)) (scan_refs db prefix keys)
        (scan_refs_complete s prefix key id keys h e at)

ref_prefix : (r id : Text) → (r ++ 0 ∷ []) ++ id ≡ r ++ 0 ∷ id
ref_prefix [] id = refl
ref_prefix (c ∷ r) id = ap (λ t. c ∷ t) (ref_prefix r id)

module _ {B : Bolt} (L : IsLawful B) (db : Db B) (indexed : IsRefIndexed db) where
  -- Where the reference index is exact, `SalesByReference` of a reference that is not empty finds
  -- exactly the stored sales with that reference, also where a reference is a prefix of another or
  -- holds the separator itself.
  pub sales_by_reference_exact :
      (r : Text) (s : Sale)
      → r ≢ []
      → In s (sales_by_reference r db) ↔ ((B.get Sale db.sales s.id ≡ some s) × (s.reference ≡ r))
  unfolding sales_by_reference ref_key text_eq
  sales_by_reference_exact [] s given = absurd (given refl)
  sales_by_reference_exact (c ∷ cs) s given =
      let r : Text = c ∷ cs in
      let prefix : Text = r ++ 0 ∷ [] in
      let keys = B.entries Unit db.ref_idx in
      (
        λ h.
            let (key, id, held, stripped, at) =
              scan_refs_sound db s prefix keys
                ((In-sort (later created) s (scan_refs db prefix keys)).0 h) in
            let (t, t_at, t_given, split) =
              indexed.sound key (L.get_of_In Unit db.ref_idx key tt held) in
            let one : s.id ≡ id = indexed.own_id id s at in
            let (same_ref, same_id) =
              split_nul r t.reference id t.id (indexed.plain_id id s at)
                (indexed.plain_id t.id t t_at)
                (sym (ref_prefix r id) ∙ sym (append_of_strip prefix key id stripped) ∙ split) in
            let stored : B.get Sale db.sales s.id ≡ some s =
              subst (λ (i : Text). B.get Sale db.sales i ≡ some s) (sym one) at in
            let twin : s ≡ t =
              some-injective s t
                (sym at ∙ ap (λ (i : Text). B.get Sale db.sales i) same_id ∙ t_at) in
            (stored, ap (λ (x : Sale). x.reference) twin ∙ sym same_ref),
        λ (at, same).
            let some_ref : s.reference ≢ [] = subst (λ (x : Text). x ≢ []) (sym same) given in
            let key_at : B.get Unit db.ref_idx (r ++ 0 ∷ s.id) ≡ some tt =
              subst (λ (x : Text). B.get Unit db.ref_idx (x ++ 0 ∷ s.id) ≡ some tt) same
                (indexed.complete s.id s at some_ref) in
            (In-sort (later created) s (scan_refs db prefix keys)).1 (
              scan_refs_complete db s prefix (r ++ 0 ∷ s.id) s.id keys
                (L.In_of_get Unit db.ref_idx (r ++ 0 ∷ s.id) tt key_at)
                (ap (strip_prefix prefix) (sym (ref_prefix r s.id)) ∙ strip_append prefix s.id) at),
      )
