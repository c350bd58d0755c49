-- ===== src/Boltstore/Sales/Values.antt =====
-- internal/store/boltstore/boltstore.go: the records that an iteration over a bucket collects.
use pos_agent.Base.{◌↔◌, ap, List, [], ◌∷◌, Text, In, inl, inr}
use pos_agent.Boltstore.Sales.{values}

pub In-values :
    {V : Type 0} (v : V) (r : List (Text × V)) → In v (values r) ↔ ((k : Text) × In (k, v) r)
In-values v [] = (λ h. absurd h, λ h. absurd h.1)
In-values v ((k, x) ∷ r) = (
  λ h. elim h [
    | inl e ↦ (k, inl (ap (λ w. (k, w)) e))
    | inr there ↦ let (j, h') = (In-values v r).0 there in (j, inr h')
  ],
  λ (j, h). elim h [
    | inl e ↦ inl (ap (λ (p : Text × _). p.1) e)
    | inr there ↦ inr ((In-values v r).1 (j, there))
  ],
)
