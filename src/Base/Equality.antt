-- ===== src/Base/Equality.antt =====
-- Go's `==` on comparable types, for every type whose equality can be decided. A Go string is its
-- bytes: `Text` is a list of numbers, and `text` reads a literal.
use Prim.Native.Nat.{ℕ}
use Prim.Native.Char.{code}
use Prim.Native.String.{String}
use mathlib.Core.Path.{refl, ap₂}
use mathlib.Core.Logic.{ite, dite}
use mathlib.Core.Bool.{Bool, true, false}
use mathlib.Core.List.{List, [], ◌∷◌, cons-eq-cons}
use mathlib.Core.List
use native.Mathlib.Decide.{ℕ_discrete}
use native.Mathlib.Omega.{arith}
use pos_agent.Base.Tests.{ltb, if◌then◌else◌}

pub record Eq {ℓ} (A : Type ℓ) : Type ℓ where
  pub dec : Discrete A

infix 50 ◌==◌
abbrev pub ◌==◌ {ℓ} : {A : Type ℓ} ⦃e : Eq A⦄ → A → A → Bool
◌==◌ ⦃e⦄ a b = ite (e.dec a b) true false

abbrev pub Text : Type 0
Text = List ℕ

-- The code points of a literal: its bytes, as every literal here is ASCII.
abbrev pub text : String → Text
text String.[] = []
text (String.◌∷◌ c s) = code c ∷ text s

text_dec : Discrete Text
text_dec [] [] = yes refl
text_dec [] (b ∷ t) = no (λ p. ground (arith, p))
text_dec (a ∷ s) [] = no (λ p. ground (arith, p))
text_dec (a ∷ s) (b ∷ t) =
    dite (ℕ_discrete a b)
      (λ p.
        dite (text_dec s t) (λ q. yes (ap₂ ◌∷◌ p q))
          (λ differ. no (λ r. differ (List.tail-eq_of_cons-eq r))))
      (λ differ. no (λ r. differ (List.head-eq_of_cons-eq r)))

instance unfoldable pub text_eq : Eq Text
unfolding text_dec ℕ_discrete
text_eq = record { dec = text_dec }

instance unfoldable pub nat_eq : Eq ℕ
unfolding ℕ_discrete
nat_eq = record { dec = ℕ_discrete }

-- Go's `<` on strings: bytewise, a proper prefix first.
unfoldable pub text_less : Text → Text → Bool
text_less [] [] = false
text_less [] (b ∷ t) = true
text_less (a ∷ s) [] = false
text_less (a ∷ s) (b ∷ t) = if ltb a b then true else if ltb b a then false else text_less s t
