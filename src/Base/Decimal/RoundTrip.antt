-- ===== src/Base/Decimal/RoundTrip.antt =====
-- What is printed reads back.
use Prim.Native.Nat.{ℕ, zero, suc, ◌+◌, ◌-◌, ◌*◌, ◌/◌, ◌%◌, ◌<◌}
use mathlib.Core.Path.{◌≡◌, ap, ◌∙◌}
use mathlib.Core.Logic.{inl, inr}
use mathlib.Core.Bool.{true}
use mathlib.Core.List.{[], ◌∷◌, ◌++◌}
use mathlib.Core.Option.{some}
use native.Mathlib.Omega.{arith}
use pos_agent.Base.Tests.{ltb, Bool-cases}
use pos_agent.Base.Equality.{Text}
use pos_agent.Base.Int.{ℤ, pos, negsuc, InInt32}
use pos_agent.Base.Decimal.Digits.{digits_upto, digits, itoa, read_digits, is_digit, atoi}

read_digits-append :
    (acc : ℕ) (s : Text) (c m : ℕ)
    → read_digits acc s ≡ some m
    → is_digit c ≡ true
    → read_digits acc (s ++ c ∷ []) ≡ some (m * 10 + (c - 48))
unfolding read_digits
read_digits-append acc [] c m h d = ground arith
read_digits-append acc (x ∷ s) c m h d =
    ground (arith, read_digits-append (acc * 10 + (x - 48)) s c m)

read-digits_upto : (f n : ℕ) → n < f → read_digits 0 (digits_upto f n) ≡ some n
unfolding digits_upto
read-digits_upto zero n h = absurd (omega arith)
read-digits_upto (suc f) n h = elim (Bool-cases (ltb n 10)) [
  | inl one ↦ rw one (unfold read_digits in ground arith)
  | inr more ↦ rw more (
      read_digits-append 0 (digits_upto f (n / 10)) (48 + n % 10) (n / 10)
        (read-digits_upto f (n / 10) (ground arith)) (ground arith)
      ∙ ap some (omega arith))
]

-- The printed form starts with a digit.
digits_upto-head :
    (f n : ℕ) → n < f → (c : ℕ) × (s : Text) × (digits_upto f n ≡ c ∷ s) × (is_digit c ≡ true)
unfolding digits_upto
digits_upto-head zero n h = absurd (omega arith)
digits_upto-head (suc f) n h = elim (Bool-cases (ltb n 10)) [
  | inl one ↦ (48 + n, [], rw one, ground arith)
  | inr more ↦
      let (c, s, e, d) = digits_upto-head f (n / 10) (ground arith) in
      (c, s ++ (48 + n % 10) ∷ [], rw (more, e), d)
]

pub read-digits : (n : ℕ) → read_digits 0 (digits n) ≡ some n
unfolding digits
read-digits n = read-digits_upto (suc n) n (omega arith)

-- Every 32-bit `int` that is printed reads back as itself, without an error.
pub atoi-itoa : (n : ℤ) → InInt32 n → atoi (itoa n) ≡ record { value = n; ok = true }
unfolding itoa atoi
atoi-itoa (pos n) h =
    let (c, s, e, d) = digits_upto-head (suc n) n (omega arith) in
    let r : read_digits 0 (c ∷ s) ≡ some n = rw e at (read-digits n) in rw e (ground (arith, r))
atoi-itoa (negsuc n) h =
    let (c, s, e, d) = digits_upto-head (suc (suc n)) (suc n) (omega arith) in
    let r : read_digits 0 (c ∷ s) ≡ some (suc n) = rw e at (read-digits (suc n)) in
    rw e (ground (arith, r))
