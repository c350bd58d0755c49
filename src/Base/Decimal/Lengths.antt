-- ===== src/Base/Decimal/Lengths.antt =====
-- How many digits a number has.
use Prim.Native.Nat.{ℕ, zero, suc, ◌+◌, ◌*◌, ◌/◌, ◌%◌, ◌≤◌, ◌<◌}
use mathlib.Core.List.{[], ◌∷◌}
use native.Mathlib.Omega.{arith}
use pos_agent.Base.Lists.{length}
use pos_agent.Base.Strings.{length-append}
use pos_agent.Base.Decimal.Digits.{digits_upto}

-- Powers of ten, as they grow with the number of digits.
abbrev pub pow10 : ℕ → ℕ
pow10 zero = 1
pow10 (suc k) = 10 * pow10 k

pub length-digits_upto : (k f n : ℕ) → n < pow10 (suc k) → length (digits_upto f n) ≤ suc k
unfolding digits_upto
length-digits_upto k zero n h = omega arith
length-digits_upto zero (suc f) n h = ground arith
length-digits_upto (suc k) (suc f) n h =
    let less = length-digits_upto k f (n / 10) (omega arith) in
    let one_more = length-append (digits_upto f (n / 10)) ((48 + n % 10) ∷ []) in ground arith
