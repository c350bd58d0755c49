-- ===== src/Base/Decimal/Digits.antt =====
-- `strconv.Itoa`, `strconv.FormatInt`, `strconv.Atoi` and fmt's `%d` and `%02d`, on bytes.
use Prim.Native.Nat.{ℕ, zero, suc, ◌+◌, ◌-◌, ◌*◌, ◌/◌, ◌%◌, ◌^◌}
use mathlib.Core.Bool.{Bool, true, false, ◌&&◌}
use mathlib.Core.List.{[], ◌∷◌, ◌++◌}
use mathlib.Core.Option.{Option, none, some}
use pos_agent.Base.Tests.{ltb, leb, nat_eqb, if◌then◌else◌}
use pos_agent.Base.Equality.{Text}
use pos_agent.Base.Lists.{length}
use pos_agent.Base.Int.{ℤ, pos, negsuc, sub_ℕ}

-- The digits of `n`; the fuel `f` is enough where `n < f`.
unfoldable pub digits_upto : ℕ → ℕ → Text
digits_upto zero n = []
digits_upto (suc f) n =
    let more = digits_upto f (n / 10) ++ (48 + n % 10) ∷ [] in
    if ltb n 10 then (48 + n) ∷ [] else more

unfoldable pub digits : ℕ → Text
unfolding digits_upto
digits n = digits_upto (suc n) n

-- `strconv.Itoa(n)`, `strconv.FormatInt(n, 10)` and `%d`
unfoldable pub itoa : ℤ → Text
unfolding digits
itoa (pos n) = digits n
itoa (negsuc n) = b'-' ∷ digits (suc n)

-- `%02d`
unfoldable pub pad2 : ℤ → Text
unfolding itoa
pad2 n = let s = itoa n in if ltb (length s) 2 then b'0' ∷ s else s

abbrev pub is_digit : ℕ → Bool
is_digit c = leb b'0' c && leb c b'9'

-- The value of a run of digits read so far, or `none` at another byte.
unfoldable pub read_digits : ℕ → Text → Option ℕ
read_digits acc [] = some acc
read_digits acc (c ∷ s) = if is_digit c then read_digits (acc * 10 + (c - 48)) s else none

-- What `Atoi` returns: with an error the value is 0, or the nearest `int` if it is out of range.
pub record Parsed : Type 0 where
  pub value : ℤ
  pub ok : Bool

abbrev syntax_error : Parsed
syntax_error = record { value = pos 0; ok = false }

unfoldable pub atoi_magnitude : Bool → Text → Parsed
unfolding read_digits
atoi_magnitude negative [] = syntax_error
atoi_magnitude negative (c ∷ s) = elim (read_digits 0 (c ∷ s)) [
  | none ↦ syntax_error
  | some n ↦
      if negative
      then (if leb n (2 ^ 31)
          then record { value = sub_ℕ 0 n; ok = true }
          else record { value = sub_ℕ 0 (2 ^ 31); ok = false })
      else if ltb n (2 ^ 31)
      then record { value = pos n; ok = true }
      else record { value = pos (2 ^ 31 - 1); ok = false }
]

-- `strconv.Atoi(s)`, for an `int` of 32 bits
unfoldable pub atoi : Text → Parsed
unfolding atoi_magnitude
atoi [] = syntax_error
atoi (c ∷ s) =
    if nat_eqb c b'-'
    then atoi_magnitude true s
    else if nat_eqb c b'+'
    then atoi_magnitude false s
    else atoi_magnitude false (c ∷ s)
