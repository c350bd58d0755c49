-- ===== src/Tax/Rounding.antt =====
-- `roundHalfUp` and the tax of a line (internal/store/tax.go) on amounts that do not overflow.
use native.Mathlib.Decide.{dec_le}
use native.Mathlib.Nat.{mul-le-mul_left}
use pos_agent.Base.{suc, ℕ, ◌+◌, ◌*◌, ◌/◌, ◌^◌, ◌≤◌, ◌<◌, ◌≡◌, false, text_eq, nat_eqb, arith}
use pos_agent.Base.Int.{pos, ◌+ℤ◌, ◌*ℤ◌, mul64, add32, wrap64, wrap64_self, wrap32_self}
use pos_agent.Domain.Keys.{tax_mode_inclusive, tax_mode_exclusive}
use pos_agent.Tax.{round_half_up, mode_tax}

add_pos : (a b : ℕ) → pos a +ℤ pos b ≡ pos (a + b)
unfolding ◌+ℤ◌
add_pos a b = ground arith

mul_pos : (a b : ℕ) → pos a *ℤ pos b ≡ pos (a * b)
unfolding ◌*ℤ◌
mul_pos a b = ground arith

wrap64_pos : (n : ℕ) → n < 2 ^ 63 → wrap64 (pos n) ≡ pos n
wrap64_pos n h = wrap64_self (pos n) (omega arith)

-- On a non-negative amount and a positive divisor, within 64 bits.
pub round_half_up_pos :
    (n d : ℕ)
    → 0 < d
    → d < 2 ^ 63
    → n + d / 2 < 2 ^ 63
    → round_half_up (pos n) (pos d) ≡ pos ((n + d / 2) / d)
unfolding round_half_up
round_half_up_pos n d pd fd fn =
    let nonzero : nat_eqb (d + 0) 0 ≡ false = ground arith in
    rw (
      nonzero,
      wrap64_pos (d / 2) (omega arith),
      add_pos,
      wrap64_pos (n + d / 2) fn,
      wrap64_pos ((n + d / 2) / d) (omega arith),
    )

mul64_pos : (a b : ℕ) → a * b < 2 ^ 63 → mul64 (pos a) (pos b) ≡ pos (a * b)
mul64_pos a b h = rw mul_pos (wrap64_pos (a * b) h)

-- `t` is `n / d` to the nearest whole number, a half rounded up.
abbrev pub IsRounded : ℕ → ℕ → ℕ → Type 0
IsRounded n d t = (d * t ≤ n + d / 2) × (n + d / 2 < d * (t + 1))

div-IsRounded : (n d : ℕ) → 0 < d → IsRounded n d ((n + d / 2) / d)
div-IsRounded n d h = grind arith

add32_pos : (a b : ℕ) → a + b < 2 ^ 31 → add32 (pos a) (pos b) ≡ pos (a + b)
add32_pos a b h = rw add_pos (wrap32_self (pos (a + b)) (omega arith))

rounded-le : (gross rate_bps t : ℕ) → IsRounded (gross * rate_bps) (10000 + rate_bps) t → t ≤ gross
rounded-le gross rate_bps t h = elim (dec_le t gross) [
  | yes le ↦ le
  | no gt ↦
      let above : suc gross ≤ t = omega arith in
      absurd (omega (arith, h.0, mul-le-mul_left (10000 + rate_bps) above))
]

-- In exclusive mode the tax of a gross amount that is not negative is the rate's part of it,
-- rounded half up to a whole cent, as long as the product with the rate leaves room for the
-- rounding within 64 bits.
pub mode_tax_exclusive :
    (gross rate_bps : ℕ)
    → gross * rate_bps + 5000 < 2 ^ 63
    → (t : ℕ) × (mode_tax (pos rate_bps) tax_mode_exclusive (pos gross) ≡ pos t)
      × IsRounded (gross * rate_bps) 10000 t
unfolding mode_tax text_eq
mode_tax_exclusive gross rate_bps h = (
  (gross * rate_bps + 5000) / 10000,
  rw (mul64_pos gross rate_bps (omega arith))
      (round_half_up_pos (gross * rate_bps) 10000 (omega arith) (omega arith) (omega arith)),
  div-IsRounded (gross * rate_bps) 10000 (omega arith),
)

-- In inclusive mode the tax of a gross amount that is not negative is the part of it that the rate
-- makes up, rounded half up to a whole cent, and it is never more than the gross amount; the
-- divisor is within 32 bits, and the product with the rate leaves room for the rounding within 64.
pub mode_tax_inclusive :
    (gross rate_bps : ℕ)
    → 10000 + rate_bps < 2 ^ 31
    → gross * rate_bps + (10000 + rate_bps) / 2 < 2 ^ 63
    → (t : ℕ) × (mode_tax (pos rate_bps) tax_mode_inclusive (pos gross) ≡ pos t)
      × IsRounded (gross * rate_bps) (10000 + rate_bps) t
      × (t ≤ gross)
unfolding mode_tax text_eq
mode_tax_inclusive gross rate_bps small h =
    let d : ℕ = 10000 + rate_bps in
    (
      (gross * rate_bps + d / 2) / d,
      rw (mul64_pos gross rate_bps (omega arith), add32_pos 10000 rate_bps small)
          (round_half_up_pos (gross * rate_bps) d (omega arith) (omega arith) h),
      div-IsRounded (gross * rate_bps) d (omega arith),
      rounded-le gross rate_bps _ (div-IsRounded (gross * rate_bps) d (omega arith)),
    )
