-- ===== src/Base/Int/Wrap.antt =====
-- Two's complement at 32 and at 64 bits: the representative of an integer, and the laws by which a
-- chain of wrapped operations is the wrapped exact result.
use Prim.Native.Nat.{ℕ, ◌+◌, ◌-◌, ◌*◌, ◌/◌, ◌%◌, ◌^◌, ◌<◌, ◌≤◌, suc}
use mathlib.Core.Path.{◌≡◌, ap}
use mathlib.Core.Logic.{inl, inr}
use native.Mathlib.Omega.{arith}
use pos_agent.Base.Tests.{ltb, Bool-cases, if◌then◌else◌}
use pos_agent.Base.Int.Core.{ℤ, pos, negsuc, pos_part, neg_part, sub_ℕ, ◌+ℤ◌, ◌-ℤ◌, ◌*ℤ◌, int_laws}

-- The bit pattern of an integer at modulus `m`.
abbrev residue : ℕ → ℤ → ℕ
residue m (pos n) = n % m
residue m (negsuc n) = m - 1 - n % m

-- The signed value of a bit pattern.
abbrev signed : ℕ → ℕ → ℤ
signed m r = if ltb (r + r) m then pos r else negsuc (m - 1 - r)

unfoldable pub wrap64 : ℤ → ℤ
wrap64 a = signed (2 ^ 64) (residue (2 ^ 64) a)

unfoldable pub wrap32 : ℤ → ℤ
wrap32 a = signed (2 ^ 32) (residue (2 ^ 32) a)

abbrev pub InInt64 : ℤ → Type 0
InInt64 a = (pos_part a < 2 ^ 63) × (neg_part a ≤ 2 ^ 63)

abbrev pub InInt32 : ℤ → Type 0
InInt32 a = (pos_part a < 2 ^ 31) × (neg_part a ≤ 2 ^ 31)

-- Congruence at a modulus, on the parts: the difference is a multiple, up or down.
abbrev Congruent : ℕ → ℤ → ℤ → Type 0
Congruent m a b =
    (k : ℕ) × (l : ℕ) × (pos_part a + neg_part b + k * m ≡ pos_part b + neg_part a + l * m)

pub wrap64_self : (a : ℤ) → InInt64 a → wrap64 a ≡ a
unfolding wrap64
wrap64_self (pos n) h = ground arith
wrap64_self (negsuc n) h = ground arith

pub wrap32_self : (a : ℤ) → InInt32 a → wrap32 a ≡ a
unfolding wrap32
wrap32_self (pos n) h = ground arith
wrap32_self (negsuc n) h = ground arith

pub wrap64-InInt64 : (a : ℤ) → InInt64 (wrap64 a)
unfolding wrap64
wrap64-InInt64 (pos n) = ground arith
wrap64-InInt64 (negsuc n) = ground arith

pub wrap32-InInt32 : (a : ℤ) → InInt32 (wrap32 a)
unfolding wrap32
wrap32-InInt32 (pos n) = ground arith
wrap32-InInt32 (negsuc n) = ground arith

wrap64-Congruent : (a : ℤ) → Congruent (2 ^ 64) (wrap64 a) a
unfolding wrap64
wrap64-Congruent (pos n) = elim (Bool-cases (ltb (n % 2 ^ 64 + n % 2 ^ 64) (2 ^ 64))) [
  | inl low ↦ (n / 2 ^ 64, 0, ground arith)
  | inr high ↦ (n / 2 ^ 64 + 1, 0, ground arith)
]
wrap64-Congruent (negsuc n) =
    let r : ℕ = 2 ^ 64 - 1 - n % 2 ^ 64 in
    elim (Bool-cases (ltb (r + r) (2 ^ 64))) [
      | inl low ↦ (0, n / 2 ^ 64 + 1, ground arith)
      | inr high ↦ (0, n / 2 ^ 64, ground arith)
    ]

-- Congruent integers have one representative.
pub wrap64-eq : (a b : ℤ) → Congruent (2 ^ 64) a b → wrap64 a ≡ wrap64 b
unfolding wrap64
wrap64-eq (pos n) (pos m) (k, l, e) = ap (signed (2 ^ 64)) (omega arith)
wrap64-eq (pos n) (negsuc m) (k, l, e) = ap (signed (2 ^ 64)) (omega arith)
wrap64-eq (negsuc n) (pos m) (k, l, e) = ap (signed (2 ^ 64)) (omega arith)
wrap64-eq (negsuc n) (negsuc m) (k, l, e) = ap (signed (2 ^ 64)) (omega arith)

pub wrap64-add_left : (a b : ℤ) → wrap64 (wrap64 a +ℤ b) ≡ wrap64 (a +ℤ b)
wrap64-add_left a b =
    let (k, l, e) = wrap64-Congruent a in wrap64-eq (wrap64 a +ℤ b) (a +ℤ b) (k, l, omega int_laws)

pub wrap64-add_right : (a b : ℤ) → wrap64 (a +ℤ wrap64 b) ≡ wrap64 (a +ℤ b)
wrap64-add_right a b =
    let (k, l, e) = wrap64-Congruent b in wrap64-eq (a +ℤ wrap64 b) (a +ℤ b) (k, l, omega int_laws)

pub wrap64-sub_left : (a b : ℤ) → wrap64 (wrap64 a -ℤ b) ≡ wrap64 (a -ℤ b)
wrap64-sub_left a b =
    let (k, l, e) = wrap64-Congruent a in wrap64-eq (wrap64 a -ℤ b) (a -ℤ b) (k, l, omega int_laws)

pub wrap64-sub_right : (a b : ℤ) → wrap64 (a -ℤ wrap64 b) ≡ wrap64 (a -ℤ b)
wrap64-sub_right a b =
    let (k, l, e) = wrap64-Congruent b in wrap64-eq (a -ℤ wrap64 b) (a -ℤ b) (l, k, omega int_laws)

wrap32-Congruent : (a : ℤ) → Congruent (2 ^ 32) (wrap32 a) a
unfolding wrap32
wrap32-Congruent (pos n) = elim (Bool-cases (ltb (n % 2 ^ 32 + n % 2 ^ 32) (2 ^ 32))) [
  | inl low ↦ (n / 2 ^ 32, 0, ground arith)
  | inr high ↦ (n / 2 ^ 32 + 1, 0, ground arith)
]
wrap32-Congruent (negsuc n) =
    let r : ℕ = 2 ^ 32 - 1 - n % 2 ^ 32 in
    elim (Bool-cases (ltb (r + r) (2 ^ 32))) [
      | inl low ↦ (0, n / 2 ^ 32 + 1, ground arith)
      | inr high ↦ (0, n / 2 ^ 32, ground arith)
    ]

-- Congruent integers have one representative.
pub wrap32-eq : (a b : ℤ) → Congruent (2 ^ 32) a b → wrap32 a ≡ wrap32 b
unfolding wrap32
wrap32-eq (pos n) (pos m) (k, l, e) = ap (signed (2 ^ 32)) (omega arith)
wrap32-eq (pos n) (negsuc m) (k, l, e) = ap (signed (2 ^ 32)) (omega arith)
wrap32-eq (negsuc n) (pos m) (k, l, e) = ap (signed (2 ^ 32)) (omega arith)
wrap32-eq (negsuc n) (negsuc m) (k, l, e) = ap (signed (2 ^ 32)) (omega arith)

pub wrap32-add_left : (a b : ℤ) → wrap32 (wrap32 a +ℤ b) ≡ wrap32 (a +ℤ b)
wrap32-add_left a b =
    let (k, l, e) = wrap32-Congruent a in wrap32-eq (wrap32 a +ℤ b) (a +ℤ b) (k, l, omega int_laws)

pub wrap32-add_right : (a b : ℤ) → wrap32 (a +ℤ wrap32 b) ≡ wrap32 (a +ℤ b)
wrap32-add_right a b =
    let (k, l, e) = wrap32-Congruent b in wrap32-eq (a +ℤ wrap32 b) (a +ℤ b) (k, l, omega int_laws)

pub wrap32-sub_left : (a b : ℤ) → wrap32 (wrap32 a -ℤ b) ≡ wrap32 (a -ℤ b)
wrap32-sub_left a b =
    let (k, l, e) = wrap32-Congruent a in wrap32-eq (wrap32 a -ℤ b) (a -ℤ b) (k, l, omega int_laws)

pub wrap32-sub_right : (a b : ℤ) → wrap32 (a -ℤ wrap32 b) ≡ wrap32 (a -ℤ b)
wrap32-sub_right a b =
    let (k, l, e) = wrap32-Congruent b in wrap32-eq (a -ℤ wrap32 b) (a -ℤ b) (l, k, omega int_laws)

-- Go's operators at the two widths.
abbrev pub add64 : ℤ → ℤ → ℤ
add64 a b = wrap64 (a +ℤ b)

abbrev pub sub64 : ℤ → ℤ → ℤ
sub64 a b = wrap64 (a -ℤ b)

abbrev pub mul64 : ℤ → ℤ → ℤ
mul64 a b = wrap64 (a *ℤ b)

abbrev pub add32 : ℤ → ℤ → ℤ
add32 a b = wrap32 (a +ℤ b)

abbrev pub sub32 : ℤ → ℤ → ℤ
sub32 a b = wrap32 (a -ℤ b)

-- Go's division and remainder truncate toward zero. The source divides by zero nowhere.
abbrev pub quot : ℤ → ℤ → ℤ
quot (pos a) (pos b) = pos (a / b)
quot (pos a) (negsuc b) = sub_ℕ 0 (a / suc b)
quot (negsuc a) (pos b) = sub_ℕ 0 (suc a / b)
quot (negsuc a) (negsuc b) = pos (suc a / suc b)

abbrev pub rem : ℤ → ℤ → ℤ
rem (pos a) (pos b) = pos (a % b)
rem (pos a) (negsuc b) = pos (a % suc b)
rem (negsuc a) (pos b) = sub_ℕ 0 (suc a % b)
rem (negsuc a) (negsuc b) = sub_ℕ 0 (suc a % suc b)

abbrev pub div64 : ℤ → ℤ → ℤ
div64 a b = wrap64 (quot a b)
