-- ===== src/Printer/Layout/Money.antt =====
-- internal/printer/receipt.go, `money`: the bytes of an amount, over the whole range of `int64`.
use Prim.Native.Nat.{suc}
use pos_agent.Base.{
  ℕ, ◌+◌, ◌/◌, ◌%◌, ◌^◌, ◌≡◌, ◌≤◌, ◌<◌, ◌++◌, ap, ◌∙◌, refl, true, false, ◌∷◌, Text, text, arith,
  ltb, length, length-append, inl, inr, Bool-cases,
}
use pos_agent.Base.Int.{
  ℤ, pos, negsuc, sub_ℕ, InInt64, sub64, int_laws, eq_of_parts, ltb_ℤ, wrap64, wrap64_self, ◌-ℤ◌,
}
use pos_agent.Base.Decimal.{digits, itoa, pad2}
use pos_agent.Printer.Layout.{group_thousands, money}
use pos_agent.Base.Decimal.Lengths.{pow10, length-digits_upto}
use pos_agent.Printer.Layout.Amounts.{length-group_thousands}

length-digits : (k n : ℕ) → n < pow10 (suc k) → length (digits n) ≤ suc k
unfolding digits
length-digits k n h = length-digits_upto k (suc n) n h

length-pad2_pos : (n : ℕ) → n < 100 → length (pad2 (pos n)) ≤ 2
unfolding pad2 itoa
length-pad2_pos n h = let two = length-digits 1 n (omega arith) in ground arith

length-pad2_neg : (n : ℕ) → n < 10 → length (pad2 (sub_ℕ 0 n)) ≤ 2
unfolding pad2 itoa
length-pad2_neg n h =
    let one = length-digits 0 n (omega arith) in
    let none = length-digits 0 0 (omega arith) in ground arith

length-whole_pos : (n : ℕ) → n < pow10 17 → length (group_thousands (pos n)) ≤ 22
unfolding itoa
length-whole_pos n h =
    let seventeen = length-digits 16 n (omega arith) in
    let grouped = length-group_thousands (pos n) in omega arith

length-whole_neg : (n : ℕ) → n < pow10 17 → length (group_thousands (sub_ℕ 0 n)) ≤ 23
unfolding itoa
length-whole_neg n h =
    let seventeen = length-digits 16 n (omega arith) in
    let grouped = length-group_thousands (sub_ℕ 0 n) in ground arith

-- The text of `money` without its sign, from the two parts of the amount.
abbrev pub amount : ℤ → ℤ → Text
amount whole frac = text "KSh " ++ group_thousands whole ++ b'.' ∷ pad2 frac

length-amount :
    (whole frac : ℤ)
    → length (amount whole frac) ≡ length (group_thousands whole) + length (pad2 frac) + 5
length-amount whole frac =
    let h = length-append (text "KSh " ++ group_thousands whole) (b'.' ∷ pad2 frac) in
    let k = length-append (text "KSh ") (group_thousands whole) in omega arith

pub money-pos : (n : ℕ) → money (pos n) ≡ amount (pos (n / 100)) (pos (n % 100))
unfolding money
money-pos n = let e : ltb (n + 0) 0 ≡ false = ground arith in rw e refl

-- The magnitude of every negative amount but the least is positive.
negated : (n : ℕ) → suc n < 2 ^ 63 → sub64 (pos 0) (negsuc n) ≡ pos (suc n)
negated n h =
    ap wrap64 (eq_of_parts (pos 0 -ℤ negsuc n) (pos (suc n)) (omega int_laws))
    ∙ wrap64_self (pos (suc n)) (h, omega arith)

-- The least amount is its own magnitude.
negated_least : (n : ℕ) → suc n ≡ 2 ^ 63 → sub64 (pos 0) (negsuc n) ≡ negsuc n
unfolding wrap64 ◌-ℤ◌
negated_least n h = ground arith

pub money-neg :
    (n : ℕ)
    → suc n < 2 ^ 63
    → money (negsuc n) ≡ b'-' ∷ amount (pos (suc n / 100)) (pos (suc n % 100))
unfolding money
money-neg n h = let e : ltb_ℤ (negsuc n) (pos 0) ≡ true = ground arith in rw (negated n h, e) refl

money-least :
    (n : ℕ)
    → suc n ≡ 2 ^ 63
    → money (negsuc n) ≡ b'-' ∷ amount (sub_ℕ 0 (suc n / 100)) (sub_ℕ 0 (suc n % 100))
unfolding money
money-least n h =
    let e : ltb_ℤ (negsuc n) (pos 0) ≡ true = ground arith in rw (negated_least n h, e) refl

-- Every amount an `int64` can hold takes 31 bytes at most.
pub length-money : (cents : ℤ) → InInt64 cents → length (money cents) ≤ 31
length-money (pos n) h =
    let a = length-amount (pos (n / 100)) (pos (n % 100)) in
    let b = length-whole_pos (n / 100) (omega arith) in
    let c = length-pad2_pos (n % 100) (omega arith) in rw (money-pos n) (omega arith)
length-money (negsuc n) h = elim (Bool-cases (ltb (suc n) (2 ^ 63))) [
  | inl inside ↦
      let a = length-amount (pos (suc n / 100)) (pos (suc n % 100)) in
      let b = length-whole_pos (suc n / 100) (omega arith) in
      let c = length-pad2_pos (suc n % 100) (omega arith) in
      rw (money-neg n (ground arith)) (omega arith)
  | inr least ↦
      let e : suc n ≡ 2 ^ 63 = ground arith in
      let a = length-amount (sub_ℕ 0 (suc n / 100)) (sub_ℕ 0 (suc n % 100)) in
      let b = length-whole_neg (suc n / 100) (omega arith) in
      let c = length-pad2_neg (suc n % 100) (omega arith) in rw (money-least n e) (omega arith)
]
