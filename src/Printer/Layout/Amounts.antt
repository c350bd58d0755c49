-- ===== src/Printer/Layout/Amounts.antt =====
-- internal/printer/receipt.go, `groupThousands` and `money`: how long an amount is, and how it reads
-- back.
use Prim.Native.Nat.{zero, suc}
use pos_agent.Base.{
  ℕ, ◌+◌, ◌-◌, ◌*◌, ◌/◌, ◌%◌, ◌≡◌, ◌≤◌, ◌<◌, ◌++◌, sym, ap, ◌∙◌, refl, List, [], ◌∷◌, Text, arith,
  ltb, length, take, drop, join, concat, length-append, length-take_min, take-drop, append_assoc,
  append-nil, inl, inr, Bool-cases,
}
use pos_agent.Base.Int.{ℤ, pos, negsuc}
use pos_agent.Base.Decimal.{digits, digits_upto, itoa}
use pos_agent.Printer.Layout.{group_loop, group_thousands}

pub concat-group_loop :
    (fuel : ℕ) (s : Text) (parts : List Text) → concat (group_loop fuel s parts) ≡ s ++ concat parts
unfolding group_loop concat
concat-group_loop zero s parts = refl
concat-group_loop (suc fuel) s parts = elim (Bool-cases (ltb 3 (length s))) [
  | inl more ↦
      let n = length s - 3 in
      rw more (
        concat-group_loop fuel (take n s) (drop n s ∷ parts)
        ∙ sym (append_assoc (take n s) (drop n s) (concat parts))
        ∙ ap (λ t. t ++ concat parts) (take-drop n s))
  | inr last ↦ rw last
]

length-group_loop :
    (fuel : ℕ) (s : Text) (parts : List Text)
    → 0 < length s
    → length (group_loop fuel s parts) * 3 ≤ length s + 2 + length parts * 3
unfolding group_loop
length-group_loop zero s parts some_text = omega arith
length-group_loop (suc fuel) s parts some_text = elim (Bool-cases (ltb 3 (length s))) [
  | inl more ↦
      let n = length s - 3 in
      let short = length-take_min n s (omega arith) in
      let h = length-group_loop fuel (take n s) (drop n s ∷ parts) (ground arith) in
      rw more (omega arith)
  | inr last ↦ rw last (omega arith)
]

length-join : (c : ℕ) (ts : List Text) → length (join c ts) ≤ length (concat ts) + (length ts - 1)
unfolding join concat
length-join c [] = omega arith
length-join c (s ∷ []) = rw (append-nil s) (omega arith)
length-join c (s ∷ t ∷ ts) =
    let h = length-join c (t ∷ ts) in
    rw (length-append s (c ∷ join c (t ∷ ts)), length-append s (t ++ concat ts)) (omega arith)

pub digits-positive : (n : ℕ) → 0 < length (digits n)
unfolding digits digits_upto
digits-positive n =
    let one_more = length-append (digits_upto n (n / 10)) ((48 + n % 10) ∷ []) in ground arith

itoa-positive : (n : ℤ) → 0 < length (itoa n)
unfolding itoa
itoa-positive (pos n) = digits-positive n
itoa-positive (negsuc n) = omega arith

pub length-group_thousands : (n : ℤ) → length (group_thousands n) * 3 + 1 ≤ length (itoa n) * 4
unfolding group_thousands concat
length-group_thousands n =
    let s = itoa n in
    let groups = group_loop (length s) s [] in
    let some_digits = itoa-positive n in
    let few = length-group_loop (length s) s [] some_digits in
    let joined = length-join b',' groups in
    let all : length (concat groups) ≡ length s =
      ap length (concat-group_loop (length s) s [] ∙ append-nil s) in
    ground arith
