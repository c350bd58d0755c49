-- ===== src/Printer/Layout/ReadBack.antt =====
-- internal/printer/receipt.go, `money`: an amount can be read off a receipt.
use Prim.Native.Nat.{zero, suc}
use mathlib.Core.Option.{some-injective}
use pos_agent.Base.{
  true, Bool-cases, inl, inr, ◌&&◌, ◌||◌, All, All-append, All-concat, if_lem, leb, ltb, take, drop,
  text, text_eq, ◌==◌, ℕ, ◌+◌, ◌-◌, ◌*◌, ◌/◌, ◌%◌, ◌^◌, ◌≡◌, ◌<◌, ◌++◌, ap, sym, refl, ◌∙◌, List,
  [], ◌∷◌, Text, arith, length, Option, some, none, keep_if, keep_if-append, join, concat,
  append-nil, if◌then◌else◌, nat_eqb,
}
use pos_agent.Base.Int.{ℤ, pos, negsuc, sub_ℕ, neg_part}
use pos_agent.Base.Decimal.{digits, digits_upto, itoa, pad2, is_digit, read_digits, read-digits}
use pos_agent.Printer.Layout.{group_loop, group_thousands, money}
use pos_agent.Printer.Layout.Amounts.{concat-group_loop}
use pos_agent.Printer.Layout.Money.{amount, money-pos, money-neg}

abbrev only_digits : Text → Text
only_digits = keep_if is_digit

abbrev as_amount : (ℕ → ℤ) → Option ℕ → Option ℤ
as_amount sign none = none
as_amount sign (some n) = some (sign n)

-- Behind the point stand two digits, and no more.
unfoldable pub read_cents : ℕ → Text → Option ℕ
read_cents n [] = none
read_cents n (a ∷ []) = none
read_cents n (a ∷ b ∷ []) =
    if is_digit a && is_digit b then some (n * 100 + (a - 48) * 10 + (b - 48)) else none
read_cents n (a ∷ b ∷ c ∷ s) = none

-- The shillings up to the point, where commas may group the digits, then the cents.
unfoldable pub read_whole : ℕ → Text → Option ℕ
unfolding read_cents
read_whole n [] = none
read_whole n (c ∷ s) =
    let digit = read_whole (n * 10 + (c - 48)) s in
    let grouped = read_whole n s in
    if nat_eqb c b'.'
    then read_cents n s
    else if nat_eqb c b','
    then grouped
    else if is_digit c
    then digit
    else none

unfoldable pub read_shown : Text → Option ℕ
unfolding read_whole text_eq
read_shown s = if take 4 s == text "KSh " then read_whole 0 (drop 4 s) else none

-- The cents that a text shows: `KSh`, shillings, a point and two digits, and a minus sign in front
-- negates it.
unfoldable pub read_money : Text → Option ℤ
unfolding read_shown
read_money [] = none
read_money (c ∷ s) =
    if nat_eqb c b'-'
    then as_amount (sub_ℕ 0) (read_shown s)
    else as_amount pos (read_shown (c ∷ s))

only_digits-join : (ts : List Text) → only_digits (join b',' ts) ≡ only_digits (concat ts)
unfolding join concat keep_if
only_digits-join [] = refl
only_digits-join (s ∷ []) = ap only_digits (sym (append-nil s))
only_digits-join (s ∷ t ∷ ts) =
    keep_if-append is_digit s (b',' ∷ join b',' (t ∷ ts))
    ∙ ap (λ r. only_digits s ++ r) (only_digits-join (t ∷ ts))
    ∙ sym (keep_if-append is_digit s (t ++ concat ts))

only_digits-digits_upto : (f n : ℕ) → only_digits (digits_upto f n) ≡ digits_upto f n
unfolding digits_upto keep_if
only_digits-digits_upto zero n = refl
only_digits-digits_upto (suc f) n =
    let left = only_digits-digits_upto f (n / 10) in
    let all = keep_if-append is_digit (digits_upto f (n / 10)) ((48 + n % 10) ∷ []) in ground arith

only_digits-group_thousands : (n : ℕ) → only_digits (group_thousands (pos n)) ≡ digits n
unfolding group_thousands itoa digits concat
only_digits-group_thousands n =
    let s = digits n in
    let plain = only_digits-digits_upto (suc n) n in
    let grouped =
      only_digits-join (group_loop (length s) s [])
      ∙ ap only_digits (concat-group_loop (length s) s [] ∙ append-nil s) in
    ground arith

pad2-digits : (n : ℕ) → n < 100 → pad2 (pos n) ≡ (48 + n / 10) ∷ (48 + n % 10) ∷ []
unfolding pad2 itoa digits digits_upto
pad2-digits zero h = refl
pad2-digits (suc n) h = ground arith

abbrev IsGrouped : ℕ → Type 0
IsGrouped c = is_digit c || nat_eqb c b',' ≡ true

digits_upto-IsGrouped : (f n : ℕ) → All IsGrouped (digits_upto f n)
unfolding digits_upto
digits_upto-IsGrouped zero n = tt
digits_upto-IsGrouped (suc f) n = elim (Bool-cases (ltb n 10)) [
  | inl one ↦ rw one (ground (arith, one), tt)
  | inr more ↦ rw more (
      All-append IsGrouped (digits_upto f (n / 10)) ((48 + n % 10) ∷ [])
        (digits_upto-IsGrouped f (n / 10)) (ground arith, tt))
]

join-IsGrouped : (ts : List Text) → All (λ t. All IsGrouped t) ts → All IsGrouped (join b',' ts)
unfolding join
join-IsGrouped [] h = tt
join-IsGrouped (s ∷ []) h = h.0
join-IsGrouped (s ∷ t ∷ ts) h =
    All-append IsGrouped s (b',' ∷ join b',' (t ∷ ts)) h.0 (refl, join-IsGrouped (t ∷ ts) h.1)

group_thousands-IsGrouped : (n : ℕ) → All IsGrouped (group_thousands (pos n))
unfolding group_thousands itoa digits concat
group_thousands-IsGrouped n =
    let s = digits n in
    let plain = digits_upto-IsGrouped (suc n) n in
    let all : concat (group_loop (length s) s []) ≡ s =
      concat-group_loop (length s) s [] ∙ append-nil s in
    if_lem (All IsGrouped) (leb (length s) 3) plain (
      join-IsGrouped (group_loop (length s) s [])
        (All-concat IsGrouped (group_loop (length s) s []) (rw all plain)))

-- Up to the point the reader takes the digits.
read_whole-point :
    (n : ℕ) (s t : Text) (m : ℕ)
    → All IsGrouped s
    → read_digits n (only_digits s) ≡ some m
    → read_whole n (s ++ b'.' ∷ t) ≡ read_cents m t
unfolding read_whole read_digits keep_if
read_whole-point n [] t m h e = ap (λ k. read_cents k t) (some-injective n m e)
read_whole-point n (c ∷ s) t m (digit, h) e = elim (Bool-cases (is_digit c)) [
  | inl yes' ↦ let ih = read_whole-point (n * 10 + (c - 48)) s t m h in ground (arith, ih, yes', e)
  | inr no' ↦ let ih = read_whole-point n s t m h in ground (arith, ih, no', e, digit)
]

read_cents-pad2 : (m n : ℕ) → n < 100 → read_cents m (pad2 (pos n)) ≡ some (m * 100 + n)
unfolding read_cents
read_cents-pad2 m n h = rw (pad2-digits n h) (ground arith)

read-amount :
    (whole frac : ℕ)
    → frac < 100
    → read_shown (amount (pos whole) (pos frac)) ≡ some (whole * 100 + frac)
unfolding read_shown text_eq
read-amount whole frac h =
    read_whole-point 0 (group_thousands (pos whole)) (pad2 (pos frac)) whole
      (group_thousands-IsGrouped whole)
      (ap (read_digits 0) (only_digits-group_thousands whole) ∙ read-digits whole)
    ∙ read_cents-pad2 whole frac h

-- Every amount but the least `int64` reads back from its text as it was: the sign, the shillings in front
-- of the point and the two digits of the cents behind it.
pub read-money : (cents : ℤ) → neg_part cents < 2 ^ 63 → read_money (money cents) ≡ some cents
unfolding read_money
read-money (pos n) h = rw (money-pos n) (
    ap (as_amount pos) (read-amount (n / 100) (n % 100) (omega arith))
    ∙ ap (λ k. some (pos k)) (omega arith))
read-money (negsuc n) h = rw (money-neg n h) (
    ap (as_amount (sub_ℕ 0)) (read-amount (suc n / 100) (suc n % 100) (omega arith)) ∙ ground arith)
