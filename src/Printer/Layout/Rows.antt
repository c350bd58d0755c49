-- ===== src/Printer/Layout/Rows.antt =====
-- internal/printer/receipt.go, `leftRight`: a row has the paper's width.
use pos_agent.Base.{
  ℕ, ◌+◌, ◌-◌, ◌≡◌, ◌≤◌, ◌<◌, ◌++◌, Text, arith, ltb, if◌then◌else◌, length, take, repeat,
  length-append, length-repeat, length-take_min, inl, inr, Bool-cases, false, ◌∙◌,
}
use pos_agent.Printer.Layout.{left_right}

-- The left text as it is printed.
abbrev cut : Text → ℕ → Text
cut left n = if ltb n (length left) then take n left else left

length-cut : (left : Text) (n : ℕ) → length (cut left n) ≤ n
length-cut left n = elim (Bool-cases (ltb n (length left))) [
  | inl long ↦ rw long (ground (arith, length-take_min n left))
  | inr short ↦ rw short (ground arith)
]

length-padded :
    (left right : Text) (n : ℕ)
    → length (left ++ repeat b' ' n ++ right) ≡ length left + n + length right
length-padded left right n =
    let outer = length-append (left ++ repeat b' ' n) right in
    let inner = length-append left (repeat b' ' n) in
    let spaces = length-repeat b' ' n in omega arith

length-row :
    (left right : Text) (width : ℕ)
    → length left + length right < width
    → let gap = width - length left - length right in
      length (left ++ repeat b' ' (if ltb gap 1 then 1 else gap) ++ right) ≡ width
length-row left right width fits =
    let gap = width - length left - length right in
    length-padded left right (if ltb gap 1 then 1 else gap) ∙ ground arith

-- A row whose right text is shorter than the width is exactly as wide as the paper.
pub length-left_right :
    (left right : Text) (width : ℕ)
    → length right < width
    → length (left_right left right width) ≡ width
unfolding left_right
length-left_right left right width fits =
    let room = width - length right in
    let enough : ltb room 1 ≡ false = ground arith in
    rw enough (
      length-row (cut left (room - 1)) right width
        (let h = length-cut left (room - 1) in omega arith))
