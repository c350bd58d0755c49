-- ===== src/Printer/Layout.antt =====
-- internal/printer/receipt.go, "Text helpers": rows, amounts and labels. A width is 32 or 48, and a
-- length is a number of bytes.
pub mod Rows
mod Amounts
pub mod Money
pub mod ReadBack
use Prim.Native.Nat.{zero, suc}
use pos_agent.Base.{
  ℕ, ◌-◌, ◌/◌, Bool, List, [], ◌∷◌, ◌++◌, Text, text, if◌then◌else◌, ltb, leb, length, take, drop,
  repeat, trim_right, join,
}
use pos_agent.Base.Int.{ℤ, pos, ltb_ℤ, eqb_ℤ, sub64, quot, rem}
use pos_agent.Base.Decimal.{itoa, pad2}

-- `leftRight`. Both differences are raised to 1 where they are less, so that it does not matter that
-- a difference here stops at 0.
unfoldable pub left_right : Text → Text → ℕ → Text
left_right left right width =
    let room = width - length right in
    let space = if ltb room 1 then 1 else room in
    let left' = if ltb (space - 1) (length left) then take (space - 1) left else left in
    let gap = width - length left' - length right in
    let pad = if ltb gap 1 then 1 else gap in left' ++ repeat b' ' pad ++ right

-- `center`
unfoldable pub center : Text → ℕ → Text
center line width =
    if leb width (length line) then line else repeat b' ' ((width - length line) / 2) ++ line

-- The loop of `groupThousands`; the text loses three bytes in every round.
unfoldable pub group_loop : ℕ → Text → List Text → List Text
group_loop zero s parts = s ∷ parts
group_loop (suc fuel) s parts =
    let rest = group_loop fuel (take (length s - 3) s) (drop (length s - 3) s ∷ parts) in
    if ltb 3 (length s) then rest else s ∷ parts

-- `groupThousands`
unfoldable pub group_thousands : ℤ → Text
unfolding group_loop itoa
group_thousands n =
    let s = itoa n in if leb (length s) 3 then s else join b',' (group_loop (length s) s [])

-- `money`
unfoldable pub money : ℤ → Text
unfolding group_thousands pad2
money cents =
    let neg = ltb_ℤ cents (pos 0) in
    let magnitude = if neg then sub64 (pos 0) cents else cents in
    let out =
      text "KSh "
      ++ group_thousands (quot magnitude (pos 100))
      ++ b'.' ∷ pad2 (rem magnitude (pos 100)) in
    if neg then b'-' ∷ out else out

-- `vatLabel`
unfoldable pub vat_label : ℤ → Text
unfolding itoa pad2 trim_right
vat_label rate_bps =
    let whole = quot rate_bps (pos 100) in
    let frac = rem rate_bps (pos 100) in
    let s = trim_right b'.' (trim_right b'0' (itoa whole ++ b'.' ∷ pad2 frac)) in
    if eqb_ℤ frac (pos 0)
    then text "VAT (" ++ itoa whole ++ text "%)"
    else text "VAT (" ++ s ++ text "%)"
