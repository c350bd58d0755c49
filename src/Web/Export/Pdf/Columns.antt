-- ===== src/Web/Export/Pdf/Columns.antt =====
-- internal/web/pdfdoc.go, `fitWidths` and `formatRow`: the columns are narrowed as far as they can be,
-- and a row is as long as its columns.
use Prim.Native.Nat.{zero, suc}
use pos_agent.Base.{
  ℕ, ◌+◌, ◌-◌, ◌≡◌, ◌≤◌, ◌<◌, inl, inr, refl, ◌∙◌, Bool, Bool-cases, true, false, not, ◌&&◌, List,
  [], ◌∷◌, ◌++◌, Text, text, if◌then◌else◌, if_lem, ltb, leb, arith, length, take, repeat, join,
  length-append, length-repeat, length-take_min,
}
use pos_agent.Web.Export.Pdf.{
  sum_widths, line_len, first_numeric, behind, best_width, narrow_first, is_settled, shrink,
  cell_fit, format_row, first_cell, other_cells,
}

pub best_width-le :
    (numeric : List Bool) (widths : List ℕ) (best : ℕ) → best ≤ best_width numeric widths best
unfolding best_width
best_width-le numeric [] best = omega arith
best_width-le numeric (w ∷ widths) best =
    let best' = if not (first_numeric numeric) && ltb best w then w else best in
    let h = best_width-le (behind numeric) widths best' in ground arith

pub length-narrow_first :
    (numeric : List Bool) (best : ℕ) (widths : List ℕ)
    → length (narrow_first numeric best widths) ≡ length widths
unfolding narrow_first
length-narrow_first numeric best [] = refl
length-narrow_first numeric best (w ∷ widths) =
    ground (arith, length-narrow_first (behind numeric) best widths)

-- The victim gives one.
pub sum-narrow_first :
    (numeric : List Bool) (widths : List ℕ) (best : ℕ)
    → best < best_width numeric widths best
    → sum_widths (narrow_first numeric (best_width numeric widths best) widths) + 1
      ≡ sum_widths widths
unfolding best_width narrow_first
sum-narrow_first numeric [] best h = absurd (omega arith)
sum-narrow_first numeric (w ∷ widths) best h =
    elim (Bool-cases (not (first_numeric numeric) && ltb best w)) [
      | inl wider ↦
          let least = best_width-le (behind numeric) widths w in
          let ih = sum-narrow_first (behind numeric) widths w in
          rw wider (ground (arith, ih, wider))
      | inr other ↦
          let h' = rw other at h in
          let ih = sum-narrow_first (behind numeric) widths best h' in
          rw other (ground (arith, ih, h', other))
    ]

length-cut :
    (s : Text) (w : ℕ)
    → w < length s
    → length (if leb w 2 then take w s else take (w - 2) s ++ text "..") ≡ w
length-cut s w long =
    let all = length-take_min w s in
    let most = length-take_min (w - 2) s in
    let dots = length-append (take (w - 2) s) (text "..") in ground arith

length-cell_fit : (s : Text) (w : ℕ) (right : Bool) → length (cell_fit s w right) ≡ w
unfolding cell_fit
length-cell_fit s w right =
    let s' =
      if ltb w (length s) then (if leb w 2 then take w s else take (w - 2) s ++ text "..") else s in
    let pad = repeat b' ' (w - length s') in
    let cut = length-cut s w in
    let spaces = length-repeat b' ' (w - length s') in
    let before = length-append pad s' in
    let after = length-append s' pad in
    let fits : length s' ≤ w = ground (arith, cut) in
    if_lem (λ t. length t ≡ w) right {x = pad ++ s'} {y = s' ++ pad} (omega arith) (omega arith)

pub length-format_row :
    (cells : List Text) (widths : List ℕ) (numeric : List Bool)
    → length (format_row cells widths numeric) ≡ line_len widths
unfolding format_row line_len join
length-format_row cells [] numeric = refl
length-format_row cells (w ∷ []) numeric =
    length-cell_fit (first_cell cells) w (first_numeric numeric) ∙ omega arith
length-format_row cells (w ∷ v ∷ widths) numeric =
    let cell = cell_fit (first_cell cells) w (first_numeric numeric) in
    let rest = format_row (other_cells cells) (v ∷ widths) (behind numeric) in
    let own = length-cell_fit (first_cell cells) w (first_numeric numeric) in
    let others = length-format_row (other_cells cells) (v ∷ widths) (behind numeric) in
    let both = length-append cell (b' ' ∷ rest) in ground (arith, both, own, others)

best_width-sum :
    (numeric : List Bool) (widths : List ℕ) (best : ℕ)
    → best_width numeric widths best ≤ best + sum_widths widths
unfolding best_width
best_width-sum numeric [] best = omega arith
best_width-sum numeric (w ∷ widths) best =
    let best' = if not (first_numeric numeric) && ltb best w then w else best in
    let h = best_width-sum (behind numeric) widths best' in ground arith

-- A row that does not fit and can give has a column to narrow.
unsettled-wide :
    (budget : ℕ) (numeric : List Bool) (widths : List ℕ)
    → is_settled budget numeric widths ≡ false
    → 0 < best_width numeric widths 0
unfolding is_settled
unsettled-wide budget numeric widths h = ground (arith, h)

empty-settled :
    (budget : ℕ) (numeric : List Bool) (widths : List ℕ)
    → sum_widths widths ≤ 0
    → is_settled budget numeric widths ≡ true
unfolding is_settled
empty-settled budget numeric widths h = let few = best_width-sum numeric widths 0 in ground arith

pub shrink-settled :
    (fuel budget : ℕ) (numeric : List Bool) (widths : List ℕ)
    → sum_widths widths ≤ fuel
    → is_settled budget numeric (shrink fuel budget numeric widths) ≡ true
unfolding shrink
shrink-settled zero budget numeric widths h = empty-settled budget numeric widths h
shrink-settled (suc fuel) budget numeric widths h =
    elim (Bool-cases (is_settled budget numeric widths)) [
      | inl settled ↦ rw settled settled
      | inr wide ↦
          let some_width = unsettled-wide budget numeric widths wide in
          let less = sum-narrow_first numeric widths 0 some_width in
          rw wide (
            shrink-settled fuel budget numeric
              (narrow_first numeric (best_width numeric widths 0) widths) (omega arith))
    ]

pub sum-line_len : (widths : List ℕ) → sum_widths widths ≤ line_len widths
unfolding line_len
sum-line_len widths = ground arith
