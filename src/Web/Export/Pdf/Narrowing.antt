-- ===== src/Web/Export/Pdf/Narrowing.antt =====
-- internal/web/pdfdoc.go, `fitWidths`: the widths of the columns of a page.
use Prim.Native.Nat.{zero, suc}
use pos_agent.Base.{
  ℕ, ◌+◌, ◌-◌, ◌≡◌, ◌≤◌, ◌<◌, ◌⊎◌, inl, inr, refl, sym, ap, ◌∙◌, subst, Bool, Bool-cases, true,
  false, not, ◌&&◌, List, [], ◌∷◌, map, Text, if◌then◌else◌, ltb, leb, nat_eqb, arith, length,
}
use pos_agent.Web.Export.Tables.{ExportTable}
use pos_agent.Web.Export.Pdf.{
  line_len, first_numeric, behind, widen, widen_all, at_most_44, best_width, narrow_first,
  is_settled, shrink, fit_widths, format_row, first_cell, other_cells,
}
use pos_agent.Web.Export.Pdf.Columns.{
  best_width-le, length-narrow_first, sum-narrow_first, shrink-settled, sum-line_len,
  length-format_row,
}

-- The length of the longest of a heading and the cells below it.
abbrev longest : ℕ → List Text → ℕ
longest n [] = n
longest n (cell ∷ cells) = longest (if ltb n (length cell) then length cell else n) cells

-- The widths that the columns would like to have: the longest text of the column, but no more than 44.
-- A row that is too short has empty cells.
abbrev pub natural_widths : List Text → List (List Text) → List ℕ
natural_widths [] rows = []
natural_widths (h ∷ headers) rows =
    let n = longest (length h) (map first_cell rows) in
    (if leb n 44 then n else 44) ∷ natural_widths headers (map other_cells rows)

widen_all-nil : (rows : List (List Text)) → widen_all rows [] ≡ []
unfolding widen_all widen
widen_all-nil [] = refl
widen_all-nil ([] ∷ rows) = widen_all-nil rows
widen_all-nil ((cell ∷ row) ∷ rows) = widen_all-nil rows

widen_all-longest :
    (rows : List (List Text)) (w : ℕ) (widths : List ℕ)
    → widen_all rows (w ∷ widths)
      ≡ longest w (map first_cell rows) ∷ widen_all (map other_cells rows) widths
unfolding widen_all widen
widen_all-longest [] w widths = refl
widen_all-longest ([] ∷ rows) w widths =
    let same : (if ltb w 0 then 0 else w) ≡ w = ground arith in
    widen_all-longest rows w widths
    ∙ ap (λ n. longest n (map first_cell rows) ∷ widen_all (map other_cells rows) widths) (sym same)
widen_all-longest ((cell ∷ row) ∷ rows) w widths =
    widen_all-longest rows (if ltb w (length cell) then length cell else w) (widen row widths)

at_most_44-natural :
    (headers : List Text) (rows : List (List Text))
    → map at_most_44 (widen_all rows (map length headers)) ≡ natural_widths headers rows
at_most_44-natural [] rows = rw (widen_all-nil rows) refl
at_most_44-natural (h ∷ headers) rows =
    let n = longest (length h) (map first_cell rows) in
    let cut : at_most_44 n ≡ (if leb n 44 then n else 44) = ground arith in
    ap (map at_most_44) (widen_all-longest rows (length h) (map length headers))
    ∙ ap (λ m. m ∷ map at_most_44 (widen_all (map other_cells rows) (map length headers))) cut
    ∙ ap (λ r. (if leb n 44 then n else 44) ∷ r) (at_most_44-natural headers (map other_cells rows))

-- Each width against the natural one: a column of money keeps it, and another is not wider, nor narrowed
-- below 6.
abbrev pub AreNarrowed : List Bool → List ℕ → List ℕ → Type 0
AreNarrowed numeric [] [] = Unit
AreNarrowed numeric [] (w ∷ widths) = ⊥
AreNarrowed numeric (n ∷ natural) [] = ⊥
AreNarrowed numeric (n ∷ natural) (w ∷ widths) =
    ((w ≡ n) ⊎ ((first_numeric numeric ≡ false) × (w < n) × (6 ≤ w)))
    × AreNarrowed (behind numeric) natural widths

-- Every column that is not of money is at most 6 wide.
abbrev pub AreNarrow : List Bool → List ℕ → Type 0
AreNarrow numeric [] = Unit
AreNarrow numeric (w ∷ widths) =
    ((first_numeric numeric ≡ true) ⊎ (w ≤ 6)) × AreNarrow (behind numeric) widths

AreNarrowed-refl : (numeric : List Bool) (natural : List ℕ) → AreNarrowed numeric natural natural
AreNarrowed-refl numeric [] = tt
AreNarrowed-refl numeric (n ∷ natural) = (inl refl, AreNarrowed-refl (behind numeric) natural)

narrower : (w n : ℕ) {T : Type 0} → (w ≡ n) ⊎ (T × (w < n) × (6 ≤ w)) → 0 < w → w - 1 < n
narrower w n (inl e) some' = omega arith
narrower w n (inr (t, less, six)) some' = omega arith

narrow_first-AreNarrowed :
    (numeric : List Bool) (best : ℕ) (natural widths : List ℕ)
    → 6 < best
    → AreNarrowed numeric natural widths
    → AreNarrowed numeric natural (narrow_first numeric best widths)
unfolding narrow_first
narrow_first-AreNarrowed numeric best [] [] wide h = tt
narrow_first-AreNarrowed numeric best [] (w ∷ widths) wide h = absurd h
narrow_first-AreNarrowed numeric best (n ∷ natural) [] wide h = absurd h
narrow_first-AreNarrowed numeric best (n ∷ natural) (w ∷ widths) wide (own, h) =
    elim (Bool-cases (not (first_numeric numeric) && nat_eqb w best)) [
      | inl victim ↦
          let plain : first_numeric numeric ≡ false = ground (arith, victim) in
          let same : w ≡ best = ground (arith, victim) in
          rw victim (inr (plain, narrower w n own (omega arith), omega arith), h)
      | inr other ↦
          rw other (own, narrow_first-AreNarrowed (behind numeric) best natural widths wide h)
    ]

narrow_or_money :
    (money : Bool) (w best : ℕ)
    → (if not money && ltb best w then w else best) ≤ 6
    → (money ≡ true) ⊎ (w ≤ 6)
narrow_or_money true w best h = inl refl
narrow_or_money false w best h = inr (ground (arith, h))

best_width-AreNarrow :
    (numeric : List Bool) (widths : List ℕ) (best : ℕ)
    → best_width numeric widths best ≤ 6
    → AreNarrow numeric widths
unfolding best_width
best_width-AreNarrow numeric [] best h = tt
best_width-AreNarrow numeric (w ∷ widths) best h =
    let best' = if not (first_numeric numeric) && ltb best w then w else best in
    let least = best_width-le (behind numeric) widths best' in
    let few : best' ≤ 6 = omega arith in
    (
      narrow_or_money (first_numeric numeric) w best few,
      best_width-AreNarrow (behind numeric) widths best' h,
    )

line_len-narrow_first :
    (numeric : List Bool) (widths : List ℕ)
    → 0 < best_width numeric widths 0
    → line_len (narrow_first numeric (best_width numeric widths 0) widths) + 1 ≡ line_len widths
unfolding line_len
line_len-narrow_first numeric widths some_width =
    let less = sum-narrow_first numeric widths 0 some_width in
    let same = length-narrow_first numeric (best_width numeric widths 0) widths in
    ground (arith, less, same)

unsettled-long :
    (budget : ℕ) (numeric : List Bool) (widths : List ℕ)
    → is_settled budget numeric widths ≡ false
    → (budget < line_len widths) × (6 < best_width numeric widths 0)
unfolding is_settled
unsettled-long budget numeric widths h = (ground (arith, h), ground (arith, h))

settled-AreNarrow :
    (budget : ℕ) (numeric : List Bool) (widths : List ℕ)
    → is_settled budget numeric widths ≡ true
    → (line_len widths ≤ budget) ⊎ AreNarrow numeric widths
unfolding is_settled
settled-AreNarrow budget numeric widths h =
    elim (Bool-cases (leb (best_width numeric widths 0) 6)) [
      | inl narrow ↦ inr (best_width-AreNarrow numeric widths 0 (ground (arith, narrow)))
      | inr wide ↦ inl (ground (arith, h, wide))
    ]

-- Nothing was narrowed, or no more than the budget asks.
abbrev NotTooMuch : ℕ → List ℕ → List ℕ → Type 0
NotTooMuch budget natural widths = (widths ≡ natural) ⊎ (budget ≤ line_len widths)

shrink-AreNarrowed :
    (fuel budget : ℕ) (numeric : List Bool) (natural widths : List ℕ)
    → AreNarrowed numeric natural widths
    → NotTooMuch budget natural widths
    → AreNarrowed numeric natural (shrink fuel budget numeric widths)
      × NotTooMuch budget natural (shrink fuel budget numeric widths)
unfolding shrink
shrink-AreNarrowed zero budget numeric natural widths h k = (h, k)
shrink-AreNarrowed (suc fuel) budget numeric natural widths h k =
    elim (Bool-cases (is_settled budget numeric widths)) [
      | inl settled ↦ rw settled (h, k)
      | inr wide ↦
          let (long, best) = unsettled-long budget numeric widths wide in
          let less = line_len-narrow_first numeric widths (omega arith) in
          rw wide (
            shrink-AreNarrowed fuel budget numeric natural
              (narrow_first numeric (best_width numeric widths 0) widths)
              (narrow_first-AreNarrowed numeric (best_width numeric widths 0) natural widths best h)
              (inr (omega arith)))
    ]

-- How `fitWidths` chooses the widths of any table, for lines of `budget` bytes. A column of money has its
-- natural width, and another is narrowed to 6 at the least. Then either the lines fit, or every column
-- that is not of money is at most 6 wide; and where a column was narrowed, the lines are no shorter than
-- the budget. The length of a line, whatever its cells, is that which the widths give.
pub fit_widths-AreNarrowed :
    (t : ExportTable) (budget : ℕ) (cells : List Text)
    → let widths = fit_widths t budget in
      let natural = natural_widths t.headers t.rows in
      let line = format_row cells widths t.numeric in
      AreNarrowed t.numeric natural widths
      × ((length line ≤ budget) ⊎ AreNarrow t.numeric widths)
      × ((widths ≡ natural) ⊎ (budget ≤ length line))
unfolding fit_widths
fit_widths-AreNarrowed t budget cells =
    let start = map at_most_44 (widen_all t.rows (map length t.headers)) in
    let natural = natural_widths t.headers t.rows in
    let e = at_most_44-natural t.headers t.rows in
    let widths = shrink (line_len start) budget t.numeric start in
    let begins : AreNarrowed t.numeric natural start =
      subst (AreNarrowed t.numeric natural) (sym e) (AreNarrowed-refl t.numeric natural) in
    let (narrowed, enough) =
      shrink-AreNarrowed (line_len start) budget t.numeric natural start begins (inl e) in
    let settled =
      settled-AreNarrow budget t.numeric widths
        (shrink-settled (line_len start) budget t.numeric start (sum-line_len start)) in
    (
      narrowed,
      rw (length-format_row cells widths t.numeric) settled,
      rw (length-format_row cells widths t.numeric) enough,
    )
