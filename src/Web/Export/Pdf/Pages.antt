-- ===== src/Web/Export/Pdf/Pages.antt =====
-- internal/web/pdfdoc.go, the loop over `dataLines` of `writePDF`: the pages hold all the lines.
use Prim.Native.Nat.{zero, suc}
use pos_agent.Base.{
  ℕ, ◌≡◌, ◌≤◌, refl, ap, ◌∙◌, List, [], ◌∷◌, ◌++◌, All, Text, arith, length, take, drop,
  length-drop, concat, take-drop,
}
use pos_agent.Web.Export.Pdf.Document.{pages}

length-take_le : (n : ℕ) (lines : List Text) → length (take n lines) ≤ n
length-take_le zero lines = omega arith
length-take_le (suc n) [] = omega arith
length-take_le (suc n) (line ∷ lines) = let h = length-take_le n lines in omega arith

-- With as much fuel as there are lines, the pages hold every line once and in order.
concat-pages :
    (fuel : ℕ) (lines : List Text) → length lines ≤ fuel → concat (pages fuel lines) ≡ lines
unfolding pages concat
concat-pages zero [] h = refl
concat-pages zero (line ∷ lines) h = absurd (omega arith)
concat-pages (suc fuel) [] h = refl
concat-pages (suc fuel) (line ∷ lines) h =
    let shorter = length-drop 55 (line ∷ lines) in
    ap (λ rest. take 55 (line ∷ lines) ++ rest)
      (concat-pages fuel (drop 55 (line ∷ lines)) (omega arith))
    ∙ take-drop 55 (line ∷ lines)

-- No page has more than the 55 lines that fit.
pages-fit : (fuel : ℕ) (lines : List Text) → All (λ page. length page ≤ 55) (pages fuel lines)
unfolding pages
pages-fit zero lines = tt
pages-fit (suc fuel) [] = tt
pages-fit (suc fuel) (line ∷ lines) =
    (length-take_le 55 (line ∷ lines), pages-fit fuel (drop 55 (line ∷ lines)))
