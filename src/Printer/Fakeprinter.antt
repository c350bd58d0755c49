-- ===== src/Printer/Fakeprinter.antt =====
-- cmd/fakeprinter/main.go: how the printer of the test setup reads a job. It runs in a container of 64
-- bits, where the size of a raster does not overflow an `int`.
pub mod Reading
use Prim.Native.Nat.{zero, suc}
use pos_agent.Base.{
  ◌++◌, List, not, ℕ, ◌+◌, ◌-◌, ◌*◌, ◌==◌, text_eq, Bool, true, false, ◌||◌, ◌&&◌, [], ◌∷◌, Text,
  text, if◌then◌else◌, ltb, leb, nat_eqb, length, drop, no_items, trim_right,
}

abbrev byte_at : ℕ → Text → ℕ
byte_at n [] = 0
byte_at zero (c ∷ s) = c
byte_at (suc n) (c ∷ s) = byte_at n s

abbrev shorter : Text → ℕ → Bool
shorter job n = ltb (length job) n

-- `skipGS`, on the bytes from the sequence on
unfoldable pub skip_gs : Text → ℕ
skip_gs job =
    let kind = byte_at 1 job in
    let columns = byte_at 4 job + byte_at 5 job * 256 in
    let rows = byte_at 6 job + byte_at 7 job * 256 in
    if shorter job 2
    then 1
    else if nat_eqb kind 33
    then 3
    else if nat_eqb kind 86
    then 4
    else if nat_eqb kind 118
    then (if shorter job 8 then length job else 8 + columns * rows)
    else 2

-- How far an ESC sequence reaches.
unfoldable pub skip_esc : Text → ℕ
skip_esc job =
    let kind = byte_at 1 job in
    if not (shorter job 2) && (nat_eqb kind 97 || nat_eqb kind 69) then 3 else 2

abbrev pub is_printable : ℕ → Bool
is_printable c = nat_eqb c 10 || (leb 32 c && leb c 126)

-- How far the byte in front and what belongs to it reach.
abbrev pub step_at : ℕ → Text → ℕ
step_at c s = if nat_eqb c 27 then skip_esc (c ∷ s) else if nat_eqb c 29 then skip_gs (c ∷ s) else 1

-- The loop of `textPreview` over the bytes that are left; every round passes at least one.
unfoldable pub preview_loop : ℕ → Text → Text
preview_loop zero job = []
preview_loop (suc fuel) [] = []
preview_loop (suc fuel) (c ∷ s) =
    let rest = preview_loop fuel (drop (step_at c s) (c ∷ s)) in
    if nat_eqb c 27 || nat_eqb c 29 then rest else if is_printable c then c ∷ rest else rest

abbrev pub trim_left : ℕ → Text → Text
trim_left c [] = []
trim_left c (x ∷ s) = if nat_eqb x c then trim_left c s else x ∷ s

-- `strings.Trim(s, "\n")`
abbrev pub trim_lines : Text → Text
trim_lines s = trim_left 10 (trim_right 10 s)

-- `textPreview`
unfoldable pub text_preview : Text → Text
unfolding preview_loop trim_right
text_preview job =
    let out = trim_lines (preview_loop (length job) job) in
    if no_items out then text "(no printable text, image only)" else out

-- `bytes.HasPrefix` and `bytes.Contains`
unfoldable pub has_prefix : Text → Text → Bool
has_prefix [] s = true
has_prefix (c ∷ p) [] = false
has_prefix (c ∷ p) (x ∷ s) = nat_eqb x c && has_prefix p s

unfoldable pub contains : Text → Text → Bool
unfolding has_prefix
contains p [] = has_prefix p []
contains p (x ∷ s) = has_prefix p (x ∷ s) || contains p s

-- `strings.Join(f, ", ")`, and what `features` says of no names
abbrev name_list : List Text → Text
name_list [] = text "raw bytes"
name_list (s ∷ []) = s
name_list (s ∷ t ∷ ts) = s ++ text ", " ++ name_list (t ∷ ts)

-- `features`
unfoldable pub features : Text → Text
unfolding has_prefix contains
features job = name_list (
    (if has_prefix (27 ∷ 64 ∷ []) job then text "init" ∷ [] else [])
    ++ (if contains (29 ∷ 118 ∷ 48 ∷ []) job then text "logo raster" ∷ [] else [])
    ++ (if contains (27 ∷ 97 ∷ []) job then text "alignment" ∷ [] else [])
    ++ (if contains (27 ∷ 69 ∷ []) job then text "bold" ∷ [] else [])
    ++ (if contains (29 ∷ 86 ∷ []) job then text "paper cut" ∷ [] else []))
