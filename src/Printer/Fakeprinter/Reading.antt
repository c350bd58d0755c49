-- ===== src/Printer/Fakeprinter/Reading.antt =====
-- cmd/fakeprinter/main.go, `textPreview`: what it makes of each piece of a job.
use Prim.Native.Nat.{zero, suc}
use pos_agent.Base.{
  ℕ, ◌+◌, ◌*◌, ◌/◌, ◌%◌, ◌<◌, ◌≤◌, ◌≡◌, refl, ◌∙◌, ap, sym, false, ◌||◌, Bool, [], ◌∷◌, ◌++◌, Text,
  arith, if◌then◌else◌, nat_eqb, length, drop, any, keep_if, length-drop,
}
use pos_agent.Printer.Fakeprinter.{skip_gs, skip_esc, step_at, is_printable, preview_loop}
use pos_agent.Printer.Logo.{raster_command}

step-positive : (c : ℕ) (s : Text) → 1 ≤ step_at c s
unfolding skip_gs skip_esc
step-positive c s = ground arith

-- Enough fuel is as good as more.
pub preview_loop-enough :
    (f g : ℕ) (s : Text) → length s ≤ f → length s ≤ g → preview_loop f s ≡ preview_loop g s
unfolding preview_loop
preview_loop-enough zero zero s h k = refl
preview_loop-enough zero (suc g) [] h k = refl
preview_loop-enough zero (suc g) (c ∷ s) h k = absurd (omega arith)
preview_loop-enough (suc f) zero [] h k = refl
preview_loop-enough (suc f) zero (c ∷ s) h k = absurd (omega arith)
preview_loop-enough (suc f) (suc g) [] h k = refl
preview_loop-enough (suc f) (suc g) (c ∷ s) h k =
    let n = step_at c s in
    let moves = step-positive c s in
    let left = length-drop n (c ∷ s) in
    rw (preview_loop-enough f g (drop n (c ∷ s)) (omega arith) (omega arith)) refl

-- The bytes that the printer shows of a job.
abbrev pub displayed : Text → Text
displayed job = preview_loop (length job) job

displayed-step :
    (c : ℕ) (s t : Text)
    → drop (step_at c s) (c ∷ s) ≡ t
    → displayed (c ∷ s) ≡ (
        if nat_eqb c 27 || nat_eqb c 29
        then displayed t
        else if is_printable c
        then c ∷ displayed t
        else displayed t)
unfolding preview_loop
displayed-step c s t e =
    let moves = step-positive c s in
    let left = length-drop (step_at c s) (c ∷ s) in
    let shorter : length t ≤ length s = let same = ap length e in omega arith in
    let after =
      ap (preview_loop (length s)) e
      ∙ preview_loop-enough (length s) (length t) t shorter (omega arith) in
    rw after refl

-- ESC and GS start a control sequence.
abbrev pub is_control : ℕ → Bool
is_control c = nat_eqb c 27 || nat_eqb c 29

pub displayed-init : (s : Text) → displayed (27 ∷ 64 ∷ s) ≡ displayed s
unfolding skip_esc
displayed-init s = displayed-step 27 (64 ∷ s) s (ground arith)

pub displayed-align : (n : ℕ) (s : Text) → displayed (27 ∷ 97 ∷ n ∷ s) ≡ displayed s
unfolding skip_esc
displayed-align n s = displayed-step 27 (97 ∷ n ∷ s) s (ground arith)

pub displayed-bold : (n : ℕ) (s : Text) → displayed (27 ∷ 69 ∷ n ∷ s) ≡ displayed s
unfolding skip_esc
displayed-bold n s = displayed-step 27 (69 ∷ n ∷ s) s (ground arith)

pub displayed-size : (n : ℕ) (s : Text) → displayed (29 ∷ 33 ∷ n ∷ s) ≡ displayed s
unfolding skip_gs
displayed-size n s = displayed-step 29 (33 ∷ n ∷ s) s (ground arith)

pub displayed-cut : (m n : ℕ) (s : Text) → displayed (29 ∷ 86 ∷ m ∷ n ∷ s) ≡ displayed s
unfolding skip_gs
displayed-cut m n s = displayed-step 29 (86 ∷ m ∷ n ∷ s) s (ground arith)

drop-length : (s t : Text) → drop (length s) (s ++ t) ≡ t
drop-length [] t = refl
drop-length (c ∷ s) t = drop-length s t

skip_gs-raster :
    (w h : ℕ) (rest : Text)
    → w < 65536
    → h < 65536
    → skip_gs (raster_command w h rest) ≡ suc (suc (suc (suc (suc (suc (suc (suc (w * h))))))))
unfolding raster_command skip_gs
skip_gs-raster w h rest small_w small_h =
    let columns : w % 256 + w / 256 % 256 * 256 ≡ w = omega arith in
    let rows : h % 256 + h / 256 % 256 * 256 ≡ h = omega arith in
    let eight : 8 + w * h ≡ suc (suc (suc (suc (suc (suc (suc (suc (w * h)))))))) = omega arith in
    rw (columns, rows) (ground arith)

pub displayed-raster :
    (w h : ℕ) (bits s : Text)
    → w < 65536
    → h < 65536
    → length bits ≡ w * h
    → displayed (raster_command w h bits ++ s) ≡ displayed s
unfolding raster_command
displayed-raster w h bits s small_w small_h size =
    let skips = skip_gs-raster w h (bits ++ s) small_w small_h in
    displayed-step 29 _ s (rw (skips, sym size) (drop-length bits s))

pub displayed-text :
    (t s : Text)
    → any is_control t ≡ false
    → displayed (t ++ s) ≡ keep_if is_printable t ++ displayed s
unfolding keep_if any
displayed-text [] s h = refl
displayed-text (c ∷ t) s h =
    let rest = displayed-text t s (ground arith) in
    displayed-step c (t ++ s) (t ++ s) (ground arith) ∙ ground arith
