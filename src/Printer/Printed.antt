-- ===== src/Printer/Printed.antt =====
-- internal/printer/receipt.go and cmd/fakeprinter/main.go: what the printer of the test setup shows of a
-- receipt.
use pos_agent.Base.{
  ◌⊎◌, subst, keep_if-append, ℕ, ◌≡◌, refl, sym, ap, ◌∙◌, true, false, not, ◌||◌, Bool, Bool-cases,
  Option-cases, Option, List, [], ◌∷◌, ◌++◌, Text, text, arith, if◌then◌else◌, if_lem, any, keep_if,
  no_items, trim_right, append_assoc, append-nil, inl, inr,
}
use pos_agent.Domain.{Time}
use pos_agent.Base.Int.{ℤ}
use pos_agent.Printer.Escpos.{esc_init, align_center, align_left, feed_and_cut, new_line}
use pos_agent.Printer.Receipt.{
  ReceiptData, Line, write_line, write_lines, logo_bytes, theme_lines, render_receipt,
  chars_for_width, paper_dots,
}
use pos_agent.Printer.Logo.{Image, raster_from_image}
use pos_agent.Printer.Logo.Bounds.{raster-sizes}
use pos_agent.Printer.Fakeprinter.{preview_loop, is_printable, text_preview, trim_lines, trim_left}
use pos_agent.Printer.Fakeprinter.Reading.{
  displayed, is_control, displayed-init, displayed-align, displayed-bold, displayed-size,
  displayed-cut, displayed-raster, displayed-text,
}

-- The lines without their styles.
unfoldable pub text_of : List Line → Text
text_of [] = []
text_of (ln ∷ ls) = (ln.content ++ new_line) ++ text_of ls

-- In front of any job, the piece shows as the text.
record Shows (piece seen : Text) : Type 0 where
  shows : (s : Text) → displayed (piece ++ s) ≡ seen ++ displayed s

Shows-append : {p q u v : Text} → Shows p u → Shows q v → Shows (p ++ q) (u ++ v)
Shows-append {p = p} {q = q} {u = u} {v = v} h k = record {
  shows = λ s.
      ap displayed (append_assoc p q s)
      ∙ h.shows (q ++ s)
      ∙ ap (λ r. u ++ r) (k.shows s)
      ∙ sym (append_assoc u v (displayed s));
}

-- A control sequence after a piece changes nothing.
Shows-append_style : {p q u : Text} → Shows p u → Shows q [] → Shows (p ++ q) u
Shows-append_style {u = u} h k = subst (Shows _) (append-nil u) (Shows-append h k)

Shows-style : {p : Text} → ((s : Text) → displayed (p ++ s) ≡ displayed s) → Shows p []
Shows-style h = record { shows = h }

Shows-nil : Shows [] []
Shows-nil = record { shows = λ s. refl }

Shows-if : (b : Bool) {on : Text} → Shows on [] → Shows (if b then on else []) []
Shows-if b h = if_lem (λ t. Shows t []) b h Shows-nil

Shows-text : (t : Text) → any is_control t ≡ false → Shows t (keep_if is_printable t)
Shows-text t h = record { shows = λ s. displayed-text t s h }

Shows-new_line : Shows new_line new_line
unfolding any keep_if
Shows-new_line = Shows-text new_line refl

Shows-align_center : Shows align_center []
Shows-align_center = Shows-style (displayed-align 1)

Shows-align_left : Shows align_left []
Shows-align_left = Shows-style (displayed-align 0)

Shows-write_line :
    (ln : Line)
    → any is_control ln.content ≡ false
    → Shows (write_line ln) (keep_if is_printable ln.content ++ new_line)
unfolding write_line
Shows-write_line ln h =
    let aligned = if_lem (λ t. Shows t []) ln.center Shows-align_center Shows-align_left in
    let sized = Shows-append aligned (Shows-if ln.double (Shows-style (displayed-size 17))) in
    let styled = Shows-append sized (Shows-if ln.bold (Shows-style (displayed-bold 1))) in
    let row = Shows-append (Shows-append styled (Shows-text ln.content h)) Shows-new_line in
    Shows-append_style (Shows-append_style row (Shows-if ln.bold (Shows-style (displayed-bold 0))))
      (Shows-if ln.double (Shows-style (displayed-size 0)))

any-append : (p : ℕ → Bool) (s t : Text) → any p (s ++ t) ≡ any p s || any p t
unfolding any
any-append p [] t = refl
any-append p (c ∷ s) t = ground (arith, any-append p s t)

Shows-write_lines :
    (ls : List Line)
    → any is_control (text_of ls) ≡ false
    → Shows (write_lines ls) (keep_if is_printable (text_of ls))
unfolding write_lines text_of keep_if
Shows-write_lines [] h = Shows-nil
Shows-write_lines (ln ∷ ls) h =
    let all = any-append is_control (ln.content ++ new_line) (text_of ls) in
    let own = any-append is_control ln.content new_line in
    let both =
      Shows-append (Shows-write_line ln (ground arith)) (Shows-write_lines ls (ground arith)) in
    subst (Shows _)
      (ap (λ t. t ++ keep_if is_printable (text_of ls))
          (sym (keep_if-append is_printable ln.content new_line))
        ∙ sym (keep_if-append is_printable (ln.content ++ new_line) (text_of ls)))
      both

-- A piece that is a whole job.
displayed-job : {job seen : Text} → Shows job seen → displayed job ≡ seen
unfolding preview_loop
displayed-job {job = job} {seen = seen} h =
    ap displayed (sym (append-nil job)) ∙ h.shows [] ∙ append-nil seen

-- A logo that decodes leaves its line break, any other nothing.
Shows-logo :
    (image_decode : Text → Option Image) (file : Text) (mm : ℤ)
    → (seen : Text) × ((seen ≡ []) ⊎ (seen ≡ new_line))
      × Shows (logo_bytes (raster_from_image image_decode file mm)) seen
unfolding logo_bytes
Shows-logo image_decode file mm = elim (Option-cases (raster_from_image image_decode file mm)) [
  | inl failed ↦ ([], inl refl, rw failed Shows-nil)
  | inr (raster, ok) ↦
      let (w, h, bits, e, _, w_small, _, h_small, size) =
        raster-sizes image_decode file raster mm ok in
      let picture : Shows raster [] =
        rw e (Shows-style (λ s. displayed-raster w h bits s (omega arith) (omega arith) size)) in
      (
        new_line,
        inr refl,
        rw ok (
            Shows-append_style
              (Shows-append (Shows-append Shows-align_center picture) Shows-new_line)
              Shows-align_left),
      )
]

no_items-nil : (s : Text) → no_items s ≡ true → s ≡ []
no_items-nil [] h = refl
no_items-nil (c ∷ s) h = ground (arith, h)

Shows-picture :
    (image_decode : Text → Option Image) (file : Text) (mm : ℤ)
    → (seen : Text) × ((seen ≡ []) ⊎ (seen ≡ new_line))
      × Shows
          (if not (no_items file) then logo_bytes (raster_from_image image_decode file mm) else [])
          seen
Shows-picture image_decode [] mm = ([], inl refl, Shows-nil)
Shows-picture image_decode (c ∷ file) mm = Shows-logo image_decode (c ∷ file) mm

trim_lines-first : (s : Text) → trim_lines (10 ∷ s) ≡ trim_lines s
unfolding trim_right
trim_lines-first s = elim (Bool-cases (no_items (trim_right 10 s))) [
  | inl empty ↦
      let nothing : trim_right 10 s ≡ [] = no_items-nil (trim_right 10 s) empty in rw nothing refl
  | inr more ↦ rw more refl
]

trim_right-last : (s : Text) → trim_right 10 (s ++ new_line) ≡ trim_right 10 s
unfolding trim_right
trim_right-last [] = refl
trim_right-last (c ∷ s) = rw (trim_right-last s) refl

trim_lines-padded :
    (p s : Text) → (p ≡ []) ⊎ (p ≡ new_line) → trim_lines (p ++ s ++ new_line) ≡ trim_lines s
trim_lines-padded p s (inl e) = rw e (ap (trim_left 10) (trim_right-last s))
trim_lines-padded p s (inr e) =
    rw e (trim_lines-first (s ++ new_line) ∙ ap (trim_left 10) (trim_right-last s))

-- The preview of a text of printable bytes and line breaks.
abbrev pub as_preview : Text → Text
as_preview seen =
    let out = trim_lines seen in
    if no_items out then text "(no printable text, image only)" else out

module _ (format_when : Time → Text) (trim_space : Text → Text)
    (image_decode : Text → Option Image) where
  -- The printer of the test setup shows of a receipt the printable bytes of its lines, and no more: no
  -- style, control sequence or byte of the logo shows, whatever the theme, the paper and the logo are,
  -- where no text of the receipt holds an ESC or GS byte.
  pub text_preview-render_receipt :
      (d : ReceiptData)
      → let ls = theme_lines format_when trim_space d (chars_for_width d.width_mm) in
        any is_control (text_of ls) ≡ false
        → text_preview (render_receipt format_when trim_space (raster_from_image image_decode) d)
          ≡ as_preview (keep_if is_printable (text_of ls))
  unfolding render_receipt text_preview
  text_preview-render_receipt d h =
      let (seen, breaks, logo) = Shows-picture image_decode d.logo (paper_dots d.width_mm) in
      let ls = theme_lines format_when trim_space d (chars_for_width d.width_mm) in
      let head = Shows-append {p = esc_init} (Shows-style displayed-init) logo in
      let body = Shows-append_style (Shows-append head (Shows-write_lines ls h)) Shows-align_left in
      let job =
        Shows-append_style {q = feed_and_cut} (Shows-append body Shows-new_line)
          (Shows-style (displayed-cut 66 0)) in
      ap as_preview (displayed-job job)
      ∙ ap (λ out. if no_items out then text "(no printable text, image only)" else out)
          (trim_lines-padded seen (keep_if is_printable (text_of ls)) breaks)
