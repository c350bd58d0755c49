-- ===== src/Web/Export/Pdf/Offsets.antt =====
-- internal/web/pdfdoc.go, `assemblePDF`: what the cross-reference table points at.
use Prim.Native.Nat.{zero, suc}
use pos_agent.Base.{
  ◌-◌, ◌^◌, ◌<◌, some, All, arith, repeat, length-append, length-repeat, ℕ, ◌+◌, ◌≡◌, refl, sym, ap,
  ◌∙◌, List, [], ◌∷◌, ◌++◌, Text, text, length, drop, append_assoc, append-nil,
}
use pos_agent.Base.Int.{pos}
use pos_agent.Base.Decimal.{itoa, digits, read_digits, read-digits}
use pos_agent.Base.Decimal.Lengths.{length-digits_upto}
use pos_agent.Web.Export.Pdf.Document.{
  pad10, xref_lines, pdf_objects, object_text, write_objects, xref_and_trailer, assemble_pdf,
}

-- At each offset of the file stands its object, with its number.
abbrev pub AreLocated : ℕ → List Text → List ℕ → Text → Type 0
AreLocated number [] [] file = Unit
AreLocated number [] (at ∷ offsets) file = ⊥
AreLocated number (body ∷ objects) [] file = ⊥
AreLocated number (body ∷ objects) (at ∷ offsets) file =
    ((rest : Text) × (drop at file
        ≡ itoa (pos number) ++ text " 0 obj\n" ++ body ++ text "\nendobj\n" ++ rest))
    × AreLocated (number + 1) objects offsets file

drop-append : (s t : Text) → drop (length s) (s ++ t) ≡ t
drop-append [] t = refl
drop-append (c ∷ s) t = drop-append s t

write_objects-extends :
    (number : ℕ) (buf : Text) (objects : List Text)
    → (more : Text) × ((write_objects number buf objects).0 ≡ buf ++ more)
unfolding write_objects
write_objects-extends number buf [] = ([], sym (append-nil buf))
write_objects-extends number buf (body ∷ objects) =
    let o = object_text number body in
    let (more, h) = write_objects-extends (number + 1) (buf ++ o) objects in
    (o ++ more, h ∙ append_assoc buf o more)

write_objects-AreLocated :
    (number : ℕ) (buf : Text) (objects : List Text) (suffix : Text)
    → AreLocated number objects
        (write_objects number buf objects).1
        ((write_objects number buf objects).0 ++ suffix)
unfolding write_objects
write_objects-AreLocated number buf [] suffix = tt
write_objects-AreLocated number buf (body ∷ objects) suffix =
    let o = object_text number body in
    let (more, h) = write_objects-extends (number + 1) (buf ++ o) objects in
    let starts =
      ap (λ s. drop (length buf) (s ++ suffix)) h
      ∙ ap (drop (length buf))
          (append_assoc (buf ++ o) more suffix ∙ append_assoc buf o (more ++ suffix))
      ∙ drop-append buf (o ++ (more ++ suffix)) in
    ((more ++ suffix, starts), write_objects-AreLocated (number + 1) (buf ++ o) objects suffix)

length-offsets :
    (number : ℕ) (buf : Text) (objects : List Text)
    → length (write_objects number buf objects).1 ≡ length objects
unfolding write_objects
length-offsets number buf [] = refl
length-offsets number buf (body ∷ objects) =
    ap suc (length-offsets (number + 1) (buf ++ object_text number body) objects)

-- The table's entries for these offsets: ten digits, a generation and the mark of an object in use.
abbrev pub AreEntries : List ℕ → Text → Type 0
AreEntries [] table = table ≡ []
AreEntries (at ∷ offsets) table =
    (ten : Text) × (rest : Text) × (table ≡ ten ++ text " 00000 n \n" ++ rest)
    × (length ten ≡ 10)
    × (read_digits 0 ten ≡ some at)
    × AreEntries offsets rest

-- A file of these objects, as a reader needs it: the offset at its end is that of the table, the table
-- lists an offset for each object, and there the object stands.
abbrev pub IsReadable : List Text → Text → Type 0
IsReadable objects file =
    (table_at : ℕ) × (offsets : List ℕ) × (table : Text) × AreLocated 1 objects offsets file
    × AreEntries offsets table
    × (drop table_at file
        ≡ text "xref\n0 "
          ++ itoa (pos (length objects + 1))
          ++ text "\n0000000000 65535 f \n"
          ++ table
          ++ text "trailer\n<< /Size "
          ++ itoa (pos (length objects + 1))
          ++ text " /Root 1 0 R >>\nstartxref\n"
          ++ itoa (pos table_at)
          ++ text "\n%%EOF\n")

read-zeros : (k : ℕ) (s : Text) → read_digits 0 (repeat b'0' k ++ s) ≡ read_digits 0 s
unfolding read_digits repeat
read-zeros zero s = refl
read-zeros (suc k) s = read-zeros k s

pad10-digits : (n : ℕ) → n < 10 ^ 10 → (length (pad10 n) ≡ 10) × (read_digits 0 (pad10 n) ≡ some n)
unfolding itoa digits
pad10-digits n h =
    let s = digits n in
    let few = length-digits_upto 9 (suc n) n (omega arith) in
    let zeros = length-repeat b'0' (10 - length s) in
    let all = length-append (repeat b'0' (10 - length s)) s in
    (omega arith, read-zeros (10 - length s) s ∙ read-digits n)

xref_lines-AreEntries :
    (offsets : List ℕ) → All (λ at. at < 10 ^ 10) offsets → AreEntries offsets (xref_lines offsets)
xref_lines-AreEntries [] h = refl
xref_lines-AreEntries (at ∷ offsets) (small, h) =
    let (ten, shown) = pad10-digits at small in
    (pad10 at, xref_lines offsets, refl, ten, shown, xref_lines-AreEntries offsets h)

offsets-lt :
    (number : ℕ) (buf : Text) (objects : List Text) (most : ℕ)
    → length (write_objects number buf objects).0 < most
    → All (λ at. at < most) (write_objects number buf objects).1
unfolding write_objects
offsets-lt number buf [] most h = tt
offsets-lt number buf (body ∷ objects) most h =
    let o = object_text number body in
    let (more, e) = write_objects-extends (number + 1) (buf ++ o) objects in
    let grown = ap length e in
    let all = length-append (buf ++ o) more in
    let here = length-append buf o in
    (omega arith, offsets-lt (number + 1) (buf ++ o) objects most h)

-- Whatever the pages hold, a reader can follow the PDF, where it has fewer than 10^10 bytes: the number
-- behind `startxref` is the offset of the table, the table has one entry of 20 bytes for each object,
-- and the ten digits of an entry read as the offset at which the object of that number stands.
pub assemble_pdf-IsReadable :
    (streams : List Text)
    → length (assemble_pdf streams) < 10 ^ 10
    → IsReadable (pdf_objects streams) (assemble_pdf streams)
unfolding assemble_pdf xref_and_trailer
assemble_pdf-IsReadable streams small =
    let objects = pdf_objects streams in
    let start = text "%PDF-1.4\n" in
    let written = write_objects 1 start objects in
    let table_at = length written.0 in
    let rest = xref_and_trailer table_at written.1 in
    let whole = length-append written.0 rest in
    let count = ap (λ n. itoa (pos (n + 1))) (length-offsets 1 start objects) in
    (
      table_at,
      written.1,
      xref_lines written.1,
      write_objects-AreLocated 1 start objects rest,
      xref_lines-AreEntries written.1 (offsets-lt 1 start objects (10 ^ 10) (omega arith)),
      drop-append written.0 rest ∙ rw count refl,
    )
