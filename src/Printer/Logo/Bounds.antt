-- ===== src/Printer/Logo/Bounds.antt =====
-- internal/printer/logo.go: the printed logo stays within its limits, and its header tells its size.
use Prim.Native.Nat.{zero, suc}
use native.Mathlib.Nat.{div-lt_iff_lt-mul, le-div_iff_mul-le}
use pos_agent.Base.{
  ℕ, ◌*◌, ◌/◌, ◌%◌, ◌^◌, ◌<◌, ◌≤◌, ◌≡◌, refl, sym, ltb, leb, Bool-cases, inl, inr, ◌||◌, arith,
  Option, some, Option-cases, length, length-append, Text, if◌then◌else◌,
}
use pos_agent.Base.Int.{ℤ}
use pos_agent.Printer.Logo.{
  Image, Size, int_product, whole_bytes, dots_limit, target_size, rows_from, row_from,
  raster_from_image, raster_command,
}

-- What the printer is sent: at most 48 bytes across and 320 rows down, and at least one of each.
abbrev pub SizeIsPrintable : Size → Type 0
SizeIsPrintable s = (8 ≤ s.across) × (s.across ≤ 384) × (1 ≤ s.down) × (s.down ≤ 320)

mod-le : (n : ℕ) → (let r = n % 2 ^ 32 in if ltb r (2 ^ 31) then r else 0) ≤ n
mod-le n = ground arith

int_product-le : (a b : ℕ) → int_product a b ≤ a * b
int_product-le a b = mod-le (a * b)

dots_limit-le : (mm : ℤ) → dots_limit mm ≤ 384
dots_limit-le mm = ground arith

-- A logo that comes out too high is narrower at the height that is allowed.
narrower :
    (src_w src_h tw : ℕ)
    → 0 < src_w
    → 0 < src_h
    → 320 < int_product src_h tw / src_w
    → int_product src_w 320 / src_h < tw
narrower src_w src_h tw some_w some_h high =
    let a = int_product-le src_h tw in
    let b = int_product-le src_w 320 in
    let c = (le-div_iff_mul-le some_w).0 high in (div-lt_iff_lt-mul some_h).1 (grind arith)

pub target_size-SizeIsPrintable :
    (src_w src_h : ℕ) (max_width_dots : ℤ)
    → 0 < src_w
    → 0 < src_h
    → SizeIsPrintable (target_size src_w src_h max_width_dots)
unfolding target_size
target_size-SizeIsPrintable src_w src_h max_width_dots some_w some_h =
    let limit = dots_limit max_width_dots in
    let limited = dots_limit-le max_width_dots in
    let tw = whole_bytes (if ltb limit src_w then limit else src_w) in
    elim (Bool-cases (ltb 320 (int_product src_h tw / src_w))) [
      | inl high ↦
          let less = narrower src_w src_h tw some_w some_h (ground arith) in rw high (ground arith)
      | inr low ↦ rw low (ground arith)
    ]

length-row_from : (img : Image) (size : Size) (y j n : ℕ) → length (row_from img size y j n) ≡ n
unfolding row_from
length-row_from img size y j zero = refl
length-row_from img size y j (suc n) = let h = length-row_from img size y (suc j) n in omega arith

pub length-rows_from :
    (img : Image) (size : Size) (y n : ℕ) → length (rows_from img size y n) ≡ size.across / 8 * n
unfolding rows_from
length-rows_from img size y zero = omega arith
length-rows_from img size y (suc n) =
    let row = length-row_from img size y 0 (size.across / 8) in
    let rest = length-rows_from img size (suc y) n in
    let both =
      length-append (row_from img size y 0 (size.across / 8)) (rows_from img size (suc y) n) in
    grind arith

some_injective {ℓ} : {A : Type ℓ} {a b : A} → some a ≡ some b → a ≡ b
some_injective e = ground (arith, e)

-- A raster is the command of its size, with the bytes that the size announces.
pub raster-sizes :
    (image_decode : Text → Option Image) (file raster : Text) (mm : ℤ)
    → raster_from_image image_decode file mm ≡ some raster
    → (w : ℕ) × (h : ℕ) × (bits : Text) × (raster ≡ raster_command w h bits)
      × (1 ≤ w)
      × (w ≤ 48)
      × (1 ≤ h)
      × (h ≤ 320)
      × (length bits ≡ w * h)
unfolding raster_from_image
raster-sizes image_decode file raster mm h = elim (Option-cases (image_decode file)) [
  | inl failed ↦ absurd (let e = rw (failed, raster_from_image) at h in ground (arith, e))
  | inr (img, ok) ↦ elim (Bool-cases (leb img.width 0 || leb img.height 0)) [
    | inl empty ↦ absurd (let e = rw (ok, empty, raster_from_image) at h in ground (arith, e))
    | inr sides ↦
        let e = rw (ok, sides, raster_from_image) at h in
        let size = target_size img.width img.height mm in
        let (a, b, c, d) =
          target_size-SizeIsPrintable img.width img.height mm (ground arith) (ground arith) in
        (
          size.across / 8,
          size.down,
          rows_from img size 0 size.down,
          sym (some_injective e),
          omega arith,
          omega arith,
          c,
          d,
          length-rows_from img size 0 size.down,
        )
  ]
]
