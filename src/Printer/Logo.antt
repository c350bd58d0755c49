-- ===== src/Printer/Logo.antt =====
-- internal/printer/logo.go: the raster of a logo. The decoding of image files is a parameter; an `int`
-- has the 32 bits of the released builds.
pub mod Bounds
use Prim.Native.Nat.{zero, suc}
use pos_agent.Base.{
  ℕ, ◌+◌, ◌-◌, ◌*◌, ◌/◌, ◌%◌, ◌^◌, Bool, true, false, Option, none, some, [], ◌∷◌, ◌++◌, Text,
  if◌then◌else◌, ltb, leb, ◌||◌,
}
use pos_agent.Base.Int.{ℤ, pos, ◌*ℤ◌, wrap32, add32, quot, ltb_ℤ, pos_part}

-- The channels of `color.Color.RGBA`
pub record Rgba : Type 0 where
  pub red : ℕ
  pub green : ℕ
  pub blue : ℕ
  pub alpha : ℕ

-- `image.Image`: the corner and the sides of its bounds, and its dots.
pub record Image : Type 0 where
  pub min_x : ℤ
  pub min_y : ℤ
  pub width : ℕ
  pub height : ℕ
  pub color : ℤ → ℤ → Rgba

abbrev pub logo_max_width_dots : ℕ
logo_max_width_dots = 384

abbrev pub logo_max_height_dots : ℕ
logo_max_height_dots = 320

-- A product of two sides in an `int`. One that wraps to a negative number is 0 here: both callers
-- raise either to their least size.
abbrev pub int_product : ℕ → ℕ → ℕ
int_product a b = let r = (a * b) % 2 ^ 32 in if ltb r (2 ^ 31) then r else 0

-- `n &^ 7`, and 8 where that is less
abbrev pub whole_bytes : ℕ → ℕ
whole_bytes n = let tw = n / 8 * 8 in if ltb tw 8 then 8 else tw

abbrev at_least_one : ℕ → ℕ
at_least_one n = if ltb n 1 then 1 else n

pub record Size : Type 0 where
  pub across : ℕ
  pub down : ℕ

-- The width that is allowed; an unusable one counts as the largest.
abbrev pub dots_limit : ℤ → ℕ
dots_limit max_width_dots =
    if ltb_ℤ (pos 0) max_width_dots
    then (if ltb_ℤ (pos logo_max_width_dots) max_width_dots
        then logo_max_width_dots
        else pos_part max_width_dots)
    else logo_max_width_dots

-- The size in dots of the printed logo.
unfoldable pub target_size : ℕ → ℕ → ℤ → Size
target_size src_w src_h max_width_dots =
    let limit = dots_limit max_width_dots in
    let tw = whole_bytes (if ltb limit src_w then limit else src_w) in
    let th = int_product src_h tw / src_w in
    if ltb logo_max_height_dots th
    then record {
      across = whole_bytes (int_product src_w logo_max_height_dots / src_h);
      down = logo_max_height_dots;
    }
    else record { across = tw; down = at_least_one th }

-- A dot that is not transparent and dark takes ink.
abbrev is_ink : Rgba → Bool
is_ink c =
    if ltb c.alpha 32768
    then false
    else ltb ((299 * c.red + 587 * c.green + 114 * c.blue) % 2 ^ 32 / 1000) 32768

module _ (img : Image) (size : Size) where
  -- The dot of the image for column `x` of row `y`.
  abbrev ink_at : ℕ → ℕ → Bool
  ink_at y x =
      let sy = add32 img.min_y (quot (wrap32 (pos y *ℤ pos img.height)) (pos size.down)) in
      let sx = add32 img.min_x (quot (wrap32 (pos x *ℤ pos img.width)) (pos size.across)) in
      is_ink (img.color sx sy)

  -- The byte of the eight columns from `x`, most significant bit first, for the `n` columns that are left.
  unfoldable bits_from : ℕ → ℕ → ℕ → ℕ
  bits_from y x zero = 0
  bits_from y x (suc n) = (if ink_at y x then 2 ^ n else 0) + bits_from y (suc x) n

  -- The bytes of row `y`, for the `n` bytes from byte `j`.
  unfoldable row_from : ℕ → ℕ → ℕ → Text
  unfolding bits_from
  row_from y j zero = []
  row_from y j (suc n) = bits_from y (j * 8) 8 ∷ row_from y (suc j) n

  -- The rows from `y`, `n` of them.
  unfoldable pub rows_from : ℕ → ℕ → Text
  unfolding row_from
  rows_from y zero = []
  rows_from y (suc n) = row_from y 0 (size.across / 8) ++ rows_from (suc y) n

-- The bytes of `GS v 0` for a size and its bitmap.
unfoldable pub raster_command : ℕ → ℕ → Text → Text
raster_command bytes_per_row th bits =
    29
    ∷ 118
    ∷ 48
    ∷ 0
    ∷ bytes_per_row % 256
    ∷ bytes_per_row / 256 % 256
    ∷ th % 256
    ∷ th / 256 % 256
    ∷ bits

-- `rasterFromImage`, with `none` for its errors
unfoldable pub raster_from_image : (Text → Option Image) → Text → ℤ → Option Text
unfolding target_size rows_from raster_command
raster_from_image image_decode file max_width_dots = elim (image_decode file) [
  | none ↦ none
  | some img ↦
      if leb img.width 0 || leb img.height 0
      then none
      else let size = target_size img.width img.height max_width_dots in
        some (raster_command (size.across / 8) size.down (rows_from img size 0 size.down))
]
