-- ===== src/Thumbnails.antt =====
-- internal/tasks/vm_thumbnail.go: collectVMThumbnails and the pixels of rgb565ToJPEG. A byte is a number; the
-- writing of a JPEG and the decoding of base64 are parameters. Shifts and masks are divisions and remainders.
pub mod Pixels
use Prim.Native.Nat.{◌%◌}
use open_v_center_agent_hype.Base.{
  ℕ, zero, suc, ◌+◌, ◌-◌, ◌*◌, ◌/◌, String, Option, none, some, List, [], ◌∷◌, if◌then◌else◌, ltb,
  length, ◌==◌,
}

pub record Pixel : Type 0 where
  pub red : ℕ
  pub green : ℕ
  pub blue : ℕ
  pub alpha : ℕ

-- An element of a slice, and a slice without its first elements.
abbrev pub get_elem? : List ℕ → ℕ → Option ℕ
get_elem? [] i = none
get_elem? (x ∷ xs) zero = some x
get_elem? (x ∷ xs) (suc i) = get_elem? xs i

abbrev pub skip_first : ℕ → List ℕ → List ℕ
skip_first zero xs = xs
skip_first (suc n) [] = []
skip_first (suc n) (x ∷ xs) = skip_first n xs

-- The high bits of a channel are repeated in its low bits; the parts have no bit in common.
unfoldable pub expand : ℕ → Pixel
expand v = record {
  red = (v / 2048 * 8 + v / 2048 / 4) % 256;
  green = (v / 32 % 64 * 4 + v / 32 % 64 / 16) % 256;
  blue = (v % 32 * 8 + v % 32 / 4) % 256;
  alpha = 255;
}

abbrev pixel_of : Option ℕ → Option ℕ → Option Pixel
pixel_of none high = none
pixel_of (some low) none = none
pixel_of (some low) (some high) = some (expand (low + 256 * high))

-- The pixel of the column x and the row y, `none` where the index is out of range.
unfoldable pub pixel_at : List ℕ → ℕ → ℕ → ℕ → Option Pixel
pixel_at raw width x y =
    pixel_of (get_elem? raw ((y * width + x) * 2)) (get_elem? raw ((y * width + x) * 2 + 1))

-- What is left of a buffer that holds a frame, after its header.
unfoldable pub frame_of : ℕ → ℕ → List ℕ → Option (List ℕ)
frame_of width height raw =
    if ltb (length raw) (width * height * 2)
    then none
    else some (skip_first (length raw - width * height * 2) raw)

unfoldable pub thumbnail_width : ℕ
thumbnail_width = 320

unfoldable pub thumbnail_height : ℕ
thumbnail_height = 240

-- One entry of the output: the id, and the frame, `none` where it is no base64.
pub record VmThumbnailRaw : Type 0 where
  pub id : String
  pub bytes : Option (List ℕ)

-- `encode` makes the image of the pixels of a frame, and fails with `none`.
module _ (to_lower : String → String) (encode : (ℕ → ℕ → Option Pixel) → Option String) where
  abbrev of_frame : Option (List ℕ) → Option String
  of_frame none = none
  of_frame (some raw) = encode (pixel_at raw thumbnail_width)

  abbrev pub converted : Option (List ℕ) → Option String
  converted none = none
  converted (some bytes) = of_frame (frame_of thumbnail_width thumbnail_height bytes)

  abbrev put : String → Option String → (String → Option String) → String → Option String
  put key none m k = m k
  put key (some image) m k = if k == key then some image else m k

  -- The images by the ids in small letters; an entry that fails is left out.
  unfoldable pub collect_vm_thumbnails :
      List VmThumbnailRaw → (String → Option String) → String → Option String
  collect_vm_thumbnails [] m = m
  collect_vm_thumbnails (r ∷ rs) m =
      collect_vm_thumbnails rs (put (to_lower r.id) (converted r.bytes) m)
