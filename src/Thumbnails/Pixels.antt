-- ===== src/Thumbnails/Pixels.antt =====
-- internal/tasks/vm_thumbnail.go: the indices and the channels of rgb565ToJPEG.
use native.Mathlib.Nat.{mul-le-mul_right}
use open_v_center_agent_hype.Base.{
  ℕ, zero, suc, ◌+◌, ◌-◌, ◌*◌, ◌/◌, ◌≤◌, ◌<◌, ◌≡◌, refl, ap, Bool, true, some, List, [], ◌∷◌, ltb,
  length, arith, ◌&&◌, nat_eq, ◌∙◌,
}
use open_v_center_agent_hype.Thumbnails.{Pixel, get_elem?, skip_first, expand, pixel_at, frame_of}

-- The 16 bits that a pixel stands for.
abbrev pub to_565 : Pixel → ℕ
to_565 p = p.red / 8 * 2048 + p.green / 4 * 32 + p.blue / 8

-- The channels are bytes.
abbrev pub are_bytes : Pixel → Bool
are_bytes p = ltb p.red 256 && ltb p.green 256 && ltb p.blue 256 && nat_eq p.alpha 255

expand-to_565 : (v : ℕ) → v < 65536 → to_565 (expand v) ≡ v
unfolding expand
expand-to_565 v h = omega arith

get_elem-skip_first : (n i : ℕ) (xs : List ℕ) → get_elem? (skip_first n xs) i ≡ get_elem? xs (i + n)
get_elem-skip_first zero i xs = ap (get_elem? xs) (omega arith)
get_elem-skip_first (suc n) i [] = refl
get_elem-skip_first (suc n) i (x ∷ xs) =
    let later : suc (i + n) ≡ i + suc n = omega arith in
    get_elem-skip_first n i xs ∙ ap (get_elem? (x ∷ xs)) later

get_elem-in : (xs : List ℕ) (i : ℕ) → i < length xs → (b : ℕ) × (get_elem? xs i ≡ some b)
get_elem-in [] i h = ground (arith, h)
get_elem-in (x ∷ xs) zero h = (x, refl)
get_elem-in (x ∷ xs) (suc i) h = get_elem-in xs i (omega arith)

row_bound : (w h x y : ℕ) → x < w → y < h → y * w + x < w * h
row_bound w h x y a b = omega (arith, mul-le-mul_right w b)

expand-are_bytes : (v : ℕ) → are_bytes (expand v) ≡ true
unfolding expand
expand-are_bytes v = ground arith

abbrev pub bounded : List ℕ → Bool
bounded [] = true
bounded (x ∷ xs) = ltb x 256 && bounded xs

get_elem-bounded : (xs : List ℕ) (i b : ℕ) → bounded xs ≡ true → get_elem? xs i ≡ some b → b < 256
get_elem-bounded [] i b h e = ground (arith, e)
get_elem-bounded (x ∷ xs) zero b h e = ground (arith, h, e)
get_elem-bounded (x ∷ xs) (suc i) b h e = get_elem-bounded xs i b (ground (arith, h)) e

-- In a buffer of bytes that is at least as long as a frame, every pixel of the frame is in range: its bytes
-- are the two that stand at its place in the last bytes of the buffer. Its channels are bytes, it is
-- opaque, and its colour is rounded back to the 16 bits that it was made from.
pub pixel_at-frame_of :
    (raw : List ℕ) (width height x y : ℕ)
    → bounded raw ≡ true
    → width * height * 2 ≤ length raw
    → x < width
    → y < height
    → (rest : List ℕ) × (low : ℕ) × (high : ℕ) × (frame_of width height raw ≡ some rest)
      × (get_elem? raw ((y * width + x) * 2 + (length raw - width * height * 2)) ≡ some low)
      × (get_elem? raw ((y * width + x) * 2 + 1 + (length raw - width * height * 2)) ≡ some high)
      × (pixel_at rest width x y ≡ some (expand (low + 256 * high)))
      × (to_565 (expand (low + 256 * high)) ≡ low + 256 * high)
      × (are_bytes (expand (low + 256 * high)) ≡ true)
unfolding frame_of pixel_at
pixel_at-frame_of raw width height x y bytes long a b =
    let i = (y * width + x) * 2 in
    let skip = length raw - width * height * 2 in
    let inside = row_bound width height x y a b in
    let (low, at_low) = get_elem-in raw (i + skip) (omega (arith, inside)) in
    let (high, at_high) = get_elem-in raw (i + 1 + skip) (omega (arith, inside)) in
    let l = get_elem-bounded raw (i + skip) low bytes at_low in
    let h = get_elem-bounded raw (i + 1 + skip) high bytes at_high in
    (
      skip_first skip raw,
      low,
      high,
      ground (arith, long),
      at_low,
      at_high,
      rw (get_elem-skip_first skip i raw ∙ at_low, get_elem-skip_first skip (i + 1) raw ∙ at_high)
          refl,
      expand-to_565 (low + 256 * high) (omega arith),
      expand-are_bytes (low + 256 * high),
    )
