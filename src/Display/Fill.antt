-- ===== src/Display/Fill.antt =====
-- The colours and the `fill_buffer_*` functions of app/demos/display/src/main.c, on a machine that
-- stores words low byte first. A store outside the buffer is a fault, `none`.
use zephyr_start.Base.{
  List, Option, [], if◌then◌else◌, length, ltb, none, replicate, set, some, suc, zero, ℕ, ◌%◌, ◌*◌,
  ◌+◌, ◌/◌, ◌==◌, ◌^◌, ◌∷◌,
}
use Prim.Native.Nat.{bit_or}

pub data Corner : Type 0 where
  top_left top_right bottom_right bottom_left : Corner

-- `grey << 16 | grey << 8 | grey`
unfoldable pub grey24 : ℕ → ℕ
grey24 grey = bit_or (bit_or (grey * 2 ^ 16) (grey * 2 ^ 8)) grey

unfoldable pub color24 : Corner → ℕ → ℕ
unfolding grey24
color24 top_left grey = 0x00FF0000
color24 top_right grey = 0x0000FF00
color24 bottom_right grey = 0x000000FF
color24 bottom_left grey = grey24 grey

-- `grey & 0x1F` in red and blue, one bit further in green.
unfoldable pub grey565 : ℕ → ℕ
grey565 grey =
    let grey_5bit = grey % 32 in bit_or (bit_or (grey_5bit * 2 ^ 11) (grey_5bit * 2 ^ 6)) grey_5bit

unfoldable pub get_rgb565_color : Corner → ℕ → ℕ
unfolding grey565
get_rgb565_color top_left grey = 0xF800
get_rgb565_color top_right grey = 0x07E0
get_rgb565_color bottom_right grey = 0x001F
get_rgb565_color bottom_left grey = grey565 grey

unfoldable pub store : ℕ → ℕ → List ℕ → Option (List ℕ)
store i v buf = if ltb i (length buf) then some (set buf i v) else none

-- Bytes at consecutive indices.
unfoldable pub store_all : List ℕ → ℕ → List ℕ → Option (List ℕ)
store_all [] i buf = some buf
store_all (x ∷ xs) i buf = elim (store i x buf) [
  | none ↦ none
  | some buf' ↦ store_all xs (i + 1) buf'
]

-- `for (idx = 0; idx < buf_size; idx += step)` with the stores of one pixel as its body, and as
-- many rounds at most as the buffer has bytes.
unfoldable pub fill_loop : ℕ → ℕ → List ℕ → ℕ → ℕ → List ℕ → Option (List ℕ)
fill_loop zero step pixel idx buf_size buf = some buf
fill_loop (suc rounds) step pixel idx buf_size buf =
    if ltb idx buf_size
    then (elim (store_all pixel idx buf) [
      | none ↦ none
      | some buf' ↦ fill_loop rounds step pixel (idx + step) buf_size buf'
    ])
    else some buf

-- The bytes of a pixel in the order of the buffer.
unfoldable pub pixel_argb8888 : ℕ → List ℕ
pixel_argb8888 c = c % 256 ∷ c / 2 ^ 8 % 256 ∷ c / 2 ^ 16 % 256 ∷ c / 2 ^ 24 % 256 ∷ []

unfoldable pub pixel_rgb888 : ℕ → List ℕ
pixel_rgb888 c = c / 2 ^ 16 % 256 ∷ c / 2 ^ 8 % 256 ∷ c % 256 ∷ []

unfoldable pub pixel_rgb565 : ℕ → List ℕ
pixel_rgb565 c = c / 2 ^ 8 % 256 ∷ c % 256 ∷ []

unfoldable pub pixel_bgr565 : ℕ → List ℕ
pixel_bgr565 c = c % 256 ∷ c / 2 ^ 8 % 256 ∷ []

unfoldable pub fill_buffer_argb8888 : Corner → ℕ → List ℕ → ℕ → Option (List ℕ)
fill_buffer_argb8888 corner grey buf buf_size =
    fill_loop buf_size 4 (pixel_argb8888 (color24 corner grey)) 0 buf_size buf

unfoldable pub fill_buffer_rgb888 : Corner → ℕ → List ℕ → ℕ → Option (List ℕ)
fill_buffer_rgb888 corner grey buf buf_size =
    fill_loop buf_size 3 (pixel_rgb888 (color24 corner grey)) 0 buf_size buf

unfoldable pub fill_buffer_rgb565 : Corner → ℕ → List ℕ → ℕ → Option (List ℕ)
fill_buffer_rgb565 corner grey buf buf_size =
    fill_loop buf_size 2 (pixel_rgb565 (get_rgb565_color corner grey)) 0 buf_size buf

unfoldable pub fill_buffer_bgr565 : Corner → ℕ → List ℕ → ℕ → Option (List ℕ)
fill_buffer_bgr565 corner grey buf buf_size =
    fill_loop buf_size 2 (pixel_bgr565 (get_rgb565_color corner grey)) 0 buf_size buf

unfoldable pub mono_color : Corner → ℕ → ℕ → ℕ → ℕ
mono_color bottom_left grey black white = if grey % 2 == 0 then black else white
mono_color _ grey black white = black

-- `memset`
unfoldable pub fill_buffer_mono : Corner → ℕ → ℕ → ℕ → List ℕ → ℕ → Option (List ℕ)
unfolding mono_color
fill_buffer_mono corner grey black white buf buf_size =
    store_all (replicate buf_size (mono_color corner grey black white)) 0 buf

unfoldable pub fill_buffer_mono01 : Corner → ℕ → List ℕ → ℕ → Option (List ℕ)
fill_buffer_mono01 corner grey buf buf_size = fill_buffer_mono corner grey 0x00 0xFF buf buf_size

unfoldable pub fill_buffer_mono10 : Corner → ℕ → List ℕ → ℕ → Option (List ℕ)
fill_buffer_mono10 corner grey buf buf_size = fill_buffer_mono corner grey 0xFF 0x00 buf buf_size
