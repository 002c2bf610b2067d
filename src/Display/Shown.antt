-- ===== src/Display/Shown.antt =====
-- What the buffer holds whenever `main` of app/demos/display/src/main.c writes it to the display.
use zephyr_start.Base.{
  ==→eq, Bool-cases, List, [], ap, arith, get_or-replicate, if◌then◌else◌, inl, inr, length,
  length-replicate, map, refl, replicate, some, suc, true, zero, ℕ, ◌%◌, ◌*◌, ◌++◌, ◌+◌, ◌/◌, ◌<◌,
  ◌==◌, ◌^◌, ◌∙◌, ◌∷◌, ◌≡◌, ◌≢◌, ◌≤◌,
}
use zephyr_start.Display.Pixels.{pixel_of}
use zephyr_start.Display.Layout.{
  Act, Capabilities, PixelFormat, Write, argb_8888, bg_color, bgr_565, blanked_off, buffer_pixels,
  bytes_of, corner_write, draw, filled, grey_rounds, grey_write, layout, mono01, mono10, rgb_565,
  rgb_888, set_all, drawn, main, wrote, other,
}
use zephyr_start.Display.Fill.{
  bottom_left, bottom_right, color24, get_rgb565_color, grey24, grey565, mono_color, pixel_argb8888,
  pixel_bgr565, pixel_rgb565, pixel_rgb888,
}
use zephyr_start.Display.Bounds.{Covers, clear_loop_lem}
use zephyr_start.Display.Acts.{
  Paint, Shows, background, bytes_of-whole, expected, painted, perform, perform_lem,
}

-- The bytes of a blue pixel, as the formats lay out their channels: blue first or last among three or
-- four channels of a byte each, or in the low five bits of a word whose bytes stand in either order;
-- black where there is one bit for a pixel.
abbrev pub blue_bytes : PixelFormat → List ℕ
blue_bytes argb_8888 = 0xFF ∷ 0 ∷ 0 ∷ 0 ∷ []
blue_bytes rgb_888 = 0 ∷ 0 ∷ 0xFF ∷ []
blue_bytes rgb_565 = 0 ∷ 31 ∷ []
blue_bytes bgr_565 = 31 ∷ 0 ∷ []
blue_bytes mono01 = 0 ∷ []
blue_bytes mono10 = 0xFF ∷ []
blue_bytes other = []

-- Those of a grey of eight bits: the same in each channel; in words of 16 bits its low five bits in
-- each, one place further up in green, which has six; black and white in turn where there is one bit.
abbrev pub grey_bytes : PixelFormat → ℕ → List ℕ
grey_bytes argb_8888 g = g ∷ g ∷ g ∷ 0 ∷ []
grey_bytes rgb_888 g = g ∷ g ∷ g ∷ []
grey_bytes rgb_565 g = let v = g % 32 in (8 * v + v / 4) ∷ (64 * (v % 4) + v) ∷ []
grey_bytes bgr_565 g = let v = g % 32 in (64 * (v % 4) + v) ∷ (8 * v + v / 4) ∷ []
grey_bytes mono01 g = (if g % 2 == 0 then 0 else 0xFF) ∷ []
grey_bytes mono10 g = (if g % 2 == 0 then 0xFF else 0) ∷ []
grey_bytes other g = []

-- The values of a function below a bound, from the last.
values : (ℕ → List ℕ) → ℕ → List (List ℕ)
values f zero = []
values f (suc n) = f n ∷ values f n

first_of : List (List ℕ) → List ℕ
first_of [] = []
first_of (x ∷ xs) = x

others_of : List (List ℕ) → List (List ℕ)
others_of [] = []
others_of (x ∷ xs) = xs

values_below : (f h : ℕ → List ℕ) (n k : ℕ) → values f n ≡ values h n → k < n → f k ≡ h k
unfolding values first_of others_of
values_below f h zero k e below = absurd (omega arith)
values_below f h (suc n) k e below = elim (Bool-cases (k == n)) [
  | inl here ↦ rw (==→eq k n here) (ap first_of e)
  | inr there ↦ values_below f h n k (ap others_of e) (ground arith)
]

blue_lem : (f : PixelFormat) → f ≢ other → pixel_of f bottom_right 0 ≡ blue_bytes f
unfolding pixel_argb8888 pixel_rgb888 pixel_rgb565 pixel_bgr565 color24 get_rgb565_color mono_color
blue_lem argb_8888 named = refl
blue_lem rgb_888 named = refl
blue_lem rgb_565 named = refl
blue_lem bgr_565 named = refl
blue_lem mono01 named = refl
blue_lem mono10 named = refl
blue_lem other named = absurd (named refl)

all_greys :
    (f : PixelFormat)
    → f ≢ other
    → values (λ g. pixel_of f bottom_left g) 256 ≡ values (λ g. grey_bytes f g) 256
unfolding values pixel_argb8888 pixel_rgb888 pixel_rgb565 pixel_bgr565 color24 get_rgb565_color
    mono_color grey24 grey565
all_greys argb_8888 named = refl
all_greys rgb_888 named = refl
all_greys rgb_565 named = refl
all_greys bgr_565 named = refl
all_greys mono01 named = refl
all_greys mono10 named = refl
all_greys other named = absurd (named refl)

grey_lem :
    (f : PixelFormat) → f ≢ other → (g : ℕ) → g < 256 → pixel_of f bottom_left g ≡ grey_bytes f g
grey_lem f named g below =
    values_below (λ k. pixel_of f bottom_left k) (λ k. grey_bytes f k) 256 g (all_greys f named)
      below

-- What `main` should show: the background in every row, the rectangle in blue, then the rectangle in
-- one grey after the other.
abbrev pub greys : ℕ → ℕ → Write → List (Write × Paint)
greys zero grey_count r = []
greys (suc n) grey_count r =
    (r, painted bottom_left (grey_count % 2 ^ 8)) ∷ greys n ((grey_count + 1) % 2 ^ 32) r

abbrev pub over_background : ℕ → List Write → List (Write × Paint) → List (Write × Paint)
over_background v [] later = later
over_background v (r ∷ rs) later = (r, background v) ∷ over_background v rs later

expected-wrote :
    (v : ℕ) (ws : List Write) (acts : List Act)
    → expected (background v) (map wrote ws ++ acts)
      ≡ over_background v ws (expected (background v) acts)
expected-wrote v [] acts = refl
expected-wrote v (r ∷ rs) acts = ap (λ l. (r, background v) ∷ l) (expected-wrote v rs acts)

expected-grey_rounds :
    (n k : ℕ) (p : Paint) (r : Write) → expected p (grey_rounds n k r) ≡ greys n k r
unfolding grey_rounds
expected-grey_rounds zero k p r = refl
expected-grey_rounds (suc n) k p r =
    ap (λ l. (r, painted bottom_left (k % 2 ^ 8)) ∷ l)
      (expected-grey_rounds n ((k + 1) % 2 ^ 32) (painted bottom_left (k % 2 ^ 8)) r)

-- With a device, a supported format, memory and a display of five rows or more, every write of `main`
-- shows one colour in every pixel of the buffer, and no fill stores outside it: first the background,
-- in bands that cover the display, then one corner, then the grey scale, whose grey goes up by one from
-- round to round, modulo 2 ^ 8. The bytes of the corner's pixels are those of blue, and those of each
-- grey are its own, in every format.
pub main-Shows :
    (rounds size : ℕ) (c : Capabilities) (buf : List ℕ)
    → 5 ≤ c.y_resolution
    → bytes_of c.current_pixel_format (buffer_pixels c) ≡ some size
    → length buf ≡ size
    → (acts : List Act) × (ws : List Write) × (shown : List (Write × List ℕ)) × (main true true
          (suc c.y_resolution)
          rounds
          c
        ≡ drawn size acts)
      × Covers c.x_resolution c.y_resolution (layout c).h_step 0 ws
      × (perform c.current_pixel_format acts buf ≡ some shown)
      × Shows c.current_pixel_format size
          (over_background
            (bg_color c.current_pixel_format)
            ws
            ((corner_write c, painted bottom_right 0) ∷ greys rounds 0 (grey_write c)))
          shown
      × (pixel_of c.current_pixel_format bottom_right 0 ≡ blue_bytes c.current_pixel_format)
      × ((k : ℕ)
          → pixel_of c.current_pixel_format bottom_left (k % 2 ^ 8)
            ≡ grey_bytes c.current_pixel_format (k % 2 ^ 8))
unfolding main draw perform
main-Shows rounds size c buf rows bytes room =
    let f = c.current_pixel_format in
    let v = bg_color f in
    let (ws, cleared, cov) = clear_loop_lem c rows in
    let (named, n, whole) = bytes_of-whole f (buffer_pixels c) size bytes in
    let tail : List Act =
      filled bottom_right 0
      ∷ wrote (corner_write c)
      ∷ blanked_off
      ∷ grey_rounds rounds 0 (grey_write c) in
    let (shown, e, h) =
      perform_lem f n (background v) (map wrote ws ++ tail) (replicate (length buf) v) named (
        length-replicate (length buf) v ∙ (room ∙ whole),
        λ j below. get_or-replicate (length buf) v 0 j (omega (arith, room, whole)),
      ) in
    let those : expected (background v) (map wrote ws ++ tail)
        ≡ over_background v ws
            ((corner_write c, painted bottom_right 0) ∷ greys rounds 0 (grey_write c)) =
      expected-wrote v ws tail
      ∙ ap (λ l. over_background v ws ((corner_write c, painted bottom_right 0) ∷ l))
          (expected-grey_rounds rounds 0 (painted bottom_right 0) (grey_write c)) in
    (
      set_all v ∷ (map wrote ws ++ tail),
      ws,
      shown,
      ground arith,
      cov,
      e,
      rw (those, ← whole) at h,
      blue_lem f named,
      λ k. grey_lem f named (k % 2 ^ 8) (omega arith),
    )
