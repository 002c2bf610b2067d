-- ===== src/Display/Drawing.antt =====
-- What `main` of app/demos/display/src/main.c draws, and what its writes read of the buffer.
use zephyr_start.Base.{
  Every, Every-append, List, [], ap, arith, map, none, refl, replicate, some, suc, true, zero, ℕ,
  ◌%◌, ◌*◌, ◌++◌, ◌+◌, ◌^◌, ◌∙◌, ◌∷◌, ◌≡◌, ◌≤◌,
}
use zephyr_start.Display.Layout.{
  Act, Capabilities, PixelFormat, Write, bg_color, blanked_off, buffer_pixels, bytes_of,
  corner_write, draw, filled, grey_rounds, grey_write, layout, set_all, wrote, main, drawn,
}
use zephyr_start.Display.Fill.{bottom_right}
use zephyr_start.Display.Bounds.{Covers, clear_loop_lem}

-- The bytes of the buffer that a write reads; an unsupported format reads none.
abbrev pub bytes_needed : PixelFormat → Write → ℕ
bytes_needed f r = elim (bytes_of f (r.width * r.height)) [ none ↦ 0 | some n ↦ n ]

bytes_needed-le :
    (f : PixelFormat) (r : Write) (pixels size : ℕ)
    → bytes_of f pixels ≡ some size
    → r.width * r.height ≤ pixels
    → bytes_needed f r ≤ size
unfolding bytes_of
bytes_needed-le f r pixels size e h = ground arith

buffer_pixels-band : (c : Capabilities) → c.x_resolution * (layout c).h_step ≤ buffer_pixels c
unfolding buffer_pixels
buffer_pixels-band c = ground arith

buffer_pixels-rect : (c : Capabilities) → (layout c).rect_w * (layout c).rect_h ≤ buffer_pixels c
unfolding buffer_pixels
buffer_pixels-rect c = ground arith

pub product-le : (w a b : ℕ) → a ≤ b → w * a ≤ w * b
product-le w a b h = grind arith

Covers-fits :
    (c : Capabilities) (size i : ℕ) (ws : List Write)
    → bytes_of c.current_pixel_format (buffer_pixels c) ≡ some size
    → Covers c.x_resolution c.y_resolution (layout c).h_step i ws
    → Every ws (λ r. bytes_needed c.current_pixel_format r ≤ size)
Covers-fits c size i [] e h = tt
Covers-fits c size i (r ∷ ws) e h = (
  bytes_needed-le c.current_pixel_format r (buffer_pixels c) size e (
      omega (
        arith,
        buffer_pixels-band c,
        product-le c.x_resolution r.height (layout c).h_step h.4,
        ap (λ k. k * r.height) h.2,
      )),
  Covers-fits c size (i + r.height) ws e h.5,
)

rounds-fit :
    (n size : ℕ) (f : PixelFormat) (r : Write)
    → bytes_needed f r ≤ size
    → Every (replicate n r) (λ q. bytes_needed f q ≤ size)
rounds-fit zero size f r h = tt
rounds-fit (suc n) size f r h = (h, rounds-fit n size f r h)

corner-fits :
    (c : Capabilities) (size : ℕ)
    → bytes_of c.current_pixel_format (buffer_pixels c) ≡ some size
    → (bytes_needed c.current_pixel_format (corner_write c) ≤ size)
      × (bytes_needed c.current_pixel_format (grey_write c) ≤ size)
unfolding corner_write grey_write
corner-fits c size e = (
  bytes_needed-le c.current_pixel_format (corner_write c) (buffer_pixels c) size e
      (buffer_pixels-rect c),
  bytes_needed-le c.current_pixel_format (grey_write c) (buffer_pixels c) size e
      (buffer_pixels-rect c),
)

-- The writes among the acts.
abbrev pub writes_of : List Act → List Write
writes_of [] = []
writes_of (set_all _ ∷ acts) = writes_of acts
writes_of (filled _ _ ∷ acts) = writes_of acts
writes_of (wrote r ∷ acts) = r ∷ writes_of acts
writes_of (blanked_off ∷ acts) = writes_of acts

writes_of-wrote :
    (ws : List Write) (later : List Act) → writes_of (map wrote ws ++ later) ≡ ws ++ writes_of later
writes_of-wrote [] later = refl
writes_of-wrote (r ∷ ws) later = ap (λ rs. r ∷ rs) (writes_of-wrote ws later)

writes_of-grey_rounds :
    (n grey_count : ℕ) (r : Write) → writes_of (grey_rounds n grey_count r) ≡ replicate n r
unfolding grey_rounds
writes_of-grey_rounds zero grey_count r = refl
writes_of-grey_rounds (suc n) grey_count r =
    ap (λ rs. r ∷ rs) (writes_of-grey_rounds n ((grey_count + 1) % 2 ^ 32) r)

-- With a device, a supported format, memory and a display of five rows or more, `main` reaches its
-- last loop, and no write, whichever round it is of, reads past the end of the buffer.
pub main_lem :
    (rounds size : ℕ) (c : Capabilities)
    → 5 ≤ c.y_resolution
    → bytes_of c.current_pixel_format (buffer_pixels c) ≡ some size
    → (acts : List Act) × (main true true (suc c.y_resolution) rounds c ≡ drawn size acts)
      × Every (writes_of acts) (λ r. bytes_needed c.current_pixel_format r ≤ size)
unfolding main draw
main_lem rounds size c h e =
    let (ws, cleared, cov) = clear_loop_lem c h in
    let fits = corner-fits c size e in
    let tail : List Act =
      filled bottom_right 0
      ∷ wrote (corner_write c)
      ∷ blanked_off
      ∷ grey_rounds rounds 0 (grey_write c) in
    let those : writes_of (map wrote ws ++ tail)
        ≡ ws ++ (corner_write c ∷ replicate rounds (grey_write c)) =
      writes_of-wrote ws tail
      ∙ ap (λ rs. ws ++ (corner_write c ∷ rs)) (writes_of-grey_rounds rounds 0 (grey_write c)) in
    (
      set_all (bg_color c.current_pixel_format) ∷ (map wrote ws ++ tail),
      ground arith,
      rw those (
          Every-append (λ r. bytes_needed c.current_pixel_format r ≤ size) ws
            (corner_write c ∷ replicate rounds (grey_write c))
            (fits.0, rounds-fit rounds size c.current_pixel_format (grey_write c) fits.1)
            (Covers-fits c size 0 ws e cov)),
    )
