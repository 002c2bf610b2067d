-- ===== src/Display/Bounds.antt =====
-- Where `main` of app/demos/display/src/main.c draws.
use zephyr_start.Base.{
  List, [], arith, dec_lt, refl, some, suc, zero, ℕ, ◌*◌, ◌+◌, ◌-◌, ◌/◌, ◌<◌, ◌^◌, ◌∷◌, ◌≡◌, ◌≤◌,
}
use zephyr_start.Display.Layout.{Capabilities, Write, clear_loop, corner_write, grey_write, layout}

-- Resolutions of 16 bits.
abbrev pub IsScreen : Capabilities → Type 0
IsScreen c = (c.x_resolution < 2 ^ 16) × (c.y_resolution < 2 ^ 16)

scaled-le : (h x : ℕ) → h * (x / h) ≤ x
scaled-le h x = grind arith

pub layout_bounds :
    (c : Capabilities)
    → let l = layout c in
      (l.rect_w ≤ c.x_resolution)
      × (l.h_step ≤ c.y_resolution)
      × (5 ≤ c.y_resolution → 1 ≤ l.h_step)
      × (c.x_resolution ≤ 8 * c.y_resolution → l.rect_h ≤ c.y_resolution)
unfolding layout
layout_bounds c = ground arith

-- `ws` covers the rows from `i` to `y`, each once and in order, at full width, in bands of at most
-- `h` rows.
abbrev pub Covers : ℕ → ℕ → ℕ → ℕ → List Write → Type 0
Covers w y h i [] = i ≡ y
Covers w y h i (r ∷ rs) =
    (r.x ≡ 0)
    × (r.y ≡ i)
    × (r.width ≡ w)
    × (1 ≤ r.height)
    × (r.height ≤ h)
    × Covers w y h (i + r.height) rs

clear_loop-end :
    (fuel : ℕ) (c : Capabilities) (h_step idx height : ℕ)
    → 1 ≤ fuel
    → c.y_resolution ≤ idx
    → clear_loop fuel c h_step idx height ≡ some []
unfolding clear_loop
clear_loop-end zero c h_step idx height h1 h = absurd (omega arith)
clear_loop-end (suc fuel) c h_step idx height h1 h = ground arith

-- The rest of the rows, drawn after a full band.
clear_loop-step :
    (fuel : ℕ) (c : Capabilities) (h_step idx : ℕ) (ws : List Write)
    → h_step ≤ c.y_resolution - idx
    → idx < c.y_resolution
    → clear_loop fuel c h_step (idx + h_step) h_step ≡ some ws
    → clear_loop (suc fuel) c h_step idx h_step
      ≡ some (record { x = 0; y = idx; width = c.x_resolution; height = h_step } ∷ ws)
unfolding clear_loop
clear_loop-step fuel c h_step idx ws full here rest = ground arith

-- The last band, cut to what is left of the display.
clear_loop-last :
    (fuel : ℕ) (c : Capabilities) (h_step idx : ℕ)
    → 1 ≤ fuel
    → c.y_resolution - idx < h_step
    → idx < c.y_resolution
    → clear_loop (suc fuel) c h_step idx h_step
      ≡ some (record { x = 0; y = idx; width = c.x_resolution; height = c.y_resolution - idx } ∷ [])
unfolding clear_loop
clear_loop-last fuel c h_step idx h1 short here =
    ground (arith, clear_loop-end fuel c h_step (idx + h_step) (c.y_resolution - idx))

clear_loop-Covers :
    (fuel : ℕ) (c : Capabilities) (h_step idx : ℕ)
    → 1 ≤ h_step
    → idx ≤ c.y_resolution
    → c.y_resolution < idx + fuel
    → (ws : List Write) × (clear_loop fuel c h_step idx h_step ≡ some ws)
      × Covers c.x_resolution c.y_resolution h_step idx ws
clear_loop-Covers zero c h_step idx h1 hi hf = absurd (omega arith)
clear_loop-Covers (suc fuel) c h_step idx h1 hi hf = elim (dec_lt idx c.y_resolution) [
  | no past ↦
      ([], clear_loop-end (suc fuel) c h_step idx h_step (omega arith) (omega arith), omega arith)
  | yes here ↦ elim (dec_lt (c.y_resolution - idx) h_step) [
    | yes short ↦ (
      record { x = 0; y = idx; width = c.x_resolution; height = c.y_resolution - idx } ∷ [],
      clear_loop-last fuel c h_step idx (omega arith) short here,
      (refl, refl, refl, omega arith, omega arith, omega arith),
    )
    | no full ↦
        let (ws, e, cov) =
          clear_loop-Covers fuel c h_step (idx + h_step) h1 (omega arith) (omega arith) in
        (
          record { x = 0; y = idx; width = c.x_resolution; height = h_step } ∷ ws,
          clear_loop-step fuel c h_step idx ws (omega arith) here e,
          (refl, refl, refl, h1, omega arith, cov),
        )
  ]
]

-- On a display of five rows or more the loop that clears it ends, and its writes cover every row
-- once, in order and at full width, and none past the last.
pub clear_loop_lem :
    (c : Capabilities)
    → 5 ≤ c.y_resolution
    → (ws : List Write) × (clear_loop (suc c.y_resolution) c (layout c).h_step 0 (layout c).h_step
        ≡ some ws)
      × Covers c.x_resolution c.y_resolution (layout c).h_step 0 ws
clear_loop_lem c h =
    clear_loop-Covers (suc c.y_resolution) c (layout c).h_step 0 ((layout_bounds c).2 h)
      (omega arith) (omega arith)

-- Where the display is at most eight times as wide as it is high, the rectangle in the corner and
-- the one of the grey scale lie inside it; the first touches its right and lower edges.
pub corner_write_bounds :
    (c : Capabilities)
    → c.x_resolution < 2 ^ 16
    → c.y_resolution < 2 ^ 16
    → c.x_resolution ≤ 8 * c.y_resolution
    → let a = corner_write c in
      let g = grey_write c in
      (a.x + a.width ≡ c.x_resolution)
      × (a.y + a.height ≡ c.y_resolution)
      × (g.x + g.width ≤ c.x_resolution)
      × (g.y + g.height ≡ c.y_resolution)
unfolding corner_write grey_write
corner_write_bounds c hx hy wide = ground (arith, layout_bounds c)

-- On a wider display, of 24 rows or more, the rectangle is higher than the display, and the
-- subtraction that places it wraps: the row is far below the last.
pub corner_write_wraps :
    (c : Capabilities)
    → 24 ≤ c.y_resolution
    → c.x_resolution < 2 ^ 16
    → 8 * (c.y_resolution + 8) ≤ c.x_resolution
    → c.y_resolution < (corner_write c).y
unfolding corner_write layout
corner_write_wraps c hy hx wide = ground arith
