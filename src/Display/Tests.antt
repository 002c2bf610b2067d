-- ===== src/Display/Tests.antt =====
-- Tests, and instances of the theorems about app/demos/display/src/main.c.
use zephyr_start.Base.{
  Every, List, [], arith, false, map, refl, replicate, some, suc, true, ℕ, ◌%◌, ◌*◌, ◌++◌, ◌^◌, ◌∷◌,
  ◌≡◌, ◌≤◌,
}
use zephyr_start.Display.Shown.{blue_bytes, grey_bytes, main-Shows, over_background, greys}
use zephyr_start.Display.Pixels.{pixel_of}
use zephyr_start.Display.Layout.{
  Act, Capabilities, Write, bg_color, buffer_pixels, bytes_of, clear_loop, corner_write, grey_write,
  layout, mono01, rgb_565, rgb_888, main, drawn,
}
use zephyr_start.Display.Fill.{bottom_left, bottom_right}
use zephyr_start.Display.Drawing.{bytes_needed, main_lem, writes_of}
use zephyr_start.Display.Bounds.{Covers, clear_loop_lem}
use zephyr_start.Display.Acts.{Shows, painted, perform}

-- 16 by 10 pixels.
abbrev small : Capabilities
small = record {
  x_resolution = 16;
  y_resolution = 10;
  mono_vtiled = false;
  current_pixel_format = rgb_565;
}

-- 20 by 13 pixels in tiles of eight.
abbrev tiled : Capabilities
tiled = record {
  x_resolution = 20;
  y_resolution = 13;
  mono_vtiled = true;
  current_pixel_format = mono01;
}

-- 480 by 24 pixels.
abbrev wide : Capabilities
wide = record {
  x_resolution = 480;
  y_resolution = 24;
  mono_vtiled = false;
  current_pixel_format = rgb_888;
}

abbrev band : ℕ → ℕ → Write
band y height = record { x = 0; y = y; width = 20; height = height }

tiled_bands :
    clear_loop 14 tiled (layout tiled).h_step 0 (layout tiled).h_step
    ≡ some (map (λ i. band (2 * i) 2) (0 ∷ 1 ∷ 2 ∷ 3 ∷ 4 ∷ 5 ∷ []) ++ (band 12 1 ∷ []))
unfolding clear_loop layout
tiled_bands = refl

clear_loop_example :
    (ws : List Write) × (clear_loop
        (suc tiled.y_resolution)
        tiled
        (layout tiled).h_step
        0
        (layout tiled).h_step
      ≡ some ws)
    × Covers tiled.x_resolution tiled.y_resolution (layout tiled).h_step 0 ws
clear_loop_example = clear_loop_lem tiled (omega arith)

small_size : bytes_of rgb_565 (buffer_pixels small) ≡ some 32
unfolding bytes_of buffer_pixels layout
small_size = refl

main_example :
    (acts : List Act) × (main true true (suc small.y_resolution) 3 small ≡ drawn 32 acts)
    × Every (writes_of acts) (λ r. bytes_needed rgb_565 r ≤ 32)
main_example = main_lem 3 32 small (omega arith) small_size

main-Shows_example :
    (acts : List Act) × (ws : List Write) × (shown : List (Write × List ℕ)) × (main true true
        (suc small.y_resolution)
        3
        small
      ≡ drawn 32 acts)
    × Covers small.x_resolution small.y_resolution (layout small).h_step 0 ws
    × (perform rgb_565 acts (replicate 32 0) ≡ some shown)
    × Shows rgb_565 32
        (over_background
          (bg_color rgb_565)
          ws
          ((corner_write small, painted bottom_right 0) ∷ greys 3 0 (grey_write small)))
        shown
    × (pixel_of rgb_565 bottom_right 0 ≡ blue_bytes rgb_565)
    × ((k : ℕ) → pixel_of rgb_565 bottom_left (k % 2 ^ 8) ≡ grey_bytes rgb_565 (k % 2 ^ 8))
main-Shows_example = main-Shows 3 32 small (replicate 32 0) (omega arith) small_size refl
