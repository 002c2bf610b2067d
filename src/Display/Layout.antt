-- ===== src/Display/Layout.antt =====
-- The sizes and the drawing of `main` in app/demos/display/src/main.c, in a build that is not
-- ARCH_POSIX and not CONFIG_TEST. A `size_t` has 32 bits.
use zephyr_start.Base.{
  Bool, List, Option, [], if◌then◌else◌, ltb, map, none, some, suc, zero, ℕ, ◌%◌, ◌*◌, ◌++◌, ◌+◌,
  ◌-◌, ◌/◌, ◌^◌, ◌||◌, ◌∷◌,
}
use zephyr_start.Display.Fill.{
  Corner, bottom_left, bottom_right, fill_buffer_argb8888, fill_buffer_bgr565, fill_buffer_mono01,
  fill_buffer_mono10, fill_buffer_rgb565, fill_buffer_rgb888,
}

-- The formats that the `switch` names; `other` is any other. BGR_565 stands for a build whose
-- headers define it as a macro.
pub data PixelFormat : Type 0 where
  argb_8888 rgb_888 rgb_565 bgr_565 mono01 mono10 other : PixelFormat

-- `struct display_capabilities`; the resolutions are of 16 bits.
pub record Capabilities : Type 0 where
  pub x_resolution : ℕ
  pub y_resolution : ℕ
  pub mono_vtiled : Bool
  pub current_pixel_format : PixelFormat

pub record Layout : Type 0 where
  pub rect_w : ℕ
  pub rect_h : ℕ
  pub h_step : ℕ

abbrev unit_w : Capabilities → ℕ
unit_w c = if c.mono_vtiled then 16 else 2

abbrev pub unit_h : Capabilities → ℕ
unit_h c = if c.mono_vtiled then 8 else 1

unfoldable pub layout : Capabilities → Layout
layout c =
    let w = unit_w c in
    let h = unit_h c in
    if ltb c.x_resolution (3 * w) || ltb c.y_resolution (3 * h) || ltb c.x_resolution (8 * h)
    then (record {
      rect_w = c.x_resolution * 40 / 100;
      rect_h = c.y_resolution * 40 / 100;
      h_step = c.y_resolution * 20 / 100;
    })
    else (let scale = (c.x_resolution / 8) / h in
        record { rect_w = w * scale; rect_h = h * scale; h_step = h })

-- The pixels that the buffer has to hold.
unfoldable pub buffer_pixels : Capabilities → ℕ
unfolding layout
buffer_pixels c =
    let l = layout c in
    let area = l.rect_w * l.rect_h in
    if ltb area (c.x_resolution * l.h_step) then c.x_resolution * l.h_step else area

-- DIV_ROUND_UP
abbrev pub div_round_up : ℕ → ℕ → ℕ
div_round_up n d = (n + d - 1) / d

-- The size in bytes of a number of pixels; `none` is the branch of the unsupported formats.
unfoldable pub bytes_of : PixelFormat → ℕ → Option ℕ
bytes_of argb_8888 n = some (n * 4)
bytes_of rgb_888 n = some (n * 3)
bytes_of rgb_565 n = some (n * 2)
bytes_of bgr_565 n = some (n * 2)
bytes_of mono01 n = some (div_round_up (div_round_up n 8) 1)
bytes_of mono10 n = some (div_round_up (div_round_up n 8) 1)
bytes_of other n = none

-- A call of `display_write`: its position and the width and height of its descriptor.
pub record Write : Type 0 where
  pub x : ℕ
  pub y : ℕ
  pub width : ℕ
  pub height : ℕ

-- The loop that clears the display, from row `idx`, with the height that the descriptor has; `none`
-- is out of fuel.
unfoldable pub clear_loop : ℕ → Capabilities → ℕ → ℕ → ℕ → Option (List Write)
clear_loop zero c h_step idx height = none
clear_loop (suc fuel) c h_step idx height =
    let left = c.y_resolution - idx in
    let height' = if ltb left h_step then left else height in
    let here : Write = record { x = 0; y = idx; width = c.x_resolution; height = height' } in
    let rest = clear_loop fuel c h_step (idx + h_step) height' in
    if ltb idx c.y_resolution
    then (elim rest [ none ↦ none | some ws ↦ some (here ∷ ws) ])
    else some []

-- `size_t` subtraction
abbrev sub_size : ℕ → ℕ → ℕ
sub_size a b = (a + 2 ^ 32 - b) % 2 ^ 32

unfoldable pub corner_write : Capabilities → Write
unfolding layout
corner_write c =
    let l = layout c in
    record {
      x = sub_size c.x_resolution l.rect_w;
      y = sub_size c.y_resolution l.rect_h;
      width = l.rect_w;
      height = l.rect_h;
    }

-- The rectangle of the grey scale.
unfoldable pub grey_write : Capabilities → Write
unfolding layout
grey_write c =
    let l = layout c in
    record { x = 0; y = sub_size c.y_resolution l.rect_h; width = l.rect_w; height = l.rect_h }

-- What `main` does to the buffer and the display, in order: `memset` of the buffer with the
-- background, a call of `fill_buffer_fnc` with its corner and grey, a call of `display_write`, and
-- that of `display_blanking_off`.
pub data Act : Type 0 where
  set_all : ℕ → Act
  filled : Corner → ℕ → Act
  wrote : Write → Act
  blanked_off : Act

-- How `main` ends, or the size of its buffer and its acts, some rounds of its last loop included.
pub data Outcome : Type 0 where
  no_device unsupported no_memory : Outcome
  drawn : ℕ → List Act → Outcome
  out_of_fuel : Outcome

unfoldable pub bg_color : PixelFormat → ℕ
bg_color mono10 = 0x00
bg_color _ = 0xFF

-- The rounds left of the last loop. `grey_count` is a `size_t`, and the parameter `grey` a `uint8_t`.
unfoldable pub grey_rounds : ℕ → ℕ → Write → List Act
grey_rounds zero grey_count r = []
grey_rounds (suc n) grey_count r =
    filled bottom_left (grey_count % 2 ^ 8) ∷ wrote r ∷ grey_rounds n ((grey_count + 1) % 2 ^ 32) r

unfoldable pub draw : ℕ → ℕ → Capabilities → ℕ → Outcome
unfolding layout clear_loop corner_write grey_write grey_rounds bg_color
draw fuel rounds c buf_size =
    let h_step = (layout c).h_step in
    elim (clear_loop fuel c h_step 0 h_step) [
      | none ↦ out_of_fuel
      | some ws ↦ drawn buf_size (
          set_all (bg_color c.current_pixel_format)
          ∷ (map wrote ws
              ++ (filled bottom_right 0
                  ∷ wrote (corner_write c)
                  ∷ blanked_off
                  ∷ grey_rounds rounds 0 (grey_write c))))
    ]

-- `ready` is the test of the device, `allocated` that of `k_malloc`; the last loop runs for
-- `rounds` rounds. The sizes are those of the descriptors, the buffer's is the one allocated.
unfoldable pub main : Bool → Bool → ℕ → ℕ → Capabilities → Outcome
unfolding draw bytes_of buffer_pixels
main ready allocated fuel rounds c =
    if ready
    then (elim (bytes_of c.current_pixel_format (buffer_pixels c)) [
      | none ↦ unsupported
      | some buf_size ↦ if allocated then draw fuel rounds c buf_size else no_memory
    ])
    else no_device

-- `fill_buffer_fnc` as the `switch` sets it; where it is not set `main` has returned.
unfoldable pub fill_buffer_fnc : PixelFormat → Corner → ℕ → List ℕ → ℕ → Option (List ℕ)
fill_buffer_fnc argb_8888 corner grey buf n = fill_buffer_argb8888 corner grey buf n
fill_buffer_fnc rgb_888 corner grey buf n = fill_buffer_rgb888 corner grey buf n
fill_buffer_fnc rgb_565 corner grey buf n = fill_buffer_rgb565 corner grey buf n
fill_buffer_fnc bgr_565 corner grey buf n = fill_buffer_bgr565 corner grey buf n
fill_buffer_fnc mono01 corner grey buf n = fill_buffer_mono01 corner grey buf n
fill_buffer_fnc mono10 corner grey buf n = fill_buffer_mono10 corner grey buf n
fill_buffer_fnc other corner grey buf n = none
