-- ===== src/Display/Pixels.antt =====
-- What the `fill_buffer_*` functions of app/demos/display/src/main.c leave in the buffer.
use zephyr_start.Base.{
  List, [], ap, arith, get_or, get_or-replicate, get_or-set_ne, get_or-set_self, length,
  length-replicate, length-set, refl, replicate, set, some, suc, sym, zero, ℕ, ◌*◌, ◌+◌, ◌<◌, ◌∙◌,
  ◌∷◌, ◌≡◌, ◌≢◌, ◌≤◌,
}
use zephyr_start.Display.Layout.{
  PixelFormat, argb_8888, bgr_565, fill_buffer_fnc, mono01, mono10, rgb_565, rgb_888, other,
}
use zephyr_start.Display.Fill.{
  Corner, color24, fill_buffer_argb8888, fill_buffer_bgr565, fill_buffer_mono, fill_buffer_mono01,
  fill_buffer_mono10, fill_buffer_rgb565, fill_buffer_rgb888, fill_loop, get_rgb565_color,
  mono_color, pixel_argb8888, pixel_bgr565, pixel_rgb565, pixel_rgb888, store, store_all,
}
use native.Mathlib.Nat.{add-zero, zero-add}

-- Bytes stored from index `i` on, where they fit: they stand there, and nothing else has changed.
record Stored (xs : List ℕ) (i : ℕ) (buf : List ℕ) (buf' : List ℕ) : Type 0 where
  same_length : length buf' ≡ length buf
  there : (j : ℕ) → j < length xs → get_or buf' (i + j) 0 ≡ get_or xs j 0
  before : (j : ℕ) → j < i → get_or buf' j 0 ≡ get_or buf j 0
  after : (j : ℕ) → i + length xs ≤ j → get_or buf' j 0 ≡ get_or buf j 0

Stored-cons :
    (x : ℕ) (xs : List ℕ) (i : ℕ) (buf buf' : List ℕ)
    → i < length buf
    → Stored xs (i + 1) (set buf i x) buf'
    → (j : ℕ) → j < suc (length xs)
    → get_or buf' (i + j) 0 ≡ get_or (x ∷ xs) j 0
Stored-cons x xs i buf buf' h s zero hj =
    ap (λ k. get_or buf' k 0) (add-zero i)
    ∙ (s.before i (omega arith) ∙ get_or-set_self buf i x 0 h)
Stored-cons x xs i buf buf' h s (suc j) hj =
    let moved : i + suc j ≡ (i + 1) + j = omega arith in
    ap (λ k. get_or buf' k 0) moved ∙ s.there j (omega arith)

store_all-Stored :
    (xs : List ℕ) (i : ℕ) (buf : List ℕ)
    → i + length xs ≤ length buf
    → (buf' : List ℕ) × (store_all xs i buf ≡ some buf') × Stored xs i buf buf'
unfolding store_all store
store_all-Stored [] i buf h = (
  buf,
  refl,
  record {
    same_length = refl;
    there = λ j hj. absurd (omega arith);
    before = λ j hj. refl;
    after = λ j hj. refl;
  },
)
store_all-Stored (x ∷ xs) i buf h =
    let (buf', e, s) =
      store_all-Stored xs (i + 1) (set buf i x) (omega (arith, length-set buf i x)) in
    (
      buf',
      ground arith,
      record {
        same_length = s.same_length ∙ length-set buf i x;
        there = Stored-cons x xs i buf buf' (omega arith) s;
        before = λ j hj. s.before j (omega arith) ∙ get_or-set_ne buf i j x 0 (omega arith);
        after = λ j hj. s.after j (omega arith) ∙ get_or-set_ne buf i j x 0 (omega arith);
      },
    )

-- The buffer from `idx` on holds `r` copies of the pixel, and is as it was before `idx`.
record Filled (pixel : List ℕ) (idx r : ℕ) (buf buf' : List ℕ) : Type 0 where
  same_length : length buf' ≡ length buf
  copies :
      (q o : ℕ)
      → q < r
      → o < length pixel
      → get_or buf' (idx + (length pixel * q + o)) 0 ≡ get_or pixel o 0
  before : (j : ℕ) → j < idx → get_or buf' j 0 ≡ get_or buf j 0

Filled-suc :
    (pixel : List ℕ) (idx r : ℕ) (buf mid buf' : List ℕ)
    → Stored pixel idx buf mid
    → Filled pixel (idx + length pixel) r mid buf'
    → (q o : ℕ) → q < suc r
    → o < length pixel
    → get_or buf' (idx + (length pixel * q + o)) 0 ≡ get_or pixel o 0
Filled-suc pixel idx r buf mid buf' s f zero o hq ho =
    let first : idx + (length pixel * 0 + o) ≡ idx + o = omega arith in
    ap (λ k. get_or buf' k 0) first ∙ (f.before (idx + o) (omega arith) ∙ s.there o ho)
Filled-suc pixel idx r buf mid buf' s f (suc q) o hq ho =
    let later : idx + (length pixel * suc q + o) ≡ (idx + length pixel) + (length pixel * q + o) =
      omega arith in
    ap (λ k. get_or buf' k 0) later ∙ f.copies q o (omega arith) ho

fill_loop-step :
    (fuel : ℕ) (pixel : List ℕ) (idx : ℕ) (buf mid buf' : List ℕ)
    → idx < length buf
    → store_all pixel idx buf ≡ some mid
    → fill_loop fuel (length pixel) pixel (idx + length pixel) (length buf) mid ≡ some buf'
    → fill_loop (suc fuel) (length pixel) pixel idx (length buf) buf ≡ some buf'
unfolding fill_loop
fill_loop-step fuel pixel idx buf mid buf' h e rest = ground arith

fill_loop-end :
    (fuel : ℕ) (pixel : List ℕ) (idx : ℕ) (buf : List ℕ)
    → length buf ≤ idx
    → fill_loop fuel (length pixel) pixel idx (length buf) buf ≡ some buf
unfolding fill_loop
fill_loop-end zero pixel idx buf h = refl
fill_loop-end (suc fuel) pixel idx buf h = ground arith

fill_loop-Filled :
    (r fuel : ℕ) (pixel : List ℕ) (idx : ℕ) (buf : List ℕ)
    → 1 ≤ length pixel
    → idx + length pixel * r ≡ length buf
    → r ≤ fuel
    → (buf' : List ℕ) × (fill_loop fuel (length pixel) pixel idx (length buf) buf ≡ some buf')
      × Filled pixel idx r buf buf'
fill_loop-Filled zero fuel pixel idx buf h1 h hf = (
  buf,
  fill_loop-end fuel pixel idx buf (omega arith),
  record { same_length = refl; copies = λ q o hq ho. absurd (omega arith); before = λ j hj. refl },
)
fill_loop-Filled (suc r) zero pixel idx buf h1 h hf = absurd (omega arith)
fill_loop-Filled (suc r) (suc fuel) pixel idx buf h1 h hf =
    let (mid, e, s) = store_all-Stored pixel idx buf (omega arith) in
    let (buf', e', f) =
      fill_loop-Filled r fuel pixel (idx + length pixel) mid h1 (omega (arith, s.same_length))
        (omega arith) in
    let e2 : fill_loop fuel (length pixel) pixel (idx + length pixel) (length buf) mid ≡ some buf' =
      rw (← s.same_length) e' in
    (
      buf',
      fill_loop-step fuel pixel idx buf mid buf' (omega arith) e e2,
      record {
        same_length = f.same_length ∙ s.same_length;
        copies = Filled-suc pixel idx r buf mid buf' s f;
        before = λ j hj. f.before j (omega arith) ∙ s.before j hj;
      },
    )

-- The bytes that each pixel, or each byte of eight monochrome pixels, should have.
abbrev pub pixel_of : PixelFormat → Corner → ℕ → List ℕ
pixel_of argb_8888 corner grey = pixel_argb8888 (color24 corner grey)
pixel_of rgb_888 corner grey = pixel_rgb888 (color24 corner grey)
pixel_of rgb_565 corner grey = pixel_rgb565 (get_rgb565_color corner grey)
pixel_of bgr_565 corner grey = pixel_bgr565 (get_rgb565_color corner grey)
pixel_of mono01 corner grey = mono_color corner grey 0x00 0xFF ∷ []
pixel_of mono10 corner grey = mono_color corner grey 0xFF 0x00 ∷ []
pixel_of other corner grey = 0 ∷ []

fill_loop-Paints :
    (n : ℕ) (pixel buf : List ℕ)
    → 1 ≤ length pixel
    → length buf ≡ length pixel * n
    → (buf' : List ℕ) × (fill_loop (length buf) (length pixel) pixel 0 (length buf) buf ≡ some buf')
      × (length buf' ≡ length buf)
      × ((q o : ℕ)
          → q < n
          → o < length pixel
          → get_or buf' (length pixel * q + o) 0 ≡ get_or pixel o 0)
fill_loop-Paints n pixel buf h1 h =
    let room : n ≤ length buf = grind arith in
    let (buf', e, f) = fill_loop-Filled n (length buf) pixel 0 buf h1 (omega arith) room in
    (
      buf',
      e,
      f.same_length,
      λ q o hq ho. ap (λ k. get_or buf' k 0) (sym (zero-add _)) ∙ f.copies q o hq ho,
    )

mono-index :
    (color n q o : ℕ) (buf buf' : List ℕ)
    → Stored (replicate (length buf) color) 0 buf buf'
    → q < length buf
    → o < 1
    → get_or buf' (1 * q + o) 0 ≡ get_or (color ∷ []) o 0
mono-index color n q zero buf buf' s hq ho =
    let here : 1 * q + 0 ≡ 0 + q = omega arith in
    ap (λ k. get_or buf' k 0) here
    ∙ (s.there q (omega (arith, length-replicate (length buf) color))
        ∙ get_or-replicate (length buf) color 0 q hq)
mono-index color n q (suc o) buf buf' s hq ho = absurd (omega arith)

mono-Paints :
    (color n : ℕ) (buf : List ℕ)
    → length buf ≡ 1 * n
    → (buf' : List ℕ) × (store_all (replicate (length buf) color) 0 buf ≡ some buf')
      × (length buf' ≡ length buf)
      × ((q o : ℕ) → q < n → o < 1 → get_or buf' (1 * q + o) 0 ≡ get_or (color ∷ []) o 0)
mono-Paints color n buf h =
    let (buf', e, s) =
      store_all-Stored (replicate (length buf) color) 0 buf
        (omega (arith, length-replicate (length buf) color)) in
    (buf', e, s.same_length, λ q o hq ho. mono-index color n q o buf buf' s (omega arith) ho)

-- In every supported format, at a buffer that holds a whole number of pixels, the fill stores
-- nothing outside the buffer, ends, and leaves the bytes of the colour in every pixel.
pub fill_buffer_fnc_lem :
    (f : PixelFormat) (corner : Corner) (grey n : ℕ) (buf : List ℕ)
    → f ≢ other
    → length buf ≡ length (pixel_of f corner grey) * n
    → (buf' : List ℕ) × (fill_buffer_fnc f corner grey buf (length buf) ≡ some buf')
      × (length buf' ≡ length buf)
      × ((q o : ℕ)
          → q < n
          → o < length (pixel_of f corner grey)
          → get_or buf' (length (pixel_of f corner grey) * q + o) 0
            ≡ get_or (pixel_of f corner grey) o 0)
unfolding fill_buffer_fnc fill_buffer_argb8888 fill_buffer_rgb888 fill_buffer_rgb565
    fill_buffer_bgr565 fill_buffer_mono01 fill_buffer_mono10 fill_buffer_mono pixel_argb8888
    pixel_rgb888 pixel_rgb565 pixel_bgr565
fill_buffer_fnc_lem argb_8888 corner grey n buf h e =
    fill_loop-Paints n (pixel_argb8888 (color24 corner grey)) buf (omega arith) e
fill_buffer_fnc_lem rgb_888 corner grey n buf h e =
    fill_loop-Paints n (pixel_rgb888 (color24 corner grey)) buf (omega arith) e
fill_buffer_fnc_lem rgb_565 corner grey n buf h e =
    fill_loop-Paints n (pixel_rgb565 (get_rgb565_color corner grey)) buf (omega arith) e
fill_buffer_fnc_lem bgr_565 corner grey n buf h e =
    fill_loop-Paints n (pixel_bgr565 (get_rgb565_color corner grey)) buf (omega arith) e
fill_buffer_fnc_lem mono01 corner grey n buf h e =
    mono-Paints (mono_color corner grey 0x00 0xFF) n buf e
fill_buffer_fnc_lem mono10 corner grey n buf h e =
    mono-Paints (mono_color corner grey 0xFF 0x00) n buf e
fill_buffer_fnc_lem other corner grey n buf h e = absurd (h refl)
