-- ===== src/Display/Acts.antt =====
-- The acts of `main` of app/demos/display/src/main.c on its buffer.
use zephyr_start.Base.{
  Bool-cases, List, Option, [], ap, arith, get_or, get_or-replicate, inl, inr, length,
  length-replicate, ltb, none, refl, replicate, some, sym, ℕ, ◌*◌, ◌+◌, ◌<◌, ◌∙◌, ◌∷◌, ◌≡◌, ◌≢◌,
}
use zephyr_start.Display.Pixels.{fill_buffer_fnc_lem, pixel_of}
use zephyr_start.Display.Layout.{
  Act, PixelFormat, Write, argb_8888, bgr_565, blanked_off, bytes_of, fill_buffer_fnc, filled,
  mono01, mono10, rgb_565, rgb_888, set_all, other, wrote,
}
use zephyr_start.Display.Fill.{Corner, pixel_argb8888, pixel_bgr565, pixel_rgb565, pixel_rgb888}
use zephyr_start.Display.Drawing.{product-le}

-- The acts of `main` on the buffer: the writes, each with what the buffer holds then; `none` is a
-- store outside the buffer.
unfoldable pub perform : PixelFormat → List Act → List ℕ → Option (List (Write × List ℕ))
perform f [] buf = some []
perform f (set_all v ∷ acts) buf = perform f acts (replicate (length buf) v)
perform f (filled corner grey ∷ acts) buf = elim (fill_buffer_fnc f corner grey buf (length buf)) [
  | none ↦ none
  | some buf' ↦ perform f acts buf'
]
perform f (wrote r ∷ acts) buf = elim (perform f acts buf) [
  | none ↦ none
  | some shown ↦ some ((r, buf) ∷ shown)
]
perform f (blanked_off ∷ acts) buf = perform f acts buf

-- What the buffer was filled with last: one byte, or the colour of a corner.
pub data Paint : Type 0 where
  background : ℕ → Paint
  painted : Corner → ℕ → Paint

-- The writes that the acts should show, with what each should show.
abbrev pub expected : Paint → List Act → List (Write × Paint)
expected p [] = []
expected p (set_all v ∷ acts) = expected (background v) acts
expected p (filled corner grey ∷ acts) = expected (painted corner grey) acts
expected p (wrote r ∷ acts) = (r, p) ∷ expected p acts
expected p (blanked_off ∷ acts) = expected p acts

-- A buffer of `size` bytes that holds nothing but the paint, in every pixel.
abbrev pub Holds : PixelFormat → ℕ → Paint → List ℕ → Type 0
Holds f size (background v) buf = (length buf ≡ size) × ((j : ℕ) → j < size → get_or buf j 0 ≡ v)
Holds f size (painted corner grey) buf =
    (length buf ≡ size)
    × ((q o : ℕ)
        → o < length (pixel_of f corner grey)
        → length (pixel_of f corner grey) * q + o < size
        → get_or buf (length (pixel_of f corner grey) * q + o) 0
          ≡ get_or (pixel_of f corner grey) o 0)

-- Each write is the expected one and shows what is expected of it.
abbrev pub Shows : PixelFormat → ℕ → List (Write × Paint) → List (Write × List ℕ) → Type 0
Shows f size [] [] = Unit
Shows f size [] (_ ∷ _) = ⊥
Shows f size (_ ∷ _) [] = ⊥
Shows f size ((r, p) ∷ ps) ((r', buf) ∷ shown) =
    (r' ≡ r) × Holds f size p buf × Shows f size ps shown

abbrev pub pixel_bytes : PixelFormat → ℕ
pixel_bytes argb_8888 = 4
pixel_bytes rgb_888 = 3
pixel_bytes rgb_565 = 2
pixel_bytes bgr_565 = 2
pixel_bytes mono01 = 1
pixel_bytes mono10 = 1
pixel_bytes other = 1

length-pixel_of :
    (f : PixelFormat) (corner : Corner) (grey : ℕ) → length (pixel_of f corner grey) ≡ pixel_bytes f
unfolding pixel_argb8888 pixel_rgb888 pixel_rgb565 pixel_bgr565
length-pixel_of argb_8888 corner grey = refl
length-pixel_of rgb_888 corner grey = refl
length-pixel_of rgb_565 corner grey = refl
length-pixel_of bgr_565 corner grey = refl
length-pixel_of mono01 corner grey = refl
length-pixel_of mono10 corner grey = refl
length-pixel_of other corner grey = refl

inside-lt : (b q n o : ℕ) → b * q + o < b * n → q < n
inside-lt b q n o h = elim (Bool-cases (ltb q n)) [
  | inl below ↦ ground arith
  | inr above ↦ absurd (grind (arith, product-le b n q))
]

filled-Holds :
    (f : PixelFormat) (corner : Corner) (grey n : ℕ) (buf : List ℕ)
    → f ≢ other
    → length buf ≡ pixel_bytes f * n
    → (buf' : List ℕ) × (fill_buffer_fnc f corner grey buf (length buf) ≡ some buf')
      × Holds f (pixel_bytes f * n) (painted corner grey) buf'
filled-Holds f corner grey n buf named whole =
    let pixel : List ℕ = pixel_of f corner grey in
    let bytes : length pixel ≡ pixel_bytes f = length-pixel_of f corner grey in
    let (buf', e, l, h) =
      fill_buffer_fnc_lem f corner grey n buf named (whole ∙ ap (λ k. k * n) (sym bytes)) in
    (
      buf',
      e,
      (
        l ∙ whole,
        λ q o ho inside. h q o (inside-lt (length pixel) q n o (rw (← bytes) at inside)) ho,
      ),
    )

Holds-length :
    (f : PixelFormat) (size : ℕ) (p : Paint) (buf : List ℕ) → Holds f size p buf → length buf ≡ size
Holds-length f size (background v) buf h = h.0
Holds-length f size (painted corner grey) buf h = h.0

-- The acts, whatever they are, go through and show what is expected of them.
pub perform_lem :
    (f : PixelFormat) (n : ℕ) (p : Paint) (acts : List Act) (buf : List ℕ)
    → f ≢ other
    → Holds f (pixel_bytes f * n) p buf
    → (shown : List (Write × List ℕ)) × (perform f acts buf ≡ some shown)
      × Shows f (pixel_bytes f * n) (expected p acts) shown
unfolding perform
perform_lem f n p [] buf named held = ([], refl, tt)
perform_lem f n p (set_all v ∷ acts) buf named held =
    let size : length buf ≡ pixel_bytes f * n = Holds-length f (pixel_bytes f * n) p buf held in
    perform_lem f n (background v) acts (replicate (length buf) v) named (
      length-replicate (length buf) v ∙ size,
      λ j below. get_or-replicate (length buf) v 0 j (omega (arith, size)),
    )
perform_lem f n p (filled corner grey ∷ acts) buf named held =
    let size : length buf ≡ pixel_bytes f * n = Holds-length f (pixel_bytes f * n) p buf held in
    let (buf', e, h) = filled-Holds f corner grey n buf named size in
    let (shown, e2, h2) = perform_lem f n (painted corner grey) acts buf' named h in
    (shown, ground arith, h2)
perform_lem f n p (wrote r ∷ acts) buf named held =
    let (shown, e, h) = perform_lem f n p acts buf named held in
    ((r, buf) ∷ shown, ground arith, (refl, held, h))
perform_lem f n p (blanked_off ∷ acts) buf named held = perform_lem f n p acts buf named held

pub bytes_of-whole :
    (f : PixelFormat) (pixels size : ℕ)
    → bytes_of f pixels ≡ some size
    → (f ≢ other) × (n : ℕ) × (size ≡ pixel_bytes f * n)
unfolding bytes_of
bytes_of-whole argb_8888 pixels size e = ((λ q. ground arith), pixels, ground arith)
bytes_of-whole rgb_888 pixels size e = ((λ q. ground arith), pixels, ground arith)
bytes_of-whole rgb_565 pixels size e = ((λ q. ground arith), pixels, ground arith)
bytes_of-whole bgr_565 pixels size e = ((λ q. ground arith), pixels, ground arith)
bytes_of-whole mono01 pixels size e = ((λ q. ground arith), size, omega arith)
bytes_of-whole mono10 pixels size e = ((λ q. ground arith), size, omega arith)
bytes_of-whole other pixels size e = absurd (ground arith)
