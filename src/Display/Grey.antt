-- ===== src/Display/Grey.antt =====
-- The grey colours of app/demos/display/src/main.c, channel by channel.
use zephyr_start.Base.{
  ==→eq, Bool, [], ap, arith, each_below, each_below_lem, refl, sym, ℕ, ◌%◌, ◌*◌, ◌+◌, ◌<◌, ◌==◌,
  ◌^◌, ◌∙◌, ◌∷◌, ◌≡◌,
}
use zephyr_start.Display.Fill.{
  bottom_left, color24, get_rgb565_color, grey24, grey565, pixel_rgb888,
}
use Prim.Native.Nat.{bit_or}

-- The 16-bit colour is the sum of its channels.
grey565_sum : ℕ → Bool
grey565_sum s = grey565 s == s * 2 ^ 11 + (2 * s) * 2 ^ 5 + s

grey565_small : (grey : ℕ) → grey < 32 → grey565 grey ≡ grey * 2 ^ 11 + (2 * grey) * 2 ^ 5 + grey
unfolding grey565_sum grey565 each_below
grey565_small grey h = ==→eq _ _ (each_below_lem grey565_sum 32 grey h refl)

grey24_sum : ℕ → Bool
grey24_sum s = grey24 s == s * 2 ^ 16 + s * 2 ^ 8 + s

grey24_small : (grey : ℕ) → grey < 256 → grey24 grey ≡ grey * 2 ^ 16 + grey * 2 ^ 8 + grey
unfolding grey24_sum grey24 each_below
grey24_small grey h = ==→eq _ _ (each_below_lem grey24_sum 256 grey h refl)

grey565_mod : (grey : ℕ) → grey565 grey ≡ grey565 (grey % 32)
unfolding grey565
grey565_mod grey =
    let same : grey % 32 ≡ grey % 32 % 32 = omega arith in
    ap (λ s. bit_or (bit_or (s * 2 ^ 11) (s * 2 ^ 6)) s) same

three : {a b c d : ℕ} → a ≡ d → b ≡ d → c ≡ d → (a ∷ b ∷ c ∷ []) ≡ (d ∷ d ∷ d ∷ [])
three ha hb hc = cc

-- The grey of 24 bits has its value in all three channels. That of 16 bits has the low five bits of
-- the value in red and in blue and twice those in green, which has six bits, and no other bit, so
-- that values that differ by 32 have one colour.
pub greys_lem :
    (grey : ℕ)
    → grey < 256
    → (pixel_rgb888 (color24 bottom_left grey) ≡ grey ∷ grey ∷ grey ∷ [])
      × (get_rgb565_color bottom_left grey
          ≡ (grey % 32) * 2 ^ 11 + (2 * (grey % 32)) * 2 ^ 5 + grey % 32)
      × (get_rgb565_color bottom_left grey < 2 ^ 16)
      × (get_rgb565_color bottom_left (grey + 32) ≡ get_rgb565_color bottom_left grey)
unfolding color24 get_rgb565_color pixel_rgb888
greys_lem grey h =
    let c24 = grey24_small grey h in
    let c565 : grey565 grey ≡ (grey % 32) * 2 ^ 11 + (2 * (grey % 32)) * 2 ^ 5 + grey % 32 =
      grey565_mod grey ∙ grey565_small (grey % 32) (omega arith) in
    let again : (grey + 32) % 32 ≡ grey % 32 = omega arith in
    (
      three (omega arith) (omega arith) (omega arith),
      c565,
      omega arith,
      grey565_mod (grey + 32) ∙ (ap grey565 again ∙ sym (grey565_mod grey)),
    )
