-- ===== src/BareMetal/Pins.antt =====
-- The pins of the port in main of app/demos/bare_metal_direct/src/main.c.
use zephyr_start.Base.{
  Bool, arith, each_below, each_below_lem, false, if◌then◌else◌, not, refl, suc, sym, true, zero, ℕ,
  ◌&&◌, ◌<◌, ◌==◌, ◌^◌, ◌||◌, ◌≡◌,
}
use zephyr_start.BareMetal.Defs.{
  Gpio, IsGpio, led_main, led_round, led_rounds, led_start, red_led_pin, bits,
}

abbrev odd : ℕ → Bool
odd zero = false
odd (suc n) = not (odd n)

abbrev same_bit : Bool → Bool → Bool
same_bit true b = b
same_bit false b = not b

same_bit→eq : (a b : Bool) → same_bit a b ≡ true → a ≡ b
same_bit→eq true b h = sym h
same_bit→eq false true h = h
same_bit→eq false false h = refl

turned_never : (led : Bool) (v : Bool) → v ≡ (if led && false then not v else v)
turned_never true v = refl
turned_never false v = refl

turned_again :
    (led o v : Bool)
    → (if led then not (if led && o then not v else v) else (if led && o then not v else v))
      ≡ (if led && not o then not v else v)
turned_again true true true = refl
turned_again true true false = refl
turned_again true false v = refl
turned_again false o v = refl

-- The bits of the two constants that main writes.
mask_bits : (i : ℕ) → i < 32 → (bits (2 ^ red_led_pin) i) ≡ (i == red_led_pin)
unfolding each_below
mask_bits i below =
    same_bit→eq _ _
      (each_below_lem (λ j. same_bit (bits (2 ^ red_led_pin) j) (j == red_led_pin)) 32 i below refl)

pin_bits : (i : ℕ) → i < 32 → bits red_led_pin i ≡ ((i == 1) || (i == 3))
unfolding each_below
pin_bits i below =
    same_bit→eq _ _
      (each_below_lem (λ j. same_bit (bits red_led_pin j) ((j == 1) || (j == 3))) 32 i below refl)

-- A pin that is not the LED's, or the LED's, which is neither of the other two.
start_level :
    (i : ℕ) (v : Bool) (turned : Bool)
    → (if (i == red_led_pin) && turned
        then not (v && not ((i == 1) || (i == 3)))
        else (v && not ((i == 1) || (i == 3))))
      ≡ (if (i == red_led_pin) && turned then not v else (v && not ((i == 1) || (i == 3))))
start_level i v turned = ground arith

module _ {ℓ} {P : Type ℓ} (g : Gpio P) (k : IsGpio g) where
  led_start-pddr :
      (p : P) (i : ℕ) → i < 32 → g.pddr (led_start g p) i ≡ g.pddr p i || (i == red_led_pin)
  unfolding led_start
  led_start-pddr p i below =
      rw (k.set_pcor-pddr, k.set_pddr-pddr, k.clock_pddr, mask_bits i below) refl

  led_start-pdor :
      (p : P) (i : ℕ) → i < 32 → g.pdor (led_start g p) i ≡ g.pdor p i && not ((i == 1) || (i == 3))
  unfolding led_start
  led_start-pdor p i below =
      rw (k.set_pcor-pdor, k.set_pddr-pdor, k.clock_pdor, pin_bits i below) refl

  led_round-pdor :
      (p : P) (i : ℕ)
      → i < 32
      → g.pdor (led_round g p) i ≡ (if i == red_led_pin then not (g.pdor p i) else g.pdor p i)
  unfolding led_round
  led_round-pdor p i below = rw (k.set_ptor-pdor, k.ptor-zero, mask_bits i below) refl

  led_rounds-pddr : (n : ℕ) (p : P) (i : ℕ) → g.pddr (led_rounds g n p) i ≡ g.pddr p i
  unfolding led_rounds led_round
  led_rounds-pddr zero p i = refl
  led_rounds-pddr (suc n) p i = rw (k.set_ptor-pddr) (led_rounds-pddr n p i)

  led_rounds-pdor :
      (n : ℕ) (p : P) (i : ℕ)
      → i < 32
      → g.pdor (led_rounds g n p) i
        ≡ (if (i == red_led_pin) && odd n then not (g.pdor p i) else g.pdor p i)
  unfolding led_rounds
  led_rounds-pdor zero p i below = turned_never (i == red_led_pin) (g.pdor p i)
  led_rounds-pdor (suc n) p i below =
      rw (led_round-pdor (led_rounds g n p) i below, led_rounds-pdor n p i below)
        (turned_again (i == red_led_pin) (odd n) (g.pdor p i))

  -- On a port as the manual describes it, after any number of rounds, the pins that are outputs are
  -- those that were and the LED's, and the levels are those of the start but for the pins 1 and 3,
  -- which are low, and for the LED's, which every round has turned over: the start itself leaves the
  -- LED as it found it.
  pub led_main_lem :
      (n : ℕ) (p : P) (i : ℕ)
      → i < 32
      → (g.pddr (led_main g n p) i ≡ g.pddr p i || (i == red_led_pin))
        × (g.pdor (led_main g n p) i ≡ (
            if (i == red_led_pin) && odd n
            then not (g.pdor p i)
            else (g.pdor p i && not ((i == 1) || (i == 3)))))
  unfolding led_main
  led_main_lem n p i below = (
    rw (led_rounds-pddr n (led_start g p) i) (led_start-pddr p i below),
    rw (led_rounds-pdor n (led_start g p) i below, led_start-pdor p i below)
        (start_level i (g.pdor p i) (odd n)),
  )
