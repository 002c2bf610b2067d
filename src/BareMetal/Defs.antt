-- ===== src/BareMetal/Defs.antt =====
-- main of app/demos/bare_metal_direct/src/main.c, with the registers of GPIO0 as a parameter.
use zephyr_start.Base.{
  Bool, false, if◌then◌else◌, not, suc, zero, ℕ, ◌%◌, ◌&&◌, ◌/◌, ◌==◌, ◌^◌, ◌||◌, ◌≡◌,
}

-- A register of 32 bits, by its bits.
abbrev pub Word : Type 0
Word = ℕ → Bool

-- The bits of a number.
abbrev pub bits : ℕ → Word
bits v i = (v / 2 ^ i) % 2 == 1

-- The operator `|` of C.
abbrev pub or : Word → Word → Word
or a b i = a i || b i

-- The port and its clock: what is read from the registers that main names, and what a write does.
pub record Gpio {ℓ} (P : Type ℓ) : Type ℓ where
  pub enable_clock : P → P
  pub pddr : P → Word
  pub set_pddr : Word → P → P
  pub set_pcor : Word → P → P
  pub ptor : P → Word
  pub set_ptor : Word → P → P
  -- the level that the port drives on each pin that is an output
  pub pdor : P → Word

-- As the reference manual has them: a one written to PCOR clears the pin and one written to PTOR
-- toggles it, a zero leaves it, and PTOR reads as zero.
pub record IsGpio {ℓ} {P : Type ℓ} (g : Gpio P) : Type ℓ where
  pub clock_pddr : (p : P) (i : ℕ) → g.pddr (g.enable_clock p) i ≡ g.pddr p i
  pub clock_pdor : (p : P) (i : ℕ) → g.pdor (g.enable_clock p) i ≡ g.pdor p i
  pub set_pddr-pddr : (v : Word) (p : P) (i : ℕ) → g.pddr (g.set_pddr v p) i ≡ v i
  pub set_pddr-pdor : (v : Word) (p : P) (i : ℕ) → g.pdor (g.set_pddr v p) i ≡ g.pdor p i
  pub set_pcor-pddr : (v : Word) (p : P) (i : ℕ) → g.pddr (g.set_pcor v p) i ≡ g.pddr p i
  pub set_pcor-pdor :
      (v : Word) (p : P) (i : ℕ) → g.pdor (g.set_pcor v p) i ≡ g.pdor p i && not (v i)
  pub ptor-zero : (p : P) (i : ℕ) → g.ptor p i ≡ false
  pub set_ptor-pddr : (v : Word) (p : P) (i : ℕ) → g.pddr (g.set_ptor v p) i ≡ g.pddr p i
  pub set_ptor-pdor :
      (v : Word) (p : P) (i : ℕ)
      → g.pdor (g.set_ptor v p) i ≡ (if v i then not (g.pdor p i) else g.pdor p i)

abbrev pub red_led_pin : ℕ
red_led_pin = 10

module _ {ℓ} {P : Type ℓ} (g : Gpio P) where
  -- main up to its loop
  unfoldable pub led_start : P → P
  led_start p =
      let clocked = g.enable_clock p in
      let output = g.set_pddr (or (g.pddr clocked) (bits (2 ^ red_led_pin))) clocked in
      g.set_pcor (bits red_led_pin) output

  -- A round of the loop; the sleep changes no register.
  unfoldable pub led_round : P → P
  led_round p = g.set_ptor (or (g.ptor p) (bits (2 ^ red_led_pin))) p

  unfoldable pub led_rounds : ℕ → P → P
  led_rounds zero p = p
  led_rounds (suc n) p = let before = led_rounds n p in led_round before

  -- main after `n` rounds
  unfoldable pub led_main : ℕ → P → P
  led_main n p = led_rounds n (led_start p)
