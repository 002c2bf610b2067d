-- ===== src/BareMetal/Tests.antt =====
-- Tests of the bare metal LED, and an instance of its theorem.
use zephyr_start.Base.{arith, false, if◌then◌else◌, not, refl, true, ◌&&◌, ◌≡◌}
use zephyr_start.BareMetal.Pins.{led_main_lem}
use zephyr_start.BareMetal.Defs.{Gpio, IsGpio, Word, led_main, led_rounds, led_start}

-- A port of three registers.
record Registers : Type 0 where
  direction : Word
  level : Word

abbrev port : Gpio Registers
port = record {
  enable_clock = λ p. p;
  pddr = λ p. p.direction;
  set_pddr = λ v p. record p { direction = v };
  set_pcor = λ v p. record p { level = λ i. p.level i && not (v i) };
  ptor = λ p i. false;
  set_ptor = λ v p. record p { level = λ i. if v i then not (p.level i) else p.level i };
  pdor = λ p. p.level;
}

port-IsGpio : IsGpio port
port-IsGpio = record {
  clock_pddr = λ p i. refl;
  clock_pdor = λ p i. refl;
  set_pddr-pddr = λ v p i. refl;
  set_pddr-pdor = λ v p i. refl;
  set_pcor-pddr = λ v p i. refl;
  set_pcor-pdor = λ v p i. refl;
  ptor-zero = λ p i. refl;
  set_ptor-pddr = λ v p i. refl;
  set_ptor-pdor = λ v p i. refl;
}

-- All pins are high inputs.
abbrev all_high : Registers
all_high = record { direction = λ i. false; level = λ i. true }

-- The LED is high after the start, although the comment says that it is cleared, and pin 3 is low.
start_clears :
    (port.pdor (led_main port 0 all_high) 10 ≡ true)
    × (port.pdor (led_main port 0 all_high) 3 ≡ false)
unfolding led_main led_rounds led_start
start_clears = (refl, refl)

led_main_example :
    (port.pddr (led_main port 3 all_high) 10 ≡ true)
    × (port.pdor (led_main port 3 all_high) 10 ≡ false)
led_main_example = led_main_lem port port-IsGpio 3 all_high 10 (omega arith)
