-- ===== src/DirectIrq/Tests.antt =====
-- Tests of the coprocessor's set-up, and an instance of its theorem.
use zephyr_start.Base.{Bool, List, [], false, refl, true, ℕ, ◌∷◌, ◌≡◌}
use zephyr_start.DirectIrq.Order.{Reach-Order}
use zephyr_start.DirectIrq.Defs.{
  App, Chip, IsChip, Seen, SetupCall, after_connected, after_enabled, after_flag, after_running,
  begins, ezh_start_app, smartdma_irq_handler, Reach, call, interrupt, goes_on,
}

-- A chip whose coprocessor has counted to 7.
record Board : Type 0 where
  is_enabled : Bool
  is_connected : Bool
  is_running : Bool
  external_flag : ℕ

abbrev chip : Chip Board
chip = record {
  call_chip = λ x w. record {
    is_enabled = after_enabled x w.is_enabled;
    is_connected = after_connected x w.is_connected;
    is_running = after_running x w.is_running;
    external_flag = after_flag x w.external_flag;
  };
  set_external_flag = λ n w. record w { external_flag = n };
  ezh2arm = λ w. 7;
}

abbrev seen : Seen Board
seen = record {
  enabled = λ w. w.is_enabled;
  connected = λ w. w.is_connected;
  running = λ w. w.is_running;
  flag = λ w. w.external_flag;
}

chip-IsChip : IsChip chip seen
chip-IsChip = record {
  call_enabled = λ x w. refl;
  call_connected = λ x w. refl;
  call_running = λ x w. refl;
  call_flag = λ x w. refl;
  set_enabled = λ n w. refl;
  set_connected = λ n w. refl;
  set_running = λ n w. refl;
  set_flag = λ n w. refl;
}

abbrev at_reset : App Board
at_reset = record {
  chip = record { is_enabled = false; is_connected = false; is_running = false; external_flag = 1 };
  test_val = 0;
}

abbrev calls_made : App Board → List SetupCall → App Board
calls_made a [] = a
calls_made a (x ∷ xs) = calls_made (record a { chip = chip.call_chip x a.chip }) xs

all_made :
    (xs : List SetupCall) {a : App Board}
    → Reach chip seen at_reset xs a
    → Reach chip seen at_reset [] (calls_made a xs)
all_made [] steps = steps
all_made (x ∷ xs) steps = all_made xs (goes_on steps call)

abbrev prepared : App Board
prepared = calls_made at_reset ezh_start_app

-- The set-up and one interrupt.
interrupted : Reach chip seen at_reset [] (smartdma_irq_handler chip prepared)
interrupted = goes_on (all_made ezh_start_app begins) (interrupt refl)

value_read : (smartdma_irq_handler chip prepared).test_val ≡ 7
unfolding smartdma_irq_handler
value_read = refl

abbrev no_calls : List SetupCall
no_calls = []

Reach-Order_example :
    let a = smartdma_irq_handler chip prepared in
    (no_calls ≡ [])
    × (seen.connected a.chip ≡ true)
    × (seen.running a.chip ≡ true)
    × (seen.flag a.chip ≡ 0)
unfolding smartdma_irq_handler
Reach-Order_example = Reach-Order chip seen chip-IsChip refl interrupted refl
