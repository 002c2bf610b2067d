-- ===== src/CanGen/Tests.antt =====
-- A board that meets the contracts, tests on it, and instances of the theorems about
-- app/demos/frdm_can_traffic_generator/src/main.c.
use zephyr_start.Base.{
  List, [], arith, false, get_or, none, pos, refl, some, ℕ, ◌%◌, ◌*◌, ◌+◌, ◌^◌, ◌∷◌, ◌≡◌, ◌≤◌,
}
use zephyr_start.CanGen.Steps.{Completes, IsValid, Reach-IsValid, Reach, Step}
use zephyr_start.CanGen.Shell.{burst_loop, burst_of, cmd_can_gen_burst, shell_sleep}
use zephyr_start.CanGen.Sending.{cmd_can_gen_burst_lem}
use zephyr_start.CanGen.Recovery.{SpacedFrom, loop_rounds-SpacedFrom}
use zephyr_start.CanGen.Parse.{parse_count, parse_period_ms}
use zephyr_start.CanGen.Frames.{decode_le, demo_frames-decode}
use zephyr_start.CanGen.Formed.{Keeps, Reach-Formed}
use zephyr_start.CanGen.Defs.{
  Gen, loop_rounds, send_demo_frames, main_start, k_sleep, sensor, status, main_round, initial,
}
use zephyr_start.CanGen.Decimal.{number_from, parse_period_ms-digits}
use zephyr_start.CanGen.Bus.{
  Bus, board-CountsMalformed, board-CountsRefusals, board-IsClock, board-IsDriver,
  board-IsLittleEndian, board-IsSemaphore, board-LogsStops, board,
}
use zephyr_start.CanGen.Balance.{Ends, Reach-Balances}

abbrev start : Gen Bus
start = initial (record { mailboxes = 0; time = 10; refusals = 0; malformed = 0; stops = [] })

-- `can_gen` and its arguments, in ASCII.
abbrev five_words : List (List ℕ)
five_words = (98 ∷ []) ∷ (53 ∷ []) ∷ []

-- "250" is a period, "10" and "25 " are none; the checks take " +250" too.
period_texts :
    (parse_period_ms (50 ∷ 53 ∷ 48 ∷ []) ≡ some 250)
    × (parse_period_ms (49 ∷ 48 ∷ []) ≡ none)
    × (parse_period_ms (50 ∷ 53 ∷ 32 ∷ []) ≡ none)
    × (parse_period_ms (32 ∷ 43 ∷ 50 ∷ 53 ∷ 48 ∷ []) ≡ some 250)
unfolding parse_period_ms
period_texts = (refl, refl, refl, refl)

-- The generator is stopped.
abbrev stopped : Gen Bus
stopped = record start { generator_enabled = false }

burst_of_five : (cmd_can_gen_burst board five_words stopped).1.tx_enqueued ≡ 15
unfolding cmd_can_gen_burst burst_of burst_loop parse_count send_demo_frames shell_sleep loop_rounds
    k_sleep
burst_of_five = refl

burst_of_five_result : (cmd_can_gen_burst board five_words stopped).0 ≡ pos 0
unfolding cmd_can_gen_burst burst_of burst_loop parse_count send_demo_frames shell_sleep loop_rounds
    k_sleep
burst_of_five_result = refl

parse_period_ms-digits_example : parse_period_ms (50 ∷ 53 ∷ 48 ∷ []) ≡ some 250
unfolding number_from
parse_period_ms-digits_example = parse_period_ms-digits (50 ∷ 53 ∷ 48 ∷ []) (omega arith)

abbrev count : Bus → ℕ
count w = w.mailboxes

after_setup : main_start board start ≡ some start
unfolding main_start
after_setup = refl

after_a_round : Reach board (Completes count) start.world (main_round board start)
after_a_round = Reach.next (Reach.ready after_setup) Step.loop

Reach-IsValid_example : IsValid board count (main_round board start)
Reach-IsValid_example =
    Reach-IsValid board count board-IsSemaphore board-IsDriver start.world after_a_round

after_a_round_refusing :
    Reach board (Ends count (λ w. w.refusals)) start.world (main_round board start)
after_a_round_refusing = Reach.next (Reach.ready after_setup) Step.loop

Reach-Balances_example :
    let g = main_round board start in
    (g.tx_ok + g.tx_err + count g.world) % 2 ^ 32 ≡ (g.tx_enqueued + g.world.refusals) % 2 ^ 32
Reach-Balances_example =
    Reach-Balances board count (λ w. w.refusals) board-IsDriver board-CountsRefusals start.world
      refl refl after_a_round_refusing

after_a_round_keeping : Reach board (Keeps (λ w. w.malformed)) start.world (main_round board start)
after_a_round_keeping = Reach.next (Reach.ready after_setup) Step.loop

Reach-Formed_example : (main_round board start).world.malformed ≡ 0
Reach-Formed_example =
    Reach-Formed board board-IsLittleEndian (λ w. w.malformed) board-CountsMalformed start.world
      after_a_round_keeping refl

-- A state in which four attempts have failed and the queue is full.
abbrev stalled : Gen Bus
stalled = record start {
  tx_fail_streak = 4;
  tx_queue_sem = 0;
  world = record { mailboxes = 3; time = 9000; refusals = 0; malformed = 0; stops = [] };
}

stalled_restarts : (loop_rounds board 1 stalled).world.stops ≡ 9000 ∷ []
unfolding loop_rounds send_demo_frames main_round
stalled_restarts = refl

loop_rounds-SpacedFrom_example :
    (ts : List ℕ) × ((loop_rounds board 1 stalled).world.stops ≡ ts) × SpacedFrom 0 ts
loop_rounds-SpacedFrom_example =
    loop_rounds-SpacedFrom board (λ w. w.time) board-IsClock (λ w. w.stops) board-LogsStops 1
      stalled

cmd_can_gen_burst_lem_example :
    let g' = (cmd_can_gen_burst board five_words stopped).1 in
    (n : ℕ) × (parse_count (53 ∷ []) ≡ some n)
    × (1 ≤ n)
    × (n ≤ 1000)
    × (g'.tx_enqueued ≡ (0 + 3 * n) % 2 ^ 32)
    × (g'.tx_sequence ≡ (0 + n) % 2 ^ 32)
    × (g'.tx_busy ≡ 0)
cmd_can_gen_burst_lem_example =
    cmd_can_gen_burst_lem board five_words stopped (omega arith) refl burst_of_five_result

demo_frames-decode_example :
    let s = (status board 700 123456).payload in
    let t = (sensor board 700).payload in
    let byte = λ (p : List ℕ) (i : ℕ). get_or p i 0 in
    (decode_le (byte s 2 ∷ byte s 3 ∷ []) ≡ 700)
    × (decode_le (byte s 4 ∷ byte s 5 ∷ byte s 6 ∷ byte s 7 ∷ []) ≡ 123456)
    × (decode_le (byte t 0 ∷ byte t 1 ∷ []) ≡ 700)
    × (decode_le (byte t 2 ∷ byte t 3 ∷ []) ≡ 2500)
    × (decode_le (byte t 4 ∷ byte t 5 ∷ []) ≡ 3300)
demo_frames-decode_example = demo_frames-decode board board-IsLittleEndian 700 123456 (omega arith)
