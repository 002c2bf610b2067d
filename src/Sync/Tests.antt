-- ===== src/Sync/Tests.antt =====
-- Tests, and instances of the theorems about app/demos/synchronization/src/main.c.
use zephyr_start.Base.{
  List, [], ap, arith, eagain, length, min, neg, pos, refl, suc, true, zero, ℕ, ℤ, ◌+◌, ◌-◌, ◌∷◌,
  ◌≡◌, ◌≢◌,
}
use zephyr_start.Sync.Turns.{steps-progress, steps-said}
use zephyr_start.Sync.Defs.{
  Name, hello_loop, step, steps, thread_a, thread_a_step, thread_b, thread_b_step, Event, run,
  start, initial,
}
use zephyr_start.Kernel.{IsSemaphore}
use zephyr_start.Sync.Phases.{turns}

abbrev take_of : ℕ → ℤ × ℕ
take_of zero = (neg eagain, 0)
take_of (suc n) = (pos 0, n)

abbrev give_of : ℕ → ℕ
give_of n = min (n + 1) 1

abbrev reset_of : ℕ → ℕ
reset_of n = 0

take_of-some : (n : ℕ) → n ≢ 0 → take_of n ≡ (pos 0, n - 1)
take_of-some zero h = absurd (h refl)
take_of-some (suc n) h = ap (λ k. (pos 0, k)) (omega arith)

semaphore : IsSemaphore 1 take_of give_of reset_of
semaphore = record {
  take_some = take_of-some;
  take_none_err = λ e. cc;
  take_none_count = refl;
  give_lem = λ n. refl;
  reset_lem = λ n. refl;
}

-- thread_b runs too early, and main starts thread_a late.
abbrev late : List Event
late =
    run thread_b
    ∷ run thread_a
    ∷ start
    ∷ run thread_b
    ∷ run thread_a
    ∷ run thread_a
    ∷ run thread_b
    ∷ run thread_a
    ∷ run thread_b
    ∷ run thread_b
    ∷ []

late_said : (steps take_of give_of late initial).said ≡ thread_b ∷ thread_a ∷ []
unfolding steps step thread_a_step thread_b_step hello_loop
late_said = refl

steps-said_example : let s = steps take_of give_of late initial in s.said ≡ turns (length s.said)
steps-said_example = steps-said take_of give_of reset_of semaphore late

late_started : (steps take_of give_of late initial).started ≡ true
unfolding steps step thread_a_step thread_b_step hello_loop
late_started = refl

steps-progress_example :
    let s = steps take_of give_of late initial in (n : Name) × (step take_of give_of (run n) s ≢ s)
steps-progress_example = steps-progress take_of give_of reset_of semaphore late late_started
