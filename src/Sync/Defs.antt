-- ===== src/Sync/Defs.antt =====
-- The two threads of app/demos/synchronization/src/main.c as a system of steps.
use zephyr_start.Base.{Bool, List, [], false, if◌then◌else◌, is_zero, true, ℕ, ℤ, ◌∷◌}

pub data Name : Type 0 where
  thread_a thread_b : Name

-- Where a thread stands in the `while (1)` of `hello_loop`: before the take of its semaphore, before
-- its greeting, before the give.
pub data Place : Type 0 where
  waiting taken greeted : Place

-- The two threads, the counts of their semaphores, and the greetings, the last one first; `started`
-- says that `main` has started thread_a.
pub record Sys : Type 0 where
  pub started : Bool
  pub a_place : Place
  pub b_place : Place
  pub a_sem : ℕ
  pub b_sem : ℕ
  pub said : List Name

abbrev pub initial : Sys
initial = record {
  started = false;
  a_place = waiting;
  b_place = waiting;
  a_sem = 1;
  b_sem = 0;
  said = [];
}

-- `main` starts thread_a; or a thread gets to run until its next call.
pub data Event : Type 0 where
  start : Event
  run : Name → Event

-- The result and the new count of a take, and the new count of a give. A take that would fail waits,
-- as K_FOREVER makes it.
module _ (k_sem_take : ℕ → ℤ × ℕ) (k_sem_give : ℕ → ℕ) where
  -- One step of `hello_loop`: the place, whether it greets, and the counts of its own and of the other
  -- semaphore.
  unfoldable pub hello_loop : Place → ℕ → ℕ → (Place × Bool) × ℕ × ℕ
  hello_loop waiting my_sem other_sem =
      let (ret, count) = k_sem_take my_sem in
      if is_zero ret
      then ((taken, false), count, other_sem)
      else ((waiting, false), my_sem, other_sem)
  hello_loop taken my_sem other_sem = ((greeted, true), my_sem, other_sem)
  hello_loop greeted my_sem other_sem = ((waiting, false), my_sem, k_sem_give other_sem)

  abbrev pub greet : Bool → Name → List Name → List Name
  greet true name said = name ∷ said
  greet false name said = said

  unfoldable pub thread_a_step : Sys → Sys
  unfolding hello_loop
  thread_a_step s =
      let ((place, speaks), mine, other) = hello_loop s.a_place s.a_sem s.b_sem in
      record s { a_place = place; a_sem = mine; b_sem = other; said = greet speaks thread_a s.said }

  unfoldable pub thread_b_step : Sys → Sys
  unfolding hello_loop
  thread_b_step s =
      let ((place, speaks), mine, other) = hello_loop s.b_place s.b_sem s.a_sem in
      record s { b_place = place; b_sem = mine; a_sem = other; said = greet speaks thread_b s.said }

  unfoldable pub step : Event → Sys → Sys
  unfolding thread_a_step thread_b_step
  step start s = record s { started = true }
  step (run thread_a) s = if s.started then thread_a_step s else s
  step (run thread_b) s = thread_b_step s

  unfoldable pub steps : List Event → Sys → Sys
  steps [] s = s
  steps (e ∷ es) s = steps es (step e s)
