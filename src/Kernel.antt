-- ===== src/Kernel.antt =====
-- What the applications rely on of the kernel, which is not in the repository.
-- Zephyr's documented semaphore of a limit: a take that does not wait fails on a count of 0 and
-- lowers any other; a give raises the count up to the limit; a reset makes it 0.
use zephyr_start.Base.{min, pos, ℕ, ℤ, ◌+◌, ◌-◌, ◌≡◌, ◌≢◌}

pub record IsSemaphore (limit : ℕ) (sem_take : ℕ → ℤ × ℕ) (sem_give sem_reset : ℕ → ℕ)
    : Type 0 where
  pub take_some : (n : ℕ) → n ≢ 0 → sem_take n ≡ (pos 0, n - 1)
  pub take_none_err : (sem_take 0).0 ≢ pos 0
  pub take_none_count : (sem_take 0).1 ≡ 0
  pub give_lem : (n : ℕ) → sem_give n ≡ min (n + 1) limit
  pub reset_lem : (n : ℕ) → sem_reset n ≡ 0
