-- ===== src/Sync/Turns.antt =====
-- Whose turn it is, in any schedule of app/demos/synchronization/src/main.c.
use zephyr_start.Base.{
  Bool, Bool-cases, List, [], ap, arith, false, if◌then◌else◌, inl, inr, is_zero, is_zero→eq,
  length, pos, refl, suc, sym, true, zero, ℕ, ℤ, ◌*◌, ◌+◌, ◌∙◌, ◌∷◌, ◌≡◌, ◌≢◌, ◌⊎◌,
}
use zephyr_start.Sync.Phases.{
  Phase, a_next, a_said, a_took, at-excludes, at-said, at-started, b_next, b_said, b_took,
  full_rounds, moves_a, moves_b, said_a_next, turn_a, turn_again, turn_b, at, turns,
}
use zephyr_start.Sync.Defs.{
  Name, hello_loop, step, steps, thread_a, thread_a_step, thread_b, thread_b_step, waiting, Event,
  initial, run, start,
}
use zephyr_start.Kernel.{IsSemaphore}
use native.Mathlib.Nat.{zero-add}

module _ (k_sem_take : ℕ → ℤ × ℕ) (k_sem_give k_sem_reset : ℕ → ℕ)
    (sem : IsSemaphore 1 k_sem_take k_sem_give k_sem_reset) where
  -- The semaphore at the counts that occur.
  take_0 : is_zero (k_sem_take 0).0 ≡ false
  take_0 = elim (Bool-cases (is_zero (k_sem_take 0).0)) [
    | inl e ↦ absurd (sem.take_none_err (is_zero→eq (k_sem_take 0).0 e))
    | inr e ↦ e
  ]

  take_1 : k_sem_take 1 ≡ (pos 0, 0)
  take_1 = sem.take_some 1 (λ e. absurd (omega arith))

  give_0 : k_sem_give 0 ≡ 1
  give_0 = sem.give_lem 0

  -- The phase after a thread has run.
  after : Name → Phase → ℕ → Phase × ℕ
  after thread_a a_next k = (a_took, k)
  after thread_a a_took k = (a_said, k)
  after thread_a a_said k = (b_next, k)
  after thread_a p k = (p, k)
  after thread_b b_next k = (b_took, k)
  after thread_b b_took k = (b_said, k)
  after thread_b b_said k = (a_next, suc k)
  after thread_b p k = (p, k)

  thread_a_step-at :
      (started : Bool) (p : Phase) (k : ℕ)
      → thread_a_step k_sem_take k_sem_give (at started p k)
        ≡ at started (after thread_a p k).0 (after thread_a p k).1
  unfolding thread_a_step hello_loop at after
  thread_a_step-at started a_next k = ground (arith, take_1)
  thread_a_step-at started a_took k = ground (arith, turn_a k)
  thread_a_step-at started a_said k = ground (arith, give_0)
  thread_a_step-at started b_next k = ground (arith, take_0)
  thread_a_step-at started b_took k = ground (arith, take_0)
  thread_a_step-at started b_said k = ground (arith, take_0)

  thread_b_step-at :
      (started : Bool) (p : Phase) (k : ℕ)
      → thread_b_step k_sem_take k_sem_give (at started p k)
        ≡ at started (after thread_b p k).0 (after thread_b p k).1
  unfolding thread_b_step hello_loop at after
  thread_b_step-at started a_next k = ground (arith, take_0)
  thread_b_step-at started a_took k = ground (arith, take_0)
  thread_b_step-at started a_said k = ground (arith, take_0)
  thread_b_step-at started b_next k = ground (arith, take_1)
  thread_b_step-at started b_took k = ground (arith, turn_b k)
  thread_b_step-at started b_said k = ground (arith, give_0, turn_again k)

  phase_started :
      (started : Bool) (p : Phase) (k : ℕ)
      → step k_sem_take k_sem_give start (at started p k) ≡ at true p k
  unfolding step at
  phase_started started a_next k = refl
  phase_started started a_took k = refl
  phase_started started a_said k = refl
  phase_started started b_next k = refl
  phase_started started b_took k = refl
  phase_started started b_said k = refl

  run_a :
      (started : Bool) (p : Phase) (k : ℕ)
      → step k_sem_take k_sem_give (run thread_a) (at started p k)
        ≡ (if started then thread_a_step k_sem_take k_sem_give (at started p k) else at started p k)
  unfolding step
  run_a started p k =
      ap (λ b. if b then thread_a_step k_sem_take k_sem_give (at started p k) else at started p k)
        (at-started started p k)

  run_b :
      (started : Bool) (p : Phase) (k : ℕ)
      → step k_sem_take k_sem_give (run thread_b) (at started p k)
        ≡ thread_b_step k_sem_take k_sem_give (at started p k)
  unfolding step
  run_b started p k = refl

  -- In each phase a thread is not blocked.
  at-progress :
      (p : Phase) (k : ℕ)
      → (n : Name) × (step k_sem_take k_sem_give (run n) (at true p k) ≢ at true p k)
  unfolding at after step
  at-progress a_next k =
      (thread_a, moves_a (run_a true a_next k ∙ thread_a_step-at true a_next k) (λ e. cc))
  at-progress a_took k =
      (thread_a, moves_a (run_a true a_took k ∙ thread_a_step-at true a_took k) (λ e. cc))
  at-progress a_said k =
      (thread_a, moves_a (run_a true a_said k ∙ thread_a_step-at true a_said k) (λ e. cc))
  at-progress b_next k = (thread_b, moves_b (thread_b_step-at true b_next k) (λ e. cc))
  at-progress b_took k = (thread_b, moves_b (thread_b_step-at true b_took k) (λ e. cc))
  at-progress b_said k = (thread_b, moves_b (thread_b_step-at true b_said k) (λ e. cc))

  step-at :
      (e : Event) (started : Bool) (p : Phase) (k : ℕ)
      → (started' : Bool) × (p' : Phase) × (k' : ℕ) × (step k_sem_take k_sem_give e (at started p k)
          ≡ at started' p' k')
  unfolding step at
  step-at start started p k = (true, p, k, phase_started started p k)
  step-at (run thread_a) true p k = (
    true,
    (after thread_a p k).0,
    (after thread_a p k).1,
    run_a true p k ∙ thread_a_step-at true p k,
  )
  step-at (run thread_a) false p k = (false, p, k, run_a false p k)
  step-at (run thread_b) started p k =
      (started, (after thread_b p k).0, (after thread_b p k).1, thread_b_step-at started p k)

  steps-at :
      (es : List Event) (started : Bool) (p : Phase) (k : ℕ)
      → (started' : Bool) × (p' : Phase) × (k' : ℕ) × (steps k_sem_take k_sem_give es
            (at started p k)
          ≡ at started' p' k')
  unfolding steps
  steps-at [] started p k = (started, p, k, refl)
  steps-at (e ∷ es) started p k =
      let (started1, p1, k1, here) = step-at e started p k in
      let (started2, p2, k2, rest) = steps-at es started1 p1 k1 in
      (started2, p2, k2, ap (steps k_sem_take k_sem_give es) here ∙ rest)

  -- Every schedule leads to one of the phases.
  reached :
      (es : List Event)
      → (started : Bool) × (p : Phase) × (k : ℕ) × (steps k_sem_take k_sem_give es initial
          ≡ at started p k)
  unfolding at
  reached es = steps-at es false a_next 0

  -- In any schedule the greetings alternate, and thread_a greets first.
  pub steps-said :
      (es : List Event)
      → let s = steps k_sem_take k_sem_give es initial in s.said ≡ turns (length s.said)
  steps-said es = let (started, p, k, e) = reached es in rw e (at-said started p k)

  -- In any schedule one of the threads stands before the take of its semaphore: they are never both
  -- between the take and the give.
  pub steps-excludes :
      (es : List Event)
      → let s = steps k_sem_take k_sem_give es initial in
        (s.a_place ≡ waiting) ⊎ (s.b_place ≡ waiting)
  steps-excludes es = let (started, p, k, e) = reached es in rw e (at-excludes started p k)

  -- No schedule ends in a deadlock: once thread_a has been started, one of the threads can always
  -- take a step that changes the state.
  pub steps-progress :
      (es : List Event)
      → let s = steps k_sem_take k_sem_give es initial in
        s.started ≡ true → (n : Name) × (step k_sem_take k_sem_give (run n) s ≢ s)
  steps-progress es h =
      let (started, p, k, e) = reached es in
      let on : started ≡ true = sym (at-started started p k) ∙ (ap (λ s. s.started) (sym e) ∙ h) in
      let there : steps k_sem_take k_sem_give es initial ≡ at true p k =
        e ∙ ap (λ b. at b p k) on in
      rw there (at-progress p k)

  run-at :
      (n : Name) (p : Phase) (k : ℕ) (es : List Event)
      → steps k_sem_take k_sem_give (run n ∷ es) (at true p k)
        ≡ steps k_sem_take k_sem_give es (at true (after n p k).0 (after n p k).1)
  unfolding steps
  run-at thread_a p k es =
      ap (steps k_sem_take k_sem_give es) (run_a true p k ∙ thread_a_step-at true p k)
  run-at thread_b p k es =
      ap (steps k_sem_take k_sem_give es) (run_b true p k ∙ thread_b_step-at true p k)

  rounds-at :
      (n k : ℕ)
      → steps k_sem_take k_sem_give (full_rounds n) (at true a_next k) ≡ at true a_next (n + k)
  unfolding after steps
  rounds-at zero k = ap (at true a_next) (sym (zero-add k))
  rounds-at (suc n) k =
      let b3 : List Event = run thread_b ∷ run thread_b ∷ run thread_b ∷ full_rounds n in
      run-at thread_a a_next k (run thread_a ∷ run thread_a ∷ b3)
      ∙ (run-at thread_a a_took k (run thread_a ∷ b3)
          ∙ (run-at thread_a a_said k b3
              ∙ (run-at thread_b b_next k (run thread_b ∷ run thread_b ∷ full_rounds n)
                  ∙ (run-at thread_b b_took k (run thread_b ∷ full_rounds n)
                      ∙ (run-at thread_b b_said k (full_rounds n)
                          ∙ (rounds-at n (suc k) ∙ ap (at true a_next) (omega arith)))))))

  from_start :
      (n : ℕ) → steps k_sem_take k_sem_give (start ∷ full_rounds n) initial ≡ at true a_next (n + 0)
  unfolding steps step at
  from_start n = rounds-at n 0

  -- Three steps of each thread are a round: after `n` rounds each thread has greeted `n` times.
  pub steps-rounds :
      (n : ℕ) → (steps k_sem_take k_sem_give (start ∷ full_rounds n) initial).said ≡ turns (2 * n)
  steps-rounds n = ap (λ s. s.said) (from_start n) ∙ said_a_next (n + 0) ∙ ap turns (omega arith)
