-- ===== src/Counter/States.antt =====
-- `tx_irq_callback`, `state_change_callback` and `state_change_work_handler` of
-- app/demos/can_counter/src/main.c.
use zephyr_start.Base.{
  Bool, Bool-cases, List, [], arith, false, if◌then◌else◌, inl, inr, is_zero, refl, true, ℕ, ℤ,
  ◌++◌, ◌∷◌, ◌≡◌,
}
use zephyr_start.Counter.Defs.{Reading, first_reading, state_to_str}

-- What `tx_irq_callback` logs: an error and who sent the frame.
unfoldable pub tx_irq_callback : ℤ → List ℕ → List (ℤ × List ℕ)
tx_irq_callback error sender = if is_zero error then [] else (error, sender) ∷ []

-- `current_state` and `current_err_cnt`, and whether `state_change_work` is in the work queue.
pub record Changes : Type 0 where
  pub current : Reading
  pub pending : Bool

abbrev pub at_start : Changes
at_start = record { current = first_reading; pending = false }

-- `k_work_submit` puts work into the queue that is not there yet.
unfoldable pub state_change_callback : Reading → Changes → Changes
state_change_callback reading c = record { current = reading; pending = true }

-- What the handler logs: the state's name and the two counts.
unfoldable pub state_change_work_handler : Changes → List ℕ × ℕ × ℕ
unfolding state_to_str
state_change_work_handler c =
    (state_to_str c.current.state, c.current.rx_err_cnt, c.current.tx_err_cnt)

-- The controller changes its state, or the work queue runs its next work.
pub data Happening : Type 0 where
  changed : Reading → Happening
  queue_runs : Happening

-- The work queue takes the work off and runs its handler, if it is there.
unfoldable pub happen : Happening → Changes → List (List ℕ × ℕ × ℕ) × Changes
unfolding state_change_callback state_change_work_handler
happen (changed reading) c = ([], state_change_callback reading c)
happen queue_runs c =
    if c.pending then (state_change_work_handler c ∷ [], record c { pending = false }) else ([], c)

unfoldable pub happenings : List Happening → Changes → List (List ℕ × ℕ × ℕ) × Changes
unfolding happen
happenings [] c = ([], c)
happenings (h ∷ hs) c =
    let (logs, c1) = happen h c in let (later, c2) = happenings hs c1 in (logs ++ later, c2)

-- The last state that the controller changed to.
abbrev pub last_change : Reading → List Happening → Reading
last_change r [] = r
last_change r (changed r' ∷ hs) = last_change r' hs
last_change r (queue_runs ∷ hs) = last_change r hs

abbrev pub last_log : (List ℕ × ℕ × ℕ) → List (List ℕ × ℕ × ℕ) → List ℕ × ℕ × ℕ
last_log log [] = log
last_log log (log' ∷ logs) = last_log log' logs

abbrev pub log_of : Reading → List ℕ × ℕ × ℕ
log_of r = (state_to_str r.state, r.rx_err_cnt, r.tx_err_cnt)

-- However the state changes and the work queue runs, once the queue has no more of the work what was
-- logged last is the last state and counts that the controller changed to.
pub happenings_lem :
    (hs : List Happening) (c : Changes) (shown : List ℕ × ℕ × ℕ)
    → (c.pending ≡ false → shown ≡ log_of c.current)
    → (happenings hs c).1.pending ≡ false
    → last_log shown (happenings hs c).0 ≡ log_of (last_change c.current hs)
unfolding happenings happen state_change_callback state_change_work_handler
happenings_lem [] c shown up done = up done
happenings_lem (changed r ∷ hs) c shown up done =
    happenings_lem hs (record { current = r; pending = true }) shown (λ e. ground arith) done
happenings_lem (queue_runs ∷ hs) c shown up done = elim (Bool-cases c.pending) [
  | inl is ↦ rw is (
      happenings_lem hs (record c { pending = false }) (log_of c.current) (λ e. refl)
        (rw is at done))
  | inr not_yet ↦ simp not_yet (happenings_lem hs c shown up (simp not_yet at done))
]
