-- ===== src/Counter/Poll.antt =====
-- What `poll_state_thread` of app/demos/can_counter/src/main.c reports.
use zephyr_start.Base.{
  Bool-cases, List, [], arith, false, if◌then◌else◌, inl, inr, is_zero, last_or, refl, true, ℤ, ◌∷◌,
  ◌≡◌, ◌≢◌,
}
use zephyr_start.Counter.Defs.{
  Polled, Reading, poll_round, poll_state_thread, failed, reported, unchanged, same,
}

-- The readings that `can_get_state` gave without an error.
abbrev pub readings : List (ℤ × Reading) → List Reading
readings [] = []
readings ((err, r) ∷ rs) = if is_zero err then r ∷ readings rs else readings rs

-- The readings that are logged.
abbrev pub reports : List Polled → List Reading
reports [] = []
reports (failed _ ∷ ps) = reports ps
reports (reported r ∷ ps) = r ∷ reports ps
reports (unchanged ∷ ps) = reports ps

-- Each differs from the one before it, the first from `r`.
abbrev pub NoRepeat : Reading → List Reading → Type 0
NoRepeat r [] = Unit
NoRepeat r (s ∷ ss) = (s ≢ r) × NoRepeat s ss

same-eq : (r s : Reading) → same r s ≡ true → r ≡ s
same-eq r s h = grind arith

same-ne : (r s : Reading) → same r s ≡ false → r ≢ s
same-ne r s h = λ e. grind arith

-- Whatever is read, the last report is of the last reading without an error, or of the starting one
-- if there is none, and so is the reading that the thread keeps; no report repeats the one before
-- it.
pub poll_state_thread_lem :
    (prev : Reading) (rs : List (ℤ × Reading))
    → let ps = (poll_state_thread prev rs).0 in
      (last_or prev (reports ps) ≡ last_or prev (readings rs))
      × ((poll_state_thread prev rs).1 ≡ last_or prev (readings rs))
      × NoRepeat prev (reports ps)
unfolding poll_state_thread poll_round
poll_state_thread_lem prev [] = (refl, refl, tt)
poll_state_thread_lem prev ((err, r) ∷ rs) = elim (Bool-cases (is_zero err)) [
  | inl ok ↦ elim (Bool-cases (same r prev)) [
    | inl old ↦ ground (arith, same-eq r prev old, poll_state_thread_lem prev rs)
    | inr new ↦ ground (arith, same-ne r prev new, poll_state_thread_lem r rs)
  ]
  | inr bad ↦ ground (arith, poll_state_thread_lem prev rs)
]
