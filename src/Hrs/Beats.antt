-- ===== src/Hrs/Beats.antt =====
-- The heart rates that app/demos/rw612-ble-shell/src/main.c notifies.
use zephyr_start.Base.{
  Bool, Bool-cases, List, [], ap, arith, inl, inr, length, refl, suc, zero, ℕ, ℤ, ◌%◌, ◌++◌, ◌+◌,
  ◌-◌, ◌<◌, ◌∙◌, ◌∷◌, ◌≡◌, ◌≤◌, ◌⊎◌,
}
use zephyr_start.Hrs.Defs.{
  Hrs, Out, bt_hrs_notify, bt_le_adv_start, bt_le_adv_stop, cmd_hrs_simulate, command, handle_all,
  hrs_notify, simulate_off, simulate_on, handle, second, Event, main_round,
}

-- The values notified, in order.
abbrev pub notified : List Out → List ℕ
notified [] = []
notified (bt_le_adv_start ∷ outs) = notified outs
notified (bt_le_adv_stop ∷ outs) = notified outs
notified (bt_hrs_notify x ∷ outs) = x ∷ notified outs

-- A rate of the simulation.
abbrev pub IsRate : ℕ → Type 0
IsRate x = (90 ≤ x) × (x < 160)

-- The `n` rates that follow `x` on the cycle of 70.
abbrev pub beats : ℕ → ℕ → List ℕ
beats x zero = []
beats x (suc n) = let next = 90 + (x - 89) % 70 in next ∷ beats next n

command-silent :
    (broadcaster : Bool) (arg : List ℕ) (err : ℤ) (s : Hrs)
    → let (ret, outs, s') = cmd_hrs_simulate broadcaster arg err s in
      (notified outs ≡ []) × (s'.heartrate ≡ s.heartrate)
unfolding cmd_hrs_simulate simulate_on simulate_off
command-silent broadcaster arg err s = ground arith

main_round-beat :
    (s : Hrs)
    → IsRate s.heartrate
    → let (outs, s') = main_round s in
      ((notified outs ≡ []) × (s'.heartrate ≡ s.heartrate))
      ⊎ ((notified outs ≡ s'.heartrate ∷ []) × (s'.heartrate ≡ 90 + (s.heartrate - 89) % 70))
unfolding main_round hrs_notify
main_round-beat s h = elim (Bool-cases s.hrs_simulate) [
  | inl on ↦ inr (ground arith)
  | inr off ↦ inl (ground arith)
]

-- What one event does to the notified rates.
handle-beat :
    (broadcaster : Bool) (e : Event) (s : Hrs)
    → IsRate s.heartrate
    → let (outs, s') = handle broadcaster e s in
      ((notified outs ≡ []) × (s'.heartrate ≡ s.heartrate))
      ⊎ ((notified outs ≡ s'.heartrate ∷ []) × (s'.heartrate ≡ 90 + (s.heartrate - 89) % 70))
unfolding handle
handle-beat broadcaster (command arg err) s h = inl (command-silent broadcaster arg err s)
handle-beat broadcaster second s h = main_round-beat s h

notified-append : (xs ys : List Out) → notified (xs ++ ys) ≡ notified xs ++ notified ys
notified-append [] ys = refl
notified-append (bt_le_adv_start ∷ xs) ys = notified-append xs ys
notified-append (bt_le_adv_stop ∷ xs) ys = notified-append xs ys
notified-append (bt_hrs_notify x ∷ xs) ys = ap (λ zs. x ∷ zs) (notified-append xs ys)

-- Rates `xs` that follow `x` on the cycle and end at `z`.
abbrev Follow : ℕ → List ℕ → ℕ → Type 0
Follow x xs z = (xs ≡ beats x (length xs)) × IsRate z × (z ≡ 90 + (x - 90 + length xs) % 70)

Follow-cons :
    (x y z : ℕ) (xs all : List ℕ)
    → IsRate x
    → all ≡ y ∷ xs
    → y ≡ 90 + (x - 89) % 70
    → Follow y xs z
    → Follow x all z
Follow-cons x y z xs all rate e ey (exs, rz, ez) = (ground arith, rz, omega (arith, ap length e))

Follow-same : (x y z : ℕ) (xs all : List ℕ) → all ≡ xs → y ≡ x → Follow y xs z → Follow x all z
Follow-same x y z xs all e ey f = rw e (rw (← ey) f)

-- Whatever commands come between, the notified rates follow each other on the cycle from 90 to 159,
-- none is left out or repeated, and the state keeps the last one.
pub handle_all-beats :
    (broadcaster : Bool) (es : List Event) (s : Hrs)
    → IsRate s.heartrate
    → let (outs, s') = handle_all broadcaster es s in
      (notified outs ≡ beats s.heartrate (length (notified outs)))
      × IsRate s'.heartrate
      × (s'.heartrate ≡ 90 + (s.heartrate - 90 + length (notified outs)) % 70)
unfolding handle_all handle
handle_all-beats broadcaster [] s h = (refl, h, omega arith)
handle_all-beats broadcaster (e ∷ es) s h =
    let outs : List Out = (handle broadcaster e s).0 in
    let s1 : Hrs = (handle broadcaster e s).1 in
    let rest : List Out = (handle_all broadcaster es s1).0 in
    elim (handle-beat broadcaster e s h) [
      | inl (none_new, kept) ↦
          let all : notified (outs ++ rest) ≡ notified rest =
            notified-append outs rest ∙ ap (λ xs. xs ++ notified rest) none_new in
          Follow-same s.heartrate s1.heartrate (handle_all broadcaster es s1).1.heartrate
            (notified rest) (notified (outs ++ rest)) all kept
            (handle_all-beats broadcaster es s1 (omega arith))
      | inr (one_new, moved) ↦
          let all : notified (outs ++ rest) ≡ s1.heartrate ∷ notified rest =
            notified-append outs rest ∙ ap (λ xs. xs ++ notified rest) one_new in
          Follow-cons s.heartrate s1.heartrate (handle_all broadcaster es s1).1.heartrate
            (notified rest) (notified (outs ++ rest)) h all moved
            (handle_all-beats broadcaster es s1 (omega arith))
    ]
