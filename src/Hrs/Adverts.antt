-- ===== src/Hrs/Adverts.antt =====
-- When app/demos/rw612-ble-shell/src/main.c starts to advertise.
use zephyr_start.Base.{Bool, List, [], arith, if◌then◌else◌, suc, true, ℕ, ◌++◌, ◌+◌, ◌∷◌, ◌≡◌, ◌≤◌}
use zephyr_start.Hrs.Defs.{
  Hrs, Out, bt_hrs_notify, bt_le_adv_start, bt_le_adv_stop, cmd_hrs_simulate, command, handle_all,
  hrs_notify, simulate_off, simulate_on, handle, second, Event, main_round,
}

-- How often `bt_le_adv_start` is called.
abbrev pub starts : List Out → ℕ
starts [] = 0
starts (bt_le_adv_start ∷ outs) = suc (starts outs)
starts (bt_le_adv_stop ∷ outs) = starts outs
starts (bt_hrs_notify _ ∷ outs) = starts outs

starts-append : (xs ys : List Out) → starts (xs ++ ys) ≡ starts xs + starts ys
starts-append [] ys = ground arith
starts-append (bt_le_adv_start ∷ xs) ys = omega (arith, starts-append xs ys)
starts-append (bt_le_adv_stop ∷ xs) ys = starts-append xs ys
starts-append (bt_hrs_notify x ∷ xs) ys = starts-append xs ys

-- The starts still to come.
abbrev pub allowance : Hrs → ℕ
allowance s = if s.hrs_registered then 0 else 1

handle-starts :
    (broadcaster : Bool) (e : Event) (s : Hrs)
    → let (outs, s') = handle broadcaster e s in starts outs + allowance s' ≤ allowance s
unfolding handle cmd_hrs_simulate simulate_on simulate_off main_round hrs_notify
handle-starts broadcaster (command arg err) s = ground arith
handle-starts broadcaster second s = ground arith

handle_all-allowance :
    (broadcaster : Bool) (es : List Event) (s : Hrs)
    → starts (handle_all broadcaster es s).0 ≤ allowance s
unfolding handle_all
handle_all-allowance broadcaster [] s = ground arith
handle_all-allowance broadcaster (e ∷ es) s =
    let s1 = (handle broadcaster e s).1 in
    omega (
      arith,
      starts-append (handle broadcaster e s).0 (handle_all broadcaster es s1).0,
      handle-starts broadcaster e s,
      handle_all-allowance broadcaster es s1,
    )

-- Advertising is started once at most in the life of the program, also where the start failed or
-- where the service has been switched off and on again in between.
pub handle_all-starts :
    (broadcaster : Bool) (es : List Event) (s : Hrs) → starts (handle_all broadcaster es s).0 ≤ 1
handle_all-starts broadcaster es s = let few = handle_all-allowance broadcaster es s in ground arith

handle-registered :
    (e : Event) (s : Hrs)
    → (s.hrs_simulate ≡ true → s.hrs_registered ≡ true)
    → let s' = (handle true e s).1 in s'.hrs_simulate ≡ true → s'.hrs_registered ≡ true
unfolding handle cmd_hrs_simulate simulate_on simulate_off main_round hrs_notify
handle-registered (command arg err) s inv on = grind arith
handle-registered second s inv on = grind arith

-- While the rate is simulated, the service has been registered, where the build can advertise.
pub handle_all-registered :
    (es : List Event) (s : Hrs)
    → (s.hrs_simulate ≡ true → s.hrs_registered ≡ true)
    → let s' = (handle_all true es s).1 in s'.hrs_simulate ≡ true → s'.hrs_registered ≡ true
unfolding handle_all
handle_all-registered [] s inv = inv
handle_all-registered (e ∷ es) s inv =
    handle_all-registered es (handle true e s).1 (handle-registered e s inv)
