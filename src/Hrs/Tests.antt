-- ===== src/Hrs/Tests.antt =====
-- Tests, and instances of the theorems about app/demos/rw612-ble-shell/src/main.c.
use zephyr_start.Base.{List, [], arith, codes, length, pos, refl, true, ◌%◌, ◌+◌, ◌∷◌, ◌≡◌, ◌≤◌}
use zephyr_start.Hrs.Defs.{
  bt_hrs_notify, bt_le_adv_start, bt_le_adv_stop, cmd_hrs_simulate, command, handle_all, hrs_notify,
  same_text, simulate_off, simulate_on, handle, second, Event, initial, main_round,
}
use zephyr_start.Hrs.Beats.{IsRate, handle_all-beats, notified, beats}
use zephyr_start.Hrs.Adverts.{handle_all-starts, starts}

-- On, two rounds, off, a round, a wrong word, on, a round.
abbrev day : List Event
day =
    command (codes "on") (pos 0)
    ∷ second
    ∷ second
    ∷ command (codes "off") (pos 0)
    ∷ second
    ∷ command (codes "maybe") (pos 0)
    ∷ command (codes "on") (pos 0)
    ∷ second
    ∷ []

day_handled :
    (handle_all true day initial).0
    ≡ bt_le_adv_start ∷ bt_hrs_notify 91 ∷ bt_hrs_notify 92 ∷ bt_le_adv_stop ∷ bt_hrs_notify 93 ∷ []
unfolding handle_all handle cmd_hrs_simulate simulate_on simulate_off main_round hrs_notify
    same_text
day_handled = refl

handle_all-beats_example :
    let (outs, s') = handle_all true day initial in
    (notified outs ≡ beats 90 (length (notified outs)))
    × IsRate s'.heartrate
    × (s'.heartrate ≡ 90 + (0 + length (notified outs)) % 70)
handle_all-beats_example = handle_all-beats true day initial (omega arith, omega arith)

handle_all-starts_example : starts (handle_all true day initial).0 ≤ 1
handle_all-starts_example = handle_all-starts true day initial
