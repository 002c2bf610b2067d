-- ===== src/Hrs/Defs.antt =====
-- The shell command and the main loop of app/demos/rw612-ble-shell/src/main.c, in a build with the
-- Heart Rate Service.
use zephyr_start.Base.{
  Bool, List, Option, [], codes, enoexec, false, if◌then◌else◌, is_zero, neg, none, not, pos, some,
  true, ℕ, ℤ, ◌%◌, ◌&&◌, ◌++◌, ◌+◌, ◌==◌, ◌^◌, ◌||◌, ◌∷◌,
}

-- The calls of the Bluetooth stack.
pub data Out : Type 0 where
  bt_le_adv_start bt_le_adv_stop : Out
  bt_hrs_notify : ℕ → Out

-- The static variables.
pub record Hrs : Type 0 where
  pub hrs_simulate : Bool
  pub hrs_registered : Bool
  pub heartrate : ℕ

abbrev pub initial : Hrs
initial = record { hrs_simulate = false; hrs_registered = false; heartrate = 90 }

-- `!strcmp(a, b)`, on strings without their NUL.
unfoldable pub same_text : List ℕ → List ℕ → Bool
same_text [] [] = true
same_text [] (_ ∷ _) = false
same_text (_ ∷ _) [] = false
same_text (a ∷ xs) (b ∷ ys) = (a == b) && same_text xs ys

-- `broadcaster` is CONFIG_BT_BROADCASTER; `err` is what `bt_le_adv_start` answers if it is called.
module _ (broadcaster : Bool) where
  unfoldable pub simulate_on : ℤ → Hrs → ℤ × List Out × Hrs
  simulate_on err s =
      let on = record s { hrs_simulate = true } in
      if not s.hrs_registered && broadcaster
      then (if is_zero err
          then (pos 0, bt_le_adv_start ∷ [], record on { hrs_registered = true })
          else (neg enoexec, bt_le_adv_start ∷ [], record s { hrs_registered = true }))
      else (pos 0, [], on)

  unfoldable pub simulate_off : Hrs → ℤ × List Out × Hrs
  simulate_off s = (
    pos 0,
    (if s.hrs_registered && broadcaster then bt_le_adv_stop ∷ [] else []),
    record s { hrs_simulate = false },
  )

  unfoldable pub cmd_hrs_simulate : List ℕ → ℤ → Hrs → ℤ × List Out × Hrs
  unfolding same_text simulate_on simulate_off
  cmd_hrs_simulate arg err s =
      if same_text arg (codes "on")
      then simulate_on err s
      else (if same_text arg (codes "off") then simulate_off s else (neg enoexec, [], s))

-- `hrs` with a word that is no subcommand, after it has reported it.
unfoldable pub cmd_hrs : ℤ
cmd_hrs = neg enoexec

unfoldable pub hrs_notify : Hrs → List Out × Hrs
hrs_notify s =
    let next = (s.heartrate + 1) % 2 ^ 8 in
    let wrapped = if next == 160 then 90 else next in
    (bt_hrs_notify wrapped ∷ [], record s { heartrate = wrapped })

-- How `main` comes to its loop: it returns, or it is still waiting for the line, or it is there.
pub data Started : Type 0 where
  returned waiting_for_line in_loop : Started

-- The values of `dtr` that `uart_line_ctrl_get` stores, one for each round.
unfoldable pub wait_for_dtr : List ℕ → Started
wait_for_dtr [] = waiting_for_line
wait_for_dtr (dtr ∷ dtrs) = if dtr == 0 then wait_for_dtr dtrs else in_loop

-- `none` is a build in which the shell is not on USB; else whether the device is ready, and what
-- `usb_enable` answers.
unfoldable pub main_start : Option (Bool × ℤ) → List ℕ → Started
unfolding wait_for_dtr
main_start none dtrs = in_loop
main_start (some (device_is_ready, usb_enable)) dtrs =
    if not device_is_ready || not (is_zero usb_enable) then returned else wait_for_dtr dtrs

-- One round of the `while (1)` of `main`.
unfoldable pub main_round : Hrs → List Out × Hrs
unfolding hrs_notify
main_round s = if s.hrs_simulate then hrs_notify s else ([], s)

-- A line of the shell, with the answer of the stack, or a round of `main`.
pub data Event : Type 0 where
  command : List ℕ → ℤ → Event
  second : Event

unfoldable pub handle : Bool → Event → Hrs → List Out × Hrs
unfolding cmd_hrs_simulate main_round
handle broadcaster (command arg err) s =
    let (ret, out, s') = cmd_hrs_simulate broadcaster arg err s in (out, s')
handle broadcaster second s = main_round s

unfoldable pub handle_all : Bool → List Event → Hrs → List Out × Hrs
unfolding handle
handle_all broadcaster [] s = ([], s)
handle_all broadcaster (e ∷ es) s =
    let (out, s') = handle broadcaster e s in
    let (outs, s'') = handle_all broadcaster es s' in (out ++ outs, s'')
