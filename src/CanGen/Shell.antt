-- ===== src/CanGen/Shell.antt =====
-- The `can_gen` shell commands of app/demos/frdm_can_traffic_generator/src/main.c, without what
-- they print. `argv` holds the words of the line, the command's own first.
use zephyr_start.Base.{
  List, Option, [], einval, false, if◌then◌else◌, is_zero, length, ltb, neg, none, pos, some, suc,
  true, zero, ℕ, ℤ, ◌==◌, ◌∷◌,
}
use zephyr_start.CanGen.Parse.{parse_count, parse_period_ms}
use zephyr_start.CanGen.Defs.{Gen, loop_rounds, restart_can_controller, send_demo_frames, k_sleep}
use zephyr_start.CanGen.Board.{Board}

abbrev pub Argv : Type 0
Argv = List (List ℕ)

-- `argv[1]`; the commands read it only where `argc` is at least 2.
abbrev pub argv1 : Argv → List ℕ
argv1 [] = []
argv1 (_ ∷ []) = []
argv1 (_ ∷ a ∷ _) = a

module _ {W : Type 0} where
  start_with : Option ℕ → Gen W → ℤ × Gen W
  start_with none g = (neg einval, g)
  start_with (some value) g = (pos 0, record g { period_ms = value; generator_enabled = true })

  unfoldable pub cmd_can_gen_start : Argv → Gen W → ℤ × Gen W
  unfolding start_with
  cmd_can_gen_start argv g =
      if ltb 1 (length argv)
      then start_with (parse_period_ms (argv1 argv)) g
      else (pos 0, record g { generator_enabled = true })

  unfoldable pub cmd_can_gen_stop : Gen W → ℤ × Gen W
  cmd_can_gen_stop g = (pos 0, record g { generator_enabled = false })

  rate_with : Option ℕ → Gen W → ℤ × Gen W
  rate_with none g = (neg einval, g)
  rate_with (some value) g = (pos 0, record g { period_ms = value })

  unfoldable pub cmd_can_gen_rate : Argv → Gen W → ℤ × Gen W
  unfolding rate_with
  cmd_can_gen_rate argv g =
      if length argv == 2 then rate_with (parse_period_ms (argv1 argv)) g else (neg einval, g)

module _ {W : Type 0} (b : Board W) where
  -- `k_sleep` in the shell's thread: the driver's callbacks run, and the loop of `main`.
  unfoldable pub shell_sleep : ℕ → Gen W → Gen W
  unfolding k_sleep loop_rounds
  shell_sleep ms g =
      let slept = k_sleep b ms g in loop_rounds b (b.rounds_meanwhile slept.world) slept

  -- The rounds left of the loop of `can_gen burst`.
  unfoldable pub burst_loop : ℕ → Gen W → ℤ × Gen W
  burst_loop zero g = (pos 0, g)
  burst_loop (suc n) g =
      let (ret, sent) = send_demo_frames b g in
      elim (is_zero ret) [ true ↦ burst_loop n (shell_sleep 10 sent) | false ↦ (ret, sent) ]

  unfoldable pub burst_of : Option ℕ → Gen W → ℤ × Gen W
  unfolding burst_loop
  burst_of none g = (neg einval, g)
  burst_of (some count) g = burst_loop count g

  unfoldable pub cmd_can_gen_burst : Argv → Gen W → ℤ × Gen W
  unfolding burst_of
  cmd_can_gen_burst argv g =
      burst_of (if ltb 1 (length argv) then parse_count (argv1 argv) else some 10) g

  unfoldable pub cmd_can_gen_restart : Gen W → ℤ × Gen W
  cmd_can_gen_restart g =
      let was_enabled = g.generator_enabled in
      let (ret, g') = restart_can_controller b (record g { generator_enabled = false }) in
      (if is_zero ret then pos 0 else ret, record g' { generator_enabled = was_enabled })
