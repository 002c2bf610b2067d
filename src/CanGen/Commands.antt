-- ===== src/CanGen/Commands.antt =====
-- The table of the `can_gen` commands in app/demos/frdm_can_traffic_generator/src/main.c, and the lines that the
-- shell runs by it.
use zephyr_start.Base.{
  List, Option, [], arith, codes, inl, inr, length, none, refl, some, ℕ, ℤ, ◌+◌, ◌∷◌, ◌≡◌, ◌≢◌, ◌≤◌,
  ◌⊎◌,
}
use zephyr_start.Kernel.{IsSemaphore}
use zephyr_start.CanGen.Steps.{IsValid, Step-IsValid, restart, start, stop, rate, burst}
use zephyr_start.CanGen.Status.{BusState, cmd_can_gen_status, print_status}
use zephyr_start.CanGen.Shell.{
  Argv, cmd_can_gen_burst, cmd_can_gen_rate, cmd_can_gen_restart, cmd_can_gen_start,
  cmd_can_gen_stop,
}
use zephyr_start.CanGen.Defs.{Gen}
use zephyr_start.CanGen.Board.{IsDriver, Board}
use mathlib.Core.List.{Memᴰ}

-- The handler of a command.
pub data CanCommand : Type 0 where
  on_start on_stop on_rate on_burst on_restart on_status : CanCommand

-- SHELL_CMD_ARG: the command's word, its handler, and how many words a line has to have and how many
-- more it may have; the command's own word counts.
pub record Subcommand : Type 0 where
  pub word : List ℕ
  pub runs : CanCommand
  pub mandatory : ℕ
  pub optional : ℕ

abbrev pub can_gen_cmds : List Subcommand
can_gen_cmds =
    record { word = codes "start"; runs = on_start; mandatory = 1; optional = 1 }
    ∷ record { word = codes "stop"; runs = on_stop; mandatory = 1; optional = 0 }
    ∷ record { word = codes "rate"; runs = on_rate; mandatory = 2; optional = 0 }
    ∷ record { word = codes "burst"; runs = on_burst; mandatory = 1; optional = 1 }
    ∷ record { word = codes "restart"; runs = on_restart; mandatory = 1; optional = 0 }
    ∷ record { word = codes "status"; runs = on_status; mandatory = 1; optional = 0 }
    ∷ []

-- Which command of a table the shell runs for a line: `none` where it prints an error or its help.
abbrev pub Shell : Type 0
Shell = List Subcommand → Argv → Option Subcommand

-- As it is documented: a command of the table, with as many words as its entry allows.
pub record IsShell (find : Shell) : Type 0 where
  pub listed :
      (table : List Subcommand) (argv : Argv) {s : Subcommand}
      → find table argv ≡ some s
      → Memᴰ s table
  pub enough :
      (table : List Subcommand) (argv : Argv) {s : Subcommand}
      → find table argv ≡ some s
      → s.mandatory ≤ length argv
  pub not_more :
      (table : List Subcommand) (argv : Argv) {s : Subcommand}
      → find table argv ≡ some s
      → length argv ≤ s.mandatory + s.optional

module _ {W : Type 0} (b : Board W) (can_get_state : W → ℤ × BusState × W) where
  unfoldable pub run_command : CanCommand → Argv → Gen W → Gen W
  run_command on_start argv g = (cmd_can_gen_start argv g).1
  run_command on_stop argv g = (cmd_can_gen_stop g).1
  run_command on_rate argv g = (cmd_can_gen_rate argv g).1
  run_command on_burst argv g = (cmd_can_gen_burst b argv g).1
  run_command on_restart argv g = (cmd_can_gen_restart b g).1
  run_command on_status argv g = (cmd_can_gen_status can_get_state g).2

  -- What the shell has found; where it is nothing, it prints an error or its help.
  unfoldable pub run_found : Option Subcommand → Argv → Gen W → Gen W
  unfolding run_command
  run_found none argv g = g
  run_found (some s) argv g = run_command s.runs argv g

  unfoldable pub can_gen_lines : Shell → List Argv → Gen W → Gen W
  unfolding run_found
  can_gen_lines find [] g = g
  can_gen_lines find (argv ∷ lines) g =
      can_gen_lines find lines (run_found (find can_gen_cmds argv) argv g)

module _ {W : Type 0} (b : Board W) (inflight : W → ℕ)
    (sem : IsSemaphore 3 b.k_sem_take b.k_sem_give b.k_sem_reset) (d : IsDriver b inflight)
    (can_get_state : W → ℤ × BusState × W)
    (state_lem : (w : W) → inflight (can_get_state w).2 ≡ inflight w) where
  run_command-IsValid :
      (x : CanCommand) (argv : Argv) (g : Gen W)
      → IsValid b inflight g
      → IsValid b inflight (run_command b can_get_state x argv g)
  unfolding run_command cmd_can_gen_status print_status
  run_command-IsValid on_start argv g v = Step-IsValid b inflight sem d (start argv) v
  run_command-IsValid on_stop argv g v = Step-IsValid b inflight sem d stop v
  run_command-IsValid on_rate argv g v = Step-IsValid b inflight sem d (rate argv) v
  run_command-IsValid on_burst argv g v = Step-IsValid b inflight sem d (burst argv) v
  run_command-IsValid on_restart argv g v = Step-IsValid b inflight sem d restart v
  run_command-IsValid on_status argv g v = ground (arith, state_lem g.world, v)

  run_found-IsValid :
      (o : Option Subcommand) (argv : Argv) (g : Gen W)
      → IsValid b inflight g
      → IsValid b inflight (run_found b can_get_state o argv g)
  unfolding run_found
  run_found-IsValid none argv g v = v
  run_found-IsValid (some s) argv g v = run_command-IsValid s.runs argv g v

  -- Whatever lines are typed, the slots and the period stay as they should be.
  pub can_gen_lines-IsValid :
      (find : Shell) (lines : List Argv) (g : Gen W)
      → IsValid b inflight g
      → IsValid b inflight (can_gen_lines b can_get_state find lines g)
  unfolding can_gen_lines
  can_gen_lines-IsValid find [] g v = v
  can_gen_lines-IsValid find (argv ∷ lines) g v =
      can_gen_lines-IsValid find lines (run_found b can_get_state (find can_gen_cmds argv) argv g)
        (run_found-IsValid (find can_gen_cmds argv) argv g v)

words_of :
    {s : Subcommand}
    → Memᴰ s can_gen_cmds
    → (s.mandatory + s.optional ≤ 2) × ((s.runs ≢ on_rate) ⊎ (s.mandatory ≡ 2))
words_of (Memᴰ.head e) = rw e (omega arith, inl (λ e. cc))
words_of (Memᴰ.tail (Memᴰ.head e)) = rw e (omega arith, inl (λ e. cc))
words_of (Memᴰ.tail (Memᴰ.tail (Memᴰ.head e))) = rw e (omega arith, inr refl)
words_of (Memᴰ.tail (Memᴰ.tail (Memᴰ.tail (Memᴰ.head e)))) = rw e (omega arith, inl (λ e. cc))
words_of (Memᴰ.tail (Memᴰ.tail (Memᴰ.tail (Memᴰ.tail (Memᴰ.head e))))) =
    rw e (omega arith, inl (λ e. cc))
words_of (Memᴰ.tail (Memᴰ.tail (Memᴰ.tail (Memᴰ.tail (Memᴰ.tail (Memᴰ.head e)))))) =
    rw e (omega arith, inl (λ e. cc))
words_of (Memᴰ.tail (Memᴰ.tail (Memᴰ.tail (Memᴰ.tail (Memᴰ.tail (Memᴰ.tail past)))))) =
    elim past [ ]

-- On a shell that keeps to the table the line of `rate` has its argument and no more, so that the test
-- of `argc` in its handler always passes.
pub rate_has_argument :
    (find : Shell)
    → IsShell find
    → (argv : Argv) {s : Subcommand} → find can_gen_cmds argv ≡ some s
    → s.runs ≡ on_rate
    → length argv ≡ 2
rate_has_argument find k argv {s} e h =
    let (most, least) = words_of (k.listed can_gen_cmds argv e) in
    elim least [
      | inl other ↦ absurd (other h)
      | inr two ↦ omega (arith, k.enough can_gen_cmds argv e, k.not_more can_gen_cmds argv e)
    ]
