-- ===== src/T1s/Tests.antt =====
-- Tests, and instances of the theorems about
-- app/demos/ethernet_bridge/t1s_device/src/main.c.
use zephyr_start.Base.{
  List, [], arith, codes, decimal, einval, false, get_or, if◌then◌else◌, is_neg, neg, negsuc, pos,
  refl, set, suc, true, zero, ℕ, ℤ, ◌∷◌, ◌≡◌,
}
use zephyr_start.T1s.Told.{message_of, told}
use zephyr_start.T1s.Threads.{
  IsAlone, IsServed, Served, Turn, after_reading, holding, start_threads, turn, turns-IsServed,
  unregisters_socket, turns, comes, reads, ends, frees,
}
use zephyr_start.T1s.Text.{IsColour}
use zephyr_start.T1s.Table.{Op, apply, connect, leave_slot, parting, run, run-Steps}
use zephyr_start.T1s.Synced.{turns-told, turns_out}
use zephyr_start.T1s.Rounds.{any_breaks, unregisters, ws_client_thread_lem}
use zephyr_start.T1s.Defs.{
  Config, Device, Input, RgbCmd, client_exit, client_loop, client_round, find_slot, handle_cmd,
  handle_message, hung_up, release_slot, state_json, ws_client_thread, ws_setup_cb, initial,
  received, leave,
}
use zephyr_start.T1s.Clients.{slots_of}
use zephyr_start.T1s.Bag.{Steps, has_joined, has_parted, of_table, was_refused}

abbrev config : Config
config = record {
  red_period = 20000;
  green_period = 20000;
  blue_period = 20000;
  device_name = codes "t1s-node";
  app_version = codes "1.0.0";
  plca_node_id = 2;
}

-- Two clients, on sockets 5 and 8, in the outer slots.
abbrev two_clients : Device
two_clients = record { red = 1; green = 20; blue = 255; ws_clients = pos 5 ∷ negsuc 0 ∷ pos 8 ∷ [] }

-- A parser for messages of three bytes.
abbrev three_bytes : List ℕ → ℤ × RgbCmd
three_bytes (x ∷ y ∷ z ∷ []) = (pos 7, record { r = pos x; g = pos y; b = pos z })
three_bytes _ = (neg einval, record { r = pos 0; g = pos 0; b = pos 0 })

two_clients_text :
    state_json config two_clients
    ≡ codes "{\"name\":\"t1s-node\",\"ver\":\"1.0.0\",\"plca\":2,\"r\":1,\"g\":20,\"b\":255}"
unfolding state_json decimal
two_clients_text = refl

third_slot : (ws_setup_cb (pos 6) two_clients).2.ws_clients ≡ pos 5 ∷ pos 6 ∷ pos 8 ∷ []
unfolding ws_setup_cb
third_slot = refl

-- A message of client 5, then its hang-up.
abbrev session : List Input
session = received (pos 3) (9 ∷ 8 ∷ 7 ∷ []) false false true ∷ hung_up ∷ []

ws_client_thread_lem_example :
    let (n, out, d') = ws_client_thread config three_bytes 0 session two_clients in
    (n ≡ leave)
    × IsColour d'
    × (unregisters (pos 5) out ≡ 1)
    × (d'.ws_clients ≡ set two_clients.ws_clients 0 (negsuc 0))
unfolding any_breaks
ws_client_thread_lem_example =
    ws_client_thread_lem config three_bytes 0 session two_clients (omega arith)

-- A fourth client is refused until a thread has ended.
abbrev coming_and_going : List Op
coming_and_going =
    connect 5 ∷ connect 6 ∷ connect 7 ∷ connect 8 ∷ leave_slot 1 ∷ leave_slot 1 ∷ connect 8 ∷ []

came_and_went :
    (run config three_bytes coming_and_going initial).0
    ≡ has_joined 5 ∷ has_joined 6 ∷ has_joined 7 ∷ was_refused 8 ∷ has_parted 6 ∷ has_joined 8 ∷ []
unfolding run apply parting client_exit ws_setup_cb find_slot
came_and_went = refl

run-Steps_example :
    let (es, d) = run config three_bytes coming_and_going initial in
    Steps 3 es (of_table initial.ws_clients) (of_table d.ws_clients)
run-Steps_example = run-Steps config three_bytes coming_and_going initial refl

abbrev unserved : Served
unserved = record { device = initial; threads = []; leaving = []; unregistered = []; freed = [] }

none_free : (i : ℕ) → is_neg (get_or initial.ws_clients i (negsuc 0)) ≡ true
none_free zero = refl
none_free (suc zero) = refl
none_free (suc (suc zero)) = refl
none_free (suc (suc (suc i))) = refl

unserved-IsServed : IsServed unserved
unserved-IsServed = record {
  three = refl;
  colour = record { red_byte = omega arith; green_byte = omega arith; blue_byte = omega arith };
  one_thread = λ i. ground (arith, none_free i);
}

-- Two clients come, and the first one hangs up.
abbrev some_turns : List Turn
some_turns =
    comes 5
    ∷ comes 6
    ∷ reads 0 (hung_up ∷ [])
    ∷ unregisters_socket 0
    ∷ frees 0
    ∷ ends 0
    ∷ comes 7
    ∷ []

turned : (turns config three_bytes some_turns unserved).threads ≡ 0 ∷ 1 ∷ []
unfolding turns turn start_threads ws_setup_cb find_slot client_loop client_round after_reading
    release_slot
turned = refl

turns-IsServed_example :
    IsServed (turns config three_bytes some_turns unserved)
    × IsAlone (turns config three_bytes some_turns unserved)
unfolding turn ws_setup_cb find_slot client_loop client_round after_reading release_slot
    start_threads
turns-IsServed_example =
    turns-IsServed config three_bytes some_turns unserved unserved-IsServed (λ i. omega arith)
      (refl, (refl, (refl, tt)))

-- The same, but the next client comes before the thread has ended: it is given the struct and the stack
-- of that thread, and the slot has two threads.
abbrev early : List Turn
early = comes 5 ∷ reads 0 (hung_up ∷ []) ∷ unregisters_socket 0 ∷ frees 0 ∷ comes 7 ∷ []

two_threads :
    let s = turns config three_bytes early unserved in (s.threads ≡ 0 ∷ []) × (s.freed ≡ 0 ∷ [])
unfolding turns turn start_threads ws_setup_cb find_slot client_loop client_round after_reading
    release_slot
two_threads = (refl, refl)

-- Slots 0 and 2 are served.
abbrev two_served : Served
two_served = record {
  device = two_clients;
  threads = 0 ∷ 2 ∷ [];
  leaving = [];
  unregistered = [];
  freed = [];
}

two_one_thread :
    (i : ℕ)
    → holding i two_served ≡ (if is_neg (get_or two_clients.ws_clients i (negsuc 0)) then 0 else 1)
two_one_thread zero = refl
two_one_thread (suc zero) = refl
two_one_thread (suc (suc zero)) = refl
two_one_thread (suc (suc (suc i))) = ground arith

two_served-IsServed : IsServed two_served
two_served-IsServed = record {
  three = refl;
  colour = record { red_byte = omega arith; green_byte = omega arith; blue_byte = omega arith };
  one_thread = two_one_thread;
}

-- Client 5 changes the colour and hangs up, and client 6 comes and hangs up.
abbrev others_turn : List Turn
others_turn =
    comes 6
    ∷ reads 0 session
    ∷ reads 1 (hung_up ∷ [])
    ∷ unregisters_socket 0
    ∷ unregisters_socket 1
    ∷ frees 1
    ∷ ends 1
    ∷ []

turns-told_example :
    told
      (pos 8)
      (turns_out config three_bytes others_turn two_served)
      (message_of config two_clients)
    ≡ message_of config (turns config three_bytes others_turn two_served).device
unfolding slots_of turn ws_setup_cb find_slot client_loop client_round handle_message handle_cmd
    release_slot after_reading start_threads
turns-told_example =
    turns-told config three_bytes 8 others_turn two_served two_served-IsServed (λ e. cc)
      ((λ e. cc), ((λ e. cc), ((λ e. cc), ((λ e. cc), ((λ e. cc), tt)))))
