-- ===== src/T1s/Threads.antt =====
-- The threads of the clients of app/demos/ethernet_bridge/t1s_device/src/main.c and their slots.
use zephyr_start.Base.{
  ==→eq, Bool-cases, List, [], ap, arith, false, get_or, get_or-set_ne, get_or-set_self,
  if◌then◌else◌, inl, inr, is_neg, length, length-set, negsuc, pos, refl, set, suc, sym, true, zero,
  ℕ, ℤ, ◌+◌, ◌-◌, ◌<◌, ◌==◌, ◌∙◌, ◌∷◌, ◌≡◌, ◌≢◌, ◌≤◌,
}
use zephyr_start.T1s.Text.{IsColour}
use zephyr_start.T1s.Rounds.{client_loop_lem}
use zephyr_start.T1s.Defs.{
  Config, Device, Effect, Input, Next, RgbCmd, client_loop, create_thread, find_slot, go_on,
  release_slot, ws_setup_cb, leave,
}
use zephyr_start.T1s.Clients.{find_slot-free, find_slot-le}

-- How many threads serve a slot.
abbrev pub serving : ℕ → List ℕ → ℕ
serving i [] = 0
serving i (t ∷ threads) = (if t == i then 1 else 0) + serving i threads

abbrev pub drop_one : ℕ → List ℕ → List ℕ
drop_one i [] = []
drop_one i (t ∷ threads) = if t == i then threads else t ∷ drop_one i threads

-- `k_thread_create` for a slot, as it stands among the effects.
unfoldable pub start_threads : List Effect → List ℕ → List ℕ
start_threads [] threads = threads
start_threads (create_thread slot ∷ out) threads = start_threads out (slot ∷ threads)
start_threads (_ ∷ out) threads = start_threads out threads

-- The state, and the slots of the threads that are in their loop, have left it, have unregistered their
-- socket, and have freed their slot but not ended.
pub record Served : Type 0 where
  pub device : Device
  pub threads : List ℕ
  pub leaving : List ℕ
  pub unregistered : List ℕ
  pub freed : List ℕ

-- A socket comes; or the thread of a slot reads some inputs, and leaves its loop or goes on waiting; or
-- does one of the two statements after the loop; or ends.
pub data Turn : Type 0 where
  comes : ℕ → Turn
  reads : ℕ → List Input → Turn
  unregisters_socket frees ends : ℕ → Turn

unfoldable pub after_reading : ℕ → Next → Device → Served → Served
after_reading i go_on d s = record s { device = d }
after_reading i leave d s = record s {
  device = d;
  threads = drop_one i s.threads;
  leaving = i ∷ s.leaving;
}

module _ (c : Config) (json_obj_parse : List ℕ → ℤ × RgbCmd) where
  -- A thread has its socket from its slot.
  unfoldable pub turn : Turn → Served → Served
  unfolding start_threads after_reading
  turn (comes n) s =
      let (ret, out, d) = ws_setup_cb (pos n) s.device in
      record s { device = d; threads = start_threads out s.threads }
  turn (reads i inputs) s =
      let sock = get_or s.device.ws_clients i (negsuc 0) in
      let (next, out, d) = client_loop c json_obj_parse sock inputs s.device in
      if serving i s.threads == 0 then s else after_reading i next d s
  turn (unregisters_socket i) s =
      if serving i s.leaving == 0
      then s
      else record s { leaving = drop_one i s.leaving; unregistered = i ∷ s.unregistered }
  turn (frees i) s = if serving i s.unregistered == 0 then s else record s {
    device = release_slot c json_obj_parse i s.device;
    unregistered = drop_one i s.unregistered;
    freed = i ∷ s.freed;
  }
  turn (ends i) s = record s { freed = drop_one i s.freed }

  unfoldable pub turns : List Turn → Served → Served
  unfolding turn
  turns [] s = s
  turns (t ∷ ts) s = turns ts (turn t s)

-- The threads that are yet to free a slot.
abbrev pub holding : ℕ → Served → ℕ
holding i s = serving i s.threads + (serving i s.leaving + serving i s.unregistered)

-- The state is as it should be: three slots, a colour in range, and for each slot one thread that is
-- yet to free it if it is taken, and none if it is free.
pub record IsServed (s : Served) : Type 0 where
  pub three : length s.device.ws_clients ≡ 3
  pub colour : IsColour s.device
  pub one_thread :
      (i : ℕ) → holding i s ≡ (if is_neg (get_or s.device.ws_clients i (negsuc 0)) then 0 else 1)

-- No slot has two threads that have not ended.
abbrev pub IsAlone : Served → Type 0
IsAlone s = (i : ℕ) → holding i s + serving i s.freed ≤ 1

serving-drop_same :
    (i : ℕ) (threads : List ℕ) → serving i (drop_one i threads) ≡ serving i threads - 1
serving-drop_same i [] = refl
serving-drop_same i (t ∷ threads) = ground (arith, serving-drop_same i threads)

serving-drop_other :
    (i j : ℕ) (threads : List ℕ) → j ≢ i → serving j (drop_one i threads) ≡ serving j threads
serving-drop_other i j [] ne = refl
serving-drop_other i j (t ∷ threads) ne = ground (arith, serving-drop_other i j threads)

freed-free : (xs : List ℤ) (i : ℕ) → is_neg (get_or (set xs i (negsuc 0)) i (negsuc 0)) ≡ true
freed-free [] i = refl
freed-free (x ∷ xs) zero = refl
freed-free (x ∷ xs) (suc i) = freed-free xs i

-- The threads that hold a slot, in whichever of the three lists they are, as numbers.
abbrev OneEach : (ℕ → ℕ) → List ℤ → Type 0
OneEach held socks = (i : ℕ) → held i ≡ (if is_neg (get_or socks i (negsuc 0)) then 0 else 1)

started_one :
    (held : ℕ → ℕ) (socks : List ℤ) (slot n : ℕ)
    → slot < length socks
    → is_neg (get_or socks slot (negsuc 0)) ≡ true
    → OneEach held socks
    → OneEach (λ i. (if slot == i then 1 else 0) + held i) (set socks slot (pos n))
started_one held socks slot n below free h j = elim (Bool-cases (slot == j)) [
  | inl here ↦
      let same : slot ≡ j = ==→eq slot j here in
      rw (← same) (ground (arith, get_or-set_self socks slot (pos n) (negsuc 0) below, h slot))
  | inr there ↦
      let other : slot ≢ j = ground arith in
      ground (arith, get_or-set_ne socks slot j (pos n) (negsuc 0) other, h j)
]

ended_one :
    (held : ℕ → ℕ) (socks : List ℤ) (i : ℕ)
    → OneEach held socks
    → OneEach (λ j. held j - (if i == j then 1 else 0)) (set socks i (negsuc 0))
ended_one held socks i h j = elim (Bool-cases (i == j)) [
  | inl here ↦
      let same : i ≡ j = ==→eq i j here in rw (← same) (ground (arith, freed-free socks i, h i))
  | inr there ↦
      let other : i ≢ j = ground arith in
      ground (arith, get_or-set_ne socks i j (negsuc 0) (negsuc 0) other, h j)
]

-- What a drop does to the number of a slot.
serving-drop :
    (i j : ℕ) (threads : List ℕ)
    → serving j (drop_one i threads) ≡ serving j threads - (if i == j then 1 else 0)
serving-drop i j threads = elim (Bool-cases (i == j)) [
  | inl here ↦
      let same : i ≡ j = ==→eq i j here in rw (← same) (ground (arith, serving-drop_same i threads))
  | inr there ↦
      let other : j ≢ i = ground arith in ground (arith, serving-drop_other i j threads other)
]

serving-there :
    (i j : ℕ) (threads : List ℕ) → (i == j) ≡ true → serving j threads ≡ serving i threads
serving-there i j threads e = ap (λ k. serving k threads) (sym (==→eq i j e))

module _ (c : Config) (json_obj_parse : List ℕ → ℤ × RgbCmd) where
  -- A thread that moves from one list to the next holds its slot as before.
  reading-IsServed :
      (i : ℕ) (next : Next) (d : Device) (s : Served)
      → IsServed s
      → (serving i s.threads == 0) ≡ false
      → IsColour d
      → d.ws_clients ≡ s.device.ws_clients
      → IsServed (after_reading i next d s)
  unfolding after_reading
  reading-IsServed i go_on d s h there colour same = record {
    three = ap length same ∙ h.three;
    colour = colour;
    one_thread = rw same h.one_thread;
  }
  reading-IsServed i leave d s h there colour same = record {
    three = ap length same ∙ h.three;
    colour = colour;
    one_thread = rw same λ j.
        ground (arith, serving-drop i j s.threads, serving-there i j s.threads, h.one_thread j);
  }

  pub turn-IsServed : (t : Turn) (s : Served) → IsServed s → IsServed (turn c json_obj_parse t s)
  unfolding turn start_threads ws_setup_cb release_slot
  turn-IsServed (comes n) s h =
      let socks = s.device.ws_clients in
      let slot = find_slot socks in
      elim (Bool-cases (slot == 3)) [
        | inl full ↦
            rw full (record { three = h.three; colour = h.colour; one_thread = h.one_thread })
        | inr room ↦
            let below : slot < length socks = ground (arith, find_slot-le socks, h.three) in
            let free : is_neg (get_or socks slot (negsuc 0)) ≡ true = find_slot-free socks below in
            rw room (record {
              three = length-set socks slot (pos n) ∙ h.three;
              colour = record {
                red_byte = h.colour.red_byte;
                green_byte = h.colour.green_byte;
                blue_byte = h.colour.blue_byte;
              };
              one_thread = λ j.
                  omega
                    (arith, started_one (λ i. holding i s) socks slot n below free h.one_thread j);
            })
      ]
  turn-IsServed (reads i inputs) s h =
      let sock = get_or s.device.ws_clients i (negsuc 0) in
      let loop = client_loop c json_obj_parse sock inputs s.device in
      let (next, colour, same, quiet) =
        client_loop_lem c json_obj_parse sock inputs s.device h.colour in
      elim (Bool-cases (serving i s.threads == 0)) [
        | inl none_there ↦ rw none_there h
        | inr there ↦ rw there (reading-IsServed i loop.0 loop.2 s h there colour same)
      ]
  turn-IsServed (unregisters_socket i) s h = elim (Bool-cases (serving i s.leaving == 0)) [
    | inl none_there ↦ rw none_there h
    | inr there ↦ rw there (record {
      three = h.three;
      colour = h.colour;
      one_thread = λ j.
          ground (arith, serving-drop i j s.leaving, serving-there i j s.leaving, h.one_thread j);
    })
  ]
  turn-IsServed (frees i) s h =
      let socks = s.device.ws_clients in
      elim (Bool-cases (serving i s.unregistered == 0)) [
        | inl none_there ↦ rw none_there h
        | inr there ↦ rw there (record {
          three = length-set socks i (negsuc 0) ∙ h.three;
          colour = record {
            red_byte = h.colour.red_byte;
            green_byte = h.colour.green_byte;
            blue_byte = h.colour.blue_byte;
          };
          one_thread = λ j. ground (
            arith,
            serving-drop i j s.unregistered,
            serving-there i j s.unregistered,
            ended_one (λ k. holding k s) socks i h.one_thread j,
          );
        })
      ]
  turn-IsServed (ends i) s h = record {
    three = h.three;
    colour = h.colour;
    one_thread = h.one_thread;
  }

  -- No client is given a slot whose last thread has freed it and has not ended.
  abbrev pub Clean : List Turn → Served → Type 0
  Clean [] s = Unit
  Clean (comes n ∷ ts) s =
      (serving (find_slot s.device.ws_clients) s.freed ≡ 0)
      × Clean ts (turn c json_obj_parse (comes n) s)
  Clean (reads i inputs ∷ ts) s = Clean ts (turn c json_obj_parse (reads i inputs) s)
  Clean (unregisters_socket i ∷ ts) s = Clean ts (turn c json_obj_parse (unregisters_socket i) s)
  Clean (frees i ∷ ts) s = Clean ts (turn c json_obj_parse (frees i) s)
  Clean (ends i ∷ ts) s = Clean ts (turn c json_obj_parse (ends i) s)

  comes-IsAlone :
      (n : ℕ) (s : Served)
      → IsServed s
      → IsAlone s
      → serving (find_slot s.device.ws_clients) s.freed ≡ 0
      → IsAlone (turn c json_obj_parse (comes n) s)
  unfolding turn start_threads ws_setup_cb
  comes-IsAlone n s h a clean j =
      let socks = s.device.ws_clients in
      let slot = find_slot socks in
      elim (Bool-cases (slot == 3)) [
        | inl full ↦ rw full (a j)
        | inr room ↦
            let below : slot < length socks = ground (arith, find_slot-le socks, h.three) in
            let free : is_neg (get_or socks slot (negsuc 0)) ≡ true = find_slot-free socks below in
            let none_there : holding slot s ≡ 0 = ground (arith, h.one_thread slot, free) in
            rw room (elim (Bool-cases (slot == j)) [
              | inl here ↦
                  let same : slot ≡ j = ==→eq slot j here in
                  rw (← same) (ground (arith, none_there, clean))
              | inr there ↦ ground (arith, a j)
            ])
      ]

  reading-IsAlone :
      (i : ℕ) (next : Next) (d : Device) (s : Served)
      → (serving i s.threads == 0) ≡ false
      → IsAlone s
      → IsAlone (after_reading i next d s)
  unfolding after_reading
  reading-IsAlone i go_on d s there a j = a j
  reading-IsAlone i leave d s there a j =
      ground (arith, serving-drop i j s.threads, serving-there i j s.threads, a j)

  reads-IsAlone :
      (i : ℕ) (inputs : List Input) (s : Served)
      → IsAlone s
      → IsAlone (turn c json_obj_parse (reads i inputs) s)
  unfolding turn
  reads-IsAlone i inputs s a =
      let sock = get_or s.device.ws_clients i (negsuc 0) in
      let loop = client_loop c json_obj_parse sock inputs s.device in
      elim (Bool-cases (serving i s.threads == 0)) [
        | inl none_there ↦ rw none_there a
        | inr there ↦ rw there (reading-IsAlone i loop.0 loop.2 s there a)
      ]

  unregisters-IsAlone :
      (i : ℕ) (s : Served) → IsAlone s → IsAlone (turn c json_obj_parse (unregisters_socket i) s)
  unfolding turn
  unregisters-IsAlone i s a j =
      ground (arith, serving-drop i j s.leaving, serving-there i j s.leaving, a j)

  frees-IsAlone : (i : ℕ) (s : Served) → IsAlone s → IsAlone (turn c json_obj_parse (frees i) s)
  unfolding turn release_slot
  frees-IsAlone i s a j =
      ground (arith, serving-drop i j s.unregistered, serving-there i j s.unregistered, a j)

  ends-IsAlone : (i : ℕ) (s : Served) → IsAlone s → IsAlone (turn c json_obj_parse (ends i) s)
  unfolding turn
  ends-IsAlone i s a j = ground (arith, serving-drop i j s.freed, a j)

  -- Whatever clients come and whatever they send, as long as none is given a slot whose last thread has
  -- freed it and has not ended, each taken slot has exactly one thread that is yet to free it and each
  -- free slot none, so that no slot is lost; and no slot has two threads that have not ended.
  pub turns-IsServed :
      (ts : List Turn) (s : Served)
      → IsServed s
      → IsAlone s
      → Clean ts s
      → IsServed (turns c json_obj_parse ts s) × IsAlone (turns c json_obj_parse ts s)
  unfolding turns
  turns-IsServed [] s h a clean = (h, a)
  turns-IsServed (comes n ∷ ts) s h a (room, clean) =
      turns-IsServed ts (turn c json_obj_parse (comes n) s) (turn-IsServed (comes n) s h)
        (comes-IsAlone n s h a room) clean
  turns-IsServed (reads i inputs ∷ ts) s h a clean =
      turns-IsServed ts (turn c json_obj_parse (reads i inputs) s)
        (turn-IsServed (reads i inputs) s h) (reads-IsAlone i inputs s a) clean
  turns-IsServed (unregisters_socket i ∷ ts) s h a clean =
      turns-IsServed ts (turn c json_obj_parse (unregisters_socket i) s)
        (turn-IsServed (unregisters_socket i) s h) (unregisters-IsAlone i s a) clean
  turns-IsServed (frees i ∷ ts) s h a clean =
      turns-IsServed ts (turn c json_obj_parse (frees i) s) (turn-IsServed (frees i) s h)
        (frees-IsAlone i s a) clean
  turns-IsServed (ends i ∷ ts) s h a clean =
      turns-IsServed ts (turn c json_obj_parse (ends i) s) (turn-IsServed (ends i) s h)
        (ends-IsAlone i s a) clean
