-- ===== src/T1s/Synced.antt =====
-- What a client of app/demos/ethernet_bridge/t1s_device/src/main.c is told while others come, change the
-- colour and leave.
use zephyr_start.Base.{
  ==ℤ-eq, Bool-cases, List, [], ap, arith, false, get_or, if◌then◌else◌, inl, inr, length, negsuc,
  pos, refl, set, sym, ℕ, ℤ, ◌++◌, ◌==ℤ◌, ◌==◌, ◌∙◌, ◌∷◌, ◌≡◌, ◌≢◌,
}
use zephyr_start.T1s.Told.{client_loop-told, message_of, told, told-append}
use zephyr_start.T1s.Threads.{
  IsServed, Served, Turn, after_reading, serving, turn, turn-IsServed, unregisters_socket, turns,
  comes, reads, frees, ends,
}
use zephyr_start.T1s.Table.{set-find_slot, set-free, set-taken, ℤ-cases}
use zephyr_start.T1s.Rounds.{client_loop_lem}
use zephyr_start.T1s.Defs.{
  Config, Device, Effect, Input, Next, RgbCmd, client_loop, client_unregister, find_slot, go_on,
  release_slot, state_json, ws_setup_cb, leave,
}
use zephyr_start.T1s.Clients.{slots_of}

apart_test : (a b : ℤ) → a ≢ b → (a ==ℤ b) ≡ false
apart_test a b ne = elim (Bool-cases (a ==ℤ b)) [
  | inl same ↦ absurd (ne (==ℤ-eq a b same))
  | inr other ↦ other
]

module _ (c : Config) (json_obj_parse : List ℕ → ℤ × RgbCmd) where
  -- The calls of one turn.
  unfoldable pub turn_out : Turn → Served → List Effect
  turn_out (comes n) s = (ws_setup_cb (pos n) s.device).1
  turn_out (reads i inputs) s =
      let sock = get_or s.device.ws_clients i (negsuc 0) in
      let loop = client_loop c json_obj_parse sock inputs s.device in
      if serving i s.threads == 0 then [] else loop.1
  turn_out (unregisters_socket i) s =
      let sock = get_or s.device.ws_clients i (negsuc 0) in
      if serving i s.leaving == 0 then [] else client_unregister c json_obj_parse sock
  turn_out (frees i) s = []
  turn_out (ends i) s = []

  unfoldable pub turns_out : List Turn → Served → List Effect
  unfolding turn_out turn
  turns_out [] s = []
  turns_out (t ∷ ts) s = turn_out t s ++ turns_out ts (turn c json_obj_parse t s)

  -- No turn is one of the thread of the socket `a`.
  abbrev pub Apart : ℕ → List Turn → Served → Type 0
  Apart a [] s = Unit
  Apart a (comes n ∷ ts) s = Apart a ts (turn c json_obj_parse (comes n) s)
  Apart a (reads i inputs ∷ ts) s =
      (pos a ≢ get_or s.device.ws_clients i (negsuc 0))
      × Apart a ts (turn c json_obj_parse (reads i inputs) s)
  Apart a (unregisters_socket i ∷ ts) s =
      (pos a ≢ get_or s.device.ws_clients i (negsuc 0))
      × Apart a ts (turn c json_obj_parse (unregisters_socket i) s)
  Apart a (frees i ∷ ts) s =
      (pos a ≢ get_or s.device.ws_clients i (negsuc 0))
      × Apart a ts (turn c json_obj_parse (frees i) s)
  Apart a (ends i ∷ ts) s = Apart a ts (turn c json_obj_parse (ends i) s)

  message_of-clients :
      (d : Device) (socks : List ℤ)
      → message_of c (record d { ws_clients = socks }) ≡ message_of c d
  unfolding state_json
  message_of-clients d socks = refl

  -- A client that comes is told nothing yet, and takes no socket away.
  comes-told : (a n : ℕ) (s : Served) (t : List ℕ × ℕ) → told (pos a) (turn_out (comes n) s) t ≡ t
  unfolding turn_out told ws_setup_cb
  comes-told a n s t = ground arith

  comes-message :
      (n : ℕ) (s : Served)
      → message_of c (turn c json_obj_parse (comes n) s).device ≡ message_of c s.device
  unfolding turn ws_setup_cb
  comes-message n s = elim (Bool-cases (find_slot s.device.ws_clients == 3)) [
    | inl full ↦ rw full refl
    | inr room ↦ rw room (
        message_of-clients s.device
          (set s.device.ws_clients (find_slot s.device.ws_clients) (pos n)))
  ]

  comes-held :
      (a n : ℕ) (s : Served)
      → IsServed s
      → slots_of (pos a) s.device.ws_clients ≢ 0
      → slots_of (pos a) (turn c json_obj_parse (comes n) s).device.ws_clients ≢ 0
  unfolding turn ws_setup_cb slots_of
  comes-held a n s h held =
      let socks = s.device.ws_clients in
      elim (Bool-cases (find_slot socks == 3)) [
        | inl full ↦ rw full held
        | inr room ↦
            let found : find_slot socks ≢ length socks = ground (arith, h.three) in
            rw room (λ e. held (omega (arith, (set-find_slot n socks found).1 a, e)))
      ]

  -- Freeing a slot of another socket takes no slot of `a` away.
  freed-held :
      (a i : ℕ) (socks : List ℤ)
      → pos a ≢ get_or socks i (negsuc 0)
      → slots_of (pos a) (set socks i (negsuc 0)) ≡ slots_of (pos a) socks
  unfolding slots_of
  freed-held a i socks apart = elim (ℤ-cases (get_or socks i (negsuc 0))) [
    | inl (n, e) ↦
        let other : n ≢ a = λ q. apart (ap pos (sym q) ∙ sym e) in
        ground (arith, (set-taken n i socks e).1 a)
    | inr (m, e) ↦ sym ((set-free i m socks e).1 a)
  ]

  -- What one turn of another thread does for `a`.
  Stays : ℕ → Turn → Served → Type 0
  Stays a t s =
      (told (pos a) (turn_out t s) (message_of c s.device)
        ≡ message_of c (turn c json_obj_parse t s).device)
      × (slots_of (pos a) (turn c json_obj_parse t s).device.ws_clients ≢ 0)

  reading_device :
      (i : ℕ) (next : Next) (d : Device) (s : Served) → (after_reading i next d s).device ≡ d
  unfolding after_reading
  reading_device i go_on d s = refl
  reading_device i leave d s = refl

  reads-told :
      (a i : ℕ) (inputs : List Input) (s : Served)
      → IsServed s
      → slots_of (pos a) s.device.ws_clients ≢ 0
      → pos a ≢ get_or s.device.ws_clients i (negsuc 0)
      → Stays a (reads i inputs) s
  unfolding Stays turn turn_out told
  reads-told a i inputs s h held apart =
      let socks = s.device.ws_clients in
      let sock = get_or socks i (negsuc 0) in
      let differs : (pos a ==ℤ sock) ≡ false = apart_test (pos a) sock apart in
      let loop = client_loop c json_obj_parse sock inputs s.device in
      let (next, colour, same, quiet) =
        client_loop_lem c json_obj_parse sock inputs s.device h.colour in
      elim (Bool-cases (serving i s.threads == 0)) [
        | inl none_there ↦ rw none_there (refl, held)
        | inr there ↦
            rw (there, reading_device i loop.0 loop.2 s)
              (
                client_loop-told c json_obj_parse (pos a) sock inputs s.device refl differs held,
                rw same held,
              )
      ]

  unregisters-told :
      (a i : ℕ) (s : Served)
      → slots_of (pos a) s.device.ws_clients ≢ 0
      → Stays a (unregisters_socket i) s
  unfolding Stays turn turn_out told client_unregister
  unregisters-told a i s held = elim (Bool-cases (serving i s.leaving == 0)) [
    | inl none_there ↦ rw none_there (refl, held)
    | inr there ↦ rw there (refl, held)
  ]

  frees-told :
      (a i : ℕ) (s : Served)
      → slots_of (pos a) s.device.ws_clients ≢ 0
      → pos a ≢ get_or s.device.ws_clients i (negsuc 0)
      → Stays a (frees i) s
  unfolding Stays turn turn_out told release_slot
  frees-told a i s held apart =
      let socks = s.device.ws_clients in
      elim (Bool-cases (serving i s.unregistered == 0)) [
        | inl none_there ↦ rw none_there (refl, held)
        | inr there ↦ rw there (
          sym (message_of-clients s.device (set socks i (negsuc 0))),
          rw (freed-held a i socks apart) held,
        )
      ]

  ends-told : (a i : ℕ) (s : Served) → slots_of (pos a) s.device.ws_clients ≢ 0 → Stays a (ends i) s
  unfolding Stays turn turn_out told
  ends-told a i s held = (refl, held)

  comes-Stays :
      (a n : ℕ) (s : Served)
      → IsServed s
      → slots_of (pos a) s.device.ws_clients ≢ 0
      → Stays a (comes n) s
  unfolding Stays
  comes-Stays a n s h held =
      (comes-told a n s (message_of c s.device) ∙ sym (comes-message n s), comes-held a n s h held)

  -- One turn before others.
  then_told :
      (a : ℕ) (t : Turn) (ts : List Turn) (s : Served)
      → Stays a t s
      → told
          (pos a)
          (turns_out ts (turn c json_obj_parse t s))
          (message_of c (turn c json_obj_parse t s).device)
        ≡ message_of c (turns c json_obj_parse ts (turn c json_obj_parse t s)).device
      → told (pos a) (turns_out (t ∷ ts) s) (message_of c s.device)
        ≡ message_of c (turns c json_obj_parse (t ∷ ts) s).device
  unfolding Stays turns turns_out
  then_told a t ts s step later =
      let s' = turn c json_obj_parse t s in
      told-append (pos a) (turn_out t s) (turns_out ts s') (message_of c s.device)
      ∙ (ap (told (pos a) (turns_out ts s')) step.0 ∙ later)

  -- While other clients come, send what they like and leave, in any order, a client that was last told
  -- the state and sends nothing itself is last told the state at the end: it misses no change of the
  -- colour.
  pub turns-told :
      (a : ℕ) (ts : List Turn) (s : Served)
      → IsServed s
      → slots_of (pos a) s.device.ws_clients ≢ 0
      → Apart a ts s
      → told (pos a) (turns_out ts s) (message_of c s.device)
        ≡ message_of c (turns c json_obj_parse ts s).device
  unfolding Stays turns turns_out told
  turns-told a [] s h held apart = refl
  turns-told a (comes n ∷ ts) s h held apart =
      let step = comes-Stays a n s h held in
      then_told a (comes n) ts s step (
        turns-told a ts (turn c json_obj_parse (comes n) s)
          (turn-IsServed c json_obj_parse (comes n) s h) step.1 apart)
  turns-told a (reads i inputs ∷ ts) s h held apart =
      let step = reads-told a i inputs s h held apart.0 in
      then_told a (reads i inputs) ts s step (
        turns-told a ts (turn c json_obj_parse (reads i inputs) s)
          (turn-IsServed c json_obj_parse (reads i inputs) s h) step.1 apart.1)
  turns-told a (unregisters_socket i ∷ ts) s h held apart =
      let step = unregisters-told a i s held in
      then_told a (unregisters_socket i) ts s step (
        turns-told a ts (turn c json_obj_parse (unregisters_socket i) s)
          (turn-IsServed c json_obj_parse (unregisters_socket i) s h) step.1 apart.1)
  turns-told a (frees i ∷ ts) s h held apart =
      let step = frees-told a i s held apart.0 in
      then_told a (frees i) ts s step (
        turns-told a ts (turn c json_obj_parse (frees i) s)
          (turn-IsServed c json_obj_parse (frees i) s h) step.1 apart.1)
  turns-told a (ends i ∷ ts) s h held apart =
      let step = ends-told a i s held in
      then_told a (ends i) ts s step (
        turns-told a ts (turn c json_obj_parse (ends i) s)
          (turn-IsServed c json_obj_parse (ends i) s h) step.1 apart)
