-- ===== src/T1s/Rounds.antt =====
-- The client thread, `ws_client_thread` of
-- app/demos/ethernet_bridge/t1s_device/src/main.c.
use zephyr_start.Base.{
  ==ℤ-refl, Bool, List, [], ap, arith, eagain, false, get_or, if◌then◌else◌, is_neg, neg, negsuc,
  not, refl, set, true, ℕ, ℤ, ◌++◌, ◌+◌, ◌==ℤ◌, ◌||◌, ◌∙◌, ◌∷◌, ◌≡◌,
}
use zephyr_start.T1s.Text.{IsColour}
use zephyr_start.T1s.Defs.{
  Config, Device, Effect, Input, Next, RgbCmd, after_loop, broadcast_to, client_exit, client_loop,
  client_round, create_thread, go_on, hung_up, poll_failed, rgb_apply, send_close, send_pong,
  send_text, set_pulse, set_rgb, unregister, ws_broadcast_state, ws_client_thread, ws_send_state,
  leave, received,
}

-- How often a trace unregisters a socket.
unfoldable pub unregisters : ℤ → List Effect → ℕ
unregisters sock [] = 0
unregisters sock (unregister s ∷ out) = (if s ==ℤ sock then 1 else 0) + unregisters sock out
unregisters sock (_ ∷ out) = unregisters sock out

unregisters-append :
    (sock : ℤ) (xs ys : List Effect)
    → unregisters sock (xs ++ ys) ≡ unregisters sock xs + unregisters sock ys
unfolding unregisters
unregisters-append sock [] ys = omega arith
unregisters-append sock (set_pulse a b ∷ xs) ys = unregisters-append sock xs ys
unregisters-append sock (send_text a b e ∷ xs) ys = unregisters-append sock xs ys
unregisters-append sock (send_close a b ∷ xs) ys = unregisters-append sock xs ys
unregisters-append sock (send_pong a b ∷ xs) ys = unregisters-append sock xs ys
unregisters-append sock (create_thread a ∷ xs) ys = unregisters-append sock xs ys
unregisters-append sock (unregister a ∷ xs) ys = omega (arith, unregisters-append sock xs ys)

-- Which inputs end the loop: a poll that fails, a hang-up, an error other than -EAGAIN, a close message.
unfoldable pub breaks : Input → Bool
breaks poll_failed = true
breaks hung_up = true
breaks (received len _ is_close _ _) = if is_neg len then not (len ==ℤ neg eagain) else is_close

unfoldable pub any_breaks : List Input → Bool
unfolding breaks
any_breaks [] = false
any_breaks (i ∷ is) = breaks i || any_breaks is

module _ (c : Config) (json_obj_parse : List ℕ → ℤ × RgbCmd) where
  broadcast_to-unregisters :
      (sock except : ℤ) (d : Device) (socks : List ℤ)
      → unregisters sock (broadcast_to c except d socks) ≡ 0
  unfolding broadcast_to unregisters ws_send_state
  broadcast_to-unregisters sock except d [] = refl
  broadcast_to-unregisters sock except d (s ∷ socks) =
      ground (arith, broadcast_to-unregisters sock except d socks)

  -- What one round of the thread of the client `sock` does to the device.
  pub record IsRound (sock : ℤ) (d : Device) (result : Next × List Effect × Device) : Type 0 where
    pub clients : result.2.ws_clients ≡ d.ws_clients
    pub colour : IsColour d → IsColour result.2
    pub registered : unregisters sock result.1 ≡ 0

  pub client_round-IsRound :
      (sock : ℤ) (i : Input) (d : Device) → IsRound sock d (client_round c json_obj_parse sock i d)
  unfolding client_round unregisters rgb_apply ws_broadcast_state
  client_round-IsRound sock poll_failed d = record {
    clients = refl;
    colour = λ h. h;
    registered = refl;
  }
  client_round-IsRound sock hung_up d = record {
    clients = refl;
    colour = λ h. h;
    registered = refl;
  }
  client_round-IsRound sock (received len buf is_close is_ping is_data) d =
      let d' : Device = set_rgb c json_obj_parse (json_obj_parse buf).1 d in
      let quiet = broadcast_to-unregisters sock sock d' d.ws_clients in
      record {
        clients = ground arith;
        colour = λ h. ground arith;
        registered = ground (arith, quiet);
      }

  round_breaks :
      (sock : ℤ) (i : Input) (d : Device)
      → (client_round c json_obj_parse sock i d).0 ≡ (if breaks i then leave else go_on)
  unfolding client_round breaks
  round_breaks sock poll_failed d = refl
  round_breaks sock hung_up d = refl
  round_breaks sock (received len buf is_close is_ping is_data) d = ground arith

  -- The loop ends at the first input that breaks it; it leaves the table of clients and the
  -- registration of its socket alone.
  pub client_loop_lem :
      (sock : ℤ) (is : List Input) (d : Device)
      → IsColour d
      → let (n, out, d') = client_loop c json_obj_parse sock is d in
        (n ≡ (if any_breaks is then leave else go_on))
        × IsColour d'
        × (d'.ws_clients ≡ d.ws_clients)
        × (unregisters sock out ≡ 0)
  unfolding client_loop any_breaks unregisters
  client_loop_lem sock [] d h = (refl, h, refl, refl)
  client_loop_lem sock (i ∷ is) d h =
      let round = client_round c json_obj_parse sock i d in
      let after = client_loop c json_obj_parse sock is round.2 in
      ground (
        arith,
        round_breaks sock i d,
        client_round-IsRound sock i d,
        client_loop_lem sock is round.2,
        unregisters-append sock round.1 after.1,
      )

  -- What follows the loop.
  after_loop_lem :
      (slot : ℕ) (sock : ℤ) (n : Next) (out : List Effect) (d : Device) (left : Bool)
      → n ≡ (if left then leave else go_on)
      → unregisters sock out ≡ 0
      → IsColour d
      → let (n', out', d') = after_loop c json_obj_parse slot sock (n, out, d) in
        (n' ≡ n)
        × IsColour d'
        × (unregisters sock out' ≡ (if left then 1 else 0))
        × (d'.ws_clients ≡ (if left then set d.ws_clients slot (negsuc 0) else d.ws_clients))
  unfolding after_loop client_exit unregisters
  after_loop_lem slot sock n out d false e quiet h = rw e (refl, h, quiet, refl)
  after_loop_lem slot sock n out d true e quiet h = rw e (
    refl,
    record { red_byte = h.red_byte; green_byte = h.green_byte; blue_byte = h.blue_byte },
    ground (arith, unregisters-append sock out (unregister sock ∷ []), ==ℤ-refl sock),
    refl,
  )

  -- If no input breaks the loop, the thread is still in it, and its client keeps its slot and its
  -- socket. If one does, the thread has ended: its slot is free, no other slot has changed, and its
  -- socket was unregistered once. The colour stays in range either way.
  pub ws_client_thread_lem :
      (slot : ℕ) (is : List Input) (d : Device)
      → IsColour d
      → let sock = get_or d.ws_clients slot (negsuc 0) in
        let (n, out, d') = ws_client_thread c json_obj_parse slot is d in
        (n ≡ (if any_breaks is then leave else go_on))
        × IsColour d'
        × (unregisters sock out ≡ (if any_breaks is then 1 else 0))
        × (d'.ws_clients
            ≡ (if any_breaks is then set d.ws_clients slot (negsuc 0) else d.ws_clients))
  unfolding ws_client_thread unregisters ws_send_state
  ws_client_thread_lem slot is d h =
      let sock = get_or d.ws_clients slot (negsuc 0) in
      let loop = client_loop c json_obj_parse sock is d in
      let (n, colour, same, quiet) = client_loop_lem sock is d h in
      let (n', colour', count, table) =
        after_loop_lem slot sock loop.0 loop.1 loop.2 (any_breaks is) n quiet colour in
      (
        n' ∙ n,
        colour',
        count,
        table ∙ ap (λ t. if any_breaks is then set t slot (negsuc 0) else t) same,
      )
