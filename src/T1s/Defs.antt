-- ===== src/T1s/Defs.antt =====
-- The LED, the WebSocket clients and their messages in
-- app/demos/ethernet_bridge/t1s_device/src/main.c.
-- The results of the calls that set a pulse, send a message or unregister a socket are only
-- logged, so these calls are effects in the order in which the code makes them.
use zephyr_start.Base.{
  Bool, List, [], codes, decimal, eagain, enoent, get_or, if◌then◌else◌, is_neg, is_zero, length,
  ltb, neg, negsuc, not, pos, set, suc, take, ℕ, ℤ, ◌%◌, ◌&&◌, ◌*◌, ◌++◌, ◌/◌, ◌==ℤ◌, ◌==◌, ◌^◌,
  ◌||◌, ◌∷◌,
}

-- A call that leaves the program. A text is sent from a buffer, with a length of its own.
pub data Effect : Type 0 where
  set_pulse : ℕ → ℕ → Effect
  send_text : ℤ → List ℕ → ℕ → Effect
  send_close : ℤ → List ℕ → Effect
  send_pong : ℤ → List ℕ → Effect
  create_thread : ℕ → Effect
  unregister : ℤ → Effect

-- What the build fixes: the periods of the PWM channels, the device's name, the version, the node.
pub record Config : Type 0 where
  pub red_period : ℕ
  pub green_period : ℕ
  pub blue_period : ℕ
  pub device_name : List ℕ
  pub app_version : List ℕ
  pub plca_node_id : ℕ

-- `rgb` and `ws_clients`; a negative number marks a free slot.
pub record Device : Type 0 where
  pub red : ℕ
  pub green : ℕ
  pub blue : ℕ
  pub ws_clients : List ℤ

abbrev pub initial : Device
initial = record { red = 0; green = 0; blue = 0; ws_clients = negsuc 0 ∷ negsuc 0 ∷ negsuc 0 ∷ [] }

-- The product is taken in 64 bits and the quotient stored in 32.
unfoldable pub pulse_of : ℕ → ℕ → ℕ
pulse_of period value = (period * value % 2 ^ 64) / 255 % 2 ^ 32

module _ (c : Config) where
  unfoldable pub rgb_apply : Device → List Effect
  unfolding pulse_of
  rgb_apply d =
      set_pulse 0 (pulse_of c.red_period d.red)
      ∷ set_pulse 1 (pulse_of c.green_period d.green)
      ∷ set_pulse 2 (pulse_of c.blue_period d.blue)
      ∷ []

  -- The text that `state_json` formats. Its buffer of 128 bytes keeps the first 127, with a NUL, and
  -- it returns the length of the whole.
  unfoldable pub state_json : Device → List ℕ
  state_json d =
      codes "{\"name\":\""
      ++ (c.device_name
          ++ (codes "\",\"ver\":\""
              ++ (c.app_version
                  ++ (codes "\",\"plca\":"
                      ++ (decimal c.plca_node_id
                          ++ (codes ",\"r\":"
                              ++ (decimal d.red
                                  ++ (codes ",\"g\":"
                                      ++ (decimal d.green
                                          ++ (codes ",\"b\":"
                                              ++ (decimal d.blue ++ codes "}")))))))))))

  unfoldable pub ws_send_state : ℤ → Device → List Effect
  ws_send_state sock d =
      let text = state_json d in send_text sock (take 127 text ++ (0 ∷ [])) (length text) ∷ []

  unfoldable pub broadcast_to : ℤ → Device → List ℤ → List Effect
  broadcast_to except_sock d [] = []
  broadcast_to except_sock d (sock ∷ socks) =
      let rest = broadcast_to except_sock d socks in
      if not (is_neg sock) && not (sock ==ℤ except_sock) then ws_send_state sock d ++ rest else rest

  unfoldable pub ws_broadcast_state : ℤ → Device → List Effect
  unfolding broadcast_to ws_send_state
  ws_broadcast_state except_sock d = broadcast_to except_sock d d.ws_clients

-- What one round of the client thread reads: `zsock_poll` fails; it reports a hang-up or an error;
-- or a message is read, with the result of `websocket_recv_msg`, the bytes read and the type flags.
pub data Input : Type 0 where
  poll_failed hung_up : Input
  received : ℤ → List ℕ → (is_close is_ping is_data : Bool) → Input

-- `struct rgb_cmd`.
pub record RgbCmd : Type 0 where
  pub r : ℤ
  pub g : ℤ
  pub b : ℤ

-- `(uint8_t)CLAMP(x, 0, 255)`
unfoldable pub clamp_byte : ℤ → ℕ
clamp_byte (pos n) = if ltb 255 n then 255 else n
clamp_byte (negsuc n) = 0

-- Whether the thread stays in its loop.
pub data Next : Type 0 where
  go_on leave : Next

-- `json_obj_parse` of Zephyr on the text, with its result; 7 is the mask of all three fields.
module _ (c : Config) (json_obj_parse : List ℕ → ℤ × RgbCmd) where
  unfoldable pub set_rgb : RgbCmd → Device → Device
  set_rgb cmd d = record d {
    red = clamp_byte cmd.r;
    green = clamp_byte cmd.g;
    blue = clamp_byte cmd.b;
  }

  unfoldable pub handle_cmd : ℤ → ℤ × RgbCmd → Device → Next × List Effect × Device
  unfolding set_rgb clamp_byte rgb_apply ws_broadcast_state
  handle_cmd sock (ret, cmd) d =
      if ret ==ℤ pos 7
      then (let d' = set_rgb cmd d in (go_on, rgb_apply c d' ++ ws_broadcast_state c sock d', d'))
      else (go_on, [], d)

  unfoldable pub handle_message :
      ℤ → ℤ → List ℕ → (is_close is_ping is_data : Bool) → Device → Next × List Effect × Device
  unfolding handle_cmd
  handle_message sock len buf is_close is_ping is_data d =
      if is_neg len
      then (if len ==ℤ neg eagain then go_on else leave, [], d)
      else (if is_close
          then (leave, send_close sock buf ∷ [], d)
          else (if is_ping
              then (go_on, send_pong sock buf ∷ [], d)
              else (if is_zero len || not is_data
                  then (go_on, [], d)
                  else handle_cmd sock (json_obj_parse buf) d)))

  -- One round of the `while (true)` of `ws_client_thread`.
  unfoldable pub client_round : ℤ → Input → Device → Next × List Effect × Device
  unfolding handle_message
  client_round sock poll_failed d = (leave, [], d)
  client_round sock hung_up d = (leave, [], d)
  client_round sock (received len buf is_close is_ping is_data) d =
      handle_message sock len buf is_close is_ping is_data d

  -- The loop, with whether the thread has left it; with no more input it waits in its loop.
  unfoldable pub client_loop : ℤ → List Input → Device → Next × List Effect × Device
  client_loop sock [] d = (go_on, [], d)
  client_loop sock (i ∷ is) d =
      let (n, out, d') = client_round sock i d in
      elim n [
        | go_on ↦ let (n', out', d'') = client_loop sock is d' in (n', out ++ out', d'')
        | leave ↦ (leave, out, d')
      ]

  -- The two statements after the loop.
  unfoldable pub client_unregister : ℤ → List Effect
  client_unregister sock = unregister sock ∷ []

  unfoldable pub release_slot : ℕ → Device → Device
  release_slot slot d = record d { ws_clients = set d.ws_clients slot (negsuc 0) }

  unfoldable pub client_exit : ℕ → ℤ → Device → List Effect × Device
  unfolding client_unregister release_slot
  client_exit slot sock d = (client_unregister sock, release_slot slot d)

  unfoldable pub after_loop : ℕ → ℤ → Next × List Effect × Device → Next × List Effect × Device
  unfolding client_exit
  after_loop slot sock (go_on, out, d) = (go_on, out, d)
  after_loop slot sock (leave, out, d) =
      let (out', d') = client_exit slot sock d in (leave, out ++ out', d')

  -- The thread on its own, with whether it has ended.
  unfoldable pub ws_client_thread : ℕ → List Input → Device → Next × List Effect × Device
  unfolding client_loop client_round after_loop ws_send_state
  ws_client_thread slot inputs d =
      let sock = get_or d.ws_clients slot (negsuc 0) in
      let (n, out, d') = after_loop slot sock (client_loop sock inputs d) in
      (n, ws_send_state c sock d ++ out, d')

-- The first free slot, or the number of slots.
unfoldable pub find_slot : List ℤ → ℕ
find_slot [] = 0
find_slot (sock ∷ socks) = if is_neg sock then 0 else suc (find_slot socks)

abbrev pub ws_max_clients : ℕ
ws_max_clients = 3

unfoldable pub ws_setup_cb : ℤ → Device → ℤ × List Effect × Device
unfolding find_slot
ws_setup_cb ws_socket d =
    let slot = find_slot d.ws_clients in
    if slot == ws_max_clients
    then (neg enoent, [], d)
    else (pos 0, create_thread slot ∷ [], record d { ws_clients = set d.ws_clients slot ws_socket })
