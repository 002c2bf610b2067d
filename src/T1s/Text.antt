-- ===== src/T1s/Text.antt =====
-- The state message, `state_json` and `ws_send_state` of
-- app/demos/ethernet_bridge/t1s_device/src/main.c.
use zephyr_start.Base.{
  List, [], arith, length, length-append, length-decimal-le, length-decimal_byte, map, take,
  take-append_length, take-length, ℕ, ℤ, ◌+◌, ◌<◌, ◌∷◌, ◌≡◌, ◌≤◌,
}
use zephyr_start.T1s.Defs.{Config, Device, Effect, send_text, state_json, ws_send_state}

-- A device whose colour values are bytes.
pub record IsColour (d : Device) : Type 0 where
  pub red_byte : d.red ≤ 255
  pub green_byte : d.green ≤ 255
  pub blue_byte : d.blue ≤ 255

state_json-length :
    (c : Config) (d : Device)
    → IsColour d
    → length (state_json c d) ≤ length c.device_name + length c.app_version + 62
unfolding state_json
state_json-length c d h = simp length-append (
    omega (
      arith,
      length-decimal-le c.plca_node_id,
      length-decimal_byte d.red (omega arith),
      length-decimal_byte d.green (omega arith),
      length-decimal_byte d.blue (omega arith),
    ))

-- The bytes that a text message carries: the first `len` of its buffer.
abbrev pub carried : Effect → List ℕ
carried (send_text sock buf len) = take len buf
carried _ = []

-- Where the device's name and the version have at most 65 characters together, the message is sent
-- from inside its buffer, and carries the whole text.
pub ws_send_state_lem :
    (c : Config) (sock : ℤ) (d : Device)
    → IsColour d
    → length c.device_name + length c.app_version ≤ 65
    → let text = state_json c d in
      (length text < 128) × (map carried (ws_send_state c sock d) ≡ text ∷ [])
unfolding ws_send_state
ws_send_state_lem c sock d h small =
    let text : List ℕ = state_json c d in
    let fits : length text ≤ 127 = omega (arith, state_json-length c d h) in
    (omega (arith, fits), rw (take-length 127 text fits, take-append_length text (0 ∷ [])))
