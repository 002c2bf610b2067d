-- ===== src/Lan/Reply.antt =====
-- The texts that app/demos/ethernet_bridge/lan8651_t1s_demo/src/main.c sends.
use zephyr_start.Base.{
  List, [], ap, arith, decimal_loop-length, length, length-append, length-decimal-le, take,
  take-append_length, take-length, ℕ, ◌++◌, ◌-◌, ◌<◌, ◌∙◌, ◌∷◌, ◌≡◌, ◌≤◌,
}
use zephyr_start.Lan.Defs.{
  body_text, decimal64, head_text, http_reply, message_text, udp_message, stored,
}

decimal64-length : (n : ℕ) → length (decimal64 n) ≤ 20
unfolding decimal64
decimal64-length n = omega (arith, decimal_loop-length 20 n [])

body_text-length :
    (ip : List ℕ) (udp_port uptime : ℕ)
    → length ip ≤ 15
    → length (body_text ip udp_port uptime) ≤ 100
unfolding body_text
body_text-length ip udp_port uptime h =
    simp length-append (omega (arith, length-decimal-le udp_port, decimal64-length uptime))

head_text-length : (n : ℕ) → length (head_text n) ≤ 120
unfolding head_text
head_text-length n = simp length-append (omega (arith, length-decimal-le n))

message_text-length : (seq uptime : ℕ) → length (message_text seq uptime) ≤ 57
unfolding message_text
message_text-length seq uptime =
    simp length-append (omega (arith, length-decimal-le seq, decimal64-length uptime))

-- The bytes that a send of `len` bytes takes from a buffer.
abbrev pub sent : List ℕ × ℕ → List ℕ
sent (buf, len) = take len buf

-- A text that fits is sent whole.
sent-stored :
    (size : ℕ) (text : List ℕ)
    → length text < size
    → sent (stored size text ++ (0 ∷ []), length text) ≡ text
sent-stored size text h =
    let fits : length text ≤ size - 1 = omega arith in
    rw (take-length (size - 1) text fits) (take-append_length text (0 ∷ []))

-- With an address of 15 characters at most, neither buffer of the HTTP server overflows: the length
-- sent is inside the response buffer, and the bytes sent are the head, with the exact length of the
-- body, and the whole body.
pub http_reply_lem :
    (ip : List ℕ) (udp_port uptime : ℕ)
    → length ip ≤ 15
    → let body = body_text ip udp_port uptime in
      ((http_reply ip udp_port uptime).1 < 384)
      × (sent (http_reply ip udp_port uptime) ≡ head_text (length body) ++ body)
unfolding http_reply
http_reply_lem ip udp_port uptime h =
    let body : List ℕ = body_text ip udp_port uptime in
    let head : List ℕ = head_text (length body) in
    let short : length body ≤ 191 = omega (arith, body_text-length ip udp_port uptime h) in
    let kept : stored 192 body ≡ body = take-length 191 body short in
    let text : List ℕ = head ++ stored 192 body in
    let fits : length text < 384 = omega (
      arith,
      length-append head (stored 192 body),
      ap length kept,
      head_text-length (length body),
      short,
    ) in
    (fits, sent-stored 384 text fits ∙ ap (λ b. head ++ b) kept)

-- The UDP message fits into its buffer, whatever the number and the time, and is sent whole.
pub udp_message_lem :
    (seq uptime : ℕ)
    → ((udp_message seq uptime).1 < 64) × (sent (udp_message seq uptime) ≡ message_text seq uptime)
unfolding udp_message
udp_message_lem seq uptime =
    let small = message_text-length seq uptime in
    (omega arith, sent-stored 64 (message_text seq uptime) (omega arith))
