-- ===== src/Lan/Servers.antt =====
-- The two servers and `main` of app/demos/ethernet_bridge/lan8651_t1s_demo/src/main.c.
-- A loop runs for a number of rounds at most: `running` is a thread that is still in its inner loop
-- after them, `over` one that has left it.
use zephyr_start.Base.{
  List, Option, [], codes, einval, if◌then◌else◌, inl, inr, is_neg, neg, none, pos, refl, some, suc,
  take, zero, ℕ, ℤ, ◌%◌, ◌+◌, ◌==ℤ◌, ◌^◌, ◌∷◌, ◌≡◌, ◌⊎◌,
}
use zephyr_start.Lan.Net.{Net}
use zephyr_start.Lan.Defs.{http_reply, ipv4_to_text, udp_message}

pub data Progress {ℓ} (W : Type ℓ) : Type ℓ where
  running over : W → Progress W

abbrev pub world_of {ℓ} : {W : Type ℓ} → Progress W → W
world_of (running w) = w
world_of (over w) = w

pub Progress-cases {ℓ} :
    {W : Type ℓ} (p : Progress W) → ((w : W) × (p ≡ running w)) ⊎ ((w : W) × (p ≡ over w))
Progress-cases (running w) = inl (w, refl)
Progress-cases (over w) = inr (w, refl)

module _ {W : Type 0} (net : Net W) where
  -- The inner `while (true)` of `udp_server`.
  unfoldable pub echo_loop : ℕ → ℤ → W → Progress W
  echo_loop zero sock w = running w
  echo_loop (suc rounds_left) sock w =
      let (len, datagram, w1) = net.zsock_recvfrom sock w in
      let (ret, w2) = net.zsock_sendto sock datagram w1 in
      let rest = echo_loop rounds_left sock w2 in
      if is_neg len then over w1 else (if is_neg ret then over w2 else rest)

  unfoldable pub udp_end : ℤ → Progress W → Progress W
  udp_end sock (running w) = running w
  udp_end sock (over w) = over (net.k_sleep 250 (net.zsock_close sock w))

  -- One round of the outer `while (true)` of `udp_server`.
  unfoldable pub udp_pass : ℕ → W → Progress W
  unfolding udp_end echo_loop
  udp_pass rounds_left w =
      let (sock, w1) = net.zsock_socket w in
      if is_neg sock
      then over (net.k_sleep 1000 w1)
      else (let (ret, w2) = net.zsock_bind sock w1 in
          if is_neg ret
          then over (net.k_sleep 1000 (net.zsock_close sock w2))
          else udp_end sock (echo_loop rounds_left sock w2))

  -- The rounds of the outer loop, each with the number of datagrams that it may wait for.
  unfoldable pub udp_server : List ℕ → W → Progress W
  unfolding udp_pass
  udp_server [] w = over w
  udp_server (n ∷ ns) w = elim (udp_pass n w) [
    | running w' ↦ running w'
    | over w' ↦ udp_server ns w'
  ]

  -- The text of the address of the default interface.
  unfoldable pub ip_buf : W → List ℕ
  unfolding ipv4_to_text
  ip_buf w = ipv4_to_text net.net_ipv4_is_addr_unspecified net.net_addr_ntop (net.unicast w)

  -- The answer to a client; what it asked is not read, nor what `zsock_send` returns.
  unfoldable pub answer : ℕ → ℤ → W → W
  unfolding http_reply ip_buf
  answer udp_port client w =
      let asked = net.zsock_recv client w in
      let (uptime, w1) = net.k_uptime_get asked in
      let (response, response_len) = http_reply (ip_buf asked) udp_port uptime in
      let (sent, w2) = net.zsock_send client (take response_len response) w1 in
      net.zsock_close client w2

  -- The inner `while (true)` of `http_server`.
  unfoldable pub accept_loop : ℕ → ℕ → ℤ → W → Progress W
  unfolding answer
  accept_loop zero udp_port server w = running w
  accept_loop (suc rounds_left) udp_port server w =
      let (client, w1) = net.zsock_accept server w in
      let rest = accept_loop rounds_left udp_port server (answer udp_port client w1) in
      if is_neg client then over w1 else rest

  unfoldable pub http_end : ℤ → Progress W → Progress W
  http_end server (running w) = running w
  http_end server (over w) = over (net.k_sleep 250 (net.zsock_close server w))

  unfoldable pub http_listen : ℕ → ℕ → ℤ → ℤ × W → Progress W
  unfolding http_end accept_loop
  http_listen rounds_left udp_port server (ret, w) =
      if is_neg ret
      then over (net.k_sleep 1000 (net.zsock_close server w))
      else http_end server (accept_loop rounds_left udp_port server w)

  -- One round of the outer `while (true)` of `http_server`.
  unfoldable pub http_pass : ℕ → ℕ → W → Progress W
  unfolding http_listen
  http_pass rounds_left udp_port w =
      let (server, w1) = net.zsock_socket w in
      if is_neg server
      then over (net.k_sleep 1000 w1)
      else (let (ret, w2) = net.zsock_bind server w1 in
          if is_neg ret
          then over (net.k_sleep 1000 (net.zsock_close server w2))
          else http_listen rounds_left udp_port server (net.zsock_listen server w2))

  unfoldable pub http_server : List ℕ → ℕ → W → Progress W
  unfolding http_pass
  http_server [] udp_port w = over w
  http_server (n ∷ ns) udp_port w = elim (http_pass n udp_port w) [
    | running w' ↦ running w'
    | over w' ↦ http_server ns udp_port w'
  ]

  -- The last `while (true)` of `main`; that a message is not sent is only logged.
  unfoldable pub transmit : ℕ → ℕ → ℕ → ℤ → List ℕ → W → W
  unfolding udp_message
  transmit zero interval seq sock peer w = w
  transmit (suc rounds_left) interval seq sock peer w =
      let (uptime, w1) = net.k_uptime_get w in
      let (msg, len) = udp_message seq uptime in
      let (ret, w2) = net.zsock_sendto sock (record { peer = peer; bytes = take len msg }) w1 in
      transmit rounds_left interval ((seq + 1) % 2 ^ 32) sock peer (net.k_sleep interval w2)

  -- `main` from its socket on, for a number of messages: what it returns, or that it is in its loop.
  unfoldable pub main_transmitter : ℕ → ℕ → ℤ → W → Option ℤ × W
  unfolding transmit
  main_transmitter rounds_left interval minus_errno w =
      let (sock, w1) = net.zsock_socket w in
      let (ok, peer) = net.zsock_inet_pton (codes "2.2.2.2") in
      if is_neg sock
      then (some minus_errno, w1)
      else (if ok ==ℤ pos 1
          then (none, transmit rounds_left interval 0 sock peer w1)
          else (some (neg einval), net.zsock_close sock w1))
