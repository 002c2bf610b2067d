-- ===== src/Lan/Leaks.antt =====
-- The sockets that the threads of app/demos/ethernet_bridge/lan8651_t1s_demo/src/main.c hold.
use zephyr_start.Base.{
  Bool, Bool-cases, List, Option, [], arith, codes, false, if◌then◌else◌, inl, inr, is_neg, negsuc,
  none, refl, some, suc, take, true, zero, ℕ, ℤ, ◌%◌, ◌+◌, ◌-◌, ◌^◌, ◌∷◌, ◌≡◌,
}
use zephyr_start.Lan.Servers.{
  Progress, Progress-cases, accept_loop, answer, echo_loop, http_end, http_listen, http_pass,
  http_server, ip_buf, main_transmitter, transmit, udp_end, udp_pass, udp_server, world_of, running,
  over,
}
use zephyr_start.Lan.Net.{CountsSockets, Datagram, Net, at}
use zephyr_start.Lan.Defs.{http_reply, udp_message}

-- A thread in its inner loop holds the socket of the loop.
abbrev pub held {ℓ} : {W : Type ℓ} → ℤ → ℤ → Progress W → ℕ
held sock fd (running w) = at sock fd
held sock fd (over w) = 0

abbrev pub is_none {ℓ} : {A : Type ℓ} → Option A → Bool
is_none none = true
is_none (some _) = false

module _ {W : Type 0} (net : Net W) where
  -- The socket of the last round of the outer loop that the UDP server has begun.
  unfoldable pub udp_socket : List ℕ → W → ℤ
  unfolding udp_pass
  udp_socket [] w = negsuc 0
  udp_socket (n ∷ ns) w = elim (udp_pass net n w) [
    | running w' ↦ (net.zsock_socket w).0
    | over w' ↦ udp_socket ns w'
  ]

  -- That of the HTTP server.
  unfoldable pub http_socket : List ℕ → ℕ → W → ℤ
  unfolding http_pass
  http_socket [] udp_port w = negsuc 0
  http_socket (n ∷ ns) udp_port w = elim (http_pass net n udp_port w) [
    | running w' ↦ (net.zsock_socket w).0
    | over w' ↦ http_socket ns udp_port w'
  ]

module _ {W : Type 0} (net : Net W) (opened : W → ℤ → ℕ) (k : CountsSockets net opened)
    (fd : ℤ) where
  -- What a piece of a thread leaves open, from `n` open sockets.
  Leaves : ℤ → Progress W → ℕ → Type 0
  Leaves sock p n = opened (world_of p) fd ≡ n + held sock fd p

  echo_loop-opened :
      (n : ℕ) (sock : ℤ) (w : W) → opened (world_of (echo_loop net n sock w)) fd ≡ opened w fd
  unfolding echo_loop
  echo_loop-opened zero sock w = refl
  echo_loop-opened (suc n) sock w =
      let (len, d, w1) = net.zsock_recvfrom sock w in
      let (ret, w2) = net.zsock_sendto sock d w1 in
      ground
        (arith, k.recvfrom_same sock w fd, k.sendto_same sock d w1 fd, echo_loop-opened n sock w2)

  udp_end-Leaves :
      (sock : ℤ) (p : Progress W) (n : ℕ)
      → opened (world_of p) fd ≡ n + at sock fd
      → Leaves sock (udp_end net sock p) n
  unfolding udp_end Leaves
  udp_end-Leaves sock (running w) n e = omega arith
  udp_end-Leaves sock (over w) n e =
      omega (arith, k.close_one sock w fd, k.sleep_same 250 (net.zsock_close sock w) fd)

  udp_pass-Leaves : (n : ℕ) (w : W) → Leaves (net.zsock_socket w).0 (udp_pass net n w) (opened w fd)
  unfolding udp_pass Leaves
  udp_pass-Leaves n w =
      let (sock, w1) = net.zsock_socket w in
      let (ret, w2) = net.zsock_bind sock w1 in
      elim (Bool-cases (is_neg sock)) [
        | inl bad ↦ ground (arith, k.socket_err w fd, k.sleep_same 1000 w1 fd)
        | inr good ↦ ground (
          arith,
          k.socket_ok w fd,
          k.bind_same sock w1 fd,
          k.close_one sock w2 fd,
          k.sleep_same 1000 (net.zsock_close sock w2) fd,
          udp_end-Leaves sock (echo_loop net n sock w2) (opened w fd),
          echo_loop-opened n sock w2,
        )
      ]

  -- However often it starts again, and whichever call fails, the UDP server leaves each
  -- descriptor as it was before, but the socket that it is waiting on.
  pub udp_server-opened :
      (ns : List ℕ) (w : W)
      → opened (world_of (udp_server net ns w)) fd
        ≡ opened w fd + held (udp_socket net ns w) fd (udp_server net ns w)
  unfolding udp_server udp_socket Leaves
  udp_server-opened [] w = omega arith
  udp_server-opened (n ∷ ns) w = elim (Progress-cases (udp_pass net n w)) [
    | inl (w', e) ↦ ground (arith, udp_pass-Leaves n w)
    | inr (w', e) ↦ ground (arith, udp_pass-Leaves n w, udp_server-opened ns w')
  ]

  answer-opened :
      (udp_port : ℕ) (client : ℤ) (w : W)
      → opened (answer net udp_port client w) fd ≡ opened w fd - at client fd
  unfolding answer
  answer-opened udp_port client w =
      let asked = net.zsock_recv client w in
      let (uptime, w1) = net.k_uptime_get asked in
      let (response, response_len) = http_reply (ip_buf net asked) udp_port uptime in
      let (ret, said) = net.zsock_send client (take response_len response) w1 in
      omega (
        arith,
        k.recv_same client w fd,
        k.uptime_same asked fd,
        k.send_same client (take response_len response) w1 fd,
        k.close_one client said fd,
      )

  accept_loop-opened :
      (n udp_port : ℕ) (server : ℤ) (w : W)
      → opened (world_of (accept_loop net n udp_port server w)) fd ≡ opened w fd
  unfolding accept_loop
  accept_loop-opened zero udp_port server w = refl
  accept_loop-opened (suc n) udp_port server w =
      let (client, w1) = net.zsock_accept server w in
      ground (
        arith,
        k.accept_ok server w fd,
        k.accept_err server w fd,
        answer-opened udp_port client w1,
        accept_loop-opened n udp_port server (answer net udp_port client w1),
      )

  http_end-Leaves :
      (server : ℤ) (p : Progress W) (n : ℕ)
      → opened (world_of p) fd ≡ n + at server fd
      → Leaves server (http_end net server p) n
  unfolding http_end Leaves
  http_end-Leaves server (running w) n e = omega arith
  http_end-Leaves server (over w) n e =
      omega (arith, k.close_one server w fd, k.sleep_same 250 (net.zsock_close server w) fd)

  http_listen-Leaves :
      (r udp_port : ℕ) (server : ℤ) (w : W) (n : ℕ)
      → opened w fd ≡ n + at server fd
      → Leaves server (http_listen net r udp_port server (net.zsock_listen server w)) n
  unfolding http_listen Leaves
  http_listen-Leaves r udp_port server w n e =
      let (ret, w1) = net.zsock_listen server w in
      ground (
        arith,
        k.listen_same server w fd,
        k.close_one server w1 fd,
        k.sleep_same 1000 (net.zsock_close server w1) fd,
        accept_loop-opened r udp_port server w1,
        http_end-Leaves server (accept_loop net r udp_port server w1) n,
      )

  http_pass-Leaves :
      (r udp_port : ℕ) (w : W)
      → Leaves (net.zsock_socket w).0 (http_pass net r udp_port w) (opened w fd)
  unfolding http_pass Leaves
  http_pass-Leaves r udp_port w =
      let (server, w1) = net.zsock_socket w in
      let (ret, w2) = net.zsock_bind server w1 in
      elim (Bool-cases (is_neg server)) [
        | inl bad ↦ ground (arith, k.socket_err w fd, k.sleep_same 1000 w1 fd)
        | inr good ↦ ground (
          arith,
          k.socket_ok w fd,
          k.bind_same server w1 fd,
          k.close_one server w2 fd,
          k.sleep_same 1000 (net.zsock_close server w2) fd,
          http_listen-Leaves r udp_port server w2 (opened w fd),
        )
      ]

  -- However often it starts again, whichever call fails and however many clients it has answered,
  -- the HTTP server leaves each descriptor as it was before, but the socket of the round of its outer
  -- loop that it is in, while it is listening on that: it has closed each client that it accepted.
  pub http_server-opened :
      (ns : List ℕ) (udp_port : ℕ) (w : W)
      → opened (world_of (http_server net ns udp_port w)) fd
        ≡ opened w fd + held (http_socket net ns udp_port w) fd (http_server net ns udp_port w)
  unfolding http_server http_socket Leaves
  http_server-opened [] udp_port w = omega arith
  http_server-opened (n ∷ ns) udp_port w = elim (Progress-cases (http_pass net n udp_port w)) [
    | inl (w', e) ↦ ground (arith, http_pass-Leaves n udp_port w)
    | inr (w', e) ↦ ground (arith, http_pass-Leaves n udp_port w, http_server-opened ns udp_port w')
  ]

  transmit-opened :
      (n interval seq : ℕ) (sock : ℤ) (peer : List ℕ) (w : W)
      → opened (transmit net n interval seq sock peer w) fd ≡ opened w fd
  unfolding transmit
  transmit-opened zero interval seq sock peer w = refl
  transmit-opened (suc n) interval seq sock peer w =
      let (uptime, w1) = net.k_uptime_get w in
      let (msg, len) = udp_message seq uptime in
      let d : Datagram = record { peer = peer; bytes = take len msg } in
      let (ret, w2) = net.zsock_sendto sock d w1 in
      omega (
        arith,
        k.uptime_same w fd,
        k.sendto_same sock d w1 fd,
        k.sleep_same interval w2 fd,
        transmit-opened n interval ((seq + 1) % 2 ^ 32) sock peer (net.k_sleep interval w2),
      )

  -- Where `main` returns from its set-up of the transmitter with an error, it has left no socket
  -- open; in its loop it has its own.
  pub main_transmitter-opened :
      (n interval : ℕ) (minus_errno : ℤ) (w : W)
      → let (result, w') = main_transmitter net n interval minus_errno w in
        opened w' fd ≡ opened w fd + (if is_none result then at (net.zsock_socket w).0 fd else 0)
  unfolding main_transmitter
  main_transmitter-opened n interval minus_errno w =
      let (sock, w1) = net.zsock_socket w in
      let (ok, peer) = net.zsock_inet_pton (codes "2.2.2.2") in
      ground (
        arith,
        k.socket_ok w fd,
        k.socket_err w fd,
        k.close_one sock w1 fd,
        transmit-opened n interval 0 sock peer w1,
      )
