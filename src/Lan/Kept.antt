-- ===== src/Lan/Kept.antt =====
-- Relations that the steps of `http_server` of
-- app/demos/ethernet_bridge/lan8651_t1s_demo/src/main.c keep.
use zephyr_start.Base.{
  Bool-cases, List, [], arith, false, inl, inr, is_neg, suc, true, zero, ℕ, ℤ, ◌∷◌, ◌≡◌,
}
use zephyr_start.Lan.Servers.{
  Progress, Progress-cases, accept_loop, answer, http_end, http_listen, http_pass, http_server,
  world_of, running, over,
}
use zephyr_start.Lan.Net.{Net}

-- A relation between the worlds before and after that the server's steps stay in.
pub record IsKept {W : Type 0} (net : Net W) (udp_port : ℕ) (R : W → W → Type 0) : Type 0 where
  pub none_yet : (w : W) → R w w
  pub then_on : (u v w : W) → R u v → R v w → R u w
  pub socket : (w : W) → R w (net.zsock_socket w).1
  pub bind : (s : ℤ) (w : W) → R w (net.zsock_bind s w).1
  pub listen : (s : ℤ) (w : W) → R w (net.zsock_listen s w).1
  pub close : (s : ℤ) (w : W) → R w (net.zsock_close s w)
  pub sleep : (ms : ℕ) (w : W) → R w (net.k_sleep ms w)
  pub refused :
      (s : ℤ) (w : W) → is_neg (net.zsock_accept s w).0 ≡ true → R w (net.zsock_accept s w).1
  pub served :
      (s : ℤ) (w : W)
      → is_neg (net.zsock_accept s w).0 ≡ false
      → R w (answer net udp_port (net.zsock_accept s w).0 (net.zsock_accept s w).1)

module _ {W : Type 0} (net : Net W) (udp_port : ℕ) (R : W → W → Type 0)
    (k : IsKept net udp_port R) where
  -- Along an equation between the ends.
  kept_at : (w : W) (p q : Progress W) → p ≡ q → R w (world_of q) → R w (world_of p)
  kept_at w p q e h = rw e h

  closing : (ms : ℕ) (s : ℤ) (u w : W) → R u w → R u (net.k_sleep ms (net.zsock_close s w))
  closing ms s u w h =
      k.then_on u w _ h (k.then_on w (net.zsock_close s w) _ (k.close s w) (k.sleep ms _))

  accept_loop-kept :
      (n : ℕ) (server : ℤ) (w : W) → R w (world_of (accept_loop net n udp_port server w))
  unfolding accept_loop
  accept_loop-kept zero server w = k.none_yet w
  accept_loop-kept (suc n) server w =
      let (client, w1) = net.zsock_accept server w in
      let w2 = answer net udp_port client w1 in
      let rest : Progress W = accept_loop net n udp_port server w2 in
      elim (Bool-cases (is_neg client)) [
        | inl bad ↦
            kept_at w (accept_loop net (suc n) udp_port server w) (over w1) (ground arith)
              (k.refused server w bad)
        | inr good ↦
            kept_at w (accept_loop net (suc n) udp_port server w) rest (ground arith) (
              k.then_on w w2 (world_of rest) (k.served server w good)
                (accept_loop-kept n server w2))
      ]

  http_end-kept :
      (server : ℤ) (u : W) (p : Progress W)
      → R u (world_of p)
      → R u (world_of (http_end net server p))
  unfolding http_end
  http_end-kept server u (running w) h = h
  http_end-kept server u (over w) h = closing 250 server u w h

  http_listen-kept :
      (n : ℕ) (server : ℤ) (u w : W)
      → R u w
      → R u (world_of (http_listen net n udp_port server (net.zsock_listen server w)))
  unfolding http_listen
  http_listen-kept n server u w h =
      let (ret, w1) = net.zsock_listen server w in
      let here : R u w1 = k.then_on u w w1 h (k.listen server w) in
      let whole : Progress W = http_listen net n udp_port server (net.zsock_listen server w) in
      let loop : Progress W = accept_loop net n udp_port server w1 in
      elim (Bool-cases (is_neg ret)) [
        | inl bad ↦
            kept_at u whole (over (net.k_sleep 1000 (net.zsock_close server w1))) (ground arith)
              (closing 1000 server u w1 here)
        | inr good ↦ kept_at u whole (http_end net server loop) (ground arith) (
            http_end-kept server u loop
              (k.then_on u w1 (world_of loop) here (accept_loop-kept n server w1)))
      ]

  http_pass-kept : (n : ℕ) (w : W) → R w (world_of (http_pass net n udp_port w))
  unfolding http_pass
  http_pass-kept n w =
      let (server, w1) = net.zsock_socket w in
      let (ret, w2) = net.zsock_bind server w1 in
      let whole : Progress W = http_pass net n udp_port w in
      let bound : R w w2 = k.then_on w w1 w2 (k.socket w) (k.bind server w1) in
      elim (Bool-cases (is_neg server)) [
        | inl bad ↦
            kept_at w whole (over (net.k_sleep 1000 w1)) (ground arith)
              (k.then_on w w1 (net.k_sleep 1000 w1) (k.socket w) (k.sleep 1000 w1))
        | inr good ↦ elim (Bool-cases (is_neg ret)) [
          | inl bad ↦
              kept_at w whole (over (net.k_sleep 1000 (net.zsock_close server w2))) (ground arith)
                (closing 1000 server w w2 bound)
          | inr fine ↦
              kept_at w whole (http_listen net n udp_port server (net.zsock_listen server w2))
                (ground arith) (http_listen-kept n server w w2 bound)
        ]
      ]

  pub http_server-kept : (ns : List ℕ) (w : W) → R w (world_of (http_server net ns udp_port w))
  unfolding http_server
  http_server-kept [] w = k.none_yet w
  http_server-kept (n ∷ ns) w =
      let whole : Progress W = http_server net (n ∷ ns) udp_port w in
      let pass : Progress W = http_pass net n udp_port w in
      elim (Progress-cases (http_pass net n udp_port w)) [
        | inl (w', e) ↦ kept_at w whole pass (ground arith) (http_pass-kept n w)
        | inr (w', e) ↦ kept_at w whole (http_server net ns udp_port w') (ground arith) (
            k.then_on w w' (world_of (http_server net ns udp_port w'))
              (rw e at (http_pass-kept n w)) (http_server-kept ns w'))
      ]
