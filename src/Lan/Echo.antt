-- ===== src/Lan/Echo.antt =====
-- What `udp_server` of app/demos/ethernet_bridge/lan8651_t1s_demo/src/main.c sends back.
use zephyr_start.Base.{
  Bool-cases, List, [], ap, append-nil, append_assoc, arith, inl, inr, is_neg, length,
  length-append, refl, suc, sym, zero, ℕ, ℤ, ◌++◌, ◌+◌, ◌∙◌, ◌∷◌, ◌≡◌, ◌≤◌,
}
use zephyr_start.Lan.Servers.{
  Progress, Progress-cases, echo_loop, udp_end, udp_pass, udp_server, world_of, running, over,
}
use zephyr_start.Lan.Net.{Datagram, Net}
use zephyr_start.Lan.Datagrams.{LogsDatagrams, Sub, Sub-append, done, kept, lost}
use native.Mathlib.Nat.{zero-add, add-zero}

module _ {W : Type 0} (net : Net W) (received sent : W → List Datagram)
    (k : LogsDatagrams net received sent) where
  -- From `w` to `w'` the datagrams `ds` came in and `es` went out, all but `n` of them at most.
  pub record Echoed (n : ℕ) (w w' : W) : Type 0 where
    pub ds : List Datagram
    pub es : List Datagram
    pub came : received w' ≡ received w ++ ds
    pub went : sent w' ≡ sent w ++ es
    pub in_order : Sub es ds
    pub few_lost : length ds ≤ length es + n

  Echoed-none : (n : ℕ) (w w' : W) → received w' ≡ received w → sent w' ≡ sent w → Echoed n w w'
  Echoed-none n w w' r s = record {
    ds = [];
    es = [];
    came = r ∙ sym (append-nil (received w));
    went = s ∙ sym (append-nil (sent w));
    in_order = done;
    few_lost = omega arith;
  }

  Echoed-trans : (m n : ℕ) (u v w : W) → Echoed m u v → Echoed n v w → Echoed (m + n) u w
  Echoed-trans m n u v w a b = record {
    ds = a.ds ++ b.ds;
    es = a.es ++ b.es;
    came = b.came ∙ (ap (λ l. l ++ b.ds) a.came ∙ append_assoc (received u) a.ds b.ds);
    went = b.went ∙ (ap (λ l. l ++ b.es) a.went ∙ append_assoc (sent u) a.es b.es);
    in_order = Sub-append a.in_order b.in_order;
    few_lost =
        omega (arith, length-append a.ds b.ds, length-append a.es b.es, a.few_lost, b.few_lost);
  }

  -- One datagram, echoed or lost.
  one_sent :
      (d : Datagram) (w w' : W)
      → received w' ≡ received w ++ (d ∷ [])
      → sent w' ≡ sent w ++ (d ∷ [])
      → Echoed 0 w w'
  one_sent d w w' r s = record {
    ds = d ∷ [];
    es = d ∷ [];
    came = r;
    went = s;
    in_order = kept d done;
    few_lost = omega arith;
  }

  one_lost :
      (d : Datagram) (w w' : W)
      → received w' ≡ received w ++ (d ∷ [])
      → sent w' ≡ sent w
      → Echoed 1 w w'
  one_lost d w w' r s = record {
    ds = d ∷ [];
    es = [];
    came = r;
    went = s ∙ sym (append-nil (sent w));
    in_order = lost d done;
    few_lost = omega arith;
  }

  Echoed-first : (u v w : W) (n : ℕ) → Echoed 0 u v → Echoed n v w → Echoed n u w
  Echoed-first u v w n a b = rw (zero-add n) at (Echoed-trans 0 n u v w a b)

  Echoed-last :
      (u v w : W) (n : ℕ) → Echoed n u v → received w ≡ received v → sent w ≡ sent v → Echoed n u w
  Echoed-last u v w n a r s = rw (add-zero n) at (Echoed-trans n 0 u v w a (Echoed-none 0 v w r s))

  -- A loop that is over has lost one datagram at most, one that runs has lost none.
  abbrev pub ended : Progress W → ℕ
  ended (running w) = 0
  ended (over w) = 1

  Echoed-at :
      (w : W) (p q : Progress W)
      → p ≡ q
      → Echoed (ended q) w (world_of q)
      → Echoed (ended p) w (world_of p)
  Echoed-at w p q e h = rw e h

  echo_loop-Echoed :
      (n : ℕ) (sock : ℤ) (w : W)
      → Echoed (ended (echo_loop net n sock w)) w (world_of (echo_loop net n sock w))
  unfolding echo_loop
  echo_loop-Echoed zero sock w = Echoed-none 0 w w refl refl
  echo_loop-Echoed (suc n) sock w =
      let (len, d, w1) = net.zsock_recvfrom sock w in
      let (ret, w2) = net.zsock_sendto sock d w1 in
      let rest : Progress W = echo_loop net n sock w2 in
      elim (Bool-cases (is_neg len)) [
        | inl no_datagram ↦
            Echoed-at w (echo_loop net (suc n) sock w) (over w1) (ground arith)
              (Echoed-none 1 w w1 (k.recv_err sock w no_datagram) (k.recv_sent sock w))
        | inr got ↦ elim (Bool-cases (is_neg ret)) [
          | inl no_echo ↦ Echoed-at w (echo_loop net (suc n) sock w) (over w2) (ground arith) (
              one_lost d w w2 (k.send_received sock d w1 ∙ k.recv_ok sock w got)
                (k.send_err sock d w1 no_echo ∙ k.recv_sent sock w))
          | inr echoed ↦ Echoed-at w (echo_loop net (suc n) sock w) rest (ground arith) (
              Echoed-first w w2 (world_of rest) (ended rest)
                (one_sent d w w2 (k.send_received sock d w1 ∙ k.recv_ok sock w got)
                  (k.send_ok sock d w1 echoed ∙ ap (λ l. l ++ (d ∷ [])) (k.recv_sent sock w)))
                (echo_loop-Echoed n sock w2))
        ]
      ]

  udp_end-Echoed :
      (sock : ℤ) (w : W) (p : Progress W)
      → Echoed (ended p) w (world_of p)
      → Echoed (ended (udp_end net sock p)) w (world_of (udp_end net sock p))
  unfolding udp_end
  udp_end-Echoed sock w (running w') h = h
  udp_end-Echoed sock w (over w') h =
      Echoed-last w w' (net.k_sleep 250 (net.zsock_close sock w')) 1 h
        (k.sleep_received 250 (net.zsock_close sock w') ∙ k.close_received sock w')
        (k.sleep_sent 250 (net.zsock_close sock w') ∙ k.close_sent sock w')

  udp_pass-Echoed :
      (n : ℕ) (w : W) → Echoed (ended (udp_pass net n w)) w (world_of (udp_pass net n w))
  unfolding udp_pass
  udp_pass-Echoed n w =
      let (sock, w1) = net.zsock_socket w in
      let (ret, w2) = net.zsock_bind sock w1 in
      let closed = net.zsock_close sock w2 in
      let loop : Progress W = echo_loop net n sock w2 in
      elim (Bool-cases (is_neg sock)) [
        | inl bad ↦ Echoed-at w (udp_pass net n w) (over (net.k_sleep 1000 w1)) (ground arith) (
            Echoed-none 1 w (net.k_sleep 1000 w1) (k.sleep_received 1000 w1 ∙ k.socket_received w)
              (k.sleep_sent 1000 w1 ∙ k.socket_sent w))
        | inr good ↦ elim (Bool-cases (is_neg ret)) [
          | inl bad ↦
              Echoed-at w (udp_pass net n w) (over (net.k_sleep 1000 closed)) (ground arith) (
                Echoed-none 1 w (net.k_sleep 1000 closed)
                  (k.sleep_received 1000 closed
                    ∙ (k.close_received sock w2 ∙ (k.bind_received sock w1 ∙ k.socket_received w)))
                  (k.sleep_sent 1000 closed
                    ∙ (k.close_sent sock w2 ∙ (k.bind_sent sock w1 ∙ k.socket_sent w))))
          | inr bound ↦ Echoed-at w (udp_pass net n w) (udp_end net sock loop) (ground arith) (
              udp_end-Echoed sock w loop (
                Echoed-first w w2 (world_of loop) (ended loop)
                  (Echoed-none 0 w w2 (k.bind_received sock w1 ∙ k.socket_received w)
                    (k.bind_sent sock w1 ∙ k.socket_sent w))
                  (echo_loop-Echoed n sock w2)))
        ]
      ]

  udp_server-running :
      (n : ℕ) (ns : List ℕ) (w w' : W)
      → udp_pass net n w ≡ running w'
      → udp_server net (n ∷ ns) w ≡ running w'
  unfolding udp_server
  udp_server-running n ns w w' e = ground arith

  udp_server-over :
      (n : ℕ) (ns : List ℕ) (w w' : W)
      → udp_pass net n w ≡ over w'
      → udp_server net (n ∷ ns) w ≡ udp_server net ns w'
  unfolding udp_server
  udp_server-over n ns w w' e = ground arith

  Echoed-to :
      (w : W) (p q : Progress W) (n : ℕ) → p ≡ q → Echoed n w (world_of q) → Echoed n w (world_of p)
  Echoed-to w p q n e h = rw e h

  Echoed-more : (v w : W) (m n : ℕ) → m ≤ n → Echoed m v w → Echoed n v w
  Echoed-more v w m n le a = record {
    ds = a.ds;
    es = a.es;
    came = a.came;
    went = a.went;
    in_order = a.in_order;
    few_lost = omega (arith, a.few_lost);
  }

  -- However often the server starts again, what it has sent is what it has received, in order and to
  -- the sender of each, but for one datagram at most for each time that it started.
  pub udp_server-Echoed :
      (ns : List ℕ) (w : W) → Echoed (length ns) w (world_of (udp_server net ns w))
  unfolding udp_server
  udp_server-Echoed [] w = Echoed-none 0 w w refl refl
  udp_server-Echoed (n ∷ ns) w = elim (Progress-cases (udp_pass net n w)) [
    | inl (w', e) ↦
        Echoed-to w (udp_server net (n ∷ ns) w) (running w') (length (n ∷ ns))
          (udp_server-running n ns w w' e)
          (Echoed-more w w' 0 (length (n ∷ ns)) (omega arith) (rw e at (udp_pass-Echoed n w)))
    | inr (w', e) ↦
        Echoed-to w (udp_server net (n ∷ ns) w) (udp_server net ns w') (length (n ∷ ns))
          (udp_server-over n ns w w' e)
          (Echoed-more w (world_of (udp_server net ns w')) (1 + length ns) (length (n ∷ ns))
            (omega arith)
            (Echoed-trans 1 (length ns) w w' (world_of (udp_server net ns w'))
              (rw e at (udp_pass-Echoed n w)) (udp_server-Echoed ns w')))
  ]
