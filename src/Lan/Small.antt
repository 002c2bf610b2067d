-- ===== src/Lan/Small.antt =====
-- A small network for the tests of app/demos/ethernet_bridge/lan8651_t1s_demo/src/main.c.
use zephyr_start.Base.{
  Bool, List, [], ap, arith, codes, false, get_or, is_neg, length, negsuc, pos, refl, some, suc,
  true, zero, ℕ, ℤ, ◌++◌, ◌+◌, ◌-◌, ◌==◌, ◌∷◌, ◌≡◌,
}
use zephyr_start.Lan.Transmit.{LogsCalls, SendCall}
use zephyr_start.Lan.Replies.{LogsReplies}
use zephyr_start.Lan.Net.{CountsSockets, Datagram, Net, at}
use zephyr_start.Lan.Defs.{IfAddr}
use zephyr_start.Lan.Datagrams.{LogsDatagrams}

abbrev pub address_text : List ℕ
address_text = codes "192.168.1.10"

abbrev pub entry : Bool → ℕ → IfAddr
entry used byte = record { is_used = used; address = byte ∷ [] }

-- A network in which no call fails but those that have nothing left to return.
pub record World : Type 0 where
  pub inbox : List Datagram
  pub clients : ℕ
  pub opened : ℤ → ℕ
  pub received : List Datagram
  pub sent_on : List Datagram
  pub calls : List SendCall
  pub accepted : List ℤ
  pub replies : List (ℤ × List ℕ)

-- One more or one less at the descriptor.
abbrev pub opening : ℤ → World → World
opening sock w = record w { opened = λ fd. w.opened fd + at sock fd }

abbrev closing : ℤ → World → World
closing sock w = record w { opened = λ fd. w.opened fd - at sock fd }

unfoldable pub accepting : ℕ → World → ℤ × World
accepting zero w = (negsuc 0, w)
accepting (suc n) w =
    let client = pos (4 + n) in
    (client, record (opening client w) { clients = n; accepted = w.accepted ++ (client ∷ []) })

abbrev no_datagram : Datagram
no_datagram = record { peer = []; bytes = [] }

unfoldable pub receiving : List Datagram → World → ℤ × Datagram × World
receiving [] w = (negsuc 0, no_datagram, w)
receiving (d ∷ ds) w =
    (pos (length d.bytes), d, record w { inbox = ds; received = w.received ++ (d ∷ []) })

-- Every datagram but those to the empty address goes out.
unfoldable pub sending : List ℕ → Datagram → World → ℤ × World
sending [] d w = (negsuc 0, w)
sending (_ ∷ _) d w = (pos 1, record w { sent_on = w.sent_on ++ (d ∷ []) })

abbrev calling : ℤ → Datagram → ℤ × World → ℤ × World
calling s d (ret, w) =
    (ret, record w { calls = w.calls ++ (record { socket = s; datagram = d; result = ret } ∷ []) })

unfoldable pub small_net : Net World
unfolding accepting receiving sending
small_net = record {
  zsock_socket = λ w. (pos 3, opening (pos 3) w);
  zsock_bind = λ s w. (pos 0, w);
  zsock_listen = λ s w. (pos 0, w);
  zsock_accept = λ s w. accepting w.clients w;
  zsock_recvfrom = λ s w. receiving w.inbox w;
  zsock_sendto = λ s d w. calling s d (sending d.peer d w);
  zsock_recv = λ s w. w;
  zsock_send =
      λ s bytes w. (pos (length bytes), record w { replies = w.replies ++ ((s, bytes) ∷ []) });
  zsock_close = λ s w. closing s w;
  zsock_inet_pton = λ text. (pos 1, text);
  unicast = λ w. some (entry true 10 ∷ []);
  net_ipv4_is_addr_unspecified = λ a. get_or a 0 0 == 0;
  net_addr_ntop = λ a. address_text;
  k_uptime_get = λ w. (4242, w);
  k_sleep = λ ms w. w;
}

accepting-opened :
    (n : ℕ) (w : World)
    → ((fd : ℤ)
        → is_neg (accepting n w).0 ≡ false
        → (accepting n w).1.opened fd ≡ w.opened fd + at (accepting n w).0 fd)
      × ((fd : ℤ) → is_neg (accepting n w).0 ≡ true → (accepting n w).1.opened fd ≡ w.opened fd)
      × (is_neg (accepting n w).0 ≡ false
          → (accepting n w).1.accepted ≡ w.accepted ++ ((accepting n w).0 ∷ []))
      × (is_neg (accepting n w).0 ≡ true → (accepting n w).1.accepted ≡ w.accepted)
      × ((accepting n w).1.replies ≡ w.replies)
unfolding accepting
accepting-opened zero w = (λ fd e. ground arith, λ fd e. refl, λ e. ground arith, λ e. refl, refl)
accepting-opened (suc n) w =
    (λ fd e. refl, λ fd e. ground arith, λ e. refl, λ e. ground arith, refl)

receiving-logs :
    (ds : List Datagram) (w : World)
    → (is_neg (receiving ds w).0 ≡ false
        → (receiving ds w).2.received ≡ w.received ++ ((receiving ds w).1 ∷ []))
      × (is_neg (receiving ds w).0 ≡ true → (receiving ds w).2.received ≡ w.received)
      × ((receiving ds w).2.sent_on ≡ w.sent_on)
      × ((receiving ds w).2.opened ≡ w.opened)
unfolding receiving
receiving-logs [] w = (λ e. ground arith, λ e. refl, refl, refl)
receiving-logs (d ∷ ds) w = (λ e. refl, λ e. ground arith, refl, refl)

sending-logs :
    (peer : List ℕ) (d : Datagram) (w : World)
    → (is_neg (sending peer d w).0 ≡ false → (sending peer d w).1.sent_on ≡ w.sent_on ++ (d ∷ []))
      × (is_neg (sending peer d w).0 ≡ true → (sending peer d w).1.sent_on ≡ w.sent_on)
      × ((sending peer d w).1.received ≡ w.received)
      × ((sending peer d w).1.calls ≡ w.calls)
      × ((sending peer d w).1.opened ≡ w.opened)
unfolding sending
sending-logs [] d w = (λ e. ground arith, λ e. refl, refl, refl, refl)
sending-logs (_ ∷ _) d w = (λ e. refl, λ e. ground arith, refl, refl, refl)

pub small_net-CountsSockets : CountsSockets small_net (λ w. w.opened)
unfolding small_net opening accepting receiving sending
small_net-CountsSockets = record {
  socket_ok = λ w fd good. refl;
  socket_err = λ w fd bad. ground arith;
  accept_ok = λ s w. (accepting-opened w.clients w).0;
  accept_err = λ s w. (accepting-opened w.clients w).1;
  close_one = λ s w fd. refl;
  bind_same = λ s w fd. refl;
  listen_same = λ s w fd. refl;
  recvfrom_same = λ s w fd. ap (λ o. o fd) (receiving-logs w.inbox w).3;
  sendto_same = λ s d w fd. ap (λ o. o fd) (sending-logs d.peer d w).4;
  recv_same = λ s w fd. refl;
  send_same = λ s bytes w fd. refl;
  uptime_same = λ w fd. refl;
  sleep_same = λ ms w fd. refl;
}

pub small_net-LogsDatagrams : LogsDatagrams small_net (λ w. w.received) (λ w. w.sent_on)
unfolding small_net opening accepting receiving sending
small_net-LogsDatagrams = record {
  recv_ok = λ s w. (receiving-logs w.inbox w).0;
  recv_err = λ s w. (receiving-logs w.inbox w).1;
  recv_sent = λ s w. (receiving-logs w.inbox w).2;
  send_ok = λ s d w. (sending-logs d.peer d w).0;
  send_err = λ s d w. (sending-logs d.peer d w).1;
  send_received = λ s d w. (sending-logs d.peer d w).2;
  socket_sent = λ w. refl;
  socket_received = λ w. refl;
  bind_sent = λ s w. refl;
  bind_received = λ s w. refl;
  close_sent = λ s w. refl;
  close_received = λ s w. refl;
  sleep_sent = λ ms w. refl;
  sleep_received = λ ms w. refl;
  uptime_sent = λ w. refl;
}

pub small_net-LogsCalls : LogsCalls small_net (λ w. w.calls)
unfolding small_net accepting receiving sending
small_net-LogsCalls = record {
  sendto_call = λ s d w.
      let call : SendCall = record { socket = s; datagram = d; result = (sending d.peer d w).0 } in
      ap (λ cs. cs ++ (call ∷ [])) (sending-logs d.peer d w).3;
  uptime_call = λ w. refl;
  sleep_call = λ ms w. refl;
}

pub small_net-LogsReplies : LogsReplies small_net (λ w. w.accepted) (λ w. w.replies)
unfolding small_net opening accepting receiving sending
small_net-LogsReplies = record {
  text_short = λ a. omega arith;
  accept_ok = λ s w. (accepting-opened w.clients w).2;
  accept_err = λ s w. (accepting-opened w.clients w).3;
  accept_replies = λ s w. (accepting-opened w.clients w).4;
  send_replies = λ s bytes w. refl;
  send_accepted = λ s bytes w. refl;
  recv_replies = λ s w. refl;
  recv_accepted = λ s w. refl;
  uptime_replies = λ w. refl;
  uptime_accepted = λ w. refl;
  socket_replies = λ w. refl;
  socket_accepted = λ w. refl;
  bind_replies = λ s w. refl;
  bind_accepted = λ s w. refl;
  listen_replies = λ s w. refl;
  listen_accepted = λ s w. refl;
  close_replies = λ s w. refl;
  close_accepted = λ s w. refl;
  sleep_replies = λ ms w. refl;
  sleep_accepted = λ ms w. refl;
}
