-- ===== src/Lan/Tests.antt =====
-- Tests, and instances of the theorems about
-- app/demos/ethernet_bridge/lan8651_t1s_demo/src/main.c.
use zephyr_start.Base.{
  List, [], false, get_or, pos, refl, some, true, ◌+◌, ◌-◌, ◌==◌, ◌^◌, ◌∷◌, ◌≡◌,
}
use zephyr_start.Lan.Transmit.{Transmits, transmit-Transmits}
use zephyr_start.Lan.Small.{
  World, receiving, sending, small_net, small_net-CountsSockets, small_net-LogsCalls,
  small_net-LogsDatagrams, small_net-LogsReplies, entry,
}
use zephyr_start.Lan.Servers.{
  echo_loop, http_server, transmit, udp_end, udp_pass, udp_server, world_of,
}
use zephyr_start.Lan.Replies.{Answered, http_server-Answered}
use zephyr_start.Lan.Leaks.{http_server-opened, http_socket, held}
use zephyr_start.Lan.Echo.{Echoed, udp_server-Echoed}
use zephyr_start.Lan.Defs.{IfAddr, get_ipv4_addr, ipv4_to_text}

-- The first entry is not in use and the second is unspecified.
abbrev entries : List IfAddr
entries = entry false 9 ∷ entry true 0 ∷ entry true 10 ∷ []

first_entry : ipv4_to_text (λ a. get_or a 0 0 == 0) (λ a. a) (some entries) ≡ 10 ∷ []
unfolding ipv4_to_text get_ipv4_addr
first_entry = refl

-- Two datagrams, the first of which cannot be echoed, and two clients wait.
abbrev begin : World
begin = record {
  inbox = record { peer = []; bytes = 1 ∷ [] } ∷ record { peer = 9 ∷ []; bytes = 2 ∷ 3 ∷ [] } ∷ [];
  clients = 2;
  opened = λ fd. 0;
  received = [];
  sent_on = [];
  calls = [];
  accepted = [];
  replies = [];
}

echoed_second :
    (world_of (udp_server small_net (3 ∷ 1 ∷ []) begin)).sent_on
    ≡ record { peer = 9 ∷ []; bytes = 2 ∷ 3 ∷ [] } ∷ []
unfolding udp_server udp_pass udp_end echo_loop small_net receiving sending
echoed_second = refl

udp_server-Echoed_example :
    Echoed small_net
      (λ w. w.received)
      (λ w. w.sent_on)
      small_net-LogsDatagrams
      2
      begin
      (world_of (udp_server small_net (3 ∷ 1 ∷ []) begin))
udp_server-Echoed_example =
    udp_server-Echoed small_net (λ w. w.received) (λ w. w.sent_on) small_net-LogsDatagrams
      (3 ∷ 1 ∷ []) begin

http_server-opened_example :
    (world_of (http_server small_net (5 ∷ 1 ∷ []) 4242 begin)).opened (pos 3)
    ≡ 0
      + held
          (http_socket small_net (5 ∷ 1 ∷ []) 4242 begin)
          (pos 3)
          (http_server small_net (5 ∷ 1 ∷ []) 4242 begin)
http_server-opened_example =
    http_server-opened small_net (λ w. w.opened) small_net-CountsSockets (pos 3) (5 ∷ 1 ∷ []) 4242
      begin

http_server-Answered_example :
    Answered small_net
      (λ w. w.accepted)
      (λ w. w.replies)
      small_net-LogsReplies
      4242
      begin
      (world_of (http_server small_net (5 ∷ 1 ∷ []) 4242 begin))
http_server-Answered_example =
    http_server-Answered small_net (λ w. w.accepted) (λ w. w.replies) small_net-LogsReplies
      (5 ∷ 1 ∷ []) 4242 begin

transmit-Transmits_example :
    Transmits small_net
      (λ w. w.received)
      (λ w. w.sent_on)
      (λ w. w.calls)
      small_net-LogsDatagrams
      small_net-LogsCalls
      (pos 3)
      (2 ∷ [])
      3
      (2 ^ 32 - 1)
      begin
      (transmit small_net 3 1000 (2 ^ 32 - 1) (pos 3) (2 ∷ []) begin)
transmit-Transmits_example =
    transmit-Transmits small_net (λ w. w.received) (λ w. w.sent_on) (λ w. w.calls)
      small_net-LogsDatagrams small_net-LogsCalls 3 1000 (2 ^ 32 - 1) (pos 3) (2 ∷ []) begin
