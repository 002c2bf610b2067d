-- ===== src/Lan/Main.antt =====
-- `event_handler`, `wait_for_ipv4` and the set-up of `main` of
-- app/demos/ethernet_bridge/lan8651_t1s_demo/src/main.c.
use zephyr_start.Base.{
  Bool, List, Option, [], arith, eagain, enodev, false, if◌then◌else◌, is_zero, neg, none, not, pos,
  refl, some, suc, true, zero, ℕ, ℤ, ◌&&◌, ◌==◌, ◌||◌, ◌∷◌, ◌≡◌,
}
use zephyr_start.Lan.Servers.{main_transmitter}
use zephyr_start.Lan.Net.{Net}
use zephyr_start.Lan.Leaks.{is_none}
use zephyr_start.Lan.Defs.{get_ipv4_addr}

-- The network events, `other` one that the handler has no case for.
pub data NetEvent : Type 0 where
  if_up if_down carrier_on carrier_off ipv4_addr_add other : NetEvent

-- `k_sem_give` on a semaphore with a limit of one.
abbrev pub give : ℕ → ℕ
give count = 1

-- The count of `ipv4_ready` after an event; the other calls of the handler log.
unfoldable pub event_handler : NetEvent → ℕ → ℕ
event_handler if_up count = count
event_handler if_down count = count
event_handler carrier_on count = count
event_handler carrier_off count = count
event_handler ipv4_addr_add count = give count
event_handler other count = count

-- `k_sem_take` while the given events come in: the events that are left and the count, or `none`
-- where the time is over.
unfoldable pub take_ready : List NetEvent → ℕ → Option (List NetEvent × ℕ)
unfolding event_handler
take_ready events (suc count) = some (events, count)
take_ready [] zero = none
take_ready (e ∷ events) zero = take_ready events (event_handler e zero)

-- How `wait_for_ipv4` returns.
pub data Waited : Type 0 where
  had_address taken timed_out : Waited

module _ {W : Type 0} (net : Net W) (k_sem_take : W → ℤ × W) where
  -- The interface is the one that the servers answer for.
  unfoldable pub wait_for_ipv4 : W → Waited × W
  wait_for_ipv4 w =
      let (ret, w') = k_sem_take w in
      elim (get_ipv4_addr net.net_ipv4_is_addr_unspecified net.net_addr_ntop (net.unicast w)) [
        | some addr ↦ (had_address, w)
        | none ↦ (if is_zero ret then taken else timed_out, w')
      ]

  -- `main`, where the device may have no interface. The registration of the callback and the two
  -- calls of `k_thread_create` are given by what they do to the world; the second is there in a build
  -- with the HTTP server.
  unfoldable pub main : Bool → (W → W) → (W → W) → Option (W → W) → ℕ → ℕ → ℤ → W → Option ℤ × W
  unfolding wait_for_ipv4 main_transmitter
  main no_iface add_callback create_udp create_http rounds_left interval minus_errno w =
      if no_iface
      then (some (neg enodev), w)
      else (let (waited, w1) = wait_for_ipv4 (add_callback w) in
          main_transmitter net rounds_left interval minus_errno
            (elim create_http [ none ↦ create_udp w1 | some create ↦ create (create_udp w1) ]))

unfoldable is_addr_add : NetEvent → Bool
is_addr_add if_up = false
is_addr_add if_down = false
is_addr_add carrier_on = false
is_addr_add carrier_off = false
is_addr_add ipv4_addr_add = true
is_addr_add other = false

-- Whether an address is added in the time.
unfoldable pub adds_address : List NetEvent → Bool
unfolding is_addr_add
adds_address [] = false
adds_address (e ∷ events) = is_addr_add e || adds_address events

take_ready-none :
    (events : List NetEvent) → is_none (take_ready events 0) ≡ not (adds_address events)
unfolding take_ready adds_address
take_ready-none [] = refl
take_ready-none (if_up ∷ events) = take_ready-none events
take_ready-none (if_down ∷ events) = take_ready-none events
take_ready-none (carrier_on ∷ events) = take_ready-none events
take_ready-none (carrier_off ∷ events) = take_ready-none events
take_ready-none (ipv4_addr_add ∷ events) = refl
take_ready-none (other ∷ events) = take_ready-none events

-- The semaphore, on the events to come in the ten seconds and its count.
unfoldable pub take_for_10_s : List NetEvent × ℕ → ℤ × (List NetEvent × ℕ)
unfolding take_ready
take_for_10_s (events, count) = elim (take_ready events count) [
  | none ↦ (neg eagain, ([], 0))
  | some rest ↦ (pos 0, rest)
]

-- Without an address, `main` waits until one is added, and it gives up only where none is added in
-- the time and the semaphore was not given before; no other event ends the wait.
pub wait_for_ipv4_lem :
    (net : Net (List NetEvent × ℕ)) (events : List NetEvent) (count : ℕ)
    → net.unicast (events, count) ≡ none
    → (wait_for_ipv4 net take_for_10_s (events, count)).0
      ≡ (if (count == 0) && not (adds_address events) then timed_out else taken)
unfolding wait_for_ipv4 take_for_10_s take_ready get_ipv4_addr
wait_for_ipv4_lem net events zero no_address = ground (arith, take_ready-none events)
wait_for_ipv4_lem net events (suc count) no_address = ground arith
