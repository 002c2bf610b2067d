-- ===== src/Bridge/Defs.antt =====
-- app/demos/ethernet_bridge/bridge/src/main.c. An interface is a number, and `none` is NULL; what the
-- code does to the network is the list of the calls that it makes, in order.
use zephyr_start.Base.{
  Bool, List, Option, [], codes, einval, enodev, enomem, false, if◌then◌else◌, is_neg, is_zero,
  length, neg, none, pos, some, suc, true, zero, ℕ, ℤ, ◌++◌, ◌==◌, ◌||◌, ◌∷◌,
}

-- `user_data`: the bridge, and the `iface` array.
pub record Ud : Type 0 where
  pub bridge : Option ℕ
  pub iface : List (Option ℕ)

pub data Call : Type 0 where
  eth_bridge_iface_add : Option ℕ → ℕ → Call
  net_if_up : Option ℕ → Call
  add_event_callback : Call
  net_if_ipv4_addr_add : ℕ → List ℕ → Call
  net_if_ipv4_set_netmask_by_addr : ℕ → List ℕ → List ℕ → Call
  net_if_ipv4_set_gw : ℕ → List ℕ → Call
  net_dhcpv4_restart : ℕ → Call

unfoldable pub bridge_find_cb : ℕ → Ud → Ud
bridge_find_cb br u = elim u.bridge [ none ↦ record u { bridge = some br } | some _ ↦ u ]

-- The loop that looks for a free slot: its index, or the number of slots.
unfoldable pub free_slot : List (Option ℕ) → ℕ
free_slot [] = 0
free_slot (none ∷ slots) = 0
free_slot (some _ ∷ slots) = suc (free_slot slots)

-- `slots[i] = x`.
unfoldable pub store_at : ℕ → Option ℕ → List (Option ℕ) → List (Option ℕ)
store_at i x [] = []
store_at zero x (_ ∷ slots) = x ∷ slots
store_at (suc i) x (y ∷ slots) = y ∷ store_at i x slots

-- `is_ethernet` is the test of the interface's layer 2. `is_port` is the test of `dsa_port` where
-- CONFIG_NET_DSA is set, and true of every interface where it is not.
module _ (is_ethernet is_port : ℕ → Bool) where
  unfoldable pub bridge_add_iface_cb : ℕ → Ud → Ud × List Call
  unfolding free_slot store_at
  bridge_add_iface_cb iface u =
      let i = free_slot u.iface in
      if i == length u.iface
      then (u, [])
      else (if is_ethernet iface
          then (
            if is_port iface then record u { iface = store_at i (some iface) u.iface } else u,
            eth_bridge_iface_add u.bridge iface ∷ [],
          )
          else (u, []))

  -- `net_if_foreach`, over the interfaces that there are.
  unfoldable pub add_all : List ℕ → Ud → Ud × List Call
  unfolding bridge_add_iface_cb
  add_all [] u = (u, [])
  add_all (i ∷ ifaces) u =
      let (u1, calls) = bridge_add_iface_cb i u in
      let (u2, later) = add_all ifaces u1 in (u2, calls ++ later)

-- `net_eth_bridge_foreach`, over the bridges that there are.
unfoldable pub find_all : List ℕ → Ud → Ud
unfolding bridge_find_cb
find_all [] u = u
find_all (b ∷ bridges) u = find_all bridges (bridge_find_cb b u)

-- `event_handler`, for an interface that is or is not Ethernet, given the bridge that its context is
-- bridged to and whether the event is NET_EVENT_IF_UP.
unfoldable pub event_handler : Bool → Option ℕ → Bool → List Call
event_handler false bridged is_up = []
event_handler true none is_up = []
event_handler true (some br) is_up = if is_up then net_dhcpv4_restart br ∷ [] else []

-- `net_addr_pton`, its result with the address that it stores, and whether `net_if_ipv4_addr_add`
-- returns NULL.
module _ (net_addr_pton : List ℕ → ℤ × List ℕ) (no_room : ℕ → List ℕ → Bool) where
  -- The optional gateway.
  unfoldable pub set_gw : ℕ → Option (List ℕ) → List Call
  set_gw iface none = []
  set_gw iface (some gw) =
      let (ret, g) = net_addr_pton gw in if is_zero ret then net_if_ipv4_set_gw iface g ∷ [] else []

  unfoldable pub iface_set_static : Option ℕ → List ℕ → List ℕ → Option (List ℕ) → ℤ × List Call
  unfolding set_gw
  iface_set_static none ip mask gw = (neg enodev, [])
  iface_set_static (some iface) ip mask gw =
      let (ip_ret, a) = net_addr_pton ip in
      let (mask_ret, m) = net_addr_pton mask in
      if is_neg ip_ret || is_neg mask_ret
      then (neg einval, [])
      else (if no_room iface a then (neg enomem, net_if_ipv4_addr_add iface a ∷ []) else (
        pos 0,
        net_if_ipv4_addr_add iface a ∷ net_if_ipv4_set_netmask_by_addr iface a m ∷ set_gw iface gw,
      ))

  -- `main` up to its last loop, which sleeps; `mgmt` is whether the event handler is built in.
  unfoldable pub main : (ℕ → Bool) → (ℕ → Bool) → Bool → List ℕ → List ℕ → Ud → Ud × List Call
  unfolding find_all add_all iface_set_static
  main is_ethernet is_port mgmt bridges ifaces u =
      let (u1, adds) = add_all is_ethernet is_port ifaces (find_all bridges u) in
      let (ret, static_calls) =
        iface_set_static u1.bridge (codes "2.2.2.5") (codes "255.255.255.0") none in
      (
        u1,
        adds
            ++ (net_if_up u1.bridge
                ∷ ((if mgmt then add_event_callback ∷ [] else []) ++ static_calls)),
      )
