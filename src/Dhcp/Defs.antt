-- ===== src/Dhcp/Defs.antt =====
-- The callbacks and `main` of app/demos/dhcpv4_client/src/main.c. An interface is a number, an address
-- is its bytes, and what is done is the list of calls and logs, in order.
use zephyr_start.Base.{Bool, List, [], if◌then◌else◌, ℕ, ◌++◌, ◌∷◌}

-- An entry of the `unicast` array: `is_dhcp` is that `addr_type` is NET_ADDR_DHCP.
pub record Unicast : Type 0 where
  pub is_dhcp : Bool
  pub address : List ℕ
  pub netmask : List ℕ

-- What `handler` reads of an interface.
pub record Iface : Type 0 where
  pub index : ℕ
  pub unicast : List Unicast
  pub gw : List ℕ
  pub lease_time : ℕ

pub data Done : Type 0 where
  dhcpv4_start : ℕ → Done
  net_mgmt_add_event_callback : Done
  add_option_callback : ℕ → Done
  log_address : ℕ → List ℕ → Done
  log_subnet : ℕ → List ℕ → Done
  log_router : ℕ → List ℕ → Done
  log_lease : ℕ → ℕ → Done
  log_option : ℕ → List ℕ → Done

-- `net_addr_ntop` of Zephyr.
module _ (net_addr_ntop : List ℕ → List ℕ) where
  -- One round of the loop of `handler`.
  unfoldable pub log_entry : Iface → Unicast → List Done
  log_entry iface entry =
      if entry.is_dhcp
      then log_address iface.index (net_addr_ntop entry.address)
        ∷ log_subnet iface.index (net_addr_ntop entry.netmask)
        ∷ log_router iface.index (net_addr_ntop iface.gw)
        ∷ log_lease iface.index iface.lease_time
        ∷ []
      else []

  -- The rounds, over the entries that are left.
  unfoldable pub log_entries : Iface → List Unicast → List Done
  unfolding log_entry
  log_entries iface [] = []
  log_entries iface (entry ∷ entries) = log_entry iface entry ++ log_entries iface entries

  -- `is_addr_add` is that the event is NET_EVENT_IPV4_ADDR_ADD.
  unfoldable pub handler : Bool → Iface → List Done
  unfolding log_entries
  handler is_addr_add iface = if is_addr_add then log_entries iface iface.unicast else []

  unfoldable pub option_handler : ℕ → List ℕ → List Done
  option_handler option bytes = log_option option (net_addr_ntop bytes) ∷ []

abbrev pub dhcp_option_ntp : ℕ
dhcp_option_ntp = 42

-- `start_dhcpv4_client` under `net_if_foreach`, over the interfaces that there are.
unfoldable pub start_all : List ℕ → List Done
start_all [] = []
start_all (iface ∷ ifaces) = dhcpv4_start iface ∷ start_all ifaces

unfoldable pub main : List ℕ → List Done
unfolding start_all
main ifaces = net_mgmt_add_event_callback ∷ add_option_callback dhcp_option_ntp ∷ start_all ifaces
