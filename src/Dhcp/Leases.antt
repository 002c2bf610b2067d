-- ===== src/Dhcp/Leases.antt =====
-- What app/demos/dhcpv4_client/src/main.c logs and starts.
use zephyr_start.Base.{Bool, List, [], arith, false, if◌then◌else◌, refl, true, ℕ, ◌∷◌, ◌≡◌}
use zephyr_start.Dhcp.Defs.{
  Done, Iface, Unicast, add_option_callback, dhcpv4_start, handler, log_address, log_entries,
  log_entry, log_lease, log_option, log_router, log_subnet, net_mgmt_add_event_callback,
}

-- The addresses of the entries that come from DHCP.
abbrev pub leased : List Unicast → List (List ℕ)
leased [] = []
leased (entry ∷ entries) = if entry.is_dhcp then entry.address ∷ leased entries else leased entries

-- The addresses that are logged, in order.
unfoldable pub logged : List Done → List (List ℕ)
logged [] = []
logged (log_address i a ∷ done) = a ∷ logged done
logged (dhcpv4_start i ∷ done) = logged done
logged (net_mgmt_add_event_callback ∷ done) = logged done
logged (add_option_callback o ∷ done) = logged done
logged (log_subnet i a ∷ done) = logged done
logged (log_router i a ∷ done) = logged done
logged (log_lease i t ∷ done) = logged done
logged (log_option o a ∷ done) = logged done

abbrev pub mapped : (List ℕ → List ℕ) → List (List ℕ) → List (List ℕ)
mapped f [] = []
mapped f (a ∷ more) = f a ∷ mapped f more

module _ (net_addr_ntop : List ℕ → List ℕ) where
  log_entries-logged :
      (iface : Iface) (entries : List Unicast)
      → logged (log_entries net_addr_ntop iface entries) ≡ mapped net_addr_ntop (leased entries)
  unfolding log_entries logged log_entry
  log_entries-logged iface [] = refl
  log_entries-logged iface (entry ∷ entries) = ground (arith, log_entries-logged iface entries)

  -- When an address is added, exactly the addresses of the interface that come from DHCP are logged,
  -- as text and in order; on any other event none is.
  pub handler-logged :
      (is_addr_add : Bool) (iface : Iface)
      → logged (handler net_addr_ntop is_addr_add iface)
        ≡ (if is_addr_add then mapped net_addr_ntop (leased iface.unicast) else [])
  unfolding handler logged
  handler-logged true iface = log_entries-logged iface iface.unicast
  handler-logged false iface = refl
