-- ===== src/Dhcp/Tests.antt =====
-- Tests of app/demos/dhcpv4_client/src/main.c.
use zephyr_start.Base.{Bool, [], false, refl, true, ℕ, ◌∷◌, ◌≡◌}
use zephyr_start.Dhcp.Defs.{
  Iface, Unicast, add_option_callback, dhcpv4_start, handler, log_entries, log_entry,
  net_mgmt_add_event_callback, start_all, main,
}
use zephyr_start.Dhcp.Leases.{logged}

abbrev unicast_entry : Bool → ℕ → Unicast
unicast_entry is_dhcp byte = record { is_dhcp = is_dhcp; address = byte ∷ []; netmask = 255 ∷ [] }

abbrev some_iface : Iface
some_iface = record {
  index = 1;
  unicast = unicast_entry true 5 ∷ unicast_entry false 6 ∷ unicast_entry true 7 ∷ [];
  gw = 1 ∷ [];
  lease_time = 3600;
}

-- The entry that is not from DHCP is not logged.
two_leases : logged (handler (λ a. a) true some_iface) ≡ (5 ∷ []) ∷ (7 ∷ []) ∷ []
unfolding logged handler log_entries log_entry
two_leases = refl

started :
    main (1 ∷ 2 ∷ [])
    ≡ net_mgmt_add_event_callback ∷ add_option_callback 42 ∷ dhcpv4_start 1 ∷ dhcpv4_start 2 ∷ []
unfolding main start_all
started = refl
