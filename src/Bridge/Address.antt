-- ===== src/Bridge/Address.antt =====
-- The bridge and the addresses that app/demos/ethernet_bridge/bridge/src/main.c configures.
use zephyr_start.Base.{
  Bool, Bool-cases, Every, Every-append, List, Option, [], arith, codes, false, if◌then◌else◌, inl,
  inr, is_neg, is_zero, none, pos, refl, some, true, ℕ, ℤ, ◌||◌, ◌∷◌, ◌≡◌, ◌≢◌,
}
use zephyr_start.Bridge.Ports.{add_all_lem, recorded, until_full, with_slots, adds}
use zephyr_start.Bridge.Defs.{
  Call, add_event_callback, eth_bridge_iface_add, find_all, iface_set_static, net_dhcpv4_restart,
  net_if_ipv4_addr_add, net_if_ipv4_set_gw, net_if_ipv4_set_netmask_by_addr, net_if_up, set_gw,
  main,
}

abbrev pub first_of : List ℕ → Option ℕ
first_of [] = none
first_of (b ∷ bridges) = some b

find_all-some :
    (bridges : List ℕ) (br : ℕ) (slots : List (Option ℕ))
    → find_all bridges (with_slots (some br) slots) ≡ with_slots (some br) slots
unfolding find_all
find_all-some [] br slots = refl
find_all-some (b ∷ bridges) br slots = find_all-some bridges br slots

pub find_all_lem :
    (bridges : List ℕ) (slots : List (Option ℕ))
    → find_all bridges (with_slots none slots) ≡ with_slots (first_of bridges) slots
unfolding find_all
find_all_lem [] slots = refl
find_all_lem (b ∷ bridges) slots = find_all-some bridges b slots

-- The interface that a call gives an address, a mask or a gateway, if it does.
unfoldable pub configured : Call → Option ℕ
configured (eth_bridge_iface_add br i) = none
configured (net_if_up br) = none
configured add_event_callback = none
configured (net_if_ipv4_addr_add i a) = some i
configured (net_if_ipv4_set_netmask_by_addr i a m) = some i
configured (net_if_ipv4_set_gw i g) = some i
configured (net_dhcpv4_restart i) = some i

abbrev pub sets_mask : Call → Bool
sets_mask (net_if_ipv4_set_netmask_by_addr i a m) = true
sets_mask (net_if_ipv4_set_gw i g) = true
sets_mask _ = false

-- Only the given interface is configured.
abbrev pub OnlyOn : Option ℕ → Call → Type 0
OnlyOn br call = (i : ℕ) → configured call ≡ some i → br ≡ some i

adds-OnlyOn : (br : Option ℕ) (ifaces : List ℕ) → Every (adds br ifaces) (OnlyOn br)
unfolding configured
adds-OnlyOn br [] = tt
adds-OnlyOn br (i ∷ ifaces) = ((λ j e. ground arith), adds-OnlyOn br ifaces)

handler-OnlyOn :
    (br : Option ℕ) (mgmt : Bool) → Every (if mgmt then add_event_callback ∷ [] else []) (OnlyOn br)
unfolding configured
handler-OnlyOn br true = ((λ j e. ground arith), tt)
handler-OnlyOn br false = tt

module _ (net_addr_pton : List ℕ → ℤ × List ℕ) (no_room : ℕ → List ℕ → Bool) where
  set_gw-OnlyOn :
      (iface : ℕ) (gw : Option (List ℕ))
      → Every (set_gw net_addr_pton no_room iface gw) (OnlyOn (some iface))
  unfolding set_gw configured
  set_gw-OnlyOn iface none = tt
  set_gw-OnlyOn iface (some gw) = elim (Bool-cases (is_zero (net_addr_pton gw).0)) [
    | inl parsed ↦ rw parsed ((λ i e. e), tt)
    | inr other ↦ rw other tt
  ]

  -- Only the interface that is given is configured, and where `iface_set_static` returns an error,
  -- whichever call failed, neither the netmask nor the gateway is set.
  pub iface_set_static_lem :
      (iface : Option ℕ) (ip mask : List ℕ) (gw : Option (List ℕ))
      → let (ret, calls) = iface_set_static net_addr_pton no_room iface ip mask gw in
        Every calls (OnlyOn iface) × (ret ≢ pos 0 → Every calls (λ c. sets_mask c ≡ false))
  unfolding iface_set_static configured
  iface_set_static_lem none ip mask gw = (tt, λ e. tt)
  iface_set_static_lem (some iface) ip mask gw =
      let (ip_ret, a) = net_addr_pton ip in
      let (mask_ret, m) = net_addr_pton mask in
      elim (Bool-cases (is_neg ip_ret || is_neg mask_ret)) [
        | inl bad ↦ rw bad (tt, λ e. tt)
        | inr good ↦ rw good (elim (Bool-cases (no_room iface a)) [
          | inl full ↦ rw full (((λ i e. e), tt), λ e. (refl, tt))
          | inr fine ↦
              rw fine (((λ i e. e), ((λ i e. e), set_gw-OnlyOn iface gw)), λ e. absurd (e refl))
        ])
      ]

  -- `main` configures no interface but the first bridge: the members have no address of their own,
  -- whatever interfaces there are and whichever calls fail.
  pub main-OnlyOn :
      (is_ethernet is_port : ℕ → Bool) (mgmt : Bool) (bridges ifaces : List ℕ) (n : ℕ)
      → Every
          (main net_addr_pton no_room is_ethernet is_port mgmt bridges ifaces
            (with_slots none (recorded [] n))).1
          (OnlyOn (first_of bridges))
  unfolding main configured
  main-OnlyOn is_ethernet is_port mgmt bridges ifaces n =
      let br : Option ℕ = first_of bridges in
      let static = iface_set_static_lem br (codes "2.2.2.5") (codes "255.255.255.0") none in
      rw (find_all_lem bridges (recorded [] n), add_all_lem is_ethernet is_port br ifaces [] n)
        (Every-append (OnlyOn br) (adds br (until_full is_ethernet is_port n ifaces)) _
          (
            (λ i e. ground arith),
            Every-append (OnlyOn br) (if mgmt then add_event_callback ∷ [] else []) _ static.0
                (handler-OnlyOn br mgmt),
          )
          (adds-OnlyOn br (until_full is_ethernet is_port n ifaces)))
