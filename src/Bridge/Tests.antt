-- ===== src/Bridge/Tests.antt =====
-- Tests, and instances of the theorems about app/demos/ethernet_bridge/bridge/src/main.c.
use zephyr_start.Base.{
  Bool, Every, List, [], einval, false, if◌then◌else◌, leb, length, ltb, neg, negsuc, none, not,
  pos, refl, some, take, true, ℕ, ℤ, ◌-◌, ◌==◌, ◌∷◌, ◌≡◌,
}
use zephyr_start.Bridge.Ports.{add_all-plain, kept_by, recorded, with_slots, adds}
use zephyr_start.Bridge.Defs.{
  add_all, bridge_add_iface_cb, free_slot, iface_set_static, store_at, main,
}
use zephyr_start.Bridge.Address.{OnlyOn, main-OnlyOn}

-- Interfaces above 9 are not Ethernet, and number 2 is the conduit port.
abbrev ethernet : ℕ → Bool
ethernet i = ltb i 10

abbrev user_port : ℕ → Bool
user_port i = not (i == 2)

-- The conduit port is added to the bridge, and not recorded.
abbrev some_ifaces : List ℕ
some_ifaces = 1 ∷ 11 ∷ 2 ∷ 3 ∷ 4 ∷ []

conduit_added :
    add_all ethernet user_port some_ifaces (with_slots (some 7) (recorded [] 2))
    ≡ (with_slots (some 7) (recorded (1 ∷ 3 ∷ []) 0), adds (some 7) (1 ∷ 2 ∷ 3 ∷ []))
unfolding add_all bridge_add_iface_cb free_slot store_at
conduit_added = refl

add_all-plain_example :
    add_all ethernet (λ _. true) some_ifaces (with_slots (some 7) (recorded [] 3)) ≡ (
      with_slots (some 7) (
          recorded
            (take 3 (kept_by ethernet some_ifaces))
            (3 - length (kept_by ethernet some_ifaces))),
      adds (some 7) (take 3 (kept_by ethernet some_ifaces)),
    )
add_all-plain_example = add_all-plain ethernet (some 7) some_ifaces 3

-- A text of one character does not parse, and then nothing is done.
abbrev small_pton : List ℕ → ℤ × List ℕ
small_pton text = if leb (length text) 1 then (negsuc 0, []) else (pos 0, text)

main-OnlyOn_example :
    Every
      (main small_pton
        (λ i a. false)
        ethernet
        user_port
        true
        (7 ∷ 8 ∷ [])
        some_ifaces
        (with_slots none (recorded [] 2))).1
      (OnlyOn (some 7))
main-OnlyOn_example =
    main-OnlyOn small_pton (λ i a. false) ethernet user_port true (7 ∷ 8 ∷ []) some_ifaces 2

bad_mask :
    iface_set_static small_pton (λ i a. false) (some 3) (1 ∷ 2 ∷ []) (3 ∷ []) none
    ≡ (neg einval, [])
unfolding iface_set_static
bad_mask = refl
