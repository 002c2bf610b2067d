-- ===== src/Bridge/Ports.antt =====
-- Which interfaces app/demos/ethernet_bridge/bridge/src/main.c adds to the bridge.
use zephyr_start.Base.{
  Bool, List, Option, [], ap, append-nil, append_assoc, arith, if◌then◌else◌, length, none, refl,
  some, suc, take, true, zero, ℕ, ◌&&◌, ◌++◌, ◌+◌, ◌-◌, ◌∙◌, ◌∷◌, ◌≡◌,
}
use zephyr_start.Bridge.Defs.{
  Call, Ud, add_all, bridge_add_iface_cb, eth_bridge_iface_add, free_slot, store_at,
}

-- The `iface` array with `xs` recorded and `n` slots free.
abbrev pub recorded : List ℕ → ℕ → List (Option ℕ)
recorded [] zero = []
recorded [] (suc n) = none ∷ recorded [] n
recorded (x ∷ xs) n = some x ∷ recorded xs n

free_slot-recorded : (xs : List ℕ) (n : ℕ) → free_slot (recorded xs n) ≡ length xs
unfolding free_slot
free_slot-recorded [] zero = refl
free_slot-recorded [] (suc n) = refl
free_slot-recorded (x ∷ xs) n = ap suc (free_slot-recorded xs n)

length-recorded : (xs : List ℕ) (n : ℕ) → length (recorded xs n) ≡ length xs + n
length-recorded [] zero = refl
length-recorded [] (suc n) = omega (arith, length-recorded [] n)
length-recorded (x ∷ xs) n = omega (arith, length-recorded xs n)

store_at-recorded :
    (x : ℕ) (xs : List ℕ) (n : ℕ)
    → store_at (length xs) (some x) (recorded xs (suc n)) ≡ recorded (xs ++ (x ∷ [])) n
unfolding store_at
store_at-recorded x [] n = refl
store_at-recorded x (y ∷ ys) n = ap (λ l. some y ∷ l) (store_at-recorded x ys n)

abbrev pub kept_by : (ℕ → Bool) → List ℕ → List ℕ
kept_by test [] = []
kept_by test (x ∷ xs) = if test x then x ∷ kept_by test xs else kept_by test xs

-- The Ethernet interfaces that come before `n` ports are recorded.
abbrev pub until_full : (ℕ → Bool) → (ℕ → Bool) → ℕ → List ℕ → List ℕ
until_full is_ethernet is_port zero ifaces = []
until_full is_ethernet is_port (suc n) [] = []
until_full is_ethernet is_port (suc n) (i ∷ ifaces) =
    let after = until_full is_ethernet is_port n ifaces in
    let same = until_full is_ethernet is_port (suc n) ifaces in
    if is_ethernet i then (if is_port i then i ∷ after else i ∷ same) else same

-- The calls that add interfaces to a bridge.
abbrev pub adds : Option ℕ → List ℕ → List Call
adds br [] = []
adds br (i ∷ ifaces) = eth_bridge_iface_add br i ∷ adds br ifaces

abbrev pub with_slots : Option ℕ → List (Option ℕ) → Ud
with_slots br slots = record { bridge = br; iface = slots }

module _ (is_ethernet is_port : ℕ → Bool) (br : Option ℕ) where
  full_cb :
      (i : ℕ) (xs : List ℕ)
      → bridge_add_iface_cb is_ethernet is_port i (with_slots br (recorded xs 0))
        ≡ (with_slots br (recorded xs 0), [])
  unfolding bridge_add_iface_cb
  full_cb i xs = ground (arith, free_slot-recorded xs 0, length-recorded xs 0)

  free_cb :
      (i : ℕ) (xs : List ℕ) (n : ℕ)
      → bridge_add_iface_cb is_ethernet is_port i (with_slots br (recorded xs (suc n))) ≡ (
          if is_ethernet i
          then (
            with_slots br (if is_port i then recorded (xs ++ (i ∷ [])) n else recorded xs (suc n)),
            eth_bridge_iface_add br i ∷ [],
          )
          else (with_slots br (recorded xs (suc n)), []))
  unfolding bridge_add_iface_cb
  free_cb i xs n =
      ground
        (arith, free_slot-recorded xs (suc n), length-recorded xs (suc n), store_at-recorded i xs n)

  add_all-full :
      (ifaces xs : List ℕ)
      → add_all is_ethernet is_port ifaces (with_slots br (recorded xs 0))
        ≡ (with_slots br (recorded xs 0), [])
  unfolding add_all
  add_all-full [] xs = refl
  add_all-full (i ∷ ifaces) xs = rw (full_cb i xs) (add_all-full ifaces xs)

  -- Where `n` slots are free, the next `n` interfaces that are Ethernet and pass the test of the port
  -- are recorded, in order, and every Ethernet interface before the array is full is added to the
  -- bridge.
  pub add_all_lem :
      (ifaces xs : List ℕ) (n : ℕ)
      → let ports = kept_by (λ i. is_ethernet i && is_port i) ifaces in
        add_all is_ethernet is_port ifaces (with_slots br (recorded xs n)) ≡ (
          with_slots br (recorded (xs ++ take n ports) (n - length ports)),
          adds br (until_full is_ethernet is_port n ifaces),
        )
  unfolding add_all
  add_all_lem ifaces xs zero = ground (arith, add_all-full ifaces xs, append-nil xs)
  add_all_lem [] xs (suc n) = ground (arith, append-nil xs)
  add_all_lem (i ∷ ifaces) xs (suc n) =
      let next : List ℕ = xs ++ (i ∷ []) in
      let ports : List ℕ = kept_by (λ j. is_ethernet j && is_port j) ifaces in
      ground (
        arith,
        free_cb i xs n,
        add_all_lem ifaces xs (suc n),
        add_all_lem ifaces next n,
        append_assoc xs (i ∷ []) (take n ports),
      )

until_full-take :
    (is_ethernet : ℕ → Bool) (n : ℕ) (ifaces : List ℕ)
    → until_full is_ethernet (λ _. true) n ifaces ≡ take n (kept_by is_ethernet ifaces)
until_full-take is_ethernet zero ifaces = refl
until_full-take is_ethernet (suc n) [] = refl
until_full-take is_ethernet (suc n) (i ∷ ifaces) =
    ground (arith, until_full-take is_ethernet (suc n) ifaces, until_full-take is_ethernet n ifaces)

kept_by-and : (test : ℕ → Bool) (xs : List ℕ) → kept_by (λ i. test i && true) xs ≡ kept_by test xs
kept_by-and test [] = refl
kept_by-and test (x ∷ xs) = ground (arith, kept_by-and test xs)

-- Where no interface is ruled out by its port, as without CONFIG_NET_DSA, exactly the interfaces that
-- are recorded are added to the bridge: the first `n` that are Ethernet, for `n` free slots.
pub add_all-plain :
    (is_ethernet : ℕ → Bool) (br : Option ℕ) (ifaces : List ℕ) (n : ℕ)
    → let chosen = take n (kept_by is_ethernet ifaces) in
      add_all is_ethernet (λ _. true) ifaces (with_slots br (recorded [] n))
      ≡ (with_slots br (recorded chosen (n - length (kept_by is_ethernet ifaces))), adds br chosen)
add_all-plain is_ethernet br ifaces n =
    add_all_lem is_ethernet (λ _. true) br ifaces [] n
    ∙ ground (arith, until_full-take is_ethernet n ifaces, kept_by-and is_ethernet ifaces)
