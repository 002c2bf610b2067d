-- ===== src/T1s/Clients.antt =====
-- The table of WebSocket clients, `ws_setup_cb` and `ws_broadcast_state` of
-- app/demos/ethernet_bridge/t1s_device/src/main.c.
use zephyr_start.Base.{
  ==ℤ-eq, ==ℤ-refl, Bool-cases, List, [], arith, enoent, false, get_or, get_or-set_ne,
  get_or-set_self, if◌then◌else◌, inl, inr, is_neg, length, neg, negsuc, pos, refl, suc, sym, true,
  zero, ℕ, ℤ, ◌+◌, ◌<◌, ◌==ℤ◌, ◌==◌, ◌||◌, ◌∷◌, ◌≡◌, ◌≢◌, ◌≤◌, ◌⊎◌,
}
use zephyr_start.T1s.Defs.{
  Config, Device, Effect, broadcast_to, create_thread, find_slot, send_text, ws_broadcast_state,
  ws_send_state, ws_setup_cb,
}

abbrev slot_of : List ℤ → ℕ → ℤ
slot_of socks i = get_or socks i (negsuc 0)

pub find_slot-le : (socks : List ℤ) → find_slot socks ≤ length socks
unfolding find_slot
find_slot-le [] = omega arith
find_slot-le (x ∷ xs) = ground (arith, find_slot-le xs)

pub find_slot-free :
    (socks : List ℤ)
    → find_slot socks < length socks
    → is_neg (slot_of socks (find_slot socks)) ≡ true
unfolding find_slot
find_slot-free [] h = absurd (omega arith)
find_slot-free (x ∷ xs) h = ground (arith, find_slot-free xs)

find_slot-first : (socks : List ℤ) (j : ℕ) → j < find_slot socks → is_neg (slot_of socks j) ≡ false
unfolding find_slot
find_slot-first [] j h = absurd (omega arith)
find_slot-first (x ∷ xs) zero h = ground arith
find_slot-first (x ∷ xs) (suc j) h = ground (arith, find_slot-first xs j)

-- A connection is refused exactly if all three slots are taken, and then changes nothing;
-- otherwise it gets the first free slot and a thread for it, and every other slot stays.
pub ws_setup_cb_lem :
    (sock : ℤ) (d : Device)
    → length d.ws_clients ≡ 3
    → let (ret, out, d') = ws_setup_cb sock d in
      ((ret ≡ neg enoent)
        × (out ≡ [])
        × (d' ≡ d)
        × ((j : ℕ) → j < 3 → is_neg (get_or d.ws_clients j (negsuc 0)) ≡ false))
      ⊎ ((i : ℕ) × (i < 3)
          × (is_neg (get_or d.ws_clients i (negsuc 0)) ≡ true)
          × ((j : ℕ) → j < i → is_neg (get_or d.ws_clients j (negsuc 0)) ≡ false)
          × (ret ≡ pos 0)
          × (out ≡ create_thread i ∷ [])
          × (get_or d'.ws_clients i (negsuc 0) ≡ sock)
          × ((j : ℕ)
              → j ≢ i
              → get_or d'.ws_clients j (negsuc 0) ≡ get_or d.ws_clients j (negsuc 0)))
unfolding ws_setup_cb
ws_setup_cb_lem sock d three = elim (Bool-cases (find_slot d.ws_clients == 3)) [
  | inl e ↦ rw e (inl (refl, refl, refl, λ j h. find_slot-first d.ws_clients j (ground arith)))
  | inr e ↦
      let below : find_slot d.ws_clients < 3 = ground (arith, find_slot-le d.ws_clients) in
      rw e (
        inr (
          find_slot d.ws_clients,
          below,
          find_slot-free d.ws_clients (omega arith),
          find_slot-first d.ws_clients,
          refl,
          refl,
          get_or-set_self d.ws_clients (find_slot d.ws_clients) sock (negsuc 0) (omega arith),
          λ j ne.
              get_or-set_ne d.ws_clients (find_slot d.ws_clients) j sock (negsuc 0)
                (λ q. ne (sym q)),
        ))
]

-- How many text messages go to a socket.
unfoldable pub texts_to : ℤ → List Effect → ℕ
texts_to sock [] = 0
texts_to sock (send_text s buf len ∷ out) = (if s ==ℤ sock then 1 else 0) + texts_to sock out
texts_to sock (_ ∷ out) = texts_to sock out

-- How many slots hold a socket.
unfoldable pub slots_of : ℤ → List ℤ → ℕ
slots_of sock [] = 0
slots_of sock (s ∷ socks) = (if s ==ℤ sock then 1 else 0) + slots_of sock socks

module _ (c : Config) (except sock : ℤ) (d : Device) where
  texts_to-broadcast_to :
      (socks : List ℤ)
      → texts_to sock (broadcast_to c except d socks)
        ≡ (if is_neg sock || sock ==ℤ except then 0 else slots_of sock socks)
  unfolding broadcast_to texts_to slots_of ws_send_state
  texts_to-broadcast_to [] = ground arith
  texts_to-broadcast_to (s ∷ socks) =
      ground (arith, texts_to-broadcast_to socks, ==ℤ-eq s sock, ==ℤ-refl s, ==ℤ-refl sock)

  -- A broadcast sends one state message for each slot of a connected client, other than the one
  -- that it excepts, and none to anyone else.
  pub texts_to-ws_broadcast_state :
      texts_to sock (ws_broadcast_state c except d)
      ≡ (if is_neg sock || sock ==ℤ except then 0 else slots_of sock d.ws_clients)
  unfolding ws_broadcast_state
  texts_to-ws_broadcast_state = texts_to-broadcast_to d.ws_clients
