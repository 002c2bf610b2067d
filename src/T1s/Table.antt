-- ===== src/T1s/Table.antt =====
-- The slot table of app/demos/ethernet_bridge/t1s_device/src/main.c implements a bag of sockets.
use zephyr_start.Base.{
  Bool-cases, List, [], ap, arith, get_or, if◌then◌else◌, inl, inr, is_zero, length, length-set,
  negsuc, pos, refl, set, suc, zero, ℕ, ℤ, ◌++◌, ◌<◌, ◌==◌, ◌∙◌, ◌∷◌, ◌≡◌, ◌≢◌, ◌≤◌, ◌⊎◌,
}
use zephyr_start.T1s.Defs.{Config, Device, RgbCmd, client_exit, find_slot, ws_setup_cb}
use zephyr_start.T1s.Clients.{slots_of}
use zephyr_start.T1s.Bag.{
  SameSockets, Steps, attach, has_joined, has_parted, of_table, size, was_refused, done, join, part,
  refuse, connected, Event,
}
use mathlib.Core.Quot

-- A socket asks for a slot, or the thread of a slot ends.
pub data Op : Type 0 where
  connect leave_slot : ℕ → Op

-- The end of the thread of a slot; that of a slot that is free tells nothing.
unfoldable pub parting : ℤ → List Event
parting (pos n) = has_parted n ∷ []
parting (negsuc _) = []

find_slot-full : (xs : List ℤ) → find_slot xs ≡ length xs → connected xs ≡ length xs
unfolding find_slot connected
find_slot-full [] e = refl
find_slot-full (x ∷ xs) e = ground (arith, find_slot-full xs)

connected-le : (xs : List ℤ) → connected xs ≤ length xs
unfolding connected
connected-le [] = omega arith
connected-le (x ∷ xs) = ground (arith, connected-le xs)

find_slot-room : (xs : List ℤ) → find_slot xs ≢ length xs → connected xs < length xs
unfolding find_slot connected
find_slot-room [] e = absurd (e refl)
find_slot-room (x ∷ xs) e = ground (arith, find_slot-room xs, connected-le xs)

-- Taking the first free slot adds the socket.
pub set-find_slot :
    (n : ℕ) (xs : List ℤ)
    → find_slot xs ≢ length xs
    → SameSockets (set xs (find_slot xs) (pos n)) (pos n ∷ xs)
unfolding find_slot connected slots_of
set-find_slot n [] e = absurd (e refl)
set-find_slot n (negsuc m ∷ xs) e = (omega arith, λ a. ground arith)
set-find_slot n (pos m ∷ xs) e =
    let (c, h) = set-find_slot n xs (λ q. e (ap suc q)) in
    (omega (arith, c), λ a. omega (arith, h a))

-- Freeing a taken slot takes its socket away, freeing a free one nothing.
pub set-taken :
    (n i : ℕ) (xs : List ℤ)
    → get_or xs i (negsuc 0) ≡ pos n
    → SameSockets xs (pos n ∷ set xs i (negsuc 0))
unfolding connected slots_of
set-taken n i [] e = absurd (ground arith)
set-taken n zero (x ∷ xs) e = (ground (arith, e), λ a. ground (arith, e))
set-taken n (suc i) (x ∷ xs) e =
    let (c, h) = set-taken n i xs e in (omega (arith, c), λ a. omega (arith, h a))

pub set-free :
    (i m : ℕ) (xs : List ℤ)
    → get_or xs i (negsuc 0) ≡ negsuc m
    → SameSockets xs (set xs i (negsuc 0))
unfolding connected slots_of
set-free i m [] e = (refl, λ a. refl)
set-free zero m (x ∷ xs) e = (ground (arith, e), λ a. ground (arith, e))
set-free (suc i) m (x ∷ xs) e =
    let (c, h) = set-free i m xs e in (omega (arith, c), λ a. omega (arith, h a))

pub ℤ-cases : (x : ℤ) → ((n : ℕ) × (x ≡ pos n)) ⊎ ((m : ℕ) × (x ≡ negsuc m))
ℤ-cases (pos n) = inl (n, refl)
ℤ-cases (negsuc m) = inr (m, refl)

module _ (c : Config) (json_obj_parse : List ℕ → ℤ × RgbCmd) where
  -- One operation of the code, with what it tells.
  unfoldable pub apply : Op → Device → List Event × Device
  unfolding parting client_exit ws_setup_cb
  apply (connect n) d =
      let (ret, out, d') = ws_setup_cb (pos n) d in
      (if is_zero ret then has_joined n ∷ [] else was_refused n ∷ [], d')
  apply (leave_slot i) d =
      let sock = get_or d.ws_clients i (negsuc 0) in
      (parting sock, (client_exit c json_obj_parse i sock d).1)

  unfoldable pub run : List Op → Device → List Event × Device
  unfolding apply
  run [] d = ([], d)
  run (op ∷ ops) d = let (es, d1) = apply op d in let (later, d2) = run ops d1 in (es ++ later, d2)

  -- However sockets come and threads end, in whatever order, the slot table of three does what is
  -- promised of a bag of at most three sockets: with no regard to which slot holds which socket.
  pub run-Steps :
      (ops : List Op) (d : Device)
      → length d.ws_clients ≡ 3
      → let (es, d') = run ops d in Steps 3 es (of_table d.ws_clients) (of_table d'.ws_clients)
  unfolding run apply parting client_exit ws_setup_cb size attach
  run-Steps [] d three = done (of_table d.ws_clients)
  run-Steps (connect n ∷ ops) d three =
      let socks = d.ws_clients in
      let slot = find_slot socks in
      elim (Bool-cases (slot == 3)) [
        | inl full ↦ rw full (
            refuse n (run ops d).0 (of_table socks) (of_table (run ops d).1.ws_clients)
              (find_slot-full socks (ground (arith, three)) ∙ three) (run-Steps ops d three))
        | inr room ↦
            let found : slot ≢ length socks = ground (arith, three) in
            let taken : Device = record d { ws_clients = set socks slot (pos n) } in
            rw room (
              join n (run ops taken).0 (of_table socks) (of_table (run ops taken).1.ws_clients)
                (omega (arith, find_slot-room socks found, three))
                (rw (Quot.sound (set-find_slot n socks found)) at
                  (run-Steps ops taken (length-set socks slot (pos n) ∙ three))))
      ]
  run-Steps (leave_slot i ∷ ops) d three =
      let socks = d.ws_clients in
      let freed : Device = record d { ws_clients = set socks i (negsuc 0) } in
      let after = run-Steps ops freed (length-set socks i (negsuc 0) ∙ three) in
      elim (ℤ-cases (get_or socks i (negsuc 0))) [
        | inl (n, e) ↦
            rw (e, Quot.sound (set-taken n i socks e))
              (part n (run ops freed).0 (of_table freed.ws_clients)
                (of_table (run ops freed).1.ws_clients) after)
        | inr (m, e) ↦ rw (e, Quot.sound (set-free i m socks e)) after
      ]
