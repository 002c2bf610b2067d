-- ===== src/T1s/Bag.antt =====
-- The connected clients of app/demos/ethernet_bridge/t1s_device/src/main.c as a bag of sockets: a
-- table of slots up to the order and the number of the free ones.
use zephyr_start.Base.{List, [], arith, if◌then◌else◌, is_neg, pos, ℕ, ℤ, ◌+◌, ◌<◌, ◌∷◌, ◌≡◌}
use zephyr_start.T1s.Clients.{slots_of}
use mathlib.Core.Quot
use mathlib.Core.Quot.{Quot, Quot-set}
use native.Mathlib.Nat.{ℕ_set}

-- How many slots are taken.
unfoldable pub connected : List ℤ → ℕ
connected [] = 0
connected (s ∷ socks) = (if is_neg s then 0 else 1) + connected socks

-- Two tables hold as many sockets, and each as often.
abbrev pub SameSockets : List ℤ → List ℤ → Type 0
SameSockets xs ys =
    (connected xs ≡ connected ys) × ((a : ℕ) → slots_of (pos a) xs ≡ slots_of (pos a) ys)

abbrev pub Bag : Type 0
Bag = Quot SameSockets

abbrev pub of_table : List ℤ → Bag
of_table = Quot.mk

unfoldable pub size : Bag → ℕ
size = Quot.lift ℕ_set connected (λ xs ys h. h.0)

pub SameSockets-cons :
    (n : ℕ) (xs ys : List ℤ) → SameSockets xs ys → SameSockets (pos n ∷ xs) (pos n ∷ ys)
unfolding connected slots_of
SameSockets-cons n xs ys (c, h) = (omega (arith, c), λ a. ground (arith, h a))

-- One socket more.
unfoldable pub attach : ℕ → Bag → Bag
attach n =
    Quot.lift Quot-set (λ xs. of_table (pos n ∷ xs))
      (λ xs ys h. Quot.sound (SameSockets-cons n xs ys h))

-- What happens to the clients.
pub data Event : Type 0 where
  has_joined was_refused has_parted : ℕ → Event

-- What is promised of the clients: a socket joins while there are fewer than `limit`, is refused
-- while there are `limit`, and parts only if it has joined.
pub data Steps (limit : ℕ) : List Event → Bag → Bag → Type 0 where
  done : (b : Bag) → Steps limit [] b b
  join :
      (n : ℕ) (es : List Event) (b b' : Bag)
      → size b < limit
      → Steps limit es (attach n b) b'
      → Steps limit (has_joined n ∷ es) b b'
  refuse :
      (n : ℕ) (es : List Event) (b b' : Bag)
      → size b ≡ limit
      → Steps limit es b b'
      → Steps limit (was_refused n ∷ es) b b'
  part :
      (n : ℕ) (es : List Event) (b b' : Bag)
      → Steps limit es b b'
      → Steps limit (has_parted n ∷ es) (attach n b) b'
