-- ===== src/Littlefs/Pattern/Boots.antt =====
-- Every byte of the pattern after any number of boots, for
-- app/demos/littlefs/src/main.c.
use zephyr_start.Base.{
  List, [], ap, arith, get_or, get_or-replicate, get_or-set_ne, get_or-set_self, if◌then◌else◌, leb,
  length, length-replicate, length-set, ltb, refl, replicate, set, suc, zero, ℕ, ℕ_discrete, ◌%◌,
  ◌&&◌, ◌*◌, ◌+◌, ◌-◌, ◌/◌, ◌<◌, ◌==◌, ◌||◌, ◌∙◌, ◌≡◌, ◌≤◌,
}
use zephyr_start.Littlefs.Pattern.{
  fill_of, incr_loop, incr_pattern, init_loop, init_pattern, test_file_size,
}

init_loop-length :
    (rounds i v size : ℕ) (p : List ℕ) → length (init_loop rounds i v size p) ≡ length p
unfolding init_loop
init_loop-length zero i v size p = refl
init_loop-length (suc rounds) i v size p =
    ground
      (arith, init_loop-length rounds (i + 8) ((v + 1) % 256) size (set p i v), length-set p i v)

-- A byte before the index, or at no multiple of 8 from it, stays; each of the others counts on.
init_loop-get :
    (rounds i v size j : ℕ) (p : List ℕ)
    → v < 256
    → size ≤ length p
    → size ≤ i + 8 * rounds
    → j < size
    → i % 8 ≡ 0
    → get_or (init_loop rounds i v size p) j 0
      ≡ (if leb i j && (j % 8 == 0) then (v + (j - i) / 8) % 256 else get_or p j 0)
unfolding init_loop
init_loop-get zero i v size j p hv hp hr hj hi = ground arith
init_loop-get (suc rounds) i v size j p hv hp hr hj hi = elim (ℕ_discrete i j) [
  | yes e ↦ ground (
    arith,
    init_loop-get rounds (i + 8) ((v + 1) % 256) size j (set p i v),
    get_or-set_self p i v 0,
    length-set p i v,
    ap (λ k. get_or (set p i v) k 0) e,
  )
  | no ne ↦ ground (
    arith,
    init_loop-get rounds (i + 8) ((v + 1) % 256) size j (set p i v),
    get_or-set_ne p i j v 0 ne,
    length-set p i v,
  )
]

-- The pattern that a first boot writes: the multiples of 8 count up from 1, the last byte is 0xAA,
-- and the others are 0x55.
pub init_pattern_lem :
    (p : List ℕ) (size j : ℕ)
    → j < size
    → get_or (init_pattern p size) j 0
      ≡ (if j == size - 1 then 0xAA else (if j % 8 == 0 then (j / 8 + 1) % 256 else 0x55))
unfolding init_pattern
init_pattern_lem p size j h =
    let x55 : ℕ = 0x55 in
    let blank : List ℕ = replicate size x55 in
    let counted : List ℕ = init_loop size 0 1 size blank in
    elim (ℕ_discrete (size - 1) j) [
      | yes e ↦ ground (
        arith,
        get_or-set_self counted (size - 1) 0xAA 0,
        init_loop-length size 0 1 size blank,
        length-replicate size x55,
        ap (λ k. get_or (set counted (size - 1) 0xAA) k 0) e,
      )
      | no ne ↦ ground (
        arith,
        get_or-set_ne counted (size - 1) j 0xAA 0 ne,
        init_loop-get size 0 1 size j blank,
        length-replicate size x55,
        get_or-replicate size x55 0 j h,
      )
    ]

incr_loop-length :
    (rounds i fill inc : ℕ) (p : List ℕ) → length (incr_loop rounds i fill inc p) ≡ length p
unfolding incr_loop
incr_loop-length zero i fill inc p = refl
incr_loop-length (suc rounds) i fill inc p =
    incr_loop-length rounds (i + 1) fill inc _ ∙ length-set p i _

incr_loop-get :
    (rounds i fill inc j : ℕ) (p : List ℕ)
    → i + rounds ≤ length p
    → get_or (incr_loop rounds i fill inc p) j 0 ≡ (
        if leb i j && ltb j (i + rounds)
        then (if j % 8 == 0 then (get_or p j 0 + inc) % 256 else fill)
        else get_or p j 0)
unfolding incr_loop
incr_loop-get zero i fill inc j p h = ground arith
incr_loop-get (suc rounds) i fill inc j p h =
    let v : ℕ = if i % 8 == 0 then (get_or p i 0 + inc) % 256 else fill in
    elim (ℕ_discrete i j) [
      | yes e ↦ ground (
        arith,
        incr_loop-get rounds (i + 1) fill inc j (set p i v),
        get_or-set_self p i v 0,
        length-set p i v,
        ap (λ k. get_or (set p i v) k 0) e,
        ap (λ k. get_or p k 0) e,
      )
      | no ne ↦ ground (
        arith,
        incr_loop-get rounds (i + 1) fill inc j (set p i v),
        get_or-set_ne p i j v 0 ne,
        length-set p i v,
      )
    ]

-- The bytes at the multiples of 8 and the last one grow by `inc`, modulo 256, and the others take one
-- value, which the parity of the first byte chooses.
pub incr_pattern_lem :
    (p : List ℕ) (size inc j : ℕ)
    → length p ≡ size
    → j < size
    → get_or (incr_pattern p size inc) j 0
      ≡ (if j == size - 1 || j % 8 == 0 then (get_or p j 0 + inc) % 256 else fill_of p)
unfolding incr_pattern
incr_pattern_lem p size inc j hp hj =
    let q : List ℕ = incr_loop (size - 1) 0 (fill_of p) inc p in
    let v : ℕ = (get_or q (size - 1) 0 + inc) % 256 in
    elim (ℕ_discrete (size - 1) j) [
      | yes e ↦ ground (
        arith,
        get_or-set_self q (size - 1) v 0,
        incr_loop-length (size - 1) 0 (fill_of p) inc p,
        incr_loop-get (size - 1) 0 (fill_of p) inc (size - 1) p,
        ap (λ k. get_or (set q (size - 1) v) k 0) e,
        ap (λ k. get_or p k 0) e,
      )
      | no ne ↦ ground (
        arith,
        get_or-set_ne q (size - 1) j v 0 ne,
        incr_loop-get (size - 1) 0 (fill_of p) inc j p,
      )
    ]

unfoldable pub boots : ℕ → List ℕ
boots zero = init_pattern [] test_file_size
boots (suc n) = incr_pattern (boots n) test_file_size 1

pub init_pattern-length : (p : List ℕ) (size : ℕ) → length (init_pattern p size) ≡ size
unfolding init_pattern
init_pattern-length p size =
    let x55 : ℕ = 0x55 in
    length-set (init_loop size 0 1 size (replicate size x55)) (size - 1) 0xAA
    ∙ (init_loop-length size 0 1 size (replicate size x55) ∙ length-replicate size x55)

pub incr_pattern-length : (p : List ℕ) (size inc : ℕ) → length (incr_pattern p size inc) ≡ length p
unfolding incr_pattern
incr_pattern-length p size inc =
    length-set (incr_loop (size - 1) 0 (fill_of p) inc p) (size - 1) _
    ∙ incr_loop-length (size - 1) 0 (fill_of p) inc p

pub boots-length : (n : ℕ) → length (boots n) ≡ 547
unfolding boots
boots-length zero = init_pattern-length [] 547
boots-length (suc n) = incr_pattern-length (boots n) 547 1 ∙ boots-length n

-- After `n` more boots each multiple of 8, and the last byte, has grown by `n` modulo 256; every
-- other byte is 0x55 after an odd number and at the start, and 0xAA after an even number above 0.
pub boots_lem :
    (n j : ℕ)
    → j < 547
    → get_or (boots n) j 0 ≡ (
        if j == 546
        then (0xAA + n) % 256
        else (if j % 8 == 0
            then (j / 8 + 1 + n) % 256
            else (if n == 0 || n % 2 == 1 then 0x55 else 0xAA)))
unfolding boots fill_of
boots_lem zero j h = ground (arith, init_pattern_lem [] 547 j h)
boots_lem (suc n) j h = ground (
  arith,
  incr_pattern_lem (boots n) 547 1 j (boots-length n) h,
  boots_lem n j h,
  boots_lem n 0 (omega arith),
)
