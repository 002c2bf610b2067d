-- ===== src/Littlefs/Pattern.antt =====
-- The test pattern, `init_pattern` and `incr_pattern` of app/demos/littlefs/src/main.c.
-- An array of `uint8_t` is a list of bytes; `p[i] = v` is `set`.
pub mod Boots
use zephyr_start.Base.{
  List, get_or, if◌then◌else◌, ltb, replicate, set, suc, zero, ℕ, ◌%◌, ◌+◌, ◌-◌, ◌==◌,
}

-- `for (i = 0; i < size; i += 8) p[i] = v++`, with as many rounds at most as the array has bytes.
unfoldable pub init_loop : ℕ → ℕ → ℕ → ℕ → List ℕ → List ℕ
init_loop zero i v size p = p
init_loop (suc rounds) i v size p =
    let rest = init_loop rounds (i + 8) ((v + 1) % 256) size (set p i v) in
    if ltb i size then rest else p

unfoldable pub init_pattern : List ℕ → ℕ → List ℕ
unfolding init_loop
init_pattern p size = set (init_loop size 0 1 size (replicate size 0x55)) (size - 1) 0xAA

-- The rounds left of `for (i = 0; i < size - 1; i++)`.
unfoldable pub incr_loop : ℕ → ℕ → ℕ → ℕ → List ℕ → List ℕ
incr_loop zero i fill inc p = p
incr_loop (suc rounds) i fill inc p =
    incr_loop rounds (i + 1) fill inc
      (set p i (if i % 8 == 0 then (get_or p i 0 + inc) % 256 else fill))

unfoldable pub fill_of : List ℕ → ℕ
fill_of p = if get_or p 0 0 % 2 == 0 then 0xAA else 0x55

unfoldable pub incr_pattern : List ℕ → ℕ → ℕ → List ℕ
unfolding incr_loop fill_of
incr_pattern p size inc =
    let q = incr_loop (size - 1) 0 (fill_of p) inc p in
    set q (size - 1) ((get_or q (size - 1) 0 + inc) % 256)

abbrev pub test_file_size : ℕ
test_file_size = 547
