-- ===== src/Boot/DcdComments.antt =====
-- What the comments of boards/nxp/rt1050_custom/dcd/dcd.c say of its commands.
use zephyr_start.Base.{List, [], ℕ, ◌∷◌}

pub data Kind : Type 0 where
  write_value check_any_bit_set : Kind

abbrev pub documented_1 : List (Kind × ℕ)
documented_1 =
    (write_value, 0xFFFFFFFF)
    ∷ (write_value, 0xFFFFFFFF)
    ∷ (write_value, 0xFFFFFFFF)
    ∷ (write_value, 0xFFFFFFFF)
    ∷ (write_value, 0xFFFFFFFF)
    ∷ (write_value, 0xFFFFFFFF)
    ∷ (write_value, 0xFFFFFFFF)
    ∷ (write_value, 0x2001)
    ∷ (write_value, 0x101D101B)
    ∷ (write_value, 0x10D40)
    ∷ (write_value, 0x0)
    ∷ (write_value, 0x0)
    ∷ (write_value, 0x0)
    ∷ (write_value, 0x0)
    ∷ (write_value, 0x0)
    ∷ (write_value, 0x0)
    ∷ (write_value, 0x0)
    ∷ (write_value, 0x0)
    ∷ (write_value, 0x0)
    ∷ (write_value, 0x0)
    ∷ (write_value, 0x0)
    ∷ (write_value, 0x0)
    ∷ (write_value, 0x0)
    ∷ (write_value, 0x0)
    ∷ (write_value, 0x0)
    ∷ (write_value, 0x0)
    ∷ (write_value, 0x0)
    ∷ (write_value, 0x0)
    ∷ (write_value, 0x0)
    ∷ (write_value, 0x0)
    ∷ (write_value, 0x0)
    ∷ (write_value, 0x0)
    ∷ (write_value, 0x0)
    ∷ (write_value, 0x0)
    ∷ (write_value, 0x0)
    ∷ (write_value, 0x0)
    ∷ (write_value, 0x0)
    ∷ (write_value, 0x0)
    ∷ (write_value, 0x0)
    ∷ (write_value, 0x0)
    ∷ (write_value, 0x0)
    ∷ (write_value, 0x0)
    ∷ (write_value, 0x0)
    ∷ (write_value, 0x0)
    ∷ (write_value, 0x0)
    ∷ (write_value, 0x0)
    ∷ (write_value, 0x0)
    ∷ (write_value, 0x0)
    ∷ (write_value, 0x0)
    ∷ (write_value, 0x10)
    ∷ (write_value, 0x110F9)
    ∷ (write_value, 0x110F9)
    ∷ (write_value, 0x110F9)
    ∷ (write_value, 0x110F9)
    ∷ (write_value, 0x110F9)
    ∷ (write_value, 0x110F9)
    ∷ (write_value, 0x110F9)
    ∷ (write_value, 0x110F9)
    ∷ (write_value, 0x110F9)
    ∷ (write_value, 0x110F9)
    ∷ (write_value, 0x110F9)
    ∷ (write_value, 0x110F9)
    ∷ (write_value, 0x110F9)
    ∷ []

abbrev pub documented_2 : List (Kind × ℕ)
documented_2 =
    (write_value, 0x110F9)
    ∷ (write_value, 0x110F9)
    ∷ (write_value, 0x110F9)
    ∷ (write_value, 0x110F9)
    ∷ (write_value, 0x110F9)
    ∷ (write_value, 0x110F9)
    ∷ (write_value, 0x110F9)
    ∷ (write_value, 0x110F9)
    ∷ (write_value, 0x110F9)
    ∷ (write_value, 0x110F9)
    ∷ (write_value, 0x110F9)
    ∷ (write_value, 0x110F9)
    ∷ (write_value, 0x110F9)
    ∷ (write_value, 0x110F9)
    ∷ (write_value, 0x110F9)
    ∷ (write_value, 0x110F9)
    ∷ (write_value, 0x110F9)
    ∷ (write_value, 0x110F9)
    ∷ (write_value, 0x110F9)
    ∷ (write_value, 0x110F9)
    ∷ (write_value, 0x110F9)
    ∷ (write_value, 0x110F9)
    ∷ (write_value, 0x110F9)
    ∷ (write_value, 0x110F9)
    ∷ (write_value, 0x110F9)
    ∷ (write_value, 0x110F9)
    ∷ (write_value, 0x110F9)
    ∷ (write_value, 0x10000004)
    ∷ (write_value, 0x81)
    ∷ (write_value, 0x81)
    ∷ (write_value, 0x8000001B)
    ∷ (write_value, 0x8200001B)
    ∷ (write_value, 0x8400001B)
    ∷ (write_value, 0x8600001B)
    ∷ (write_value, 0x90000021)
    ∷ (write_value, 0xA0000019)
    ∷ (write_value, 0xA8000017)
    ∷ (write_value, 0xA900001B)
    ∷ (write_value, 0x21)
    ∷ (write_value, 0x79A8)
    ∷ (write_value, 0xF07)
    ∷ (write_value, 0x652922)
    ∷ (write_value, 0x10920)
    ∷ (write_value, 0x50210A08)
    ∷ (write_value, 0x21)
    ∷ (write_value, 0x888888)
    ∷ (write_value, 0x2)
    ∷ (write_value, 0x0)
    ∷ (write_value, 0x80000000)
    ∷ (write_value, 0xA55A000F)
    ∷ (check_any_bit_set, 0x1)
    ∷ (write_value, 0x80000000)
    ∷ (write_value, 0xA55A000C)
    ∷ (check_any_bit_set, 0x1)
    ∷ (write_value, 0x80000000)
    ∷ (write_value, 0xA55A000C)
    ∷ (check_any_bit_set, 0x1)
    ∷ (write_value, 0x30)
    ∷ (write_value, 0x80000000)
    ∷ (write_value, 0xA55A000A)
    ∷ (check_any_bit_set, 0x1)
    ∷ (write_value, 0x50210A09)
    ∷ []
