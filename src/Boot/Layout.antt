-- ===== src/Boot/Layout.antt =====
-- The configuration structures of boards/nxp/rt1050_custom/xip/rt1050_custom_flexspi_nor_config.h, by
-- the fields that they declare.
use zephyr_start.Base.{List, [], refl, ℕ, ◌*◌, ◌+◌, ◌-◌, ◌/◌, ◌∷◌, ◌≡◌}

-- A field: the alignment and the size of its type, and how many there are.
pub record Field : Type 0 where
  pub align : ℕ
  pub size : ℕ
  pub count : ℕ

abbrev pub u8 : ℕ → Field
u8 n = record { align = 1; size = 1; count = n }

abbrev pub u16 : ℕ → Field
u16 n = record { align = 2; size = 2; count = n }

abbrev pub u32 : ℕ → Field
u32 n = record { align = 4; size = 4; count = n }

-- `flexspi_lut_seq_t`: two bytes and a half word.
abbrev pub lut_seqs : ℕ → Field
lut_seqs n = record { align = 2; size = 4; count = n }

abbrev pub flexspi_mem_config : List Field
flexspi_mem_config =
    u32 1
    ∷ u32 1
    ∷ u32 1
    ∷ u8 1
    ∷ u8 1
    ∷ u8 1
    ∷ u8 1
    ∷ u8 1
    ∷ u8 1
    ∷ u16 1
    ∷ lut_seqs 1
    ∷ u32 1
    ∷ u8 1
    ∷ u8 3
    ∷ lut_seqs 3
    ∷ u32 1
    ∷ u32 3
    ∷ u32 1
    ∷ u32 1
    ∷ u8 1
    ∷ u8 1
    ∷ u8 1
    ∷ u8 1
    ∷ u32 2
    ∷ u32 1
    ∷ u32 1
    ∷ u32 1
    ∷ u32 1
    ∷ u32 1
    ∷ u32 1
    ∷ u32 1
    ∷ u32 1
    ∷ u32 1
    ∷ u32 1
    ∷ u16 2
    ∷ u16 1
    ∷ u16 1
    ∷ u32 64
    ∷ lut_seqs 12
    ∷ u32 4
    ∷ []

-- The ranges of bytes that the comments of the fields give, first and last.
abbrev pub documented_ranges : List (ℕ × ℕ)
documented_ranges =
    (0x0, 0x3)
    ∷ (0x4, 0x7)
    ∷ (0x8, 0xB)
    ∷ (0xC, 0xC)
    ∷ (0xD, 0xD)
    ∷ (0xE, 0xE)
    ∷ (0xF, 0xF)
    ∷ (0x10, 0x10)
    ∷ (0x11, 0x11)
    ∷ (0x12, 0x13)
    ∷ (0x14, 0x17)
    ∷ (0x18, 0x1B)
    ∷ (0x1C, 0x1C)
    ∷ (0x1D, 0x1F)
    ∷ (0x20, 0x2B)
    ∷ (0x2C, 0x2F)
    ∷ (0x30, 0x3B)
    ∷ (0x3C, 0x3F)
    ∷ (0x40, 0x43)
    ∷ (0x44, 0x44)
    ∷ (0x45, 0x45)
    ∷ (0x46, 0x46)
    ∷ (0x47, 0x47)
    ∷ (0x48, 0x4F)
    ∷ (0x50, 0x53)
    ∷ (0x54, 0x57)
    ∷ (0x58, 0x5B)
    ∷ (0x5C, 0x5F)
    ∷ (0x60, 0x63)
    ∷ (0x64, 0x67)
    ∷ (0x68, 0x6B)
    ∷ (0x6C, 0x6F)
    ∷ (0x70, 0x73)
    ∷ (0x74, 0x77)
    ∷ (0x78, 0x7B)
    ∷ (0x7C, 0x7D)
    ∷ (0x7E, 0x7F)
    ∷ (0x80, 0x17F)
    ∷ (0x180, 0x1AF)
    ∷ (0x1B0, 0x1BF)
    ∷ []

-- The fields of `flexspi_nor_config_t` after `mem_config`.
abbrev pub flexspi_nor_config : List Field
flexspi_nor_config =
    u32 1 ∷ u32 1 ∷ u8 1 ∷ u8 1 ∷ u8 2 ∷ u8 1 ∷ u8 1 ∷ u8 1 ∷ u8 1 ∷ u32 1 ∷ u32 11 ∷ []

abbrev pub flexspi_cfg_blk_size : ℕ
flexspi_cfg_blk_size = 512

-- Where the compiler puts the fields from an offset on: each at the next multiple of its alignment.
unfoldable pub ranges_from : ℕ → List Field → List (ℕ × ℕ)
ranges_from offset [] = []
ranges_from offset (f ∷ fs) =
    let first = ((offset + f.align - 1) / f.align) * f.align in
    let after = first + f.size * f.count in (first, after - 1) ∷ ranges_from after fs

unfoldable pub end_of : ℕ → List Field → ℕ
end_of offset [] = offset
end_of offset (f ∷ fs) = end_of (((offset + f.align - 1) / f.align) * f.align + f.size * f.count) fs

-- Every field of the memory configuration lies exactly where its comment says, which is where the
-- boot ROM looks for it, and the whole block has the size that the header gives.
pub flexspi_mem_config_lem :
    (ranges_from 0 flexspi_mem_config ≡ documented_ranges)
    × (end_of (end_of 0 flexspi_mem_config) flexspi_nor_config ≡ flexspi_cfg_blk_size)
unfolding ranges_from end_of
flexspi_mem_config_lem = (refl, refl)
