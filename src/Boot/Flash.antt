-- ===== src/Boot/Flash.antt =====
-- The lookup table and the custom sequences of
-- boards/nxp/rt1050_custom/xip/rt1050_custom_flexspi_nor_config.c.
use zephyr_start.Base.{List, [], ℕ, ◌++◌, ◌∷◌}
use zephyr_start.Boot.Lut.{
  LutFields, caddr_ddr, cmd_ddr, dummy_ddr, dummy_rwds_ddr, flexspi_1pad, flexspi_8pad, lut_seq,
  raddr_ddr, read_ddr, write_ddr, stop,
}

module _ (m : LutFields) where
  abbrev pub table_1 : List (ℕ × ℕ)
  table_1 =
      (0, lut_seq m cmd_ddr flexspi_8pad 0xA0 raddr_ddr flexspi_8pad 0x18)
      ∷ (1, lut_seq m caddr_ddr flexspi_8pad 0x10 dummy_ddr flexspi_8pad 0x0C)
      ∷ (2, lut_seq m read_ddr flexspi_8pad 0x04 stop flexspi_1pad 0x0)
      ∷ (4, lut_seq m cmd_ddr flexspi_8pad 0x0 cmd_ddr flexspi_8pad 0x0)
      ∷ (5, lut_seq m cmd_ddr flexspi_8pad 0x0 cmd_ddr flexspi_8pad 0xAA)
      ∷ (6, lut_seq m cmd_ddr flexspi_8pad 0x0 cmd_ddr flexspi_8pad 0x05)
      ∷ (7, lut_seq m cmd_ddr flexspi_8pad 0x0 cmd_ddr flexspi_8pad 0x70)
      ∷ (8, lut_seq m cmd_ddr flexspi_8pad 0xA0 raddr_ddr flexspi_8pad 0x18)
      ∷ (9, lut_seq m caddr_ddr flexspi_8pad 0x10 dummy_rwds_ddr flexspi_8pad 0x0B)
      ∷ (10, lut_seq m read_ddr flexspi_8pad 0x4 stop flexspi_1pad 0x0)
      ∷ (12, lut_seq m cmd_ddr flexspi_8pad 0x0 cmd_ddr flexspi_8pad 0x0)
      ∷ (13, lut_seq m cmd_ddr flexspi_8pad 0x0 cmd_ddr flexspi_8pad 0xAA)
      ∷ (14, lut_seq m cmd_ddr flexspi_8pad 0x0 cmd_ddr flexspi_8pad 0x05)
      ∷ (15, lut_seq m cmd_ddr flexspi_8pad 0x0 cmd_ddr flexspi_8pad 0xAA)
      ∷ (16, lut_seq m cmd_ddr flexspi_8pad 0x0 cmd_ddr flexspi_8pad 0x0)
      ∷ (17, lut_seq m cmd_ddr flexspi_8pad 0x0 cmd_ddr flexspi_8pad 0x55)
      ∷ (18, lut_seq m cmd_ddr flexspi_8pad 0x0 cmd_ddr flexspi_8pad 0x02)
      ∷ (19, lut_seq m cmd_ddr flexspi_8pad 0x0 cmd_ddr flexspi_8pad 0x55)
      ∷ (20, lut_seq m cmd_ddr flexspi_8pad 0x0 cmd_ddr flexspi_8pad 0x0)
      ∷ (21, lut_seq m cmd_ddr flexspi_8pad 0x0 cmd_ddr flexspi_8pad 0xAA)
      ∷ (22, lut_seq m cmd_ddr flexspi_8pad 0x0 cmd_ddr flexspi_8pad 0x05)
      ∷ (23, lut_seq m cmd_ddr flexspi_8pad 0x0 cmd_ddr flexspi_8pad 0x80)
      ∷ (24, lut_seq m cmd_ddr flexspi_8pad 0x0 cmd_ddr flexspi_8pad 0x0)
      ∷ (25, lut_seq m cmd_ddr flexspi_8pad 0x0 cmd_ddr flexspi_8pad 0xAA)
      ∷ (26, lut_seq m cmd_ddr flexspi_8pad 0x0 cmd_ddr flexspi_8pad 0x05)
      ∷ (27, lut_seq m cmd_ddr flexspi_8pad 0x0 cmd_ddr flexspi_8pad 0xAA)
      ∷ (28, lut_seq m cmd_ddr flexspi_8pad 0x0 cmd_ddr flexspi_8pad 0x0)
      ∷ []

  abbrev pub table_2 : List (ℕ × ℕ)
  table_2 =
      (29, lut_seq m cmd_ddr flexspi_8pad 0x0 cmd_ddr flexspi_8pad 0x55)
      ∷ (30, lut_seq m cmd_ddr flexspi_8pad 0x0 cmd_ddr flexspi_8pad 0x02)
      ∷ (31, lut_seq m cmd_ddr flexspi_8pad 0x0 cmd_ddr flexspi_8pad 0x55)
      ∷ (32, lut_seq m cmd_ddr flexspi_8pad 0x0 raddr_ddr flexspi_8pad 0x18)
      ∷ (33, lut_seq m caddr_ddr flexspi_8pad 0x10 cmd_ddr flexspi_8pad 0x0)
      ∷ (34, lut_seq m cmd_ddr flexspi_8pad 0x30 stop flexspi_1pad 0x0)
      ∷ (36, lut_seq m cmd_ddr flexspi_8pad 0x0 cmd_ddr flexspi_8pad 0x0)
      ∷ (37, lut_seq m cmd_ddr flexspi_8pad 0x0 cmd_ddr flexspi_8pad 0xAA)
      ∷ (38, lut_seq m cmd_ddr flexspi_8pad 0x0 cmd_ddr flexspi_8pad 0x05)
      ∷ (39, lut_seq m cmd_ddr flexspi_8pad 0x0 cmd_ddr flexspi_8pad 0xA0)
      ∷ (40, lut_seq m cmd_ddr flexspi_8pad 0x0 raddr_ddr flexspi_8pad 0x18)
      ∷ (41, lut_seq m caddr_ddr flexspi_8pad 0x10 write_ddr flexspi_8pad 0x80)
      ∷ (44, lut_seq m cmd_ddr flexspi_8pad 0x0 cmd_ddr flexspi_8pad 0x0)
      ∷ (45, lut_seq m cmd_ddr flexspi_8pad 0x0 cmd_ddr flexspi_8pad 0xAA)
      ∷ (46, lut_seq m cmd_ddr flexspi_8pad 0x0 cmd_ddr flexspi_8pad 0x05)
      ∷ (47, lut_seq m cmd_ddr flexspi_8pad 0x0 cmd_ddr flexspi_8pad 0x80)
      ∷ (48, lut_seq m cmd_ddr flexspi_8pad 0x0 cmd_ddr flexspi_8pad 0x0)
      ∷ (49, lut_seq m cmd_ddr flexspi_8pad 0x0 cmd_ddr flexspi_8pad 0xAA)
      ∷ (50, lut_seq m cmd_ddr flexspi_8pad 0x0 cmd_ddr flexspi_8pad 0x05)
      ∷ (51, lut_seq m cmd_ddr flexspi_8pad 0x0 cmd_ddr flexspi_8pad 0xAA)
      ∷ (52, lut_seq m cmd_ddr flexspi_8pad 0x0 cmd_ddr flexspi_8pad 0x0)
      ∷ (53, lut_seq m cmd_ddr flexspi_8pad 0x0 cmd_ddr flexspi_8pad 0x55)
      ∷ (54, lut_seq m cmd_ddr flexspi_8pad 0x0 cmd_ddr flexspi_8pad 0x02)
      ∷ (55, lut_seq m cmd_ddr flexspi_8pad 0x0 cmd_ddr flexspi_8pad 0x55)
      ∷ (56, lut_seq m cmd_ddr flexspi_8pad 0x0 cmd_ddr flexspi_8pad 0x0)
      ∷ (57, lut_seq m cmd_ddr flexspi_8pad 0x0 cmd_ddr flexspi_8pad 0xAA)
      ∷ (58, lut_seq m cmd_ddr flexspi_8pad 0x0 cmd_ddr flexspi_8pad 0x05)
      ∷ (59, lut_seq m cmd_ddr flexspi_8pad 0x0 cmd_ddr flexspi_8pad 0x10)
      ∷ []

  -- The initialised entries, by their index.
  abbrev pub lookup_table : List (ℕ × ℕ)
  lookup_table = table_1 ++ table_2

-- A sequence of the table: how many, from which.
pub record LutSequence : Type 0 where
  pub seq_num : ℕ
  pub seq_id : ℕ

abbrev pub lut_custom_seq : List LutSequence
lut_custom_seq =
    record { seq_num = 0; seq_id = 0 }
    ∷ record { seq_num = 2; seq_id = 1 }
    ∷ record { seq_num = 2; seq_id = 3 }
    ∷ record { seq_num = 4; seq_id = 5 }
    ∷ record { seq_num = 2; seq_id = 9 }
    ∷ record { seq_num = 4; seq_id = 11 }
    ∷ []

-- The NOR_CMD_LUT_SEQ_IDX_ constants of the header, in the order of the NOR_CMD_INDEX_ ones: read,
-- read status, write enable, erase sector, page program, chip erase.
abbrev pub nor_cmd_lut_seq_idx : List ℕ
nor_cmd_lut_seq_idx = 0 ∷ 1 ∷ 3 ∷ 5 ∷ 9 ∷ 11 ∷ []
