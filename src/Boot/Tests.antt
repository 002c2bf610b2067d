-- ===== src/Boot/Tests.antt =====
-- Tests, and instances of the theorems about boards/nxp/rt1050_custom.
use zephyr_start.Base.{[], codes, false, length, refl, take, true, ◌%◌, ◌*◌, ◌++◌, ◌^◌, ◌∷◌, ◌≡◌}
use zephyr_start.Boot.Lut.{IsLutFields, LutFields}
use zephyr_start.Boot.Layout.{
  documented_ranges, end_of, flexspi_cfg_blk_size, flexspi_mem_config, flexspi_nor_config,
  ranges_from,
}
use zephyr_start.Boot.Image.{array_bytes, image_from, number_bytes, read_fields}
use zephyr_start.Boot.Hyperflash.{image, image_lem, is_documented, sequences_documented}
use zephyr_start.Boot.Config.{mem_config_values, nor_config_values}

abbrev fields : LutFields
fields = record {
  operand0 = λ x. x % 2 ^ 8;
  num_pads0 = λ x. (x % 2 ^ 2) * 2 ^ 8;
  opcode0 = λ x. (x % 2 ^ 6) * 2 ^ 10;
  operand1 = λ x. (x % 2 ^ 8) * 2 ^ 16;
  num_pads1 = λ x. (x % 2 ^ 2) * 2 ^ 24;
  opcode1 = λ x. (x % 2 ^ 6) * 2 ^ 26;
}

fields-IsLutFields : IsLutFields fields
fields-IsLutFields = record {
  operand0_at = λ x. refl;
  num_pads0_at = λ x. refl;
  opcode0_at = λ x. refl;
  operand1_at = λ x. refl;
  num_pads1_at = λ x. refl;
  opcode1_at = λ x. refl;
}

image_lem_example :
    (length (image fields) ≡ flexspi_cfg_blk_size)
    × (read_fields
          (image fields)
          (flexspi_mem_config ++ flexspi_nor_config)
          (documented_ranges ++ ranges_from (end_of 0 flexspi_mem_config) flexspi_nor_config)
        ≡ mem_config_values fields ++ nor_config_values)
    × (is_documented (image fields) ≡ true)
    × (sequences_documented 6 0x180 (image fields) ≡ false ∷ true ∷ true ∷ true ∷ true ∷ true ∷ [])
image_lem_example = image_lem fields fields-IsLutFields

-- The tag: `FCFB` in the order of the bytes.
image-tag : take 4 (image fields) ≡ codes "FCFB"
unfolding image image_from array_bytes number_bytes
image-tag = refl
