-- ===== src/Boot/Config.antt =====
-- `hyperflash_config` of boards/nxp/rt1050_custom/xip/rt1050_custom_flexspi_nor_config.c, and the constants of
-- the header that it names.
use zephyr_start.Base.{
  List, [], if◌then◌else◌, replicate, suc, zero, ℕ, ◌*◌, ◌++◌, ◌+◌, ◌==◌, ◌^◌, ◌∷◌,
}
use zephyr_start.Boot.Lut.{LutFields}
use zephyr_start.Boot.Layout.{Field, flexspi_mem_config, flexspi_nor_config}
use zephyr_start.Boot.Flash.{LutSequence, lookup_table, lut_custom_seq}

-- FLEXSPI_CFG_BLK_TAG and FLEXSPI_CFG_BLK_VERSION
abbrev pub flexspi_cfg_blk_tag : ℕ
flexspi_cfg_blk_tag = 0x42464346

abbrev pub flexspi_cfg_blk_version : ℕ
flexspi_cfg_blk_version = 0x56010400

pub data SerialClockFreq : Type 0 where
  mhz_30 : SerialClockFreq
  mhz_50 : SerialClockFreq
  mhz_60 : SerialClockFreq
  mhz_75 : SerialClockFreq
  mhz_80 : SerialClockFreq
  mhz_100 : SerialClockFreq
  mhz_133 : SerialClockFreq
  mhz_166 : SerialClockFreq

abbrev pub serial_clk : SerialClockFreq → ℕ
serial_clk mhz_30 = 1
serial_clk mhz_50 = 2
serial_clk mhz_60 = 3
serial_clk mhz_75 = 4
serial_clk mhz_80 = 5
serial_clk mhz_100 = 6
serial_clk mhz_133 = 7
serial_clk mhz_166 = 8

pub data ReadSampleClk : Type 0 where
  loopback_internally : ReadSampleClk
  loopback_from_dqs_pad : ReadSampleClk
  loopback_from_sck_pad : ReadSampleClk
  external_input_from_dqs_pad : ReadSampleClk

abbrev pub read_sample_clk : ReadSampleClk → ℕ
read_sample_clk loopback_internally = 0
read_sample_clk loopback_from_dqs_pad = 1
read_sample_clk loopback_from_sck_pad = 2
read_sample_clk external_input_from_dqs_pad = 3

pub data MiscOption : Type 0 where
  diff_clk : MiscOption
  ck2 : MiscOption
  parallel : MiscOption
  word_addressable : MiscOption
  safe_config_freq : MiscOption
  pad_setting_override : MiscOption
  ddr_mode : MiscOption

abbrev pub misc_offset : MiscOption → ℕ
misc_offset diff_clk = 0
misc_offset ck2 = 1
misc_offset parallel = 2
misc_offset word_addressable = 3
misc_offset safe_config_freq = 4
misc_offset pad_setting_override = 5
misc_offset ddr_mode = 6

pub data DeviceType : Type 0 where
  serial_nor : DeviceType
  serial_nand : DeviceType
  serial_ram : DeviceType
  mcp_nor_nand : DeviceType
  mcp_nor_ram : DeviceType

abbrev pub device_type_code : DeviceType → ℕ
device_type_code serial_nor = 1
device_type_code serial_nand = 2
device_type_code serial_ram = 3
device_type_code mcp_nor_nand = 0x12
device_type_code mcp_nor_ram = 0x13

pub data SerialFlashPads : Type 0 where
  pads_1 : SerialFlashPads
  pads_2 : SerialFlashPads
  pads_4 : SerialFlashPads
  pads_8 : SerialFlashPads

abbrev pub pad_type : SerialFlashPads → ℕ
pad_type pads_1 = 1
pad_type pads_2 = 2
pad_type pads_4 = 4
pad_type pads_8 = 8

-- The bits have no place in common, so that the `|` of the options is a sum.
abbrev pub controller_misc_option : ℕ
controller_misc_option =
    2 ^ misc_offset ddr_mode
    + 2 ^ misc_offset word_addressable
    + 2 ^ misc_offset safe_config_freq
    + 2 ^ misc_offset diff_clk

-- An element of an array with some entries initialised; the others are 0.
abbrev pub entry_at : ℕ → List (ℕ × ℕ) → ℕ
entry_at i [] = 0
entry_at i ((j, w) ∷ entries) = let later = entry_at i entries in if i == j then w else later

-- An array of so many elements, from an index on.
abbrev pub array_from : ℕ → ℕ → List (ℕ × ℕ) → List ℕ
array_from zero i entries = []
array_from (suc n) i entries = entry_at i entries ∷ array_from n (suc i) entries

-- `flexspi_lut_seq_t` as the four bytes that it takes: the number, the index, and the reserved half
-- word, which is 0.
abbrev pub lut_seq_value : LutSequence → ℕ
lut_seq_value q = q.seq_num + q.seq_id * 2 ^ 8

abbrev pub lut_seq_values : List LutSequence → List ℕ
lut_seq_values [] = []
lut_seq_values (q ∷ qs) = lut_seq_value q ∷ lut_seq_values qs

-- The elements of each field of `mem_config`, in the order of the declaration; what the initialiser
-- does not name is 0.
abbrev pub mem_config_values : LutFields → List (List ℕ)
mem_config_values m =
    (flexspi_cfg_blk_tag ∷ [])
    ∷ (flexspi_cfg_blk_version ∷ [])
    ∷ (0 ∷ [])
    ∷ (read_sample_clk external_input_from_dqs_pad ∷ [])
    ∷ (3 ∷ [])
    ∷ (3 ∷ [])
    ∷ (3 ∷ [])
    ∷ (0 ∷ [])
    ∷ (0 ∷ [])
    ∷ (0 ∷ [])
    ∷ (0 ∷ [])
    ∷ (0 ∷ [])
    ∷ (0 ∷ [])
    ∷ replicate 3 0
    ∷ replicate 3 0
    ∷ (0 ∷ [])
    ∷ replicate 3 0
    ∷ (0 ∷ [])
    ∷ (controller_misc_option ∷ [])
    ∷ (device_type_code serial_nor ∷ [])
    ∷ (pad_type pads_8 ∷ [])
    ∷ (serial_clk mhz_133 ∷ [])
    ∷ (0x1 ∷ [])
    ∷ replicate 2 0
    ∷ (64 * 1024 * 1024 ∷ [])
    ∷ (0 ∷ [])
    ∷ (0 ∷ [])
    ∷ (0 ∷ [])
    ∷ (0 ∷ [])
    ∷ (0 ∷ [])
    ∷ (0 ∷ [])
    ∷ (0 ∷ [])
    ∷ (0 ∷ [])
    ∷ (0 ∷ [])
    ∷ (15 ∷ 0 ∷ [])
    ∷ (15 ∷ [])
    ∷ (1 ∷ [])
    ∷ array_from 64 0 (lookup_table m)
    ∷ (lut_seq_values lut_custom_seq ++ replicate 6 0)
    ∷ replicate 4 0
    ∷ []

-- The fields of `hyperflash_config` after `mem_config`.
abbrev pub nor_config_values : List (List ℕ)
nor_config_values =
    (512 ∷ [])
    ∷ (256 * 1024 ∷ [])
    ∷ (1 ∷ [])
    ∷ (1 ∷ [])
    ∷ replicate 2 0
    ∷ (1 ∷ [])
    ∷ (0 ∷ [])
    ∷ (0 ∷ [])
    ∷ (0 ∷ [])
    ∷ (256 * 1024 ∷ [])
    ∷ replicate 11 0
    ∷ []

-- A field with what it is initialised with.
pub record Initialised : Type 0 where
  pub field : Field
  pub values : List ℕ

abbrev pub initialise : List Field → List (List ℕ) → List Initialised
initialise [] vs = []
initialise (f ∷ fs) [] = []
initialise (f ∷ fs) (v ∷ vs) = record { field = f; values = v } ∷ initialise fs vs

abbrev pub hyperflash_config : LutFields → List Initialised
hyperflash_config m =
    initialise flexspi_mem_config (mem_config_values m)
    ++ initialise flexspi_nor_config nor_config_values
