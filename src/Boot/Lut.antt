-- ===== src/Boot/Lut.antt =====
-- The opcodes, the pads and FLEXSPI_LUT_SEQ of
-- boards/nxp/rt1050_custom/xip/rt1050_custom_flexspi_nor_config.h.
use zephyr_start.Base.{arith, refl, ℕ, ◌%◌, ◌*◌, ◌+◌, ◌/◌, ◌<◌, ◌^◌, ◌≡◌}

abbrev pub cmd_sdr : ℕ
cmd_sdr = 0x01

abbrev pub cmd_ddr : ℕ
cmd_ddr = 0x21

abbrev pub raddr_sdr : ℕ
raddr_sdr = 0x02

abbrev pub raddr_ddr : ℕ
raddr_ddr = 0x22

abbrev pub caddr_sdr : ℕ
caddr_sdr = 0x03

abbrev pub caddr_ddr : ℕ
caddr_ddr = 0x23

abbrev pub mode1_sdr : ℕ
mode1_sdr = 0x04

abbrev pub mode1_ddr : ℕ
mode1_ddr = 0x24

abbrev pub mode2_sdr : ℕ
mode2_sdr = 0x05

abbrev pub mode2_ddr : ℕ
mode2_ddr = 0x25

abbrev pub mode4_sdr : ℕ
mode4_sdr = 0x06

abbrev pub mode4_ddr : ℕ
mode4_ddr = 0x26

abbrev pub mode8_sdr : ℕ
mode8_sdr = 0x07

abbrev pub mode8_ddr : ℕ
mode8_ddr = 0x27

abbrev pub write_sdr : ℕ
write_sdr = 0x08

abbrev pub write_ddr : ℕ
write_ddr = 0x28

abbrev pub read_sdr : ℕ
read_sdr = 0x09

abbrev pub read_ddr : ℕ
read_ddr = 0x29

abbrev pub learn_sdr : ℕ
learn_sdr = 0x0A

abbrev pub learn_ddr : ℕ
learn_ddr = 0x2A

abbrev pub datsz_sdr : ℕ
datsz_sdr = 0x0B

abbrev pub datsz_ddr : ℕ
datsz_ddr = 0x2B

abbrev pub dummy_sdr : ℕ
dummy_sdr = 0x0C

abbrev pub dummy_ddr : ℕ
dummy_ddr = 0x2C

abbrev pub dummy_rwds_sdr : ℕ
dummy_rwds_sdr = 0x0D

abbrev pub dummy_rwds_ddr : ℕ
dummy_rwds_ddr = 0x2D

abbrev pub jmp_on_cs : ℕ
jmp_on_cs = 0x1F

abbrev pub stop : ℕ
stop = 0

abbrev pub flexspi_1pad : ℕ
flexspi_1pad = 0

abbrev pub flexspi_2pad : ℕ
flexspi_2pad = 1

abbrev pub flexspi_4pad : ℕ
flexspi_4pad = 2

abbrev pub flexspi_8pad : ℕ
flexspi_8pad = 3

-- The field macros FLEXSPI_LUT_OPERAND0 to FLEXSPI_LUT_OPCODE1 of the vendor's headers.
pub record LutFields : Type 0 where
  pub operand0 : ℕ → ℕ
  pub num_pads0 : ℕ → ℕ
  pub opcode0 : ℕ → ℕ
  pub operand1 : ℕ → ℕ
  pub num_pads1 : ℕ → ℕ
  pub opcode1 : ℕ → ℕ

-- As they are documented: each takes the bits of its field and puts them at its place.
pub record IsLutFields (m : LutFields) : Type 0 where
  pub operand0_at : (x : ℕ) → m.operand0 x ≡ x % 2 ^ 8
  pub num_pads0_at : (x : ℕ) → m.num_pads0 x ≡ (x % 2 ^ 2) * 2 ^ 8
  pub opcode0_at : (x : ℕ) → m.opcode0 x ≡ (x % 2 ^ 6) * 2 ^ 10
  pub operand1_at : (x : ℕ) → m.operand1 x ≡ (x % 2 ^ 8) * 2 ^ 16
  pub num_pads1_at : (x : ℕ) → m.num_pads1 x ≡ (x % 2 ^ 2) * 2 ^ 24
  pub opcode1_at : (x : ℕ) → m.opcode1 x ≡ (x % 2 ^ 6) * 2 ^ 26

-- The fields have no bit in common, so that the `|` of the macro is a sum.
unfoldable pub lut_seq : LutFields → (cmd0 pad0 op0 cmd1 pad1 op1 : ℕ) → ℕ
lut_seq m cmd0 pad0 op0 cmd1 pad1 op1 =
    m.operand0 op0
    + m.num_pads0 pad0
    + m.opcode0 cmd0
    + m.operand1 op1
    + m.num_pads1 pad1
    + m.opcode1 cmd1

-- The instructions of a word of the table: opcode, pads and operand of each, as the controller reads
-- them.
unfoldable pub read_lut : ℕ → (ℕ × ℕ × ℕ) × (ℕ × ℕ × ℕ)
read_lut w = (
  ((w / 2 ^ 10) % 2 ^ 6, (w / 2 ^ 8) % 2 ^ 2, w % 2 ^ 8),
  ((w / 2 ^ 26) % 2 ^ 6, (w / 2 ^ 24) % 2 ^ 2, (w / 2 ^ 16) % 2 ^ 8),
)

-- The controller reads from a word of FLEXSPI_LUT_SEQ the two instructions that it was made of, for
-- opcodes, pads and operands that fit their fields, and the word fits 32 bits.
pub read_lut-lut_seq :
    (m : LutFields)
    → IsLutFields m
    → (cmd0 pad0 op0 cmd1 pad1 op1 : ℕ) → cmd0 < 2 ^ 6
    → pad0 < 2 ^ 2
    → op0 < 2 ^ 8
    → cmd1 < 2 ^ 6
    → pad1 < 2 ^ 2
    → op1 < 2 ^ 8
    → (read_lut (lut_seq m cmd0 pad0 op0 cmd1 pad1 op1) ≡ ((cmd0, pad0, op0), (cmd1, pad1, op1)))
      × (lut_seq m cmd0 pad0 op0 cmd1 pad1 op1 < 2 ^ 32)
unfolding read_lut lut_seq
read_lut-lut_seq m k cmd0 pad0 op0 cmd1 pad1 op1 h0 h1 h2 h3 h4 h5 =
    let word = lut_seq m cmd0 pad0 op0 cmd1 pad1 op1 in
    let e : word
        ≡ op0 + pad0 * 2 ^ 8 + cmd0 * 2 ^ 10 + op1 * 2 ^ 16 + pad1 * 2 ^ 24 + cmd1 * 2 ^ 26 =
      omega (
        arith,
        k.operand0_at op0,
        k.num_pads0_at pad0,
        k.opcode0_at cmd0,
        k.operand1_at op1,
        k.num_pads1_at pad1,
        k.opcode1_at cmd1,
      ) in
    let p1 : (word / 2 ^ 10) % 2 ^ 6 ≡ cmd0 = omega (arith, e) in
    let p2 : (word / 2 ^ 8) % 2 ^ 2 ≡ pad0 = omega (arith, e) in
    let p3 : word % 2 ^ 8 ≡ op0 = omega (arith, e) in
    let p4 : (word / 2 ^ 26) % 2 ^ 6 ≡ cmd1 = omega (arith, e) in
    let p5 : (word / 2 ^ 24) % 2 ^ 2 ≡ pad1 = omega (arith, e) in
    let p6 : (word / 2 ^ 16) % 2 ^ 8 ≡ op1 = omega (arith, e) in
    (rw (p1, p2, p3, p4, p5, p6) refl, omega (arith, e))
