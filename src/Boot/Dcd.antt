-- ===== src/Boot/Dcd.antt =====
-- The device configuration data of boards/nxp/rt1050_custom/dcd/dcd.c, as its boot ROM reads them.
use zephyr_start.Base.{
  Bool, List, Option, [], if◌then◌else◌, length, none, refl, some, suc, true, zero, ℕ, ◌%◌, ◌&&◌,
  ◌*◌, ◌++◌, ◌+◌, ◌-◌, ◌/◌, ◌==◌, ◌^◌, ◌||◌, ◌∷◌, ◌≡◌,
}
use zephyr_start.Boot.DcdData.{dcd_data}
use zephyr_start.Boot.DcdComments.{Kind, check_any_bit_set, documented_1, documented_2, write_value}

-- One command on a register of four bytes.
pub record Command : Type 0 where
  pub kind : Kind
  pub address : ℕ
  pub value : ℕ

-- A word, most significant byte first.
abbrev pub be32 : (a b c d : ℕ) → ℕ
be32 a b c d = ((a * 256 + b) * 256 + c) * 256 + d

infixl 10 ◌>>=◌
abbrev ◌>>=◌ {ℓ κ} : {A : Type ℓ} {B : Type κ} → Option A → (A → Option B) → Option B
none >>= f = none
some a >>= f = f a

-- The pairs of an address and a value of a merged command of `len` bytes; `none` where they do not
-- fill it.
unfoldable pub read_pairs : Kind → ℕ → List ℕ → Option (List Command × List ℕ)
read_pairs kind zero bytes = some ([], bytes)
read_pairs kind (suc n) (a ∷ b ∷ c ∷ d ∷ e ∷ f ∷ g ∷ h ∷ bytes) = do
  (cs, after) ← read_pairs kind n bytes
  some (record { kind = kind; address = be32 a b c d; value = be32 e f g h } ∷ cs, after)
read_pairs kind (suc n) bytes = none

-- The kind of a command, from its tag and its parameter: a write of four bytes, or a check that waits
-- until any bit of a mask is set.
unfoldable pub kind_of : ℕ → ℕ → Option Kind
kind_of tag param =
    if (tag == 0xCC) && (param == 0x04)
    then some write_value
    else (if (tag == 0xCF) && (param == 0x1C) then some check_any_bit_set else none)

-- The commands, on fuel for each; `none` where a header does not fit.
unfoldable pub read_commands : ℕ → List ℕ → Option (List Command)
unfolding read_pairs kind_of
read_commands fuel [] = some []
read_commands zero bytes = none
read_commands (suc fuel) (tag ∷ high ∷ low ∷ param ∷ bytes) = do
  kind ← kind_of tag param
  (cs, after) ← read_pairs kind ((high * 256 + low - 4) / 8) bytes
  later ← read_commands fuel after
  some (cs ++ later)
read_commands (suc fuel) bytes = none

-- The header: its tag, the length of all bytes, and version 4.1.
unfoldable pub read_dcd : List ℕ → Option (List Command)
unfolding read_commands
read_dcd (tag ∷ high ∷ low ∷ version ∷ bytes) =
    if (tag == 0xD2) && (high * 256 + low == 4 + length bytes) && (version == 0x41)
    then read_commands (length bytes) bytes
    else none
read_dcd bytes = none

abbrev pub described : List Command → List (Kind × ℕ)
described [] = []
described (c ∷ cs) = (c.kind, c.value) ∷ described cs

abbrev pub all_of : (Command → Bool) → List Command → Bool
all_of test [] = true
all_of test (c ∷ cs) = test c && all_of test cs

-- A register of the clock controller, its analog part, the pad multiplexer or the memory controller,
-- each a block of 16 kilobytes at its address in the reference manual.
abbrev pub is_register : Command → Bool
is_register c =
    let block = c.address / 2 ^ 14 in
    (c.address % 4 == 0)
    && ((block == 0x400FC000 / 2 ^ 14)
        || ((block == 0x400D8000 / 2 ^ 14)
            || ((block == 0x401F8000 / 2 ^ 14) || (block == 0x402F0000 / 2 ^ 14))))

-- The boot ROM can read the table to its last byte; each of its 125 commands is of the kind and has
-- the value that its comment says; and each is on an aligned register of the four blocks that the
-- table is for.
pub dcd_data_lem :
    (cs : List Command) × (read_dcd dcd_data ≡ some cs)
    × (described cs ≡ documented_1 ++ documented_2)
    × (all_of is_register cs ≡ true)
unfolding read_dcd read_commands read_pairs kind_of
dcd_data_lem =
    let cs : List Command = elim (read_dcd dcd_data) [ none ↦ [] | some cs ↦ cs ] in
    (cs, refl, refl, refl)
