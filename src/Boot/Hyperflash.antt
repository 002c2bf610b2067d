-- ===== src/Boot/Hyperflash.antt =====
-- What the boot ROM finds in `hyperflash_config` of
-- boards/nxp/rt1050_custom/xip/rt1050_custom_flexspi_nor_config.c.
use zephyr_start.Base.{
  Bool, Every, Every-append, List, [], ap, arith, drop, false, inr, leb, length, ltb, refl, suc,
  take, true, zero, ℕ, ◌%◌, ◌&&◌, ◌++◌, ◌+◌, ◌<◌, ◌==◌, ◌^◌, ◌||◌, ◌∷◌, ◌≡◌,
}
use zephyr_start.Boot.Lut.{IsLutFields, LutFields, lut_seq}
use zephyr_start.Boot.Layout.{
  documented_ranges, end_of, flexspi_cfg_blk_size, flexspi_mem_config, flexspi_nor_config,
  ranges_from, u32,
}
use zephyr_start.Boot.Image.{
  IsInitialised, array_bytes, image_from, number_bytes, number_of, read_fields, read_fields-image,
}
use zephyr_start.Boot.Flash.{lookup_table}
use zephyr_start.Boot.Config.{
  Initialised, array_from, entry_at, hyperflash_config, initialise, mem_config_values,
  nor_config_values,
}

word_bound : (m : LutFields) → IsLutFields m → (a b c d e f : ℕ) → lut_seq m a b c d e f < 2 ^ 32
unfolding lut_seq
word_bound m k a b c d e f = omega (
  arith,
  k.operand0_at c,
  k.num_pads0_at b,
  k.opcode0_at a,
  k.operand1_at f,
  k.num_pads1_at e,
  k.opcode1_at d,
)

table_bound : (m : LutFields) → IsLutFields m → Every (lookup_table m) (λ e. e.1 < 2 ^ 32)
table_bound m k = let bound = word_bound m k in search bound

entry_bound :
    (i : ℕ) (entries : List (ℕ × ℕ))
    → Every entries (λ e. e.1 < 2 ^ 32)
    → entry_at i entries < 2 ^ 32
entry_bound i [] _ = omega arith
entry_bound i ((j, w) ∷ entries) (this, others) = ground (arith, entry_bound i entries others)

array_bound :
    (n i : ℕ) (entries : List (ℕ × ℕ))
    → Every entries (λ e. e.1 < 2 ^ 32)
    → Every (array_from n i entries) (λ v. v < 256 ^ 4)
array_bound zero i entries all = tt
array_bound (suc n) i entries all = (entry_bound i entries all, array_bound n (suc i) entries all)

length-array_from : (n i : ℕ) (entries : List (ℕ × ℕ)) → length (array_from n i entries) ≡ n
length-array_from zero i entries = refl
length-array_from (suc n) i entries = ap suc (length-array_from n (suc i) entries)

-- The test of a field whose numbers are known.
abbrev fits : ℕ → List ℕ → Bool
fits limit [] = true
fits limit (v ∷ vs) = ltb v limit && fits limit vs

abbrev is_initialised : Initialised → Bool
is_initialised i =
    ((i.field.align == 1) || (i.field.align == 2) || (i.field.align == 4))
    && (length i.values == i.field.count)
    && fits (256 ^ i.field.size) i.values

abbrev all_initialised : List Initialised → Bool
all_initialised [] = true
all_initialised (i ∷ is) = is_initialised i && all_initialised is

fits_lem : (limit : ℕ) (vs : List ℕ) → fits limit vs ≡ true → Every vs (λ v. v < limit)
fits_lem limit [] h = tt
fits_lem limit (v ∷ vs) h = (ground arith, fits_lem limit vs (ground arith))

is_initialised_lem : (i : Initialised) → is_initialised i ≡ true → IsInitialised i
is_initialised_lem i h = record {
  align_small = ground arith;
  counted = ground arith;
  fit = fits_lem (256 ^ i.field.size) i.values (ground arith);
}

all_initialised_lem : (is : List Initialised) → all_initialised is ≡ true → Every is IsInitialised
all_initialised_lem [] h = tt
all_initialised_lem (i ∷ is) h =
    (is_initialised_lem i (ground arith), all_initialised_lem is (ground arith))

-- The fields before and after the lookup table.
abbrev front : LutFields → List Initialised
front m = initialise (take 37 flexspi_mem_config) (take 37 (mem_config_values m))

abbrev table : LutFields → Initialised
table m = record { field = u32 64; values = array_from 64 0 (lookup_table m) }

abbrev back : LutFields → List Initialised
back m =
    initialise (drop 38 flexspi_mem_config) (drop 38 (mem_config_values m))
    ++ initialise flexspi_nor_config nor_config_values

hyperflash_config-split : (m : LutFields) → hyperflash_config m ≡ front m ++ (table m ∷ back m)
hyperflash_config-split m = refl

hyperflash_config-Initialised :
    (m : LutFields) → IsLutFields m → Every (hyperflash_config m) IsInitialised
hyperflash_config-Initialised m k =
    let middle : IsInitialised (table m) = record {
      align_small = inr (inr refl);
      counted = length-array_from 64 0 (lookup_table m);
      fit = array_bound 64 0 (lookup_table m) (table_bound m k);
    } in
    Every-append IsInitialised (front m) (table m ∷ back m)
      (middle, all_initialised_lem (back m) refl) (all_initialised_lem (front m) refl)

-- The bytes that the compiler puts into the section of the boot header.
unfoldable pub image : LutFields → List ℕ
unfolding image_from
image m = image_from 0 (hyperflash_config m)

-- The number of `n` bytes at an offset.
abbrev number_at : ℕ → ℕ → List ℕ → ℕ
number_at offset n bytes = number_of (take n (drop offset bytes))

-- What the comments of the header say of the numbers outside the custom sequences: the tag and the version in its parts, V1.4.0, a valid
-- clock source, the address width of HyperBus, a number of pads, a frequency of the enumeration, the
-- busy offset and polarity, and in the part for NOR flash the type; the sizes divide each other, and
-- sectors and blocks are the same where the block says so.
unfoldable pub is_documented : List ℕ → Bool
unfolding number_of
is_documented bytes =
    let source = number_at 0xC 1 bytes in
    let pads = number_at 0x45 1 bytes in
    let clock = number_at 0x46 1 bytes in
    let page = number_at 0x1C0 4 bytes in
    let sector = number_at 0x1C4 4 bytes in
    (number_at 0x0 4 bytes == 0x42464346)
    && (number_at 0x7 1 bytes == 0x56)
    && (number_at 0x6 1 bytes == 1)
    && (number_at 0x5 1 bytes == 4)
    && (number_at 0x4 1 bytes == 0)
    && ((source == 0) || (source == 1) || (source == 3))
    && (number_at 0xF 1 bytes == 3)
    && ((pads == 1) || (pads == 2) || (pads == 4) || (pads == 8))
    && ltb 0 clock
    && leb clock 8
    && leb (number_at 0x7C 2 bytes) 31
    && leb (number_at 0x7E 2 bytes) 1
    && leb (number_at 0x1CC 1 bytes) 3
    && (sector % page == 0)
    && (number_at 0x50 4 bytes % sector == 0)
    && ((number_at 0x1C9 1 bytes == 0) || (number_at 0x1D0 4 bytes == sector))

-- Whether `seq_num` and `seq_id` of each of the first `n` custom sequences from an offset on are in the
-- ranges that the comments of `struct flexspi_lut_seq` give, 1 to 16 and 0 to 15.
unfoldable pub sequences_documented : ℕ → ℕ → List ℕ → List Bool
unfolding number_of
sequences_documented zero offset bytes = []
sequences_documented (suc n) offset bytes =
    let seq_num = number_at offset 1 bytes in
    (ltb 0 seq_num && leb seq_num 16 && leb (number_at (offset + 1) 1 bytes) 15)
    ∷ sequences_documented n (offset + 4) bytes

-- With the field macros as they are documented, the image has the 512 bytes that the header gives,
-- and the boot ROM, which reads each field of the memory configuration at the bytes that its comment
-- names and the fields after it where the layout puts them, finds every number of the initialiser, and
-- zero where that names none. The tag, the version, the clocks, the pads, the busy settings and the sizes
-- are as the comments of the header say; of the six custom sequences that the initialiser names, all
-- but the first have a number and an index in the ranges that the comments give, and the first has not.
pub image_lem :
    (m : LutFields)
    → IsLutFields m
    → (length (image m) ≡ flexspi_cfg_blk_size)
      × (read_fields
            (image m)
            (flexspi_mem_config ++ flexspi_nor_config)
            (documented_ranges ++ ranges_from (end_of 0 flexspi_mem_config) flexspi_nor_config)
          ≡ mem_config_values m ++ nor_config_values)
      × (is_documented (image m) ≡ true)
      × (sequences_documented 6 0x180 (image m) ≡ false ∷ true ∷ true ∷ true ∷ true ∷ true ∷ [])
unfolding image image_from array_bytes number_bytes ranges_from end_of is_documented
    sequences_documented
image_lem m k = (
  refl,
  read_fields-image (hyperflash_config m) 0 [] refl (hyperflash_config-Initialised m k),
  refl,
  refl,
)
