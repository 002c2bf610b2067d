-- ===== src/Boot/Sequences.antt =====
-- The sequences that boards/nxp/rt1050_custom/xip/rt1050_custom_flexspi_nor_config.c gives the commands
-- of the flash.
use zephyr_start.Base.{
  Bool, List, [], each_below, each_below_lem, false, if◌then◌else◌, refl, suc, true, zero, ℕ, ◌*◌,
  ◌++◌, ◌<◌, ◌==◌, ◌||◌, ◌∷◌, ◌≡◌,
}
use zephyr_start.Boot.Lut.{LutFields}
use zephyr_start.Boot.Flash.{LutSequence, lookup_table, lut_custom_seq, nor_cmd_lut_seq_idx}

abbrev pub range : ℕ → ℕ → List ℕ
range zero first = []
range (suc n) first = first ∷ range n (suc first)

-- Whether a sequence has an instruction: its first word is initialised.
abbrev pub has_sequence : ℕ → List (ℕ × ℕ) → Bool
has_sequence s [] = false
has_sequence s ((i, w) ∷ entries) = (i == 4 * s) || has_sequence s entries

-- The sequences of a command: `seq_num` from `seq_id` on, or one where the number is 0.
abbrev pub sequences_of : LutSequence → List ℕ
sequences_of q = range (if q.seq_num == 0 then 1 else q.seq_num) q.seq_id

abbrev pub all_sequences : List LutSequence → List ℕ
all_sequences [] = []
all_sequences (q ∷ qs) = sequences_of q ++ all_sequences qs

abbrev pub ids : List LutSequence → List ℕ
ids [] = []
ids (q ∷ qs) = q.seq_id ∷ ids qs

-- The commands start at the sequences that the header names; their sequences are the first fifteen of
-- the sixteen of the table, each of one command only; and the table holds those fifteen and not the
-- last, whatever the values of its words.
pub lut_custom_seq_lem :
    (m : LutFields)
    → (ids lut_custom_seq ≡ nor_cmd_lut_seq_idx)
      × (all_sequences lut_custom_seq ≡ range 15 0)
      × ((s : ℕ) → s < 15 → has_sequence s (lookup_table m) ≡ true)
      × (has_sequence 15 (lookup_table m) ≡ false)
unfolding each_below
lut_custom_seq_lem m = (
  refl,
  refl,
  (λ s below. each_below_lem (λ i. has_sequence i (lookup_table m)) 15 s below refl),
  refl,
)
