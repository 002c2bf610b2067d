-- ===== src/Boot/Image.antt =====
-- The bytes of `hyperflash_config`, as the compiler of a little-endian processor lays them out.
use zephyr_start.Base.{
  Every, List, [], ap, append_assoc, arith, drop, length, length-append, length-replicate, refl,
  replicate, suc, take, take-append_length, zero, ℕ, ◌%◌, ◌*◌, ◌++◌, ◌+◌, ◌-◌, ◌/◌, ◌<◌, ◌^◌, ◌∙◌,
  ◌∷◌, ◌≡◌, ◌≤◌, ◌⊎◌,
}
use zephyr_start.Boot.Layout.{Field, ranges_from}
use zephyr_start.Boot.Config.{Initialised}

-- The bytes of a number, the lowest first.
unfoldable pub number_bytes : ℕ → ℕ → List ℕ
number_bytes zero v = []
number_bytes (suc n) v = v % 256 ∷ number_bytes n (v / 256)

unfoldable pub array_bytes : ℕ → List ℕ → List ℕ
array_bytes size [] = []
array_bytes size (v ∷ vs) = number_bytes size v ++ array_bytes size vs

-- The next offset that a type may stand at.
abbrev pub aligned : ℕ → ℕ → ℕ
aligned align offset = ((offset + align - 1) / align) * align

-- Each field stands at the next multiple of its alignment, after as many zero bytes as that takes.
unfoldable pub image_from : ℕ → List Initialised → List ℕ
image_from offset [] = []
image_from offset (i ∷ is) =
    let first = aligned i.field.align offset in
    replicate (first - offset) 0
    ++ array_bytes i.field.size i.values
    ++ image_from (first + i.field.size * i.field.count) is

-- What the boot ROM does: it reads numbers at given places.
unfoldable pub number_of : List ℕ → ℕ
number_of [] = 0
number_of (b ∷ bs) = b + 256 * number_of bs

unfoldable pub read_array : ℕ → ℕ → List ℕ → List ℕ
read_array zero size bytes = []
read_array (suc n) size bytes = number_of (take size bytes) ∷ read_array n size (drop size bytes)

-- Fields at ranges of bytes, each with the size and the number of its elements.
unfoldable pub read_fields : List ℕ → List Field → List (ℕ × ℕ) → List (List ℕ)
read_fields image [] ranges = []
read_fields image (f ∷ fs) [] = []
read_fields image (f ∷ fs) ((first, last) ∷ ranges) =
    read_array f.count f.size (drop first image) ∷ read_fields image fs ranges

pub number_of-number_bytes : (n v : ℕ) → v < 256 ^ n → number_of (number_bytes n v) ≡ v
unfolding number_of number_bytes
number_of-number_bytes zero v h = ground (arith, h)
number_of-number_bytes (suc n) v h =
    let below : v < 256 * 256 ^ n = grind arith in
    let rest = number_of-number_bytes n (v / 256) (omega (arith, below)) in omega (arith, rest)

length-number_bytes : (n v : ℕ) → length (number_bytes n v) ≡ n
unfolding number_bytes
length-number_bytes zero v = refl
length-number_bytes (suc n) v = ap suc (length-number_bytes n (v / 256))

take_front : (n : ℕ) (xs ys : List ℕ) → length xs ≡ n → take n (xs ++ ys) ≡ xs
take_front n xs ys e = rw (← e) (take-append_length xs ys)

drop-append : (xs ys : List ℕ) → drop (length xs) (xs ++ ys) ≡ ys
drop-append [] ys = refl
drop-append (x ∷ xs) ys = drop-append xs ys

drop_front : (n : ℕ) (xs ys : List ℕ) → length xs ≡ n → drop n (xs ++ ys) ≡ ys
drop_front n xs ys e = rw (← e) (drop-append xs ys)

-- Numbers that fit their size are read back from their bytes, whatever follows.
pub read_array-array_bytes :
    (size : ℕ) (vs rest : List ℕ)
    → Every vs (λ v. v < 256 ^ size)
    → read_array (length vs) size (array_bytes size vs ++ rest) ≡ vs
unfolding read_array array_bytes
read_array-array_bytes size [] rest fit = refl
read_array-array_bytes size (v ∷ vs) rest (this, others) =
    let word = number_bytes size v in
    let tail = array_bytes size vs ++ rest in
    let wide = length-number_bytes size v in
    rw
      (
        append_assoc word (array_bytes size vs) rest,
        take_front size word tail wide,
        drop_front size word tail wide,
        number_of-number_bytes size v this,
        read_array-array_bytes size vs rest others,
      )
      refl

read_counted :
    (n size : ℕ) (vs rest : List ℕ)
    → length vs ≡ n
    → Every vs (λ v. v < 256 ^ size)
    → read_array n size (array_bytes size vs ++ rest) ≡ vs
read_counted n size vs rest e fit = rw (← e) (read_array-array_bytes size vs rest fit)

pub length-array_bytes : (size : ℕ) (vs : List ℕ) → length (array_bytes size vs) ≡ size * length vs
unfolding array_bytes
length-array_bytes size [] = grind arith
length-array_bytes size (v ∷ vs) = grind (
  arith,
  length-array_bytes size vs,
  length-number_bytes size v,
  length-append (number_bytes size v) (array_bytes size vs),
)

-- What makes the fields of an initialiser readable: types of one, two or four bytes' alignment, as
-- many numbers as the declaration says, and numbers that fit.
pub record IsInitialised (i : Initialised) : Type 0 where
  pub align_small : (i.field.align ≡ 1) ⊎ (i.field.align ≡ 2) ⊎ (i.field.align ≡ 4)
  pub counted : length i.values ≡ i.field.count
  pub fit : Every i.values (λ v. v < 256 ^ i.field.size)

aligned-le :
    (align offset : ℕ) → (align ≡ 1) ⊎ (align ≡ 2) ⊎ (align ≡ 4) → offset ≤ aligned align offset
aligned-le align offset h = ground arith

abbrev pub fields_of : List Initialised → List Field
fields_of [] = []
fields_of (i ∷ is) = i.field ∷ fields_of is

abbrev pub values_of : List Initialised → List (List ℕ)
values_of [] = []
values_of (i ∷ is) = i.values ∷ values_of is

-- The fields of an image are read back at the places that the layout gives them.
pub read_fields-image :
    (is : List Initialised) (offset : ℕ) (before : List ℕ)
    → length before ≡ offset
    → Every is IsInitialised
    → read_fields
        (before ++ image_from offset is)
        (fields_of is)
        (ranges_from offset (fields_of is))
      ≡ values_of is
unfolding read_fields image_from ranges_from
read_fields-image [] offset before e _ = refl
read_fields-image (i ∷ is) offset before e (this, others) =
    let first = aligned i.field.align offset in
    let zeros = replicate (first - offset) 0 in
    let own = array_bytes i.field.size i.values in
    let after = first + i.field.size * i.field.count in
    let rest = image_from after is in
    let at_first : length (before ++ zeros) ≡ first = omega (
      arith,
      length-append before zeros,
      length-replicate {A = ℕ} (first - offset) 0,
      aligned-le i.field.align offset this.align_small,
    ) in
    let at_own : length own ≡ i.field.size * i.field.count =
      rw (← this.counted) (length-array_bytes i.field.size i.values) in
    let at_after : length (before ++ zeros ++ own) ≡ after =
      omega (arith, at_first, length-append (before ++ zeros) own, at_own) in
    let split : before ++ (zeros ++ own ++ rest) ≡ before ++ zeros ++ (own ++ rest) =
      rw (append_assoc zeros own rest, append_assoc before zeros (own ++ rest)) refl in
    let split_after : before ++ (zeros ++ own ++ rest) ≡ before ++ zeros ++ own ++ rest =
      rw (split, append_assoc (before ++ zeros) own rest) refl in
    let here : read_array i.field.count i.field.size (drop first (before ++ (zeros ++ own ++ rest)))
        ≡ i.values =
      rw (split, drop_front first (before ++ zeros) (own ++ rest) at_first)
        (read_counted i.field.count i.field.size i.values rest this.counted this.fit) in
    let later = read_fields-image is after (before ++ zeros ++ own) at_after others in
    let whole =
      ap (λ image. read_fields image (fields_of is) (ranges_from after (fields_of is))) split_after
      ∙ later in
    ap
      (λ values.
        values
        ∷ read_fields (before ++ (zeros ++ own ++ rest)) (fields_of is)
            (ranges_from after (fields_of is)))
      here
    ∙ ap (λ others. i.values ∷ others) whole
