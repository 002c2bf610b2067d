-- ===== src/Littlefs/Print.antt =====
-- The printed pattern, `print_pattern` of app/demos/littlefs/src/main.c.
use zephyr_start.Base.{
  List, [], ap, append-nil, arith, get_or, if◌then◌else◌, length, refl, suc, sym, zero, ℕ, ◌%◌, ◌*◌,
  ◌++◌, ◌+◌, ◌-◌, ◌/◌, ◌==◌, ◌∙◌, ◌∷◌, ◌≡◌,
}
use native.Mathlib.Nat.{zero-add, suc-add}
use mathlib.Core.Path.{ap₂}

-- A byte as `%02x `, or a line break.
pub data Token : Type 0 where
  hex : ℕ → Token
  newline : Token

-- `n` bytes from index `i` on.
unfoldable pub hexes_from : ℕ → ℕ → List ℕ → List Token
hexes_from zero i p = []
hexes_from (suc n) i p = hex (get_or p i 0) ∷ hexes_from n (i + 1) p

-- The rows left of 16 bytes each, with an empty line after each 32 rows.
unfoldable pub print_rows : ℕ → ℕ → ℕ → List ℕ → List Token
unfolding hexes_from
print_rows zero k i p = []
print_rows (suc rows) k i p =
    hexes_from 16 i p
    ++ (newline
        ∷ ((if (k + 1) % 32 == 0 then newline ∷ [] else []) ++ print_rows rows (k + 1) (i + 16) p))

unfoldable pub print_pattern : List ℕ → ℕ → List Token
unfolding print_rows hexes_from
print_pattern p size =
    let j = size / 16 in
    print_rows j 0 0 p ++ (hexes_from (size - j * 16) (j * 16) p ++ (newline ∷ []))

-- The bytes that are printed.
pub printed : List Token → List ℕ
printed [] = []
printed (hex x ∷ ts) = x ∷ printed ts
printed (newline ∷ ts) = printed ts

printed-append : (xs ys : List Token) → printed (xs ++ ys) ≡ printed xs ++ printed ys
unfolding printed
printed-append [] ys = refl
printed-append (hex x ∷ xs) ys = ap (λ r. x ∷ r) (printed-append xs ys)
printed-append (newline ∷ xs) ys = printed-append xs ys

-- `n` elements from index `i` on.
slice : ℕ → ℕ → List ℕ → List ℕ
slice zero i p = []
slice (suc n) i p = get_or p i 0 ∷ slice n (i + 1) p

printed-hexes_from : (n i : ℕ) (p : List ℕ) → printed (hexes_from n i p) ≡ slice n i p
unfolding printed hexes_from slice
printed-hexes_from zero i p = refl
printed-hexes_from (suc n) i p = ap (λ r. get_or p i 0 ∷ r) (printed-hexes_from n (i + 1) p)

slice-append : (m n i : ℕ) (p : List ℕ) → slice (m + n) i p ≡ slice m i p ++ slice n (i + m) p
unfolding slice
slice-append zero n i p = rw zero-add (ap (λ k. slice n k p) (omega arith))
slice-append (suc m) n i p = rw suc-add (
    ap (λ r. get_or p i 0 ∷ r)
      (slice-append m n (i + 1) p ∙ ap (λ k. slice m (i + 1) p ++ slice n k p) (omega arith)))

slice-suc : (n i x : ℕ) (p : List ℕ) → slice n (suc i) (x ∷ p) ≡ slice n i p
unfolding slice
slice-suc zero i x p = refl
slice-suc (suc n) i x p =
    ap (λ r. get_or p i 0 ∷ r) (ap (λ k. slice n k (x ∷ p)) (omega arith) ∙ slice-suc n (i + 1) x p)

slice-all : (p : List ℕ) → slice (length p) 0 p ≡ p
unfolding slice
slice-all [] = refl
slice-all (x ∷ p) =
    ap (λ r. x ∷ r)
      (ap (λ k. slice (length p) k (x ∷ p)) (omega arith)
        ∙ (slice-suc (length p) 0 x p ∙ slice-all p))

breaks :
    (k : ℕ) (ts : List Token)
    → printed (newline ∷ ((if (k + 1) % 32 == 0 then newline ∷ [] else []) ++ ts)) ≡ printed ts
unfolding printed
breaks k ts = ground arith

printed-print_rows :
    (rows k i : ℕ) (p : List ℕ) → printed (print_rows rows k i p) ≡ slice (rows * 16) i p
unfolding print_rows printed slice
printed-print_rows zero k i p = refl
printed-print_rows (suc rows) k i p =
    printed-append (hexes_from 16 i p) (
      newline
      ∷ ((if (k + 1) % 32 == 0 then newline ∷ [] else []) ++ print_rows rows (k + 1) (i + 16) p))
    ∙ (ap₂ ◌++◌ (printed-hexes_from 16 i p) (
          breaks k (print_rows rows (k + 1) (i + 16) p)
          ∙ printed-print_rows rows (k + 1) (i + 16) p)
        ∙ (sym (slice-append 16 (rows * 16) i p) ∙ ap (λ n. slice n i p) (omega arith)))

-- The bytes that are printed are those of the array, each once and in order.
pub print_pattern_lem : (p : List ℕ) → printed (print_pattern p (length p)) ≡ p
unfolding print_pattern printed
print_pattern_lem p =
    let j = length p / 16 in
    printed-append (print_rows j 0 0 p)
      (hexes_from (length p - j * 16) (j * 16) p ++ (newline ∷ []))
    ∙ (ap₂ ◌++◌ (printed-print_rows j 0 0 p) (
          printed-append (hexes_from (length p - j * 16) (j * 16) p) (newline ∷ [])
          ∙ (append-nil (printed (hexes_from (length p - j * 16) (j * 16) p))
              ∙ printed-hexes_from (length p - j * 16) (j * 16) p))
        ∙ (ap (λ k. slice (j * 16) 0 p ++ slice (length p - j * 16) k p) (sym (zero-add (j * 16)))
            ∙ (sym (slice-append (j * 16) (length p - j * 16) 0 p)
                ∙ (ap (λ n. slice n 0 p) (omega arith) ∙ slice-all p))))
