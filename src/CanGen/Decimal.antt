-- ===== src/CanGen/Decimal.antt =====
-- What the period check accepts.
use zephyr_start.Base.{
  Every, List, [], arith, false, if◌then◌else◌, is_nil, leb, ltb, none, not, refl, some, ℕ, ◌&&◌,
  ◌*◌, ◌+◌, ◌-◌, ◌||◌, ◌∷◌, ◌≡◌, ◌≤◌,
}
use zephyr_start.CanGen.Parse.{
  convert, max_period_ms, min_period_ms, parse_period_ms, run_digits, signed, skip_spaces, strtoul,
  subject,
}

abbrev pub IsDigit : ℕ → Type 0
IsDigit c = (48 ≤ c) × (c ≤ 57)

-- The number that a text of digits stands for, after the digits of `acc`.
unfoldable pub number_from : ℕ → List ℕ → ℕ
number_from acc [] = acc
number_from acc (c ∷ s) = number_from (acc * 10 + (c - 48)) s

run_digits-Every :
    (acc : ℕ) (s : List ℕ) → Every s IsDigit → run_digits acc s ≡ (number_from acc s, [])
unfolding run_digits number_from
run_digits-Every acc [] h = refl
run_digits-Every acc (c ∷ s) h = ground (arith, run_digits-Every (acc * 10 + (c - 48)) s h.1)

skip_spaces-digit : (c : ℕ) (s : List ℕ) → IsDigit c → skip_spaces (c ∷ s) ≡ c ∷ s
unfolding skip_spaces
skip_spaces-digit c s h = ground arith

strtoul-digits :
    (c : ℕ) (s : List ℕ)
    → Every (c ∷ s) IsDigit
    → strtoul (c ∷ s) ≡ convert false (number_from 0 (c ∷ s), [])
unfolding strtoul signed subject
strtoul-digits c s h = ground (arith, skip_spaces-digit c s h.0, run_digits-Every 0 (c ∷ s) h)

period-of :
    (v : ℕ)
    → (let r = convert false (v, []) in
        if r.errno || not (is_nil r.end) || ltb r.parsed min_period_ms || ltb max_period_ms r.parsed
        then none
        else some r.parsed)
      ≡ (if leb 20 v && leb v 5000 then some v else none)
unfolding convert
period-of v = ground arith

-- On a text of decimal digits, of any length, the check accepts exactly the numbers from 20 to
-- 5000, and gives the number that the text stands for.
pub parse_period_ms-digits :
    (s : List ℕ)
    → Every s IsDigit
    → parse_period_ms s ≡ (
        if leb 20 (number_from 0 s) && leb (number_from 0 s) 5000
        then some (number_from 0 s)
        else none)
unfolding parse_period_ms strtoul signed subject convert number_from
parse_period_ms-digits [] h = refl
parse_period_ms-digits (c ∷ s) h = rw (strtoul-digits c s h) (period-of (number_from 0 (c ∷ s)))

-- Whatever the text, an accepted period is from 20 to 5000.
pub parse_period_ms-bounds :
    (s : List ℕ) {v : ℕ} → parse_period_ms s ≡ some v → (20 ≤ v) × (v ≤ 5000)
unfolding parse_period_ms
parse_period_ms-bounds s h = ground arith
