-- ===== src/CanGen/Parse.antt =====
-- `strtoul` of the C library at base 10, on a machine whose `unsigned long` has 32 bits, and the
-- two checks of arguments in app/demos/frdm_can_traffic_generator/src/main.c.
use zephyr_start.Base.{
  Bool, List, Option, [], false, if◌then◌else◌, is_nil, leb, ltb, none, not, some, true, ℕ, ◌%◌,
  ◌&&◌, ◌*◌, ◌+◌, ◌-◌, ◌==◌, ◌^◌, ◌||◌, ◌∷◌,
}

-- A C string is the list of its characters before the terminating NUL.
abbrev pub is_space : ℕ → Bool
is_space c = c == 32 || (leb 9 c && leb c 13)

abbrev pub is_digit : ℕ → Bool
is_digit c = leb 48 c && leb c 57

unfoldable pub skip_spaces : List ℕ → List ℕ
skip_spaces [] = []
skip_spaces (c ∷ s) = let rest = skip_spaces s in if is_space c then rest else c ∷ s

-- The value of the longest run of digits, and what follows it.
unfoldable pub run_digits : ℕ → List ℕ → ℕ × List ℕ
run_digits acc [] = (acc, [])
run_digits acc (c ∷ s) =
    let rest = run_digits (acc * 10 + (c - 48)) s in if is_digit c then rest else (acc, c ∷ s)

-- What a call leaves: the value, the text at `end`, and whether `errno` is set.
pub record Strtoul : Type 0 where
  pub parsed : ℕ
  pub end : List ℕ
  pub errno : Bool

abbrev pub ulong_max : ℕ
ulong_max = 2 ^ 32 - 1

-- Out of range is ULONG_MAX with ERANGE; a minus sign negates in the unsigned type.
unfoldable pub convert : Bool → ℕ × List ℕ → Strtoul
convert minus (v, rest) =
    if ltb ulong_max v
    then (record { parsed = ulong_max; end = rest; errno = true })
    else (record { parsed = if minus then (2 ^ 32 - v) % 2 ^ 32 else v; end = rest; errno = false })

starts_with_digit : List ℕ → Bool
starts_with_digit [] = false
starts_with_digit (c ∷ s) = is_digit c

-- With no digit nothing is converted, and `end` is the whole text.
unfoldable pub subject : List ℕ → Bool → List ℕ → Strtoul
unfolding starts_with_digit run_digits convert
subject text minus s =
    if starts_with_digit s
    then convert minus (run_digits 0 s)
    else (record { parsed = 0; end = text; errno = false })

unfoldable pub signed : List ℕ → List ℕ → Strtoul
unfolding subject
signed text [] = subject text false []
signed text (c ∷ s) =
    if c == 45
    then subject text true s
    else (if c == 43 then subject text false s else subject text false (c ∷ s))

unfoldable pub strtoul : List ℕ → Strtoul
unfolding signed skip_spaces
strtoul text = signed text (skip_spaces text)

abbrev pub min_period_ms : ℕ
min_period_ms = 20

abbrev pub max_period_ms : ℕ
max_period_ms = 5000

-- `none` stands for the result -EINVAL, `some value` for 0 with `*value` written.
unfoldable pub parse_period_ms : List ℕ → Option ℕ
unfolding strtoul
parse_period_ms text =
    let r = strtoul text in
    if r.errno || not (is_nil r.end) || ltb r.parsed min_period_ms || ltb max_period_ms r.parsed
    then none
    else some r.parsed

-- The check of the argument of `can_gen burst`.
unfoldable pub parse_count : List ℕ → Option ℕ
unfolding strtoul
parse_count text =
    let r = strtoul text in
    if r.errno || not (is_nil r.end) || r.parsed == 0 || ltb 1000 r.parsed
    then none
    else some r.parsed
