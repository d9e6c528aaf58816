-- ===== src/Numa/Text.antt =====
-- The parser of CPU lists of internals/numa_parser.rs, on the bytes that are left.
pub mod Reads
use rsmalloc.Common.{
  length, ℕ, zero, suc, ◌+◌, ◌-◌, Bool, true, false, ◌&&◌, ◌||◌, Option, none, some, List, [], ◌∷◌,
  ◌>>=◌, leb, ◌==◌, if◌then◌else◌,
}
use rsmalloc.Word.{checked_add, checked_mul}
use rsmalloc.Numa.{NumberRange, new_range}

abbrev pub is_ascii_whitespace : ℕ → Bool
is_ascii_whitespace b = (b == 32) || (b == 9) || (b == 10) || (b == 12) || (b == 13)

abbrev pub is_ascii_digit : ℕ → Bool
is_ascii_digit b = leb 48 b && leb b 57

-- `skip_ascii_whitespace`
unfoldable pub skip_ascii_whitespace : List ℕ → List ℕ
skip_ascii_whitespace [] = []
skip_ascii_whitespace (b ∷ bytes) =
    let rest = skip_ascii_whitespace bytes in if is_ascii_whitespace b then rest else b ∷ bytes

-- The loop of `parse_usize`: the number, and the bytes after it.
unfoldable pub parse_digits : (n : ℕ) → (parsed_digit : Bool) → List ℕ → Option (ℕ × List ℕ)
parse_digits n parsed_digit [] = if parsed_digit then some (n, []) else none
parse_digits n parsed_digit (b ∷ bytes) =
    if is_ascii_digit b
    then ((checked_mul n 10 >>= λ tens. checked_add tens (b - 48)) >>= λ m.
        parse_digits m true bytes)
    else if parsed_digit
    then some (n, b ∷ bytes)
    else none

-- `parse_usize`
abbrev pub parse_usize : List ℕ → Option (ℕ × List ℕ)
parse_usize bytes = parse_digits 0 false bytes

-- The end of a range, or its start where there is no `-`.
abbrev pub parse_end : (start : ℕ) → List ℕ → Option (ℕ × List ℕ)
parse_end start [] = some (start, [])
parse_end start (b ∷ bytes) =
    if b == 45 then parse_usize (skip_ascii_whitespace bytes) else some (start, b ∷ bytes)

-- The comma after an item, with something behind it; `none` is `ParseListError`.
abbrev pub more_items : List ℕ → Option (List ℕ)
more_items [] = none
more_items (b ∷ bytes) = some (b ∷ bytes)

abbrev pub parse_comma : List ℕ → Option (List ℕ)
parse_comma [] = some []
parse_comma (b ∷ bytes) = if b == 44 then more_items (skip_ascii_whitespace bytes) else none

-- `parse_range` of bytes that are not at their end
unfoldable pub parse_item : List ℕ → Option (NumberRange × List ℕ)
parse_item bytes = do
  (start, after_start) ← parse_usize bytes
  (end, after_end) ← parse_end start (skip_ascii_whitespace after_start)
  rest ← parse_comma (skip_ascii_whitespace after_end)
  range ← new_range start end
  some (range, rest)

-- The items after the white space before each; each item takes a byte, so the number of bytes is enough fuel.
unfoldable pub parse_items : (fuel : ℕ) → List ℕ → Option (List NumberRange)
parse_items fuel [] = some []
parse_items zero (b ∷ bytes) = none
parse_items (suc fuel) (b ∷ bytes) = do
  (range, rest) ← parse_item (b ∷ bytes)
  ranges ← parse_items fuel (skip_ascii_whitespace rest)
  some (range ∷ ranges)

-- All items of `parse_number_ranges`, of which `collect` makes a `Result`
unfoldable pub parse_number_ranges : List ℕ → Option (List NumberRange)
parse_number_ranges bytes = parse_items (length bytes) (skip_ascii_whitespace bytes)
