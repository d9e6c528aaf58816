-- ===== src/Numa/Text/Reads.antt =====
-- CPU lists as they are written, and that the parser reads them.
use rsmalloc.Common.{
  ℕ, zero, suc, ◌+◌, ◌-◌, ◌*◌, ◌^◌, ◌≤◌, ◌<◌, ◌≡◌, refl, true, false, some, List, [], ◌∷◌, All,
  length, map, leb, ltb, arith,
}
use rsmalloc.Word.{checked_add, checked_mul}
use rsmalloc.Numa.{NumberRange}
use rsmalloc.Numa.Text.{
  is_ascii_whitespace, is_ascii_digit, skip_ascii_whitespace, parse_digits, parse_usize,
  parse_comma, parse_item, parse_items, parse_number_ranges,
}

-- The number that digits stand for, after a number read before them.
abbrev pub value : (n : ℕ) → (digits : List ℕ) → ℕ
value n [] = n
value n (d ∷ digits) = value (n * 10 + d) digits

abbrev pub bytes_of : List ℕ → List ℕ → List ℕ
bytes_of [] rest = rest
bytes_of (d ∷ digits) rest = (d + 48) ∷ bytes_of digits rest

-- What follows a number is not a digit.
abbrev pub Stops : List ℕ → Type 0
Stops [] = Unit
Stops (b ∷ bytes) = is_ascii_digit b ≡ false

value-grows : (n : ℕ) (digits : List ℕ) → n ≤ value n digits
value-grows n [] = omega arith
value-grows n (d ∷ digits) = let later = value-grows (n * 10 + d) digits in omega (arith, later)

parse_digits-value :
    (n : ℕ) (digits rest : List ℕ)
    → All (λ d. d < 10) digits
    → value n digits < 2 ^ 64
    → Stops rest
    → parse_digits n true (bytes_of digits rest) ≡ some (value n digits, rest)
unfolding parse_digits checked_add checked_mul
parse_digits-value n [] [] small fits stops = refl
parse_digits-value n [] (b ∷ bytes) small fits stops = rw stops refl
parse_digits-value n (d ∷ digits) rest (low, small) fits stops =
    let digit : is_ascii_digit (d + 48) ≡ true = ground (arith, low) in
    let grows = value-grows (n * 10 + d) digits in
    let tens : ltb (n * 10) (2 ^ 64) ≡ true = ground (arith, grows, fits) in
    let back : d + 48 - 48 ≡ d = omega arith in
    let sum : ltb (n * 10 + d) (2 ^ 64) ≡ true = ground (arith, grows, fits) in
    rw (digit, tens, back, sum) (parse_digits-value (n * 10 + d) digits rest small fits stops)

-- A range as it is written: the digits of its ends.
abbrev pub Written : Type 0
Written = (ℕ × List ℕ) × (ℕ × List ℕ)

abbrev pub range_of : Written → NumberRange
range_of ((d, ds), (e, es)) = record { start = value 0 (d ∷ ds); end = value 0 (e ∷ es) }

-- The text of the items: `start-end`, with a comma before each item but the first.
abbrev pub item_text : Written → List ℕ → List ℕ
item_text ((d, ds), (e, es)) rest = bytes_of (d ∷ ds) (45 ∷ bytes_of (e ∷ es) rest)

abbrev pub tail_text : List Written → List ℕ
tail_text [] = []
tail_text (w ∷ ws) = 44 ∷ item_text w (tail_text ws)

-- Digits below 10, ends below 2 ^ 64, and the start not after the end.
abbrev pub Proper : Written → Type 0
Proper ((d, ds), (e, es)) =
    All (λ x. x < 10) (d ∷ ds)
    × All (λ x. x < 10) (e ∷ es)
    × (value 0 (d ∷ ds) ≤ value 0 (e ∷ es))
    × (value 0 (e ∷ es) < 2 ^ 64)

parse_usize-value :
    (d : ℕ) (ds rest : List ℕ)
    → All (λ x. x < 10) (d ∷ ds)
    → value 0 (d ∷ ds) < 2 ^ 64
    → Stops rest
    → parse_usize (bytes_of (d ∷ ds) rest) ≡ some (value 0 (d ∷ ds), rest)
unfolding parse_digits checked_add checked_mul
parse_usize-value d ds rest (low, small) fits stops =
    let digit : is_ascii_digit (d + 48) ≡ true = ground (arith, low) in
    let back : d + 48 - 48 ≡ d = omega arith in
    let sum : ltb (0 * 10 + d) (2 ^ 64) ≡ true = ground (arith, low) in
    rw (digit, back, sum) (parse_digits-value (0 * 10 + d) ds rest small fits stops)

-- No white space is skipped before a digit.
skip-digit :
    (d : ℕ) (bytes : List ℕ) → d < 10 → skip_ascii_whitespace ((d + 48) ∷ bytes) ≡ (d + 48) ∷ bytes
unfolding skip_ascii_whitespace
skip-digit d bytes low =
    let other : is_ascii_whitespace (d + 48) ≡ false = ground (arith, low) in rw other refl

-- The items without the comma before them.
abbrev pub text : List Written → List ℕ
text [] = []
text (w ∷ ws) = item_text w (tail_text ws)

parse_comma-text :
    (ws : List Written)
    → All Proper ws
    → parse_comma (skip_ascii_whitespace (tail_text ws)) ≡ some (text ws)
unfolding skip_ascii_whitespace
parse_comma-text [] proper = refl
parse_comma-text (((d, ds), (e, es)) ∷ ws) (((low, small), end, order, fits), proper) =
    let other : is_ascii_whitespace (d + 48) ≡ false = ground (arith, low) in rw other refl

tail_text-Stops : (ws : List Written) → Stops (tail_text ws)
tail_text-Stops [] = tt
tail_text-Stops (w ∷ ws) = refl

parse_item-text :
    (w : Written) (ws : List Written)
    → Proper w
    → All Proper ws
    → parse_item (text (w ∷ ws)) ≡ some (range_of w, text ws)
unfolding parse_item
parse_item-text ((d, ds), (e, es)) ws ((low, ds_small), (low', es_small), order, fits) proper =
    let tail = bytes_of (e ∷ es) (tail_text ws) in
    let first : parse_usize (bytes_of (d ∷ ds) (45 ∷ tail)) ≡ some (value 0 (d ∷ ds), 45 ∷ tail) =
      parse_usize-value d ds (45 ∷ tail) (low, ds_small) (omega (arith, order, fits)) refl in
    let dash : skip_ascii_whitespace (45 ∷ tail) ≡ 45 ∷ tail =
      unfold skip_ascii_whitespace in refl in
    let skipped : skip_ascii_whitespace tail ≡ tail =
      skip-digit e (bytes_of es (tail_text ws)) low' in
    let second : parse_usize tail ≡ some (value 0 (e ∷ es), tail_text ws) =
      parse_usize-value e es (tail_text ws) (low', es_small) fits (tail_text-Stops ws) in
    let comma = parse_comma-text ws proper in
    let ordered : leb (value 0 (d ∷ ds)) (value 0 (e ∷ es)) ≡ true = ground (arith, order) in
    rw (first, dash, skipped, second, comma, ordered) refl

length-bytes_of : (ds rest : List ℕ) → length rest ≤ length (bytes_of ds rest)
length-bytes_of [] rest = omega arith
length-bytes_of (d ∷ ds) rest = let shorter = length-bytes_of ds rest in omega (arith, shorter)

length-item_text : (w : Written) (rest : List ℕ) → suc (length rest) ≤ length (item_text w rest)
length-item_text ((d, ds), (e, es)) rest =
    let one = length-bytes_of ds (45 ∷ bytes_of (e ∷ es) rest) in
    let two = length-bytes_of es rest in omega (arith, one, two)

skip-text : (ws : List Written) → All Proper ws → skip_ascii_whitespace (text ws) ≡ text ws
unfolding skip_ascii_whitespace
skip-text [] proper = refl
skip-text (((d, ds), (e, es)) ∷ ws) (((low, small), end, order, fits), proper) =
    skip-digit d (bytes_of ds (45 ∷ bytes_of (e ∷ es) (tail_text ws))) low

length-tail_text : (ws : List Written) → length ws ≤ length (tail_text ws)
length-tail_text [] = omega arith
length-tail_text (w ∷ ws) =
    let shorter = length-tail_text ws in
    let item = length-item_text w (tail_text ws) in omega (arith, shorter, item)

length-text : (ws : List Written) → length ws ≤ length (text ws)
length-text [] = omega arith
length-text (w ∷ ws) =
    let shorter = length-tail_text ws in
    let item = length-item_text w (tail_text ws) in omega (arith, shorter, item)

parse_items-fuel :
    (fuel : ℕ) (ws : List Written)
    → length ws ≤ fuel
    → All Proper ws
    → parse_items fuel (text ws) ≡ some (map range_of ws)
unfolding parse_items
parse_items-fuel zero [] enough proper = refl
parse_items-fuel (suc fuel) [] enough proper = refl
parse_items-fuel zero (w ∷ ws) enough proper = absurd (omega (arith, enough))
parse_items-fuel (suc fuel) (((d, ds), (e, es)) ∷ ws) enough (one, proper) =
    let item = parse_item-text ((d, ds), (e, es)) ws one proper in
    let skip = skip-text ws proper in
    let later = parse_items-fuel fuel ws (omega (arith, enough)) proper in
    rw (item, skip, later) refl

-- Ranges written as decimal digits, a dash and decimal digits, with commas between them, each with its start not
-- after its end and its end below 2 ^ 64, are read back as exactly these ranges, in order; the
-- number of bytes is enough fuel.
pub parse_number_ranges-text :
    (ws : List Written) → All Proper ws → parse_number_ranges (text ws) ≡ some (map range_of ws)
unfolding parse_number_ranges
parse_number_ranges-text ws proper =
    let skip = skip-text ws proper in
    let all = parse_items-fuel (length (text ws)) ws (length-text ws) proper in rw (skip, all) refl
