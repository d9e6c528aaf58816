-- ===== src/Word.antt =====
-- The operations of the language on `usize` that the allocator uses: counts of zero bits, powers of
-- two, checked sums and products. Values are natural numbers, below 2 ^ 64 where the code has them.
pub mod Log
use rsmalloc.Common.{
  ℕ, zero, suc, ◌+◌, ◌-◌, ◌*◌, ◌/◌, ◌%◌, ◌^◌, min, bit_and, Bool, not, ◌&&◌, Option, none, some,
  ltb, leb, ◌==◌, if◌then◌else◌,
}

-- The bits of a number up to its highest one, for numbers of at most `fuel` bits.
pub bit_length : ℕ → ℕ → ℕ
bit_length zero n = 0
bit_length (suc fuel) n = if n == 0 then 0 else suc (bit_length fuel (n / 2))

-- `leading_zeros`
unfoldable pub leading_zeros : ℕ → ℕ
unfolding bit_length
leading_zeros n = 64 - bit_length 64 n

-- The zeros below the lowest one, at most `fuel`.
low_zeros : ℕ → ℕ → ℕ
low_zeros zero n = 0
low_zeros (suc fuel) n = if n % 2 == 1 then 0 else suc (low_zeros fuel (n / 2))

-- `trailing_zeros`
unfoldable pub trailing_zeros : ℕ → ℕ
unfolding low_zeros
trailing_zeros n = low_zeros 64 n

-- The least exponent from `k` on whose power of two reaches `n`.
unfoldable pub next_exponent : ℕ → ℕ → ℕ → ℕ
next_exponent zero k n = k
next_exponent (suc fuel) k n =
    let rest = next_exponent fuel (k + 1) n in if leb n (2 ^ k) then k else rest

-- `next_power_of_two`; 64 rounds reach 2 ^ 64.
unfoldable pub next_power_of_two : ℕ → ℕ
next_power_of_two n = 2 ^ next_exponent 64 0 n

-- `checked_next_power_of_two`
unfoldable pub checked_next_power_of_two : ℕ → Option ℕ
checked_next_power_of_two n = if leb n (2 ^ 63) then some (next_power_of_two n) else none

-- `checked_add`
unfoldable pub checked_add : ℕ → ℕ → Option ℕ
checked_add a b = if ltb (a + b) (2 ^ 64) then some (a + b) else none

-- `checked_mul`
unfoldable pub checked_mul : ℕ → ℕ → Option ℕ
checked_mul a b = if ltb (a * b) (2 ^ 64) then some (a * b) else none

-- `is_power_of_two`: not zero, and no bit left without the lowest
unfoldable pub is_power_of_two : ℕ → Bool
is_power_of_two n = not (n == 0) && (bit_and n (n - 1) == 0)

-- `saturating_add`, `saturating_sub` (subtraction stops at 0) and `saturating_mul`
abbrev pub saturating_add : ℕ → ℕ → ℕ
saturating_add a b = min (a + b) (2 ^ 64 - 1)

abbrev pub saturating_mul : ℕ → ℕ → ℕ
saturating_mul a b = min (a * b) (2 ^ 64 - 1)
