-- ===== src/Buddy/Region/Bitmap.antt =====
-- The free bitmap of a region, read back after `push_free_block` and `remove_free_block`.
use rsmalloc.Common.{
  ℕ, ◌-◌, ◌/◌, ◌%◌, ◌^◌, ◌≤◌, ◌<◌, ◌≡◌, ◌&&◌, arith, ◌==◌, if◌then◌else◌, one-le-pow,
}
use native.Mathlib.Nat.{pow-le-pow_right}
use rsmalloc.Common.Bits.{
  digit, digit-lt, digit-bit_and, digit-bit_or, digit-pow, digit_not, bit_and-pow, bit_and_low_mask,
}
use rsmalloc.Buddy.Region.{
  Region, FreeBlock, order_index, block_number, block_is_free, set_bit, clear_bit,
  mark_order_nonempty, mark_order_empty_if_needed, push_free_block, remove_free_block,
}

word_bit-lt : (n : ℕ) → 2 ^ (n % 64) < 2 ^ 64
word_bit-lt n =
    let le : 2 ^ (n % 64) ≤ 2 ^ 63 =
      pow-le-pow_right {n = 2} (omega arith) {j = 63} (omega arith) in
    omega arith

-- Bit `n` of a bitmap of 64-bit words.
abbrev pub bit_of : (ℕ → ℕ) → ℕ → ℕ
bit_of bitmap n = digit (bitmap (n / 64)) (n % 64)

bit_of-set_bit :
    (bitmap : ℕ → ℕ) (n m : ℕ)
    → bit_of (set_bit bitmap (n / 64, 2 ^ (n % 64))) m ≡ (if n == m then 1 else bit_of bitmap m)
unfolding set_bit
bit_of-set_bit bitmap n m = ground (
  arith,
  digit-bit_or (bitmap (n / 64)) (2 ^ (n % 64)) (m % 64),
  digit-pow (n % 64) (m % 64),
  digit-lt (bitmap (n / 64)) (m % 64),
)

bit_of-clear_bit :
    (bitmap : ℕ → ℕ) (n m : ℕ)
    → bit_of (clear_bit bitmap (n / 64, 2 ^ (n % 64))) m ≡ (if n == m then 0 else bit_of bitmap m)
unfolding clear_bit
bit_of-clear_bit bitmap n m = ground (
  arith,
  digit-bit_and (bitmap (n / 64)) (2 ^ 64 - 1 - 2 ^ (n % 64)) (m % 64),
  digit_not 64 (2 ^ (n % 64)) (m % 64) (word_bit-lt n) (omega arith),
  digit-pow (n % 64) (m % 64),
  digit-lt (bitmap (n / 64)) (m % 64),
)

-- What `block_is_free` reads.
abbrev pub free_bit : Region → ℕ → ℕ → ℕ
free_bit r order n = bit_of (r.free_bitmap (order_index order)) n

pub block_is_free-bit :
    (r : Region) (addr order : ℕ)
    → block_is_free r addr order ≡ (free_bit r order (block_number r addr order) == 1)
unfolding block_is_free
block_is_free-bit r addr order =
    let n : ℕ = block_number r addr order in
    let word : ℕ = r.free_bitmap (order_index order) (n / 64) in
    rw (bit_and_low_mask 6 n)
      (ground (arith, bit_and-pow word (n % 64), digit-lt word (n % 64), one-le-pow (n % 64) 2))

module _ (r : Region) (order : ℕ) where
  -- After a push the bit of the pushed block is set, and every other bit is as it was.
  pub free_bit-push :
      (block : FreeBlock) (o m : ℕ)
      → free_bit (push_free_block r order block) o m ≡ (
          if (order_index order == order_index o) && (block_number r block.addr order == m)
          then 1
          else free_bit r o m)
  unfolding push_free_block mark_order_nonempty
  free_bit-push block o m =
      let n : ℕ = block_number r block.addr order in
      rw (bit_and_low_mask 6 n)
        (ground (arith, bit_of-set_bit (r.free_bitmap (order_index order)) n m))

  -- After a removal the bit of the removed block is clear, and every other bit is as it was.
  pub free_bit-remove :
      (addr o m : ℕ)
      → free_bit (remove_free_block r order addr) o m ≡ (
          if (order_index order == order_index o) && (block_number r addr order == m)
          then 0
          else free_bit r o m)
  unfolding remove_free_block mark_order_empty_if_needed
  free_bit-remove addr o m =
      let n : ℕ = block_number r addr order in
      rw (bit_and_low_mask 6 n)
        (ground (arith, bit_of-clear_bit (r.free_bitmap (order_index order)) n m))
