-- ===== src/Radix/Leaf.antt =====
-- A leaf of the radix tree as a row of bits: what `Radix::set_range` writes into one leaf.
use rsmalloc.Common.{
  ℕ, zero, suc, ◌+◌, ◌-◌, ◌/◌, ◌%◌, ◌^◌, ◌≤◌, ◌<◌, ◌≡◌, bit_and, Bool, true, false, ◌&&◌, arith,
  ltb, leb, ◌==◌, update, if◌then◌else◌, one-le-pow, Bool-cases, inl, inr,
}
use native.Mathlib.Nat.{pow-le-pow_right}
use rsmalloc.Common.Bits.{
  digit, digit-lt, digit-bit_and, digit-bit_or, digit_ones, digit_not, digit_high_ones,
  bit_and_low_mask,
}
use rsmalloc.Radix.{Leaf, write_mask, range_mask, write_words}

-- The bit of a chunk in its leaf.
abbrev pub leaf_bit : Leaf → ℕ → ℕ
leaf_bit l3 j = digit (l3 (j / 64)) (j % 64)

abbrev pub bit_value : Bool → ℕ
bit_value val = if val then 1 else 0

-- The bits of the mask are written, the others stay.
pub digit-write_mask :
    (word mask k : ℕ) (val : Bool)
    → mask < 2 ^ 64
    → k < 64
    → digit (write_mask word mask val) k
      ≡ (if digit mask k == 1 then bit_value val else digit word k)
digit-write_mask word mask k true h hk =
    ground (arith, digit-bit_or word mask k, digit-lt word k, digit-lt mask k)
digit-write_mask word mask k false h hk = ground (
  arith,
  digit-bit_and word (2 ^ 64 - 1 - mask) k,
  digit_not 64 mask k h hk,
  digit-lt word k,
  digit-lt mask k,
)

module _ (i3 leaf_end word : ℕ) where
  first_bit : ℕ
  first_bit = if word == i3 / 64 then i3 % 64 else 0

  last_bit : ℕ
  last_bit = if word == leaf_end / 64 then leaf_end % 64 else 63

  range_mask-ones :
      range_mask i3 leaf_end word ≡ bit_and (2 ^ 64 - 2 ^ first_bit) (2 ^ (last_bit + 1) - 1)
  unfolding range_mask first_bit last_bit
  range_mask-ones = elim (Bool-cases (last_bit == 63)) [
    | inl top ↦ let e : last_bit ≡ 63 = ground arith in rw (top, e)
    | inr low ↦ rw low
  ]

  range_mask-lt : range_mask i3 leaf_end word < 2 ^ 64
  unfolding last_bit
  range_mask-lt =
      let le : 2 ^ (last_bit + 1) ≤ 2 ^ 64 =
        pow-le-pow_right {n = 2} (omega arith) {j = 64} (ground arith) in
      rw (range_mask-ones, bit_and_low_mask (last_bit + 1) (2 ^ 64 - 2 ^ first_bit))
        (omega (arith, le, one-le-pow (last_bit + 1) 2 (omega arith)))

  digit-range_mask :
      (k : ℕ)
      → k < 64
      → digit (range_mask i3 leaf_end word) k ≡ (if leb first_bit k && leb k last_bit then 1 else 0)
  unfolding last_bit first_bit
  digit-range_mask k hk = rw range_mask-ones (
      ground (
        arith,
        digit-bit_and (2 ^ 64 - 2 ^ first_bit) (2 ^ (last_bit + 1) - 1) k,
        digit_high_ones 64 first_bit k,
        digit_ones (last_bit + 1) k,
      ))

write_words-at :
    (n : ℕ) (l3 : Leaf) (i3 leaf_end w : ℕ) (val : Bool) (v : ℕ)
    → write_words n l3 i3 leaf_end w val v ≡ (
        if leb w v && ltb v (w + n) then write_mask (l3 v) (range_mask i3 leaf_end v) val else l3 v)
unfolding write_words
write_words-at zero l3 i3 leaf_end w val v = ground arith
write_words-at (suc n) l3 i3 leaf_end w val v =
    let masked : ℕ = write_mask (l3 w) (range_mask i3 leaf_end w) val in
    rw (write_words-at n (update l3 w masked) i3 leaf_end (w + 1) val v)
      (elim (Bool-cases (w == v)) [
        | inl here ↦ let e : w ≡ v = ground arith in rw e (ground arith)
        | inr other ↦ ground arith
      ])

-- Writing a run of bits into a leaf writes those bits and no others.
pub leaf_bit-write_words :
    (l3 : Leaf) (i3 leaf_end : ℕ) (val : Bool) (j : ℕ)
    → i3 ≤ leaf_end
    → leaf_bit (write_words (leaf_end / 64 + 1 - i3 / 64) l3 i3 leaf_end (i3 / 64) val) j
      ≡ (if leb i3 j && leb j leaf_end then bit_value val else leaf_bit l3 j)
unfolding first_bit last_bit
leaf_bit-write_words l3 i3 leaf_end val j h =
    let word : ℕ = j / 64 in
    rw (write_words-at (leaf_end / 64 + 1 - i3 / 64) l3 i3 leaf_end (i3 / 64) val word) (
      ground (
        arith,
        digit-write_mask (l3 word) (range_mask i3 leaf_end word) (j % 64) val
            (range_mask-lt i3 leaf_end word),
        digit-range_mask i3 leaf_end word (j % 64),
      ))
