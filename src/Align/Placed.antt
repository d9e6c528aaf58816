-- ===== src/Align/Placed.antt =====
-- Where `posix_align_inner` puts an aligned block, and that `find_original_ptr` finds it again.
use rsmalloc.Common.{
  ℕ, ◌+◌, ◌-◌, ◌%◌, ◌^◌, ◌≤◌, ◌<◌, ◌≡◌, refl, max, Bool, true, false, Option, some, ltb, ◌==◌,
  update, if◌then◌else◌, arith, one-le-pow,
}
use native.Mathlib.Nat.{pow-le-pow_right, mod_self}
use native.Mathlib.Decide.{dec_le}
use rsmalloc.Common.Bits.{bit_and_low_mask}
use rsmalloc.Word.{checked_add, saturating_add, is_power_of_two}
use rsmalloc.SizeClass.{align_to}
use rsmalloc.SizeClass.Align.{align_to_bounds}
use rsmalloc.Align.{
  Memory, Aligned, placed, tag_size, offset_size, place, posix_align_inner, memalign_inner,
  find_original_ptr,
}

power-is_power_of_two : (k : ℕ) → is_power_of_two (2 ^ k) ≡ true
unfolding is_power_of_two
power-is_power_of_two k =
    ground (arith, bit_and_low_mask k (2 ^ k), mod_self (2 ^ k), one-le-pow k 2)

-- An aligned block of `size` bytes inside the block at `raw`.
pub record Inside (owned : ℕ → Bool) (tag : ℕ) (mem : Memory) (k size raw : ℕ) (out : Aligned)
    : Type 0 where
  pub aligned : ℕ
  pub after : Memory
  pub result : out ≡ placed aligned after
  pub multiple : aligned % 2 ^ k ≡ 0
  pub low : raw + tag_size ≤ aligned
  pub high : aligned + size ≤ raw + (size + 2 ^ k + tag_size)
  pub back : find_original_ptr owned tag after aligned ≡ some raw
  pub kept :
      (a : ℕ)
      → after a ≡ (
          if a == aligned - tag_size
          then tag
          else if a == aligned - offset_size
          then raw
          else mem a)

module _ (tag : ℕ) (mem : Memory) (a raw : ℕ) (h : tag_size ≤ a) where
  abbrev tagged : Memory
  tagged = update (update mem (a - tag_size) tag) (a - offset_size) raw

  tagged-at :
      (b : ℕ)
      → tagged b ≡ (if b == a - tag_size then tag else if b == a - offset_size then raw else mem b)
  tagged-at b = ground arith

  find_original_ptr-tagged :
      (owned : ℕ → Bool) → owned raw ≡ true → find_original_ptr owned tag tagged a ≡ some raw
  unfolding find_original_ptr
  find_original_ptr-tagged owned own =
      let apart : (a - offset_size == a - tag_size) ≡ false = ground arith in
      let one : (a - tag_size == a - tag_size) ≡ true = ground arith in
      let two : (a - offset_size == a - offset_size) ≡ true = ground arith in
      let hit : (tag == tag) ≡ true = ground arith in rw (apart, one, two, hit, own)

place-Inside :
    (owned : ℕ → Bool) (tag : ℕ) (mem : Memory) (k size raw : ℕ)
    → 3 ≤ k
    → raw + (size + 2 ^ k + tag_size) < 2 ^ 64
    → owned raw ≡ true
    → Inside owned tag mem k size raw (place tag raw (2 ^ k) mem)
unfolding place align_to
place-Inside owned tag mem k size raw hk fits own =
    let start : saturating_add raw tag_size ≡ raw + tag_size = omega arith in
    let (low, high, multiple) = align_to_bounds k (raw + tag_size) below (omega (arith, pow_pos)) in
    rw start (record {
      aligned = a;
      after = tagged tag mem a raw (omega (arith, low));
      result = refl;
      multiple = multiple;
      low = low;
      high = omega (arith, high);
      back = find_original_ptr-tagged tag mem a raw (omega (arith, low)) owned own;
      kept = tagged-at tag mem a raw (omega (arith, low));
    })
  where
    a : ℕ
    a = align_to (raw + tag_size) (2 ^ k)

    pow_pos : 0 < 2 ^ k
    pow_pos = one-le-pow k 2 (omega arith)

    below : k ≤ 64
    below = elim (dec_le k 64) [
      | yes le ↦ le
      | no more ↦
          let big : 2 ^ 64 ≤ 2 ^ k =
            pow-le-pow_right {n = 2} (omega arith) {i = 64} (omega arith) in
          absurd (omega (arith, big))
    ]

-- For an alignment 2 ^ k of at least 8: when `rs_alloc` gives an owned block of the size that
-- `posix_align_inner` asks for, the address it stores is a multiple of the alignment, at least 16
-- bytes into the block, and has `size` bytes up to the block's end; `find_original_ptr` leads from
-- it back to the block; and no word but the two before it is written.
pub posix_align_inner-Inside :
    (owned : ℕ → Bool) (rs_alloc : ℕ → Option ℕ) (tag : ℕ) (mem : Memory) (memptr k size raw : ℕ)
    → 1 ≤ memptr
    → 3 ≤ k
    → rs_alloc (size + 2 ^ k + tag_size) ≡ some raw
    → raw + (size + 2 ^ k + tag_size) < 2 ^ 64
    → owned raw ≡ true
    → Inside owned tag mem k size raw (posix_align_inner rs_alloc tag mem memptr (2 ^ k) size)
unfolding posix_align_inner checked_add
posix_align_inner-Inside owned rs_alloc tag mem memptr k size raw hm hk e fits own =
    let eight : 2 ^ 3 ≤ 2 ^ k = pow-le-pow_right {n = 2} (omega arith) {j = k} hk in
    let there : (memptr == 0) ≡ false = ground arith in
    let power = power-is_power_of_two k in
    let wide : ltb (2 ^ k) 8 ≡ false = ground (arith, eight) in
    let sum1 : ltb (size + 2 ^ k) (2 ^ 64) ≡ true = ground arith in
    let sum2 : ltb (size + 2 ^ k + tag_size) (2 ^ 64) ≡ true = ground arith in
    rw (there, wide, power, sum1, sum2, e) (place-Inside owned tag mem k size raw hk fits own)

-- `memalign_inner` of an alignment of at most 8 gives what it gives for 8, and of any larger power
-- of two what `posix_align_inner` gives.
pub memalign_inner-posix :
    (rs_alloc : ℕ → Option ℕ) (tag : ℕ) (mem : Memory) (k size : ℕ)
    → memalign_inner rs_alloc tag mem (2 ^ k) size
      ≡ posix_align_inner rs_alloc tag mem 8 (max (2 ^ k) 8) size
unfolding memalign_inner
memalign_inner-posix rs_alloc tag mem k size = elim (dec_le k 3) [
  | yes small ↦
      let le : 2 ^ k ≤ 2 ^ 3 = pow-le-pow_right {n = 2} (omega arith) {j = 3} small in
      let eight : max (2 ^ k) 8 ≡ 8 = omega (arith, le) in rw (eight, power-is_power_of_two 3)
  | no large ↦
      let le : 2 ^ 3 ≤ 2 ^ k = pow-le-pow_right {n = 2} (omega arith) {i = 3} (omega arith) in
      let same : max (2 ^ k) 8 ≡ 2 ^ k = omega (arith, le) in rw (same, power-is_power_of_two k)
]
