-- ===== src/SizeClass/Refill.antt =====
-- What the refill tables of utility.rs promise to `bulk_fill` and the page backend, for every class.
use native.Mathlib.Decide.{dec_lt}
use rsmalloc.Common.{
  ℕ, zero, suc, ◌+◌, ◌-◌, ◌*◌, ◌/◌, ◌≤◌, ◌<◌, max, ◌≡◌, refl, Bool, true, ◌&&◌, arith, leb, ltb,
  ◌==◌,
}
use rsmalloc.Layout.{header_size, metadata_size}
use rsmalloc.SizeClass.{
  num_size_classes, class_size, align_to, block_size, iterations, refill_total_bytes_for_payload,
  min_refill_bytes, cache_high_blocks, cache_low_blocks,
}

-- A test that passes for each of the first `n` numbers passes for each number below `n`.
holds_to : (ℕ → Bool) → ℕ → Bool
holds_to check zero = true
holds_to check (suc top) = holds_to check top && check top

holds_to-class :
    (check : ℕ → Bool) (top : ℕ)
    → holds_to check top ≡ true
    → (class : ℕ) → class < top
    → check class ≡ true
unfolding holds_to
holds_to-class check zero all class below = absurd (omega arith)
holds_to-class check (suc top) all class below = elim (dec_lt class top) [
  | yes lt ↦ holds_to-class check top (ground arith) class lt
  | no ge ↦ let e : class ≡ top = omega arith in rw e (ground arith)
]

-- The blocks that a refill of a class carves: as many as fit behind the metadata.
abbrev refill_blocks : ℕ → ℕ
refill_blocks class =
    (refill_total_bytes_for_payload (class_size class) - metadata_size)
    / block_size (class_size class)

refill_ok : ℕ → Bool
refill_ok class =
    let payload = class_size class in
    let total = refill_total_bytes_for_payload payload in
    (block_size payload == payload + header_size)
    && leb 1 (iterations class)
    && leb (metadata_size + block_size payload * iterations class) total
    && ltb (align_to total 4096 - total) (block_size payload)
    && leb min_refill_bytes (align_to total 4096)

refill_table : holds_to refill_ok num_size_classes ≡ true
unfolding holds_to refill_ok min_refill_bytes refill_total_bytes_for_payload iterations
refill_table = refl

-- For each of the 34 classes: a block is the payload and one header with no padding; a refill has
-- at least one block; its bytes hold the metadata and all blocks of `ITERATIONS`; rounded up to
-- pages it leaves less than one block unused; and it is at least `MIN_REFILL_BYTES`, so a backend
-- arena with less than that left can serve no refill.
pub refill_bounds :
    (class : ℕ)
    → class < num_size_classes
    → let payload = class_size class in
      let total = refill_total_bytes_for_payload payload in
      (block_size payload ≡ payload + header_size)
      × (1 ≤ iterations class)
      × (metadata_size + block_size payload * iterations class ≤ total)
      × (align_to total 4096 - total < block_size payload)
      × (min_refill_bytes ≤ align_to total 4096)
unfolding refill_ok
refill_bounds class h =
    ground (arith, holds_to-class refill_ok num_size_classes refill_table class h)

payload_ok : ℕ → Bool
payload_ok class = leb (class_size class) 2097152

payload_table : holds_to payload_ok num_size_classes ≡ true
unfolding holds_to payload_ok class_size
payload_table = refl

-- No class has a payload over 2 MiB.
pub class_size_bound : (class : ℕ) → class < num_size_classes → class_size class ≤ 2097152
unfolding payload_ok
class_size_bound class h =
    ground (arith, holds_to-class payload_ok num_size_classes payload_table class h)

high_ok : ℕ → Bool
high_ok class =
    let size = block_size (class_size class) in
    let high = cache_high_blocks class in
    leb 1 high
    && leb (high * size) (max (128 * 1024) size)
    && leb 1 (cache_low_blocks class)
    && leb (cache_low_blocks class) high

high_table : holds_to high_ok num_size_classes ≡ true
unfolding holds_to high_ok cache_low_blocks
high_table = refl

-- For each of the 34 classes the per-CPU cache limit is at least one block, holds at most 128 KiB
-- of blocks unless it is a single larger block, and is at least the low mark, which is positive.
pub cache_bounds :
    (class : ℕ)
    → class < num_size_classes
    → let high = cache_high_blocks class in
      let size = block_size (class_size class) in
      (1 ≤ high)
      × (high * size ≤ max (128 * 1024) size)
      × (1 ≤ cache_low_blocks class)
      × (cache_low_blocks class ≤ high)
unfolding high_ok
cache_bounds class h = ground (arith, holds_to-class high_ok num_size_classes high_table class h)
