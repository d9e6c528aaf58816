-- ===== src/SizeClass.antt =====
-- utility.rs: the size classes, the tables derived from them, `align_to` and `match_size_class`.
pub mod Align
pub mod Match
pub mod Refill
mod Tests
use rsmalloc.Common.{
  ℕ, zero, suc, ◌+◌, ◌-◌, ◌*◌, ◌/◌, ◌^◌, min, bit_and, Bool, Option, none, some, List, [], ◌∷◌, map,
  ltb, leb, ◌==◌, if◌then◌else◌, get_or,
}
use mathlib.Core.Option
use Prim.Native.Nat.{◌%◌}
use rsmalloc.Word.{leading_zeros}
use rsmalloc.Layout.{usize_mod, header_size, metadata_size}

-- `SIZE_CLASSES`
abbrev pub size_classes : List ℕ
size_classes =
    16 ∷ 32 ∷ 48 ∷ 64 ∷ 80 ∷ 96 ∷ 128 ∷ 160 ∷ 192 ∷ 256 ∷ 320 ∷ 384 ∷ 512 ∷ 768 ∷ 1024 ∷ 1280 ∷ 1536
    ∷ 1792 ∷ 2048 ∷ 2560 ∷ 3072 ∷ 3840 ∷ 4096 ∷ 8192 ∷ 12288 ∷ 16384 ∷ 24576 ∷ 32768 ∷ 65536
    ∷ 131072 ∷ 262144 ∷ 524288 ∷ 1048576 ∷ 2097152 ∷ []

abbrev pub num_size_classes : ℕ
num_size_classes = 34

-- `SIZE_CLASSES[class]`, where the class exists; whoever reads the class from a header tests that first,
-- since the index panics on another one
unfoldable pub class_size : ℕ → ℕ
class_size class = get_or size_classes class 0

-- `(size + al) & !al` on 64 bits, the sum wrapping as in a release build
unfoldable pub align_to : ℕ → ℕ → ℕ
align_to size align = let al = align - 1 in bit_and ((size + al) % usize_mod) (usize_mod - 1 - al)

refill_target_bytes : ℕ → ℕ
refill_target_bytes payload =
    if leb payload 128
    then 32 * 1024
    else if leb payload 512
    then 16 * 1024
    else if leb payload 1536
    then 16 * 1024
    else 16 * 1024

-- `align_to(payload + Header::SIZE, 16)`
unfoldable pub block_size : ℕ → ℕ
unfolding align_to
block_size payload = align_to (payload + header_size) 16

unfoldable pub refill_iterations_for_payload : ℕ → ℕ
unfolding refill_target_bytes block_size
refill_iterations_for_payload payload =
    let target = refill_target_bytes payload in
    let blocks = target / block_size payload in
    if target == 0 then 1 else if blocks == 0 then 1 else blocks

-- `ITERATIONS[class]`
unfoldable pub iterations : ℕ → ℕ
unfolding refill_iterations_for_payload class_size
iterations class = refill_iterations_for_payload (class_size class)

unfoldable pub refill_total_bytes_for_payload : ℕ → ℕ
unfolding refill_iterations_for_payload block_size
refill_total_bytes_for_payload payload =
    let size = block_size payload in
    let num_blocks = refill_iterations_for_payload payload in
    let total = metadata_size + size * num_blocks in
    let pages = (total + 4095) / 4096 in
    let available_bytes = pages * 4096 - metadata_size in
    let max_blocks_in_pages = available_bytes / size in
    if ltb num_blocks max_blocks_in_pages then metadata_size + size * max_blocks_in_pages else total

-- The loop that keeps the least total, from `usize::MAX`.
min_refill : ℕ → List ℕ → ℕ
unfolding refill_total_bytes_for_payload
min_refill least [] = least
min_refill least (payload ∷ rest) =
    let total = refill_total_bytes_for_payload payload in
    min_refill (if ltb total least then total else least) rest

-- `MIN_REFILL_BYTES`
unfoldable pub min_refill_bytes : ℕ
unfolding min_refill align_to
min_refill_bytes = align_to (min_refill (usize_mod - 1) size_classes) 4096

-- `while class < NUM_SIZE_CLASSES && SIZE_CLASSES[class] < size { class += 1 }`
scan : List ℕ → ℕ → ℕ
scan [] size = 0
scan (c ∷ cs) size = if ltb c size then suc (scan cs size) else 0

-- `SIZE_LUT[i]`
size_lut : ℕ → ℕ
unfolding scan
size_lut i = scan size_classes ((i + 1) * 16)

abbrev large_size_lut : List ℕ
large_size_lut = 0 ∷ 23 ∷ 24 ∷ 25 ∷ 26 ∷ 26 ∷ 27 ∷ 27 ∷ []

pub match_size_class : ℕ → Option ℕ
match_size_class size =
    if size == 0
    then some 0
    else if leb size 4096
    then some (size_lut ((size - 1) / 16))
    else if ltb 2097152 size
    then none
    else if leb size 32768
    then some (get_or large_size_lut ((size - 1) / 4096) 0)
    else some (64 - leading_zeros (size - 1) + 12)

-- `SIZE_CLASSES.iter().position(|&s| s >= size)`
position : List ℕ → ℕ → Option ℕ
position [] size = none
position (c ∷ cs) size = if leb size c then some 0 else Option.map suc (position cs size)

-- `reference_match` of the tests: a linear search for the first class that fits
pub reference_match : ℕ → Option ℕ
reference_match size = if size == 0 then some 0 else position size_classes size

small_class_bytes : ℕ
small_class_bytes = 1024 * 128

medium_class_bytes : ℕ
medium_class_bytes = 1024 * 96

big_class_bytes : ℕ
big_class_bytes = 1024 * 96

-- `CACHE_HIGH_BLOCKS[class]`
unfoldable pub cache_high_blocks : ℕ → ℕ
unfolding class_size block_size small_class_bytes medium_class_bytes big_class_bytes
cache_high_blocks class =
    let payload = class_size class in
    let size = block_size payload in
    let blocks =
      if ltb small_class_bytes size
      then 1
      else if ltb payload 256
      then small_class_bytes / size
      else if ltb payload (1024 * 16)
      then medium_class_bytes / size
      else big_class_bytes / size in
    if blocks == 0 then 1 else blocks

-- `CACHE_LOW_BLOCKS[class]`
unfoldable pub cache_low_blocks : ℕ → ℕ
unfolding cache_high_blocks
cache_low_blocks class = let low = cache_high_blocks class / 2 in if low == 0 then 1 else low
