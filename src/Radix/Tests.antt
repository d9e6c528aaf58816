-- ===== src/Radix/Tests.antt =====
-- Runs of the radix tree, and its theorems at concrete ranges.
use rsmalloc.Common.{
  ◌+◌, ◌-◌, ◌*◌, ◌/◌, ◌≡◌, refl, true, false, ◌&&◌, arith, leb, if◌then◌else◌, some,
}
use rsmalloc.Word.{checked_add}
use rsmalloc.Radix.{
  Radix, zero_table, get, set_range, is_owned, set_chunks, write_words, range_mask, with_leaf,
  get_or_alloc, find_leaf, split,
}
use rsmalloc.Radix.Range.{is_owned-set_range}

-- The run of the test `set_range_batches_across_l3_leaves`: 5 chunks from 4094 on.
abbrev two_leaves : Radix
two_leaves = set_range zero_table (4094 * 4096) (5 * 4096) true

batches_across_leaves :
    (is_owned (some two_leaves) (4093 * 4096) ≡ some false)
    × (is_owned (some two_leaves) (4094 * 4096) ≡ some true)
    × (is_owned (some two_leaves) (4098 * 4096) ≡ some true)
    × (is_owned (some two_leaves) (4099 * 4096) ≡ some false)
unfolding set_range is_owned checked_add set_chunks write_words range_mask with_leaf get_or_alloc
    find_leaf split get
batches_across_leaves = (refl, refl, refl, refl)

is_owned-set_range_example : is_owned (some two_leaves) (4097 * 4096) ≡ (
    if leb (4094 * 4096 / 4096) (4097 * 4096 / 4096)
      && leb (4097 * 4096 / 4096) ((4094 * 4096 + 5 * 4096 - 1) / 4096)
    then some true
    else is_owned (some zero_table) (4097 * 4096))
is_owned-set_range_example =
    is_owned-set_range zero_table (4094 * 4096) (5 * 4096) (4097 * 4096) true (omega arith)
      (omega arith) (omega arith)
