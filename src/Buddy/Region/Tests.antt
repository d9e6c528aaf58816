-- ===== src/Buddy/Region/Tests.antt =====
-- Runs of one region, and its theorems at concrete blocks.
use rsmalloc.Common.{ℕ, ◌+◌, ◌≤◌, ◌≡◌, refl, none, some, true, [], arith}
use rsmalloc.Buddy.Region.{
  Region, FreeBlock, max_order, push_free_block, mark_order_nonempty, set_bit, clear_bit,
  alloc_from_region, find_block, split, remove_free_block, unlink, mark_order_empty_if_needed,
  free_block, buddy, block_is_free, try_grow_inplace, is_null, order_index,
}
use rsmalloc.Buddy.Region.Covers.{inside, covers, covers_none}
use rsmalloc.Buddy.Region.Valid.{slot, IsValid, IsValid-no_blocks, push-IsValid}
use rsmalloc.Buddy.Region.Alloc.{Taken, alloc_from_region-Taken, alloc_from_region_dry}
use rsmalloc.Buddy.Region.Free.{Freed, free_block-Freed}
use rsmalloc.Buddy.Region.Settle.{Settled, free_block-Settled}
use rsmalloc.Buddy.Region.Grow.{Grew, try_grow_inplace-Grew}

abbrev base : ℕ
base = 1073741824

abbrev bare : Region
bare = record {
  base = base;
  total_size = 67108864;
  order = max_order;
  node_id = 0;
  nonempty_mask = 0;
  free = λ i. [];
  free_bitmap = λ i word. 0;
}

bare-IsValid : IsValid bare
bare-IsValid = IsValid-no_blocks bare refl refl (λ i. refl) (λ i word. refl) refl

abbrev whole_block : FreeBlock
whole_block = record { addr = base; life_time = 7; trim_state = 0 }

-- A fresh region of one block of 64 MiB at 1 GiB.
abbrev fresh : Region
fresh = push_free_block bare max_order whole_block

fresh-IsValid : IsValid fresh
fresh-IsValid =
    push-IsValid bare-IsValid max_order (omega arith) (omega arith) whole_block refl
      (λ u. ground (arith, covers_none bare (λ i. refl) u))

-- The region after 4 MiB were taken.
abbrev taken : Region
taken = (alloc_from_region fresh 22).1

takes_lowest : alloc_from_region fresh 22 ≡ (some (base, 0), taken)
unfolding alloc_from_region find_block push_free_block mark_order_nonempty set_bit split
    remove_free_block unlink clear_bit mark_order_empty_if_needed
takes_lowest = refl

alloc_from_region-Taken_example : Taken fresh 22 base taken
alloc_from_region-Taken_example =
    alloc_from_region-Taken 22 fresh-IsValid (omega arith) (omega arith) takes_lowest

-- Nothing of 64 MiB is left.
refuses_largest : alloc_from_region taken 26 ≡ (none, taken)
unfolding alloc_from_region find_block push_free_block mark_order_nonempty set_bit split
    remove_free_block unlink clear_bit mark_order_empty_if_needed
refuses_largest = refl

alloc_from_region_dry_example : (is_null (taken.free (order_index 26)) ≡ true) × (taken ≡ taken)
alloc_from_region_dry_example =
    alloc_from_region_dry 26 26 alloc_from_region-Taken_example.valid (omega arith) (omega arith)
      (omega arith) refuses_largest

taken-slot : slot taken 22 base ≡ true
unfolding alloc_from_region find_block push_free_block mark_order_nonempty set_bit split
    remove_free_block unlink clear_bit mark_order_empty_if_needed
taken-slot = refl

held : (u : ℕ) → inside base 22 u + covers taken u ≤ 1
held u = omega (arith, alloc_from_region-Taken_example.took u, fresh-IsValid.disjoint u)

free_block-Freed_example : Freed taken 22 base (free_block 9 taken base 22)
free_block-Freed_example =
    free_block-Freed 9 base 22 alloc_from_region-Taken_example.valid (omega arith) (omega arith)
      taken-slot held

free_block-Settled_example : Settled 22 base (free_block 9 taken base 22)
free_block-Settled_example =
    free_block-Settled 9 base 22 alloc_from_region-Taken_example.valid (omega arith) (omega arith)
      taken-slot held

grown : try_grow_inplace taken base 22 ≡ (some (base, 23), (try_grow_inplace taken base 22).1)
unfolding try_grow_inplace buddy block_is_free alloc_from_region find_block push_free_block
    mark_order_nonempty set_bit split remove_free_block unlink clear_bit mark_order_empty_if_needed
grown = refl

try_grow_inplace-Grew_example : Grew taken 22 base base 23 (try_grow_inplace taken base 22).1
try_grow_inplace-Grew_example =
    try_grow_inplace-Grew base 22 alloc_from_region-Taken_example.valid (omega arith) (omega arith)
      taken-slot grown
