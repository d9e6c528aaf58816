-- ===== src/Buddy/Allocator/Example.antt =====
-- A run of the buddy allocator of big_allocations/buddy.rs: the first allocation makes a region.
use rsmalloc.Common.{◌≡◌, refl, Option, none, some, [], ◌∷◌}
use rsmalloc.Word.{
  trailing_zeros, next_power_of_two, next_exponent, checked_next_power_of_two, checked_add,
  checked_mul,
}
use rsmalloc.SizeClass.{align_to}
use rsmalloc.Buddy.Region.{
  alloc_from_region, find_block, push_free_block, mark_order_nonempty, set_bit, split,
  remove_free_block, unlink, clear_bit, mark_order_empty_if_needed,
}
use rsmalloc.Buddy.Allocator.{
  Allocator, Machine, Block, new, new_region, push_blocks, empty_region, alloc, alloc_from_node,
  use_region, or_else, search_again, add_region, map_retry, retry, alloc_region_node, node_size,
  bitmap_bytes, order_for_size, normalize_region_size,
}

-- The first `mmap` fails, the next give a region at 1 GiB and its node at 4 KiB.
abbrev pub machine : Machine
machine = record {
  maps = none ∷ some 1073741824 ∷ some 4096 ∷ [];
  owned = [];
  retries = 3;
  stamp = 7;
}

abbrev pub first : Option Block × Allocator × Machine
first = alloc new machine 5001216 0 0

abbrev pub block : Block
block = record { addr = 1073741824; order = 23; trim_state = 0; region = 4096 }

pub serves : first ≡ (some block, first.1, first.2)
unfolding alloc new alloc_from_node use_region search_again or_else add_region map_retry retry
    alloc_region_node node_size bitmap_bytes checked_mul checked_add align_to order_for_size
    trailing_zeros next_power_of_two normalize_region_size checked_next_power_of_two new_region
    push_blocks empty_region next_exponent alloc_from_region find_block push_free_block
    mark_order_nonempty set_bit split remove_free_block unlink clear_bit mark_order_empty_if_needed
serves = refl
