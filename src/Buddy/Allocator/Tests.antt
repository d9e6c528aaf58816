-- ===== src/Buddy/Allocator/Tests.antt =====
-- Runs of the buddy allocator, and its theorems at concrete regions and blocks.
use rsmalloc.Common.{◌≡◌, refl, ◌∙◌, true, false, Option, none, some, [], ◌∷◌, arith}
use rsmalloc.Word.{trailing_zeros, next_power_of_two, next_exponent}
use rsmalloc.Buddy.Region.{
  Region, alloc_from_region, find_block, push_free_block, mark_order_nonempty, set_bit, split,
  remove_free_block, unlink, clear_bit, mark_order_empty_if_needed,
}
use rsmalloc.Buddy.Region.Valid.{slot}
use rsmalloc.Buddy.Region.Alloc.{Taken, alloc_from_region-Taken, slot-SameFrame}
use rsmalloc.Buddy.Allocator.{
  Allocator, Machine, Block, new, new_region, push_blocks, empty_region, alloc, free,
  alloc_from_node, search_again, add_region, map_retry, retry, order_for_size, alloc_from_any,
}
use rsmalloc.Buddy.Allocator.Example.{machine, first, block, serves}
use rsmalloc.Buddy.Allocator.Create.{new_region-AllFree}
use rsmalloc.Buddy.Allocator.Serve.{AllValid}
use rsmalloc.Buddy.Allocator.Conserve.{
  Allocated, Conserved, alloc-Allocated, alloc_failed-Conserved,
}
use rsmalloc.Buddy.Allocator.Release.{Released, region_at, free-Released}

none_yet : AllValid new.regions
unfolding new AllValid
none_yet = tt

alloc-Allocated_example : Allocated new machine 5001216 block first.1 first.2
alloc-Allocated_example = alloc-Allocated new machine 5001216 0 0 none_yet (omega arith) serves

-- No answer of `mmap` is left.
abbrev starved : Machine
starved = record { maps = none ∷ none ∷ none ∷ []; owned = []; retries = 3; stamp = 7 }

abbrev failed : Option Block × Allocator × Machine
failed = alloc new starved 5001216 0 2

fails : failed ≡ (none, failed.1, failed.2)
unfolding alloc new alloc_from_node search_again add_region map_retry retry alloc_from_any
    order_for_size trailing_zeros next_power_of_two next_exponent
fails = refl

alloc_failed-Conserved_example : Conserved new.regions starved failed.1.regions failed.2
alloc_failed-Conserved_example =
    alloc_failed-Conserved new starved 5001216 0 2 none_yet (omega arith) fails

-- One valid region whose one block is handed out whole, and freed.
abbrev region : Region
region = (alloc_from_region (new_region 7 1073741824 67108864 0) 26).1

takes_all :
    alloc_from_region (new_region 7 1073741824 67108864 0) 26 ≡ (some (1073741824, 0), region)
unfolding new_region push_blocks empty_region alloc_from_region find_block push_free_block
    mark_order_nonempty set_bit split remove_free_block unlink clear_bit mark_order_empty_if_needed
takes_all = refl

taken : Taken (new_region 7 1073741824 67108864 0) 26 1073741824 region
taken =
    alloc_from_region-Taken 26 (new_region-AllFree 7 1073741824 67108864 0 refl).valid (omega arith)
      (omega arith) takes_all

abbrev holder : Allocator
holder = record { regions = (4096, region) ∷ []; grow_order = 26; thp = false; initialized = true }

holder_valid : AllValid holder.regions
unfolding AllValid
holder_valid = (taken.valid, tt)

region_there : region_at 4096 holder.regions ≡ some region
unfolding region_at
region_there = refl

region_slot : slot region 26 1073741824 ≡ true
region_slot = slot-SameFrame 26 1073741824 taken.frame ∙ taken.here

free-Released_example :
    Released holder.regions 26 1073741824 (free holder machine 4096 1073741824 26).regions
free-Released_example =
    free-Released holder machine 4096 1073741824 26 holder_valid region_there (omega arith)
      (omega arith) region_slot
      (λ u.
        omega
          (arith, taken.took u, (new_region-AllFree 7 1073741824 67108864 0 refl).valid.disjoint u))
