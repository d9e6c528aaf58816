-- ===== src/Pages/Tests.antt =====
-- Runs of the page allocator, and its theorems at concrete states.
use rsmalloc.Common.{ℕ, ◌+◌, ◌≡◌, refl, true, none, some, [], arith}
use rsmalloc.Word.{checked_add}
use rsmalloc.SizeClass.{align_to, min_refill_bytes}
use rsmalloc.Pages.{
  NodeArenaState, arena_at, put_arena, bump, retire, allocate_current, search_arenas,
  allocate_search, new_arena_locked, data_bytes, alloc_locked, alloc, try_grow_inplace, grow_arena,
  grow_in, grow_locked,
}
use rsmalloc.Pages.Bump.{within, AllArenas}
use rsmalloc.Pages.Alloc.{fresh_at, pages, alloc_locked-Total}
use rsmalloc.Pages.Nodes.{Moved, alloc-Moved, try_grow_inplace-Moved}

abbrev empty : NodeArenaState
empty = record { current = none; arenas = [] }

empty_valid : AllArenas empty.arenas
unfolding AllArenas
empty_valid = tt

abbrev empty_nodes : ℕ → NodeArenaState
empty_nodes node = empty

-- The first allocation of node 1 of 2, 5000 bytes from a mapping of 1 MiB at 1 GiB.
abbrev first : ℕ → NodeArenaState
first = (alloc 1048576 (some 1073741824) empty_nodes 2 1 5000).1

serves : alloc 1048576 (some 1073741824) empty_nodes 2 1 5000 ≡ (some 1073745920, first)
unfolding alloc alloc_locked allocate_current allocate_search search_arenas new_arena_locked
    checked_add data_bytes align_to arena_at bump put_arena retire
serves = refl

alloc-Moved_example :
    Moved empty_nodes 1
      (λ u. within 1073745920 (1073745920 + pages 5000) u)
      (λ u. fresh_at 1048576 (some 1073741824) (pages 5000) u)
      first
alloc-Moved_example = alloc-Moved 1048576 (some 1073741824) empty_nodes 2 1 5000 empty_valid serves

alloc_locked-Total_example :
    (ptr : ℕ) × ((alloc_locked 1048576 (some 1073741824) empty 5000).0 ≡ some ptr)
alloc_locked-Total_example =
    alloc_locked-Total 1048576 1073741824 empty 5000 (omega arith) (omega arith) (omega arith)

-- The block handed out last grows from two pages to four.
abbrev grown : ℕ → NodeArenaState
grown = (try_grow_inplace first 2 1 1073745920 5000 16000).1

grows : try_grow_inplace first 2 1 1073745920 5000 16000 ≡ (true, grown)
unfolding try_grow_inplace grow_locked grow_in grow_arena alloc alloc_locked allocate_current
    allocate_search search_arenas new_arena_locked checked_add data_bytes align_to arena_at bump
    put_arena retire min_refill_bytes
grows = refl

try_grow_inplace-Moved_example :
    Moved first 1
      (λ u. within (1073745920 + pages 5000) (1073745920 + pages 16000) u)
      (λ u. 0)
      grown
try_grow_inplace-Moved_example =
    try_grow_inplace-Moved first 2 1 1073745920 5000 16000 alloc-Moved_example.valid grows
