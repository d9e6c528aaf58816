-- ===== src/Lib.antt =====
-- rsmalloc, an allocator for Linux in Rust: a model of its core and the properties that make it
-- correct. All paths are from the repository's root.
--
-- The parts and how they interact. `malloc` looks up the size class of a request (src/utility.rs);
-- a small request is served from per-CPU lists of blocks, which are refilled from pages of
-- src/backend/page_allocator.rs; a large one is served by the buddy backend
-- (src/big_allocations/buddy.rs) or by `mmap`. Every range that comes from `mmap` is published to
-- the radix tree (src/internals/radix_tree.rs), which `free` asks whether an address is the
-- allocator's own. src/inner/align.rs places aligned blocks inside larger ones. src/trim.rs gives
-- pages back and turns the buddy backend off under memory pressure, and src/core_prim/predictor.rs
-- chooses how many blocks move at once.
--
-- The files:
--   Common, Common/*         what all files share: library names, Boolean tests on numbers, lists, and
--                            the binary digits of a number, by which the bit operations are read
--   Layout, Word             sizes of src/lib.rs, and the operations of `usize` that the code calls
--   SizeClass, SizeClass/*   src/utility.rs: the classes, the tables derived from them and
--                            `match_size_class`
--   Buddy/Region, and below  one `BuddyRegion` of src/big_allocations/buddy.rs: `push_free_block`,
--                            `remove_free_block`, `alloc_from_region`, `free`, `try_grow_inplace`
--   Buddy/Allocator, below   `BuddyAllocator` over its regions: `init`, `add_region`, `alloc`, `free`
--   Radix, Radix/*           src/internals/radix_tree.rs: `set`, `get`, `set_range`, `is_owned`
--   Pages, Pages/*           src/backend/page_allocator.rs: `alloc` and `try_grow_inplace`
--   Align, Align/*           src/inner/align.rs, and `find_original_ptr` of src/inner/free.rs
--   Predictor, Predictor/*   `AdaptiveBatching` of src/core_prim/predictor.rs
--   Numa, Numa/*             src/internals/numa_parser.rs: the tables of processors and nodes, the parser of lists
--   Rbtree, Rbtree/*         src/internals/rbtree.rs: the metadata of large blocks, a map by address
--   Slab, Slab/*             src/rseq_core/slab_cache.rs: the lists of free blocks per CPU, and stealing
--   Bulk, Bulk/*             src/rseq_core/bulk_fill.rs and src/rseq_core/pending_queue.rs: new blocks,
--                            carved from pages, and the pages that wait for their next use
--   Refill, Refill/*         `rs_alloc`, `fill`, `refill`, `take_one_from_batch` of src/inner/alloc.rs, over
--                            Slab and Bulk, for one size class
--   Large, Large/*           src/big_allocations/big_allocation.rs: `big_malloc` and `big_free` over the
--                            buddy backend, the radix tree and the metadata tree
--   Front, Front/*           `rs_free` of src/inner/free.rs, `usable_size` of src/inner/alloc.rs,
--                            `rs_calloc` of src/inner/calloc.rs, `init_magic` of src/core_prim/random.rs
--   Realloc, Realloc/*       `rs_realloc` and `small_realloc` of src/inner/realloc.rs
--   Sync, Sync/*             src/internals/lock.rs and src/internals/once.rs, as steps of threads
--   Trim, Trim/*             src/trim.rs: memory pressure, `relief_paths`, `release_memory`
--
-- How the code is read. Numbers are natural numbers; where the code wraps or checks at 2 ^ 64 the
-- definition does. A pointer is an address. An intrusive doubly linked list is the list of its
-- nodes, a node with its address. An array or a table is the function of its entries. A call of
-- the system is an argument: the answers of `mmap` come as a list or an `Option`, where `none` is
-- an error. A lock is held around each modelled operation, so operations run one after another;
-- only Sync takes the threads' atomic operations apart, in any order of them. For the same reason
-- a `compare_exchange` on a transfer list of Slab succeeds; whether a restartable sequence commits,
-- and on which CPU, is an argument. Subtraction stops at 0: where the code subtracts, its guards or
-- the invariants give that the first number is not the smaller.
--
-- Rounds. `split`, `find_block` and `merge` recurse on the number of orders left; `push_blocks` on
-- the number of blocks of the region; `set_chunks` on the number of chunks of the range, of which
-- each round takes at least one; `assign_cpus` on two more than the difference of a range's ends.
-- The properties hold for those numbers of rounds, so they are enough. `retry` recurses on
-- `MAX_REFILL_RETRIES`, as the code loops; `refill` recurses on the list of answers of the page
-- allocator, one for each of its tries. `insert_fixup` and `delete_fixup` of the metadata tree
-- recurse on the frames above a node and one round more, and end within them; `push` ends within
-- five rounds. `parse_items` has the number of bytes as its fuel, as each item takes a byte.
--
-- Not modelled: the statistics of the debug features, assembly and registration of restartable
-- sequences, thread and fork handling, logging, the C symbols and the `GlobalAlloc` shims,
-- `big_realloc`, and `BuddyAllocator::trim_inner`.
pub mod Common
pub mod Layout
pub mod Word
pub mod SizeClass
pub mod Buddy
pub mod Radix
pub mod Pages
pub mod Align
pub mod Predictor
pub mod Trim
pub mod Bulk
pub mod Large
pub mod Refill
pub mod Front
pub mod Realloc
pub mod Numa
pub mod Rbtree
pub mod Slab
pub mod Sync
