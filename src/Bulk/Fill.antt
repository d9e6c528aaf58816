-- ===== src/Bulk/Fill.antt =====
-- `bulk_fill`, and `drain_pending` at the end of a thread.
use rsmalloc.Common.{ℕ, Option, none, some, List, ltb, ◌==◌, if◌then◌else◌, length}
use rsmalloc.SizeClass.{class_size, block_size}
use rsmalloc.Bulk.{Heap, remaining_blocks, init_blocks, alloc_metadata}
use rsmalloc.Bulk.Queue
use rsmalloc.Bulk.Queue.{MetaData}

-- The pages are kept by the thread while blocks are left in them.
abbrev pub kept : MetaData → (block_size : ℕ) → Option MetaData
kept metadata size = if ltb 0 (remaining_blocks metadata size) then some metadata else none

-- Blocks from pages that the thread holds, and the heap after.
unfoldable pub fill_from :
    (class block_size max_init current_stamp : ℕ) → MetaData → Heap → List ℕ × Heap
fill_from class size max_init current_stamp metadata h =
    let (blocks, after, headers) =
      init_blocks h.freed_magic class metadata size max_init current_stamp h.headers in
    (blocks, record h { free = kept after size; headers = headers })

-- `bulk_fill` after its call of `alloc_metadata`
abbrev pub fill_allocated :
    (class block_size max_init current_stamp : ℕ)
    → Option (MetaData × Heap)
    → Heap
    → Option (List ℕ) × Heap
fill_allocated class size max_init current_stamp none h = (none, h)
fill_allocated class size max_init current_stamp (some (metadata, h')) h =
    let (blocks, after) = fill_from class size max_init current_stamp metadata h' in
    if length blocks == 0 then (none, record after { free = h'.free }) else (some blocks, after)

-- `bulk_fill` once the thread has no pages
unfoldable pub fill_new :
    (class block_size node_id max_init current_stamp : ℕ)
    → (mem : Option ℕ) → Heap
    → Option (List ℕ) × Heap
fill_new class size node_id max_init current_stamp mem h =
    fill_allocated class size max_init current_stamp (alloc_metadata class size node_id mem h) h

-- `bulk_fill` with the pages that the thread holds
abbrev pub fill_pending :
    (class block_size node_id max_init current_stamp : ℕ)
    → (mem : Option ℕ) → Option MetaData
    → Heap
    → Option (List ℕ) × Heap
fill_pending class size node_id max_init current_stamp mem none h =
    fill_new class size node_id max_init current_stamp mem h
fill_pending class size node_id max_init current_stamp mem (some pending) h =
    let (blocks, after) = fill_from class size max_init current_stamp pending h in
    if ltb 0 (length blocks)
    then (some blocks, after)
    else fill_new class size node_id max_init current_stamp mem (record after { free = none })

-- `bulk_fill`: `none` is `OutOfMemory`
unfoldable pub bulk_fill :
    (class node_id max_init current_stamp : ℕ) → (mem : Option ℕ) → Heap → Option (List ℕ) × Heap
unfolding class_size block_size
bulk_fill class node_id max_init current_stamp mem h =
    fill_pending class (block_size (class_size class)) node_id max_init current_stamp mem h.free h

-- `drain_pending`
abbrev pub drain_from : Option MetaData → Heap → Heap
drain_from none h = h
drain_from (some pending) h = record h { free = none; queue = Queue.insert h.queue pending }

unfoldable pub drain_pending : Heap → Heap
drain_pending h = drain_from h.free h
