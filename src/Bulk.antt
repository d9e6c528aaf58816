-- ===== src/Bulk.antt =====
-- rseq_core/bulk_fill.rs and rseq_core/pending_queue.rs: new blocks, carved from pages, and the pages that
-- a thread leaves unfinished, for one size class. A list of blocks is the list of their headers.
pub mod Queue
pub mod Carve
pub mod Fill
pub mod Open
pub mod Answered
mod Tests
use rsmalloc.Common.{
  ℕ, zero, suc, ◌+◌, ◌-◌, ◌*◌, ◌/◌, min, Bool, true, false, Option, none, some, List, [], ◌∷◌,
  update, ltb, ◌==◌, if◌then◌else◌,
}
use rsmalloc.Layout.{metadata_size}
use rsmalloc.SizeClass.{class_size, block_size, iterations}
use rsmalloc.Radix.{Radix, set_range}
use rsmalloc.Bulk.Queue.{MetaData, ThreadQueue}
use rsmalloc.Bulk.Queue

-- `Header` but for `next`, which the lists stand for.
pub record Header : Type 0 where
  pub flags : ℕ
  pub class : ℕ
  pub magic : ℕ
  pub life_time : ℕ

-- `ZERO_FLAG`
abbrev pub zero_flag : ℕ
zero_flag = 1

-- What `bulk_fill` reads and writes: the headers in memory, `THREAD_BULK.free` of the class, the queue,
-- the radix tree, `TOTAL_CACHED_VA` and `FREED_MAGIC`, which the start of the program may draw.
pub record Heap : Type 0 where
  pub headers : ℕ → Header
  pub free : Option MetaData
  pub queue : ThreadQueue
  pub radix : Radix
  pub cached_va : ℕ
  pub freed_magic : ℕ

-- `remaining_blocks`
abbrev pub remaining_blocks : MetaData → (block_size : ℕ) → ℕ
remaining_blocks metadata size = (metadata.end - metadata.next) / size

-- The loop of `init_blocks`, from the last block to the first.
unfoldable pub init_loop :
    (count base block_size : ℕ) → Header → (ℕ → Header) → (head : List ℕ) → List ℕ × (ℕ → Header)
init_loop zero base size header headers head = (head, headers)
init_loop (suc i) base size header headers head =
    let current_header = base + i * size in
    init_loop i base size header (update headers current_header header) (current_header ∷ head)

-- `init_blocks`: the blocks, the metadata and the headers after
unfoldable pub init_blocks :
    (freed_magic class : ℕ)
    → MetaData
    → (block_size max_blocks current_stamp : ℕ) → (ℕ → Header)
    → List ℕ × MetaData × (ℕ → Header)
init_blocks freed_magic class metadata size max_blocks current_stamp headers =
    let remaining = remaining_blocks metadata size in
    let count = min remaining max_blocks in
    let header : Header = record {
      flags = zero_flag;
      class = class;
      magic = freed_magic;
      life_time = current_stamp;
    } in
    let (head, written) = init_loop count metadata.next size header headers [] in
    if remaining == 0
    then ([], metadata, headers)
    else (head, record metadata { next = metadata.next + count * size }, written)

-- The number of bytes that `alloc_metadata` asks the page allocator for.
unfoldable pub alloc_total : (class block_size : ℕ) → ℕ
unfolding iterations
alloc_total class size =
    let num_blocks = iterations class in
    let total = metadata_size + size * num_blocks in
    let pages = (total + 4095) / 4096 in
    let available_bytes = pages * 4096 - metadata_size in
    let max_blocks_in_pages = available_bytes / size in
    if ltb num_blocks max_blocks_in_pages then metadata_size + size * max_blocks_in_pages else total

abbrev pub fresh_metadata : (mem total node_id : ℕ) → MetaData
fresh_metadata mem total node_id = record {
  start = mem;
  end = mem + total;
  next = mem + metadata_size;
  node_id = node_id;
}

-- `alloc_metadata` after its call of `pop`, with the answer of `PAGE_ALLOCATOR.alloc`.
abbrev pub alloc_pages :
    (class block_size node_id : ℕ)
    → (mem : Option ℕ) → Option MetaData × ThreadQueue
    → Heap
    → Option (MetaData × Heap)
alloc_pages class size node_id mem (some metadata, queue) h =
    some (metadata, record h { queue = queue })
alloc_pages class size node_id none (none, queue) h = none
alloc_pages class size node_id (some base) (none, queue) h =
    let total = alloc_total class size in
    some (
      fresh_metadata base total node_id,
      record h { radix = set_range h.radix base total true; cached_va = h.cached_va + total },
    )

-- `alloc_metadata`; `none` is `OutOfMemory`
unfoldable pub alloc_metadata :
    (class block_size node_id : ℕ) → (mem : Option ℕ) → Heap → Option (MetaData × Heap)
alloc_metadata class size node_id mem h =
    alloc_pages class size node_id mem (Queue.pop h.queue node_id) h
