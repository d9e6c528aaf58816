-- ===== src/Bulk/Answered.antt =====
-- What `bulk_fill` of rseq_core/bulk_fill.rs answers: blocks, while there are pages.
use rsmalloc.Common.{
  ℕ, ◌+◌, ◌*◌, ◌≤◌, ◌<◌, ◌≡◌, refl, Option, none, some, List, ltb, ◌==◌, if_cases, length, inl, inr,
  ◌⊎◌, arith,
}
use native.Mathlib.Nat.{mul-le-mul_left}
use rsmalloc.Layout.{metadata_size}
use rsmalloc.SizeClass.{
  num_size_classes, class_size, block_size, iterations, refill_total_bytes_for_payload,
}
use rsmalloc.SizeClass.Refill.{refill_bounds}
use rsmalloc.Bulk.Queue.{MetaData, ThreadQueue, slot, insert_slot, pop_slot}
use rsmalloc.Bulk.Queue
use rsmalloc.Bulk.{Heap, alloc_total, alloc_pages, alloc_metadata, fresh_metadata}
use rsmalloc.Bulk.Fill.{fill_from, fill_allocated, fill_new, fill_pending, bulk_fill}
use rsmalloc.Bulk.Open.{
  Open, FreeOpen, QueueOpen, HeapOpen, PopOpen, pop-Open, Served, fill_from-Served,
}

-- Where the pages come from that a thread carves: its own, the queue of its node, or the page allocator.
unfoldable pub Source : (class size node_id : ℕ) → (mem : Option ℕ) → Heap → MetaData → Type 0
Source class size node_id mem h metadata =
    (h.free ≡ some metadata)
    ⊎ (((Queue.pop h.queue node_id).0 ≡ some metadata)
        ⊎ ((base : ℕ) × (mem ≡ some base)
            × (metadata ≡ fresh_metadata base (alloc_total class size) node_id)))

-- What `bulk_fill` answers: no blocks, only while there are no pages of the thread and none in the queue of
-- its node, the page allocator has none, and nothing changes; or blocks from the front of such pages.
unfoldable pub Answer :
    (class size node_id max_init : ℕ) → (mem : Option ℕ) → Heap → Option (List ℕ) × Heap → Type 0
Answer class size node_id max_init mem h (none, after) =
    (h.free ≡ none) × ((Queue.pop h.queue node_id).0 ≡ none) × (mem ≡ none) × (after ≡ h)
Answer class size node_id max_init mem h (some blocks, after) =
    HeapOpen size after
    × ((metadata : MetaData) × Source class size node_id mem h metadata
        × Served size max_init metadata blocks)

-- What the theorem on the new pages of `alloc_metadata` needs of a size class.
abbrev Fits : (class size : ℕ) → Type 0
Fits class size = metadata_size + size ≤ alloc_total class size

unfoldable Allocated :
    (class size node_id : ℕ) → (mem : Option ℕ) → Heap → Option (MetaData × Heap) → Type 0
Allocated class size node_id mem h none = ((Queue.pop h.queue node_id).0 ≡ none) × (mem ≡ none)
Allocated class size node_id mem h (some (metadata, after)) =
    Open size metadata × QueueOpen size after.queue × Source class size node_id mem h metadata

alloc_pages-Allocated :
    (class size node_id : ℕ) (mem : Option ℕ) (h : Heap) (popped : Option MetaData × ThreadQueue)
    → Fits class size
    → QueueOpen size h.queue
    → PopOpen size popped
    → (Queue.pop h.queue node_id).0 ≡ popped.0
    → Allocated class size node_id mem h (alloc_pages class size node_id mem popped h)
unfolding Source Allocated
alloc_pages-Allocated class size node_id mem h (some metadata, queue) fits all (room, rest) e =
    (room, rest, inr (inl e))
alloc_pages-Allocated class size node_id none h (none, queue) fits all rooms e = (e, refl)
alloc_pages-Allocated class size node_id (some base) h (none, queue) fits all rooms e =
    (omega (arith, fits), all, inr (inr (base, refl, refl)))

alloc_metadata-Allocated :
    (class size node_id : ℕ) (mem : Option ℕ) (h : Heap)
    → Fits class size
    → QueueOpen size h.queue
    → Allocated class size node_id mem h (alloc_metadata class size node_id mem h)
unfolding alloc_metadata
alloc_metadata-Allocated class size node_id mem h fits all =
    alloc_pages-Allocated class size node_id mem h (Queue.pop h.queue node_id) fits all
      (pop-Open size h.queue node_id all) refl

fill_allocated-Answer :
    (class size node_id max_init stamp : ℕ) (mem : Option ℕ) (h : Heap)
    → (pages : Option (MetaData × Heap)) → 0 < size
    → 0 < max_init
    → h.free ≡ none
    → Allocated class size node_id mem h pages
    → Answer class size node_id max_init mem h (fill_allocated class size max_init stamp pages h)
unfolding Answer Allocated fill_from
fill_allocated-Answer class size node_id max_init stamp mem h none pos some_init no_free (e, em) =
    (no_free, e, em, refl)
fill_allocated-Answer class size node_id max_init stamp mem h (some (metadata, h')) pos some_init
      no_free (room, rest, source) =
    let r = fill_from class size max_init stamp metadata h' in
    let (served, left) =
      fill_from-Served class size max_init stamp metadata h' pos some_init room in
    if_cases (Answer class size node_id max_init mem h) (length r.0 == 0)
      (none, record (r.1) { free = h'.free }) (some r.0, r.1)
      (λ empty. let one = served.some_block in absurd (ground (arith, empty, one)))
      (λ _. ((left, rest), (metadata, source, served)))

class-Fits : (class : ℕ) → class < num_size_classes → Fits class (block_size (class_size class))
unfolding alloc_total refill_total_bytes_for_payload iterations
class-Fits class c =
    let (padding, one, whole, rest, last) = refill_bounds class c in
    let size = block_size (class_size class) in
    let least : size * 1 ≤ size * iterations class = mul-le-mul_left size one in
    omega (arith, whole, least)

class-positive : (class : ℕ) → class < num_size_classes → 0 < block_size (class_size class)
class-positive class c =
    let (same, one, whole, rest, last) = refill_bounds class c in omega (arith, same)

fill_pending-Answer :
    (class size node_id max_init stamp : ℕ) (mem : Option ℕ) (h : Heap) (free : Option MetaData)
    → 0 < size
    → 0 < max_init
    → Fits class size
    → h.free ≡ free
    → FreeOpen size free
    → QueueOpen size h.queue
    → Answer class size node_id max_init mem h
        (fill_pending class size node_id max_init stamp mem free h)
unfolding Answer Source fill_new fill_from
fill_pending-Answer class size node_id max_init stamp mem h none pos some_init fits e room all =
    fill_allocated-Answer class size node_id max_init stamp mem h
      (alloc_metadata class size node_id mem h) pos some_init e
      (alloc_metadata-Allocated class size node_id mem h fits all)
fill_pending-Answer class size node_id max_init stamp mem h (some pending) pos some_init fits e room
      all =
    let r = fill_from class size max_init stamp pending h in
    let (served, left) = fill_from-Served class size max_init stamp pending h pos some_init room in
    if_cases (Answer class size node_id max_init mem h) (ltb 0 (length r.0)) (some r.0, r.1)
      (fill_new class size node_id max_init stamp mem (record (r.1) { free = none }))
      (λ _. ((left, all), (pending, inl e, served)))
      (λ empty. let one = served.some_block in absurd (ground (arith, empty, one)))

-- For one of the 34 classes, while the kept pages of the thread and of the queue have room for a block and
-- at least one block is wanted: `bulk_fill` fails only if the thread has no pages, the queue of the node
-- has none and the page allocator gives none, and then it changes nothing. Else it returns between 1 and
-- `max_init` blocks, one after another at the front of the unused part of such pages, and the pages that
-- are kept still have room.
pub bulk_fill-Answer :
    (class node_id max_init stamp : ℕ) (mem : Option ℕ) (h : Heap)
    → class < num_size_classes
    → 0 < max_init
    → HeapOpen (block_size (class_size class)) h
    → Answer class
        (block_size (class_size class))
        node_id
        max_init
        mem
        h
        (bulk_fill class node_id max_init stamp mem h)
unfolding bulk_fill
bulk_fill-Answer class node_id max_init stamp mem h c some_init ok =
    fill_pending-Answer class (block_size (class_size class)) node_id max_init stamp mem h h.free
      (class-positive class c) some_init (class-Fits class c) refl ok.0 ok.1
