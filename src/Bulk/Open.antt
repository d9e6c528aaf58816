-- ===== src/Bulk/Open.antt =====
-- The pages that rseq_core/bulk_fill.rs keeps for later, of a thread and of the queue, have room for a
-- block, so that `bulk_fill` serves every request that it can get pages for.
use rsmalloc.Common.{
  ℕ, ◌+◌, ◌-◌, ◌*◌, ◌≤◌, ◌<◌, ◌≡◌, refl, Option, none, some, List, [], ◌∷◌, All, update, ltb, ◌==◌,
  if_cases, length, arith,
}
use native.Mathlib.Nat.{div-mul-le_self, mul-le-mul_right, le-div_iff_mul-le}
use rsmalloc.Bulk.Queue.{MetaData, ThreadQueue, slot, insert_slot, pop_slot}
use rsmalloc.Bulk.Queue
use rsmalloc.Bulk.{Heap, remaining_blocks, init_blocks}
use rsmalloc.Bulk.Carve.{blocks_from, init_blocks-Carved}
use rsmalloc.Bulk.Fill.{kept, fill_from, drain_from, drain_pending}

-- Pages with room for a block.
abbrev pub Open : (size : ℕ) → MetaData → Type 0
Open size metadata = metadata.next + size ≤ metadata.end

abbrev pub FreeOpen : (size : ℕ) → Option MetaData → Type 0
FreeOpen size none = Unit
FreeOpen size (some metadata) = Open size metadata

abbrev pub QueueOpen : (size : ℕ) → ThreadQueue → Type 0
QueueOpen size q = (i : ℕ) → All (Open size) (q.head i)

abbrev pub HeapOpen : (size : ℕ) → Heap → Type 0
HeapOpen size h = FreeOpen size h.free × QueueOpen size h.queue

pub Open-remaining :
    (size : ℕ) (metadata : MetaData)
    → 0 < size
    → Open size metadata
    → 1 ≤ remaining_blocks metadata size
Open-remaining size metadata pos room = (le-div_iff_mul-le pos).1 (omega (arith, room))

kept-Open :
    (size : ℕ) (metadata : MetaData)
    → 0 < size
    → metadata.next ≤ metadata.end
    → FreeOpen size (kept metadata size)
kept-Open size metadata pos start =
    let r = remaining_blocks metadata size in
    if_cases (FreeOpen size) (ltb 0 r) (some metadata) none
      (λ some_left.
        let whole : r * size ≤ metadata.end - metadata.next = div-mul-le_self _ size in
        let one : 1 * size ≤ r * size = mul-le-mul_right size (ground (arith, some_left)) in
        omega (arith, whole, one, start))
      (λ _. tt)

-- Blocks that come from the front of pages: at least one, at most `max_init`.
pub record Served (size max_init : ℕ) (metadata : MetaData) (blocks : List ℕ) : Type 0 where
  pub some_block : 1 ≤ length blocks
  pub at_most : length blocks ≤ max_init
  pub row : blocks ≡ blocks_from (length blocks) metadata.next size
  pub inside : metadata.next + length blocks * size ≤ metadata.end

pub fill_from-Served :
    (class size max_init stamp : ℕ) (metadata : MetaData) (h : Heap)
    → 0 < size
    → 0 < max_init
    → Open size metadata
    → Served size max_init metadata (fill_from class size max_init stamp metadata h).0
      × FreeOpen size (fill_from class size max_init stamp metadata h).1.free
unfolding fill_from
fill_from-Served class size max_init stamp metadata h pos some_init room =
    let r = init_blocks h.freed_magic class metadata size max_init stamp h.headers in
    let c =
      init_blocks-Carved h.freed_magic class metadata size max_init stamp h.headers pos
        (omega (arith, room)) in
    let left = Open-remaining size metadata pos room in
    (
      record {
        some_block = omega (arith, c.most, left, some_init);
        at_most = omega (arith, c.most);
        row = c.blocks;
        inside = c.inside;
      },
      kept-Open size r.1 pos (rw c.moved c.inside),
    )

update-Open :
    (size : ℕ) (q : ThreadQueue) (i : ℕ) (next_page : List MetaData)
    → QueueOpen size q
    → All (Open size) next_page
    → QueueOpen size (record q { head = update q.head i next_page })
update-Open size q i next_page all new j =
    if_cases (All (Open size)) (i == j) next_page (q.head j) (λ _. new) (λ _. all j)

pop_slot-Open :
    (size : ℕ) (q : ThreadQueue) (i : ℕ) (pages : List MetaData)
    → QueueOpen size q
    → All (Open size) pages
    → FreeOpen size (pop_slot q i pages).0 × QueueOpen size (pop_slot q i pages).1
pop_slot-Open size q i [] all new = (tt, all)
pop_slot-Open size q i (node ∷ next_page) all new =
    (new.0, update-Open size q i next_page all new.1)

abbrev pub PopOpen : (size : ℕ) → Option MetaData × ThreadQueue → Type 0
PopOpen size r = FreeOpen size r.0 × QueueOpen size r.1

pub pop-Open :
    (size : ℕ) (q : ThreadQueue) (node_id : ℕ)
    → QueueOpen size q
    → PopOpen size (Queue.pop q node_id)
unfolding Queue.pop
pop-Open size q node_id all =
    elim (slot q node_id)
      as (λ (o : Option ℕ).
        PopOpen size (elim o [ none ↦ (none, q) | some i ↦ pop_slot q i (q.head i) ])) [
          | none ↦ (tt, all)
          | some i ↦ pop_slot-Open size q i (q.head i) all (all i)
        ]

insert_slot-Open :
    (size : ℕ) (q : ThreadQueue) (node : MetaData) (o : Option ℕ)
    → QueueOpen size q
    → Open size node
    → QueueOpen size (insert_slot q node o)
insert_slot-Open size q node none all room = all
insert_slot-Open size q node (some i) all room =
    update-Open size q i (node ∷ q.head i) all (room, all i)

drain_from-HeapOpen :
    (size : ℕ) (free : Option MetaData) (h : Heap)
    → h.free ≡ free
    → FreeOpen size free
    → QueueOpen size h.queue
    → HeapOpen size (drain_from free h) × ((drain_from free h).free ≡ none)
unfolding Queue.insert
drain_from-HeapOpen size none h e room all = rw e ((tt, all), refl)
drain_from-HeapOpen size (some node) h e room all =
    ((tt, insert_slot-Open size h.queue node (slot h.queue node.node_id) all room), refl)

-- `drain_pending` keeps the rule that kept pages have room, and leaves the thread without pages.
pub drain_pending-HeapOpen :
    (size : ℕ) (h : Heap)
    → HeapOpen size h
    → HeapOpen size (drain_pending h) × ((drain_pending h).free ≡ none)
unfolding drain_pending
drain_pending-HeapOpen size h ok = drain_from-HeapOpen size h.free h refl ok.0 ok.1
