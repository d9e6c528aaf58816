-- ===== src/Refill/Given.antt =====
-- What a refill of inner/alloc.rs may give, and `take_one_from_batch`, over the caches of all CPUs and the pages.
use rsmalloc.Common.{
  ℕ, ◌-◌, ◌≡◌, ◌⊎◌, ◌∙◌, Bool, false, Option, none, some, List, [], ◌∷◌, length, arith,
}
use mathlib.Core.Path.{subst}
use rsmalloc.SizeClass.{class_size, block_size, cache_high_blocks}
use rsmalloc.Slab.{CpuCache, is_null}
use rsmalloc.Slab.Marked.{Marked}
use rsmalloc.Slab.Batch.{Took}
use rsmalloc.Slab.Searched.{Dry, Hints, Dry-back}
use rsmalloc.Slab.Sent.{Gave, push_tailed-Sent}
use rsmalloc.Slab.Taken.{Covers}
use rsmalloc.Bulk.{Heap}
use rsmalloc.Bulk.Queue.{MetaData}
use rsmalloc.Bulk.Queue
use rsmalloc.Bulk.Open.{HeapOpen, Served}
use rsmalloc.Bulk.Answered.{Source}
use rsmalloc.Refill.{Site, Stock, node_for_cpu, take_one_from_batch}

abbrev pub size_of : Site → ℕ
size_of p = block_size (class_size p.class)

abbrev pub Among : Option ℕ → List (Option ℕ) → Type 0
Among mem [] = ⊥
Among mem (m ∷ mems) = (mem ≡ m) ⊎ Among mem mems

-- Blocks at the front of pages of the thread, of the queue or of one of the answers.
abbrev pub Carved : Site → List (Option ℕ) → Heap → List ℕ → Type 0
Carved p mems heap blocks =
    (metadata : MetaData) × (mem : Option ℕ) × (max_init : ℕ) × Among mem mems
    × Source p.class (size_of p) (node_for_cpu p) mem heap metadata
    × Served (size_of p) max_init metadata blocks

-- A batch that comes from the lists of one CPU, which are `mid` after, or from pages.
abbrev pub Origin : Site → List (Option ℕ) → (cpu mid : ℕ → CpuCache) → Heap → List ℕ → Type 0
Origin p mems cpu mid heap blocks = Took cpu mid blocks ⊎ ((mid ≡ cpu) × Carved p mems heap blocks)

-- No pages, and an error for each try.
abbrev pub NoPages : Site → List (Option ℕ) → Heap → Type 0
NoPages p [] heap = Unit
NoPages p (mem ∷ mems) heap =
    (heap.free ≡ none)
    × ((Queue.pop heap.queue (node_for_cpu p)).0 ≡ none)
    × (mem ≡ none)
    × NoPages p mems heap

-- The caller has the first block of a batch, and the rest went to the lists of one CPU; or there is no
-- block, the lists and the pages did not change, each CPU is dry, and there are no pages.
unfoldable pub Fed :
    Site
    → List (Option ℕ)
    → (cpu : ℕ → CpuCache) → (nonempty : ℕ → Bool) → Heap
    → Option ℕ × Stock
    → Type 0
Fed p mems cpu nonempty heap (none, after) =
    (after.cache.cpu ≡ cpu)
    × (after.heap ≡ heap)
    × ((c : ℕ) → Covers p.numa c → Dry cpu nonempty c)
    × NoPages p mems heap
Fed p mems cpu nonempty heap (some first, after) =
    Marked after.cache
    × HeapOpen (size_of p) after.heap
    × ((rest : List ℕ) × (mid : ℕ → CpuCache) × Origin p mems cpu mid heap (first ∷ rest)
        × Gave mid after.cache.cpu rest)

pub take_one_from_batch-Fed :
    (p : Site) (mems : List (Option ℕ)) (cpu : ℕ → CpuCache) (nonempty : ℕ → Bool) (heap : Heap)
    (blocks : List ℕ) (s : Stock)
    → is_null blocks ≡ false
    → Marked s.cache
    → HeapOpen (size_of p) s.heap
    → Origin p mems cpu s.cache.cpu heap blocks
    → Fed p mems cpu nonempty heap (take_one_from_batch p blocks s)
unfolding Fed take_one_from_batch
take_one_from_batch-Fed p mems cpu nonempty heap [] s some_block m ok origin =
    absurd (ground (arith, some_block))
take_one_from_batch-Fed p mems cpu nonempty heap (first ∷ []) s some_block m ok origin =
    (m, ok, ([], s.cache.cpu, origin, (0, λ x c. ground arith)))
take_one_from_batch-Fed p mems cpu nonempty heap (first ∷ second ∷ next) s some_block m ok origin =
    let (marked, gave) =
      push_tailed-Sent (cache_high_blocks p.class) s.cache p.sequence (second ∷ next)
        (length (first ∷ second ∷ next) - 1) m in
    (marked, ok, (second ∷ next, s.cache.cpu, origin, gave))

-- What holds of the lists and hints that a search left, which found no block, holds of those before it.
pub Fed-back :
    (p : Site) (mems : List (Option ℕ)) (cpu old : ℕ → CpuCache) (nonempty marks : ℕ → Bool)
    (heap : Heap) (r : Option ℕ × Stock)
    → cpu ≡ old
    → Hints old marks nonempty
    → Fed p mems cpu nonempty heap r
    → Fed p mems old marks heap r
unfolding Fed
Fed-back p mems cpu old nonempty marks heap (none, after) same hints
      (kept, same_heap, dry, no_pages) =
    (
      kept ∙ same,
      same_heap,
      λ c covered. Dry-back old cpu marks nonempty c same hints (dry c covered),
      no_pages,
    )
Fed-back p mems cpu old nonempty marks heap (some first, after) same hints
      (m, ok, (rest, mid, origin, gave)) =
    (
      m,
      ok,
      (rest, mid, subst (λ from. Origin p mems from mid heap (first ∷ rest)) same origin, gave),
    )
