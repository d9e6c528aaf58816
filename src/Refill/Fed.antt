-- ===== src/Refill/Fed.antt =====
-- What `fill` of inner/alloc.rs gives, over the caches of all CPUs and the pages.
use rsmalloc.Common.{
  ℕ, ◌≤◌, ◌<◌, ◌≡◌, refl, Bool, false, Option, none, some, List, [], ◌∷◌, length, arith, inl, inr,
}
use mathlib.Core.Path.{subst, sym}
use rsmalloc.SizeClass.{num_size_classes, iterations}
use rsmalloc.SizeClass.Refill.{refill_bounds}
use rsmalloc.Predictor
use rsmalloc.Predictor.Bounds.{batch-positive}
use rsmalloc.Slab.{CpuCache, ClassCache, is_null}
use rsmalloc.Slab.Marked.{Marked}
use rsmalloc.Slab.Searched.{Result}
use rsmalloc.Slab.Steal.{try_pop}
use rsmalloc.Slab.Short.{Short, try_pop-Short}
use rsmalloc.Slab.Taken.{Covers, try_pop-Result}
use rsmalloc.Bulk.{Heap}
use rsmalloc.Bulk.Queue.{MetaData}
use rsmalloc.Bulk.Queue
use rsmalloc.Bulk.Fill.{bulk_fill}
use rsmalloc.Bulk.Open.{HeapOpen}
use rsmalloc.Bulk.Answered.{Answer, bulk_fill-Answer}
use rsmalloc.Refill.{
  Site, Stock, node_for_cpu, observed, only_start, filled, refill, fill_from_caches, fill,
}
use rsmalloc.Refill.Given.{size_of, Fed, take_one_from_batch-Fed, Fed-back}

some_blocks : (blocks : List ℕ) → 1 ≤ length blocks → is_null blocks ≡ false
some_blocks [] h = absurd (omega (arith, h))
some_blocks (x ∷ xs) h = refl

-- Where a class, a CPU of a node and hints are as they should be.
module _ (p : Site) (known : p.class < num_size_classes)
    (on_node : p.numa.cpu_to_node p.cpu_id < p.numa.nranges) (some_cpu : 0 < p.numa.ncpu) where
  some_iterations : 1 ≤ iterations p.class
  some_iterations = let (padding, one, whole, rest, last) = refill_bounds p.class known in one

  only_start-Fed :
      (cpu : ℕ → CpuCache) (nonempty : ℕ → Bool) (heap : Heap) (r : Option (List ℕ) × ClassCache)
      (s : Stock)
      → HeapOpen (size_of p) s.heap
      → s.heap ≡ heap
      → Result (Covers p.numa) cpu nonempty r
      → Short 1 r
      → Fed p [] cpu nonempty heap (only_start r s)
  unfolding Fed
  only_start-Fed cpu nonempty heap (none, cache) s ok e (m, same, hints, dry) short =
      (same, e, dry, tt)
  only_start-Fed cpu nonempty heap (some [], cache) s ok e (m, some_block, took) short =
      absurd (ground (arith, some_block))
  only_start-Fed cpu nonempty heap (some (x ∷ []), cache) s ok e (m, some_block, took) short =
      (m, ok, ([], cache.cpu, inl took, (0, λ a c. ground arith)))
  only_start-Fed cpu nonempty heap (some (x ∷ y ∷ rest), cache) s ok e (m, some_block, took) short =
      absurd (omega (arith, short))

  -- Pages and answers for later tries are pages and answers for all.
  later-Fed :
      (mem : Option ℕ) (mems : List (Option ℕ)) (cpu : ℕ → CpuCache) (nonempty : ℕ → Bool)
      (heap : Heap) (r : Option ℕ × Stock)
      → heap.free ≡ none
      → (Queue.pop heap.queue (node_for_cpu p)).0 ≡ none
      → mem ≡ none
      → Fed p mems cpu nonempty heap r
      → Fed p (mem ∷ mems) cpu nonempty heap r
  unfolding Fed
  later-Fed mem mems cpu nonempty heap (none, after) free popped answer
        (same, same_heap, dry, no_pages) =
      (same, same_heap, dry, (free, popped, answer, no_pages))
  later-Fed mem mems cpu nonempty heap (some first, after) free popped answer
        (m, ok, (rest, mid, inl took, gave)) =
      (m, ok, (rest, mid, inl took, gave))
  later-Fed mem mems cpu nonempty heap (some first, after) free popped answer
        (m, ok, (rest, mid, inr (same, (metadata, base, top, among, source, served)), gave)) =
      (m, ok, (rest, mid, inr (same, (metadata, base, top, inr among, source, served)), gave))

  filled-Fed :
      (mem : Option ℕ) (mems : List (Option ℕ)) (batch : ℕ) (r : Option (List ℕ) × Heap) (s : Stock)
      (continue : Stock → Option ℕ × Stock)
      → Marked s.cache
      → Answer p.class (size_of p) (node_for_cpu p) batch mem s.heap r
      → ((t : Stock)
          → t.cache ≡ s.cache
          → t.heap ≡ s.heap
          → Fed p mems s.cache.cpu s.cache.nonempty s.heap (continue t))
      → Fed p (mem ∷ mems) s.cache.cpu s.cache.nonempty s.heap (filled p batch r s continue)
  unfolding Answer
  filled-Fed mem mems batch (none, heap) s continue m (free, popped, answer, same) later =
      later-Fed mem mems s.cache.cpu s.cache.nonempty s.heap (continue (record s { heap = heap }))
        free popped answer (later (record s { heap = heap }) refl same)
  filled-Fed mem mems batch (some blocks, heap) s continue m (ok, (metadata, source, served))
        later =
      take_one_from_batch-Fed p (mem ∷ mems) s.cache.cpu s.cache.nonempty s.heap blocks
        (record s {
          heap = heap;
          bulk_fill_batching =
              Predictor.update_refill p.batches s.bulk_fill_batching
                (observed batch (length blocks) (iterations p.class)) (iterations p.class);
        })
        (some_blocks blocks served.some_block) m ok
        (inr (refl, (metadata, mem, batch, inl refl, source, served)))

  refill-Fed :
      (mems : List (Option ℕ)) (s : Stock)
      → Marked s.cache
      → HeapOpen (size_of p) s.heap
      → Fed p mems s.cache.cpu s.cache.nonempty s.heap (refill p mems s)
  unfolding refill
  refill-Fed [] s m ok =
      only_start-Fed s.cache.cpu s.cache.nonempty s.heap (try_pop p.numa p.cpu_id 1 s.cache) s ok
        refl (try_pop-Result p.numa p.cpu_id 1 s.cache m on_node some_cpu)
        (try_pop-Short p.numa p.cpu_id 1 s.cache)
  refill-Fed (mem ∷ mems) s m ok =
      let (bulk_batch, batching) =
        Predictor.batch p.batches s.bulk_fill_batching (iterations p.class) in
      let asked = record s { bulk_fill_batching = batching } in
      filled-Fed mem mems bulk_batch
        (bulk_fill p.class (node_for_cpu p) bulk_batch p.stamp mem s.heap) asked (refill p mems) m
        (bulk_fill-Answer p.class (node_for_cpu p) bulk_batch p.stamp mem s.heap known
          (batch-positive p.batches s.bulk_fill_batching (iterations p.class) some_iterations) ok)
        (λ t same_cache same_heap.
          subst (λ (c : ClassCache). Fed p mems c.cpu c.nonempty s.heap (refill p mems t))
            same_cache
            (subst (λ h. Fed p mems t.cache.cpu t.cache.nonempty h (refill p mems t)) same_heap
              (refill-Fed mems t (subst Marked (sym same_cache) m)
                (subst (HeapOpen (size_of p)) (sym same_heap) ok))))

  fill_from_caches-Fed :
      (mems : List (Option ℕ)) (batch : ℕ) (r : Option (List ℕ) × ClassCache) (s : Stock)
      → HeapOpen (size_of p) s.heap
      → Result (Covers p.numa) s.cache.cpu s.cache.nonempty r
      → Fed p mems s.cache.cpu s.cache.nonempty s.heap (fill_from_caches p batch mems r s)
  fill_from_caches-Fed mems batch (none, cache) s ok (m, same, hints, dry) =
      Fed-back p mems cache.cpu s.cache.cpu cache.nonempty s.cache.nonempty s.heap
        (refill p mems (record s { cache = cache })) same hints
        (refill-Fed mems (record s { cache = cache }) m ok)
  fill_from_caches-Fed mems batch (some blocks, cache) s ok (m, some_block, took) =
      take_one_from_batch-Fed p mems s.cache.cpu s.cache.nonempty s.heap blocks
        (record s {
          cache = cache;
          transfer_batching =
              Predictor.update_refill p.batches s.transfer_batching
                (observed batch (length blocks) (iterations p.class)) (iterations p.class);
        })
        some_block m ok (inl took)

-- For one of the 34 classes, a CPU of a node of the topology, at least one CPU, hints that are as they
-- should be, kept pages that have room, and some answers of the page allocator (`MAX_REFILL_RETRIES` in
-- the code): `fill` gives no block only if every CPU of the topology has an empty normal transfer list,
-- every one that was marked before the call has no trimmed blocks either, and, if there is an answer,
-- the thread and the queue of the node have no pages and each answer is an error; then lists and pages
-- are as before. Else the caller has the first block of a batch that was in the lists of one CPU, or was
-- carved from the front of pages; all other blocks of the batch are in the lists of one CPU, no other
-- block moved, and hints and pages stay as they should be.
pub fill-Fed :
    (p : Site) (mems : List (Option ℕ)) (s : Stock)
    → p.class < num_size_classes
    → p.numa.cpu_to_node p.cpu_id < p.numa.nranges
    → 0 < p.numa.ncpu
    → Marked s.cache
    → HeapOpen (size_of p) s.heap
    → Fed p mems s.cache.cpu s.cache.nonempty s.heap (fill p mems s)
unfolding fill
fill-Fed p mems s known on_node some_cpu m ok =
    let (cache_batch, batching) =
      Predictor.batch p.batches s.transfer_batching (iterations p.class) in
    fill_from_caches-Fed p known on_node some_cpu mems cache_batch
      (try_pop p.numa p.cpu_id cache_batch s.cache) (record s { transfer_batching = batching }) ok
      (try_pop-Result p.numa p.cpu_id cache_batch s.cache m on_node some_cpu)
