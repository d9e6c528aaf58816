-- ===== src/Refill.antt =====
-- `take_one_from_batch`, `refill` and `fill` of inner/alloc.rs, for one size class: a batch of blocks from
-- the caches of other CPUs or from pages, its first block for the caller and the rest for the cache of
-- the CPU. The answers of `PAGE_ALLOCATOR.alloc`, one for each try of `bulk_fill`, are a list; `none` is a
-- null pointer. The statistics of debug builds and the start of the trimmer thread are left out.
pub mod Given
pub mod Fed
pub mod Malloc
pub mod Served
mod Tests
use rsmalloc.Common.{
  ℕ, ◌+◌, ◌-◌, ◌/◌, max, Bool, true, false, ◌&&◌, Option, none, some, List, [], ◌∷◌, length, ltb,
  ◌==◌, if◌then◌else◌,
}
use rsmalloc.Word.{saturating_add}
use rsmalloc.SizeClass.{iterations, cache_high_blocks}
use rsmalloc.Predictor
use rsmalloc.Predictor.{AdaptiveBatching}
use rsmalloc.Slab.{ClassCache}
use rsmalloc.Slab.Local.{Attempt, push_tailed}
use rsmalloc.Slab.Steal.{Topology, try_pop}
use rsmalloc.Bulk.{Heap}
use rsmalloc.Bulk.Fill.{bulk_fill}

-- What a call reads: the class, the topology, the initial batches, the CPU, `CURRENT_STAMP`, and the one
-- restartable sequence that a call runs.
pub record Site : Type 0 where
  pub class : ℕ
  pub numa : Topology
  pub batches : Predictor.Config
  pub cpu_id : ℕ
  pub stamp : ℕ
  pub sequence : Attempt

-- What it changes: the caches of the class, the pages, `TRANSFER_BATCHING` and `BULK_FILL_BATCHING`.
pub record Stock : Type 0 where
  pub cache : ClassCache
  pub heap : Heap
  pub transfer_batching : AdaptiveBatching
  pub bulk_fill_batching : AdaptiveBatching

-- `node_for_cpu`
abbrev pub node_for_cpu : Site → ℕ
node_for_cpu p = if p.numa.is_numa then p.numa.cpu_to_node p.cpu_id else 0

-- `take_one_from_batch`
unfoldable pub take_one_from_batch : Site → List ℕ → Stock → Option ℕ × Stock
unfolding cache_high_blocks
take_one_from_batch p [] s = (none, s)
take_one_from_batch p (first ∷ []) s = (some first, s)
take_one_from_batch p (first ∷ second ∷ next) s = (
  some first,
  record s {
    cache =
        push_tailed (cache_high_blocks p.class) s.cache p.sequence (second ∷ next)
          (length (first ∷ second ∷ next) - 1);
  },
)

-- The demand that is reported: more than the batch if all of it was there.
abbrev pub observed : (batch count limit : ℕ) → ℕ
observed batch count limit =
    if count == batch && ltb batch limit then saturating_add batch (max (batch / 4) 1) else count

-- After the tries: `SLAB_CACHE.try_pop(class, 1, cpu_id).0`
abbrev pub head_of : List ℕ → Option ℕ
head_of [] = none
head_of (first ∷ rest) = some first

abbrev pub only_start : Option (List ℕ) × ClassCache → Stock → Option ℕ × Stock
only_start (none, cache) s = (none, record s { cache = cache })
only_start (some blocks, cache) s = (head_of blocks, record s { cache = cache })

-- The blocks that `bulk_fill` gave, or the next try.
abbrev pub filled :
    Site
    → (bulk_batch : ℕ) → Option (List ℕ) × Heap
    → Stock
    → (continue : Stock → Option ℕ × Stock) → Option ℕ × Stock
filled p bulk_batch (none, heap) s continue = continue (record s { heap = heap })
filled p bulk_batch (some blocks, heap) s continue =
    let limit = iterations p.class in
    take_one_from_batch p blocks (record s {
      heap = heap;
      bulk_fill_batching =
          Predictor.update_refill p.batches s.bulk_fill_batching
            (observed bulk_batch (length blocks) limit) limit;
    })

-- `refill`, a try for each answer of the page allocator: `MAX_REFILL_RETRIES` is their number.
unfoldable pub refill : Site → (mems : List (Option ℕ)) → Stock → Option ℕ × Stock
refill p [] s = only_start (try_pop p.numa p.cpu_id 1 s.cache) s
refill p (mem ∷ mems) s =
    let (bulk_batch, batching) =
      Predictor.batch p.batches s.bulk_fill_batching (iterations p.class) in
    let asked = record s { bulk_fill_batching = batching } in
    filled p bulk_batch (bulk_fill p.class (node_for_cpu p) bulk_batch p.stamp mem s.heap) asked
      (refill p mems)

-- `fill` with what `try_pop` gave it.
abbrev pub fill_from_caches :
    Site
    → (cache_batch : ℕ) → (mems : List (Option ℕ)) → Option (List ℕ) × ClassCache
    → Stock
    → Option ℕ × Stock
fill_from_caches p cache_batch mems (none, cache) s = refill p mems (record s { cache = cache })
fill_from_caches p cache_batch mems (some blocks, cache) s =
    let limit = iterations p.class in
    take_one_from_batch p blocks (record s {
      cache = cache;
      transfer_batching =
          Predictor.update_refill p.batches s.transfer_batching
            (observed cache_batch (length blocks) limit) limit;
    })

-- `fill`
unfoldable pub fill : Site → (mems : List (Option ℕ)) → Stock → Option ℕ × Stock
fill p mems s =
    let (cache_batch, batching) =
      Predictor.batch p.batches s.transfer_batching (iterations p.class) in
    fill_from_caches p cache_batch mems (try_pop p.numa p.cpu_id cache_batch s.cache)
      (record s { transfer_batching = batching })
