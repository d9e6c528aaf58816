-- ===== src/Refill/Malloc.antt =====
-- The part of `rs_alloc` of inner/alloc.rs that serves a size class: a block from the list of the CPU, or
-- from `fill`, with its header marked. `rounds` are the restartable sequences of `SLAB_CACHE.pop`.
use rsmalloc.Common.{ℕ, ◌+◌, Option, none, some, List, update}
use rsmalloc.Layout.{header_size}
use rsmalloc.Slab.{ClassCache}
use rsmalloc.Slab.Local.{Attempt, pop}
use rsmalloc.Large.{allocated_flag}
use rsmalloc.Refill.{Site, Stock, fill}

-- The header of a block that is handed out, with `MAGIC`.
abbrev pub marked : (magic header : ℕ) → Stock → Stock
marked magic header s = record s {
  heap = record (s.heap) {
    headers =
        update s.heap.headers header
          (record (s.heap.headers header) { magic = magic; flags = allocated_flag });
  };
}

abbrev pub hand_out : (magic : ℕ) → Option ℕ × Stock → Option ℕ × Stock
hand_out magic (none, s) = (none, s)
hand_out magic (some header, s) = (some (header + header_size), marked magic header s)

abbrev pub popped_or_filled :
    Site → (mems : List (Option ℕ)) → Option ℕ × ClassCache → Stock → Option ℕ × Stock
popped_or_filled p mems (none, cache) s = fill p mems (record s { cache = cache })
popped_or_filled p mems (some header, cache) s = (some header, record s { cache = cache })

abbrev pub after_pop :
    (magic : ℕ)
    → Site
    → (mems : List (Option ℕ)) → Option (Option ℕ × ClassCache)
    → Stock
    → Option (Option ℕ × Stock)
after_pop magic p mems none s = none
after_pop magic p mems (some popped) s = some (hand_out magic (popped_or_filled p mems popped s))

-- `rs_alloc` for a class; no result while all sequences abort
unfoldable pub rs_alloc_class :
    (magic : ℕ)
    → Site
    → (rounds : List Attempt) → (mems : List (Option ℕ)) → Stock
    → Option (Option ℕ × Stock)
rs_alloc_class magic p rounds mems s = after_pop magic p mems (pop s.cache rounds 0) s
