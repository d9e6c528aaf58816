-- ===== src/Refill/Tests.antt =====
-- Runs of `fill` and `rs_alloc` of inner/alloc.rs, and witnesses of the theorems on them.
use rsmalloc.Common.{
  ◌≡◌, ℕ, zero, suc, refl, true, false, none, [], ◌∷◌, ◌==◌, if◌then◌else◌, arith,
}
use rsmalloc.Predictor
use rsmalloc.Slab.{CpuCache, ClassCache}
use rsmalloc.Slab.Marked.{Marked}
use rsmalloc.Refill.{Site, Stock, fill}
use rsmalloc.Refill.Given.{Fed}
use rsmalloc.Slab.Kept.{Counted}
use rsmalloc.Refill.Malloc.{rs_alloc_class}
use rsmalloc.Refill.Served.{Served, rs_alloc_class-Served}
use rsmalloc.Refill.Fed.{fill-Fed}

-- CPU 1 has blocks to steal; the call runs on CPU 0.
abbrev cpus : ℕ → CpuCache
cpus c = record {
  list = [];
  usage = 0;
  mail = record { list = (elim c [ suc zero ↦ 4144 ∷ 5184 ∷ 6224 ∷ [] | _ ↦ [] ]); trimmed = [] };
}

abbrev caches : ClassCache
caches = record { cpu = cpus; nonempty = λ c. c == 1; being_stolen = λ c. false }

caches-Marked : Marked caches
caches-Marked zero h = cc
caches-Marked (suc zero) h = refl
caches-Marked (suc (suc c)) h = cc

abbrev site : Site
site = record {
  class = 14;
  numa = record {
    is_numa = false;
    ncpu = 4;
    nranges = 1;
    cpu_to_node = λ c. 0;
    start_cpu = λ n. 0;
    end_cpu = λ n. 3;
  };
  batches = record { init_batch = 2; bulk_fill_init_batch = 4 };
  cpu_id = 0;
  stamp = 7;
  sequence = record { current_cpu = 0; commits = true };
}

abbrev stock : Stock
stock = record {
  cache = caches;
  heap = record {
    headers = λ a. record { flags = 0; class = 0; magic = 0; life_time = 0 };
    free = none;
    queue = record { mapped = true; is_numa = false; node_count = 1; head = λ i. [] };
    radix = λ i. none;
    cached_va = 0;
    freed_magic = 19794;
  };
  transfer_batching = Predictor.new false;
  bulk_fill_batching = Predictor.new true;
}

fill-Fed_example :
    Fed site
      (none ∷ none ∷ none ∷ [])
      stock.cache.cpu
      stock.cache.nonempty
      stock.heap
      (fill site (none ∷ none ∷ none ∷ []) stock)
fill-Fed_example =
    fill-Fed site (none ∷ none ∷ none ∷ []) stock (omega arith) (omega arith) (omega arith)
      caches-Marked (tt, λ i. tt)

-- The list of CPU 0 has a block.
abbrev ready : Stock
ready = record stock {
  cache = record caches {
    cpu = λ c. record {
      list = (if c == 0 then 8208 ∷ [] else []);
      usage = (if c == 0 then 1 else 0);
      mail = (cpus c).mail;
    };
  };
}

ready-Marked : Marked ready.cache
ready-Marked zero h = cc
ready-Marked (suc zero) h = refl
ready-Marked (suc (suc c)) h = cc

ready-Counted : Counted ready.cache.cpu
ready-Counted zero = refl
ready-Counted (suc c) = let off : (suc c == 0) ≡ false = ground arith in rw off refl

rs_alloc_class-Served_example :
    Served 7 site
      (record { current_cpu = 0; commits = true } ∷ [])
      (none ∷ [])
      ready
      (rs_alloc_class 7 site (record { current_cpu = 0; commits = true } ∷ []) (none ∷ []) ready)
rs_alloc_class-Served_example =
    rs_alloc_class-Served 7 site (record { current_cpu = 0; commits = true } ∷ []) (none ∷ []) ready
      (omega arith) (omega arith) (omega arith) ready-Marked ready-Counted (tt, λ i. tt)
