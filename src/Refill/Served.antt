-- ===== src/Refill/Served.antt =====
-- What `rs_alloc` of inner/alloc.rs gives for a size class.
use rsmalloc.Common.{
  ℕ, ◌+◌, ◌<◌, ◌≡◌, ◌⊎◌, refl, false, Option, none, some, List, [], ◌∷◌, ◌==◌, if_cases, inl, inr,
  arith,
}
use rsmalloc.Layout.{header_size}
use rsmalloc.SizeClass.{num_size_classes}
use rsmalloc.Slab.{ClassCache}
use rsmalloc.Slab.Local.{Attempt, pop}
use rsmalloc.Slab.Marked.{Marked}
use rsmalloc.Slab.Batch.{held, Took}
use rsmalloc.Slab.Kept.{Counted}
use rsmalloc.Slab.Popped.{any_commits, PopResult, pop-PopResult}
use rsmalloc.Bulk.{Header}
use rsmalloc.Bulk.Open.{HeapOpen}
use rsmalloc.Large.{allocated_flag}
use rsmalloc.Refill.{Site, Stock}
use rsmalloc.Refill.Given.{size_of, Fed}
use rsmalloc.Refill.Fed.{fill-Fed}
use rsmalloc.Refill.Malloc.{hand_out, popped_or_filled, after_pop, rs_alloc_class}

-- A header of a block in use.
abbrev pub InUse : (magic : ℕ) → Header → Type 0
InUse magic h = (h.magic ≡ magic) × (h.flags ≡ allocated_flag)

-- A block from the lists of one CPU, or what `fill` gives after a search of the own lists, which moved no
-- block to or from any CPU.
abbrev pub Found : Site → List (Option ℕ) → Stock → Option ℕ × Stock → Type 0
Found p mems s r =
    ((header : ℕ) × (r.0 ≡ some header)
      × Took s.cache.cpu r.1.cache.cpu (header ∷ [])
      × Marked r.1.cache
      × HeapOpen (size_of p) r.1.heap)
    ⊎ ((cache : ClassCache) × ((x c : ℕ) → held x (cache.cpu c) ≡ held x (s.cache.cpu c))
        × Fed p mems cache.cpu cache.nonempty s.heap r)

-- What the caller sees of a block that was found, or of none.
abbrev pub HandedOut : (magic : ℕ) → (found given : Option ℕ × Stock) → Type 0
HandedOut magic (none, s) given = given ≡ (none, s)
HandedOut magic (some header, s) given =
    (given.0 ≡ some (header + header_size))
    × (given.1.cache ≡ s.cache)
    × InUse magic (given.1.heap.headers header)
    × ((a : ℕ) → (header == a) ≡ false → given.1.heap.headers a ≡ s.heap.headers a)

abbrev pub Served :
    (magic : ℕ) → Site → List Attempt → List (Option ℕ) → Stock → Option (Option ℕ × Stock) → Type 0
Served magic p rounds mems s none = any_commits rounds ≡ false
Served magic p rounds mems s (some given) =
    (found : Option ℕ × Stock) × Found p mems s found × HandedOut magic found given

hand_out-HandedOut :
    (magic : ℕ) (found : Option ℕ × Stock) → HandedOut magic found (hand_out magic found)
hand_out-HandedOut magic (none, s) = refl
hand_out-HandedOut magic (some header, s) =
    let h : Header = record (s.heap.headers header) { magic = magic; flags = allocated_flag } in
    (
      refl,
      refl,
      if_cases (InUse magic) (header == header) h (s.heap.headers header) (λ _. (refl, refl))
          (λ miss. absurd (ground (arith, miss))),
      λ a other. rw other refl,
    )

module _ (p : Site) (mems : List (Option ℕ)) (s : Stock) (known : p.class < num_size_classes)
    (on_node : p.numa.cpu_to_node p.cpu_id < p.numa.nranges) (some_cpu : 0 < p.numa.ncpu)
    (ok : HeapOpen (size_of p) s.heap) where
  popped-Found :
      (rounds : List Attempt) (popped : Option ℕ × ClassCache)
      → PopResult s.cache rounds (some popped)
      → Found p mems s (popped_or_filled p mems popped s)
  popped-Found rounds (none, cache) (m, counted, same, empty) =
      inr (cache, same, fill-Fed p mems (record s { cache = cache }) known on_node some_cpu m ok)
  popped-Found rounds (some header, cache) (m, counted, took) = inl (header, refl, took, m, ok)

  after_pop-Served :
      (magic : ℕ) (rounds : List Attempt) (popped : Option (Option ℕ × ClassCache))
      → PopResult s.cache rounds popped
      → Served magic p rounds mems s (after_pop magic p mems popped s)
  after_pop-Served magic rounds none h = h
  after_pop-Served magic rounds (some popped) h =
      let found = popped_or_filled p mems popped s in
      (found, popped-Found rounds popped h, hand_out-HandedOut magic found)

-- For one of the 34 classes, a CPU of a node of the topology, at least one CPU, hints and counts that
-- are as they should be and kept pages that have room: `rs_alloc` has no result only while all
-- restartable sequences abort. Else it hands out a block that was in the lists of one CPU, which are its
-- own list, its transfer list and its list of trimmed blocks, and takes it from them; or what `fill`
-- finds while each CPU holds, in these lists together, the blocks that it held before; or null if `fill`
-- finds none. With a block, the pointer is 16 bytes behind the header, the header has the magic value
-- and the flag of a block in use, and no other header changed on handing it out.
pub rs_alloc_class-Served :
    (magic : ℕ) (p : Site) (rounds : List Attempt) (mems : List (Option ℕ)) (s : Stock)
    → p.class < num_size_classes
    → p.numa.cpu_to_node p.cpu_id < p.numa.nranges
    → 0 < p.numa.ncpu
    → Marked s.cache
    → Counted s.cache.cpu
    → HeapOpen (size_of p) s.heap
    → Served magic p rounds mems s (rs_alloc_class magic p rounds mems s)
unfolding rs_alloc_class
rs_alloc_class-Served magic p rounds mems s known on_node some_cpu m counted ok =
    after_pop-Served p mems s known on_node some_cpu ok magic rounds (pop s.cache rounds 0)
      (pop-PopResult s.cache rounds 0 m counted)
