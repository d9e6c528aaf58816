-- ===== src/Large/Grants.antt =====
-- The metadata of a large block between its allocation and its release.
use rsmalloc.Common.{
  ℕ, ◌+◌, ◌≡◌, refl, ap, ◌∙◌, sym, Bool, Option, none, some, update, if_cases, ◌==◌, fun_ext, arith,
}
use rsmalloc.Layout.{header_size}
use rsmalloc.Rbtree.{BigAllocMeta}
use rsmalloc.Rbtree.Shows.{Shows}
use rsmalloc.Rbtree.Refine.{Gives, insert-Shows, remove-Shows}
use rsmalloc.Rbtree.Store.{RbTree}
use rsmalloc.Large.{
  Config, Globals, Memory, register, meta_for, header_for, publish, release, big_free,
}

-- The globals after a block was published.
abbrev pub published : Config → (size : ℕ) → Bool → Memory → Globals → RbTree → Globals
published c size aligned memory g big_map = record g {
  headers = update g.headers memory.actual_ptr (header_for c memory);
  radix = register memory aligned g.radix;
  big_map = big_map;
}

pub publish-Shows :
    (c : Config) (chunk : Option ℕ) (size : ℕ) (aligned : Bool) (memory : Memory) (g : Globals)
    (m : ℕ → Option BigAllocMeta)
    → Shows g.big_map.root m
    → Gives g.big_map.free_list chunk
    → (big_map : RbTree) × (publish c chunk size aligned (some memory) g
        ≡ some (some (memory.actual_ptr + header_size), published c size aligned memory g big_map))
      × Shows big_map.root
          (update m (memory.actual_ptr + header_size) (some (meta_for memory size aligned)))
unfolding publish
publish-Shows c chunk size aligned memory g m shows gives =
    let ptr = memory.actual_ptr + header_size in
    let (big_map, done, after) =
      insert-Shows g.big_map m ptr (meta_for memory size aligned) chunk shows gives in
    (big_map, rw done refl, after)

-- A key that was free is free again.
update-none :
    (m : ℕ → Option BigAllocMeta) (key : ℕ) (meta : BigAllocMeta)
    → m key ≡ none
    → update (update m key (some meta)) key none ≡ m
update-none m key meta free = fun_ext λ j.
    if_cases (λ (o : Option BigAllocMeta). o ≡ m j) (key == j) none (update m key (some meta) j)
      (λ hit. sym free ∙ ap m (ground (arith, hit))) (λ miss. rw miss refl)

-- `big_free` of a block whose metadata is in the map.
pub big_free-Shows :
    (c : Config) (ptr : ℕ) (meta : BigAllocMeta) (g : Globals) (m : ℕ → Option BigAllocMeta)
    → Shows g.big_map.root (update m ptr (some meta))
    → m ptr ≡ none
    → (big_map : RbTree) × (big_free c ptr g
        ≡ some (release c ptr meta (record g { big_map = big_map })))
      × Shows big_map.root m
unfolding big_free
big_free-Shows c ptr meta g m shows free =
    let (big_map, done, after) = remove-Shows g.big_map (update m ptr (some meta)) ptr shows in
    let there : update m ptr (some meta) ptr ≡ some meta =
      if_cases (λ (o : Option BigAllocMeta). o ≡ some meta) (ptr == ptr) (some meta) (m ptr)
        (λ _. refl) (λ miss. absurd (ground (arith, miss))) in
    (big_map, rw (done, there) refl, rw (update-none m ptr meta free) at after)
