-- ===== src/Large/Backed.antt =====
-- A large block of big_allocations/big_allocation.rs in memory of the buddy backend.
use rsmalloc.Common.{
  ℕ, suc, ◌+◌, ◌-◌, ◌^◌, ◌≤◌, ◌<◌, ◌≡◌, ◌≢◌, refl, ap₂, ◌∙◌, Bool, true, false, Option, none, some,
  ltb, ◌==◌, arith, one-le-pow, pow-suc,
}
use native.Mathlib.Decide.{dec_lt}
use native.Mathlib.Nat.{pow-le-pow_right}
use rsmalloc.Word.Log.{order_of, order_of-Reaches}
use rsmalloc.Layout.{header_size}
use rsmalloc.Buddy.Allocator.{Block}
use rsmalloc.Buddy.Allocator
use rsmalloc.Rbtree.{BigAllocMeta}
use rsmalloc.Rbtree.Shows.{Shows}
use rsmalloc.Rbtree.Refine.{Gives}
use rsmalloc.Large.{
  Config, Globals, Memory, flag_of, of_block, buddy_memory, meta_for, publish, big_malloc,
  big_malloc_total, release, big_free,
}
use rsmalloc.Large.Grants.{published, publish-Shows, big_free-Shows}
use rsmalloc.Large.Mapped.{total_of}

order_of-pow : (k : ℕ) → k ≤ 63 → order_of (2 ^ k) ≡ k
order_of-pow k h =
    let (power, enough, least) =
      order_of-Reaches (2 ^ k) (pow-le-pow_right {n = 2} (omega arith) h) in
    let o = order_of (2 ^ k) in
    elim (dec_lt k o) [
      | yes more ↦ absurd (let no = least k more in omega (arith, no))
      | no most ↦ elim (dec_lt o k) [
        | yes less ↦
            let up : 2 ^ suc o ≤ 2 ^ k =
              pow-le-pow_right {n = 2} (omega arith) (omega (arith, less)) in
            absurd (omega (arith, up, enough, pow-suc 2 o, one-le-pow o 2))
        | no least_too ↦ omega (arith, most, least_too)
      ]
    ]

release-block :
    (c : Config) (ptr : ℕ) (meta : BigAllocMeta) (g : Globals)
    → (meta.buddy_region == 0) ≡ false
    → release c ptr meta g ≡ record g {
      buddy = Allocator.free g.buddy g.machine meta.buddy_region (ptr - header_size) meta.order;
    }
unfolding release
release-block c ptr meta g e = rw e refl

abbrev memory_of : Block → Memory
memory_of block = record {
  actual_ptr = block.addr;
  mapped_total = 2 ^ block.order;
  buddy_region = block.region;
  registered = true;
  flag = flag_of block.trim_state;
}

-- A block that `big_malloc` had from the buddy backend, and that `big_free` then gave back.
pub record GivenBack (c : Config) (size : ℕ) (block : Block) (before : Globals)
    (m : ℕ → Option BigAllocMeta) (r : Option (Option ℕ × Globals)) : Type 0 where
  pub given : Globals
  pub granted : r ≡ some (some (block.addr + header_size), given)
  pub after : Globals
  pub freed : big_free c (block.addr + header_size) given ≡ some after
  pub back :
      after.buddy ≡ Allocator.free before.buddy before.machine block.region block.addr block.order
  pub unlisted : Shows after.big_map.root m
  pub same_radix : after.radix ≡ before.radix
  pub none_unmapped : after.unmapped ≡ before.unmapped

publish-GivenBack :
    (c : Config) (chunk : Option ℕ) (size : ℕ) (aligned : Bool) (block : Block) (g : Globals)
    (m : ℕ → Option BigAllocMeta)
    → block.order ≤ 63
    → block.region ≢ 0
    → m (block.addr + header_size) ≡ none
    → Shows g.big_map.root m
    → Gives g.big_map.free_list chunk
    → GivenBack c size block g m (publish c chunk size aligned (some (memory_of block)) g)
publish-GivenBack c chunk size aligned block g m small region new shows gives =
    let memory = memory_of block in
    let ptr = block.addr + header_size in
    let (big_map, done, listed) = publish-Shows c chunk size aligned memory g m shows gives in
    let given = published c size aligned memory g big_map in
    let (big_map', freed, unlisted) =
      big_free-Shows c ptr (meta_for memory size aligned) given m listed new in
    let kept = record given { big_map = big_map' } in
    let there : (block.region == 0) ≡ false = ground (arith, region) in
    let order : order_of (2 ^ block.order) ≡ block.order = order_of-pow block.order small in
    let start : ptr - header_size ≡ block.addr = omega arith in
    let gave : Globals = record kept {
      buddy = Allocator.free g.buddy g.machine block.region block.addr block.order;
    } in
    let released : release c ptr (meta_for memory size aligned) kept ≡ gave =
      release-block c ptr (meta_for memory size aligned) kept there
      ∙ ap₂ (λ (a o : ℕ). record kept { buddy = Allocator.free g.buddy g.machine block.region a o })
          start order in
    record {
      given = given;
      granted = done;
      after = gave;
      freed = rw released at freed;
      back = refl;
      unlisted = unlisted;
      same_radix = refl;
      none_unmapped = refl;
    }

-- `big_malloc` of a size that does not overflow, where the buddy backend gives a block of an order of at
-- most 63 whose region is not at address 0, at a place without metadata: the pointer is 16 bytes into the
-- block. A `big_free` of the pointer then does not abort: it frees in the buddy backend that block, with
-- its region, address and order, and takes it out of the metadata map; the radix tree stays as it is and
-- nothing goes to `munmap`.
pub big_free-big_malloc_buddy :
    (c : Config) (mmap chunk : Option ℕ) (size : ℕ) (aligned : Bool) (block : Block)
    (g asked : Globals) (m : ℕ → Option BigAllocMeta)
    → size + header_size < 2 ^ 64
    → buddy_memory c size (total_of c size) g ≡ (of_block (some block), asked)
    → block.order ≤ 63
    → block.region ≢ 0
    → m (block.addr + header_size) ≡ none
    → Shows asked.big_map.root m
    → Gives asked.big_map.free_list chunk
    → GivenBack c size block asked m (big_malloc c mmap chunk size aligned g)
unfolding big_malloc big_malloc_total
big_free-big_malloc_buddy c mmap chunk size aligned block g asked m fits got small region new shows
      gives =
    let ok : ltb (size + header_size) (2 ^ 64) ≡ true = ground (arith, fits) in
    rw (ok, got) (publish-GivenBack c chunk size aligned block asked m small region new shows gives)
