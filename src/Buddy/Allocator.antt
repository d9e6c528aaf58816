-- ===== src/Buddy/Allocator.antt =====
-- `BuddyAllocator` of buddy.rs: how regions are made, searched and freed into. A region is found by
-- the address of its node, as the code does; the answers of `mmap` come in a list, in call order.
pub mod Size
pub mod Create
pub mod Serve
pub mod Conserve
pub mod Release
pub mod Example
mod Tests
use rsmalloc.Common.{
  ℕ, zero, suc, ◌+◌, ◌-◌, ◌*◌, ◌/◌, ◌%◌, ◌^◌, min, max, Bool, true, false, Option, none, some, List,
  [], ◌∷◌, ltb, ◌>>=◌, ◌==◌, if◌then◌else◌, get_or,
}
use rsmalloc.Word.{
  trailing_zeros, next_power_of_two, checked_next_power_of_two, checked_add, checked_mul,
}
use rsmalloc.Layout.{page_size}
use rsmalloc.SizeClass.{align_to}
use rsmalloc.Buddy.Region.{
  Region, FreeBlock, min_order, max_order, not_allocated, push_free_block, alloc_from_region,
  free_block,
}

abbrev pub max_block_size : ℕ
max_block_size = 2 ^ max_order

-- `size_of::<BuddyRegion>()`: five words and a half, three arrays of five, five locks of a line each
abbrev region_struct_size : ℕ
region_struct_size = 512

-- `BuddyAllocator`, each region with the address of its node; `initialized` is the state of `once`.
pub record Allocator : Type 0 where
  pub regions : List (ℕ × Region)
  pub grow_order : ℕ
  pub thp : Bool
  pub initialized : Bool

-- What the allocator meets outside: the answers of `mmap` to come, where `none` is an error, the
-- ranges given to `RADIX.set_range`, `MAX_REFILL_RETRIES` and `CURRENT_STAMP`.
pub record Machine : Type 0 where
  pub maps : List (Option ℕ)
  pub owned : List (ℕ × ℕ)
  pub retries : ℕ
  pub stamp : ℕ

-- `BuddyAllocator::new`
pub new : Allocator
new = record { regions = []; grow_order = min_order; thp = false; initialized = false }

unfoldable pub order_for_size : ℕ → ℕ
order_for_size size = trailing_zeros (next_power_of_two (max size 1))

unfoldable pub normalize_region_size : ℕ → ℕ
normalize_region_size size =
    max (get_or_else (checked_next_power_of_two size) max_block_size) max_block_size
  where
    get_or_else : Option ℕ → ℕ → ℕ
    get_or_else none d = d
    get_or_else (some n) d = n

-- `mmap_anonymous`, tried at most `n` times, and the answers left; no answer is an error.
retry : ℕ → List (Option ℕ) → Option ℕ × List (Option ℕ)
retry zero maps = (none, maps)
retry (suc n) [] = (none, [])
retry (suc n) (none ∷ rest) = retry n rest
retry (suc n) (some addr ∷ rest) = (some addr, rest)

map_retry : Machine → Option ℕ × Machine
map_retry m = let (answer, rest) = retry m.retries m.maps in (answer, record m { maps = rest })

-- The bytes of the bitmaps of the orders from `order` on, added to `bytes`.
bitmap_bytes : ℕ → ℕ → (region_size bytes : ℕ) → Option ℕ
bitmap_bytes zero order region_size bytes = some bytes
bitmap_bytes (suc n) order region_size bytes = do
  let words = (region_size / 2 ^ order + 63) / 64
  size ← checked_mul words 8
  sum ← checked_add bytes size
  bitmap_bytes n (order + 1) region_size sum

-- The size of the mapping that `alloc_region_node` asks for.
node_size : ℕ → Option ℕ
node_size region_size = do
  bytes ← bitmap_bytes (max_order + 1 - min_order) min_order region_size 0
  sum ← checked_add region_struct_size bytes
  some (align_to sum page_size)

pub alloc_region_node : ℕ → Machine → Option ℕ × Machine
alloc_region_node region_size m = elim (node_size region_size) [
  | none ↦ (none, m)
  | some _ ↦ map_retry m
]

-- `BuddyRegion::empty` with the base, the size, the order and the node written, its bitmaps zero
pub empty_region : (base total_size node_id : ℕ) → Region
empty_region base total_size node_id = record {
  base = base;
  total_size = total_size;
  order = max_order;
  node_id = node_id;
  nonempty_mask = 0;
  free = λ index. [];
  free_bitmap = λ index word. 0;
}

-- `while offset < normalized_size`: at most `n` blocks of the largest order.
push_blocks : ℕ → Region → (stamp offset : ℕ) → Region
push_blocks zero r stamp offset = r
push_blocks (suc n) r stamp offset =
    let block : FreeBlock = record {
      addr = r.base + offset;
      life_time = stamp;
      trim_state = not_allocated;
    } in
    let rest = push_blocks n (push_free_block r max_order block) stamp (offset + max_block_size) in
    if ltb offset r.total_size then rest else r

-- The region that `add_region` publishes. Enough rounds: one for each block.
pub new_region : (stamp base total_size node_id : ℕ) → Region
new_region stamp base total_size node_id =
    push_blocks (total_size / max_block_size) (empty_region base total_size node_id) stamp 0

-- `add_region`
pub add_region : Allocator → Machine → (size node_id : ℕ) → Bool × Allocator × Machine
add_region a m size node_id =
    let total_size = normalize_region_size size in
    let (mapped, m') = map_retry m in
    let (node, m'') = alloc_region_node total_size m' in
    elim mapped [
      | none ↦ (false, a, m')
      | some base ↦ elim node [
        | none ↦ (false, a, m'')
        | some addr ↦ (
          true,
          record a { regions = (addr, new_region m.stamp base total_size node_id) ∷ a.regions },
          record m'' { owned = (base, total_size) ∷ m''.owned },
        )
      ]
    ]

-- `init`: what `call_once` runs is run once
pub init : Allocator → Machine → (size node_id : ℕ) → Bool → Allocator × Machine
init a m size node_id thp =
    let total_size = normalize_region_size size in
    let a' = record a {
      thp = thp;
      grow_order = min (order_for_size total_size) max_order;
      initialized = true;
    } in
    let (_, added, m') = add_region a' m total_size node_id in
    if a.initialized then (a, m) else (added, m')

-- What `alloc` returns: the address, the order, the trim state and the region's node.
pub record Block : Type 0 where
  pub addr : ℕ
  pub order : ℕ
  pub trim_state : ℕ
  pub region : ℕ

-- The region was searched; where it had no block, the search went `later` through the rest.
use_region :
    (node requested : ℕ) (rest : List (ℕ × Region)) (later : Option Block × List (ℕ × Region))
    → Option (ℕ × ℕ) × Region
    → Option Block × List (ℕ × Region)
use_region node requested rest later (some (addr, state), r) = (
  some (record { addr = addr; order = requested; trim_state = state; region = node }),
  (node, r) ∷ rest,
)
use_region node requested rest later (none, r) = (later.0, (node, r) ∷ later.1)

-- `alloc_from_node`: the first region of the node that has a block
pub alloc_from_node : List (ℕ × Region) → (requested node_id : ℕ) → Option Block × List (ℕ × Region)
alloc_from_node [] requested node_id = (none, [])
alloc_from_node ((node, r) ∷ rest) requested node_id =
    let later = alloc_from_node rest requested node_id in
    let here = use_region node requested rest later (alloc_from_region r requested) in
    if r.node_id == node_id then here else (later.0, (node, r) ∷ later.1)

-- `for i in 0..numa.nranges`, from `i` on, for `n` nodes
pub alloc_from_any :
    ℕ → List (ℕ × Region) → (requested node_id nranges i : ℕ) → Option Block × List (ℕ × Region)
alloc_from_any zero regions requested node_id nranges i = (none, regions)
alloc_from_any (suc n) regions requested node_id nranges i =
    let (found, regions') =
      alloc_from_node regions requested (((i + node_id) % nranges) % 2 ^ 16) in
    elim found [
      | some block ↦ (some block, regions')
      | none ↦ alloc_from_any n regions' requested node_id nranges (i + 1)
    ]

-- A search that goes on where the first one found nothing.
or_else :
    Option Block × List (ℕ × Region)
    → (List (ℕ × Region) → Option Block × List (ℕ × Region))
    → Option Block × List (ℕ × Region)
or_else (some block, regions) next = (some block, regions)
or_else (none, regions) next = next regions

-- `alloc` after `add_region`: the node again if a region was added, then each node
pub search_again :
    Bool → List (ℕ × Region) → (requested node_id nranges : ℕ) → Option Block × List (ℕ × Region)
search_again added regions requested node_id nranges =
    let any = λ (l : List (ℕ × Region)). alloc_from_any nranges l requested node_id nranges 0 in
    if added then or_else (alloc_from_node regions requested node_id) any else any regions

-- `alloc`; `nranges` is the number of the topology's nodes, 0 if the machine has none
pub alloc : Allocator → Machine → (size node_id nranges : ℕ) → Option Block × Allocator × Machine
alloc a m size node_id nranges =
    let requested = max (order_for_size size) min_order in
    let (found, regions) = alloc_from_node a.regions requested node_id in
    let searched = record a { regions = regions } in
    let expand_order = min (max a.grow_order requested) max_order in
    let (added, grown, m') = add_region searched m (2 ^ expand_order) node_id in
    let (again, regions') = search_again added grown.regions requested node_id nranges in
    if ltb max_order requested then (none, a, m) else elim found [
      | some block ↦ (some block, searched, m)
      | none ↦ (again, record grown { regions = regions' }, m')
    ]

-- The regions, with a function run on the one at an address.
pub at_region : ℕ → (Region → Region) → List (ℕ × Region) → List (ℕ × Region)
at_region node f [] = []
at_region node f ((n, r) ∷ rest) =
    if n == node then (n, f r) ∷ rest else (n, r) ∷ at_region node f rest

-- `free`
pub free : Allocator → Machine → (region addr order : ℕ) → Allocator
free a m region addr order = record a {
  regions = at_region region (λ r. free_block m.stamp r addr order) a.regions;
}
