-- ===== src/Large.antt =====
-- big_allocations/big_allocation.rs: blocks over the largest size class, from the buddy backend or from a
-- mapping of their own. The answers of `mmap` for the block and for a chunk of tree nodes are arguments,
-- `none` for an error; `none` as the result is an abort.
pub mod Rounded
pub mod Grants
pub mod Mapped
pub mod Backed
mod Tests
use rsmalloc.Common.{
  ℕ, zero, suc, ◌+◌, ◌-◌, ◌*◌, ◌%◌, ◌^◌, Bool, true, false, not, ◌&&◌, Option, none, some, List, [],
  ◌∷◌, ◌>>=◌, update, ltb, leb, ◌==◌, if◌then◌else◌,
}
use rsmalloc.Word.{checked_add, trailing_zeros, next_power_of_two}
use rsmalloc.Layout.{header_size}
use rsmalloc.SizeClass.{align_to}
use rsmalloc.Bulk.{Header, zero_flag}
use rsmalloc.Radix.{Radix, set_range, set_single_big}
use rsmalloc.Rbtree.{BigAllocMeta}
use rsmalloc.Rbtree.Store.{RbTree}
use rsmalloc.Rbtree.Store
use rsmalloc.Buddy.Allocator.{Allocator, Machine, Block}
use rsmalloc.Buddy.Allocator

abbrev pub two_mb : ℕ
two_mb = 2097152

abbrev pub allocated_flag : ℕ
allocated_flag = 2

abbrev pub trimmed_flag : ℕ
trimmed_flag = 3

-- What a call reads and does not change: `BUDDY_INIT`, `DISABLE_BUDDY`, `RS_DISABLE_THP`, `BIG_MAGIC`, the
-- node of the running CPU and the number of nodes.
pub record Config : Type 0 where
  pub buddy_init : Bool
  pub disable_buddy : Bool
  pub rs_disable_thp : Bool
  pub big_magic : ℕ
  pub node_id : ℕ
  pub nranges : ℕ

-- `BUDDY_BACKEND` with what it meets outside, `RADIX`, `BIG_MAP`, the headers in memory, and the ranges
-- that were given to `munmap`, the last one first.
pub record Globals : Type 0 where
  pub buddy : Allocator
  pub machine : Machine
  pub radix : Radix
  pub big_map : RbTree
  pub headers : ℕ → Header
  pub unmapped : List (ℕ × ℕ)

unfoldable pub estimate_and_align_2mb : (rs_disable_thp : Bool) → (size : ℕ) → ℕ
unfolding align_to
estimate_and_align_2mb rs_disable_thp size =
    let remainder = size % two_mb in
    if ltb 0 remainder && leb (two_mb - remainder) (1024 * 64) && not rs_disable_thp
    then align_to size two_mb
    else align_to size 4096

-- The memory of a block: `actual_ptr`, `mapped_total`, `buddy_region`, `registered` and `flag`.
pub record Memory : Type 0 where
  pub actual_ptr : ℕ
  pub mapped_total : ℕ
  pub buddy_region : ℕ
  pub registered : Bool
  pub flag : ℕ

-- The flag for a trim state of the buddy backend.
abbrev pub flag_of : (trim_state : ℕ) → ℕ
flag_of trim_state =
    if trim_state == 0 then zero_flag else if trim_state == 2 then trimmed_flag else allocated_flag

-- The ranges that the buddy backend gives to `RADIX.set_range`, the last one first.
abbrev pub own_all : Radix → List (ℕ × ℕ) → Radix
own_all radix [] = radix
own_all radix ((base, total) ∷ earlier) = set_range (own_all radix earlier) base total true

abbrev pub of_block : Option Block → Option Memory
of_block none = none
of_block (some block) = some (record {
  actual_ptr = block.addr;
  mapped_total = 2 ^ block.order;
  buddy_region = block.region;
  registered = true;
  flag = flag_of block.trim_state;
})

-- The part of `big_malloc` that asks the buddy backend.
unfoldable pub buddy_memory : Config → (size aligned_total : ℕ) → Globals → Option Memory × Globals
buddy_memory c size aligned_total g =
    let started = record (g.machine) { owned = [] } in
    let (block, buddy, machine) =
      Allocator.alloc g.buddy started aligned_total c.node_id c.nranges in
    if leb size (1024 * 1024 * 64) && c.buddy_init && not c.disable_buddy
    then (
      of_block block,
      record g { buddy = buddy; machine = machine; radix = own_all g.radix machine.owned },
    )
    else (none, g)

-- The part that maps memory where the buddy backend gave none.
abbrev pub or_mapped : Option Memory → (mmap : Option ℕ) → (aligned_total : ℕ) → Option Memory
or_mapped (some memory) mmap aligned_total = some memory
or_mapped none none aligned_total = none
or_mapped none (some pointer) aligned_total = some (record {
  actual_ptr = pointer;
  mapped_total = aligned_total;
  buddy_region = 0;
  registered = false;
  flag = zero_flag;
})

abbrev pub register : Memory → (aligned : Bool) → Radix → Radix
register memory aligned radix =
    if memory.registered
    then radix
    else if not aligned
    then set_single_big radix memory.actual_ptr true
    else set_range radix memory.actual_ptr memory.mapped_total true

abbrev pub meta_for : Memory → (size : ℕ) → (aligned : Bool) → BigAllocMeta
meta_for memory size aligned = record {
  next = 0;
  size = size;
  order = trailing_zeros (next_power_of_two memory.mapped_total);
  buddy_region = memory.buddy_region;
  aligned = aligned;
}

abbrev pub header_for : Config → Memory → Header
header_for c memory = record {
  flags = memory.flag;
  class = 100;
  magic = c.big_magic;
  life_time = 0;
}

-- `big_malloc` once it has asked for memory: the payload's address
unfoldable pub publish :
    Config
    → (chunk : Option ℕ) → (size : ℕ) → (aligned : Bool) → Option Memory
    → Globals
    → Option (Option ℕ × Globals)
publish c chunk size aligned none g = some (none, g)
publish c chunk size aligned (some memory) g = do
  let payload_ptr = memory.actual_ptr + header_size
  big_map ← Store.insert g.big_map payload_ptr (meta_for memory size aligned) chunk
  some (
    some payload_ptr,
    record g {
      headers = update g.headers memory.actual_ptr (header_for c memory);
      radix = register memory aligned g.radix;
      big_map = big_map;
    },
  )

-- `big_malloc` for a size that does not overflow
unfoldable pub big_malloc_total :
    Config
    → (mmap chunk : Option ℕ) → (size : ℕ) → (aligned : Bool) → Globals
    → Option (Option ℕ × Globals)
big_malloc_total c mmap chunk size aligned g =
    let aligned_total = estimate_and_align_2mb c.rs_disable_thp (size + header_size) in
    let (memory, asked) = buddy_memory c size aligned_total g in
    publish c chunk size aligned (or_mapped memory mmap aligned_total) asked

-- `big_malloc`
unfoldable pub big_malloc :
    Config
    → (mmap chunk : Option ℕ) → (size : ℕ) → (aligned : Bool) → Globals
    → Option (Option ℕ × Globals)
unfolding checked_add
big_malloc c mmap chunk size aligned g =
    if ltb (size + header_size) (2 ^ 64)
    then big_malloc_total c mmap chunk size aligned g
    else some (none, g)

-- `big_free` with the metadata of the block
unfoldable pub release : Config → (ptr : ℕ) → BigAllocMeta → Globals → Globals
release c ptr header g =
    let mapping_base = ptr - header_size in
    let payload_size = estimate_and_align_2mb c.rs_disable_thp (header.size + header_size) in
    if not (header.buddy_region == 0)
    then record g {
      buddy = Allocator.free g.buddy g.machine header.buddy_region mapping_base header.order;
    }
    else record g {
      radix =
          (if header.aligned
            then set_range g.radix mapping_base payload_size false
            else set_single_big g.radix mapping_base false);
      unmapped = (mapping_base, payload_size) ∷ g.unmapped;
    }

-- `big_free`
unfoldable pub big_free : Config → (ptr : ℕ) → Globals → Option Globals
big_free c ptr g = do
  (found, big_map) ← Store.remove g.big_map ptr
  header ← found
  some (release c ptr header (record g { big_map = big_map }))
