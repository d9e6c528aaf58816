-- ===== src/Buddy/Region.antt =====
-- One `BuddyRegion` of buddy.rs and the functions that change its free lists. The doubly linked
-- list of an order is a list of `FreeBlock`s, its head first; unlinking a block through its `prev`
-- and `next` is taking it out of that list. The order locks are left out: each function runs alone.
pub mod Bitmap
pub mod Covers
pub mod Valid
pub mod Alloc
pub mod Free
pub mod Settle
pub mod Grow
mod Tests
use rsmalloc.Common.{
  ℕ, zero, suc, ◌+◌, ◌-◌, ◌*◌, ◌/◌, ◌%◌, ◌^◌, min, bit_and, bit_or, bit_xor, Bool, true, false,
  ◌&&◌, ◌||◌, not, Option, none, some, List, [], ◌∷◌, ltb, leb, ◌==◌, update, if◌then◌else◌,
}

-- `BIG_BUDDY_MIN_ORDER` and `BIG_BUDDY_MAX_ORDER`: blocks of 4 MiB to 64 MiB
abbrev pub min_order : ℕ
min_order = 22

abbrev pub max_order : ℕ
max_order = 26

abbrev pub not_allocated : ℕ
not_allocated = 0

abbrev pub allocated : ℕ
allocated = 1

abbrev pub trimmed : ℕ
trimmed = 2

-- `struct FreeBlock`, with the address at which it is written
pub record FreeBlock : Type 0 where
  pub addr : ℕ
  pub life_time : ℕ
  pub trim_state : ℕ

-- `struct BuddyRegion`: `free` and `free_bitmap` are indexed by `order_index`, a bitmap by word
pub record Region : Type 0 where
  pub base : ℕ
  pub total_size : ℕ
  pub order : ℕ
  pub node_id : ℕ
  pub nonempty_mask : ℕ
  pub free : ℕ → List FreeBlock
  pub free_bitmap : ℕ → ℕ → ℕ

abbrev pub order_index : ℕ → ℕ
order_index order = order - min_order

-- `1u8 << order_index(order)`
abbrev pub order_bit : ℕ → ℕ
order_bit order = 2 ^ order_index order

-- The number of a block among those of its order, counted from the base.
abbrev pub block_number : Region → ℕ → ℕ → ℕ
block_number r addr order = (addr - r.base) / 2 ^ order

-- `bitmap_location`: the word of a block, and the one bit in it
abbrev pub bitmap_location : Region → ℕ → ℕ → ℕ × ℕ
bitmap_location r addr order =
    let block = block_number r addr order in (block / 64, 2 ^ bit_and block (64 - 1))

pub block_is_free : Region → ℕ → ℕ → Bool
block_is_free r addr order =
    let (word, bit) = bitmap_location r addr order in
    not (bit_and (r.free_bitmap (order_index order) word) bit == 0)

-- A bitmap after `*word |= bit`, and after `*word &= !bit`.
unfoldable pub set_bit : (ℕ → ℕ) → ℕ × ℕ → ℕ → ℕ
set_bit bitmap (word, bit) = update bitmap word (bit_or (bitmap word) bit)

unfoldable pub clear_bit : (ℕ → ℕ) → ℕ × ℕ → ℕ → ℕ
clear_bit bitmap (word, bit) = update bitmap word (bit_and (bitmap word) (2 ^ 64 - 1 - bit))

unfoldable pub mark_order_nonempty : Region → ℕ → Region
mark_order_nonempty r order = record r { nonempty_mask = bit_or r.nonempty_mask (order_bit order) }

abbrev pub is_null {ℓ} : {A : Type ℓ} → List A → Bool
is_null [] = true
is_null (_ ∷ _) = false

unfoldable pub mark_order_empty_if_needed : Region → ℕ → Region
mark_order_empty_if_needed r order =
    if is_null (r.free (order_index order))
    then record r { nonempty_mask = bit_and r.nonempty_mask (2 ^ 8 - 1 - order_bit order) }
    else r

unfoldable pub push_free_block : Region → ℕ → FreeBlock → Region
push_free_block r order block =
    let index = order_index order in
    mark_order_nonempty
      (record r {
        free = update r.free index (block ∷ r.free index);
        free_bitmap =
            update r.free_bitmap index
              (set_bit (r.free_bitmap index) (bitmap_location r block.addr order));
      })
      order

-- A free list without the block at an address.
unfoldable pub unlink : ℕ → List FreeBlock → List FreeBlock
unlink addr [] = []
unlink addr (b ∷ bs) = if b.addr == addr then bs else b ∷ unlink addr bs

unfoldable pub remove_free_block : Region → ℕ → ℕ → Region
remove_free_block r order addr =
    let index = order_index order in
    mark_order_empty_if_needed
      (record r {
        free = update r.free index (unlink addr (r.free index));
        free_bitmap =
            update r.free_bitmap index
              (clear_bit (r.free_bitmap index) (bitmap_location r addr order));
      })
      order

-- `buddy`: the block that a block of this order was split from, or is merged with
pub buddy : Region → ℕ → ℕ → ℕ
buddy r addr order = r.base + bit_xor (addr - r.base) (2 ^ order)

-- `while alloc_order > requested_order`: `k` halvings give back the upper halves, largest first.
unfoldable pub split : ℕ → Region → ℕ → FreeBlock → Region
split zero r requested block = r
split (suc k) r requested block =
    let order = requested + k in
    split k (push_free_block r order (record block { addr = block.addr + 2 ^ order })) requested
      block

-- `while alloc_order <= region.order`: `n` orders are left to try. The mask was read once, before.
unfoldable pub find_block : ℕ → Region → (mask requested alloc_order : ℕ) → Option (ℕ × ℕ) × Region
find_block zero r mask requested alloc_order = (none, r)
find_block (suc n) r mask requested alloc_order =
    let skip = find_block n r mask requested (alloc_order + 1) in
    let dry =
      find_block n (mark_order_empty_if_needed r alloc_order) mask requested (alloc_order + 1) in
    if bit_and mask (order_bit alloc_order) == 0
    then skip
    else elim (r.free (order_index alloc_order)) [
      | [] ↦ dry
      | block ∷ _ ↦ (
        some (block.addr, block.trim_state),
        split (alloc_order - requested) (remove_free_block r alloc_order block.addr) requested
            block,
      )
    ]

-- `alloc_from_region`: the address and the trim state of the block taken, and the region after it
unfoldable pub alloc_from_region : Region → ℕ → Option (ℕ × ℕ) × Region
alloc_from_region r requested_order =
    let mask = bit_and r.nonempty_mask (2 ^ 8 - 2 ^ order_index requested_order) in
    if ltb r.order requested_order
    then (none, r)
    else if mask == 0
    then (none, r)
    else find_block (r.order + 1 - requested_order) r mask requested_order requested_order

-- The address lies in the region.
abbrev pub in_region : Region → ℕ → Bool
in_region r addr = leb r.base addr && ltb addr (r.base + r.total_size)

-- `while current_order < region.order`: at most `n` merges.
pub merge : ℕ → Region → ℕ → ℕ → ℕ × ℕ × Region
merge zero r current order = (current, order, r)
merge (suc n) r current order =
    let other = buddy r current order in
    let merged = merge n (remove_free_block r order other) (min current other) (order + 1) in
    if in_region r other && block_is_free r other order then merged else (current, order, r)

-- `free`, for a region that is there; `stamp` is `CURRENT_STAMP`
pub free_block : (stamp : ℕ) → Region → ℕ → ℕ → Region
free_block stamp r addr order =
    if ltb order min_order || ltb max_order order || not (in_region r addr) || ltb r.order order
    then r
    else let (current, current_order, r') = merge (r.order - order) r addr order in
      push_free_block r' current_order
        (record { addr = current; life_time = stamp; trim_state = allocated })

-- `try_grow_inplace`, for a region that is there: the address and the new order
pub try_grow_inplace : Region → ℕ → ℕ → Option (ℕ × ℕ) × Region
try_grow_inplace r addr current_order =
    let buddy_addr = buddy r addr current_order in
    if leb r.order current_order
    then (none, r)
    else if not (in_region r addr)
    then (none, r)
    else if ltb buddy_addr addr
    then (none, r)
    else if not (in_region r buddy_addr)
    then (none, r)
    else if block_is_free r buddy_addr current_order
    then (some (addr, current_order + 1), remove_free_block r current_order buddy_addr)
    else (none, r)
