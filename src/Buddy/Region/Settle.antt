-- ===== src/Buddy/Region/Settle.antt =====
-- After `free` of buddy.rs no buddy of the block that was put back is free.
use rsmalloc.Common.{
  ℕ, ◌+◌, ◌-◌, ◌^◌, ◌≤◌, ◌≡◌, ◌≢◌, true, false, ◌&&◌, arith, ◌⊎◌, inl, inr, one-le-pow,
}
use native.Mathlib.Nat.{add-div_right}
use rsmalloc.Buddy.Region.{
  Region, FreeBlock, min_order, max_order, block_number, block_is_free, push_free_block, buddy,
  in_region, free_block,
}
use rsmalloc.Buddy.Region.Bitmap.{free_bit-push, block_is_free-bit}
use rsmalloc.Buddy.Region.Covers.{inside, covers}
use rsmalloc.Buddy.Region.Valid.{slot, IsValid, push-SameFrame}
use rsmalloc.Buddy.Region.Free.{
  Buddies, buddy-Buddies, merged, merged_block, free_block-merge, merge_block,
}

-- A block and its buddy have neighbouring numbers.
block_number-ne :
    (r : Region) (order a b : ℕ)
    → slot r order a ≡ true
    → Buddies r order a b
    → block_number r a order ≢ block_number r b order
block_number-ne r order a b h (inl (e, even)) same =
    let shift : b - r.base ≡ a - r.base + 2 ^ order = ground arith in
    omega (
      arith,
      rw shift at same,
      add-div_right (a - r.base) {k = 2 ^ order} (one-le-pow order 2 (omega arith)),
    )
block_number-ne r order a b h (inr (e, le, even)) same =
    let shift : a - r.base ≡ b - r.base + 2 ^ order = omega arith in
    omega (
      arith,
      rw shift at same,
      add-div_right (b - r.base) {k = 2 ^ order} (one-le-pow order 2 (omega arith)),
    )

-- A push of a slot leaves its buddy as it was.
buddy_free-push :
    (r : Region) (order : ℕ) (block : FreeBlock)
    → slot r order block.addr ≡ true
    → let s = push_free_block r order block in
      (block_is_free s block.addr order ≡ true)
      × (buddy s block.addr order ≡ buddy r block.addr order)
      × (block_is_free s (buddy r block.addr order) order
          ≡ block_is_free r (buddy r block.addr order) order)
unfolding buddy
buddy_free-push r order block here =
    let s : Region = push_free_block r order block in
    let a : ℕ = block.addr in
    let b : ℕ = buddy r a order in
    let frame = push-SameFrame r order block in
    let ne = block_number-ne r order a b here (buddy-Buddies r order a here) in
    let at_a = free_bit-push r order block order (block_number r a order) in
    let at_b = free_bit-push r order block order (block_number r b order) in
    (
      rw (block_is_free-bit s a order, frame.base, at_a) (ground arith),
      rw frame.base,
      rw (block_is_free-bit s b order, block_is_free-bit r b order, frame.base, at_b)
          (ground arith),
    )

-- Where a freed block ended: it is part of a free block whose buddy is not free, or which has the
-- largest order.
pub record Settled (order addr : ℕ) (s : Region) : Type 0 where
  pub current : ℕ
  pub current_order : ℕ
  pub listed : block_is_free s current current_order ≡ true
  pub spans : (u : ℕ) → inside addr order u ≤ inside current current_order u
  pub done :
      (current_order ≡ max_order)
      ⊎ ((in_region s (buddy s current current_order)
            && block_is_free s (buddy s current current_order) current_order)
          ≡ false)

-- After a block of a valid region is freed, it lies in a free block that cannot be merged further:
-- that block has the largest order, or its buddy is outside the region or not free.
pub free_block-Settled :
    (stamp : ℕ) {r : Region} (addr order : ℕ)
    → IsValid r
    → min_order ≤ order
    → order ≤ max_order
    → slot r order addr ≡ true
    → ((u : ℕ) → inside addr order u + covers r u ≤ 1)
    → Settled order addr (free_block stamp r addr order)
free_block-Settled stamp {r} addr order v lo hi here held =
    let m = merge_block stamp addr order v lo hi here held in
    let at = merged stamp addr order v lo hi here held in
    let block : FreeBlock = merged_block stamp addr order v lo hi here held in
    let (on, same, other) = buddy_free-push at.2 at.1 block m.here in
    rw (free_block-merge stamp addr order v lo hi here held) (record {
      current = at.0;
      current_order = at.1;
      listed = on;
      spans = m.spans;
      done =
          rw
            (
              same,
              other,
              (push-SameFrame at.2 at.1 block).base,
              (push-SameFrame at.2 at.1 block).total_size,
            )
            m.done;
    })
