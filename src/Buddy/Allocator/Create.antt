-- ===== src/Buddy/Allocator/Create.antt =====
-- A region that `add_region` of buddy.rs publishes: it is valid and every byte of it is free.
use rsmalloc.Common.{
  ℕ, zero, suc, ◌+◌, ◌-◌, ◌*◌, ◌/◌, ◌%◌, ◌≡◌, refl, true, ◌&&◌, arith, ltb, leb, if◌then◌else◌,
}
use rsmalloc.Buddy.Region.{Region, FreeBlock, max_order, not_allocated, push_free_block, in_region}
use rsmalloc.Buddy.Region.Covers.{covers, covers-push, covers_none}
use rsmalloc.Buddy.Region.Valid.{
  slot, IsValid, SameFrame, SameFrame-trans, push-SameFrame, push-IsValid, IsValid-no_blocks,
}
use rsmalloc.Buddy.Allocator.{max_block_size, empty_region, push_blocks, new_region}

-- Every byte of the region is in one free block, and no other byte is in any.
pub record AllFree (r s : Region) : Type 0 where
  pub valid : IsValid s
  pub frame : SameFrame r s
  pub full : (u : ℕ) → covers s u ≡ (if in_region r u then 1 else 0)

abbrev FreeTo : Region → ℕ → Type 0
FreeTo r offset = (u : ℕ) → covers r u ≡ (if leb r.base u && ltb u (r.base + offset) then 1 else 0)

push_blocks-AllFree :
    (n : ℕ) (r : Region) (stamp offset : ℕ)
    → IsValid r
    → offset % max_block_size ≡ 0
    → offset + n * max_block_size ≡ r.total_size
    → FreeTo r offset
    → AllFree r (push_blocks n r stamp offset)
unfolding push_blocks
push_blocks-AllFree zero r stamp offset v aligned e done = record {
  valid = v;
  frame = record { base = refl; total_size = refl; order = refl; node_id = refl };
  full = λ u. ground (arith, done u);
}
push_blocks-AllFree (suc n) r stamp offset v aligned e done =
    let block : FreeBlock = record {
      addr = r.base + offset;
      life_time = stamp;
      trim_state = not_allocated;
    } in
    let here : slot r max_order (r.base + offset) ≡ true =
      let same : r.base + offset - r.base ≡ offset = omega arith in ground (arith, same, aligned) in
    let frame = push-SameFrame r max_order block in
    let more : ltb offset r.total_size ≡ true = ground arith in
    let rest =
      push_blocks-AllFree n (push_free_block r max_order block) stamp (offset + max_block_size)
        (push-IsValid v max_order (omega arith) (omega arith) block here
          (λ u. ground (arith, done u)))
        (omega arith) (omega (arith, frame.total_size))
        (λ u. ground (
          arith,
          done u,
          frame.base,
          covers-push r max_order (omega arith) (omega arith) block u,
        )) in
    rw more (record {
      valid = rest.valid;
      frame = SameFrame-trans frame rest.frame;
      full = λ u. ground (arith, rest.full u, frame.base, frame.total_size);
    })

empty_region-IsValid :
    (base total_size node_id : ℕ)
    → total_size % max_block_size ≡ 0
    → IsValid (empty_region base total_size node_id)
unfolding empty_region
empty_region-IsValid base total_size node_id h =
    IsValid-no_blocks (empty_region base total_size node_id) refl h (λ i. refl) (λ i word. refl)
      refl

-- A region made of whole blocks of the largest order is valid when `add_region` publishes it, it has
-- the base, the size and the node that were given, and each byte of it, and no other byte, lies in
-- one free block.
pub new_region-AllFree :
    (stamp base total_size node_id : ℕ)
    → total_size % max_block_size ≡ 0
    → AllFree (empty_region base total_size node_id) (new_region stamp base total_size node_id)
unfolding new_region empty_region
new_region-AllFree stamp base total_size node_id h =
    push_blocks-AllFree (total_size / max_block_size) (empty_region base total_size node_id) stamp 0
      (empty_region-IsValid base total_size node_id h) refl (omega arith)
      (λ u. ground (arith, covers_none (empty_region base total_size node_id) (λ i. refl) u))
