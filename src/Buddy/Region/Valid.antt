-- ===== src/Buddy/Region/Valid.antt =====
-- The invariant of a region, and that `push_free_block` and `remove_free_block` keep it.
use rsmalloc.Common.{
  ℕ, ◌+◌, ◌-◌, ◌*◌, ◌/◌, ◌%◌, ◌^◌, ◌≤◌, ◌<◌, ◌≡◌, refl, ap, bit_and, bit_or, Bool, true, ◌&&◌, [],
  ◌∷◌, arith, leb, ◌==◌, if◌then◌else◌, one-le-pow,
}
use native.Mathlib.Nat.{div-add-mod, pow-le-pow_right}
use rsmalloc.Common.Bits.{
  digit, digit-lt, digit-bit_and, digit-bit_or, digit-pow, digit_not, digit-zero,
}
use rsmalloc.Buddy.Region.{
  Region, FreeBlock, min_order, max_order, order_index, order_bit, block_number, unlink,
  mark_order_nonempty, mark_order_empty_if_needed, push_free_block, remove_free_block, is_null,
}
use rsmalloc.Buddy.Region.Bitmap.{free_bit, free_bit-push, free_bit-remove}
use rsmalloc.Buddy.Region.Covers.{
  inside, covers, count_at, count_at-unlink, covers-push, covers-remove, count_at-le-covers,
  covers_none,
}

-- A block of this order may stand at the address: it lies in the region and is aligned to its size
-- from the base.
abbrev pub slot : Region → ℕ → ℕ → Bool
slot r order a =
    leb r.base a && leb (a + 2 ^ order) (r.base + r.total_size) && ((a - r.base) % 2 ^ order == 0)

pub record IsValid (r : Region) : Type 0 where
  pub full : r.order ≡ max_order
  pub whole : r.total_size % 2 ^ max_order ≡ 0
  -- list and bitmap agree: a slot is listed once if its bit is set, and nothing else is listed
  pub synced :
      (order a : ℕ)
      → min_order ≤ order
      → order ≤ max_order
      → count_at a (r.free (order_index order))
        ≡ (if slot r order a then free_bit r order (block_number r a order) else 0)
  -- no byte lies in two free blocks
  pub disjoint : (u : ℕ) → covers r u ≤ 1
  -- the mask has the bits of the lists that are not empty
  pub masked :
      (order : ℕ)
      → min_order ≤ order
      → order ≤ max_order
      → digit r.nonempty_mask (order_index order)
        ≡ (if is_null (r.free (order_index order)) then 0 else 1)

-- Slots of one order with one block number are one slot.
block_number-inj :
    (r : Region) (order a b : ℕ)
    → slot r order a ≡ true
    → slot r order b ≡ true
    → block_number r a order ≡ block_number r b order
    → a ≡ b
block_number-inj r order a b ha hb e = ground (
  arith,
  div-add-mod (a - r.base) (2 ^ order),
  div-add-mod (b - r.base) (2 ^ order),
  ap (λ (t : ℕ). 2 ^ order * t) e,
)

-- What no function changes after the region is published.
pub record SameFrame (r s : Region) : Type 0 where
  pub base : s.base ≡ r.base
  pub total_size : s.total_size ≡ r.total_size
  pub order : s.order ≡ r.order
  pub node_id : s.node_id ≡ r.node_id

pub SameFrame-trans : {r s t : Region} → SameFrame r s → SameFrame s t → SameFrame r t
SameFrame-trans f g = ground arith

module _ (r : Region) (order : ℕ) where
  pub push-SameFrame : (block : FreeBlock) → SameFrame r (push_free_block r order block)
  unfolding push_free_block mark_order_nonempty
  push-SameFrame block = record { base = refl; total_size = refl; order = refl; node_id = refl }

  pub remove-SameFrame : (addr : ℕ) → SameFrame r (remove_free_block r order addr)
  unfolding remove_free_block mark_order_empty_if_needed
  remove-SameFrame addr = ground arith

  free-push :
      (block : FreeBlock) (i : ℕ)
      → (push_free_block r order block).free i
        ≡ (if order_index order == i then block ∷ r.free (order_index order) else r.free i)
  unfolding push_free_block mark_order_nonempty
  free-push block i = refl

  frame-push :
      (block : FreeBlock)
      → ((push_free_block r order block).base ≡ r.base)
        × ((push_free_block r order block).total_size ≡ r.total_size)
        × ((push_free_block r order block).order ≡ r.order)
        × ((push_free_block r order block).nonempty_mask ≡ bit_or r.nonempty_mask (order_bit order))
  unfolding push_free_block mark_order_nonempty
  frame-push block = (refl, refl, refl, refl)

  free-remove :
      (addr i : ℕ)
      → (remove_free_block r order addr).free i
        ≡ (if order_index order == i then unlink addr (r.free (order_index order)) else r.free i)
  unfolding remove_free_block mark_order_empty_if_needed
  free-remove addr i = ground arith

  frame-remove :
      (addr : ℕ)
      → ((remove_free_block r order addr).base ≡ r.base)
        × ((remove_free_block r order addr).total_size ≡ r.total_size)
        × ((remove_free_block r order addr).order ≡ r.order)
        × ((remove_free_block r order addr).nonempty_mask ≡ (
            if is_null (unlink addr (r.free (order_index order)))
            then bit_and r.nonempty_mask (2 ^ 8 - 1 - order_bit order)
            else r.nonempty_mask))
  unfolding remove_free_block mark_order_empty_if_needed
  frame-remove addr = ground arith

module _ {r : Region} (v : IsValid r) (order : ℕ) (lo : min_order ≤ order)
    (hi : order ≤ max_order) where
  module _ (block : FreeBlock) (here : slot r order block.addr ≡ true)
      (room : (u : ℕ) → inside block.addr order u + covers r u ≤ 1) where
    synced-push :
        (o a : ℕ)
        → min_order ≤ o
        → o ≤ max_order
        → count_at a ((push_free_block r order block).free (order_index o)) ≡ (
            if slot (push_free_block r order block) o a
            then free_bit
                (push_free_block r order block)
                o
                (block_number (push_free_block r order block) a o)
            else 0)
    unfolding count_at
    synced-push o a lo' hi' = ground (
      arith,
      free-push r order block (order_index o),
      frame-push r order block,
      free_bit-push r order block o (block_number r a o),
      v.synced o a lo' hi',
      room block.addr,
      count_at-le-covers r order lo hi block.addr,
      one-le-pow order 2,
      block_number-inj r order block.addr a here,
    )

    masked-push :
        (o : ℕ)
        → min_order ≤ o
        → o ≤ max_order
        → digit (push_free_block r order block).nonempty_mask (order_index o)
          ≡ (if is_null ((push_free_block r order block).free (order_index o)) then 0 else 1)
    masked-push o lo' hi' = ground (
      arith,
      free-push r order block (order_index o),
      frame-push r order block,
      v.masked o lo' hi',
      digit-bit_or r.nonempty_mask (order_bit order) (order_index o),
      digit-pow (order_index order) (order_index o),
    )

    -- Pushing an aligned block of which no byte is free keeps the invariant.
    pub push-IsValid : IsValid (push_free_block r order block)
    push-IsValid = record {
      full = ground (arith, frame-push r order block, v.full);
      whole = ground (arith, frame-push r order block, v.whole);
      synced = synced-push;
      disjoint = λ u. omega (arith, covers-push r order lo hi block u, room u);
      masked = masked-push;
    }

  module _ (addr : ℕ) (listed : 0 < count_at addr (r.free (order_index order))) where
    synced-remove :
        (o a : ℕ)
        → min_order ≤ o
        → o ≤ max_order
        → count_at a ((remove_free_block r order addr).free (order_index o)) ≡ (
            if slot (remove_free_block r order addr) o a
            then free_bit
                (remove_free_block r order addr)
                o
                (block_number (remove_free_block r order addr) a o)
            else 0)
    synced-remove o a lo' hi' = ground (
      arith,
      free-remove r order addr (order_index o),
      frame-remove r order addr,
      free_bit-remove r order addr o (block_number r a o),
      v.synced o a lo' hi',
      v.synced order addr lo hi,
      digit-lt (r.free_bitmap (order_index order) (block_number r addr order / 64))
          (block_number r addr order % 64),
      count_at-unlink addr a (r.free (order_index order)) listed,
      block_number-inj r order addr a,
    )

    masked-remove :
        (o : ℕ)
        → min_order ≤ o
        → o ≤ max_order
        → digit (remove_free_block r order addr).nonempty_mask (order_index o)
          ≡ (if is_null ((remove_free_block r order addr).free (order_index o)) then 0 else 1)
    unfolding count_at
    masked-remove o lo' hi' = ground (
      arith,
      free-remove r order addr (order_index o),
      frame-remove r order addr,
      v.masked o lo' hi',
      digit-bit_and r.nonempty_mask (2 ^ 8 - 1 - order_bit order) (order_index o),
      digit_not 8 (order_bit order) (order_index o) (order_bit-lt) (omega arith),
      digit-pow (order_index order) (order_index o),
      digit-lt r.nonempty_mask (order_index o),
    )
      where
        order_bit-le : order_bit order ≤ 2 ^ 7
        order_bit-le = pow-le-pow_right {n = 2} (omega arith) {j = 7} (omega arith)

        order_bit-lt : order_bit order < 2 ^ 8
        order_bit-lt = omega (arith, order_bit-le)

    -- Taking out a listed block keeps the invariant.
    pub remove-IsValid : IsValid (remove_free_block r order addr)
    remove-IsValid = record {
      full = ground (arith, frame-remove r order addr, v.full);
      whole = ground (arith, frame-remove r order addr, v.whole);
      synced = synced-remove;
      disjoint = λ u. omega (arith, covers-remove r order lo hi addr u listed, v.disjoint u);
      masked = masked-remove;
    }

-- A region without free blocks is valid.
pub IsValid-no_blocks :
    (r : Region)
    → r.order ≡ max_order
    → r.total_size % 2 ^ max_order ≡ 0
    → ((i : ℕ) → r.free i ≡ [])
    → ((i word : ℕ) → r.free_bitmap i word ≡ 0)
    → r.nonempty_mask ≡ 0
    → IsValid r
unfolding count_at
IsValid-no_blocks r full whole none clear mask = record {
  full = full;
  whole = whole;
  synced = λ o a lo hi.
      rw (none (order_index o), clear (order_index o) (block_number r a o / 64))
        (ground (arith, digit-zero (block_number r a o % 64)));
  disjoint = λ u. omega (arith, covers_none r none u);
  masked = λ o lo hi. rw (none (order_index o), mask) (digit-zero (order_index o));
}
