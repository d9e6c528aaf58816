-- ===== src/Buddy/Region/Covers.antt =====
-- How often a byte of the region is covered by free blocks: the abstract view of a region.
use rsmalloc.Common.{
  ℕ, suc, ◌+◌, ◌^◌, ◌≤◌, ◌<◌, ◌≡◌, ◌&&◌, List, [], ◌∷◌, arith, ltb, leb, ◌==◌, if◌then◌else◌,
  pow-suc, one-le-pow,
}
use rsmalloc.Buddy.Region.{
  Region, FreeBlock, min_order, max_order, order_index, unlink, mark_order_nonempty,
  mark_order_empty_if_needed, push_free_block, remove_free_block,
}

-- 1 if the byte `u` lies in the block of this order at `addr`, else 0.
abbrev pub inside : ℕ → ℕ → ℕ → ℕ
inside addr order u = if leb addr u && ltb u (addr + 2 ^ order) then 1 else 0

-- The blocks of a free list of this order that hold the byte.
pub covers_list : ℕ → List FreeBlock → ℕ → ℕ
covers_list order [] u = 0
covers_list order (b ∷ bs) u = inside b.addr order u + covers_list order bs u

-- The free blocks of the region that hold the byte: the five lists together.
pub covers : Region → ℕ → ℕ
unfolding covers_list
covers r u =
    covers_list 22 (r.free 0) u
    + covers_list 23 (r.free 1) u
    + covers_list 24 (r.free 2) u
    + covers_list 25 (r.free 3) u
    + covers_list 26 (r.free 4) u

-- The blocks of a list at this address.
unfoldable pub count_at : ℕ → List FreeBlock → ℕ
count_at addr [] = 0
count_at addr (b ∷ bs) = (if b.addr == addr then 1 else 0) + count_at addr bs

-- Two halves make a block.
pub inside-suc :
    (addr order u : ℕ)
    → inside addr (suc order) u ≡ inside addr order u + inside (addr + 2 ^ order) order u
inside-suc addr order u = ground (arith, pow-suc 2 order, one-le-pow order 2)

covers_list-unlink :
    (order addr u : ℕ) (l : List FreeBlock)
    → 0 < count_at addr l
    → covers_list order (unlink addr l) u + inside addr order u ≡ covers_list order l u
unfolding covers_list count_at unlink
covers_list-unlink order addr u [] h = absurd (omega arith)
covers_list-unlink order addr u (b ∷ bs) h = ground (arith, covers_list-unlink order addr u bs)

-- A block covers its first byte.
pub count_at-le-covers_list :
    (order addr : ℕ) (l : List FreeBlock) → count_at addr l ≤ covers_list order l addr
unfolding covers_list count_at
count_at-le-covers_list order addr [] = omega arith
count_at-le-covers_list order addr (b ∷ bs) =
    ground (arith, count_at-le-covers_list order addr bs, one-le-pow order 2)

pub count_at-unlink :
    (addr a : ℕ) (l : List FreeBlock)
    → 0 < count_at addr l
    → count_at a (unlink addr l) + (if addr == a then 1 else 0) ≡ count_at a l
unfolding count_at unlink
count_at-unlink addr a [] h = absurd (omega arith)
count_at-unlink addr a (b ∷ bs) h = ground (arith, count_at-unlink addr a bs)

module _ (r : Region) (order : ℕ) (lo : min_order ≤ order) (hi : order ≤ max_order) where
  -- A push covers the block once more.
  pub covers-push :
      (block : FreeBlock) (u : ℕ)
      → covers (push_free_block r order block) u ≡ inside block.addr order u + covers r u
  unfolding covers covers_list push_free_block mark_order_nonempty
  covers-push block u = ground arith

  -- A removal of a listed block covers it once less.
  pub covers-remove :
      (addr u : ℕ)
      → 0 < count_at addr (r.free (order_index order))
      → covers (remove_free_block r order addr) u + inside addr order u ≡ covers r u
  unfolding covers remove_free_block mark_order_empty_if_needed
  covers-remove addr u h =
      ground (arith, covers_list-unlink order addr u (r.free (order_index order)))

  -- A block whose first byte is not covered stands in no list.
  pub count_at-le-covers : (addr : ℕ) → count_at addr (r.free (order_index order)) ≤ covers r addr
  unfolding covers
  count_at-le-covers addr =
      ground (arith, count_at-le-covers_list order addr (r.free (order_index order)))

pub covers_none : (r : Region) → ((i : ℕ) → r.free i ≡ []) → (u : ℕ) → covers r u ≡ 0
unfolding covers covers_list
covers_none r none u = rw (none 0, none 1, none 2, none 3, none 4)
