-- ===== src/Buddy/Allocator/Release.antt =====
-- `free` of buddy.rs over all regions.
use rsmalloc.Common.{
  ℕ, ◌+◌, ◌≤◌, ◌≡◌, true, List, [], ◌∷◌, arith, inl, inr, ◌==◌, if◌then◌else◌, Bool-cases, Option,
  none, some,
}
use rsmalloc.Buddy.Region.{Region, min_order, max_order, free_block}
use rsmalloc.Buddy.Region.Covers.{inside, covers}
use rsmalloc.Buddy.Region.Valid.{slot, IsValid}
use rsmalloc.Buddy.Region.Free.{Freed, free_block-Freed}
use rsmalloc.Buddy.Allocator.{Allocator, Machine, at_region, free}
use rsmalloc.Buddy.Allocator.Serve.{AllValid, free_at}

-- The region whose node is at the address.
unfoldable pub region_at : ℕ → List (ℕ × Region) → Option Region
region_at node [] = none
region_at node ((n, r) ∷ rest) = if n == node then some r else region_at node rest

-- The free bytes after a block came back.
pub record Released (before : List (ℕ × Region)) (order addr : ℕ) (after : List (ℕ × Region))
    : Type 0 where
  pub valid : AllValid after
  pub returned : (u : ℕ) → free_at after u ≡ inside addr order u + free_at before u

at_region-Released :
    (regions : List (ℕ × Region)) (f : Region → Region) (r : Region) (node order addr : ℕ)
    → AllValid regions
    → region_at node regions ≡ some r
    → (IsValid r → Freed r order addr (f r))
    → Released regions order addr (at_region node f regions)
unfolding at_region region_at AllValid free_at
at_region-Released [] f r node order addr v there freed = cc
at_region-Released ((n, s) ∷ rest) f r node order addr (v, vs) there freed =
    elim (Bool-cases (n == node)) [
      | inl hit ↦
          let found : some s ≡ some r = rw hit at there in
          let same : s ≡ r = cc in
          let back = rw (← same) at (freed (rw same at v)) in
          rw hit
            (record { valid = (back.valid, vs); returned = λ u. omega (arith, back.returned u) })
      | inr other ↦
          let tail = at_region-Released rest f r node order addr vs (rw other at there) freed in
          rw other
            (record { valid = (v, tail.valid); returned = λ u. omega (arith, tail.returned u) })
    ]

-- When every region is valid, and a block at a place for its order in the region that is named, none
-- of whose bytes is free there, is freed: every region stays valid, and the bytes of the block, and
-- no others, become free.
pub free-Released :
    {r : Region} (a : Allocator) (m : Machine) (region addr order : ℕ)
    → AllValid a.regions
    → region_at region a.regions ≡ some r
    → min_order ≤ order
    → order ≤ max_order
    → slot r order addr ≡ true
    → ((u : ℕ) → inside addr order u + covers r u ≤ 1)
    → Released a.regions order addr (free a m region addr order).regions
unfolding free
free-Released {r} a m region addr order v there lo hi here held =
    at_region-Released a.regions (λ s. free_block m.stamp s addr order) r region order addr v there
      (λ valid. free_block-Freed m.stamp addr order valid lo hi here held)
