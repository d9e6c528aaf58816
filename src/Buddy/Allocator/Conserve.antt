-- ===== src/Buddy/Allocator/Conserve.antt =====
-- `add_region` and `alloc` of buddy.rs: every byte that is handed out was free or is fresh from `mmap`.
use rsmalloc.Common.{
  ℕ, ◌+◌, ◌-◌, ◌^◌, ◌≤◌, ◌<◌, ◌≡◌, refl, ◌∙◌, Bool, true, ◌&&◌, List, [], ◌∷◌, min, max, arith, ltb,
  leb, if◌then◌else◌, Bool-cases, Option, none, some, ap, Option-cases, ◌⊎◌, inl, inr,
}
use native.Mathlib.Nat.{pow-le-pow_right}
use native.Mathlib.Decide.{dec_le}
use rsmalloc.Buddy.Region.{Region, min_order, max_order}
use rsmalloc.Buddy.Region.Covers.{inside}
use rsmalloc.Buddy.Allocator.Create.{new_region-AllFree}
use rsmalloc.Buddy.Allocator.Size.{normalize_whole, order_for_size-Least}
use rsmalloc.Buddy.Allocator.{
  init, empty_region, order_for_size, alloc_region_node, map_retry, node_size,
  normalize_region_size, Allocator, Machine, Block, alloc_from_node, add_region, alloc,
}
use rsmalloc.Buddy.Allocator.Serve.{
  AllValid, free_at, Home, Served, SearchOutcome, search_again-Outcome, alloc_from_node-Outcome,
  search-node, search-some, search-none,
}

-- The ranges of a list that hold the byte.
pub in_ranges : List (ℕ × ℕ) → ℕ → ℕ
in_ranges [] u = 0
in_ranges ((base, size) ∷ rest) u =
    (if leb base u && ltb u (base + size) then 1 else 0) + in_ranges rest u

-- All regions are valid, and the bytes that became free are those published to `RADIX` meanwhile.
pub record Conserved (a : List (ℕ × Region)) (m : Machine) (a' : List (ℕ × Region)) (m' : Machine)
    : Type 0 where
  pub valid : AllValid a'
  pub published : (u : ℕ) → free_at a' u + in_ranges m.owned u ≡ free_at a u + in_ranges m'.owned u

map_retry-owned : (m : Machine) → (map_retry m).1.owned ≡ m.owned
unfolding map_retry
map_retry-owned m = refl

alloc_region_node-owned : (size : ℕ) (m : Machine) → (alloc_region_node size m).1.owned ≡ m.owned
unfolding alloc_region_node map_retry
alloc_region_node-owned size m = elim (Option-cases (node_size size)) [
  | inl e ↦ rw (alloc_region_node, e)
  | inr (_, e) ↦ rw (alloc_region_node, e)
]

pub add_region-Conserved :
    (a : Allocator) (m : Machine) (size node_id : ℕ)
    → AllValid a.regions
    → Conserved a.regions m (add_region a m size node_id).1.regions (add_region a m size node_id).2
unfolding add_region empty_region AllValid free_at in_ranges
add_region-Conserved a m size node_id v = elim (Option-cases (map_retry m).0) [
  | inl e ↦ rw (add_region, e) (record { valid = v; published = λ u. rw (map_retry-owned m) })
  | inr (base, e) ↦ elim (Option-cases (alloc_region_node total (map_retry m).1).0) [
    | inl e' ↦ rw (add_region, e, e') (record { valid = v; published = λ u. rw same })
    | inr (node, e') ↦
        let made = new_region-AllFree m.stamp base total node_id (normalize_whole size) in
        rw (add_region, e, e')
          (record {
            valid = (made.valid, v);
            published = λ u. rw same (omega (arith, made.full u));
          })
  ]
]
  where
    total : ℕ
    total = normalize_region_size size

    same : (alloc_region_node total (map_retry m).1).1.owned ≡ m.owned
    same = alloc_region_node-owned total (map_retry m).1 ∙ map_retry-owned m

add_region_initialized :
    (a : Allocator) (m : Machine) (size node_id : ℕ)
    → (add_region a m size node_id).1.initialized ≡ a.initialized
unfolding add_region
add_region_initialized a m size node_id = elim (Option-cases (map_retry m).0) [
  | inl e ↦ rw (add_region, e)
  | inr (base, e) ↦
      elim (Option-cases (alloc_region_node (normalize_region_size size) (map_retry m).1).0) [
        | inl e' ↦ rw (add_region, e, e')
        | inr (node, e') ↦ rw (add_region, e, e')
      ]
]

-- Where every region is valid, every region is valid after `init`, the bytes that became free are
-- those that were published to the radix tree, and a second `init` changes nothing more.
pub init-Conserved :
    (a : Allocator) (m : Machine) (size node_id : ℕ) (thp : Bool)
    → AllValid a.regions
    → let (a', m') = init a m size node_id thp in
      Conserved a.regions m a'.regions m' × (init a' m' size node_id thp ≡ (a', m'))
unfolding init
init-Conserved a m size node_id thp v = elim (Bool-cases a.initialized) [
  | inl done ↦ rw done (record { valid = v; published = λ u. refl }, refl)
  | inr first ↦ rw first (
    add_region-Conserved started m total node_id v,
    rw (init, add_region_initialized started m total node_id),
  )
]
  where
    total : ℕ
    total = normalize_region_size size

    started : Allocator
    started = record a {
      thp = thp;
      grow_order = min (order_for_size total) max_order;
      initialized = true;
    }

-- What a caller of `alloc` gets.
pub record Allocated (a : Allocator) (m : Machine) (size : ℕ) (block : Block) (a' : Allocator)
    (m' : Machine) : Type 0 where
  pub valid : AllValid a'.regions
  pub fits : size ≤ 2 ^ block.order
  pub range : (min_order ≤ block.order) × (block.order ≤ max_order)
  pub least : (block.order ≡ min_order) ⊎ (2 ^ (block.order - 1) < max size 1)
  pub home : (node_id : ℕ) × Home a'.regions node_id block
  pub moved :
      (u : ℕ)
      → free_at a'.regions u + inside block.addr block.order u + in_ranges m.owned u
        ≡ free_at a.regions u + in_ranges m'.owned u

abbrev AllocOutcome : Allocator → Machine → ℕ → Option Block × Allocator × Machine → Type 0
AllocOutcome a m size (none, a', m') = Conserved a.regions m a'.regions m'
AllocOutcome a m size (some block, a', m') = Allocated a m size block a' m'

module _ (a : Allocator) (m : Machine) (size node_id nranges : ℕ) (v : AllValid a.regions)
    (h : size ≤ 2 ^ 63) where
  abbrev requested : ℕ
  requested = max (order_for_size size) min_order

  Served-Allocated :
      (g : Allocator) (m' : Machine) (block : Block) (after : List (ℕ × Region)) (node : ℕ)
      → requested ≤ max_order
      → Conserved a.regions m g.regions m'
      → Served g.regions requested node block after
      → Allocated a m size block (record g { regions = after }) m'
  Served-Allocated g m' block after node small c served =
      let (reach, least) = order_for_size-Least size h in
      let order = served.order in
      let wider : 2 ^ order_for_size size ≤ 2 ^ requested =
        pow-le-pow_right {n = 2} (omega arith) (omega arith) in
      record {
        valid = served.valid;
        fits = rw order (omega (arith, reach, wider));
        range = (omega (arith, order), omega (arith, order, small));
        least = elim (dec_le requested min_order) [
          | yes low ↦ inl (omega (arith, order))
          | no more ↦ inr (rw order (least (requested - 1) (omega arith)))
        ];
        home = (node, served.home);
        moved = λ u. rw order (omega (arith, served.took u, c.published u));
      }

  again-Outcome :
      (g : Allocator) (m' : Machine) (out : Option Block × List (ℕ × Region))
      → requested ≤ max_order
      → Conserved a.regions m g.regions m'
      → SearchOutcome g.regions requested out
      → AllocOutcome a m size (out.0, record g { regions = out.1 }, m')
  again-Outcome g m' (none, after) small c same = rw same c
  again-Outcome g m' (some block, after) small c (node, served) =
      Served-Allocated g m' block after node small c served

  alloc-Outcome : AllocOutcome a m size (alloc a m size node_id nranges)
  unfolding alloc
  alloc-Outcome = elim (Bool-cases (ltb max_order requested)) [
    | inl big ↦ rw (alloc, big) (record { valid = v; published = λ u. refl })
    | inr small ↦
        let fit : requested ≤ max_order = ground arith in
        elim (Option-cases first.0) [
          | inr (block, e) ↦
              let (node, served) = search-some a.regions requested first block (here fit) e in
              rw (alloc, small, e)
                (Served-Allocated a m block first.1 node fit
                  (record { valid = v; published = λ u. refl }) served)
          | inl e ↦
              let same = search-none a.regions requested first (here fit) e in
              let raw = add_region-Conserved searched m size' node_id (rw same v) in
              let c : Conserved a.regions m grown.1.regions grown.2 = record {
                valid = raw.valid;
                published = λ u. omega (arith, raw.published u, ap (λ l. free_at l u) same);
              } in
              rw (alloc, small, e)
                (again-Outcome grown.1 grown.2 _ fit c (
                  search_again-Outcome grown.0 grown.1.regions requested node_id nranges c.valid
                    (omega arith) fit))
        ]
  ]
    where
      first : Option Block × List (ℕ × Region)
      first = alloc_from_node a.regions requested node_id

      here : requested ≤ max_order → SearchOutcome a.regions requested first
      here small =
          search-node a.regions requested node_id first
            (alloc_from_node-Outcome a.regions requested node_id v (omega arith) small)

      searched : Allocator
      searched = record a { regions = first.1 }

      size' : ℕ
      size' = 2 ^ min (max a.grow_order requested) max_order

      grown : Bool × Allocator × Machine
      grown = add_region searched m size' node_id

-- When every region is valid and `alloc` of a size up to 2 ^ 63 returns a block: the block holds the
-- size, its order is the least from 22 to 26 that does, it stands in a region at a place for its
-- order, every region is valid after, and for each byte: the times it is free after, handed out in
-- the block, and published to the radix tree before, are together the times it was free before and
-- is published after.
pub alloc-Allocated :
    {a' : Allocator} {m' : Machine} {block : Block} (a : Allocator) (m : Machine)
    (size node_id nranges : ℕ)
    → AllValid a.regions
    → size ≤ 2 ^ 63
    → alloc a m size node_id nranges ≡ (some block, a', m')
    → Allocated a m size block a' m'
alloc-Allocated a m size node_id nranges v h e =
    rw e at (alloc-Outcome a m size node_id nranges v h)

-- When every region is valid and `alloc` of a size up to 2 ^ 63 returns no block, every region is
-- still valid, and the bytes that became free are those that were published to the radix tree.
pub alloc_failed-Conserved :
    {a' : Allocator} {m' : Machine} (a : Allocator) (m : Machine) (size node_id nranges : ℕ)
    → AllValid a.regions
    → size ≤ 2 ^ 63
    → alloc a m size node_id nranges ≡ (none, a', m')
    → Conserved a.regions m a'.regions m'
alloc_failed-Conserved a m size node_id nranges v h e =
    rw e at (alloc-Outcome a m size node_id nranges v h)
