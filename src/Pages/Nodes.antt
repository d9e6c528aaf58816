-- ===== src/Pages/Nodes.antt =====
-- `PageAllocator::alloc` and `try_grow_inplace`: which node serves, and what happens to its arenas.
use rsmalloc.Common.{
  ℕ, ◌+◌, ◌≤◌, ◌≡◌, sym, ap, ◌==◌, Bool, true, false, ◌||◌, Option, none, some, leb, update, arith,
  Bool-cases, inl, inr,
}
use rsmalloc.Pages.{NodeArenaState, node_index, alloc, alloc_locked, try_grow_inplace, grow_locked}
use rsmalloc.Pages.Bump.{within, left_at, AllArenas}
use rsmalloc.Pages.Alloc.{fresh_at, pages, alloc_locked-Handed}
use rsmalloc.Pages.Grow.{grow_locked-Grown}

-- One node gave bytes to a caller, no other node changed.
pub record Moved (nodes : ℕ → NodeArenaState) (k : ℕ) (moved fresh : ℕ → ℕ)
    (nodes' : ℕ → NodeArenaState) : Type 0 where
  pub valid : AllArenas (nodes' k).arenas
  pub took : (u : ℕ) → moved u + left_at (nodes' k).arenas u ≤ left_at (nodes k).arenas u + fresh u
  pub others : (j : ℕ) → nodes' j ≡ update nodes k (nodes' k) j

update_same : (nodes : ℕ → NodeArenaState) (k j : ℕ) → update nodes k (nodes k) j ≡ nodes j
update_same nodes k j = elim (Bool-cases (k == j)) [
  | inl e ↦ let same : k ≡ j = ground arith in rw (e, same)
  | inr e ↦ rw e
]

update_here : (nodes : ℕ → NodeArenaState) (k : ℕ) (s : NodeArenaState) → update nodes k s k ≡ s
update_here nodes k s = let on : (k == k) ≡ true = ground arith in rw on

-- When the arenas of the node that serves are valid and `PageAllocator::alloc` returns a pointer:
-- those arenas are valid after; each byte of the pages handed out, and of the arenas after, is a byte
-- that was left in an arena of that node before or that the mapping made by this call brought; and
-- no other node changed.
pub alloc-Moved :
    {ptr : ℕ} {nodes' : ℕ → NodeArenaState} (arena_size : ℕ) (answer : Option ℕ)
    (nodes : ℕ → NodeArenaState) (node_count node_id size : ℕ)
    → AllArenas (nodes (node_index node_id node_count)).arenas
    → alloc arena_size answer nodes node_count node_id size ≡ (some ptr, nodes')
    → Moved nodes
        (node_index node_id node_count)
        (λ u. within ptr (ptr + pages size) u)
        (λ u. fresh_at arena_size answer (pages size) u)
        nodes'
unfolding alloc
alloc-Moved {ptr} {nodes'} arena_size answer nodes node_count node_id size v e =
    elim (Bool-cases (node_count == 0)) [
      | inl none_there ↦
          let no : (none, nodes) ≡ (some ptr, nodes') = rw (alloc, none_there) at e in cc
      | inr some_there ↦
          let found : (out.0, update nodes k out.1) ≡ (some ptr, nodes') =
            rw (alloc, some_there) at e in
          let same : out ≡ (some ptr, out.1) = ap (λ t. (t.0, out.1)) found in
          let same_nodes : update nodes k out.1 ≡ nodes' = ap (λ t. t.1) found in
          let (valid, took) = alloc_locked-Handed arena_size answer (nodes k) size v same in
          rw (← same_nodes) (record {
            valid = rw (update_here nodes k out.1) valid;
            took = λ u. rw (update_here nodes k out.1) (took u);
            others = λ j. rw (update_here nodes k out.1);
          })
    ]
  where
    k : ℕ
    k = node_index node_id node_count

    out : Option ℕ × NodeArenaState
    out = alloc_locked arena_size answer (nodes k) size

-- When the arenas of the node that serves are valid and `PageAllocator::try_grow_inplace` returns
-- true: those arenas are valid after; each byte between the old and the new end of the block, both
-- rounded up to pages, and of the arenas after, is a byte that was left in an arena of that node
-- before; and no other node changed.
pub try_grow_inplace-Moved :
    {nodes' : ℕ → NodeArenaState} (nodes : ℕ → NodeArenaState)
    (node_count node_id ptr old_size new_size : ℕ)
    → AllArenas (nodes (node_index node_id node_count)).arenas
    → try_grow_inplace nodes node_count node_id ptr old_size new_size ≡ (true, nodes')
    → Moved nodes
        (node_index node_id node_count)
        (λ u. within (ptr + pages old_size) (ptr + pages new_size) u)
        (λ u. 0)
        nodes'
unfolding try_grow_inplace
try_grow_inplace-Moved {nodes'} nodes node_count node_id ptr old_size new_size v e =
    elim (Bool-cases (ptr == 0 || leb new_size old_size)) [
      | inl e1 ↦ let no : (false, nodes) ≡ (true, nodes') = rw (try_grow_inplace, e1) at e in cc
      | inr e1 ↦ elim (Bool-cases (leb (pages new_size) (pages old_size))) [
        | inl e2 ↦
            let found : (true, nodes) ≡ (true, nodes') = rw (try_grow_inplace, e1, e2) at e in
            let same : nodes ≡ nodes' = ap (λ t. t.1) found in
            rw (← same) (record {
              valid = v;
              took = λ u. ground arith;
              others = λ j. sym (update_same nodes k j);
            })
        | inr e2 ↦ elim (Bool-cases (node_count == 0)) [
          | inl e3 ↦
              let no : (false, nodes) ≡ (true, nodes') = rw (try_grow_inplace, e1, e2, e3) at e in
              cc
          | inr e3 ↦
              let found : (out.0, update nodes k out.1) ≡ (true, nodes') =
                rw (try_grow_inplace, e1, e2, e3) at e in
              let same : out ≡ (true, out.1) = ap (λ t. (t.0, out.1)) found in
              let same_nodes : update nodes k out.1 ≡ nodes' = ap (λ t. t.1) found in
              let (valid, took) =
                grow_locked-Grown (nodes k) ptr (pages old_size) (pages new_size) v (ground arith)
                  same in
              rw (← same_nodes) (record {
                valid = rw (update_here nodes k out.1) valid;
                took = λ u. rw (update_here nodes k out.1) (omega (arith, took u));
                others = λ j. rw (update_here nodes k out.1);
              })
        ]
      ]
    ]
  where
    k : ℕ
    k = node_index node_id node_count

    out : Bool × NodeArenaState
    out = grow_locked (nodes k) ptr (pages old_size) (pages new_size)
