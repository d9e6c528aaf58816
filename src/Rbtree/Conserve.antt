-- ===== src/Rbtree/Conserve.antt =====
-- The nodes of `RBTree`: each is in the tree or in the list of free nodes, and none is lost or doubled.
use rsmalloc.Common.{
  ℕ, ◌+◌, ◌≡◌, refl, sym, ap, ◌∙◌, Option, none, some, List, [], ◌∷◌, ◌++◌, ◌==◌, copies,
  if◌then◌else◌, arith,
}
use mathlib.Core.List.{append_assoc, append-nil}
use rsmalloc.Rbtree.{BigAllocMeta, Cell, Tree, leaf, node, Frame, plug, find_node}
use rsmalloc.Rbtree.Entries.{entries, before, after, entries-plug}
use rsmalloc.Rbtree.Search.{Found}
use rsmalloc.Rbtree.Removed.{delete_node-Ends}
use rsmalloc.Rbtree.Shows.{Shows, found, cut, gap_view, node_view}
use rsmalloc.Rbtree.Refine.{Gives, alloc_node-Gives, insert_at-Ends}
use rsmalloc.Rbtree.Store.{
  RbTree, node_chunk, chunk_nodes, alloc_chunk, take_head, free_node, alloc_node, tree_insert,
  insert, remove_at, remove,
}

-- How often an address is among nodes.
abbrev pub count_cells : ℕ → List Cell → ℕ
count_cells a [] = 0
count_cells a (x ∷ xs) = (if a == x.addr then 1 else 0) + count_cells a xs

-- How often an address is a node of the tree or a free node.
abbrev pub owned : ℕ → RbTree → ℕ
owned a s = count_cells a (entries s.root) + copies a s.free_list

-- The chunk that `insert` maps: one if the key is new and no node is free.
abbrev pub mapped : Option BigAllocMeta → List ℕ → Option ℕ → List ℕ
mapped (some meta) free_list chunk = []
mapped none (head ∷ next) chunk = []
mapped none [] none = []
mapped none [] (some base) = chunk_nodes node_chunk base

count_cells-append :
    (a : ℕ) (xs ys : List Cell) → count_cells a (xs ++ ys) ≡ count_cells a xs + count_cells a ys
count_cells-append a [] ys = omega arith
count_cells-append a (x ∷ xs) ys = omega (arith, count_cells-append a xs ys)

count_between :
    (a : ℕ) (xs : List Cell) (x : Cell) (ys : List Cell)
    → count_cells a (xs ++ (x ∷ ys)) ≡ count_cells a (xs ++ ys) + (if a == x.addr then 1 else 0)
count_between a xs x ys =
    omega (arith, count_cells-append a xs (x ∷ ys), count_cells-append a xs ys)

-- The node that `alloc_node` gives comes from the list or from the chunk.
take_head-copies :
    (a : ℕ) (xs : List ℕ) (addr : ℕ) (rest : List ℕ)
    → take_head xs ≡ some (addr, rest)
    → (if a == addr then 1 else 0) + copies a rest ≡ copies a xs
take_head-copies a [] addr rest e = cc
take_head-copies a (head ∷ next) addr rest e =
    let same : head ≡ addr = cc in let tail : next ≡ rest = cc in rw (← same, ← tail) refl

alloc_node-copies :
    (a : ℕ) (free_list : List ℕ) (chunk : Option ℕ) (addr : ℕ) (rest : List ℕ)
    → Gives free_list chunk
    → alloc_node free_list chunk ≡ some (addr, rest)
    → (if a == addr then 1 else 0) + copies a rest
      ≡ copies a free_list + copies a (mapped none free_list chunk)
unfolding alloc_node alloc_chunk
alloc_node-copies a [] none addr rest g e = absurd g
alloc_node-copies a (head ∷ next) chunk addr rest g e =
    omega (arith, take_head-copies a (head ∷ next) addr rest e)
alloc_node-copies a [] (some base) addr rest g e = omega (
  arith,
  take_head-copies a (chunk_nodes node_chunk base ++ []) addr rest e,
  ap (copies a) (append-nil (chunk_nodes node_chunk base)),
)

-- In a tree that stands for a map, with a free node or a chunk: after `insert` each address is a node as
-- often as before, and as often as in the chunk if the key is new and no node was free.
pub insert-owned :
    (s : RbTree) (m : ℕ → Option BigAllocMeta) (key : ℕ) (meta : BigAllocMeta) (chunk : Option ℕ)
    → Shows s.root m
    → Gives s.free_list chunk
    → (after : RbTree) × (insert s key meta chunk ≡ some after)
      × ((a : ℕ) → owned a after ≡ owned a s + copies a (mapped (m key) s.free_list chunk))
unfolding insert tree_insert
insert-owned s m key meta chunk h g = go (find_node key s.root []) (found key s.root m h)
  where
    go :
        (z : Tree × List Frame)
        → Found key s.root z
        → (after : RbTree) × (tree_insert s z.0 z.1 key meta chunk ≡ some after)
          × ((a : ℕ) → owned a after ≡ owned a s + copies a (mapped (m key) s.free_list chunk))
    go (leaf, p) f =
        let (addr, rest, took) = alloc_node-Gives s.free_list chunk g in
        let new : Cell = record { addr = addr; key = key; meta = meta } in
        let (t, ends, same, valid) = insert_at-Ends p new f.stands in
        let old : entries s.root ≡ before p ++ after p =
          sym (ap entries f.same) ∙ entries-plug leaf p in
        (
          record { root = t; free_list = rest },
          rw took (rw ends refl),
          λ a.
              rw (gap_view key s.root m p h f, same, old)
                (omega (
                  arith,
                  count_between a (before p) new (after p),
                  alloc_node-copies a s.free_list chunk addr rest g took,
                )),
        )
    go (node c l x r, p) f =
        let y : Cell = record x { meta = meta } in
        let xs = before p ++ entries l in
        let ys = entries r ++ after p in
        let whole = cut s.root c l x r p f.same in
        let some_here : m key ≡ some x.meta = ap m f.hits ∙ node_view s.root m x xs ys h whole in
        (
          record s { root = plug (node c l y r) p },
          refl,
          λ a.
              rw (some_here, whole, cut (plug (node c l y r) p) c l y r p refl)
                (omega (arith, count_between a xs x ys, count_between a xs y ys)),
        )

-- In a tree that stands for a map: after `remove` each address is a node as often as before.
pub remove-owned :
    (s : RbTree) (m : ℕ → Option BigAllocMeta) (key : ℕ)
    → Shows s.root m
    → (after : RbTree) × (remove s key ≡ some (m key, after))
      × ((a : ℕ) → owned a after ≡ owned a s)
unfolding remove remove_at
remove-owned s m key h = go (find_node key s.root []) (found key s.root m h)
  where
    go :
        (z : Tree × List Frame)
        → Found key s.root z
        → (after : RbTree) × (remove_at s z.0 z.1 ≡ some (m key, after))
          × ((a : ℕ) → owned a after ≡ owned a s)
    go (leaf, p) f = (s, rw (gap_view key s.root m p h f) refl, λ a. refl)
    go (node c l x r, p) f =
        let xs = before p ++ entries l in
        let ys = entries r ++ after p in
        let whole = cut s.root c l x r p f.same in
        let some_here : m key ≡ some x.meta = ap m f.hits ∙ node_view s.root m x xs ys h whole in
        let (t, ends, same, valid) =
          delete_node-Ends f.stands.0 c l x r p f.stands.1 f.stands.2 f.stands.3 in
        let left : entries t ≡ xs ++ ys = same ∙ simp append_assoc in
        (
          record { root = t; free_list = free_node s.free_list x.addr },
          rw (ends, some_here) refl,
          λ a. rw (left, whole) (omega (arith, count_between a xs x ys)),
        )
