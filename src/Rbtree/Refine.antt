-- ===== src/Rbtree/Refine.antt =====
-- `RBTree` as a finite map from keys to metadata: each operation does what it does to the map, and the
-- tree stays a red-black search tree.
use rsmalloc.Common.{
  ℕ, suc, ◌≡◌, refl, sym, ap, ◌∙◌, Option, none, some, List, [], ◌∷◌, ◌++◌, update, length, arith,
  ◌+◌, if_present,
}
use mathlib.Core.List.{append_assoc}
use rsmalloc.Rbtree.{Color, red, BigAllocMeta, Cell, Tree, leaf, node, Frame, plug, find_node}
use rsmalloc.Rbtree.Insert.{insert_at}
use rsmalloc.Rbtree.Entries.{entries, before, after, entries-plug}
use rsmalloc.Rbtree.Balanced.{Valid, Context, store-Valid}
use rsmalloc.Rbtree.Search.{Found, Standing}
use rsmalloc.Rbtree.Inserted.{insert_fixup-Valid}
use rsmalloc.Rbtree.Removed.{delete_node-Ends}
use rsmalloc.Rbtree.Deleted.{Ends}
use rsmalloc.Rbtree.Shows.{
  Shows, found, at_gap, cut, at_node, Shows-put, Shows-drop, gap_view, node_view,
}
use rsmalloc.Rbtree.Store.{
  RbTree, node_size, chunk_nodes, alloc_chunk, free_node, alloc_node, tree_insert, insert, meta_of,
  get, replace_at, replace, remove_at, remove,
}

-- `get` answers what the map has at the key.
pub get-view :
    (s : RbTree) (m : ℕ → Option BigAllocMeta) (key : ℕ) → Shows s.root m → get s key ≡ m key
unfolding get
get-view s m key h = go (find_node key s.root []) (found key s.root m h)
  where
    go : (z : Tree × List Frame) → Found key s.root z → meta_of z.0 ≡ m key
    go (leaf, p) f = sym (gap_view key s.root m p h f)
    go (node c l x r, p) f = sym (
        ap m f.hits
        ∙ node_view s.root m x (before p ++ entries l) (entries r ++ after p) h
            (cut s.root c l x r p f.same))

-- A write of the metadata of a node.
stored :
    (t : Tree) (m : ℕ → Option BigAllocMeta) (key : ℕ) (meta : BigAllocMeta) (c : Color) (l : Tree)
    (x : Cell) (r : Tree) (p : List Frame)
    → Shows t m
    → Found key t (node c l x r, p)
    → Shows (plug (node c l (record x { meta = meta }) r) p) (update m key (some meta))
stored t m key meta c l x r p h f =
    let y : Cell = record x { meta = meta } in
    let xs = before p ++ entries l in
    let ys = entries r ++ after p in
    let around = at_node t m x xs ys h (cut t c l x r p f.same) in
    let old : Valid (plug (node c l x r) p) = rw f.same h.valid in
    rw f.hits (
      Shows-put (plug (node c l y r) p) m y xs ys around
        (cut (plug (node c l y r) p) c l y r p refl)
        (store-Valid f.stands.0 c l x y r p f.stands.1 f.stands.2 f.stands.3 old))

-- The nodes of the tree after an insertion at an empty place.
pub insert_at-Ends :
    (p : List Frame) (new : Cell)
    → Standing leaf p
    → Ends (insert_at p new) (before p ++ (new ∷ after p))
unfolding insert_at
insert_at-Ends p new st =
    let ctx : Context st.0 p = st.2 in
    let (u, ends, same, valid) =
      insert_fixup-Valid (suc (length p)) 0 (node red leaf new leaf) p (omega arith) refl
        (refl, refl, refl, refl) (rw st.1 at ctx) in
    (u, ends, same ∙ entries-plug (node red leaf new leaf) p, valid)

-- `alloc_node` gives a node while the list has one or `mmap` gives a chunk.
abbrev pub Gives : List ℕ → Option ℕ → Type 0
Gives [] none = ⊥
Gives [] (some base) = Unit
Gives (head ∷ next) chunk = Unit

pub alloc_node-Gives :
    (free_list : List ℕ) (chunk : Option ℕ)
    → Gives free_list chunk
    → (addr : ℕ) × (rest : List ℕ) × (alloc_node free_list chunk ≡ some (addr, rest))
unfolding alloc_node alloc_chunk chunk_nodes
alloc_node-Gives [] none g = absurd g
alloc_node-Gives [] (some base) g = (base, chunk_nodes 1023 (base + node_size) ++ [], refl)
alloc_node-Gives (head ∷ next) chunk g = (head, next, refl)

-- In a tree that stands for a map, with a free node or a chunk from `mmap`: `insert` ends, without an
-- abort, and the tree after it stands for the map with the metadata at the key.
pub insert-Shows :
    (s : RbTree) (m : ℕ → Option BigAllocMeta) (key : ℕ) (meta : BigAllocMeta) (chunk : Option ℕ)
    → Shows s.root m
    → Gives s.free_list chunk
    → (after : RbTree) × (insert s key meta chunk ≡ some after)
      × Shows after.root (update m key (some meta))
unfolding insert tree_insert
insert-Shows s m key meta chunk h g = go (find_node key s.root []) (found key s.root m h)
  where
    go :
        (z : Tree × List Frame)
        → Found key s.root z
        → (after : RbTree) × (tree_insert s z.0 z.1 key meta chunk ≡ some after)
          × Shows after.root (update m key (some meta))
    go (leaf, p) f =
        let (addr, rest, took) = alloc_node-Gives s.free_list chunk g in
        let new : Cell = record { addr = addr; key = key; meta = meta } in
        let (t, ends, same, valid) = insert_at-Ends p new f.stands in
        (
          record { root = t; free_list = rest },
          rw took (rw ends refl),
          Shows-put t m new (before p) (after p) (at_gap key s.root m p h f) same valid,
        )
    go (node c l x r, p) f = (
      record s { root = plug (node c l (record x { meta = meta }) r) p },
      refl,
      stored s.root m key meta c l x r p h f,
    )

-- In a tree that stands for a map, `replace` answers what the map has at the key, and the tree after it
-- stands for the map with the new metadata there if it had any.
pub replace-Shows :
    (s : RbTree) (m : ℕ → Option BigAllocMeta) (key : ℕ) (meta : BigAllocMeta)
    → Shows s.root m
    → ((replace s key meta).0 ≡ m key)
      × Shows (replace s key meta).1.root (if_present (m key) (update m key (some meta)) m)
unfolding replace
replace-Shows s m key meta h = go (find_node key s.root []) (found key s.root m h)
  where
    go :
        (z : Tree × List Frame)
        → Found key s.root z
        → ((replace_at s z.0 z.1 meta).0 ≡ m key)
          × Shows
              (replace_at s z.0 z.1 meta).1.root
              (if_present (m key) (update m key (some meta)) m)
    go (leaf, p) f = let none_here = gap_view key s.root m p h f in (sym none_here, rw none_here h)
    go (node c l x r, p) f =
        let some_here : m key ≡ some x.meta =
          ap m f.hits
          ∙ node_view s.root m x (before p ++ entries l) (entries r ++ after p) h
              (cut s.root c l x r p f.same) in
        (sym some_here, rw some_here (stored s.root m key meta c l x r p h f))

-- In a tree that stands for a map, `remove` ends and answers what the map has at the key, and the tree
-- after it stands for the map without the key.
pub remove-Shows :
    (s : RbTree) (m : ℕ → Option BigAllocMeta) (key : ℕ)
    → Shows s.root m
    → (after : RbTree) × (remove s key ≡ some (m key, after)) × Shows after.root (update m key none)
unfolding remove remove_at
remove-Shows s m key h = go (find_node key s.root []) (found key s.root m h)
  where
    go :
        (z : Tree × List Frame)
        → Found key s.root z
        → (after : RbTree) × (remove_at s z.0 z.1 ≡ some (m key, after))
          × Shows after.root (update m key none)
    go (leaf, p) f =
        let none_here = gap_view key s.root m p h f in
        (
          s,
          rw none_here refl,
          Shows-drop s.root m key (before p) (after p) (at_gap key s.root m p h f)
              (sym (ap entries f.same) ∙ entries-plug leaf p) h.valid,
        )
    go (node c l x r, p) f =
        let xs = before p ++ entries l in
        let ys = entries r ++ after p in
        let whole = cut s.root c l x r p f.same in
        let some_here : m key ≡ some x.meta = ap m f.hits ∙ node_view s.root m x xs ys h whole in
        let (t, ends, same, valid) =
          delete_node-Ends f.stands.0 c l x r p f.stands.1 f.stands.2 f.stands.3 in
        (
          record { root = t; free_list = free_node s.free_list x.addr },
          rw (remove_at, ends, some_here) refl,
          rw f.hits (
              Shows-drop t m x.key xs ys (at_node s.root m x xs ys h whole)
                (same ∙ simp append_assoc) valid),
        )
