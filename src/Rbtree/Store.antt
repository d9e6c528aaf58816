-- ===== src/Rbtree/Store.antt =====
-- `RBTree`: the tree with the list of free nodes, and its operations under the lock. The answer of
-- `mmap` for a chunk of nodes is an argument.
use rsmalloc.Common.{ℕ, zero, suc, ◌+◌, Option, none, some, List, [], ◌∷◌, ◌++◌, ◌>>=◌}
use rsmalloc.Rbtree.{BigAllocMeta, Tree, leaf, node, Frame, plug, find_node}
use rsmalloc.Rbtree.Insert.{insert_at}
use rsmalloc.Rbtree.Delete.{delete_node}

pub record RbTree : Type 0 where
  pub root : Tree
  pub free_list : List ℕ

abbrev pub new : RbTree
new = record { root = leaf; free_list = [] }

abbrev pub node_chunk : ℕ
node_chunk = 1024

-- `size_of::<Node>()`
abbrev pub node_size : ℕ
node_size = 96

-- The nodes of `alloc_chunk`, in the order of their links.
unfoldable pub chunk_nodes : (count base : ℕ) → List ℕ
chunk_nodes zero base = []
chunk_nodes (suc n) base = base ∷ chunk_nodes n (base + node_size)

-- `alloc_chunk`; an error of `mmap` aborts
unfoldable pub alloc_chunk : List ℕ → Option ℕ → Option (List ℕ)
alloc_chunk free_list none = none
alloc_chunk free_list (some base) = some (chunk_nodes node_chunk base ++ free_list)

abbrev pub take_head : List ℕ → Option (ℕ × List ℕ)
take_head [] = none
take_head (head ∷ next) = some (head, next)

-- `alloc_node`: its address, and the list after it.
unfoldable pub alloc_node : List ℕ → Option ℕ → Option (ℕ × List ℕ)
alloc_node [] chunk = do free_list ← alloc_chunk [] chunk; take_head free_list
alloc_node (head ∷ next) chunk = some (head, next)

-- `free_node`
abbrev pub free_node : List ℕ → ℕ → List ℕ
free_node free_list addr = addr ∷ free_list

-- `tree_insert` at the place that its loop finds.
unfoldable pub tree_insert :
    RbTree → Tree → List Frame → (key : ℕ) → BigAllocMeta → Option ℕ → Option RbTree
tree_insert s leaf p key meta chunk = do
  (addr, free_list) ← alloc_node s.free_list chunk
  root ← insert_at p (record { addr = addr; key = key; meta = meta })
  some (record { root = root; free_list = free_list })
tree_insert s (node c l x r) p key meta chunk =
    some (record s { root = plug (node c l (record x { meta = meta }) r) p })

-- `insert`
unfoldable pub insert : RbTree → (key : ℕ) → BigAllocMeta → Option ℕ → Option RbTree
insert s key meta chunk = let (z, p) = find_node key s.root [] in tree_insert s z p key meta chunk

abbrev pub meta_of : Tree → Option BigAllocMeta
meta_of leaf = none
meta_of (node c l x r) = some x.meta

-- `get`
unfoldable pub get : RbTree → ℕ → Option BigAllocMeta
get s key = meta_of (find_node key s.root []).0

abbrev pub replace_at : RbTree → Tree → List Frame → BigAllocMeta → Option BigAllocMeta × RbTree
replace_at s leaf p meta = (none, s)
replace_at s (node c l x r) p meta =
    (some x.meta, record s { root = plug (node c l (record x { meta = meta }) r) p })

-- `replace`
unfoldable pub replace : RbTree → ℕ → BigAllocMeta → Option BigAllocMeta × RbTree
replace s key meta = let (z, p) = find_node key s.root [] in replace_at s z p meta

unfoldable pub remove_at : RbTree → Tree → List Frame → Option (Option BigAllocMeta × RbTree)
remove_at s leaf p = some (none, s)
remove_at s (node c l x r) p = do
  root ← delete_node c l x r p
  some (some x.meta, record { root = root; free_list = free_node s.free_list x.addr })

-- `remove`
unfoldable pub remove : RbTree → ℕ → Option (Option BigAllocMeta × RbTree)
remove s key = let (z, p) = find_node key s.root [] in remove_at s z p
