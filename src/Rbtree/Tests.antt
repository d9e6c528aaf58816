-- ===== src/Rbtree/Tests.antt =====
-- Theorems of the metadata tree at a concrete tree, and runs.
use rsmalloc.Common.{
  ℕ, ◌+◌, ◌≡◌, refl, false, Option, none, some, List, [], ◌∷◌, ◌>>=◌, update, arith, map, copies,
}
use rsmalloc.Rbtree.{BigAllocMeta, Cell, red, black, leaf, node, find_node}
use rsmalloc.Rbtree.Insert.{insert_fixup, insert_at}
use rsmalloc.Rbtree.Delete.{delete_fixup, delete_node, minimum}
use rsmalloc.Rbtree.Entries.{entries}
use rsmalloc.Rbtree.Sorted.{lookup}
use rsmalloc.Rbtree.Shows.{Shows}
use rsmalloc.Rbtree.Store.{
  RbTree, insert, tree_insert, get, remove, remove_at, alloc_node, alloc_chunk, chunk_nodes,
}
use rsmalloc.Rbtree.Refine.{get-view, insert-Shows, remove-Shows}
use rsmalloc.Rbtree.Conserve.{mapped, owned, insert-owned, remove-owned}

abbrev sized : ℕ → BigAllocMeta
sized size = record { next = 0; size = size; order = 22; buddy_region = 0; aligned = false }

abbrev cell : (addr key : ℕ) → Cell
cell addr key = record { addr = addr; key = key; meta = sized (key + 1) }

-- Keys 10, 20 and 30, with two free nodes.
abbrev three : RbTree
three = record {
  root =
      node black (node red leaf (cell 96 10) leaf) (cell 0 20) (node red leaf (cell 192 30) leaf);
  free_list = 288 ∷ 384 ∷ [];
}

abbrev view : ℕ → Option BigAllocMeta
view key = lookup key (entries three.root)

three-Shows : Shows three.root view
three-Shows = record {
  valid = record {
    height = 1;
    root_black = refl;
    balanced = ((refl, refl, refl, refl), (refl, refl, refl, refl));
  };
  sorted = omega arith;
  view = λ key. refl;
}

get-view_example : get three 30 ≡ view 30
get-view_example = get-view three view 30 three-Shows

insert-Shows_example :
    (after : RbTree) × (insert three 5 (sized 7) none ≡ some after)
    × Shows after.root (update view 5 (some (sized 7)))
insert-Shows_example = insert-Shows three view 5 (sized 7) none three-Shows tt

remove-Shows_example :
    (after : RbTree) × (remove three 20 ≡ some (view 20, after))
    × Shows after.root (update view 20 none)
remove-Shows_example = remove-Shows three view 20 three-Shows

insert-owned_example :
    (after : RbTree) × (insert three 5 (sized 7) none ≡ some after)
    × ((a : ℕ) → owned a after ≡ owned a three + copies a (mapped (view 5) (288 ∷ 384 ∷ []) none))
insert-owned_example = insert-owned three view 5 (sized 7) none three-Shows tt

remove-owned_example :
    (after : RbTree) × (remove three 20 ≡ some (view 20, after))
    × ((a : ℕ) → owned a after ≡ owned a three)
remove-owned_example = remove-owned three view 20 three-Shows

abbrev keys : Option RbTree → List ℕ
keys none = []
keys (some s) = map (λ (x : Cell). x.key) (entries s.root)

-- Insertions in ascending order, which rotate.
abbrev grown : Option RbTree
grown = do
  a ← insert three 40 (sized 1) none
  b ← insert a 50 (sized 1) none
  c ← insert b 60 (sized 1) (some 4096)
  insert c 70 (sized 1) none

keys-grown : keys grown ≡ 10 ∷ 20 ∷ 30 ∷ 40 ∷ 50 ∷ 60 ∷ 70 ∷ []
unfolding insert tree_insert insert_at insert_fixup find_node alloc_node alloc_chunk chunk_nodes
keys-grown = refl

abbrev shrunk : Option RbTree
shrunk = do a ← grown; (m, b) ← remove a 10; (n, c) ← remove b 40; some c

keys-shrunk : keys shrunk ≡ 20 ∷ 30 ∷ 50 ∷ 60 ∷ 70 ∷ []
unfolding insert tree_insert insert_at insert_fixup find_node alloc_node alloc_chunk chunk_nodes
    remove remove_at delete_node delete_fixup minimum
keys-shrunk = refl
