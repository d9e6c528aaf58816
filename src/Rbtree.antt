-- ===== src/Rbtree.antt =====
-- internals/rbtree.rs: the red-black tree of the metadata of large blocks. A node is its fields with its
-- subtrees; a pointer into the tree is a subtree with the frames above it, from the parent to the root,
-- which stand for the `parent` links. `none` is a null dereference or an abort.
pub mod Insert
pub mod Delete
pub mod Entries
pub mod Balanced
pub mod Sorted
pub mod Search
pub mod Inserted
pub mod Borrow
pub mod Deleted
pub mod Removed
pub mod Store
pub mod Shows
pub mod Refine
pub mod Conserve
mod Tests
use rsmalloc.Common.{
  ℕ, Bool, true, false, Option, none, some, List, [], ◌∷◌, ltb, ◌==◌, if◌then◌else◌,
}

pub data Color : Type 0 where
  red : Color
  black : Color

-- `BigAllocMeta`
pub record BigAllocMeta : Type 0 where
  pub next : ℕ
  pub size : ℕ
  pub order : ℕ
  pub buddy_region : ℕ
  pub aligned : Bool

-- A `Node` without its links and its color: its address and what it stores.
pub record Cell : Type 0 where
  pub addr : ℕ
  pub key : ℕ
  pub meta : BigAllocMeta

pub data Tree : Type 0 where
  leaf : Tree
  node : Color → Tree → Cell → Tree → Tree

abbrev pub color_of : Tree → Color
color_of leaf = black
color_of (node c l x r) = c

-- A write of the color; no write through a null pointer.
abbrev pub paint : Color → Tree → Tree
paint c leaf = leaf
paint c (node d l x r) = node c l x r

-- A node above a subtree: the subtree is its left child, or its right one.
pub data Frame : Type 0 where
  on_left : Color → Cell → Tree → Frame
  on_right : Color → Tree → Cell → Frame

abbrev pub fill : Tree → Frame → Tree
fill t (on_left c x r) = node c t x r
fill t (on_right c l x) = node c l x t

-- The whole tree.
abbrev pub plug : Tree → List Frame → Tree
plug t [] = t
plug t (f ∷ p) = plug (fill t f) p

-- `rotate_left` and `rotate_right` of the node at the top
abbrev pub rotate_left : Tree → Option Tree
rotate_left leaf = none
rotate_left (node c l x leaf) = none
rotate_left (node c l x (node d m y r)) = some (node d (node c l x m) y r)

abbrev pub rotate_right : Tree → Option Tree
rotate_right leaf = none
rotate_right (node c leaf x r) = none
rotate_right (node c (node d l y m) x r) = some (node d l y (node c m x r))

-- `find_node`, and the loop of `tree_insert`: where the key is, or would be.
unfoldable pub find_node : ℕ → Tree → List Frame → Tree × List Frame
find_node key leaf p = (leaf, p)
find_node key (node c l x r) p =
    let lower = find_node key l (on_left c x r ∷ p) in
    let upper = find_node key r (on_right c l x ∷ p) in
    if key == x.key then (node c l x r, p) else if ltb key x.key then lower else upper

-- One round of a loop: it ends with a tree, goes on at another node, or reads a null pointer.
pub data Round : Type 0 where
  done : Tree → Round
  again : Tree → List Frame → Round
  crash : Round

abbrev pub done_or_crash : Option Tree → Round
done_or_crash none = crash
done_or_crash (some t) = done t
