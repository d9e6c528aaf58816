-- ===== src/Rbtree/Shows.antt =====
-- Trees that stand for a finite map from keys to metadata, cut at a key.
use rsmalloc.Common.{
  ℕ, ◌≡◌, refl, sym, ap, ◌∙◌, Option, none, some, List, [], ◌∷◌, ◌++◌, true, false, ◌==◌, update,
  Bool-cases, inl, inr, arith,
}
use mathlib.Core.List.{append_assoc, append-nil}
use rsmalloc.Rbtree.{Color, BigAllocMeta, Cell, Tree, leaf, node, Frame, plug, find_node}
use rsmalloc.Rbtree.Entries.{entries, before, after, entries-plug}
use rsmalloc.Rbtree.Balanced.{Valid, Sits-black}
use rsmalloc.Rbtree.Sorted.{
  Below, Above, Sorted, lookup, Sorted-parts, Sorted-Below, Sorted-append, Sorted-insert,
  lookup-insert, lookup_between,
}
use rsmalloc.Rbtree.Search.{Found, find_node-Found}

-- A tree stands for a map.
pub record Shows (t : Tree) (m : ℕ → Option BigAllocMeta) : Type 0 where
  pub valid : Valid t
  pub sorted : Sorted (entries t)
  pub view : (key : ℕ) → lookup key (entries t) ≡ m key

-- What `find_node` gives at the root of a tree that stands for a map.
pub found :
    (key : ℕ) (t : Tree) (m : ℕ → Option BigAllocMeta)
    → Shows t m
    → Found key t (find_node key t [])
found key t m h =
    find_node-Found key t []
      (h.valid.height, h.valid.balanced, tt, Sits-black t [] h.valid.root_black)
      (rw append-nil h.sorted) tt tt

-- The nodes before and after a key, and the map without the key.
pub record Around (key : ℕ) (m : ℕ → Option BigAllocMeta) (xs ys : List Cell) : Type 0 where
  pub left : Sorted xs
  pub below : Below key xs
  pub above : Above key ys
  pub right : Sorted ys
  pub rest : (j : ℕ) → (key == j) ≡ false → lookup j (xs ++ ys) ≡ m j

-- Around an empty place, and around a node.
pub at_gap :
    (key : ℕ) (t : Tree) (m : ℕ → Option BigAllocMeta) (p : List Frame)
    → Shows t m
    → Found key t (leaf, p)
    → Around key m (before p) (after p)
at_gap key t m p h f =
    let e : entries t ≡ before p ++ after p = sym (ap entries f.same) ∙ entries-plug leaf p in
    let sorted : Sorted (before p ++ after p) = rw (← e) h.sorted in
    let parts = Sorted-parts (before p) (after p) sorted in
    record {
      left = parts.0;
      below = f.below;
      above = f.above;
      right = parts.1;
      rest = λ j _. ap (lookup j) (sym e) ∙ h.view j;
    }

-- The nodes of a tree around one of them.
pub cut :
    (t : Tree) (c : Color) (l : Tree) (x : Cell) (r : Tree) (p : List Frame)
    → plug (node c l x r) p ≡ t
    → entries t ≡ (before p ++ entries l) ++ (x ∷ (entries r ++ after p))
cut t c l x r p same = sym (ap entries same) ∙ (entries-plug (node c l x r) p ∙ simp append_assoc)

pub at_node :
    (t : Tree) (m : ℕ → Option BigAllocMeta) (x : Cell) (xs ys : List Cell)
    → Shows t m
    → entries t ≡ xs ++ (x ∷ ys)
    → Around x.key m xs ys
at_node t m x xs ys h e =
    let sorted : Sorted (xs ++ (x ∷ ys)) = rw (← e) h.sorted in
    let parts = Sorted-parts xs (x ∷ ys) sorted in
    let below = Sorted-Below xs x ys sorted in
    record {
      left = parts.0;
      below = below;
      above = parts.1.0;
      right = parts.1.1;
      rest = λ j other.
          let whole : lookup j (xs ++ (x ∷ ys)) ≡ m j = ap (lookup j) (sym e) ∙ h.view j in
          let part : lookup j (xs ++ (x ∷ ys)) ≡ lookup j (xs ++ ys) =
            lookup-insert j xs x ys below ∙ rw other refl in
          sym part ∙ whole;
    }

pub Shows-put :
    (t : Tree) (m : ℕ → Option BigAllocMeta) (x : Cell) (xs ys : List Cell)
    → Around x.key m xs ys
    → entries t ≡ xs ++ (x ∷ ys)
    → Valid t
    → Shows t (update m x.key (some x.meta))
Shows-put t m x xs ys a e v = record {
  valid = v;
  sorted = rw e (Sorted-insert xs x ys a.left a.below a.above a.right);
  view = λ j.
      ap (lookup j) e
      ∙ (lookup-insert j xs x ys a.below ∙ elim (Bool-cases (x.key == j)) [
        | inl same ↦ rw same refl
        | inr other ↦ rw other (a.rest j other)
      ]);
}

pub Shows-drop :
    (t : Tree) (m : ℕ → Option BigAllocMeta) (key : ℕ) (xs ys : List Cell)
    → Around key m xs ys
    → entries t ≡ xs ++ ys
    → Valid t
    → Shows t (update m key none)
Shows-drop t m key xs ys a e v = record {
  valid = v;
  sorted = rw e (Sorted-append key xs ys a.left a.below a.above a.right);
  view = λ j. ap (lookup j) e ∙ elim (Bool-cases (key == j)) [
    | inl same ↦
        let here : key ≡ j = ground (arith, same) in
        rw same (rw (← here) (lookup_between key xs ys a.below a.above))
    | inr other ↦ rw other (a.rest j other)
  ];
}

-- What the map has at a key.
pub gap_view :
    (key : ℕ) (t : Tree) (m : ℕ → Option BigAllocMeta) (p : List Frame)
    → Shows t m
    → Found key t (leaf, p)
    → m key ≡ none
gap_view key t m p h f =
    let a = at_gap key t m p h f in
    sym (h.view key)
    ∙ (ap (lookup key) (sym (ap entries f.same) ∙ entries-plug leaf p)
        ∙ lookup_between key (before p) (after p) a.below a.above)

pub node_view :
    (t : Tree) (m : ℕ → Option BigAllocMeta) (x : Cell) (xs ys : List Cell)
    → Shows t m
    → entries t ≡ xs ++ (x ∷ ys)
    → m x.key ≡ some x.meta
node_view t m x xs ys h e =
    let a = at_node t m x xs ys h e in
    let self : (x.key == x.key) ≡ true = ground arith in
    sym (h.view x.key)
    ∙ (ap (lookup x.key) e ∙ (lookup-insert x.key xs x ys a.below ∙ rw self refl))
