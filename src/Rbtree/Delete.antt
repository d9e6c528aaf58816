-- ===== src/Rbtree/Delete.antt =====
-- `delete_node` and `delete_fixup`.
use rsmalloc.Common.{ℕ, zero, suc, Option, none, some, List, [], ◌∷◌, ◌++◌, ◌>>=◌, length}
use rsmalloc.Rbtree.{
  Color, red, black, Cell, Tree, leaf, node, color_of, paint, Frame, on_left, on_right, plug,
  rotate_left, rotate_right, Round, done, again, crash, done_or_crash,
}

-- The child of the sibling on the far side is black: the near one is turned up.
abbrev pub turn_left : Color → Tree → Cell → Tree → Option Tree
turn_left wc a y b = elim (color_of b) [
  | black ↦ rotate_right (node red (paint black a) y b)
  | red ↦ some (node wc a y b)
]

abbrev pub turn_right : Color → Tree → Cell → Tree → Option Tree
turn_right wc a y b = elim (color_of a) [
  | black ↦ rotate_left (node red a y (paint black b))
  | red ↦ some (node wc a y b)
]

abbrev pub paint_right : Color → Tree → Tree
paint_right c leaf = leaf
paint_right c (node d l x r) = node d l x (paint c r)

abbrev pub paint_left : Color → Tree → Tree
paint_left c leaf = leaf
paint_left c (node d l x r) = node d (paint c l) x r

abbrev pub lift_left : Color → Tree → Cell → Option Tree → Option Tree
lift_left c x g turned = do w ← turned; rotate_left (node black x g (paint_right black (paint c w)))

abbrev pub lift_right : Color → Option Tree → Cell → Tree → Option Tree
lift_right c turned g x = do
  w ← turned
  rotate_right (node black (paint_left black (paint c w)) g x)

-- The rest of the body of the loop, at a parent `g` of color `c` and a sibling that is not red any more.
abbrev pub borrow_left : Tree → Color → Cell → Tree → List Frame → Round
borrow_left x c g leaf p = crash
borrow_left x c g (node wc a y b) p = elim (color_of a) [
  | black ↦ elim (color_of b) [
    | black ↦ again (node c x g (node red a y b)) p
    | red ↦
        done_or_crash (do t ← lift_left c x g (turn_left wc a y b); some (paint black (plug t p)))
  ]
  | red ↦ done_or_crash (do t ← lift_left c x g (turn_left wc a y b); some (paint black (plug t p)))
]

abbrev pub borrow_right : Color → Tree → Cell → Tree → List Frame → Round
borrow_right c leaf g x p = crash
borrow_right c (node wc a y b) g x p = elim (color_of b) [
  | black ↦ elim (color_of a) [
    | black ↦ again (node c (node red a y b) g x) p
    | red ↦
        done_or_crash (do t ← lift_right c (turn_right wc a y b) g x; some (paint black (plug t p)))
  ]
  | red ↦
      done_or_crash (do t ← lift_right c (turn_right wc a y b) g x; some (paint black (plug t p)))
]

-- The body of the loop at a black node. A red sibling is made black, its parent red, and the parent is
-- rotated: the sibling stands above the parent then.
abbrev pub rebalance : Tree → List Frame → Round
rebalance x [] = done (paint black x)
rebalance x (on_left c g (node red a y b) ∷ p) = borrow_left x red g a (on_left black y b ∷ p)
rebalance x (on_left c g leaf ∷ p) = borrow_left x c g leaf p
rebalance x (on_left c g (node black a y b) ∷ p) = borrow_left x c g (node black a y b) p
rebalance x (on_right c (node red a y b) g ∷ p) = borrow_right red b g x (on_right black a y ∷ p)
rebalance x (on_right c leaf g ∷ p) = borrow_right c leaf g x p
rebalance x (on_right c (node black a y b) g ∷ p) = borrow_right c (node black a y b) g x p

abbrev pub delete_round : Tree → List Frame → Round
delete_round x p = elim (color_of x) [ red ↦ done (plug (paint black x) p) | black ↦ rebalance x p ]

-- `delete_fixup`, on fuel
unfoldable pub delete_fixup : (fuel : ℕ) → Tree → List Frame → Option Tree
delete_fixup zero x p = none
delete_fixup (suc fuel) x p = elim (delete_round x p) [
  | done t ↦ some t
  | again x' p' ↦ delete_fixup fuel x' p'
  | crash ↦ none
]

-- `minimum` of a node, by its parts: its color, its fields, its right child, and the frames above
unfoldable pub minimum : Tree → Color → Cell → Tree → List Frame → Color × Cell × Tree × List Frame
minimum leaf c x r p = (c, x, r, p)
minimum (node d a y b) c x r p = minimum a d y b (on_left c x r ∷ p)

-- The child `x` stands where a node of the color `c` stood.
abbrev pub close : Color → Tree → List Frame → Option Tree
close red x p = some (plug x p)
close black x p = delete_fixup (suc (length p)) x p

-- `delete_node` without `free_node`: the successor `y` takes the place and the color of `z`.
unfoldable pub delete_node : Color → Tree → Cell → Tree → List Frame → Option Tree
delete_node c leaf z r p = close c r p
delete_node c (node d a y b) z leaf p = close c (node d a y b) p
delete_node c (node d a y b) z (node e u v w) p =
    let (yc, yx, yr, q) = minimum u e v w [] in
    close yc yr (q ++ (on_right c (node d a y b) yx ∷ p))
