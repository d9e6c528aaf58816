-- ===== src/Rbtree/Insert.antt =====
-- `tree_insert` and `insert_fixup`.
use rsmalloc.Common.{ℕ, zero, suc, Option, none, some, List, [], ◌∷◌, ◌>>=◌, length}
use rsmalloc.Rbtree.{
  red, black, Cell, Tree, leaf, node, color_of, paint, Frame, on_left, on_right, fill, plug,
  rotate_left, rotate_right, Round, done, again, crash, done_or_crash,
}

-- The two rotations of `insert_fixup`, for a parent on the left and on the right of the grandparent.
abbrev pub straighten_left : Tree → Frame → Option Tree
straighten_left z (on_left c x r) = some (fill z (on_left c x r))
straighten_left z (on_right c l x) = rotate_left (fill z (on_right c l x))

abbrev pub straighten_right : Tree → Frame → Option Tree
straighten_right z (on_right c l x) = some (fill z (on_right c l x))
straighten_right z (on_left c x r) = rotate_right (fill z (on_left c x r))

abbrev pub rise_left : Tree → Frame → Cell → Tree → Option Tree
rise_left z zp g y = do
  parent ← straighten_left z zp
  rotate_right (node red (paint black parent) g y)

abbrev pub rise_right : Tree → Frame → Tree → Cell → Option Tree
rise_right z zp y g = do
  parent ← straighten_right z zp
  rotate_left (node red y g (paint black parent))

-- The body of the loop of `insert_fixup` below a red parent `zp`.
abbrev pub recolor : Tree → (zp : Frame) → List Frame → Round
recolor z zp [] = crash
recolor z zp (on_left gc g y ∷ p) = elim (color_of y) [
  | red ↦ again (node red (paint black (fill z zp)) g (paint black y)) p
  | black ↦ done_or_crash (do t ← rise_left z zp g y; some (plug t p))
]
recolor z zp (on_right gc y g ∷ p) = elim (color_of y) [
  | red ↦ again (node red (paint black y) g (paint black (fill z zp))) p
  | black ↦ done_or_crash (do t ← rise_right z zp y g; some (plug t p))
]

abbrev pub insert_round : Tree → List Frame → Round
insert_round z [] = done z
insert_round z (on_left black x r ∷ p) = done (plug z (on_left black x r ∷ p))
insert_round z (on_right black l x ∷ p) = done (plug z (on_right black l x ∷ p))
insert_round z (on_left red x r ∷ p) = recolor z (on_left red x r) p
insert_round z (on_right red l x ∷ p) = recolor z (on_right red l x) p

-- `insert_fixup`, on fuel
unfoldable pub insert_fixup : (fuel : ℕ) → Tree → List Frame → Option Tree
insert_fixup zero z p = none
insert_fixup (suc fuel) z p = elim (insert_round z p) [
  | done t ↦ some (paint black t)
  | again z' p' ↦ insert_fixup fuel z' p'
  | crash ↦ none
]

-- The end of `tree_insert` with the new node, at an empty place.
unfoldable pub insert_at : List Frame → Cell → Option Tree
insert_at p new = insert_fixup (suc (length p)) (node red leaf new leaf) p
