-- ===== src/Rbtree/Entries.antt =====
-- What a tree holds: its nodes from left to right. Rotations and fixups keep it.
use rsmalloc.Common.{List, [], ◌∷◌, ◌++◌, ◌≡◌, refl, sym, ap, ◌∙◌}
use mathlib.Core.List.{append_assoc, append-nil}
use rsmalloc.Rbtree.{Color, Cell, Tree, leaf, node, paint, Frame, on_left, on_right, plug}

abbrev pub entries : Tree → List Cell
entries leaf = []
entries (node c l x r) = entries l ++ (x ∷ entries r)

-- The nodes left of a place, and those right of it.
abbrev pub before : List Frame → List Cell
before [] = []
before (on_left c x r ∷ p) = before p
before (on_right c l x ∷ p) = before p ++ (entries l ++ (x ∷ []))

abbrev pub after : List Frame → List Cell
after [] = []
after (on_left c x r ∷ p) = x ∷ (entries r ++ after p)
after (on_right c l x ∷ p) = after p

pub entries-plug :
    (t : Tree) (p : List Frame) → entries (plug t p) ≡ before p ++ (entries t ++ after p)
entries-plug t [] = simp (append-nil)
entries-plug t (on_left c x r ∷ p) = entries-plug (node c t x r) p ∙ simp (append_assoc)
entries-plug t (on_right c l x ∷ p) = entries-plug (node c l x t) p ∙ simp (append_assoc)

pub plug-congr :
    (t u : Tree) (p : List Frame) → entries t ≡ entries u → entries (plug t p) ≡ entries (plug u p)
plug-congr t u p e =
    entries-plug t p ∙ ap (λ xs. before p ++ (xs ++ after p)) e ∙ sym (entries-plug u p)

pub entries-paint : (c : Color) (t : Tree) → entries (paint c t) ≡ entries t
entries-paint c leaf = refl
entries-paint c (node d l x r) = refl

pub entries-node :
    (c d : Color) (l m : Tree) (x : Cell) (r s : Tree)
    → entries l ≡ entries m
    → entries r ≡ entries s
    → entries (node c l x r) ≡ entries (node d m x s)
entries-node c d l m x r s e f = rw (e, f) refl
