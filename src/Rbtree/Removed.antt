-- ===== src/Rbtree/Removed.antt =====
-- `delete_node`: what is left is a red-black tree of the other nodes.
use rsmalloc.Common.{ℕ, zero, suc, ◌≡◌, refl, ap, ◌∙◌, List, [], ◌∷◌, ◌++◌}
use mathlib.Core.List.{append_assoc, append-nil}
use rsmalloc.Rbtree.{Color, red, black, Cell, Tree, leaf, node, Frame, on_left, on_right, plug}
use rsmalloc.Rbtree.Delete.{minimum, delete_node}
use rsmalloc.Rbtree.Entries.{entries, before, after, entries-plug}
use rsmalloc.Rbtree.Balanced.{Balanced, Context, Sits, left_child, right_child}
use rsmalloc.Rbtree.Deleted.{Ends, Vacated, Balanced-Short, close-Ends}

-- The node with a missing child leaves its place to the other one.
only_right :
    (n : ℕ) (c : Color) (x : Cell) (r : Tree) (p : List Frame)
    → Balanced n (node c leaf x r)
    → Context n p
    → (m : ℕ) × Vacated c m r p
only_right n red x r p b h = (n, (b.1, b.3, h))
only_right zero black x r p b h = absurd b
only_right (suc n) black x r p b h = (n, (Balanced-Short n r b.1, h))

only_left :
    (n : ℕ) (c : Color) (l : Tree) (x : Cell) (p : List Frame)
    → Balanced n (node c l x leaf)
    → Context n p
    → (m : ℕ) × Vacated c m l p
only_left n red l x p b h = (n, (b.0, b.2, h))
only_left zero black l x p b h = absurd b
only_left (suc n) black l x p b h = (n, (Balanced-Short n l b.0, h))

-- The frames of `minimum` stand above any frames below which its node stands.
minimum-Vacated :
    (n : ℕ) (l : Tree) (c : Color) (x : Cell) (r : Tree) (q p : List Frame)
    → Balanced n (node c l x r)
    → Context n (q ++ p)
    → Sits c (q ++ p)
    → let (yc, yx, yr, q') = minimum l c x r q in (m : ℕ) × Vacated yc m yr (q' ++ p)
unfolding minimum
minimum-Vacated n leaf c x r q p b h s = only_right n c x r (q ++ p) b h
minimum-Vacated n (node d a y e) c x r q p b h s =
    let (m, bal, ctx, sits) = left_child n c (node d a y e) x r (q ++ p) b h s in
    minimum-Vacated m a d y e (on_left c x r ∷ q) p bal ctx sits

-- The node of `minimum` is the first one, and the frames hold the rest.
minimum-entries :
    (l : Tree) (c : Color) (x : Cell) (r : Tree) (q : List Frame)
    → let (yc, yx, yr, q') = minimum l c x r q in
      (yx ∷ (entries yr ++ after q') ≡ entries (node c l x r) ++ after q) × (before q' ≡ before q)
unfolding minimum
minimum-entries leaf c x r q = (refl, refl)
minimum-entries (node d a y e) c x r q =
    let (first, rest) = minimum-entries a d y e (on_left c x r ∷ q) in
    (first ∙ simp append_assoc, rest)

minimum-first :
    (l : Tree) (c : Color) (x : Cell) (r : Tree) (yx : Cell) (yr : Tree) (q : List Frame)
    → (yx ∷ (entries yr ++ after q) ≡ entries (node c l x r) ++ []) × (before q ≡ [])
    → yx ∷ entries (plug yr q) ≡ entries (node c l x r)
minimum-first l c x r yx yr q (first, rest) =
    ap (λ xs. yx ∷ xs) (entries-plug yr q ∙ ap (λ xs. xs ++ (entries yr ++ after q)) rest)
    ∙ (first ∙ append-nil (entries (node c l x r)))

plug-append : (t : Tree) (q p : List Frame) → plug t (q ++ p) ≡ plug (plug t q) p
plug-append t [] p = refl
plug-append t (on_left c x r ∷ q) p = plug-append (node c t x r) q p
plug-append t (on_right c l x ∷ q) p = plug-append (node c l x t) q p

-- `delete_node` ends, and what is left is a red-black tree of the nodes but the one.
pub delete_node-Ends :
    (n : ℕ) (c : Color) (l : Tree) (z : Cell) (r : Tree) (p : List Frame)
    → Balanced n (node c l z r)
    → Context n p
    → Sits c p
    → Ends (delete_node c l z r p) (before p ++ ((entries l ++ entries r) ++ after p))
unfolding delete_node
delete_node-Ends n c leaf z r p b h s =
    let (m, v) = only_right n c z r p b h in
    let (t, ends, same, valid) = close-Ends c m r p v in (t, ends, same ∙ entries-plug r p, valid)
delete_node-Ends n c (node d a y e) z leaf p b h s =
    let (m, v) = only_left n c (node d a y e) z p b h in
    let (t, ends, same, valid) = close-Ends c m (node d a y e) p v in
    (t, ends, same ∙ (entries-plug (node d a y e) p ∙ simp (append_assoc, append-nil)), valid)
delete_node-Ends n c (node d a y e) z (node f u v w) p b h s =
    let l = node d a y e in
    let (yc, yx, yr, q) = minimum u f v w [] in
    let (m, bal, ctx, sits) = right_child n c l z yx (node f u v w) p b h s in
    let (k, vacated) = minimum-Vacated m u f v w [] (on_right c l yx ∷ p) bal ctx sits in
    let (t, ends, same, valid) = close-Ends yc k yr (q ++ (on_right c l yx ∷ p)) vacated in
    let whole : yx ∷ entries (plug yr q) ≡ entries (node f u v w) =
      minimum-first u f v w yx yr q (minimum-entries u f v w []) in
    (
      t,
      ends,
      same
          ∙ (ap entries (plug-append yr q (on_right c l yx ∷ p))
              ∙ (entries-plug (node c l yx (plug yr q)) p
                  ∙ ap (λ xs. before p ++ ((entries l ++ xs) ++ after p)) whole)),
      valid,
    )
