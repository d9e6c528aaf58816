-- ===== src/Rbtree/Deleted.antt =====
-- `delete_fixup`: it ends within its fuel, keeps what the tree holds, and gives a red-black tree.
use rsmalloc.Common.{ℕ, zero, suc, ◌<◌, ◌≡◌, refl, ◌∙◌, Option, some, List, [], ◌∷◌, length, arith}
use mathlib.Core.Path.{subst}
use mathlib.Core.List.{append_assoc}
use rsmalloc.Rbtree.{
  Color, red, black, Cell, Tree, leaf, node, color_of, Frame, on_left, on_right, plug, Round, done,
  again, crash,
}
use rsmalloc.Rbtree.Delete.{rebalance, delete_round, delete_fixup, close}
use rsmalloc.Rbtree.Entries.{entries, plug-congr, entries-paint}
use rsmalloc.Rbtree.Balanced.{Balanced, Context, Valid, paint-Valid, plug-Valid}
use rsmalloc.Rbtree.Borrow.{Short, to_walk, Regains, borrow_left-Regains, borrow_right-Regains}

rebalance-Regains :
    (n : ℕ) (x : Tree) (p : List Frame)
    → Balanced n x
    → Context (suc n) p
    → Regains (entries (plug x p)) (length p) (rebalance x p)
rebalance-Regains n x [] b h = (entries-paint black x, paint-Valid n x b)
rebalance-Regains n x (on_left red g leaf ∷ p) b h = absurd (omega (arith, h.1))
rebalance-Regains n x (on_left black g leaf ∷ p) b h = absurd (omega (arith, h.0))
rebalance-Regains n x (on_left red g (node red a y c) ∷ p) b h = cc (h.0)
rebalance-Regains n x (on_left red g (node black a y c) ∷ p) b h =
    borrow_left-Regains n x red g p (suc (length p)) b (omega arith) (h.3, h.4) (node black a y c)
      refl h.1
rebalance-Regains n x (on_left black g (node black a y c) ∷ p) b h =
    borrow_left-Regains n x black g p (suc (length p)) b (omega arith) h.1 (node black a y c) refl
      h.0
rebalance-Regains n x (on_left black g (node red a y c) ∷ p) b h =
    let turned =
      plug-congr (node black (node red x g a) y c) (node black x g (node red a y c)) p
        (simp append_assoc) in
    subst (λ xs. Regains xs (suc (length p)) (rebalance x (on_left black g (node red a y c) ∷ p)))
      turned
      (borrow_left-Regains n x red g (on_left black y c ∷ p) (suc (length p)) b (omega arith)
        (refl, (h.0.3, h.1)) a h.0.0 h.0.2)
rebalance-Regains n x (on_right red leaf g ∷ p) b h = absurd (omega (arith, h.1))
rebalance-Regains n x (on_right black leaf g ∷ p) b h = absurd (omega (arith, h.0))
rebalance-Regains n x (on_right red (node red a y c) g ∷ p) b h = cc (h.0)
rebalance-Regains n x (on_right red (node black a y c) g ∷ p) b h =
    borrow_right-Regains n x red g p (suc (length p)) b (omega arith) (h.3, h.4) (node black a y c)
      refl h.1
rebalance-Regains n x (on_right black (node black a y c) g ∷ p) b h =
    borrow_right-Regains n x black g p (suc (length p)) b (omega arith) h.1 (node black a y c) refl
      h.0
rebalance-Regains n x (on_right black (node red a y c) g ∷ p) b h =
    let turned =
      plug-congr (node black a y (node red c g x)) (node black (node red a y c) g x) p
        (simp append_assoc) in
    subst (λ xs. Regains xs (suc (length p)) (rebalance x (on_right black (node red a y c) g ∷ p)))
      turned
      (borrow_right-Regains n x red g (on_right black a y ∷ p) (suc (length p)) b (omega arith)
        (refl, (h.0.2, h.1)) c h.0.1 h.0.3)

delete_round-Regains :
    (n : ℕ) (x : Tree) (p : List Frame)
    → Short n x
    → Context (suc n) p
    → Regains (entries (plug x p)) (length p) (delete_round x p)
delete_round-Regains n leaf p b h = rebalance-Regains n leaf p b h
delete_round-Regains n (node black l y r) p b h = rebalance-Regains n (node black l y r) p b h
delete_round-Regains n (node red l y r) p b h = (
  plug-congr (node black l y r) (node red l y r) p refl,
  plug-Valid (suc n) (node black l y r) p refl b h,
)

-- A valid tree that holds the nodes `xs`.
abbrev pub Ends : Option Tree → List Cell → Type 0
Ends o xs = (t : Tree) × (o ≡ some t) × (entries t ≡ xs) × Valid t

-- The loop goes on at a black node only.
again-near :
    (x : Tree) (p : List Frame) (y : Tree) (q : List Frame) {fuel : ℕ}
    → delete_round x p ≡ again y q
    → to_walk (color_of x) (length p) < fuel
    → length p < fuel
again-near leaf p y q is h = h
again-near (node red l z r) p y q is h = cc
again-near (node black l z r) p y q is h = h

-- With more fuel than frames to walk, `delete_fixup` ends with a red-black tree of the same nodes.
pub delete_fixup-Ends :
    (fuel n : ℕ) (x : Tree) (p : List Frame)
    → to_walk (color_of x) (length p) < fuel
    → Short n x
    → Context (suc n) p
    → Ends (delete_fixup fuel x p) (entries (plug x p))
unfolding delete_fixup
delete_fixup-Ends zero n x p h b c = absurd (omega arith)
delete_fixup-Ends (suc fuel) n x p h b c =
    go (delete_fixup-Ends fuel) (delete_round x p) refl (delete_round-Regains n x p b c)
  where
    go :
        ((m : ℕ) (y : Tree) (q : List Frame)
          → to_walk (color_of y) (length q) < fuel
          → Short m y
          → Context (suc m) q
          → Ends (delete_fixup fuel y q) (entries (plug y q)))
        → (r : Round) → delete_round x p ≡ r
        → Regains (entries (plug x p)) (length p) r
        → Ends (delete_fixup (suc fuel) x p) (entries (plug x p))
    go later (done t) is s = (t, rw (delete_fixup, is) refl, s.0, s.1)
    go later (again y q) is s =
        let near : length p < suc fuel = again-near x p y q is h in
        let (t, ends, same, valid) = later s.2.0 y q (omega (arith, s.1, near)) s.2.1 s.2.2 in
        (t, rw (delete_fixup, is) ends, same ∙ s.0, valid)
    go later crash is s = absurd s

-- The child of a node that left a place for nodes with subtrees of height `n`.
abbrev pub Vacated : Color → ℕ → Tree → List Frame → Type 0
Vacated red n x p = (color_of x ≡ black) × Balanced n x × Context n p
Vacated black n x p = Short n x × Context (suc n) p

pub Balanced-Short : (n : ℕ) (x : Tree) → Balanced n x → Short n x
Balanced-Short n leaf b = b
Balanced-Short n (node red l x r) b = (b.2, b.3)
Balanced-Short n (node black l x r) b = b

pub close-Ends :
    (c : Color) (n : ℕ) (x : Tree) (p : List Frame)
    → Vacated c n x p
    → Ends (close c x p) (entries (plug x p))
close-Ends red n x p (e, b, h) = (plug x p, refl, refl, plug-Valid n x p e b h)
close-Ends black n x p (b, h) = delete_fixup-Ends (suc (length p)) n x p (at_most (color_of x)) b h
  where
    at_most : (c : Color) → to_walk c (length p) < suc (length p)
    at_most red = omega arith
    at_most black = omega arith
