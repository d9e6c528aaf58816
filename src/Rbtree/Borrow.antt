-- ===== src/Rbtree/Borrow.antt =====
-- The rest of a round of `delete_fixup` once the sibling is black, on both sides.
use rsmalloc.Common.{ℕ, suc, ◌<◌, ◌≡◌, refl, ◌∙◌, inl, inr, List, length, arith}
use mathlib.Core.List.{append_assoc}
use rsmalloc.Rbtree.{
  Color, red, black, Cell, Tree, leaf, node, color_of, paint, Frame, plug, Round, done, again,
  crash,
}
use rsmalloc.Rbtree.Delete.{borrow_left, borrow_right}
use rsmalloc.Rbtree.Entries.{entries, plug-congr, entries-paint}
use rsmalloc.Rbtree.Balanced.{
  Balanced, Context, Valid, parent_color, Color-cases, paint-Valid, plug-Balanced,
}

-- A subtree with one black node too few on each path, `n` of them; a red one has it when it is black.
abbrev pub Short : ℕ → Tree → Type 0
Short n leaf = Balanced n leaf
Short n (node red l x r) = Balanced n l × Balanced n r
Short n (node black l x r) = Balanced n (node black l x r)

-- A place for a node of a color with subtrees of height `n`.
abbrev pub Place : Color → ℕ → List Frame → Type 0
Place red n p = (parent_color p ≡ black) × Context n p
Place black n p = Context (suc n) p

-- The frames left to walk: none at a red node, where the loop ends.
abbrev pub to_walk : Color → ℕ → ℕ
to_walk red k = 0
to_walk black k = k

abbrev pub Regains : List Cell → ℕ → Round → Type 0
Regains xs k (done t) = (entries t ≡ xs) × Valid t
Regains xs k (again x p) =
    (entries (plug x p) ≡ xs)
    × (to_walk (color_of x) (length p) < k)
    × ((n : ℕ) × Short n x × Context (suc n) p)
Regains xs k crash = ⊥

painted :
    (t old : Tree) (p : List Frame) (k : ℕ)
    → entries t ≡ entries old
    → ((m : ℕ) × Balanced m (plug t p))
    → Regains (entries (plug old p)) k (done (paint black (plug t p)))
painted t old p k e (m, b) =
    (entries-paint black (plug t p) ∙ plug-congr t old p e, paint-Valid m (plug t p) b)

settle :
    (c : Color) (n : ℕ) (l r old : Tree) (y : Cell) (p : List Frame) (k : ℕ)
    → entries (node c l y r) ≡ entries old
    → color_of l ≡ black
    → color_of r ≡ black
    → Balanced n l
    → Balanced n r
    → Place c n p
    → Regains (entries (plug old p)) k (done (paint black (plug (node c l y r) p)))
settle red n l r old y p k e el er bl br h =
    painted (node red l y r) old p k e
      (plug-Balanced n (node red l y r) p (el, er, bl, br) (inl h.0) h.1)
settle black n l r old y p k e el er bl br h =
    painted (node black l y r) old p k e
      (plug-Balanced (suc n) (node black l y r) p (bl, br) (inr refl) h)

-- The sibling becomes red, and the parent is the one with too few.
raise :
    (c : Color) (n : ℕ) (l r old : Tree) (g : Cell) (p : List Frame) (k : ℕ)
    → entries (node c l g r) ≡ entries old
    → Balanced n l
    → Balanced n r
    → to_walk c (length p) < k
    → Place c (suc n) p
    → Regains (entries (plug old p)) k (again (node c l g r) p)
raise red n l r old g p k e bl br near h =
    (plug-congr (node red l g r) old p e, near, (n, (bl, br), h.1))
raise black n l r old g p k e bl br near h =
    (plug-congr (node black l g r) old p e, near, (suc n, (bl, br), h))

module _ (n : ℕ) (x : Tree) (c : Color) (g : Cell) (p : List Frame) (k : ℕ) (bx : Balanced n x)
    (near : to_walk c (length p) < k) (h : Place c (suc n) p) where
  abbrev pub RegainsLeft : Tree → Type 0
  RegainsLeft w = Regains (entries (plug (node c x g w) p)) k (borrow_left x c g w p)

  abbrev pub RegainsRight : Tree → Type 0
  RegainsRight w = Regains (entries (plug (node c w g x) p)) k (borrow_right c w g x p)

  left_both_black :
      (a b : Tree) (y : Cell)
      → color_of a ≡ black
      → color_of b ≡ black
      → Balanced n a
      → Balanced n b
      → RegainsLeft (node black a y b)
  left_both_black a b y ea eb ba bb =
      rw (Regains, ea, eb)
        (raise c n x (node red a y b) (node c x g (node black a y b)) g p k refl bx (ea, eb, ba, bb)
          near h)

  right_both_black :
      (a b : Tree) (y : Cell)
      → color_of a ≡ black
      → color_of b ≡ black
      → Balanced n a
      → Balanced n b
      → RegainsRight (node black a y b)
  right_both_black a b y ea eb ba bb =
      rw (Regains, eb, ea)
        (raise c n (node red a y b) x (node c (node black a y b) g x) g p k refl (ea, eb, ba, bb) bx
          near h)

  left_far_red :
      (a b b' : Tree) (y z : Cell)
      → Balanced n a
      → Balanced n b
      → Balanced n b'
      → RegainsLeft (node black a y (node red b z b'))
  left_far_red a b b' y z ba bb bb' =
      let end =
        settle c (suc n) (node black x g a) (node black b z b')
          (node c x g (node black a y (node red b z b'))) y p k (simp append_assoc) refl refl
          (bx, ba) (bb, bb') h in
      elim (Color-cases a) [ inl ea ↦ rw (Regains, ea) end | inr ea ↦ rw (Regains, ea) end ]

  right_far_red :
      (a a' b : Tree) (y z : Cell)
      → Balanced n a
      → Balanced n a'
      → Balanced n b
      → RegainsRight (node black (node red a z a') y b)
  right_far_red a a' b y z ba ba' bb =
      let end =
        settle c (suc n) (node black a z a') (node black b g x)
          (node c (node black (node red a z a') y b) g x) y p k (simp append_assoc) refl refl
          (ba, ba') (bb, bx) h in
      elim (Color-cases b) [ inl eb ↦ rw (Regains, eb) end | inr eb ↦ rw (Regains, eb) end ]

  left_near_red :
      (a a' b : Tree) (y z : Cell)
      → color_of b ≡ black
      → Balanced n a
      → Balanced n a'
      → Balanced n b
      → RegainsLeft (node black (node red a z a') y b)
  left_near_red a a' b y z eb ba ba' bb =
      rw (Regains, eb)
        (settle c (suc n) (node black x g a) (node black a' y b)
          (node c x g (node black (node red a z a') y b)) z p k (simp append_assoc) refl refl
          (bx, ba) (ba', bb) h)

  right_near_red :
      (a b b' : Tree) (y z : Cell)
      → color_of a ≡ black
      → Balanced n a
      → Balanced n b
      → Balanced n b'
      → RegainsRight (node black a y (node red b z b'))
  right_near_red a b b' y z ea ba bb bb' =
      rw (Regains, ea)
        (settle c (suc n) (node black a y b) (node black b' g x)
          (node c (node black a y (node red b z b')) g x) z p k (simp append_assoc) refl refl
          (ba, bb) (bb', bx) h)

  pub borrow_left-Regains : (w : Tree) → color_of w ≡ black → Balanced (suc n) w → RegainsLeft w
  borrow_left-Regains leaf e b = absurd (omega arith)
  borrow_left-Regains (node red a y b) e h = cc
  borrow_left-Regains (node black a y (node red b z b')) e (ba, bb) =
      left_far_red a b b' y z ba bb.2 bb.3
  borrow_left-Regains (node black (node red a z a') y leaf) e (ba, bb) =
      left_near_red a a' leaf y z refl ba.2 ba.3 bb
  borrow_left-Regains (node black (node red a z a') y (node black b v b')) e (ba, bb) =
      left_near_red a a' (node black b v b') y z refl ba.2 ba.3 bb
  borrow_left-Regains (node black leaf y leaf) e (ba, bb) =
      left_both_black leaf leaf y refl refl ba bb
  borrow_left-Regains (node black leaf y (node black b v b')) e (ba, bb) =
      left_both_black leaf (node black b v b') y refl refl ba bb
  borrow_left-Regains (node black (node black a z a') y leaf) e (ba, bb) =
      left_both_black (node black a z a') leaf y refl refl ba bb
  borrow_left-Regains (node black (node black a z a') y (node black b v b')) e (ba, bb) =
      left_both_black (node black a z a') (node black b v b') y refl refl ba bb

  pub borrow_right-Regains : (w : Tree) → color_of w ≡ black → Balanced (suc n) w → RegainsRight w
  borrow_right-Regains leaf e b = absurd (omega arith)
  borrow_right-Regains (node red a y b) e h = cc
  borrow_right-Regains (node black (node red a z a') y b) e (ba, bb) =
      right_far_red a a' b y z ba.2 ba.3 bb
  borrow_right-Regains (node black leaf y (node red b z b')) e (ba, bb) =
      right_near_red leaf b b' y z refl ba bb.2 bb.3
  borrow_right-Regains (node black (node black a v a') y (node red b z b')) e (ba, bb) =
      right_near_red (node black a v a') b b' y z refl ba bb.2 bb.3
  borrow_right-Regains (node black leaf y leaf) e (ba, bb) =
      right_both_black leaf leaf y refl refl ba bb
  borrow_right-Regains (node black leaf y (node black b v b')) e (ba, bb) =
      right_both_black leaf (node black b v b') y refl refl ba bb
  borrow_right-Regains (node black (node black a z a') y leaf) e (ba, bb) =
      right_both_black (node black a z a') leaf y refl refl ba bb
  borrow_right-Regains (node black (node black a z a') y (node black b v b')) e (ba, bb) =
      right_both_black (node black a z a') (node black b v b') y refl refl ba bb
