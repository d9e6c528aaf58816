-- ===== src/Rbtree/Balanced.antt =====
-- The red-black invariant, as the tests' `black_height` checks it, and its form for a place in a tree.
use rsmalloc.Common.{ℕ, zero, suc, ◌≡◌, ◌⊎◌, inl, inr, refl, ◌∙◌, List, [], ◌∷◌}
use rsmalloc.Rbtree.{
  Color, red, black, Cell, Tree, leaf, node, color_of, paint, Frame, on_left, on_right, plug,
}

-- `n` black nodes on each path from the top, and no red node with a red child.
abbrev pub Balanced : ℕ → Tree → Type 0
Balanced n leaf = n ≡ 0
Balanced n (node red l x r) =
    (color_of l ≡ black) × (color_of r ≡ black) × Balanced n l × Balanced n r
Balanced zero (node black l x r) = ⊥
Balanced (suc n) (node black l x r) = Balanced n l × Balanced n r

abbrev pub parent_color : List Frame → Color
parent_color [] = black
parent_color (on_left c x r ∷ p) = c
parent_color (on_right c l x ∷ p) = c

abbrev pub Inner : List Frame → Type 0
Inner [] = ⊥
Inner (f ∷ p) = Unit

-- A place for a subtree with `n` black nodes on each path; a red node is not the root.
abbrev pub Context : ℕ → List Frame → Type 0
Context n [] = Unit
Context n (on_left red x r ∷ p) =
    (color_of r ≡ black) × Balanced n r × Inner p × (parent_color p ≡ black) × Context n p
Context n (on_right red l x ∷ p) =
    (color_of l ≡ black) × Balanced n l × Inner p × (parent_color p ≡ black) × Context n p
Context n (on_left black x r ∷ p) = Balanced n r × Context (suc n) p
Context n (on_right black l x ∷ p) = Balanced n l × Context (suc n) p

-- The whole tree: the root is black.
pub record Valid (t : Tree) : Type 0 where
  pub height : ℕ
  pub root_black : color_of t ≡ black
  pub balanced : Balanced height t

pub Color-cases : (t : Tree) → (color_of t ≡ red) ⊎ (color_of t ≡ black)
Color-cases leaf = inr refl
Color-cases (node red l x r) = inl refl
Color-cases (node black l x r) = inr refl

pub paint-Balanced :
    (n : ℕ) (t : Tree) → color_of t ≡ red → Balanced n t → Balanced (suc n) (paint black t)
paint-Balanced n leaf e b = cc
paint-Balanced n (node red l x r) e b = (b.2, b.3)
paint-Balanced n (node black l x r) e b = cc

pub paint-Valid : (n : ℕ) (t : Tree) → Balanced n t → Valid (paint black t)
paint-Valid n leaf b = record { height = n; root_black = refl; balanced = b }
paint-Valid n (node red l x r) b = record {
  height = suc n;
  root_black = refl;
  balanced = (b.2, b.3);
}
paint-Valid n (node black l x r) b = record { height = n; root_black = refl; balanced = b }

-- A subtree in a place that fits it; a red one below a red node does not.
pub plug-Balanced :
    (n : ℕ) (t : Tree) (p : List Frame)
    → Balanced n t
    → ((parent_color p ≡ black) ⊎ (color_of t ≡ black))
    → Context n p
    → (m : ℕ) × Balanced m (plug t p)
plug-Balanced n t [] b e c = (n, b)
plug-Balanced n t (on_left red x r ∷ p) b (inl e) c = cc
plug-Balanced n t (on_left red x r ∷ p) b (inr e) c =
    plug-Balanced n (node red t x r) p (e, c.0, b, c.1) (inl c.3) c.4
plug-Balanced n t (on_right red l x ∷ p) b (inl e) c = cc
plug-Balanced n t (on_right red l x ∷ p) b (inr e) c =
    plug-Balanced n (node red l x t) p (c.0, e, c.1, b) (inl c.3) c.4
plug-Balanced n t (on_left black x r ∷ p) b e c =
    plug-Balanced (suc n) (node black t x r) p (b, c.0) (inr refl) c.1
plug-Balanced n t (on_right black l x ∷ p) b e c =
    plug-Balanced (suc n) (node black l x t) p (c.0, b) (inr refl) c.1

pub plug_black :
    (n : ℕ) (t : Tree) (p : List Frame)
    → color_of t ≡ black
    → Context n p
    → color_of (plug t p) ≡ black
plug_black n t [] e c = e
plug_black n t (on_left black x r ∷ p) e c = plug_black (suc n) (node black t x r) p refl c.1
plug_black n t (on_right black l x ∷ p) e c = plug_black (suc n) (node black l x t) p refl c.1
plug_black n t (on_left red x r ∷ []) e c = absurd c.2
plug_black n t (on_right red l x ∷ []) e c = absurd c.2
plug_black n t (on_left red x r ∷ (on_left red y s ∷ p)) e c = cc (c.3)
plug_black n t (on_left red x r ∷ (on_right red m y ∷ p)) e c = cc (c.3)
plug_black n t (on_right red l x ∷ (on_left red y s ∷ p)) e c = cc (c.3)
plug_black n t (on_right red l x ∷ (on_right red m y ∷ p)) e c = cc (c.3)
plug_black n t (on_left red x r ∷ (on_left black y s ∷ p)) e c =
    plug_black (suc n) (node black (node red t x r) y s) p refl c.4.1
plug_black n t (on_left red x r ∷ (on_right black m y ∷ p)) e c =
    plug_black (suc n) (node black m y (node red t x r)) p refl c.4.1
plug_black n t (on_right red l x ∷ (on_left black y s ∷ p)) e c =
    plug_black (suc n) (node black (node red l x t) y s) p refl c.4.1
plug_black n t (on_right red l x ∷ (on_right black m y ∷ p)) e c =
    plug_black (suc n) (node black m y (node red l x t)) p refl c.4.1

-- A black subtree in its place makes a valid tree.
pub plug-Valid :
    (n : ℕ) (t : Tree) (p : List Frame)
    → color_of t ≡ black
    → Balanced n t
    → Context n p
    → Valid (plug t p)
plug-Valid n t p e b c =
    let (m, bm) = plug-Balanced n t p b (inr e) c in
    record { height = m; root_black = plug_black n t p e c; balanced = bm }

-- Where a node of a color may stand.
abbrev pub Sits : Color → List Frame → Type 0
Sits red p = Inner p × (parent_color p ≡ black)
Sits black p = Unit

pub Sits-black : (t : Tree) (p : List Frame) → color_of t ≡ black → Sits (color_of t) p
Sits-black t p e = rw e tt

pub Sits-below :
    (t : Tree) (f : Frame) (p : List Frame)
    → parent_color (f ∷ p) ≡ black
    → Sits (color_of t) (f ∷ p)
Sits-below leaf f p e = tt
Sits-below (node black l x r) f p e = tt
Sits-below (node red l x r) f p e = (tt, e)

-- The children of a node that stands in a place; the right one may have another node above.
pub left_child :
    (n : ℕ) (c : Color) (l : Tree) (x : Cell) (r : Tree) (p : List Frame)
    → Balanced n (node c l x r)
    → Context n p
    → Sits c p
    → (m : ℕ) × Balanced m l × Context m (on_left c x r ∷ p) × Sits (color_of l) (on_left c x r ∷ p)
left_child n red l x r p b h s =
    (n, b.2, (b.1, b.3, s.0, s.1, h), Sits-black l (on_left red x r ∷ p) b.0)
left_child zero black l x r p b h s = absurd b
left_child (suc n) black l x r p b h s = (n, b.0, (b.1, h), Sits-below l (on_left black x r) p refl)

pub right_child :
    (n : ℕ) (c : Color) (l : Tree) (x y : Cell) (r : Tree) (p : List Frame)
    → Balanced n (node c l x r)
    → Context n p
    → Sits c p
    → (m : ℕ) × Balanced m r
      × Context m (on_right c l y ∷ p)
      × Sits (color_of r) (on_right c l y ∷ p)
right_child n red l x y r p b h s =
    (n, b.3, (b.0, b.2, s.0, s.1, h), Sits-black r (on_right red l y ∷ p) b.1)
right_child zero black l x y r p b h s = absurd b
right_child (suc n) black l x y r p b h s =
    (n, b.1, (b.0, h), Sits-below r (on_right black l y) p refl)

plug-color :
    (t u : Tree) (p : List Frame)
    → color_of t ≡ color_of u
    → color_of (plug t p) ≡ color_of (plug u p)
plug-color t u [] e = e
plug-color t u (on_left c x r ∷ p) e = plug-color (node c t x r) (node c u x r) p refl
plug-color t u (on_right c l x ∷ p) e = plug-color (node c l x t) (node c l x u) p refl

other_cell :
    (n : ℕ) (c : Color) (l : Tree) (x y : Cell) (r : Tree) (p : List Frame)
    → Balanced n (node c l x r)
    → Context n p
    → Sits c p
    → (m : ℕ) × Balanced m (plug (node c l y r) p)
other_cell n red l x y r p b h s = plug-Balanced n (node red l y r) p b (inl s.1) h
other_cell zero black l x y r p b h s = absurd b
other_cell (suc n) black l x y r p b h s = plug-Balanced (suc n) (node black l y r) p b (inr refl) h

-- What a node stores does not matter.
pub store-Valid :
    (n : ℕ) (c : Color) (l : Tree) (x y : Cell) (r : Tree) (p : List Frame)
    → Balanced n (node c l x r)
    → Context n p
    → Sits c p
    → Valid (plug (node c l x r) p)
    → Valid (plug (node c l y r) p)
store-Valid n c l x y r p b h s v =
    let (m, bal) = other_cell n c l x y r p b h s in
    record {
      height = m;
      root_black = plug-color (node c l y r) (node c l x r) p refl ∙ v.root_black;
      balanced = bal;
    }
