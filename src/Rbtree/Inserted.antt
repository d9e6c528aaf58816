-- ===== src/Rbtree/Inserted.antt =====
-- `insert_fixup`: it ends within its fuel, keeps what the tree holds, and gives a red-black tree.
use rsmalloc.Common.{
  ℕ, zero, suc, ◌<◌, ◌≡◌, refl, ◌∙◌, inl, inr, Option, some, List, [], ◌∷◌, length, arith,
}
use mathlib.Core.List.{append_assoc}
use rsmalloc.Rbtree.{
  red, black, Cell, Tree, leaf, node, color_of, paint, Frame, on_left, on_right, plug, Round, done,
  again, crash,
}
use rsmalloc.Rbtree.Insert.{recolor, insert_round, insert_fixup}
use rsmalloc.Rbtree.Entries.{entries, plug-congr, entries-paint, entries-node}
use rsmalloc.Rbtree.Balanced.{
  Balanced, Context, Valid, parent_color, Color-cases, paint-Balanced, paint-Valid, plug-Balanced,
}

-- A round keeps the nodes `xs`, comes nearer to the root than `k` frames, and keeps the invariant.
abbrev Settles : List Cell → ℕ → Round → Type 0
Settles xs k (done t) = (entries t ≡ xs) × ((m : ℕ) × Balanced m t)
Settles xs k (again z p) =
    (entries (plug z p) ≡ xs)
    × (color_of z ≡ red)
    × (length p < k)
    × ((n : ℕ) × Balanced n z × Context n p)
Settles xs k crash = ⊥

-- The grandparent `g` becomes red, its children black.
push_red :
    (n : ℕ) (l y : Tree) (g : Cell) (p : List Frame)
    → Balanced (suc n) (paint black l)
    → Balanced (suc n) (paint black y)
    → Context (suc n) p
    → Settles
        (entries (plug (node black l g y) p))
        (suc (suc (length p)))
        (again (node red (paint black l) g (paint black y)) p)
push_red n l y g p bl by c = (
  plug-congr (node red (paint black l) g (paint black y)) (node black l g y) p (
      entries-node red black (paint black l) l g (paint black y) y (entries-paint black l)
        (entries-paint black y)),
  refl,
  omega arith,
  (suc n, (painted l, painted y, bl, by), c),
)
  where
    painted : (t : Tree) → color_of (paint black t) ≡ black
    painted leaf = refl
    painted (node d l x r) = refl

-- A black node with two red children comes to stand where the grandparent was.
settle :
    (n : ℕ) (old a b : Tree) (x : Cell) (p : List Frame) (k : ℕ)
    → entries (node black a x b) ≡ entries old
    → Balanced n a
    → Balanced n b
    → Context (suc n) p
    → Settles (entries (plug old p)) k (done (plug (node black a x b) p))
settle n old a b x p k e ba bb c = (
  plug-congr (node black a x b) old p e,
  plug-Balanced (suc n) (node black a x b) p (ba, bb) (inr refl) c,
)

recolor-Settles :
    (n : ℕ) (z : Tree) (zp : Frame) (p : List Frame)
    → color_of z ≡ red
    → parent_color (zp ∷ p) ≡ red
    → Balanced n z
    → Context n (zp ∷ p)
    → Settles (entries (plug z (zp ∷ p))) (suc (length p)) (recolor z zp p)
recolor-Settles n z (on_left black x r) p ez ep b c = cc
recolor-Settles n z (on_right black l x) p ez ep b c = cc
recolor-Settles n z (on_left red x r) [] ez ep b c = absurd c.2
recolor-Settles n z (on_right red l x) [] ez ep b c = absurd c.2
recolor-Settles n z (on_left red x r) (on_left red g y ∷ p) ez ep b c = cc (c.3)
recolor-Settles n z (on_left red x r) (on_right red y g ∷ p) ez ep b c = cc (c.3)
recolor-Settles n z (on_right red l x) (on_left red g y ∷ p) ez ep b c = cc (c.3)
recolor-Settles n z (on_right red l x) (on_right red y g ∷ p) ez ep b c = cc (c.3)
recolor-Settles n z (on_left red x r) (on_left black g y ∷ p) ez ep b c = elim (Color-cases y) [
  | inl e ↦
      rw (Settles, e)
        (push_red n (node red z x r) y g p (b, c.1) (paint-Balanced n y e c.4.0) c.4.1)
  | inr e ↦
      rw (Settles, e)
        (settle n (node black (node red z x r) g y) z (node red r g y) x p (suc (suc (length p)))
          (simp append_assoc) b (c.0, e, c.1, c.4.0) c.4.1)
]
recolor-Settles n z (on_right red l x) (on_right black y g ∷ p) ez ep b c = elim (Color-cases y) [
  | inl e ↦
      rw (Settles, e)
        (push_red n y (node red l x z) g p (paint-Balanced n y e c.4.0) (c.1, b) c.4.1)
  | inr e ↦
      rw (Settles, e)
        (settle n (node black y g (node red l x z)) (node red y g l) z x p (suc (suc (length p)))
          (simp append_assoc) (e, c.0, c.4.0, c.1) b c.4.1)
]
recolor-Settles n (node red a k b) (on_right red l x) (on_left black g y ∷ p) ez ep h c =
    elim (Color-cases y) [
      | inl e ↦
          rw (Settles, e)
            (push_red n (node red l x (node red a k b)) y g p (c.1, h) (paint-Balanced n y e c.4.0)
              c.4.1)
      | inr e ↦
          rw (Settles, e)
            (settle n (node black (node red l x (node red a k b)) g y) (node red l x a)
              (node red b g y) k p (suc (suc (length p))) (simp append_assoc) (c.0, h.0, c.1, h.2)
              (h.1, e, h.3, c.4.0) c.4.1)
    ]
recolor-Settles n (node red a k b) (on_left red x r) (on_right black y g ∷ p) ez ep h c =
    elim (Color-cases y) [
      | inl e ↦
          rw (Settles, e)
            (push_red n y (node red (node red a k b) x r) g p (paint-Balanced n y e c.4.0) (h, c.1)
              c.4.1)
      | inr e ↦
          rw (Settles, e)
            (settle n (node black y g (node red (node red a k b) x r)) (node red y g a)
              (node red b x r) k p (suc (suc (length p))) (simp append_assoc) (e, h.0, c.4.0, h.2)
              (h.1, c.0, h.3, c.1) c.4.1)
    ]
recolor-Settles n leaf (on_right red l x) (on_left black g y ∷ p) ez ep h c = cc
recolor-Settles n leaf (on_left red x r) (on_right black y g ∷ p) ez ep h c = cc
recolor-Settles n (node black a k b) (on_right red l x) (on_left black g y ∷ p) ez ep h c = cc
recolor-Settles n (node black a k b) (on_left red x r) (on_right black y g ∷ p) ez ep h c = cc

insert_round-Settles :
    (n : ℕ) (z : Tree) (p : List Frame)
    → color_of z ≡ red
    → Balanced n z
    → Context n p
    → Settles (entries (plug z p)) (length p) (insert_round z p)
insert_round-Settles n z [] e b c = (refl, (n, b))
insert_round-Settles n z (on_left black x r ∷ p) e b c =
    (refl, plug-Balanced n z (on_left black x r ∷ p) b (inl refl) c)
insert_round-Settles n z (on_right black l x ∷ p) e b c =
    (refl, plug-Balanced n z (on_right black l x ∷ p) b (inl refl) c)
insert_round-Settles n z (on_left red x r ∷ p) e b c =
    recolor-Settles n z (on_left red x r) p e refl b c
insert_round-Settles n z (on_right red l x ∷ p) e b c =
    recolor-Settles n z (on_right red l x) p e refl b c

-- With more fuel than frames, `insert_fixup` ends with a red-black tree that holds the same nodes.
pub insert_fixup-Valid :
    (fuel n : ℕ) (z : Tree) (p : List Frame)
    → length p < fuel
    → color_of z ≡ red
    → Balanced n z
    → Context n p
    → (t : Tree) × (insert_fixup fuel z p ≡ some t) × (entries t ≡ entries (plug z p)) × Valid t
unfolding insert_fixup
insert_fixup-Valid zero n z p h e b c = absurd (omega arith)
insert_fixup-Valid (suc fuel) n z p h e b c =
    go (insert_fixup-Valid fuel) (insert_round z p) refl (insert_round-Settles n z p e b c)
  where
    Ends : Option Tree → List Cell → Type 0
    Ends o xs = (t : Tree) × (o ≡ some t) × (entries t ≡ xs) × Valid t

    go :
        ((m : ℕ) (y : Tree) (q : List Frame)
          → length q < fuel
          → color_of y ≡ red
          → Balanced m y
          → Context m q
          → Ends (insert_fixup fuel y q) (entries (plug y q)))
        → (r : Round) → insert_round z p ≡ r
        → Settles (entries (plug z p)) (length p) r
        → Ends (insert_fixup (suc fuel) z p) (entries (plug z p))
    go later (done t) is s = (
      paint black t,
      rw (insert_fixup, is) refl,
      entries-paint black t ∙ s.0,
      paint-Valid s.1.0 t s.1.1,
    )
    go later (again y q) is s =
        let (t, ends, same, valid) = later s.3.0 y q (omega (arith, s.2)) s.1 s.3.1 s.3.2 in
        (t, rw (insert_fixup, is) ends, same ∙ s.0, valid)
    go later crash is s = absurd s
