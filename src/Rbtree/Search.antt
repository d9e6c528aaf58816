-- ===== src/Rbtree/Search.antt =====
-- `find_node`: where it ends, with all smaller keys on the left of the place and all larger ones right.
use rsmalloc.Common.{ℕ, ◌<◌, ◌≡◌, refl, Bool-cases, inl, inr, List, [], ◌∷◌, ◌++◌, ltb, ◌==◌, arith}
use mathlib.Core.List.{append_assoc}
use rsmalloc.Rbtree.{Tree, leaf, node, color_of, Frame, on_left, on_right, plug, find_node}
use rsmalloc.Rbtree.Entries.{entries, before, after}
use rsmalloc.Rbtree.Balanced.{Balanced, Context, Sits, left_child, right_child}
use rsmalloc.Rbtree.Sorted.{
  Below, Above, Sorted, Above-le, Below-le, Below-append, Sorted-parts, Sorted-Below,
}

-- A subtree in its place, by the red-black invariant.
abbrev pub Standing : Tree → List Frame → Type 0
Standing t p = (n : ℕ) × Balanced n t × Context n p × Sits (color_of t) p

-- The place is empty, or has the key.
abbrev pub Hits : ℕ → Tree → Type 0
Hits key leaf = Unit
Hits key (node c l x r) = key ≡ x.key

pub record Found (key : ℕ) (whole : Tree) (z : Tree × List Frame) : Type 0 where
  pub same : plug z.0 z.1 ≡ whole
  pub hits : Hits key z.0
  pub below : Below key (before z.1)
  pub above : Above key (after z.1)
  pub stands : Standing z.0 z.1

pub find_node-Found :
    (key : ℕ) (t : Tree) (p : List Frame)
    → Standing t p
    → Sorted (before p ++ (entries t ++ after p))
    → Below key (before p)
    → Above key (after p)
    → Found key (plug t p) (find_node key t p)
unfolding find_node
find_node-Found key leaf p st s b a = record {
  same = refl;
  hits = tt;
  below = b;
  above = a;
  stands = st;
}
find_node-Found key (node c l x r) p st s b a =
    let regroup : before p ++ (entries (node c l x r) ++ after p)
        ≡ (before p ++ entries l) ++ (x ∷ (entries r ++ after p)) =
      simp append_assoc in
    let sorted : Sorted ((before p ++ entries l) ++ (x ∷ (entries r ++ after p))) =
      rw (← regroup) s in
    let right = (Sorted-parts (before p ++ entries l) (x ∷ (entries r ++ after p)) sorted).1 in
    let left = Sorted-Below (before p ++ entries l) x (entries r ++ after p) sorted in
    elim (Bool-cases (key == x.key)) [
      | inl e ↦
          rw (find_node, e)
            (record { same = refl; hits = ground (arith, e); below = b; above = a; stands = st })
      | inr e ↦ elim (Bool-cases (ltb key x.key)) [
        | inl f ↦
            let less : key < x.key = ground (arith, f) in
            let (m, bal, ctx, sits) = left_child st.0 c l x r p st.1 st.2 st.3 in
            rw (find_node, e, f)
              (find_node-Found key l (on_left c x r ∷ p) (m, bal, ctx, sits) (rw append_assoc at s)
                b (less, Above-le key x.key (entries r ++ after p) less right.0))
        | inr f ↦
            let more : x.key < key = ground (arith, e, f) in
            let (m, bal, ctx, sits) = right_child st.0 c l x x r p st.1 st.2 st.3 in
            let again : before p ++ (entries (node c l x r) ++ after p)
                ≡ (before p ++ (entries l ++ (x ∷ []))) ++ (entries r ++ after p) =
              simp append_assoc in
            let smaller =
              Below-append key (before p ++ entries l) (x ∷ [])
                (Below-le x.key key (before p ++ entries l) more left) (more, tt) in
            rw (find_node, e, f)
              (find_node-Found key r (on_right c l x ∷ p) (m, bal, ctx, sits) (rw (← again) s)
                (rw append_assoc at smaller) a)
      ]
    ]
