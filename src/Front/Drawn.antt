-- ===== src/Front/Drawn.antt =====
-- The magic values that `init_magic` of core_prim/random.rs draws.
use rsmalloc.Common.{
  ℕ, ◌≡◌, ◌≢◌, Bool, false, ◌||◌, none, some, List, [], ◌∷◌, ◌==◌, Bool-cases, Option-cases, inl,
  inr, arith,
}
use rsmalloc.Front.{Magics, redraw, init_magic}

-- Three different values.
abbrev pub Distinct : Magics → Type 0
Distinct m = (m.freed_magic ≢ m.magic) × (m.big_magic ≢ m.freed_magic) × (m.big_magic ≢ m.magic)

-- A value that `redraw` gives is not taken.
redraw-free :
    (taken : ℕ → Bool) (value : ℕ) (draws : List ℕ) (r : ℕ × List ℕ)
    → redraw taken value draws ≡ some r
    → taken r.0 ≡ false
unfolding redraw
redraw-free taken value [] r e = elim (Bool-cases (taken value)) [
  | inl yes_taken ↦ let no : none ≡ some r = rw yes_taken at e in cc
  | inr free ↦
      let found : some (value, []) ≡ some r = rw free at e in
      let same : (value, []) ≡ r = cc in rw (← same) free
]
redraw-free taken value (next ∷ draws) r e = elim (Bool-cases (taken value)) [
  | inl yes_taken ↦ redraw-free taken next draws r (rw yes_taken at e)
  | inr free ↦
      let found : some (value, next ∷ draws) ≡ some r = rw free at e in
      let same : (value, next ∷ draws) ≡ r = cc in rw (← same) free
]

-- `init_magic` draws three different values.
pub init_magic-Distinct : (draws : List ℕ) (m : Magics) → init_magic draws ≡ some m → Distinct m
unfolding init_magic
init_magic-Distinct [] m e = cc
init_magic-Distinct (main ∷ []) m e = cc
init_magic-Distinct (main ∷ freed ∷ []) m e = cc
init_magic-Distinct (main ∷ freed ∷ big ∷ draws) m e =
    elim (Option-cases (redraw (λ v. v == main) freed draws)) [
      | inl fails ↦ let none_left : none ≡ some m = rw fails at e in cc
      | inr ((freed', draws'), one) ↦
          elim (Option-cases (redraw (λ v. (v == freed') || (v == main)) big draws')) [
            | inl fails ↦ let none_left : none ≡ some m = rw (one, fails) at e in cc
            | inr ((big', rest), two) ↦
                let f1 : (freed' == main) ≡ false =
                  redraw-free (λ v. v == main) freed draws (freed', draws') one in
                let f2 : ((big' == freed') || (big' == main)) ≡ false =
                  redraw-free (λ v. (v == freed') || (v == main)) big draws' (big', rest) two in
                let drawn : Magics = record {
                  magic = main;
                  freed_magic = freed';
                  big_magic = big';
                } in
                let found : some drawn ≡ some m = rw (one, two) at e in
                let same : drawn ≡ m = cc in
                rw (← same) (
                  (λ h. ground (arith, f1, h)),
                  (λ h. ground (arith, f2, h)),
                  (λ h. ground (arith, f2, h)),
                )
          ]
    ]
