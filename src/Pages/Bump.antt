-- ===== src/Pages/Bump.antt =====
-- The bytes of the arenas that are still to be handed out, and how `bump`, a replaced arena and a
-- removed one change them.
use rsmalloc.Common.{
  ℕ, ◌+◌, ◌-◌, ◌^◌, ◌≤◌, ◌<◌, ◌≡◌, refl, ◌&&◌, none, some, List, [], ◌∷◌, ltb, leb, ◌==◌,
  if◌then◌else◌, arith, Bool-cases, inl, inr,
}
use rsmalloc.Word.{checked_add}
use rsmalloc.SizeClass.{min_refill_bytes}
use rsmalloc.Pages.{
  PageArena, NodeArenaState, arena_at, put_arena, drop_arena, remove_arena, bump, retire,
}

-- 1 if the byte lies in the range from `from` up to, not at, `to`, else 0.
abbrev pub within : ℕ → ℕ → ℕ → ℕ
within from to u = if leb from u && ltb u to then 1 else 0

-- The arenas in which the byte is still to be handed out.
unfoldable pub left_at : List PageArena → ℕ → ℕ
left_at [] u = 0
left_at (a ∷ rest) u = within a.current a.limit u + left_at rest u

abbrev pub ArenaValid : PageArena → Type 0
ArenaValid a = (a.base ≤ a.current) × (a.current ≤ a.limit) × (a.limit < 2 ^ 64)

unfoldable pub AllArenas : List PageArena → Type 0
AllArenas [] = Unit
AllArenas (a ∷ rest) = ArenaValid a × AllArenas rest

-- An arena after `bump`: the size was taken from its front.
pub bump-took :
    (a b : PageArena) (size : ℕ)
    → ArenaValid a
    → bump a size ≡ some b
    → ArenaValid b
      × (b.addr ≡ a.addr)
      × ((u : ℕ)
          → within a.current (a.current + size) u + within b.current b.limit u
            ≡ within a.current a.limit u)
unfolding bump checked_add
bump-took a b size v e = elim (Bool-cases (ltb (a.current + size) (2 ^ 64))) [
  | inr e1 ↦ let no : none ≡ some b = rw e1 at e in cc
  | inl e1 ↦ elim (Bool-cases (ltb a.limit (a.current + size))) [
    | inl e2 ↦ let no : none ≡ some b = rw (e1, e2) at e in cc
    | inr e2 ↦
        let found : some (record a { current = a.current + size }) ≡ some b = rw (e1, e2) at e in
        let same : record a { current = a.current + size } ≡ b = cc in
        rw (← same) (ground arith, refl, λ u. ground arith)
  ]
]

pub put_arena-took :
    (addr : ℕ) (a b : PageArena) (l : List PageArena) (u k : ℕ)
    → arena_at addr l ≡ some a
    → k + within b.current b.limit u ≡ within a.current a.limit u
    → k + left_at (put_arena addr b l) u ≡ left_at l u
unfolding arena_at put_arena left_at
put_arena-took addr a b [] u k h e = cc
put_arena-took addr a b (c ∷ rest) u k h e = elim (Bool-cases (c.addr == addr)) [
  | inl hit ↦
      let found : some c ≡ some a = rw hit at h in
      let same : c ≡ a = cc in rw (hit, same) (omega (arith, e))
  | inr other ↦ rw other (omega (arith, put_arena-took addr a b rest u k (rw other at h) e))
]

pub put_arena-AllArenas :
    (addr : ℕ) (b : PageArena) (l : List PageArena)
    → ArenaValid b
    → AllArenas l
    → AllArenas (put_arena addr b l)
unfolding put_arena AllArenas
put_arena-AllArenas addr b [] v vs = tt
put_arena-AllArenas addr b (c ∷ rest) v (w, vs) = elim (Bool-cases (c.addr == addr)) [
  | inl e ↦ rw e (v, vs)
  | inr e ↦ rw e (w, put_arena-AllArenas addr b rest v vs)
]

pub arena_at-ArenaValid :
    (addr : ℕ) (a : PageArena) (l : List PageArena)
    → arena_at addr l ≡ some a
    → AllArenas l
    → ArenaValid a
unfolding arena_at AllArenas
arena_at-ArenaValid addr a [] h v = cc
arena_at-ArenaValid addr a (c ∷ rest) h (v, vs) = elim (Bool-cases (c.addr == addr)) [
  | inl hit ↦ let found : some c ≡ some a = rw hit at h in let same : c ≡ a = cc in rw same at v
  | inr other ↦ arena_at-ArenaValid addr a rest (rw other at h) vs
]

-- An arena that is removed only loses bytes.
drop_arena-left :
    (addr : ℕ) (l : List PageArena) (u : ℕ) → left_at (drop_arena addr l) u ≤ left_at l u
unfolding drop_arena left_at
drop_arena-left addr [] u = omega arith
drop_arena-left addr (a ∷ rest) u = ground (arith, drop_arena-left addr rest u)

drop_arena-AllArenas : (addr : ℕ) (l : List PageArena) → AllArenas l → AllArenas (drop_arena addr l)
unfolding drop_arena AllArenas
drop_arena-AllArenas addr [] v = tt
drop_arena-AllArenas addr (a ∷ rest) (v, vs) = elim (Bool-cases (a.addr == addr)) [
  | inl e ↦ rw e vs
  | inr e ↦ rw e (v, drop_arena-AllArenas addr rest vs)
]

pub retire-left :
    (s : NodeArenaState) (a : PageArena)
    → AllArenas s.arenas
    → AllArenas (retire s a).arenas × ((u : ℕ) → left_at (retire s a).arenas u ≤ left_at s.arenas u)
unfolding retire remove_arena
retire-left s a v = elim (Bool-cases (ltb (a.limit - a.current) min_refill_bytes)) [
  | inl e ↦ rw e (drop_arena-AllArenas a.addr s.arenas v, λ u. drop_arena-left a.addr s.arenas u)
  | inr e ↦ rw e (v, λ u. omega arith)
]
