-- ===== src/Pages/Grow.antt =====
-- `try_grow_inplace` of page_allocator.rs on the state of one node.
use rsmalloc.Common.{
  ℕ, ◌+◌, ◌-◌, ◌%◌, ◌^◌, ◌≤◌, ◌≡◌, ◌==◌, Bool, true, false, not, ◌&&◌, ◌||◌, none, some, List, [],
  ◌∷◌, ltb, leb, arith, Bool-cases, Option-cases, inl, inr,
}
use rsmalloc.Word.{checked_add}
use rsmalloc.Layout.{page_size}
use rsmalloc.Pages.{PageArena, NodeArenaState, grow_arena, grow_in, grow_locked, retire}
use rsmalloc.Pages.Bump.{within, left_at, ArenaValid, AllArenas, retire-left}

-- What growing a block takes from its arena.
grow_arena-took :
    (a b : PageArena) (addr old_size new_size : ℕ)
    → ArenaValid a
    → old_size ≤ new_size
    → grow_arena a addr old_size new_size ≡ some b
    → ArenaValid b
      × ((u : ℕ)
          → within (addr + old_size) (addr + new_size) u + within b.current b.limit u
            ≡ within a.current a.limit u)
unfolding grow_arena checked_add
grow_arena-took a b addr old_size new_size v le e =
    elim (Bool-cases (ltb (addr + old_size) (2 ^ 64))) [
      | inr e1 ↦ let no : none ≡ some b = rw (grow_arena, e1) at e in cc
      | inl e1 ↦ elim (Bool-cases (ltb (addr + new_size) (2 ^ 64))) [
        | inr e2 ↦ let no : none ≡ some b = rw (grow_arena, e1, e2) at e in cc
        | inl e2 ↦ elim (Bool-cases guard) [
          | inl e3 ↦ let no : none ≡ some b = rw (grow_arena, e1, e2, e3) at e in cc
          | inr e3 ↦
              let found : some (record a { current = addr + new_size }) ≡ some b =
                rw (grow_arena, e1, e2, e3) at e in
              let same : record a { current = addr + new_size } ≡ b = cc in
              rw (← same) (ground arith, λ u. ground arith)
        ]
      ]
    ]
  where
    guard : Bool
    guard =
        not ((addr - a.base) % page_size == 0)
        || not (addr + old_size == a.current)
        || ltb a.limit (addr + new_size)

grow_in-took :
    (addr old_size new_size : ℕ) (l l' : List PageArena) (b : PageArena)
    → AllArenas l
    → old_size ≤ new_size
    → grow_in addr old_size new_size l ≡ some (b, l')
    → AllArenas l'
      × ((u : ℕ) → within (addr + old_size) (addr + new_size) u + left_at l' u ≡ left_at l u)
unfolding grow_in AllArenas left_at
grow_in-took addr old_size new_size [] l' b v le e = cc
grow_in-took addr old_size new_size (a ∷ rest) l' b (v, vs) le e =
    elim (Bool-cases (leb a.base addr && ltb addr a.limit)) [
      | inl here ↦ elim (Option-cases (grow_arena a addr old_size new_size)) [
        | inl e1 ↦ let no : none ≡ some (b, l') = rw (here, e1) at e in cc
        | inr (c, e1) ↦
            let found : some (c, c ∷ rest) ≡ some (b, l') = rw (here, e1) at e in
            let same : c ∷ rest ≡ l' = cc in
            let (valid, took) = grow_arena-took a c addr old_size new_size v le e1 in
            rw (← same) ((valid, vs), λ u. omega (arith, took u))
      ]
      | inr other ↦ elim (Option-cases (grow_in addr old_size new_size rest)) [
        | inl e1 ↦ let no : none ≡ some (b, l') = rw (other, e1) at e in cc
        | inr ((c, rest'), e1) ↦
            let found : some (c, a ∷ rest') ≡ some (b, l') = rw (other, e1) at e in
            let same : a ∷ rest' ≡ l' = cc in
            let (valid, took) = grow_in-took addr old_size new_size rest rest' c vs le e1 in
            rw (← same) ((v, valid), λ u. omega (arith, took u))
      ]
    ]

-- When every arena is valid and `try_grow_inplace` on the state of a node says that a block grew to a
-- size no less than its old one: every arena is valid after, and each byte that the block gained, and
-- of the arenas after, is a byte that was left in an arena before.
pub grow_locked-Grown :
    {s' : NodeArenaState} (s : NodeArenaState) (addr old_size new_size : ℕ)
    → AllArenas s.arenas
    → old_size ≤ new_size
    → grow_locked s addr old_size new_size ≡ (true, s')
    → AllArenas s'.arenas
      × ((u : ℕ)
          → within (addr + old_size) (addr + new_size) u + left_at s'.arenas u ≤ left_at s.arenas u)
unfolding grow_locked
grow_locked-Grown {s'} s addr old_size new_size v le e =
    elim (Option-cases (grow_in addr old_size new_size s.arenas)) [
      | inl e1 ↦ let no : (false, s) ≡ (true, s') = rw (grow_locked, e1) at e in cc
      | inr ((b, l), e1) ↦
          let found : (true, retire (record s { arenas = l }) b) ≡ (true, s') =
            rw (grow_locked, e1) at e in
          let same : retire (record s { arenas = l }) b ≡ s' = cc in
          let (valid, took) = grow_in-took addr old_size new_size s.arenas l b v le e1 in
          let (kept, lost) = retire-left (record s { arenas = l }) b valid in
          rw (← same) (kept, λ u. omega (arith, took u, lost u))
    ]
