-- ===== src/Pages/Serve.antt =====
-- `allocate_current` and `allocate_search` of page_allocator.rs: what they take from the arenas.
use rsmalloc.Common.{
  ℕ, ◌+◌, ◌≤◌, ◌≡◌, Option, none, some, List, [], ◌∷◌, ◌>>=◌, arith, Bool-cases, Option-cases, inl,
  inr,
}
use rsmalloc.Pages.{
  PageArena, NodeArenaState, arena_at, put_arena, bump, is_current, allocate_current, search_arenas,
  allocate_search, Found, behind,
}
use rsmalloc.Pages.Bump.{
  within, left_at, AllArenas, bump-took, put_arena-took, put_arena-AllArenas, arena_at-ArenaValid,
  retire-left,
}

-- A range went from the arenas to a caller; an arena that is retired may lose its rest.
pub record Handed (before : List PageArena) (ptr size : ℕ) (after : List PageArena) : Type 0 where
  pub valid : AllArenas after
  pub took : (u : ℕ) → within ptr (ptr + size) u + left_at after u ≤ left_at before u

pub allocate_current-Handed :
    (s : NodeArenaState) (size ptr : ℕ)
    → AllArenas s.arenas
    → (allocate_current s size).0 ≡ some ptr
    → Handed s.arenas ptr size (allocate_current s size).1.arenas
unfolding allocate_current
allocate_current-Handed s size ptr v e = elim (Option-cases s.current) [
  | inl e1 ↦ let no : none ≡ some ptr = rw (allocate_current, e1) at e in cc
  | inr (addr, e1) ↦ elim (Option-cases (arena_at addr s.arenas)) [
    | inl e2 ↦ let no : none ≡ some ptr = rw (allocate_current, e1, e2) at e in cc
    | inr (a, e2) ↦ elim (Option-cases (bump a size)) [
      | inl e3 ↦ let no : none ≡ some ptr = rw (allocate_current, e1, e2, e3) at e in cc
      | inr (b, e3) ↦
          let found : some a.current ≡ some ptr = rw (allocate_current, e1, e2, e3) at e in
          let same : a.current ≡ ptr = cc in
          let (valid, _, took) = bump-took a b size (arena_at-ArenaValid addr a s.arenas e2 v) e3 in
          let next : NodeArenaState = record s { arenas = put_arena addr b s.arenas } in
          let (kept, lost) = retire-left next b (put_arena-AllArenas addr b s.arenas valid v) in
          rw (allocate_current, e1, e2, e3, ← same)
            (record {
              valid = kept;
              took = λ u. omega (
                arith,
                lost u,
                put_arena-took addr a b s.arenas u (within a.current (a.current + size) u) e2
                    (took u),
              );
            })
    ]
  ]
]

search_arenas-took :
    (current : Option ℕ) (size : ℕ) (l l' : List PageArena) (old b : PageArena)
    → AllArenas l
    → search_arenas current size l ≡ some (old, b, l')
    → AllArenas l'
      × ((u : ℕ) → within old.current (old.current + size) u + left_at l' u ≡ left_at l u)
unfolding search_arenas AllArenas left_at
search_arenas-took current size [] l' old b v e = cc
search_arenas-took current size (a ∷ rest) l' old b (v, vs) e =
    let rest_took =
      λ (r : List PageArena) (o c : PageArena). search_arenas-took current size rest r o c vs in
    elim (Bool-cases (is_current current a.addr)) [
      | inl skip ↦ go rest_took (rw skip at e)
      | inr other ↦ elim (Option-cases (bump a size)) [
        | inl full ↦ go rest_took (rw (other, full) at e)
        | inr (c, fit) ↦
            let found : some (a, c, c ∷ rest) ≡ some (old, b, l') = rw (other, fit) at e in
            let same_old : a ≡ old = cc in
            let same_list : c ∷ rest ≡ l' = cc in
            let (valid, _, took) = bump-took a c size v fit in
            rw (← same_old, ← same_list) ((valid, vs), λ u. omega (arith, took u))
      ]
    ]
  where
    later : Option Found
    later = search_arenas current size rest

    go :
        ((r : List PageArena) (o c : PageArena)
          → later ≡ some (o, c, r)
          → AllArenas r
            × ((u : ℕ) → within o.current (o.current + size) u + left_at r u ≡ left_at rest u))
        → (later >>= behind a) ≡ some (old, b, l')
        → AllArenas l'
          × ((u : ℕ)
              → within old.current (old.current + size) u + left_at l' u
                ≡ within a.current a.limit u + left_at rest u)
    go rest_took e' = elim (Option-cases later) [
      | inl miss ↦ let no : none ≡ some (old, b, l') = rw miss at e' in cc
      | inr ((o, c, rest'), hit) ↦
          let found : behind a (o, c, rest') ≡ some (old, b, l') = rw hit at e' in
          let same_old : o ≡ old = cc in
          let same_list : a ∷ rest' ≡ l' = cc in
          let (valid, took) = rest_took rest' o c hit in
          rw (← same_old, ← same_list) ((v, valid), λ u. omega (arith, took u))
    ]

pub allocate_search-Handed :
    (s : NodeArenaState) (size ptr : ℕ)
    → AllArenas s.arenas
    → (allocate_search s size).0 ≡ some ptr
    → Handed s.arenas ptr size (allocate_search s size).1.arenas
unfolding allocate_search
allocate_search-Handed s size ptr v e =
    elim (Option-cases (search_arenas s.current size s.arenas)) [
      | inl e1 ↦ let no : none ≡ some ptr = rw (allocate_search, e1) at e in cc
      | inr ((old, b, l), e1) ↦
          let found : some old.current ≡ some ptr = rw (allocate_search, e1) at e in
          let same : old.current ≡ ptr = cc in
          let (valid, took) = search_arenas-took s.current size s.arenas l old b v e1 in
          let (kept, lost) = retire-left (record s { arenas = l }) b valid in
          rw (allocate_search, e1, ← same)
            (record { valid = kept; took = λ u. omega (arith, lost u, took u) })
    ]
