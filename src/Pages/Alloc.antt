-- ===== src/Pages/Alloc.antt =====
-- `alloc` of page_allocator.rs on the state of one node: no byte is handed out twice.
use rsmalloc.Common.{
  ℕ, ◌+◌, ◌%◌, ◌^◌, ◌≤◌, ◌<◌, ◌≡◌, ap, max, true, false, Option, none, some, List, ◌∷◌, ltb, ◌==◌,
  arith, Bool-cases, Option-cases, inl, inr,
}
use rsmalloc.Word.{checked_add}
use rsmalloc.Layout.{page_size}
use rsmalloc.SizeClass.{align_to}
use rsmalloc.SizeClass.Align.{align_to_bounds}
use rsmalloc.Pages.{
  PageArena, NodeArenaState, arena_at, bump, allocate_current, allocate_search, new_arena_locked,
  alloc_locked, header_bytes, data_bytes,
}
use rsmalloc.Pages.Serve.{allocate_current-Handed, allocate_search-Handed}
use rsmalloc.Pages.Bump.{within, left_at, AllArenas}

-- A state with a new arena at the head, from which nothing was handed out.
abbrev with_arena : (mem limit : ℕ) → List PageArena → NodeArenaState
with_arena mem limit rest = record {
  current = some mem;
  arenas =
      record { addr = mem; base = mem + header_bytes; limit = limit; current = mem + header_bytes }
      ∷ rest;
}

-- What `new_arena_locked` made.
record Opened (arena_size : ℕ) (answer : Option ℕ) (s : NodeArenaState) (requested : ℕ)
    (s' : NodeArenaState) : Type 0 where
  mem : ℕ
  answered : answer ≡ some mem
  fits : mem + header_bytes + data_bytes arena_size requested < 2 ^ 64
  made : s' ≡ with_arena mem (mem + header_bytes + data_bytes arena_size requested) s.arenas

new_arena_locked-Opened :
    (arena_size : ℕ) (answer : Option ℕ) (s s' : NodeArenaState) (requested : ℕ)
    → new_arena_locked arena_size answer s requested ≡ some s'
    → Opened arena_size answer s requested s'
unfolding new_arena_locked checked_add
new_arena_locked-Opened arena_size answer s s' requested e =
    elim (Bool-cases (ltb (header_bytes + bytes) (2 ^ 64))) [
      | inr e1 ↦ let no : none ≡ some s' = rw (new_arena_locked, e1) at e in cc
      | inl e1 ↦ elim (Option-cases answer) [
        | inl e2 ↦ let no : none ≡ some s' = rw (new_arena_locked, e1, e2) at e in cc
        | inr (mem, e2) ↦ elim (Bool-cases (ltb (mem + header_bytes + bytes) (2 ^ 64))) [
          | inr e3 ↦ let no : none ≡ some s' = rw (new_arena_locked, e1, e2, e3) at e in cc
          | inl e3 ↦
              let found : some (with_arena mem (mem + header_bytes + bytes) s.arenas) ≡ some s' =
                rw (new_arena_locked, e1, e2, e3) at e in
              record { mem = mem; answered = e2; fits = ground arith; made = cc }
        ]
      ]
    ]
  where
    bytes : ℕ
    bytes = data_bytes arena_size requested

-- The bytes that a new arena brings.
pub fresh_at : (arena_size : ℕ) → Option ℕ → (requested u : ℕ) → ℕ
fresh_at arena_size none requested u = 0
fresh_at arena_size (some mem) requested u =
    within (mem + header_bytes) (mem + header_bytes + data_bytes arena_size requested) u

Opened-left :
    (arena_size : ℕ) (answer : Option ℕ) (s s' : NodeArenaState) (requested : ℕ)
    → AllArenas s.arenas
    → Opened arena_size answer s requested s'
    → AllArenas s'.arenas
      × ((u : ℕ)
          → left_at s'.arenas u ≡ left_at s.arenas u + fresh_at arena_size answer requested u)
unfolding AllArenas left_at fresh_at
Opened-left arena_size answer s s' requested v o =
    rw (o.made, o.answered) ((omega (arith, o.fits), v), λ u. omega arith)

abbrev pub pages : ℕ → ℕ
pages requested = align_to (max requested 1) page_size

-- When every arena is valid and `alloc` on the state of a node returns a pointer: every arena is valid
-- after, and each byte of the pages handed out, which were not handed out before, and of the arenas
-- after is a byte that was left in an arena before or that the mapping made by this call brought.
pub alloc_locked-Handed :
    {ptr : ℕ} {s' : NodeArenaState} (arena_size : ℕ) (answer : Option ℕ) (s : NodeArenaState)
    (requested : ℕ)
    → AllArenas s.arenas
    → alloc_locked arena_size answer s requested ≡ (some ptr, s')
    → AllArenas s'.arenas
      × ((u : ℕ)
          → within ptr (ptr + pages requested) u + left_at s'.arenas u
            ≤ left_at s.arenas u + fresh_at arena_size answer (pages requested) u)
unfolding alloc_locked
alloc_locked-Handed {ptr} {s'} arena_size answer s requested v e =
    elim (Option-cases (allocate_current s size).0) [
      | inr (p, e1) ↦
          let found : (some p, (allocate_current s size).1) ≡ (some ptr, s') =
            rw (alloc_locked, e1) at e in
          let same : p ≡ ptr = cc in
          let same_s : (allocate_current s size).1 ≡ s' = cc in
          let handed = allocate_current-Handed s size p v e1 in
          rw (← same, ← same_s) (handed.valid, λ u. omega (arith, handed.took u))
      | inl e1 ↦ elim (Option-cases (allocate_search s size).0) [
        | inr (p, e2) ↦
            let found : (some p, (allocate_search s size).1) ≡ (some ptr, s') =
              rw (alloc_locked, e1, e2) at e in
            let same : p ≡ ptr = cc in
            let same_s : (allocate_search s size).1 ≡ s' = cc in
            let handed = allocate_search-Handed s size p v e2 in
            rw (← same, ← same_s) (handed.valid, λ u. omega (arith, handed.took u))
        | inl e2 ↦ elim (Option-cases (new_arena_locked arena_size answer s size)) [
          | inl e3 ↦ let no : (none, s) ≡ (some ptr, s') = rw (alloc_locked, e1, e2, e3) at e in cc
          | inr (s3, e3) ↦
              let found : allocate_current s3 size ≡ (some ptr, s') =
                rw (alloc_locked, e1, e2, e3) at e in
              let opened = new_arena_locked-Opened arena_size answer s s3 size e3 in
              let (valid, more) = Opened-left arena_size answer s s3 size v opened in
              let handed = allocate_current-Handed s3 size ptr valid (ap (λ t. t.0) found) in
              let same_s : (allocate_current s3 size).1 ≡ s' = ap (λ t. t.1) found in
              rw (← same_s) (handed.valid, λ u. omega (arith, handed.took u, more u))
        ]
      ]
    ]
  where
    size : ℕ
    size = pages requested

fresh_serves :
    (mem size limit : ℕ) (rest : List PageArena)
    → mem + header_bytes + size ≤ limit
    → limit < 2 ^ 64
    → (allocate_current (with_arena mem limit rest) size).0 ≡ some (mem + header_bytes)
unfolding allocate_current arena_at bump checked_add
fresh_serves mem size limit rest fits low =
    let found : (mem == mem) ≡ true = ground arith in
    let small : ltb (mem + header_bytes + size) (2 ^ 64) ≡ true = ground arith in
    let room : ltb limit (mem + header_bytes + size) ≡ false = ground arith in
    rw (allocate_current, found, small, room)

-- For a request of at most 2 ^ 62 bytes and an arena size of at most 2 ^ 62, where `mmap` gives memory at an
-- address of at most 2 ^ 63: `alloc` on the state of a node returns a pointer.
pub alloc_locked-Total :
    (arena_size mem : ℕ) (s : NodeArenaState) (requested : ℕ)
    → requested ≤ 2 ^ 62
    → arena_size ≤ 2 ^ 62
    → mem ≤ 2 ^ 63
    → (ptr : ℕ) × ((alloc_locked arena_size (some mem) s requested).0 ≡ some ptr)
unfolding alloc_locked new_arena_locked checked_add data_bytes
alloc_locked-Total arena_size mem s requested hr ha hm =
    elim (Option-cases (allocate_current s size).0) [
      | inr (p, e1) ↦ (p, rw (alloc_locked, e1))
      | inl e1 ↦ elim (Option-cases (allocate_search s size).0) [
        | inr (p, e2) ↦ (p, rw (alloc_locked, e1, e2))
        | inl e2 ↦ (
          mem + header_bytes,
          rw (alloc_locked, e1, e2, new_arena_locked, fits1, fits2)
              (fresh_serves mem size (mem + header_bytes + bytes) s.arenas
                (omega (arith, bytes_bounds)) (omega (arith, bytes_bounds))),
        )
      ]
    ]
  where
    size : ℕ
    size = pages requested

    bytes : ℕ
    bytes = data_bytes arena_size size

    size_bounds : (size ≤ 2 ^ 62 + 4096) × (size % 4096 ≡ 0)
    size_bounds =
        let (_, above, whole) = align_to_bounds 12 (max requested 1) (omega arith) (omega arith) in
        (omega (arith, above), whole)

    bytes_bounds : (size ≤ bytes) × (bytes ≤ 2 ^ 62 + 8192)
    bytes_bounds =
        let (below, above, _) =
          align_to_bounds 12 (max size arena_size) (omega arith) (omega (arith, size_bounds)) in
        (omega (arith, below), omega (arith, above, size_bounds))

    fits1 : ltb (header_bytes + bytes) (2 ^ 64) ≡ true
    fits1 = ground (arith, bytes_bounds)

    fits2 : ltb (mem + header_bytes + bytes) (2 ^ 64) ≡ true
    fits2 = ground (arith, bytes_bounds)
