-- ===== src/Realloc/Kept.antt =====
-- `rs_realloc` of inner/realloc.rs keeps the contents of a block that is not a large one.
use rsmalloc.Common.{
  ℕ, ◌+◌, ◌-◌, ◌≤◌, ◌<◌, ◌≡◌, ◌≢◌, ◌⊎◌, refl, sym, ap, min, Bool, true, false, ◌&&◌, Option, none,
  some, ◌∷◌, ltb, leb, ◌==◌, if◌then◌else◌, if_cases, Bool-cases, inl, inr, arith,
}
use mathlib.Core.Path.{subst}
use rsmalloc.Layout.{header_size}
use rsmalloc.SizeClass.{num_size_classes, class_size, match_size_class}
use rsmalloc.SizeClass.Match.{match_size_class-Fits}
use rsmalloc.Front.{World, usable_class, original_of, usable_size}
use rsmalloc.Realloc.{
  Calls, Store, before, Reallocated, returned, abort, panic, copied, move_to, grow_inplace,
  grows_inplace, small_grow, small_realloc, observed_alignment, usable_failure, aligned_realloc,
  rs_realloc,
}
use rsmalloc.Realloc.Grown.{Grew, grow_inplace-Grew}

-- The `old` bytes are at a new place, no other byte changed, and only the old block was freed.
pub record Moved (s : Store) (ptr old new : ℕ) (after : Store) : Type 0 where
  pub inside : (k : ℕ) → k < old → after.bytes (new + k) ≡ s.bytes (ptr + k)
  pub outside : (a : ℕ) → (a < new) ⊎ (new + old ≤ a) → after.bytes a ≡ s.bytes a
  pub rest : after ≡ record s { bytes = after.bytes; freed = ptr ∷ s.freed }

-- For a block with `old` usable bytes, and the answer of the allocation for the new size: the block is
-- large enough and nothing was written; or it was too small, and it grew in place, or its bytes moved to
-- the block of the answer, or the answer is none and nothing was written.
unfoldable pub Kept :
    Calls → Store → (ptr old new_size : ℕ) → (answer : Option ℕ) → Reallocated → Type 0
Kept c s ptr old new_size answer (returned none after) =
    (old < new_size) × (answer ≡ none) × (after ≡ s)
Kept c s ptr old new_size answer (returned (some new) after) =
    ((new ≡ ptr) × (new_size ≤ old) × (after ≡ s))
    ⊎ ((old < new_size)
        × (((new ≡ ptr) × Grew c s ptr old new_size after)
            ⊎ ((answer ≡ some new) × Moved s ptr old new after)))
Kept c s ptr old new_size answer (abort e) = ⊥
Kept c s ptr old new_size answer panic = ⊥

copied-inside :
    (source target len : ℕ) (bytes : ℕ → ℕ) (k : ℕ)
    → k < len
    → copied source target len bytes (target + k) ≡ bytes (source + k)
copied-inside source target len bytes k low =
    let back : target + k - target ≡ k = omega arith in
    if_cases (λ b. b ≡ bytes (source + k))
      (leb target (target + k) && ltb (target + k) (target + len))
      (bytes (source + (target + k - target))) (bytes (target + k))
      (λ _. ap (λ (t : ℕ). bytes (source + t)) back) (λ miss. absurd (ground (arith, miss, low)))

copied-outside :
    (source target len : ℕ) (bytes : ℕ → ℕ) (a : ℕ)
    → (a < target) ⊎ (target + len ≤ a)
    → copied source target len bytes a ≡ bytes a
copied-outside source target len bytes a apart =
    if_cases (λ b. b ≡ bytes a) (leb target a && ltb a (target + len))
      (bytes (source + (a - target))) (bytes a)
      (λ hit. absurd (elim apart [
        | inl below ↦ ground (arith, hit, below)
        | inr above ↦ ground (arith, hit, above)
      ]))
      (λ _. refl)

move_to-Kept :
    (c : Calls) (s : Store) (ptr old new_size : ℕ) (answer : Option ℕ)
    → old < new_size
    → Kept c s ptr old new_size answer (move_to answer ptr (min old new_size) s)
unfolding Kept
move_to-Kept c s ptr old new_size none more = (more, refl, refl)
move_to-Kept c s ptr old new_size (some new) more =
    let all : min old new_size ≡ old = ground (arith, more) in
    inr (
      more,
      inr (
        refl,
        record {
          inside =
              λ k low. copied-inside ptr new (min old new_size) s.bytes k (omega (arith, all, low));
          outside = λ a apart. copied-outside ptr new (min old new_size) s.bytes a (rw all apart);
          rest = refl;
        },
      ),
    )

equal_classes : (a b : ℕ) → (a == b) ≡ true → a ≡ b
equal_classes a b e = ground (arith, e)

small_grow-Kept :
    (c : Calls) (s : Store) (ptr new_size : ℕ) (new_class : Option ℕ)
    → let old_class = (s.headers (ptr - header_size)).class in
      old_class < num_size_classes
      → match_size_class new_size ≡ new_class
      → class_size old_class < new_size
      → Kept c s ptr
          (class_size old_class)
          new_size
          (c.rs_alloc new_size)
          (small_grow c ptr old_class new_size new_class s)
unfolding Kept class_size
small_grow-Kept c s ptr new_size none known e more =
    move_to-Kept c s ptr (class_size (s.headers (ptr - header_size)).class) new_size
      (c.rs_alloc new_size) more
small_grow-Kept c s ptr new_size (some new_class) known e more =
    let old_class = (s.headers (ptr - header_size)).class in
    let (new_known, fits, least) = match_size_class-Fits new_size new_class e in
    let move = move_to (c.rs_alloc new_size) ptr (min (class_size old_class) new_size) s in
    let inplace = grows_inplace c s (ptr - header_size) old_class new_class in
    let stored = returned (some ptr) (grow_inplace s ptr new_class) in
    let kept = Kept c s ptr (class_size old_class) new_size (c.rs_alloc new_size) in
    if_cases kept (old_class == new_class) (returned (some ptr) s)
      (if inplace then stored else move)
      (λ hit. let one = equal_classes old_class new_class hit in inl (refl, rw one fits, refl))
      (λ _.
        if_cases kept inplace stored move
          (λ grows.
            inr (more, inl (refl, grow_inplace-Grew c s ptr new_size new_class known e grows)))
          (λ _. move_to-Kept c s ptr (class_size old_class) new_size (c.rs_alloc new_size) more))

small_realloc-Kept :
    (c : Calls) (s : Store) (ptr new_size : ℕ)
    → let old_class = (s.headers (ptr - header_size)).class in
      old_class < num_size_classes
      → Kept c s ptr
          (class_size old_class)
          new_size
          (c.rs_alloc new_size)
          (small_realloc c ptr new_size s)
unfolding Kept small_realloc
small_realloc-Kept c s ptr new_size known =
    let old_class = (s.headers (ptr - header_size)).class in
    let in_table : ltb old_class num_size_classes ≡ true = ground (arith, known) in
    rw in_table (
      if_cases (Kept c s ptr (class_size old_class) new_size (c.rs_alloc new_size))
        (leb new_size (class_size old_class)) (returned (some ptr) s)
        (small_grow c ptr old_class new_size (match_size_class new_size) s)
        (λ fits. inl (refl, ground (arith, fits), refl))
        (λ short.
          small_grow-Kept c s ptr new_size (match_size_class new_size) known refl
            (ground (arith, short))))

aligned_realloc-Kept :
    (c : Calls) (s : Store) (ptr old new_size : ℕ) (failure : Reallocated)
    → Kept c s ptr old new_size
        (c.memalign_inner (observed_alignment ptr) new_size)
        (aligned_realloc c ptr new_size failure (some old) s)
unfolding Kept
aligned_realloc-Kept c s ptr old new_size failure =
    let answer = c.memalign_inner (observed_alignment ptr) new_size in
    if_cases (Kept c s ptr old new_size answer) (leb new_size old) (returned (some ptr) s)
      (move_to answer ptr (min old new_size) s) (λ fits. inl (refl, ground (arith, fits), refl))
      (λ short. move_to-Kept c s ptr old new_size answer (ground (arith, short)))

-- A class with usable bytes exists.
usable_class-known :
    (class old : ℕ)
    → usable_class class 0 ≡ some old
    → (class < num_size_classes) × (class_size class ≡ old)
usable_class-known class old e = elim (Bool-cases (ltb class num_size_classes)) [
  | inl known ↦
      let bytes : some (class_size class - 0) ≡ some old = rw known at e in
      let amount : class_size class - 0 ≡ old = cc in (ground (arith, known), omega (arith, amount))
  | inr unknown ↦ let nothing_known : none ≡ some old = rw unknown at e in cc
]

-- The usable bytes of a pointer that is its own original, in a block of a class.
class_bytes :
    (w : World) (ptr old : ℕ)
    → w.is_owned ptr ≡ some true
    → original_of w ptr ≡ some ptr
    → (w.headers (ptr - header_size)).magic ≢ w.magics.big_magic
    → usable_size w ptr ≡ some old
    → ((w.headers (ptr - header_size)).class < num_size_classes)
      × (class_size (w.headers (ptr - header_size)).class ≡ old)
unfolding usable_size
class_bytes w ptr old own original small known =
    let not_big : ((w.headers (ptr - header_size)).magic == w.magics.big_magic) ≡ false =
      ground (arith, small) in
    let bytes : usable_class (w.headers (ptr - header_size)).class (ptr - ptr) ≡ some old =
      rw (own, original, not_big) at known in
    let none_before : ptr - ptr ≡ 0 = omega arith in
    usable_class-known (w.headers (ptr - header_size)).class old (rw none_before at bytes)

-- The allocation that a move asks: `rs_alloc`, or `memalign_inner` for a pointer inside its block.
abbrev pub answer_for : Calls → (own_block : Bool) → (ptr new_size : ℕ) → Option ℕ
answer_for c own_block ptr new_size =
    if own_block then c.rs_alloc new_size else c.memalign_inner (observed_alignment ptr) new_size

-- `rs_realloc` of an owned pointer that is not null, to a size that is not 0, where the pointer leads to
-- a block that is not a large one, and has a usable size. If the new size is within the usable size, the
-- pointer is returned and nothing is written. Else one of three holds. The block grew in place: it is
-- alone behind its own metadata at a page's start, the page allocator agreed to grow the fewest pages
-- that hold it to the fewest that hold the least class that fits the new size; the metadata ends with
-- the new payload, exactly those pages are published, the header has the new class, and no byte is
-- written. Or the pointer is that of the new allocation, by `rs_alloc`, or by `memalign_inner` with the
-- alignment of the pointer where it is inside its block: the usable bytes are copied to it, no byte
-- outside the copy changed, and exactly the old pointer was freed. Or that allocation failed, null is
-- returned, and nothing was written or freed.
pub rs_realloc-Kept :
    (w : World) (c : Calls) (big_realloc : (ptr new_size : ℕ) → Reallocated)
    (ptr searched old new_size : ℕ) (bytes : ℕ → ℕ)
    → ptr ≢ 0
    → new_size ≢ 0
    → w.is_owned ptr ≡ some true
    → original_of w ptr ≡ some searched
    → (w.headers (searched - header_size)).magic ≢ w.magics.big_magic
    → usable_size w ptr ≡ some old
    → Kept c
        (before w c bytes)
        ptr
        old
        new_size
        (answer_for c (searched == ptr) ptr new_size)
        (rs_realloc w c big_realloc ptr new_size bytes)
unfolding rs_realloc
rs_realloc-Kept w c big_realloc ptr searched old new_size bytes some_ptr some_size own original
      small known =
    let there : (ptr == 0) ≡ false = ground (arith, some_ptr) in
    let positive : (new_size == 0) ≡ false = ground (arith, some_size) in
    let not_big : ((w.headers (searched - header_size)).magic == w.magics.big_magic) ≡ false =
      ground (arith, small) in
    let s = before w c bytes in
    elim (Bool-cases (searched == ptr)) [
      | inl hit ↦
          let here : searched ≡ ptr = ground (arith, hit) in
          let (in_table, all) =
            class_bytes w ptr old own (rw here at original) (rw here at small) known in
          let kept : Kept c s ptr old new_size (c.rs_alloc new_size)
              (small_realloc c ptr new_size s) =
            subst
              (λ (n : ℕ).
                Kept c s ptr n new_size (c.rs_alloc new_size) (small_realloc c ptr new_size s))
              all (small_realloc-Kept c s ptr new_size in_table) in
          let stays = λ (p : ℕ).
            Kept c s ptr old new_size (c.rs_alloc new_size) (small_realloc c p new_size s) in
          rw (there, positive, own, original, hit, not_big) (subst stays (sym here) kept)
      | inr inside ↦
          rw (there, positive, own, original, inside, known)
            (aligned_realloc-Kept c s ptr old new_size (usable_failure w searched))
    ]
