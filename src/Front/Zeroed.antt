-- ===== src/Front/Zeroed.antt =====
-- `rs_calloc` of inner/calloc.rs: the bytes of the block are 0.
use rsmalloc.Common.{
  ℕ, ◌+◌, ◌*◌, ◌^◌, ◌≤◌, ◌<◌, ◌≡◌, ◌⊎◌, refl, min, max, true, false, ◌||◌, Option, none, some, ltb,
  ◌==◌, if_cases, inl, inr, arith,
}
use rsmalloc.Word.{checked_mul}
use rsmalloc.SizeClass.{class_size, match_size_class}
use rsmalloc.SizeClass.Match.{match_size_class-Fits}
use rsmalloc.Bulk.{zero_flag}
use rsmalloc.Large.{allocated_flag, trimmed_flag}
use rsmalloc.Front.{
  Given, Callocated, null, callocated, zeroed, calloc_zero, actual_size_of, finish_calloc,
  calloc_total, rs_calloc,
}

-- What `rs_calloc` relies on in a block: it is as large as asked for if it is over the classes, and its
-- flag says that it is new, with bytes that are 0, or that it was in use.
pub record Fresh (bytes : ℕ → ℕ) (effective_size : ℕ) (g : Given) : Type 0 where
  pub large : match_size_class effective_size ≡ none → g.big_size ≡ some effective_size
  pub flagged :
      ((g.flags ≡ zero_flag) × ((a : ℕ) → g.ptr ≤ a → a < g.ptr + effective_size → bytes a ≡ 0))
      ⊎ ((g.flags ≡ allocated_flag) ⊎ (g.flags ≡ trimmed_flag))

-- The bytes of the block are 0, and no byte outside changed.
pub record Zeroed (bytes : ℕ → ℕ) (effective_size ptr : ℕ) (r : Callocated) : Type 0 where
  pub after : ℕ → ℕ
  pub result : r ≡ callocated ptr after
  pub inside : (a : ℕ) → ptr ≤ a → a < ptr + effective_size → after a ≡ 0
  pub outside : (a : ℕ) → (a < ptr) ⊎ (ptr + effective_size ≤ a) → after a ≡ bytes a

zeroed-inside :
    (actual effective ptr : ℕ) (bytes : ℕ → ℕ) (a : ℕ)
    → effective ≤ actual
    → ptr ≤ a
    → a < ptr + effective
    → zeroed ptr (min actual effective) bytes a ≡ 0
zeroed-inside actual effective ptr bytes a enough from to = ground arith

zeroed-outside :
    (actual effective ptr : ℕ) (bytes : ℕ → ℕ) (a : ℕ)
    → effective ≤ actual
    → (a < ptr) ⊎ (ptr + effective ≤ a)
    → zeroed ptr (min actual effective) bytes a ≡ bytes a
zeroed-outside actual effective ptr bytes a enough (inl below) = ground arith
zeroed-outside actual effective ptr bytes a enough (inr above) = ground arith

finish_calloc-Zeroed :
    (bytes : ℕ → ℕ) (effective_size actual_size : ℕ) (g : Given)
    → effective_size ≤ actual_size
    → Fresh bytes effective_size g
    → Zeroed bytes effective_size g.ptr (finish_calloc g effective_size (some actual_size) bytes)
finish_calloc-Zeroed bytes effective_size actual_size g enough f =
    let wiped = zeroed g.ptr (min actual_size effective_size) bytes in
    let in_use = (g.flags == allocated_flag) || (g.flags == trimmed_flag) in
    record {
      after = calloc_zero g actual_size effective_size bytes;
      result = refl;
      inside = λ a from to.
          let zero_wiped = zeroed-inside actual_size effective_size g.ptr bytes a enough from to in
          if_cases (λ (t : ℕ → ℕ). t a ≡ 0) in_use wiped bytes (λ _. zero_wiped)
            (λ not_used. elim f.flagged [
              | inl (new, zero_there) ↦ zero_there a from to
              | inr used ↦ absurd (elim used [
                | inl e ↦ ground (arith, e, not_used)
                | inr e ↦ ground (arith, e, not_used)
              ])
            ]);
      outside = λ a apart.
          if_cases (λ (t : ℕ → ℕ). t a ≡ bytes a) in_use wiped bytes
            (λ _. zeroed-outside actual_size effective_size g.ptr bytes a enough apart) (λ _. refl);
    }

calloc_given-Zeroed :
    (bytes : ℕ → ℕ) (effective_size : ℕ) (g : Given) (class : Option ℕ)
    → match_size_class effective_size ≡ class
    → Fresh bytes effective_size g
    → Zeroed bytes effective_size g.ptr
        (finish_calloc g effective_size (actual_size_of class g) bytes)
unfolding class_size
calloc_given-Zeroed bytes effective_size g (some class) e f =
    let (known, fits, least) = match_size_class-Fits effective_size class e in
    finish_calloc-Zeroed bytes effective_size (class_size class) g fits f
calloc_given-Zeroed bytes effective_size g none e f =
    rw (f.large e) (finish_calloc-Zeroed bytes effective_size effective_size g (omega arith) f)

-- Where the first argument of `rs_calloc`, the size of an element, is below 2 ^ 63, its product with the second,
-- the count, is below 2 ^ 64, and `rs_alloc` gives a block for the product, or for one byte if that is 0; if no
-- size class fits these bytes, then `BIG_META_MAP` has exactly their number as the size of the block; and the
-- flag of the block is that of a new one and these bytes are 0 in it, or the flag is one of a block that was
-- in use or trimmed. Then `rs_calloc` gives the block, these bytes are 0, and it writes no other byte.
pub rs_calloc-Zeroed :
    (rs_alloc : ℕ → Option Given) (size zero_size : ℕ) (bytes : ℕ → ℕ) (g : Given)
    → size < 2 ^ 63
    → zero_size * size < 2 ^ 64
    → rs_alloc (max (zero_size * size) 1) ≡ some g
    → Fresh bytes (max (zero_size * size) 1) g
    → Zeroed bytes (max (zero_size * size) 1) g.ptr (rs_calloc rs_alloc size zero_size bytes)
unfolding rs_calloc checked_mul
rs_calloc-Zeroed rs_alloc size zero_size bytes g small product given f =
    let effective_size = max (zero_size * size) 1 in
    let ok : ltb size (2 ^ 63) ≡ true = ground arith in
    let fits : ltb (zero_size * size) (2 ^ 64) ≡ true = ground (arith, product) in
    rw (ok, fits, given)
      (calloc_given-Zeroed bytes effective_size g (match_size_class effective_size) refl f)

-- A product of 2 ^ 64 or more gives a null pointer, whatever `rs_alloc` would do.
pub rs_calloc-overflow :
    (rs_alloc : ℕ → Option Given) (size zero_size : ℕ) (bytes : ℕ → ℕ)
    → 2 ^ 64 ≤ zero_size * size
    → rs_calloc rs_alloc size zero_size bytes ≡ null
unfolding rs_calloc checked_mul
rs_calloc-overflow rs_alloc size zero_size bytes over =
    let wraps : ltb (zero_size * size) (2 ^ 64) ≡ false = ground (arith, over) in
    if_cases (λ r. r ≡ null) (ltb size (2 ^ 63))
      (calloc_total rs_alloc (checked_mul zero_size size) bytes) null (λ _. rw wraps refl)
      (λ _. refl)
