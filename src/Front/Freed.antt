-- ===== src/Front/Freed.antt =====
-- `rs_free` and `usable_size`: a second `rs_free` of a block, and pointers of inner/align.rs.
use rsmalloc.Common.{
  ℕ, ◌-◌, ◌≡◌, refl, sym, Bool, true, false, Option, none, some, update, ◌==◌, if◌then◌else◌,
  if_cases, Bool-cases, inl, inr, arith,
}
use mathlib.Core.Path.{subst}
use rsmalloc.Layout.{header_size}
use rsmalloc.Bulk.{Header}
use rsmalloc.Front.Drawn.{Distinct}
use rsmalloc.Front.{
  World, double_free, attack_or_corruption, foreign_pointer, Outcome, nothing, push, big_free,
  abort, original_of, free_block, free_searched, free_checked, rs_free,
}

-- A block that is pushed is marked as freed.
abbrev MarksFreed : World → (searched : ℕ) → Outcome → Type 0
MarksFreed w searched nothing = Unit
MarksFreed w searched (push class header headers) =
    (headers (searched - header_size)).magic ≡ w.magics.freed_magic
MarksFreed w searched (big_free ptr) = Unit
MarksFreed w searched (abort e) = Unit

free_block-MarksFreed : (w : World) (searched : ℕ) → MarksFreed w searched (free_block w searched)
free_block-MarksFreed w searched =
    let header = searched - header_size in
    let h = w.headers header in
    let freed = record h { life_time = w.current_stamp; magic = w.magics.freed_magic } in
    let denied : Outcome =
      if h.magic == w.magics.freed_magic then abort double_free else abort attack_or_corruption in
    let other : Outcome = if h.magic == w.magics.big_magic then big_free searched else denied in
    if_cases (MarksFreed w searched) (h.magic == w.magics.magic)
      (push h.class header (update w.headers header freed)) other
      (λ _.
        if_cases (λ (x : Header). x.magic ≡ w.magics.freed_magic) (header == header) freed h
          (λ _. refl) (λ miss. absurd (ground (arith, miss))))
      (λ _.
        if_cases (MarksFreed w searched) (h.magic == w.magics.big_magic) (big_free searched) denied
          (λ _. tt)
          (λ _.
            if_cases (MarksFreed w searched) (h.magic == w.magics.freed_magic) (abort double_free)
              (abort attack_or_corruption) (λ _. tt) (λ _. tt)))

again_block :
    (w : World) (searched class header : ℕ) (headers : ℕ → Header)
    → Distinct w.magics
    → free_block w searched ≡ push class header headers
    → free_block (record w { headers = headers }) searched ≡ abort double_free
again_block w searched class header headers (d0, d1, d2) e =
    let marked : (headers (searched - header_size)).magic ≡ w.magics.freed_magic =
      subst (MarksFreed w searched) e (free_block-MarksFreed w searched) in
    let n0 : (w.magics.freed_magic == w.magics.magic) ≡ false = ground (arith, d0) in
    let n1 : (w.magics.freed_magic == w.magics.big_magic) ≡ false = ground (arith, d1) in
    let n2 : (w.magics.freed_magic == w.magics.freed_magic) ≡ true = ground arith in
    rw (marked, n0, n1, n2) refl

-- The outcomes other than a push, told apart from it.
abbrev IsPush : Outcome → Type 0
IsPush nothing = ⊥
IsPush (push class header headers) = Unit
IsPush (big_free ptr) = ⊥
IsPush (abort e) = ⊥

again_searched :
    (w : World) (ptr : ℕ) (s : Option ℕ) (class header : ℕ) (headers : ℕ → Header)
    → Distinct w.magics
    → free_searched w ptr s ≡ push class header headers
    → free_searched (record w { headers = headers }) ptr s ≡ abort double_free
again_searched w ptr none class header headers d e = absurd (subst IsPush (sym e) tt)
again_searched w ptr (some searched) class header headers d e =
    again_block w searched class header headers d e

again_checked :
    (w : World) (ptr : ℕ) (o : Option Bool) (class header : ℕ) (headers : ℕ → Header)
    → Distinct w.magics
    → free_checked w ptr o ≡ push class header headers
    → free_checked (record w { headers = headers }) ptr o ≡ abort double_free
again_checked w ptr none class header headers d e = absurd (subst IsPush (sym e) tt)
again_checked w ptr (some false) class header headers d e = absurd (
    if_cases (λ o. o ≡ push class header headers → ⊥) w.foreign_pointer_abort
      (abort foreign_pointer) nothing (λ _ f. subst IsPush (sym f) tt)
      (λ _ f. subst IsPush (sym f) tt) e)
again_checked w ptr (some true) class header headers d e =
    again_searched w ptr (original_of w ptr) class header headers d e

-- With three different magic values: where `rs_free` of a pointer pushes a block to the caches, a second
-- `rs_free` of the pointer, with the headers as the first one left them, aborts as a double free.
pub rs_free-double_free :
    (w : World) (ptr class header : ℕ) (headers : ℕ → Header)
    → Distinct w.magics
    → rs_free w ptr ≡ push class header headers
    → rs_free (record w { headers = headers }) ptr ≡ abort double_free
unfolding rs_free
rs_free-double_free w ptr class header headers d e = elim (Bool-cases (ptr == 0)) [
  | inl null ↦ absurd (subst IsPush (sym (rw null at e)) tt)
  | inr there ↦
      rw there (again_checked w ptr (w.is_owned ptr) class header headers d (rw there at e))
]
