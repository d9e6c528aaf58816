-- ===== src/Slab/Hidden.antt =====
-- `clear_hint` looks at the normal list alone: trimmed blocks of a CPU whose normal list runs empty are
-- not found by `try_pop` any more.
use rsmalloc.Common.{
  ℕ, ◌-◌, ◌≤◌, ◌≡◌, refl, ap, true, false, none, List, [], ◌∷◌, ◌++◌, length, ◌==◌, arith,
}
use rsmalloc.Slab.{ClassCache, is_null}
use rsmalloc.Slab.Transfer.{walk, transfer_pop_batch}
use rsmalloc.Slab.Steal.{pop_own}
use rsmalloc.Slab.Batch.{walk-append, length-walk}

all_taken : (xs ys whole : List ℕ) → xs ++ ys ≡ whole → length xs ≡ length whole → is_null ys ≡ true
all_taken [] [] whole e h = refl
all_taken [] (y ∷ ys) whole e h = absurd (omega (arith, ap length e, h))
all_taken (x ∷ xs) ys [] e h = absurd (omega (arith, h))
all_taken (x ∷ xs) ys (w ∷ whole) e h = all_taken xs ys whole (cc) (omega (arith, h))

-- When a CPU has blocks on both transfer lists, and the normal ones fit into the batch: after
-- `transfer_pop_batch` the trimmed ones are still there, the CPU is not marked, and a second pop by the
-- same CPU finds nothing of its own.
pub transfer_pop_batch-hides :
    (s : ClassCache) (i batch_size head : ℕ) (next trimmed : List ℕ)
    → (s.cpu i).mail ≡ record { list = head ∷ next; trimmed = trimmed }
    → length next ≤ batch_size - 1
    → let after = (transfer_pop_batch s i batch_size).1 in
      ((after.cpu i).mail.trimmed ≡ trimmed)
      × (after.nonempty i ≡ false)
      × (pop_own i batch_size after ≡ (none, after))
unfolding transfer_pop_batch
transfer_pop_batch-hides s i batch_size head next trimmed e h =
    let self : (i == i) ≡ true = ground arith in
    let split = walk batch_size 1 next in
    let dry : is_null split.1 ≡ true =
      all_taken split.0 split.1 next (walk-append batch_size 1 next)
        (omega (arith, length-walk batch_size 1 next)) in
    rw (transfer_pop_batch, e, dry, self, dry) (refl, refl, refl)
