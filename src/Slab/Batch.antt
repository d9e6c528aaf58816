-- ===== src/Slab/Batch.antt =====
-- What `transfer_pop_batch` takes: the first blocks of the normal list, else of the trimmed one.
use rsmalloc.Common.{
  ℕ, ◌+◌, ◌-◌, min, ◌≡◌, refl, ap, true, false, Option, none, some, List, [], ◌∷◌, ◌++◌, length,
  copies, copies-append, ltb, ◌==◌, if◌then◌else◌, Bool-cases, inl, inr, arith,
}
use rsmalloc.Slab.{TransferCache, CpuCache, ClassCache, is_null, set_mail}
use rsmalloc.Slab.Transfer.{walk, clear_if_null, pop_batch, transfer_pop_batch}
use rsmalloc.Slab.Marked.{Marked, pop_batch-Marked}

-- How often a block is in the lists of a CPU.
abbrev pub held : ℕ → CpuCache → ℕ
held x c = copies x c.list + (copies x c.mail.list + copies x c.mail.trimmed)

-- `walk` splits the list after as many blocks as are left to the batch.
pub walk-append :
    (batch_size n : ℕ) (xs : List ℕ) → (walk batch_size n xs).0 ++ (walk batch_size n xs).1 ≡ xs
unfolding walk
walk-append batch_size n [] = refl
walk-append batch_size n (x ∷ xs) = elim (Bool-cases (ltb n batch_size)) [
  | inl e ↦ rw (walk, e) (ap (λ ys. x ∷ ys) (walk-append batch_size (n + 1) xs))
  | inr e ↦ rw (walk, e) refl
]

pub length-walk :
    (batch_size n : ℕ) (xs : List ℕ)
    → length (walk batch_size n xs).0 ≡ min (length xs) (batch_size - n)
unfolding walk
length-walk batch_size n [] = ground arith
length-walk batch_size n (x ∷ xs) = ground (arith, length-walk batch_size (n + 1) xs)

-- The blocks went from the lists of one CPU to the caller.
abbrev pub Took : (ℕ → CpuCache) → (ℕ → CpuCache) → List ℕ → Type 0
Took old new blocks =
    (victim : ℕ) × ((x c : ℕ)
      → held x (old c) ≡ held x (new c) + (if victim == c then copies x blocks else 0))

clear_if_null-cpu : (s : ClassCache) (i : ℕ) (left : List ℕ) → (clear_if_null s i left).cpu ≡ s.cpu
clear_if_null-cpu s i [] = refl
clear_if_null-cpu s i (x ∷ xs) = refl

set_mail-Took :
    (s : ClassCache) (i : ℕ) (mail : TransferCache) (left blocks : List ℕ)
    → ((x : ℕ)
        → copies x (s.cpu i).mail.list + copies x (s.cpu i).mail.trimmed
          ≡ copies x mail.list + copies x mail.trimmed + copies x blocks)
    → Took s.cpu (clear_if_null (set_mail s i mail) i left).cpu blocks
set_mail-Took s i mail left blocks e = rw (clear_if_null-cpu (set_mail s i mail) i left) (
  i,
  λ x c. elim (Bool-cases (i == c)) [
    | inl same ↦ let here : i ≡ c = ground (arith, same) in rw (same, ← here) (omega (arith, e x))
    | inr other ↦ rw other (omega arith)
  ],
)

-- A pop that finds nothing changes no list and no hint of another CPU, and both transfer lists of the CPU
-- are empty.
abbrev pub Popped : ClassCache → (cpu_id : ℕ) → Option (List ℕ) × ClassCache → Type 0
Popped s i (none, after) =
    Marked after
    × (after.cpu ≡ s.cpu)
    × (is_null (s.cpu i).mail.list ≡ true)
    × (is_null (s.cpu i).mail.trimmed ≡ true)
    × ((c : ℕ) → (i == c) ≡ false → after.nonempty c ≡ s.nonempty c)
Popped s i (some blocks, after) =
    Marked after × (is_null blocks ≡ false) × Took s.cpu after.cpu blocks

pop_batch-Popped :
    (s : ClassCache) (i batch_size : ℕ) (list trimmed : List ℕ)
    → Marked s
    → (s.cpu i).mail.list ≡ list
    → (s.cpu i).mail.trimmed ≡ trimmed
    → Popped s i (pop_batch s i batch_size list trimmed)
pop_batch-Popped s i batch_size (head ∷ next) trimmed h e f =
    let (taken, left) = walk batch_size 1 next in
    (
      pop_batch-Marked s i batch_size (head ∷ next) trimmed h e,
      refl,
      set_mail-Took s i (record { list = left; trimmed = trimmed }) left (head ∷ taken)
          (λ x.
            rw (e, f)
              (omega (
                arith,
                ap (copies x) (walk-append batch_size 1 next),
                copies-append x taken left,
              ))),
    )
pop_batch-Popped s i batch_size [] (head ∷ next) h e f =
    let (taken, left) = walk batch_size 1 next in
    (
      pop_batch-Marked s i batch_size [] (head ∷ next) h e,
      refl,
      set_mail-Took s i (record { list = []; trimmed = left }) left (head ∷ taken)
          (λ x.
            rw (e, f)
              (omega (
                arith,
                ap (copies x) (walk-append batch_size 1 next),
                copies-append x taken left,
              ))),
    )
pop_batch-Popped s i batch_size [] [] h e f = (
  pop_batch-Marked s i batch_size [] [] h e,
  refl,
  ap is_null e,
  ap is_null f,
  λ c other. rw other refl,
)

-- With hints as they should be: `transfer_pop_batch` takes blocks from the lists of the CPU, or finds
-- them empty and changes no list, and the hints are as they should be after.
pub transfer_pop_batch-Popped :
    (s : ClassCache) (i batch_size : ℕ) → Marked s → Popped s i (transfer_pop_batch s i batch_size)
unfolding transfer_pop_batch
transfer_pop_batch-Popped s i batch_size h =
    pop_batch-Popped s i batch_size (s.cpu i).mail.list (s.cpu i).mail.trimmed h refl refl
