-- ===== src/Slab.antt =====
-- rseq_core/slab_cache.rs: the blocks of one size class that wait for reuse. Each CPU has a list behind
-- restartable sequences and two transfer lists; a bitmap says which CPUs have transfer blocks. A linked
-- list is the list of its nodes. Operations run one after another, so a `compare_exchange` succeeds; the
-- CPU and the result of each restartable sequence are arguments.
pub mod Tag
pub mod Transfer
pub mod Steal
pub mod Local
pub mod Marked
pub mod Batch
pub mod Dry
pub mod Searched
pub mod Taken
pub mod Short
pub mod Sent
pub mod Kept
pub mod Hidden
pub mod Popped
mod Tests
use rsmalloc.Common.{
  ℕ, ◌+◌, Bool, true, false, not, Option, none, some, List, [], ◌∷◌, ◌++◌, update,
}

-- `TransferCache`
pub record TransferCache : Type 0 where
  pub list : List ℕ
  pub trimmed : List ℕ

-- `RseqCache` and `TransferCache` of a CPU.
pub record CpuCache : Type 0 where
  pub list : List ℕ
  pub usage : ℕ
  pub mail : TransferCache

-- The caches of a class, with its rows of the two bitmaps.
pub record ClassCache : Type 0 where
  pub cpu : ℕ → CpuCache
  pub nonempty : ℕ → Bool
  pub being_stolen : ℕ → Bool

abbrev pub is_null : List ℕ → Bool
is_null [] = true
is_null (x ∷ xs) = false

-- `mark_class_nonempty` and `clear_class_hint`
abbrev pub set_hint : ClassCache → (cpu_id : ℕ) → Bool → ClassCache
set_hint s cpu_id b = record s { nonempty = update s.nonempty cpu_id b }

abbrev pub set_mail : ClassCache → (cpu_id : ℕ) → TransferCache → ClassCache
set_mail s cpu_id mail = record s {
  cpu = update s.cpu cpu_id (record (s.cpu cpu_id) { mail = mail });
}

-- `clear_hint`
abbrev pub clear_hint : ClassCache → (cpu_id : ℕ) → ClassCache
clear_hint s cpu_id = set_hint s cpu_id (not (is_null (s.cpu cpu_id).mail.list))
