-- ===== src/Slab/Short.antt =====
-- A batch of `try_pop` of rseq_core/slab_cache.rs has at most as many blocks as were asked for.
use rsmalloc.Common.{
  ℕ, zero, suc, ◌+◌, ◌-◌, ◌%◌, ◌/◌, ◌≤◌, max, Bool, true, false, ◌||◌, ◌&&◌, not, Option, none,
  some, List, [], ◌∷◌, length, ◌==◌, if_cases, arith,
}
use rsmalloc.Slab.{ClassCache}
use rsmalloc.Slab.Transfer.{pop_batch, transfer_pop_batch}
use rsmalloc.Slab.Batch.{length-walk}
use rsmalloc.Slab.Steal.{
  Topology, set_being_stolen, victims, steal_from, or_else, steal_round, steal_word, steal_words,
  first_nonempty_cpu_in_range, steal_nodes, slowest_numa_steal_path, pop_slow, pop_own, try_pop,
}

-- None, or at most `batch_size` blocks, and one where that is 0.
abbrev pub Short : (batch_size : ℕ) → Option (List ℕ) × ClassCache → Type 0
Short batch_size (none, s) = Unit
Short batch_size (some blocks, s) = length blocks ≤ max 1 batch_size

pop_batch-Short :
    (s : ClassCache) (i batch_size : ℕ) (list trimmed : List ℕ)
    → Short batch_size (pop_batch s i batch_size list trimmed)
pop_batch-Short s i batch_size (head ∷ next) trimmed = omega (arith, length-walk batch_size 1 next)
pop_batch-Short s i batch_size [] (head ∷ next) = omega (arith, length-walk batch_size 1 next)
pop_batch-Short s i batch_size [] [] = tt

transfer_pop_batch-Short :
    (s : ClassCache) (i batch_size : ℕ) → Short batch_size (transfer_pop_batch s i batch_size)
unfolding transfer_pop_batch
transfer_pop_batch-Short s i batch_size =
    pop_batch-Short s i batch_size (s.cpu i).mail.list (s.cpu i).mail.trimmed

or_else-Short :
    (batch_size : ℕ) (r : Option (List ℕ) × ClassCache)
    (next : ClassCache → Option (List ℕ) × ClassCache)
    → Short batch_size r
    → ((s : ClassCache) → Short batch_size (next s))
    → Short batch_size (or_else r next)
or_else-Short batch_size (some blocks, s) next h k = h
or_else-Short batch_size (none, s) next h k = k s

-- One victim, then the others.
steal_step-Short :
    (batch_size victim : ℕ) (popped : Option (List ℕ) × ClassCache)
    (next : ClassCache → Option (List ℕ) × ClassCache)
    → Short batch_size popped
    → ((s : ClassCache) → Short batch_size (next s))
    → let cleared = set_being_stolen popped.1 victim false in
      Short batch_size
        (elim popped.0 [ some blocks ↦ (some blocks, cleared) | none ↦ next cleared ])
steal_step-Short batch_size victim (some blocks, s) next h k = h
steal_step-Short batch_size victim (none, s) next h k = k (set_being_stolen s victim false)

steal_from-Short :
    (force_steal : Bool) (cpu_id batch_size : ℕ) (vs : List ℕ) (s : ClassCache)
    → Short batch_size (steal_from force_steal cpu_id batch_size s vs)
unfolding steal_from
steal_from-Short force_steal cpu_id batch_size [] s = tt
steal_from-Short force_steal cpu_id batch_size (victim ∷ rest) s =
    let later = steal_from-Short force_steal cpu_id batch_size rest in
    let popped = transfer_pop_batch (set_being_stolen s victim true) victim batch_size in
    let next = λ (t : ClassCache). steal_from force_steal cpu_id batch_size t rest in
    let cleared = set_being_stolen popped.1 victim false in
    let found : Option (List ℕ) × ClassCache = elim popped.0 [
      | some blocks ↦ (some blocks, cleared)
      | none ↦ next cleared
    ] in
    elim ((victim == cpu_id) || (s.being_stolen victim && not force_steal))
      as (λ (b : Bool). Short batch_size (elim b [ true ↦ next s | false ↦ found ])) [
        | true ↦ later s
        | false ↦
            steal_step-Short batch_size victim popped next
              (transfer_pop_batch-Short (set_being_stolen s victim true) victim batch_size) later
      ]

steal_words-Short :
    (count word_idx cpu_id batch_size start end : ℕ) (s : ClassCache)
    → Short batch_size (steal_words count word_idx cpu_id batch_size start end s)
unfolding steal_words steal_word
steal_words-Short zero word_idx cpu_id batch_size start end s = tt
steal_words-Short (suc count) word_idx cpu_id batch_size start end s =
    or_else-Short batch_size (steal_word cpu_id batch_size start end word_idx s)
      (steal_words count (word_idx + 1) cpu_id batch_size start end)
      (or_else-Short batch_size (steal_round false cpu_id batch_size start end word_idx s)
        (steal_round true cpu_id batch_size start end word_idx)
        (steal_from-Short false cpu_id batch_size (victims s word_idx start end) s)
        (λ t. steal_from-Short true cpu_id batch_size (victims t word_idx start end) t))
      (steal_words-Short count (word_idx + 1) cpu_id batch_size start end)

in_range-Short :
    (cpu_id batch_size start end : ℕ) (s : ClassCache)
    → Short batch_size (first_nonempty_cpu_in_range cpu_id batch_size start end s)
unfolding first_nonempty_cpu_in_range
in_range-Short cpu_id batch_size start end s =
    steal_words-Short (end / 64 + 1 - start / 64) (start / 64) cpu_id batch_size start end s

steal_nodes-Short :
    (numa : Topology) (count i node_id cpu_id batch_size : ℕ) (s : ClassCache)
    → Short batch_size (steal_nodes numa count i node_id cpu_id batch_size s)
unfolding steal_nodes
steal_nodes-Short numa zero i node_id cpu_id batch_size s = tt
steal_nodes-Short numa (suc count) i node_id cpu_id batch_size s =
    let node = (i + node_id) % numa.nranges in
    or_else-Short batch_size
      (first_nonempty_cpu_in_range cpu_id batch_size (numa.start_cpu node) (numa.end_cpu node) s)
      (steal_nodes numa count (i + 1) node_id cpu_id batch_size)
      (in_range-Short cpu_id batch_size (numa.start_cpu node) (numa.end_cpu node) s)
      (steal_nodes-Short numa count (i + 1) node_id cpu_id batch_size)

pop_slow-Short :
    (numa : Topology) (cpu_id batch_size : ℕ) (s : ClassCache)
    → Short batch_size (pop_slow numa cpu_id batch_size s)
unfolding pop_slow
pop_slow-Short numa cpu_id batch_size s =
    let node = numa.cpu_to_node cpu_id in
    let own =
      first_nonempty_cpu_in_range cpu_id batch_size (numa.start_cpu node) (numa.end_cpu node) s in
    let others = slowest_numa_steal_path numa node cpu_id batch_size in
    if_cases (Short batch_size) numa.is_numa (or_else own others)
      (first_nonempty_cpu_in_range cpu_id batch_size 0 (numa.ncpu - 1) s)
      (λ _.
        or_else-Short batch_size own others
          (in_range-Short cpu_id batch_size (numa.start_cpu node) (numa.end_cpu node) s)
          (steal_nodes-Short numa (numa.nranges - 1) 1 node cpu_id batch_size))
      (λ _. in_range-Short cpu_id batch_size 0 (numa.ncpu - 1) s)

-- A batch of `try_pop` has at most `batch_size` blocks, and one where that is 0.
pub try_pop-Short :
    (numa : Topology) (cpu_id batch_size : ℕ) (s : ClassCache)
    → Short batch_size (try_pop numa cpu_id batch_size s)
unfolding try_pop
try_pop-Short numa cpu_id batch_size s =
    or_else-Short batch_size (pop_own cpu_id batch_size s) (pop_slow numa cpu_id batch_size)
      (if_cases (Short batch_size) (s.nonempty cpu_id) (transfer_pop_batch s cpu_id batch_size)
        (none, s) (λ _. transfer_pop_batch-Short s cpu_id batch_size) (λ _. tt))
      (pop_slow-Short numa cpu_id batch_size)
