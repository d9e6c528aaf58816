-- ===== src/Slab/Steal.antt =====
-- `first_nonempty_cpu_in_range`, `pop_slow`, `slowest_numa_steal_path` and `try_pop`.
use rsmalloc.Common.{
  ℕ, zero, suc, ◌+◌, ◌-◌, ◌*◌, ◌/◌, ◌%◌, Bool, true, false, not, ◌&&◌, ◌||◌, Option, none, some,
  List, [], ◌∷◌, update, leb, ◌==◌, if◌then◌else◌,
}
use rsmalloc.Slab.{ClassCache}
use rsmalloc.Slab.Transfer.{transfer_pop_batch}

-- `try_mark_being_stolen` as it leaves the bitmap, and `clear_being_stolen`
abbrev pub set_being_stolen : ClassCache → (cpu_id : ℕ) → Bool → ClassCache
set_being_stolen s cpu_id b = record s { being_stolen = update s.being_stolen cpu_id b }

-- The set bits among `count` CPUs from `first` on, lowest first.
unfoldable pub set_bits : (ℕ → Bool) → (count first : ℕ) → List ℕ
set_bits bit zero first = []
set_bits bit (suc count) first =
    let rest = set_bits bit count (first + 1) in if bit first then first ∷ rest else rest

-- `bits`: the CPUs of a word of the bitmap that are marked and in the range
abbrev pub victims : ClassCache → (word_idx start end : ℕ) → List ℕ
victims s word_idx start end =
    set_bits (λ cpu. s.nonempty cpu && (leb start cpu && leb cpu end)) 64 (word_idx * 64)

-- The loop over the bits, for the blocks of the first victim that has some.
unfoldable pub steal_from :
    (force_steal : Bool)
    → (cpu_id batch_size : ℕ) → ClassCache
    → List ℕ
    → Option (List ℕ) × ClassCache
steal_from force_steal cpu_id batch_size s [] = (none, s)
steal_from force_steal cpu_id batch_size s (victim ∷ rest) =
    elim ((victim == cpu_id) || (s.being_stolen victim && not force_steal)) [
      | true ↦ steal_from force_steal cpu_id batch_size s rest
      | false ↦
          let (result, popped) =
            transfer_pop_batch (set_being_stolen s victim true) victim batch_size in
          let cleared = set_being_stolen popped victim false in
          elim result [
            | some blocks ↦ (some blocks, cleared)
            | none ↦ steal_from force_steal cpu_id batch_size cleared rest
          ]
    ]

abbrev pub or_else :
    Option (List ℕ) × ClassCache
    → (ClassCache → Option (List ℕ) × ClassCache)
    → Option (List ℕ) × ClassCache
or_else (some blocks, s) next = (some blocks, s)
or_else (none, s) next = next s

-- The two rounds over a word: without and with `force_steal`.
abbrev pub steal_round :
    Bool → (cpu_id batch_size start end word_idx : ℕ) → ClassCache → Option (List ℕ) × ClassCache
steal_round force_steal cpu_id batch_size start end word_idx s =
    steal_from force_steal cpu_id batch_size s (victims s word_idx start end)

unfoldable pub steal_word :
    (cpu_id batch_size start end word_idx : ℕ) → ClassCache → Option (List ℕ) × ClassCache
steal_word cpu_id batch_size start end word_idx s =
    or_else (steal_round false cpu_id batch_size start end word_idx s)
      (steal_round true cpu_id batch_size start end word_idx)

unfoldable pub steal_words :
    (count word_idx cpu_id batch_size start end : ℕ) → ClassCache → Option (List ℕ) × ClassCache
steal_words zero word_idx cpu_id batch_size start end s = (none, s)
steal_words (suc count) word_idx cpu_id batch_size start end s =
    or_else (steal_word cpu_id batch_size start end word_idx s)
      (steal_words count (word_idx + 1) cpu_id batch_size start end)

-- `first_nonempty_cpu_in_range`
unfoldable pub first_nonempty_cpu_in_range :
    (cpu_id batch_size start end : ℕ) → ClassCache → Option (List ℕ) × ClassCache
first_nonempty_cpu_in_range cpu_id batch_size start end s =
    steal_words (end / 64 + 1 - start / 64) (start / 64) cpu_id batch_size start end s

-- The parts of `NumaTopology` that are read.
pub record Topology : Type 0 where
  pub is_numa : Bool
  pub ncpu : ℕ
  pub nranges : ℕ
  pub cpu_to_node : ℕ → ℕ
  pub start_cpu : ℕ → ℕ
  pub end_cpu : ℕ → ℕ

-- The loop of `slowest_numa_steal_path` over the other nodes, from the `i`-th on.
unfoldable pub steal_nodes :
    Topology → (count i node_id cpu_id batch_size : ℕ) → ClassCache → Option (List ℕ) × ClassCache
steal_nodes numa zero i node_id cpu_id batch_size s = (none, s)
steal_nodes numa (suc count) i node_id cpu_id batch_size s =
    let node = (i + node_id) % numa.nranges in
    or_else
      (first_nonempty_cpu_in_range cpu_id batch_size (numa.start_cpu node) (numa.end_cpu node) s)
      (steal_nodes numa count (i + 1) node_id cpu_id batch_size)

-- `slowest_numa_steal_path`
abbrev pub slowest_numa_steal_path :
    Topology → (node_id cpu_id batch_size : ℕ) → ClassCache → Option (List ℕ) × ClassCache
slowest_numa_steal_path numa node_id cpu_id batch_size s =
    steal_nodes numa (numa.nranges - 1) 1 node_id cpu_id batch_size s

-- `pop_slow`
unfoldable pub pop_slow :
    Topology → (cpu_id batch_size : ℕ) → ClassCache → Option (List ℕ) × ClassCache
pop_slow numa cpu_id batch_size s =
    let node_id = numa.cpu_to_node cpu_id in
    if numa.is_numa
    then or_else
        (first_nonempty_cpu_in_range cpu_id batch_size (numa.start_cpu node_id)
          (numa.end_cpu node_id) s)
        (slowest_numa_steal_path numa node_id cpu_id batch_size)
    else first_nonempty_cpu_in_range cpu_id batch_size 0 (numa.ncpu - 1) s

abbrev pub pop_own : (cpu_id batch_size : ℕ) → ClassCache → Option (List ℕ) × ClassCache
pop_own cpu_id batch_size s =
    if s.nonempty cpu_id then transfer_pop_batch s cpu_id batch_size else (none, s)

-- `try_pop`
unfoldable pub try_pop :
    Topology → (cpu_id batch_size : ℕ) → ClassCache → Option (List ℕ) × ClassCache
try_pop numa cpu_id batch_size s =
    or_else (pop_own cpu_id batch_size s) (pop_slow numa cpu_id batch_size)
