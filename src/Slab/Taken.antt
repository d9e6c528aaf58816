-- ===== src/Slab/Taken.antt =====
-- `try_pop` over all CPUs, own node first.
use rsmalloc.Common.{
  ℕ, zero, suc, ◌+◌, ◌-◌, ◌%◌, ◌≤◌, ◌<◌, ◌≡◌, ◌⊎◌, refl, ◌∙◌, Bool, true, false, ltb, ◌==◌,
  if◌then◌else◌, Bool-cases, inl, inr, arith,
}
use native.Mathlib.Nat.{mod-eq_of_lt, add-mod_right}
use rsmalloc.Slab.{ClassCache}
use rsmalloc.Slab.Transfer.{transfer_pop_batch}
use rsmalloc.Slab.Marked.{Marked}
use rsmalloc.Slab.Batch.{transfer_pop_batch-Popped}
use rsmalloc.Slab.Dry.{InRange, first_nonempty_cpu_in_range-Result}
use rsmalloc.Slab.Searched.{Result, Result-or_else, Result-imp, Popped-Result, unmarked-Dry}
use rsmalloc.Slab.Steal.{
  Topology, first_nonempty_cpu_in_range, or_else, steal_nodes, slowest_numa_steal_path, pop_slow,
  pop_own, try_pop,
}

pop_own-Result :
    (cpu_id batch_size : ℕ) (s : ClassCache)
    → Marked s
    → Result (λ c. cpu_id ≡ c) s.cpu s.nonempty (pop_own cpu_id batch_size s)
pop_own-Result cpu_id batch_size s h = elim (Bool-cases (s.nonempty cpu_id)) [
  | inl marked ↦ rw marked (
      Popped-Result s cpu_id (transfer_pop_batch s cpu_id batch_size)
        (transfer_pop_batch-Popped s cpu_id batch_size h))
  | inr clear ↦
      rw clear
        (h, refl, λ c marked. inl marked, λ c same. rw (← same) (unmarked-Dry s cpu_id h clear))
]

-- The CPUs of the nodes from the `i`-th to the last one of the loop.
abbrev InNodes : Topology → (count i node_id cpu_id : ℕ) → ℕ → Type 0
InNodes numa count i node_id cpu_id c =
    (k : ℕ) × (i ≤ k)
    × (k < i + count)
    × InRange cpu_id (numa.start_cpu ((k + node_id) % numa.nranges))
        (numa.end_cpu ((k + node_id) % numa.nranges)) c

steal_nodes-Result :
    (numa : Topology) (count i node_id cpu_id batch_size : ℕ) (s : ClassCache)
    → Marked s
    → Result
        (InNodes numa count i node_id cpu_id)
        s.cpu
        s.nonempty
        (steal_nodes numa count i node_id cpu_id batch_size s)
unfolding steal_nodes
steal_nodes-Result numa zero i node_id cpu_id batch_size s h =
    (h, refl, λ c marked. inl marked, λ c w. absurd (omega (arith, w.1, w.2)))
steal_nodes-Result numa (suc count) i node_id cpu_id batch_size s h =
    let node = (i + node_id) % numa.nranges in
    Result-or_else (InRange cpu_id (numa.start_cpu node) (numa.end_cpu node))
      (InNodes numa count (i + 1) node_id cpu_id) (InNodes numa (suc count) i node_id cpu_id) s.cpu
      s.nonempty
      (first_nonempty_cpu_in_range cpu_id batch_size (numa.start_cpu node) (numa.end_cpu node) s)
      (steal_nodes numa count (i + 1) node_id cpu_id batch_size)
      (λ c (k, from, to, range). elim (Bool-cases (i == k)) [
        | inl same ↦ let here : i ≡ k = ground (arith, same) in inl (rw here range)
        | inr other ↦ inr (k, ground (arith, from, other), omega (arith, to), range)
      ])
      (first_nonempty_cpu_in_range-Result cpu_id batch_size (numa.start_cpu node)
        (numa.end_cpu node) s h)
      (λ s' m. steal_nodes-Result numa count (i + 1) node_id cpu_id batch_size s' m)

-- The CPUs of the topology: those of its nodes, or all.
abbrev pub Covers : Topology → ℕ → Type 0
Covers numa c =
    if numa.is_numa
    then ((node : ℕ) × (node < numa.nranges) × (numa.start_cpu node ≤ c) × (c ≤ numa.end_cpu node))
    else c < numa.ncpu

-- Each node is the own one or one of the loop.
some_round :
    (n own node : ℕ)
    → own < n
    → node < n
    → (node ≡ own) ⊎ ((k : ℕ) × (1 ≤ k) × (k < 1 + (n - 1)) × ((k + own) % n ≡ node))
some_round n own node h g = elim (Bool-cases (node == own)) [
  | inl same ↦ inl (ground (arith, same))
  | inr other ↦ elim (Bool-cases (ltb own node)) [
    | inl above ↦ inr (
      node - own,
      ground (arith, above),
      ground (arith, above),
      let e : node - own + own ≡ node = ground (arith, above) in rw e (mod-eq_of_lt g),
    )
    | inr below ↦ inr (
      n + node - own,
      omega arith,
      ground (arith, below, other),
      let e : n + node - own + own ≡ node + n = omega arith in
          rw e (add-mod_right node n ∙ mod-eq_of_lt g),
    )
  ]
]

-- The same, but for the own CPU.
abbrev Others : Topology → ℕ → ℕ → Type 0
Others numa cpu_id c = ((c == cpu_id) ≡ false) × Covers numa c

own_or_other :
    (numa : Topology) (cpu_id c : ℕ) → Covers numa c → (cpu_id ≡ c) ⊎ Others numa cpu_id c
own_or_other numa cpu_id c h = elim (Bool-cases (c == cpu_id)) [
  | inl same ↦ inl (ground (arith, same))
  | inr other ↦ inr (other, h)
]

in_nodes :
    (numa : Topology) (cpu_id c : ℕ)
    → numa.cpu_to_node cpu_id < numa.nranges
    → ((c == cpu_id) ≡ false)
      × ((node : ℕ) × (node < numa.nranges) × (numa.start_cpu node ≤ c) × (c ≤ numa.end_cpu node))
    → InRange cpu_id
        (numa.start_cpu (numa.cpu_to_node cpu_id))
        (numa.end_cpu (numa.cpu_to_node cpu_id))
        c
      ⊎ InNodes numa (numa.nranges - 1) 1 (numa.cpu_to_node cpu_id) cpu_id c
in_nodes numa cpu_id c on_node (other, (node, h, low, high)) =
    elim (some_round numa.nranges (numa.cpu_to_node cpu_id) node on_node h) [
      | inl own ↦ inl (rw (← own) (other, low, high))
      | inr (k, from, to, at) ↦ inr (k, from, to, rw at (other, low, high))
    ]

-- The CPUs that `pop_slow` looks at, for both answers of `is_numa`.
abbrev Covered : Topology → Bool → ℕ → Type 0
Covered numa b c =
    if b
    then ((node : ℕ) × (node < numa.nranges) × (numa.start_cpu node ≤ c) × (c ≤ numa.end_cpu node))
    else c < numa.ncpu

branch-Result :
    (numa : Topology) (b : Bool) (cpu_id batch_size : ℕ) (s : ClassCache)
    → Marked s
    → numa.cpu_to_node cpu_id < numa.nranges
    → 0 < numa.ncpu
    → let node_id = numa.cpu_to_node cpu_id in
      Result
        (λ c. ((c == cpu_id) ≡ false) × Covered numa b c)
        s.cpu
        s.nonempty
        (if b
          then or_else
              (first_nonempty_cpu_in_range cpu_id batch_size
                (numa.start_cpu node_id)
                (numa.end_cpu node_id)
                s)
              (slowest_numa_steal_path numa node_id cpu_id batch_size)
          else first_nonempty_cpu_in_range cpu_id batch_size 0 (numa.ncpu - 1) s)
branch-Result numa true cpu_id batch_size s h on_node some_cpu =
    let node = numa.cpu_to_node cpu_id in
    let start = numa.start_cpu node in
    let end = numa.end_cpu node in
    Result-or_else (InRange cpu_id start end) (InNodes numa (numa.nranges - 1) 1 node cpu_id)
      (λ c. ((c == cpu_id) ≡ false) × Covered numa true c) s.cpu s.nonempty
      (first_nonempty_cpu_in_range cpu_id batch_size start end s)
      (slowest_numa_steal_path numa node cpu_id batch_size) (λ c. in_nodes numa cpu_id c on_node)
      (first_nonempty_cpu_in_range-Result cpu_id batch_size start end s h)
      (λ s' m. steal_nodes-Result numa (numa.nranges - 1) 1 node cpu_id batch_size s' m)
branch-Result numa false cpu_id batch_size s h on_node some_cpu =
    Result-imp (InRange cpu_id 0 (numa.ncpu - 1)) (λ c. ((c == cpu_id) ≡ false) × (c < numa.ncpu))
      s.cpu s.nonempty (first_nonempty_cpu_in_range cpu_id batch_size 0 (numa.ncpu - 1) s)
      (λ c (other, in_cpus). (other, omega arith, omega arith))
      (first_nonempty_cpu_in_range-Result cpu_id batch_size 0 (numa.ncpu - 1) s h)

pop_slow-Result :
    (numa : Topology) (cpu_id batch_size : ℕ) (s : ClassCache)
    → Marked s
    → numa.cpu_to_node cpu_id < numa.nranges
    → 0 < numa.ncpu
    → Result (Others numa cpu_id) s.cpu s.nonempty (pop_slow numa cpu_id batch_size s)
unfolding pop_slow
pop_slow-Result numa cpu_id batch_size s h on_node some_cpu =
    branch-Result numa numa.is_numa cpu_id batch_size s h on_node some_cpu

-- With hints as they should be, the CPU on a node, and at least one CPU: `try_pop` gives blocks that
-- were on one CPU, and takes them from it, or it gives none and changes no list, every CPU of the
-- topology has an empty normal transfer list, and every one that was marked before the call has an empty
-- list of trimmed blocks too; only marks of CPUs without trimmed blocks are cleared then. The hints are
-- as they should be after.
pub try_pop-Result :
    (numa : Topology) (cpu_id batch_size : ℕ) (s : ClassCache)
    → Marked s
    → numa.cpu_to_node cpu_id < numa.nranges
    → 0 < numa.ncpu
    → Result (Covers numa) s.cpu s.nonempty (try_pop numa cpu_id batch_size s)
unfolding try_pop
try_pop-Result numa cpu_id batch_size s h on_node some_cpu =
    Result-or_else (λ c. cpu_id ≡ c) (Others numa cpu_id) (Covers numa) s.cpu s.nonempty
      (pop_own cpu_id batch_size s) (pop_slow numa cpu_id batch_size)
      (λ c. own_or_other numa cpu_id c) (pop_own-Result cpu_id batch_size s h)
      (λ s' m. pop_slow-Result numa cpu_id batch_size s' m on_node some_cpu)
