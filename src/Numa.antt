-- ===== src/Numa.antt =====
-- internals/numa_parser.rs: ranges of processors, the table from processors to nodes, and the range of
-- processors of each node. The parser of the lists is in Numa/Text; the reads of the system's files are left out.
pub mod Assign
pub mod Text
pub mod Populate
mod Tests
use rsmalloc.Common.{
  ℕ, zero, suc, ◌+◌, ◌-◌, ◌%◌, ◌^◌, Bool, true, false, ◌&&◌, ◌||◌, Option, none, some, min, ltb,
  leb, ◌==◌, update, if◌then◌else◌,
}
use rsmalloc.Layout.{usize_mod}

abbrev pub invalid_node : ℕ
invalid_node = 65535

abbrev pub usize_max : ℕ
usize_max = usize_mod - 1

pub record NumberRange : Type 0 where
  pub start : ℕ
  pub end : ℕ

-- `NumberRange::new`
abbrev pub new_range : (start end : ℕ) → Option NumberRange
new_range start end = if leb start end then some (record { start = start; end = end }) else none

pub record NumberRangeIter : Type 0 where
  pub next : ℕ
  pub end : ℕ
  pub finished : Bool

-- `NumberRange::iter`
abbrev pub iter : NumberRange → NumberRangeIter
iter range = record { next = range.start; end = range.end; finished = false }

-- `NumberRangeIter::next`
abbrev pub next_item : NumberRangeIter → Option (ℕ × NumberRangeIter)
next_item it =
    if it.finished
    then none
    else (let last = it.next == it.end in
        some (
          it.next,
          record { next = if last then it.next else it.next + 1; end = it.end; finished = last },
        ))

-- `clipped_cpu_range`
abbrev pub clipped_cpu_range : NumberRange → (ncpu : ℕ) → Option NumberRange
clipped_cpu_range range ncpu =
    if (ncpu == 0) || leb ncpu range.start
    then none
    else some (record { start = range.start; end = min range.end (ncpu - 1) })

-- The loop of `parse_numa_topology` over the processors of one range, on fuel: the table after it.
unfoldable pub assign_cpus : (fuel : ℕ) → NumberRangeIter → (node : ℕ) → (ℕ → ℕ) → Option (ℕ → ℕ)
assign_cpus zero it node cpu_to_node = none
assign_cpus (suc fuel) it node cpu_to_node = elim (next_item it) [
  | none ↦ some cpu_to_node
  | some (cpu, rest) ↦ assign_cpus fuel rest node (update cpu_to_node cpu node)
]

-- The body of the loop of `parse_numa_topology` over the ranges of a node.
unfoldable pub assign_range : NumberRange → (ncpu node : ℕ) → (ℕ → ℕ) → Option (ℕ → ℕ)
assign_range range ncpu node cpu_to_node = elim (clipped_cpu_range range ncpu) [
  | none ↦ some cpu_to_node
  | some r ↦ assign_cpus (suc (suc (r.end - r.start))) (iter r) node cpu_to_node
]

-- `NumaCpuRange`
pub record CpuRange : Type 0 where
  pub node_id : ℕ
  pub start_cpu : ℕ
  pub end_cpu : ℕ

-- The tables `cpu_to_node` and `cpu_ranges` of a `NumaTopology`; their lengths are arguments.
pub record Tables : Type 0 where
  pub cpu_to_node : ℕ → ℕ
  pub cpu_ranges : ℕ → CpuRange

-- The tables before `populate_cpu_ranges`: no node has a range.
abbrev pub unset : (ℕ → ℕ) → Tables
unset cpu_to_node = record {
  cpu_to_node = cpu_to_node;
  cpu_ranges = λ node. record { node_id = node % 2 ^ 16; start_cpu = usize_max; end_cpu = 0 };
}

-- The node that `populate_cpu_ranges` keeps for a processor.
abbrev pub known_node : (nranges node : ℕ) → ℕ
known_node nranges node = if (node == invalid_node) || leb nranges node then 0 else node

-- A range with the next processor.
abbrev pub widen : CpuRange → ℕ → CpuRange
widen range cpu = record range {
  start_cpu = if range.start_cpu == usize_max then cpu else range.start_cpu;
  end_cpu = cpu;
}

-- The first loop of `populate_cpu_ranges`, after the processors below `ncpu`.
unfoldable pub place_cpus : (nranges ncpu : ℕ) → Tables → Tables
place_cpus nranges zero tables = tables
place_cpus nranges (suc cpu) tables =
    let t = place_cpus nranges cpu tables in
    let node = known_node nranges (t.cpu_to_node cpu) in
    record {
      cpu_to_node = update t.cpu_to_node cpu node;
      cpu_ranges = update t.cpu_ranges node (widen (t.cpu_ranges node) cpu);
    }

-- `populate_cpu_ranges`; the second loop looks at each node by itself
unfoldable pub populate_cpu_ranges : (ncpu nranges : ℕ) → Tables → Tables
populate_cpu_ranges ncpu nranges tables =
    let t = place_cpus nranges ncpu tables in
    record t {
      cpu_ranges = λ node.
          let range = t.cpu_ranges node in
          if ltb node nranges && (range.start_cpu == usize_max)
          then record range { start_cpu = 1; end_cpu = 0 }
          else range;
    }
