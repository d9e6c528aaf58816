-- ===== src/Numa/Populate.antt =====
-- `populate_cpu_ranges`: the range of a node is the smallest one that has its processors.
use rsmalloc.Common.{
  ℕ, zero, suc, ◌≤◌, ◌<◌, true, false, ◌≡◌, ◌≢◌, ◌⊎◌, refl, ◌∙◌, ltb, ◌==◌, update, arith,
  Bool-cases, inl, inr,
}
use rsmalloc.Numa.{Tables, usize_max, unset, known_node, widen, place_cpus, populate_cpu_ranges}

-- After the first loop over the processors below `ncpu`: each lies in the range of its node, and the
-- range of a node, if it is set, ends at processors of the node.
record Placed (nranges ncpu : ℕ) (t : Tables) : Type 0 where
  known : (cpu : ℕ) → cpu < ncpu → t.cpu_to_node cpu < nranges
  from : (cpu : ℕ) → cpu < ncpu → (t.cpu_ranges (t.cpu_to_node cpu)).start_cpu ≤ cpu
  upto : (cpu : ℕ) → cpu < ncpu → cpu ≤ (t.cpu_ranges (t.cpu_to_node cpu)).end_cpu
  first :
      (node : ℕ)
      → (t.cpu_ranges node).start_cpu ≢ usize_max
      → ((t.cpu_ranges node).start_cpu < ncpu)
        × (t.cpu_to_node (t.cpu_ranges node).start_cpu ≡ node)
  last :
      (node : ℕ)
      → (t.cpu_ranges node).start_cpu ≢ usize_max
      → ((t.cpu_ranges node).end_cpu < ncpu) × (t.cpu_to_node (t.cpu_ranges node).end_cpu ≡ node)

known_node-bounded : (nranges node : ℕ) → 0 < nranges → known_node nranges node < nranges
known_node-bounded nranges node h = ground arith

-- One round of the first loop.
abbrev place : (cpu node : ℕ) → Tables → Tables
place cpu node t = record {
  cpu_to_node = update t.cpu_to_node cpu node;
  cpu_ranges = update t.cpu_ranges node (widen (t.cpu_ranges node) cpu);
}

-- A place below `cpu` keeps its node.
update_below :
    (f : ℕ → ℕ) (cpu node u n : ℕ) → u < cpu → f u ≡ n → (u < suc cpu) × (update f cpu node u ≡ n)
update_below f cpu node u n h at =
    let e : (cpu == u) ≡ false = ground arith in (omega arith, rw e at)

update_at : (f : ℕ → ℕ) (cpu node n : ℕ) → node ≡ n → (cpu < suc cpu) × (update f cpu node cpu ≡ n)
update_at f cpu node n at = let e : (cpu == cpu) ≡ true = ground arith in (omega arith, rw e at)

widen_low :
    (nranges cpu node : ℕ) (t : Tables)
    → Placed nranges cpu t
    → (widen (t.cpu_ranges node) cpu).start_cpu ≤ cpu
widen_low nranges cpu node t p = elim (Bool-cases ((t.cpu_ranges node).start_cpu == usize_max)) [
  | inl e ↦ rw e (omega arith)
  | inr e ↦ let (low, _) = p.first node (λ x. ground (arith, x, e)) in rw e (omega (arith, low))
]

first_widened :
    (nranges cpu node n : ℕ) (t : Tables)
    → node ≡ n
    → Placed nranges cpu t
    → ((widen (t.cpu_ranges node) cpu).start_cpu < suc cpu)
      × (update t.cpu_to_node cpu node (widen (t.cpu_ranges node) cpu).start_cpu ≡ n)
first_widened nranges cpu node n t same p =
    elim (Bool-cases ((t.cpu_ranges node).start_cpu == usize_max)) [
      | inl e ↦ rw e (update_at t.cpu_to_node cpu node n same)
      | inr e ↦
          let (low, at) = p.first node (λ x. ground (arith, x, e)) in
          rw e (update_below t.cpu_to_node cpu node (t.cpu_ranges node).start_cpu n low (at ∙ same))
    ]

place-Placed :
    (nranges cpu node : ℕ) (t : Tables)
    → node < nranges
    → suc cpu ≤ usize_max
    → Placed nranges cpu t
    → Placed nranges (suc cpu) (place cpu node t)
place-Placed nranges cpu node t small room p =
    let self : (node == node) ≡ true = ground arith in
    let low = widen_low nranges cpu node t p in
    record {
      known = λ u h. elim (Bool-cases (cpu == u)) [
        | inl e ↦ rw e small
        | inr e ↦ rw e (p.known u (ground arith))
      ];
      from = λ u h. elim (Bool-cases (cpu == u)) [
        | inl e ↦ rw (e, self) (ground (arith, low))
        | inr e ↦
            let old = p.from u (ground arith) in
            elim (Bool-cases (node == t.cpu_to_node u)) [
              | inl e' ↦
                  let same : node ≡ t.cpu_to_node u = ground (arith, e') in
                  let kept : (t.cpu_ranges node).start_cpu ≤ u = rw same old in
                  rw (e, e') (ground (arith, kept, room))
              | inr e' ↦ rw (e, e') old
            ]
      ];
      upto = λ u h. elim (Bool-cases (cpu == u)) [
        | inl e ↦ rw (e, self) (ground arith)
        | inr e ↦ elim (Bool-cases (node == t.cpu_to_node u)) [
          | inl e' ↦ rw (e, e') (omega arith)
          | inr e' ↦ rw (e, e') (p.upto u (ground arith))
        ]
      ];
      first = λ n h. elim (Bool-cases (node == n)) [
        | inl e ↦ rw e (first_widened nranges cpu node n t (ground (arith, e)) p)
        | inr e ↦
            let (low', at) = p.first n (λ x. h (rw e x)) in
            rw e (update_below t.cpu_to_node cpu node (t.cpu_ranges n).start_cpu n low' at)
      ];
      last = λ n h. elim (Bool-cases (node == n)) [
        | inl e ↦ rw e (update_at t.cpu_to_node cpu node n (ground (arith, e)))
        | inr e ↦
            let (high, at) = p.last n (λ x. h (rw e x)) in
            rw e (update_below t.cpu_to_node cpu node (t.cpu_ranges n).end_cpu n high at)
      ];
    }

place_cpus-Placed :
    (nranges ncpu : ℕ) (cpu_to_node : ℕ → ℕ)
    → 0 < nranges
    → ncpu ≤ usize_max
    → Placed nranges ncpu (place_cpus nranges ncpu (unset cpu_to_node))
unfolding place_cpus
place_cpus-Placed nranges zero cpu_to_node some_range room = record {
  known = λ u h. absurd (omega arith);
  from = λ u h. absurd (omega arith);
  upto = λ u h. absurd (omega arith);
  first = λ n h. absurd (h refl);
  last = λ n h. absurd (h refl);
}
place_cpus-Placed nranges (suc cpu) cpu_to_node some_range room =
    let before = place_cpus nranges cpu (unset cpu_to_node) in
    place-Placed nranges cpu (known_node nranges (before.cpu_to_node cpu)) before
      (known_node-bounded nranges (before.cpu_to_node cpu) some_range) room
      (place_cpus-Placed nranges cpu cpu_to_node some_range (omega arith))

-- With at least one node, and no more processors than a `usize` counts: below `ncpu` each processor has
-- a node below `nranges`, and lies in the range of that node.
pub populate_cpu_ranges-covers :
    (ncpu nranges : ℕ) (cpu_to_node : ℕ → ℕ) (cpu : ℕ)
    → 0 < nranges
    → ncpu ≤ usize_max
    → cpu < ncpu
    → let t = populate_cpu_ranges ncpu nranges (unset cpu_to_node) in
      let node = t.cpu_to_node cpu in
      (node < nranges) × ((t.cpu_ranges node).start_cpu ≤ cpu) × (cpu ≤ (t.cpu_ranges node).end_cpu)
unfolding populate_cpu_ranges
populate_cpu_ranges-covers ncpu nranges cpu_to_node cpu some_range room h =
    let p = place_cpus-Placed nranges ncpu cpu_to_node some_range room in
    let t = place_cpus nranges ncpu (unset cpu_to_node) in
    let node = t.cpu_to_node cpu in
    let low = p.from cpu h in
    let known : ltb node nranges ≡ true = ground (arith, p.known cpu h) in
    let e : ((t.cpu_ranges node).start_cpu == usize_max) ≡ false = ground (arith, low, room, h) in
    rw (known, e) (p.known cpu h, low, p.upto cpu h)

-- Under the same conditions the range of a node below `nranges` is the empty one, from 1 to 0, or it
-- starts and ends at processors of the node below `ncpu`.
pub populate_cpu_ranges-tight :
    (ncpu nranges : ℕ) (cpu_to_node : ℕ → ℕ) (node : ℕ)
    → 0 < nranges
    → ncpu ≤ usize_max
    → node < nranges
    → let t = populate_cpu_ranges ncpu nranges (unset cpu_to_node) in
      let range = t.cpu_ranges node in
      ((range.start_cpu ≡ 1) × (range.end_cpu ≡ 0))
      ⊎ (((range.start_cpu < ncpu) × (t.cpu_to_node range.start_cpu ≡ node))
          × ((range.end_cpu < ncpu) × (t.cpu_to_node range.end_cpu ≡ node)))
unfolding populate_cpu_ranges
populate_cpu_ranges-tight ncpu nranges cpu_to_node node some_range room h =
    let p = place_cpus-Placed nranges ncpu cpu_to_node some_range room in
    let known : ltb node nranges ≡ true = ground arith in
    let t = place_cpus nranges ncpu (unset cpu_to_node) in
    elim (Bool-cases ((t.cpu_ranges node).start_cpu == usize_max)) [
      | inl e ↦ rw (known, e) (inl (refl, refl))
      | inr e ↦
          let some_cpu : (t.cpu_ranges node).start_cpu ≢ usize_max = λ x. ground (arith, x, e) in
          rw (known, e) (inr (p.first node some_cpu, p.last node some_cpu))
    ]
