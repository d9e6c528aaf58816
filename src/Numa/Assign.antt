-- ===== src/Numa/Assign.antt =====
-- The loop that enters the processors of a range into the table.
use rsmalloc.Common.{
  ℕ, zero, suc, ◌+◌, ◌-◌, ◌≤◌, true, false, ◌&&◌, ◌||◌, ◌≡◌, refl, Option, some, min, ltb, leb,
  ◌==◌, update, if◌then◌else◌, arith, Bool-cases, inl, inr,
}
use rsmalloc.Numa.{NumberRange, assign_cpus, assign_range}

-- The table with the node at the processors from `first` to `last`, and nowhere else changed.
Assigned : (first last node : ℕ) → (ℕ → ℕ) → Option (ℕ → ℕ) → Type 0
Assigned first last node old result =
    (new : ℕ → ℕ) × (result ≡ some new)
    × ((cpu : ℕ) → new cpu ≡ (if leb first cpu && leb cpu last then node else old cpu))

assign_cpus-Assigned :
    (k first last node : ℕ) (old : ℕ → ℕ)
    → first + k ≡ last
    → Assigned first last node old
        (assign_cpus (suc (suc k)) (record { next = first; end = last; finished = false }) node old)
unfolding Assigned assign_cpus
assign_cpus-Assigned zero first last node old h =
    let e : (first == last) ≡ true = ground arith in
    rw (assign_cpus, e) (update old first node, refl, λ cpu. ground arith)
assign_cpus-Assigned (suc k) first last node old h =
    let e : (first == last) ≡ false = ground arith in
    let (new, r, at) =
      assign_cpus-Assigned k (first + 1) last node (update old first node) (omega arith) in
    rw (assign_cpus, e) (new, r, λ cpu. ground (arith, at cpu))

-- For a range whose start is not after its end: the loop ends, the processors of the range below `ncpu`
-- get the node, and no other place of the table changes.
pub assign_range-Assigned :
    (range : NumberRange) (ncpu node : ℕ) (old : ℕ → ℕ)
    → range.start ≤ range.end
    → (new : ℕ → ℕ) × (assign_range range ncpu node old ≡ some new)
      × ((cpu : ℕ)
          → new cpu ≡ (
              if leb range.start cpu && (leb cpu range.end && ltb cpu ncpu) then node else old cpu))
unfolding assign_range Assigned
assign_range-Assigned range ncpu node old h =
    elim (Bool-cases ((ncpu == 0) || leb ncpu range.start)) [
      | inl e ↦ rw (assign_range, e) (old, refl, λ cpu. ground arith)
      | inr e ↦
          let last = min range.end (ncpu - 1) in
          let (new, r, at) =
            assign_cpus-Assigned (last - range.start) range.start last node old (ground arith) in
          rw (assign_range, e) (new, r, λ cpu. ground (arith, at cpu))
    ]
