-- ===== src/Buddy/Region/Grow.antt =====
-- `try_grow_inplace` of buddy.rs: what a block that grows into its buddy takes.
use rsmalloc.Common.{
  ℕ, suc, ◌+◌, min, ◌≤◌, ◌≡◌, refl, true, Option, none, some, arith, inl, inr, ltb, leb, one-le-pow,
  Bool-cases,
}
use rsmalloc.Buddy.Region.{
  Region, min_order, max_order, block_is_free, remove_free_block, buddy, in_region,
  try_grow_inplace,
}
use rsmalloc.Buddy.Region.Covers.{inside, covers, covers-remove}
use rsmalloc.Buddy.Region.Valid.{slot, IsValid, SameFrame, remove-SameFrame, remove-IsValid}
use rsmalloc.Buddy.Region.Free.{buddy-Buddies, buddy-Joined}

-- The block became the slot of the order above that starts where it starts.
pub record Grew (r : Region) (order addr new_addr new_order : ℕ) (s : Region) : Type 0 where
  pub valid : IsValid s
  pub frame : SameFrame r s
  pub stays : new_addr ≡ addr
  pub doubled : new_order ≡ suc order
  pub here : slot s (suc order) addr ≡ true
  pub took : (u : ℕ) → covers s u + inside addr (suc order) u ≡ covers r u + inside addr order u

abbrev GrowOutcome : Region → (order addr : ℕ) → Option (ℕ × ℕ) × Region → Type 0
GrowOutcome r order addr (none, s) = s ≡ r
GrowOutcome r order addr (some (new_addr, new_order), s) = Grew r order addr new_addr new_order s

try_grow_inplace-Outcome :
    (r : Region) (addr order : ℕ)
    → IsValid r
    → min_order ≤ order
    → order ≤ max_order
    → slot r order addr ≡ true
    → GrowOutcome r order addr (try_grow_inplace r addr order)
unfolding try_grow_inplace
try_grow_inplace-Outcome r addr order v lo hi here = elim (Bool-cases (leb r.order order)) [
  | inl full ↦ rw full refl
  | inr room ↦
      rw (room, inside_region)
        (elim (Bool-cases (ltb b addr)) [
          | inl below ↦ rw below refl
          | inr above ↦ rw above (elim (Bool-cases (in_region r b)) [
            | inr out ↦ rw out refl
            | inl within ↦ rw within (elim (Bool-cases (block_is_free r b order)) [
              | inr held ↦ rw held refl
              | inl is_free ↦
                  rw is_free (grown (ground (arith, v.full)) (ground arith) within is_free)
            ])
          ])
        ])
]
  where
    b : ℕ
    b = buddy r addr order

    inside_region : in_region r addr ≡ true
    inside_region = ground (arith, one-le-pow order 2)

    grown :
        suc order ≤ max_order
        → addr ≤ b
        → in_region r b ≡ true
        → block_is_free r b order ≡ true
        → Grew r order addr addr (order + 1) (remove_free_block r order b)
    grown room above within is_free =
        let j =
          buddy-Joined r order addr b v lo room here within (buddy-Buddies r order addr here)
            is_free in
        let lowest : min addr b ≡ addr = omega arith in
        let frame = remove-SameFrame r order b in
        record {
          valid = remove-IsValid v order lo hi b j.listed;
          frame = frame;
          stays = refl;
          doubled = omega arith;
          here = rw (frame.base, frame.total_size) (rw lowest at j.here);
          took = λ u.
              omega (arith, rw lowest at (j.whole u), covers-remove r order lo hi b u j.listed);
        }

-- On a valid region, when `try_grow_inplace` succeeds on a block of an order: the block stays where
-- it is, the new order is the next one, the grown block is aligned to its size, the region stays
-- valid with the same frame, and the bytes that left the free blocks are those that it gained.
pub try_grow_inplace-Grew :
    {r s : Region} {new_addr new_order : ℕ} (addr order : ℕ)
    → IsValid r
    → min_order ≤ order
    → order ≤ max_order
    → slot r order addr ≡ true
    → try_grow_inplace r addr order ≡ (some (new_addr, new_order), s)
    → Grew r order addr new_addr new_order s
try_grow_inplace-Grew {r} addr order v lo hi here e =
    rw e at (try_grow_inplace-Outcome r addr order v lo hi here)
