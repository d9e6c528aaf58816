-- ===== src/Buddy/Region/Alloc.antt =====
-- `alloc_from_region`: what it takes from the free blocks, and that it finds a block if there is one.
use rsmalloc.Common.{
  ℕ, zero, suc, ◌+◌, ◌-◌, ◌^◌, ◌≤◌, ◌<◌, ◌≡◌, refl, sym, ◌∙◌, bit_and, true, false, Option, none,
  some, List, [], ◌∷◌, arith, inl, inr, ltb, ◌==◌, one-le-pow, pow-suc, Bool-cases,
}
use native.Mathlib.Nat.{add-mod_right}
use native.Mathlib.Decide.{dec_le}
use rsmalloc.Common.Bits.{
  digit, digit-lt, digit-bit_and, digit_high_ones, digit-zero, bit_and-pow, mod-pow-suc,
}
use rsmalloc.Buddy.Region.{
  Region, FreeBlock, min_order, max_order, order_index, order_bit, push_free_block,
  remove_free_block, is_null, split, find_block, alloc_from_region,
}
use rsmalloc.Buddy.Region.Covers.{inside, covers, count_at, inside-suc, covers-push, covers-remove}
use rsmalloc.Buddy.Region.Valid.{
  slot, IsValid, SameFrame, SameFrame-trans, push-SameFrame, remove-SameFrame, push-IsValid,
  remove-IsValid,
}

-- The two halves of a slot are slots of the order below.
pub slot_lower : (r : Region) (order a : ℕ) → slot r (suc order) a ≡ true → slot r order a ≡ true
slot_lower r order a h =
    ground (arith, mod-pow-suc (a - r.base) order, one-le-pow order 2, pow-suc 2 order)

pub slot_upper :
    (r : Region) (order a : ℕ) → slot r (suc order) a ≡ true → slot r order (a + 2 ^ order) ≡ true
slot_upper r order a h =
    let e : a + 2 ^ order - r.base ≡ a - r.base + 2 ^ order = ground arith in
    rw e (
      ground (
        arith,
        mod-pow-suc (a - r.base) order,
        one-le-pow order 2,
        pow-suc 2 order,
        add-mod_right (a - r.base) (2 ^ order),
      ))

-- A block of this order at the address went from the free blocks of `r` to its holder, or came back.
abbrev pub Took : Region → ℕ → ℕ → Region → Type 0
Took r order addr s = (u : ℕ) → covers s u + inside addr order u ≡ covers r u

record Halved (r : Region) (order requested addr : ℕ) (s : Region) : Type 0 where
  pub valid : IsValid s
  frame : SameFrame r s
  moved : (u : ℕ) → covers s u + inside addr requested u ≡ covers r u + inside addr order u
  low : slot r requested addr ≡ true

pub slot-SameFrame : {r s : Region} (order a : ℕ) → SameFrame r s → slot s order a ≡ slot r order a
slot-SameFrame order a f = ground arith

abbrev upper_half : FreeBlock → ℕ → FreeBlock
upper_half block order = record block { addr = block.addr + 2 ^ order }

-- One round: the upper half goes to the free list, the lower half is kept.
record Round (r : Region) (order : ℕ) (block : FreeBlock) (s : Region) : Type 0 where
  pub valid : IsValid s
  here : slot s order block.addr ≡ true
  kept :
      (u : ℕ)
      → inside block.addr order u + covers s u ≡ inside block.addr (suc order) u + covers r u

push-Round :
    (r : Region) (order : ℕ) (block : FreeBlock)
    → IsValid r
    → min_order ≤ order
    → suc order ≤ max_order
    → slot r (suc order) block.addr ≡ true
    → ((u : ℕ) → inside block.addr (suc order) u + covers r u ≤ 1)
    → Round r order block (push_free_block r order (upper_half block order))
push-Round r order block v lo hi here room = record {
  valid =
      push-IsValid v order lo (omega arith) upper (slot_upper r order block.addr here)
        (λ u. omega (arith, room u, inside-suc block.addr order u));
  here =
      slot-SameFrame order block.addr (push-SameFrame r order upper)
      ∙ slot_lower r order block.addr here;
  kept = λ u.
      omega (arith, inside-suc block.addr order u, covers-push r order lo (omega arith) upper u);
}
  where
    upper : FreeBlock
    upper = upper_half block order

split-Halved :
    (k : ℕ) (r : Region) (requested : ℕ) (block : FreeBlock)
    → IsValid r
    → min_order ≤ requested
    → requested + k ≤ max_order
    → slot r (requested + k) block.addr ≡ true
    → ((u : ℕ) → inside block.addr (requested + k) u + covers r u ≤ 1)
    → Halved r (requested + k) requested block.addr (split k r requested block)
unfolding split
split-Halved zero r requested block v lo hi here room =
    let e : requested + 0 ≡ requested = omega arith in
    rw e (record {
      valid = v;
      frame = record { base = refl; total_size = refl; order = refl; node_id = refl };
      moved = λ u. refl;
      low = rw e at here;
    })
split-Halved (suc k) r requested block v lo hi here room =
    let e : requested + suc k ≡ suc (requested + k) = omega arith in
    let order : ℕ = requested + k in
    let upper : FreeBlock = upper_half block order in
    let first =
      push-Round r order block v (omega arith) (omega arith) (rw e at here)
        (λ u. rw e at (room u)) in
    let rest =
      split-Halved k (push_free_block r order upper) requested block first.valid lo (omega arith)
        first.here (λ u. omega (arith, first.kept u, rw e at (room u))) in
    rw e (record {
      valid = rest.valid;
      frame = SameFrame-trans (push-SameFrame r order upper) rest.frame;
      moved = λ u. omega (arith, first.kept u, rest.moved u);
      low = sym (slot-SameFrame requested block.addr (push-SameFrame r order upper)) ∙ rest.low;
    })

-- What a search for a block of this order did to the region: it took one, or there was none in the
-- orders that it tried.
pub record Taken (r : Region) (requested addr : ℕ) (s : Region) : Type 0 where
  pub valid : IsValid s
  pub frame : SameFrame r s
  pub here : slot r requested addr ≡ true
  pub took : Took r requested addr s

abbrev pub Outcome : Region → (requested from : ℕ) → Option (ℕ × ℕ) × Region → Type 0
Outcome r requested from (none, s) =
    (s ≡ r) × ((o : ℕ) → from ≤ o → o ≤ max_order → is_null (r.free (order_index o)) ≡ true)
Outcome r requested from (some (addr, _), s) = Taken r requested addr s

take-Taken :
    (r : Region) (order requested : ℕ) (block : FreeBlock) (rest : List FreeBlock)
    → IsValid r
    → min_order ≤ requested
    → requested ≤ order
    → order ≤ max_order
    → r.free (order_index order) ≡ block ∷ rest
    → Taken r requested block.addr
        (split (order - requested) (remove_free_block r order block.addr) requested block)
unfolding count_at
take-Taken r order requested block rest v lo le hi e =
    let lo' : min_order ≤ order = omega arith in
    let listed : 0 < count_at block.addr (r.free (order_index order)) = rw e (ground arith) in
    let here : slot r order block.addr ≡ true = ground (arith, v.synced order block.addr lo' hi) in
    let s : Region = remove_free_block r order block.addr in
    let frame = remove-SameFrame r order block.addr in
    let sum : requested + (order - requested) ≡ order = omega arith in
    let gone = λ (u : ℕ). covers-remove r order lo' hi block.addr u listed in
    let halved =
      split-Halved (order - requested) s requested block
        (remove-IsValid v order lo' hi block.addr listed) lo (omega arith)
        (rw sum (slot-SameFrame order block.addr frame ∙ here))
        (λ u. rw sum (omega (arith, gone u, v.disjoint u))) in
    record {
      valid = halved.valid;
      frame = SameFrame-trans frame halved.frame;
      here = sym (slot-SameFrame requested block.addr frame) ∙ halved.low;
      took = λ u. omega (arith, gone u, rw sum at (halved.moved u));
    }

-- The bit of an order in the mask that was read is the bit in the region's mask.
abbrev Read : Region → (mask from : ℕ) → Type 0
Read r mask from =
    (o : ℕ)
    → from ≤ o
    → o ≤ max_order
    → digit mask (order_index o) ≡ digit r.nonempty_mask (order_index o)

Outcome-step :
    (r : Region) (requested order : ℕ) (out : Option (ℕ × ℕ) × Region)
    → is_null (r.free (order_index order)) ≡ true
    → Outcome r requested (order + 1) out
    → Outcome r requested order out
Outcome-step r requested order (none, s) empty (same, dry) = (same, all)
  where
    all : (o : ℕ) → order ≤ o → o ≤ max_order → is_null (r.free (order_index o)) ≡ true
    all o from to = elim (dec_le (order + 1) o) [
      | yes later ↦ dry o later to
      | no here ↦ let e : o ≡ order = omega arith in rw e empty
    ]
Outcome-step r requested order (some (addr, t), s) empty taken = taken

cons_of_not_null {ℓ} :
    {A : Type ℓ} (l : List A) → is_null l ≡ false → (x : A) × (xs : List A) × (l ≡ x ∷ xs)
cons_of_not_null [] h = cc
cons_of_not_null (x ∷ xs) h = (x, xs, refl)

find_block-Outcome :
    (n : ℕ) (r : Region) (mask requested order : ℕ)
    → IsValid r
    → min_order ≤ requested
    → requested ≤ order
    → order + n ≡ suc max_order
    → Read r mask order
    → Outcome r requested order (find_block n r mask requested order)
unfolding find_block
find_block-Outcome zero r mask requested order v lo le e read =
    (refl, λ o from to. absurd (omega arith))
find_block-Outcome (suc n) r mask requested order v lo le e read =
    let index : ℕ = order_index order in
    let bit = bit_and-pow mask index in
    let seen = read order (omega arith) (omega arith) in
    let listed = v.masked order (omega arith) (omega arith) in
    elim (Bool-cases (bit_and mask (order_bit order) == 0)) [
      | inl clear ↦ rw clear (
          Outcome-step r requested order _ (ground (arith, bit, seen, listed, one-le-pow index 2)) (
            find_block-Outcome n r mask requested (order + 1) v lo (omega arith) (omega arith)
              (λ o from to. read o (omega arith) to)))
      | inr on ↦
          let (block, rest, e') =
            cons_of_not_null (r.free index) (ground (arith, bit, seen, listed)) in
          rw (on, e') (take-Taken r order requested block rest v lo le (omega arith) e')
    ]

pub alloc_from_region-Outcome :
    (r : Region) (requested : ℕ)
    → IsValid r
    → min_order ≤ requested
    → requested ≤ max_order
    → Outcome r requested requested (alloc_from_region r requested)
unfolding alloc_from_region
alloc_from_region-Outcome r requested v lo hi = rw large (elim (Bool-cases (mask == 0)) [
  | inl none_on ↦ rw none_on (refl, dry none_on)
  | inr on ↦ rw on (
      find_block-Outcome (r.order + 1 - requested) r mask requested requested v lo (omega arith)
        (omega (arith, v.full)) read)
])
  where
    mask : ℕ
    mask = bit_and r.nonempty_mask (2 ^ 8 - 2 ^ order_index requested)

    large : ltb r.order requested ≡ false
    large = ground (arith, v.full)

    read : Read r mask requested
    read o from to = ground (
      arith,
      digit-bit_and r.nonempty_mask (2 ^ 8 - 2 ^ order_index requested) (order_index o),
      digit_high_ones 8 (order_index requested) (order_index o) (omega arith),
      digit-lt r.nonempty_mask (order_index o),
    )

    dry :
        (mask == 0) ≡ true
        → (o : ℕ) → requested ≤ o
        → o ≤ max_order
        → is_null (r.free (order_index o)) ≡ true
    dry h o from to =
        let zero_mask : mask ≡ 0 = ground arith in
        let seen = rw zero_mask at (read o from to) in
        ground (arith, seen, digit-zero (order_index o), v.masked o (omega arith) to)

-- On a valid region, when `alloc_from_region` returns a block: the block is aligned to its size and
-- lies in the region, the region stays valid with the same frame, and the bytes of the block, and
-- no other bytes, have left the free blocks.
pub alloc_from_region-Taken :
    {r s : Region} {addr state : ℕ} (requested : ℕ)
    → IsValid r
    → min_order ≤ requested
    → requested ≤ max_order
    → alloc_from_region r requested ≡ (some (addr, state), s)
    → Taken r requested addr s
alloc_from_region-Taken {r} requested v lo hi e =
    rw e at (alloc_from_region-Outcome r requested v lo hi)

-- On a valid region `alloc_from_region` returns no block only where every free list of the
-- requested order and above is empty, and then it changes nothing.
pub alloc_from_region_dry :
    {r s : Region} (requested o : ℕ)
    → IsValid r
    → min_order ≤ requested
    → requested ≤ o
    → o ≤ max_order
    → alloc_from_region r requested ≡ (none, s)
    → (is_null (r.free (order_index o)) ≡ true) × (s ≡ r)
alloc_from_region_dry {r} requested o v lo from to e =
    let (same, dry) = rw e at (alloc_from_region-Outcome r requested v lo (omega arith)) in
    (dry o from to, same)
