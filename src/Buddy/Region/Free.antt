-- ===== src/Buddy/Region/Free.antt =====
-- `free` and `try_grow_inplace`: what comes back to the free blocks, and that buddies are merged.
use rsmalloc.Common.{
  ℕ, zero, suc, ◌+◌, ◌-◌, ◌*◌, ◌/◌, ◌%◌, ◌^◌, ◌≤◌, ◌<◌, ◌≡◌, refl, ap, ◌∙◌, min, bit_xor, true,
  false, not, ◌&&◌, ◌||◌, arith, ◌⊎◌, inl, inr, ltb, ◌==◌, one-le-pow, pow-suc, Bool-cases,
}
use native.Mathlib.Nat.{add-mod_right, div-add-mod, mul-mod_right}
use rsmalloc.Common.Bits.{digit, digit-lt, bit_xor-pow_clear, bit_xor-pow_set, mod-pow-suc}
use rsmalloc.Buddy.Region.{
  Region, FreeBlock, min_order, max_order, order_index, block_is_free, push_free_block,
  remove_free_block, buddy, in_region, merge, free_block, allocated,
}
use rsmalloc.Buddy.Region.Bitmap.{block_is_free-bit}
use rsmalloc.Buddy.Region.Covers.{inside, covers, count_at, inside-suc, covers-push, covers-remove}
use rsmalloc.Buddy.Region.Valid.{
  slot, IsValid, SameFrame, SameFrame-trans, push-SameFrame, remove-SameFrame, push-IsValid,
  remove-IsValid,
}
use rsmalloc.Buddy.Region.Alloc.{slot-SameFrame}

mod-pow-below : (j k t : ℕ) → t % 2 ^ (k + j) ≡ 0 → t % 2 ^ k ≡ 0
mod-pow-below zero k t h = let e : k + 0 ≡ k = omega arith in rw e at h
mod-pow-below (suc j) k t h =
    let e : k + suc j ≡ suc (k + j) = omega arith in
    mod-pow-below j k t (omega (arith, rw e at h, mod-pow-suc t (k + j)))

-- Between multiples of `p` there is room for `p`.
room_between : (x t p : ℕ) → 0 < p → x % p ≡ 0 → t % p ≡ 0 → x < t → x + p ≤ t
room_between x t p pos hx ht lt = grind (arith, div-add-mod x p, div-add-mod t p)

-- The buddy of a slot is the slot behind it or the one before it, and the lower of the two is
-- aligned to the order above.
abbrev pub Buddies : Region → ℕ → ℕ → ℕ → Type 0
Buddies r order a b =
    ((b ≡ a + 2 ^ order) × ((a - r.base) % 2 ^ suc order ≡ 0))
    ⊎ ((b + 2 ^ order ≡ a) × (r.base ≤ b) × ((b - r.base) % 2 ^ suc order ≡ 0))

pub buddy-Buddies :
    (r : Region) (order a : ℕ) → slot r order a ≡ true → Buddies r order a (buddy r a order)
unfolding buddy
buddy-Buddies r order a h = elim (Bool-cases (digit x order == 0)) [
  | inl clear ↦ inl (
    ground (arith, bit_xor-pow_clear x order (ground arith)),
    ground (arith, mod-pow-suc x order),
  )
  | inr set ↦
      let one : digit x order ≡ 1 = ground (arith, digit-lt x order) in
      let back : bit_xor x p + p ≡ x = bit_xor-pow_set x order one in
      let y : ℕ = bit_xor x p in
      let sum : x ≡ suc_p * (x / suc_p) + p =
        ground (arith, div-add-mod x suc_p, mod-pow-suc x order, one) in
      let even : y ≡ suc_p * (x / suc_p) = omega (arith, sum, back) in
      let same : r.base + y - r.base ≡ suc_p * (x / suc_p) = omega (arith, even) in
      inr (ground (arith, back), omega arith, rw same (mul-mod_right suc_p (x / suc_p)))
]
  where
    x : ℕ
    x = a - r.base

    p : ℕ
    p = 2 ^ order

    suc_p : ℕ
    suc_p = 2 ^ suc order

-- A free buddy: listed, and together with the slot a slot of the order above.
pub record Joined (r : Region) (order a b : ℕ) : Type 0 where
  pub listed : 0 < count_at b (r.free (order_index order))
  pub here : slot r (suc order) (min a b) ≡ true
  pub whole : (u : ℕ) → inside (min a b) (suc order) u ≡ inside a order u + inside b order u

min_left : (a b : ℕ) → a ≤ b → min a b ≡ a
min_left a b h = omega arith

min_right : (a b : ℕ) → b ≤ a → min a b ≡ b
min_right a b h = omega arith

module _ (r : Region) (order a b : ℕ) (v : IsValid r) (lo : min_order ≤ order)
    (hi : suc order ≤ max_order) (h : slot r order a ≡ true) (within : in_region r b ≡ true) where
  p_pos : 0 < 2 ^ order
  p_pos = one-le-pow order 2 (omega arith)

  total_aligned : r.total_size % 2 ^ order ≡ 0
  total_aligned =
      let e : order + (max_order - order) ≡ max_order = omega arith in
      mod-pow-below (max_order - order) order r.total_size (rw e v.whole)

  slot_buddy : Buddies r order a b → slot r order b ≡ true
  slot_buddy (inl (e, even)) =
      let shift : b - r.base ≡ a - r.base + 2 ^ order = ground arith in
      let aligned : (b - r.base) % 2 ^ order ≡ 0 =
        rw shift (ground (arith, add-mod_right (a - r.base) (2 ^ order))) in
      ground (
        arith,
        aligned,
        room_between (b - r.base) r.total_size (2 ^ order) p_pos aligned total_aligned,
      )
  slot_buddy (inr (e, le, even)) = ground (arith, mod-pow-suc (b - r.base) order, p_pos)

  slot_whole : Buddies r order a b → slot r (suc order) (min a b) ≡ true
  slot_whole (inl (e, even)) =
      let there = slot_buddy (inl (e, even)) in
      rw (min_left a b (omega arith)) (ground (arith, there, pow-suc 2 order))
  slot_whole (inr (e, le, even)) =
      rw (min_right a b (omega arith)) (ground (arith, pow-suc 2 order))

  inside_whole :
      Buddies r order a b
      → (u : ℕ) → inside (min a b) (suc order) u ≡ inside a order u + inside b order u
  inside_whole (inl (e, even)) u = rw (min_left a b (omega arith), e) (inside-suc a order u)
  inside_whole (inr (e, le, even)) u =
      rw (min_right a b (omega arith), ← e) (omega (arith, inside-suc b order u))

  pub buddy-Joined : Buddies r order a b → block_is_free r b order ≡ true → Joined r order a b
  buddy-Joined bs is_free = record {
    listed = ground (
      arith,
      slot_buddy bs,
      v.synced order b lo (omega arith),
      rw (block_is_free-bit r b order) at is_free,
    );
    here = slot_whole bs;
    whole = inside_whole bs;
  }

-- What merging did: the block grew by the free buddies that it took, and no free buddy is left.
pub record Merged (r : Region) (order a : ℕ) (current current_order : ℕ) (s : Region) : Type 0 where
  pub valid : IsValid s
  pub frame : SameFrame r s
  pub from : order ≤ current_order
  pub to : current_order ≤ max_order
  pub here : slot s current_order current ≡ true
  pub kept : (u : ℕ) → inside current current_order u + covers s u ≡ inside a order u + covers r u
  pub spans : (u : ℕ) → inside a order u ≤ inside current current_order u
  pub done :
      (current_order ≡ max_order)
      ⊎ ((in_region s (buddy s current current_order)
            && block_is_free s (buddy s current current_order) current_order)
          ≡ false)

merge-Merged :
    (n : ℕ) (r : Region) (a order : ℕ)
    → IsValid r
    → min_order ≤ order
    → order + n ≡ max_order
    → slot r order a ≡ true
    → ((u : ℕ) → inside a order u + covers r u ≤ 1)
    → let (current, current_order, s) = merge n r a order in
      Merged r order a current current_order s
unfolding merge
merge-Merged zero r a order v lo e here room = record {
  valid = v;
  frame = record { base = refl; total_size = refl; order = refl; node_id = refl };
  from = omega arith;
  to = omega arith;
  here = here;
  kept = λ u. refl;
  spans = λ u. omega arith;
  done = inl (omega arith);
}
merge-Merged (suc n) r a order v lo e here room =
    elim (Bool-cases (in_region r b && block_is_free r b order)) [
      | inl both ↦
          let j =
            buddy-Joined r order a b v lo (omega arith) here (ground arith)
              (buddy-Buddies r order a here) (ground arith) in
          let gone = λ (u : ℕ). covers-remove r order lo (omega arith) b u j.listed in
          let next : order + 1 ≡ suc order = omega arith in
          let widen = λ (u : ℕ). ap (λ (o : ℕ). inside (min a b) o u) next in
          let frame = remove-SameFrame r order b in
          let m =
            merge-Merged n (remove_free_block r order b) (min a b) (order + 1)
              (remove-IsValid v order lo (omega arith) b j.listed) (omega arith) (omega arith)
              (rw next (slot-SameFrame (suc order) (min a b) frame ∙ j.here))
              (λ u. rw next (omega (arith, j.whole u, gone u, room u))) in
          rw both (record {
            valid = m.valid;
            frame = SameFrame-trans frame m.frame;
            from = omega (arith, m.from);
            to = m.to;
            here = m.here;
            kept = λ u. omega (arith, m.kept u, widen u, j.whole u, gone u);
            spans = λ u. omega (arith, m.spans u, widen u, j.whole u);
            done = m.done;
          })
      | inr stop ↦ rw stop (record {
        valid = v;
        frame = record { base = refl; total_size = refl; order = refl; node_id = refl };
        from = omega arith;
        to = omega arith;
        here = here;
        kept = λ u. refl;
        spans = λ u. omega arith;
        done = inr stop;
      })
    ]
  where
    b : ℕ
    b = buddy r a order

-- What `free` did: the block came back to the free blocks, and nothing else changed there.
pub record Freed (r : Region) (order addr : ℕ) (s : Region) : Type 0 where
  pub valid : IsValid s
  pub frame : SameFrame r s
  pub returned : (u : ℕ) → covers s u ≡ inside addr order u + covers r u

module _ (stamp : ℕ) {r : Region} (addr order : ℕ) (v : IsValid r) (lo : min_order ≤ order)
    (hi : order ≤ max_order) (here : slot r order addr ≡ true)
    (held : (u : ℕ) → inside addr order u + covers r u ≤ 1) where
  abbrev pub merged : ℕ × ℕ × Region
  merged = merge (r.order - order) r addr order

  abbrev pub merged_block : FreeBlock
  merged_block = record { addr = merged.0; life_time = stamp; trim_state = allocated }

  pub free_block-merge :
      free_block stamp r addr order ≡ push_free_block merged.2 merged.1 merged_block
  unfolding free_block
  free_block-merge =
      let guard : (ltb order min_order
            || ltb max_order order
            || not (in_region r addr)
            || ltb r.order order)
          ≡ false =
        ground (arith, v.full, one-le-pow order 2) in
      rw guard

  pub merge_block : Merged r order addr merged.0 merged.1 merged.2
  merge_block = merge-Merged (r.order - order) r addr order v lo (omega (arith, v.full)) here held

  -- Freeing an aligned block of a valid region, none of whose bytes is free, keeps the region valid
  -- and its frame, and gives back to the free blocks the bytes of the block and no others.
  pub free_block-Freed : Freed r order addr (free_block stamp r addr order)
  free_block-Freed =
      let m = merge_block in
      rw free_block-merge (record {
        valid =
            push-IsValid m.valid merged.1 (omega (arith, m.from)) m.to merged_block m.here
              (λ u. omega (arith, m.kept u, held u));
        frame = SameFrame-trans m.frame (push-SameFrame merged.2 merged.1 merged_block);
        returned = λ u. omega (
          arith,
          m.kept u,
          covers-push merged.2 merged.1 (omega (arith, m.from)) m.to merged_block u,
        );
      })
