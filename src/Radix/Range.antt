-- ===== src/Radix/Range.antt =====
-- `set`, the loop of `Radix::set_range`, and what `is_owned` answers after `RadixTree::set_range`.
use rsmalloc.Common.{
  refl, none, ℕ, zero, suc, ◌+◌, ◌-◌, ◌/◌, ◌%◌, ◌^◌, ◌≤◌, ◌<◌, ◌≡◌, min, Bool, true, false, not,
  ◌&&◌, ◌||◌, arith, ltb, leb, ◌==◌, update, if◌then◌else◌, Bool-cases, inl, inr, some,
}
use native.Mathlib.Nat.{pow-le-pow_right}
use rsmalloc.Common.Bits.{digit-pow}
use rsmalloc.Word.{checked_add}
use rsmalloc.Radix.{
  find_leaf, Radix, Leaf, write_mask, write_words, with_leaf, split, set, set_chunks, get,
  set_range, set_single_big, is_owned, max_chunks, max_addr, valid_user_addr,
}
use rsmalloc.Radix.Leaf.{leaf_bit, bit_value, digit-write_mask, leaf_bit-write_words}
use rsmalloc.Radix.Path.{marked, leaf_at, leaf_at-with_leaf, split-path, get-marked}

-- The leaf of a chunk is changed.
abbrev changed : Radix → ℕ → (Leaf → Leaf) → Radix
changed l0 chunk f = with_leaf l0 (split chunk).0 (split chunk).1 (split chunk).2 f

marked-changed :
    (l0 : Radix) (chunk c : ℕ) (f : Leaf → Leaf)
    → chunk < max_chunks
    → c < max_chunks
    → marked (changed l0 chunk f) c ≡ (
        if chunk / 4096 == c / 4096
        then leaf_bit (f (leaf_at l0 (chunk / 4096))) (c % 4096)
        else marked l0 c)
unfolding marked
marked-changed l0 chunk c f h hc =
    rw
      (
        split-path chunk,
        leaf_at-with_leaf l0 (chunk / 4096) (c / 4096) f (omega arith) (omega arith),
      )
      (elim (Bool-cases (chunk / 4096 == c / 4096)) [ inl e ↦ rw e | inr e ↦ rw e ])

split_low : (chunk : ℕ) → (split chunk).3 ≡ chunk % 4096
split_low chunk = rw (split-path chunk)

set-marked :
    (l0 : Radix) (chunk c : ℕ) (val : Bool)
    → chunk < max_chunks
    → c < max_chunks
    → marked (set l0 chunk val) c ≡ (if chunk == c then bit_value val else marked l0 c)
unfolding set marked
set-marked l0 chunk c val h hc =
    let k : ℕ = (split chunk).3 in
    let word : ℕ = leaf_at l0 (chunk / 4096) (k / 64) in
    let below : 2 ^ (k % 64) < 2 ^ 64 =
      let le : 2 ^ (k % 64) ≤ 2 ^ 63 =
        pow-le-pow_right {n = 2} (omega arith) {j = 63} (omega arith) in
      omega arith in
    let inside : ltb chunk max_chunks ≡ true = ground arith in
    rw
      (
        inside,
        marked-changed l0 chunk c
            (λ l3. update l3 (k / 64) (write_mask (l3 (k / 64)) (2 ^ (k % 64)) val)) h hc,
      )
      (ground (
        arith,
        split_low chunk,
        digit-write_mask word (2 ^ (k % 64)) (c % 4096 % 64) val below,
        digit-pow (k % 64) (c % 4096 % 64),
      ))

-- One round of the loop, `len` chunks in one leaf.
set_leaf-marked :
    (l0 : Radix) (chunk c len : ℕ) (val : Bool)
    → chunk < max_chunks
    → c < max_chunks
    → 1 ≤ len
    → (split chunk).3 + len ≤ 4096
    → let i3 = (split chunk).3 in
      let leaf_end = i3 + len - 1 in
      marked
        (changed l0 chunk
          (λ l3. write_words (leaf_end / 64 + 1 - i3 / 64) l3 i3 leaf_end (i3 / 64) val))
        c
      ≡ (if leb chunk c && ltb c (chunk + len) then bit_value val else marked l0 c)
unfolding marked
set_leaf-marked l0 chunk c len val h hc pos fits =
    let i3 : ℕ = (split chunk).3 in
    let leaf_end : ℕ = i3 + len - 1 in
    rw
      (marked-changed l0 chunk c
        (λ l3. write_words (leaf_end / 64 + 1 - i3 / 64) l3 i3 leaf_end (i3 / 64) val) h hc)
      (ground (
        arith,
        split_low chunk,
        leaf_bit-write_words (leaf_at l0 (chunk / 4096)) i3 leaf_end val (c % 4096),
      ))

set_chunks-marked :
    (n : ℕ) (l0 : Radix) (chunk end_idx c : ℕ) (val : Bool)
    → chunk ≤ end_idx
    → end_idx < max_chunks
    → end_idx < chunk + n
    → c < max_chunks
    → marked (set_chunks n l0 chunk end_idx val) c
      ≡ (if leb chunk c && leb c end_idx then bit_value val else marked l0 c)
unfolding set_chunks
set_chunks-marked zero l0 chunk end_idx c val le hi fuel hc = absurd (omega arith)
set_chunks-marked (suc n) l0 chunk end_idx c val le hi fuel hc =
    let i3 : ℕ = (split chunk).3 in
    let len : ℕ = min (4096 - i3) (end_idx - chunk + 1) in
    let leaf_end : ℕ = i3 + len - 1 in
    let next : Radix =
      changed l0 chunk
        (λ l3. write_words (leaf_end / 64 + 1 - i3 / 64) l3 i3 leaf_end (i3 / 64) val) in
    let step =
      set_leaf-marked l0 chunk c len val (omega arith) hc (omega (arith, split_low chunk))
        (omega (arith, split_low chunk)) in
    elim (Bool-cases (len == end_idx - chunk + 1)) [
      | inl last ↦ rw (last, step) (ground arith)
      | inr more ↦
          rw
            (
              more,
              set_chunks-marked n next (chunk + len) end_idx c val (ground arith) hi
                  (ground (arith, split_low chunk)) hc,
              step,
            )
            (ground arith)
    ]

set_range-chunks :
    (l0 : Radix) (addr size : ℕ) (val : Bool)
    → 1 ≤ size
    → addr + size ≤ max_addr
    → set_range l0 addr size val
      ≡ set_chunks
          ((addr + size - 1) / 4096 + 1 - addr / 4096)
          l0
          (addr / 4096)
          ((addr + size - 1) / 4096)
          val
unfolding set_range checked_add
set_range-chunks l0 addr size val pos top =
    let last : ℕ = addr + (size - 1) in
    let same : addr + size - 1 ≡ last = omega arith in
    let small : ltb last (2 ^ 64) ≡ true = ground arith in
    let ok : (size == 0 || not (valid_user_addr addr)) ≡ false = ground arith in
    let ok_end : valid_user_addr last ≡ true = ground arith in
    rw (same, set_range, small, ok, ok_end)

-- For a size that is not 0 and an address with the size below 2 ^ 56: after `RadixTree::set_range`,
-- `is_owned` answers the value that was set for each address whose chunk of 4 KiB meets the range,
-- and what it answered before for every other address.
pub is_owned-set_range :
    (l0 : Radix) (addr size a : ℕ) (val : Bool)
    → 1 ≤ size
    → addr + size ≤ max_addr
    → a < max_addr
    → is_owned (some (set_range l0 addr size val)) a ≡ (
        if leb (addr / 4096) (a / 4096) && leb (a / 4096) ((addr + size - 1) / 4096)
        then some val
        else is_owned (some l0) a)
unfolding is_owned
is_owned-set_range l0 addr size a val pos top low =
    let end_idx : ℕ = (addr + size - 1) / 4096 in
    let n : ℕ = end_idx + 1 - addr / 4096 in
    let here : valid_user_addr a ≡ true = ground arith in
    let marks =
      set_chunks-marked n l0 (addr / 4096) end_idx (a / 4096) val (omega arith) (omega arith)
        (omega arith) (omega arith) in
    rw
      (
        set_range-chunks l0 addr size val pos top,
        here,
        get-marked (set_chunks n l0 (addr / 4096) end_idx val) (a / 4096),
        get-marked l0 (a / 4096),
        marks,
      )
      (ground arith)

-- For a chunk index below 2 ^ 44: after `set` of a chunk, `get` answers the value for that chunk, and
-- what it answered before for every other chunk.
pub get-set :
    (l0 : Radix) (chunk c : ℕ) (val : Bool)
    → chunk < max_chunks
    → get (set l0 chunk val) c ≡ (if chunk == c then val else get l0 c)
get-set l0 chunk c val h =
    rw (get-marked (set l0 chunk val) c, get-marked l0 c)
      (elim (Bool-cases (ltb c max_chunks)) [
        | inl here ↦
            let marks = set-marked l0 chunk c val h (ground arith) in rw marks (ground arith)
        | inr past ↦ ground arith
      ])

-- After `set_single_big` of a valid address, `is_owned` answers the value that was set for each
-- address in the same chunk of 4 KiB, and what it answered before for every other address.
pub is_owned-set_single_big :
    (l0 : Radix) (addr a : ℕ) (val : Bool)
    → addr < max_addr
    → a < max_addr
    → is_owned (some (set_single_big l0 addr val)) a
      ≡ (if addr / 4096 == a / 4096 then some val else is_owned (some l0) a)
unfolding is_owned set_single_big
is_owned-set_single_big l0 addr a val h low =
    let ok : valid_user_addr addr ≡ true = ground arith in
    let here : valid_user_addr a ≡ true = ground arith in
    rw (ok, here, get-set l0 (addr / 4096) (a / 4096) val (omega arith)) (ground arith)

-- In a tree without tables no address is owned.
pub is_owned-no_tables : (a : ℕ) → a < max_addr → is_owned (some λ i. none) a ≡ some false
unfolding is_owned get find_leaf
is_owned-no_tables a low =
    let here : valid_user_addr a ≡ true = ground arith in
    let ok : ltb (a / 4096) max_chunks ≡ true = ground arith in rw (here, ok) refl
