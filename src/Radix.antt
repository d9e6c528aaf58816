-- ===== src/Radix.antt =====
-- radix_tree.rs: which chunks of 4 KiB belong to the allocator, in three levels of tables over leaves
-- of 64 words. A table is the function of its entries, an entry that is null is `none`; a node comes
-- zeroed from `mmap`. One writer runs at a time, so each compare-exchange of `get_or_alloc` succeeds.
pub mod Leaf
pub mod Path
pub mod Range
mod Tests
use rsmalloc.Common.{
  ℕ, zero, suc, ◌+◌, ◌-◌, ◌*◌, ◌/◌, ◌%◌, ◌^◌, min, bit_and, bit_or, Bool, true, false, not, ◌||◌,
  Option, none, some, ltb, ◌==◌, ◌>>=◌, update, if◌then◌else◌,
}
use rsmalloc.Word.{checked_add}

abbrev pub chunk_size : ℕ
chunk_size = 4096

abbrev pub l3_size : ℕ
l3_size = 4096

abbrev pub word_bits : ℕ
word_bits = 64

abbrev pub max_addr : ℕ
max_addr = 2 ^ 56

-- `RADIX_MAX_CHUNKS`
abbrev pub max_chunks : ℕ
max_chunks = 2 ^ 44

abbrev pub Leaf : Type 0
Leaf = ℕ → ℕ

abbrev pub Table : Type 0 → Type 0
Table A = ℕ → Option A

-- `Radix`, the memory behind `l0`
abbrev pub Radix : Type 0
Radix = Table (Table (Table Leaf))

abbrev pub zero_leaf : Leaf
zero_leaf word = 0

abbrev pub zero_table : {A : Type 0} → Table A
zero_table i = none

-- `split`
pub split : ℕ → ℕ × ℕ × ℕ × ℕ
split idx = (
  bit_and (idx / 2 ^ 36) (2 ^ 8 - 1),
  bit_and (idx / 2 ^ 24) (2 ^ 12 - 1),
  bit_and (idx / 2 ^ 12) (2 ^ 12 - 1),
  bit_and idx (2 ^ 12 - 1),
)

-- `get_or_alloc` and `get_or_alloc_l3`: the node of an entry, or the new one
pub get_or_alloc : {A : Type 0} → Table A → ℕ → A → A
get_or_alloc table i fresh = elim (table i) [ none ↦ fresh | some node ↦ node ]

-- The leaf on a path is changed; the nodes on the path are made where they are missing.
pub with_leaf : Radix → (i0 i1 i2 : ℕ) → (Leaf → Leaf) → Radix
with_leaf l0 i0 i1 i2 f =
    let l1 = get_or_alloc l0 i0 zero_table in
    let l2 = get_or_alloc l1 i1 zero_table in
    let l3 = get_or_alloc l2 i2 zero_leaf in
    update l0 i0 (some (update l1 i1 (some (update l2 i2 (some (f l3))))))

-- `fetch_or(mask)` or `fetch_and(!mask)`
abbrev pub write_mask : ℕ → ℕ → Bool → ℕ
write_mask word mask val = if val then bit_or word mask else bit_and word (2 ^ 64 - 1 - mask)

-- `set`
pub set : Radix → ℕ → Bool → Radix
set l0 chunk_idx val =
    let (i0, i1, i2, i3) = split chunk_idx in
    let word_idx = i3 / word_bits in
    let mask = 2 ^ (i3 % word_bits) in
    if ltb chunk_idx max_chunks
    then with_leaf l0 i0 i1 i2 (λ l3. update l3 word_idx (write_mask (l3 word_idx) mask val))
    else l0

-- The mask of a word of a run of bits from `i3` to `leaf_end`.
pub range_mask : (i3 leaf_end word_idx : ℕ) → ℕ
range_mask i3 leaf_end word_idx =
    let first_bit = if word_idx == i3 / word_bits then i3 % word_bits else 0 in
    let last_bit =
      if word_idx == leaf_end / word_bits then leaf_end % word_bits else word_bits - 1 in
    let low_mask = 2 ^ 64 - 2 ^ first_bit in
    let high_mask = if last_bit == word_bits - 1 then 2 ^ 64 - 1 else 2 ^ (last_bit + 1) - 1 in
    bit_and low_mask high_mask

-- `for word_idx in first_word..=last_word`: `n` words from `word_idx` on.
pub write_words : ℕ → Leaf → (i3 leaf_end word_idx : ℕ) → Bool → Leaf
write_words zero l3 i3 leaf_end word_idx val = l3
write_words (suc n) l3 i3 leaf_end word_idx val =
    write_words n
      (update l3 word_idx (write_mask (l3 word_idx) (range_mask i3 leaf_end word_idx) val)) i3
      leaf_end (word_idx + 1) val

-- The loop of `Radix::set_range`, at most `n` leaves; each round takes at least one chunk.
pub set_chunks : ℕ → Radix → (chunk_idx end_idx : ℕ) → Bool → Radix
set_chunks zero l0 chunk_idx end_idx val = l0
set_chunks (suc n) l0 chunk_idx end_idx val =
    let (i0, i1, i2, i3) = split chunk_idx in
    let chunks_left_in_leaf = l3_size - i3 in
    let chunks_left_in_range = end_idx - chunk_idx + 1 in
    let chunks_in_leaf = min chunks_left_in_leaf chunks_left_in_range in
    let leaf_end = i3 + chunks_in_leaf - 1 in
    let first_word = i3 / word_bits in
    let last_word = leaf_end / word_bits in
    let marked =
      with_leaf l0 i0 i1 i2
        (λ l3. write_words (last_word + 1 - first_word) l3 i3 leaf_end first_word val) in
    let rest = set_chunks n marked (chunk_idx + chunks_in_leaf) end_idx val in
    if chunks_in_leaf == chunks_left_in_range then marked else rest

-- The leaf on a path, with the null checks of `get`.
pub find_leaf : Radix → (i0 i1 i2 : ℕ) → Option Leaf
find_leaf l0 i0 i1 i2 = do l1 ← l0 i0; l2 ← l1 i1; l2 i2

-- `get`
pub get : Radix → ℕ → Bool
get l0 chunk_idx =
    let (i0, i1, i2, i3) = split chunk_idx in
    let mask = 2 ^ (i3 % word_bits) in
    if ltb chunk_idx max_chunks
    then elim (find_leaf l0 i0 i1 i2) [
      | none ↦ false
      | some l3 ↦ not (bit_and (l3 (i3 / word_bits)) mask == 0)
    ]
    else false

-- `valid_user_addr`
abbrev pub valid_user_addr : ℕ → Bool
valid_user_addr addr = ltb addr max_addr

-- `RadixTree::set_range`. Enough rounds: one for each chunk.
pub set_range : Radix → (addr size : ℕ) → Bool → Radix
set_range l0 addr size val =
    let start_idx = addr / chunk_size in
    elim (checked_add addr (size - 1)) [
      | none ↦ l0
      | some end_addr ↦
          let end_idx = end_addr / chunk_size in
          let done = set_chunks (end_idx + 1 - start_idx) l0 start_idx end_idx val in
          if size == 0 || not (valid_user_addr addr)
          then l0
          else if valid_user_addr end_addr
          then done
          else l0
    ]

-- `set_single_big`
pub set_single_big : Radix → ℕ → Bool → Radix
set_single_big l0 addr val = if valid_user_addr addr then set l0 (addr / chunk_size) val else l0

-- `is_owned`, on a tree that may not be made yet; `none` is the abort on an invalid address
pub is_owned : Option Radix → ℕ → Option Bool
is_owned none addr = some false
is_owned (some l0) addr = if valid_user_addr addr then some (get l0 (addr / chunk_size)) else none
