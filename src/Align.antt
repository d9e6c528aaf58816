-- ===== src/Align.antt =====
-- inner/align.rs and `find_original_ptr` of inner/free.rs: an aligned address inside a block, and the
-- way back to the block. Memory is read and written in words of 8 bytes, by address; `rs_alloc` is an
-- argument, null is `none`; `tag` is `ALIGN_TAG` and `owned` is `RADIX.is_owned`.
pub mod Placed
mod Tests
use rsmalloc.Common.{
  ℕ, ◌+◌, ◌-◌, ◌%◌, ◌^◌, max, bit_and, Bool, not, ◌||◌, Option, none, some, ltb, ◌==◌, ◌>>=◌,
  update, if◌then◌else◌,
}
use rsmalloc.Word.{checked_add, saturating_add, is_power_of_two}
use rsmalloc.Layout.{usize_mod}

abbrev pub Memory : Type 0
Memory = ℕ → ℕ

-- `OFFSET_SIZE` and `TAG_SIZE`
abbrev pub offset_size : ℕ
offset_size = 8

abbrev pub tag_size : ℕ
tag_size = 16

-- The results of `posix_align_inner`: `EINVAL`, `ENOMEM`, or the address and the memory.
pub data Aligned : Type 0 where
  invalid : Aligned
  no_memory : Aligned
  placed : ℕ → Memory → Aligned

-- The address, tagged, with the block's address behind the tag.
pub place : (tag raw alignment : ℕ) → Memory → Aligned
place tag raw alignment mem =
    let start_search = saturating_add raw tag_size in
    let al = alignment - 1 in
    let aligned = bit_and ((start_search + al) % usize_mod) (usize_mod - 1 - al) in
    placed aligned (update (update mem (aligned - tag_size) tag) (aligned - offset_size) raw)

-- `posix_align_inner`
pub posix_align_inner :
    (rs_alloc : ℕ → Option ℕ) (tag : ℕ) → Memory → (memptr alignment size : ℕ) → Aligned
posix_align_inner rs_alloc tag mem memptr alignment size =
    if memptr == 0
    then invalid
    else if ltb alignment 8 || not (is_power_of_two alignment)
    then invalid
    else elim (checked_add size alignment >>= λ v. checked_add v tag_size) [
      | none ↦ no_memory
      | some total_requested ↦ elim (rs_alloc total_requested) [
        | none ↦ no_memory
        | some raw ↦ place tag raw alignment mem
      ]
    ]

-- `memalign_inner`; the address of its local `ptr` is not null, say 8
pub memalign_inner : (rs_alloc : ℕ → Option ℕ) (tag : ℕ) → Memory → (alignment size : ℕ) → Aligned
memalign_inner rs_alloc tag mem alignment size =
    let adjusted_alignment = max alignment 8 in
    if not (is_power_of_two adjusted_alignment)
    then invalid
    else posix_align_inner rs_alloc tag mem 8 adjusted_alignment size

-- `find_original_ptr`; `none` is the abort on a base that is not owned
unfoldable pub find_original_ptr : (owned : ℕ → Bool) (tag : ℕ) → Memory → ℕ → Option ℕ
find_original_ptr owned tag mem ptr =
    let original = mem (ptr - offset_size) in
    if mem (ptr - tag_size) == tag then if owned original then some original else none else some ptr
