-- ===== src/Realloc.antt =====
-- `rs_realloc` of inner/realloc.rs, with `small_realloc` and the path of aligned pointers; `big_realloc` is
-- an argument, as are `rs_alloc`, `memalign_inner`, the growth in place of the page allocator and the
-- metadata in front of a page's blocks. The result holds what `rs_realloc` itself wrote and which blocks
-- it passed to `rs_free`; what `rs_alloc` and `rs_free` write is not in it.
pub mod Kept
pub mod Grown
mod Tests
use rsmalloc.Common.{
  ℕ, ◌+◌, ◌-◌, ◌%◌, ◌^◌, min, max, Bool, true, false, not, ◌&&◌, Option, none, some, List, [], ◌∷◌,
  update, ltb, leb, ◌==◌, if◌then◌else◌,
}
use rsmalloc.Word.{trailing_zeros}
use rsmalloc.Layout.{header_size, metadata_size}
use rsmalloc.SizeClass.{
  num_size_classes, class_size, match_size_class, iterations, align_to, block_size,
}
use rsmalloc.Bulk.{Header}
use rsmalloc.Bulk.Queue.{MetaData}
use rsmalloc.Front.{
  World, RsMallocError, memory_corruption, foreign_pointer, invalid_pointer, recovery_error,
  original_of, usable_size,
}

-- What `rs_realloc` calls.
pub record Calls : Type 0 where
  pub rs_alloc : ℕ → Option ℕ
  pub memalign_inner : (alignment size : ℕ) → Option ℕ
  pub metadata : ℕ → MetaData
  pub try_grow_inplace : (node_id base old_total new_total : ℕ) → Bool

-- What `rs_realloc` reads and writes: the bytes, the headers and the metadata by address, the ranges that
-- it set as owned in the radix tree, and the pointers that it freed, the last one first.
pub record Store : Type 0 where
  pub bytes : ℕ → ℕ
  pub headers : ℕ → Header
  pub metadata : ℕ → MetaData
  pub published : List (ℕ × ℕ)
  pub freed : List ℕ

-- The store before the call.
abbrev pub before : World → Calls → (ℕ → ℕ) → Store
before w c bytes = record {
  bytes = bytes;
  headers = w.headers;
  metadata = c.metadata;
  published = [];
  freed = [];
}

-- The results: a pointer, or `none` for null, with the store; an abort; the panic on a class that does
-- not exist.
pub data Reallocated : Type 0 where
  returned : Option ℕ → Store → Reallocated
  abort : RsMallocError → Reallocated
  panic : Reallocated

-- `copy_nonoverlapping`
abbrev pub copied : (source target len : ℕ) → (ℕ → ℕ) → ℕ → ℕ
copied source target len bytes a =
    if leb target a && ltb a (target + len) then bytes (source + (a - target)) else bytes a

-- The copy to a new block, and `rs_free` of the old one.
abbrev pub move_to : Option ℕ → (ptr len : ℕ) → Store → Reallocated
move_to none ptr len s = returned none s
move_to (some new) ptr len s =
    returned (some new) (record s { bytes = copied ptr new len s.bytes; freed = ptr ∷ s.freed })

-- The test and the call for growth in place, for two classes with one block for each mapping.
abbrev pub grows_inplace : Calls → Store → (header old_class new_class : ℕ) → Bool
grows_inplace c s header old_class new_class =
    let mapping_base = header - metadata_size in
    let metadata = s.metadata mapping_base in
    let old_total = metadata_size + block_size (class_size old_class) in
    let new_logical_total = metadata_size + block_size (class_size new_class) in
    (iterations old_class == 1)
    && (iterations new_class == 1)
    && (mapping_base % 4096 == 0)
    && (metadata.start == mapping_base)
    && not (metadata.node_id == 2 ^ 16 - 1)
    && (header == mapping_base + metadata_size)
    && c.try_grow_inplace metadata.node_id mapping_base (align_to old_total 4096)
        (align_to new_logical_total 4096)

-- The writes after a growth in place: the metadata, the range in the radix tree, and the header.
abbrev pub grow_inplace : Store → (ptr new_class : ℕ) → Store
grow_inplace s ptr new_class =
    let header = ptr - header_size in
    let mapping_base = header - metadata_size in
    let new_logical_total = metadata_size + block_size (class_size new_class) in
    let end = mapping_base + new_logical_total in
    record s {
      metadata =
          update s.metadata mapping_base
            (record (s.metadata mapping_base) { end = end; next = end });
      published = (mapping_base, align_to new_logical_total 4096) ∷ s.published;
      headers = update s.headers header (record (s.headers header) { class = new_class });
    }

-- `small_realloc` of a size over the payload's, with the class of the size.
abbrev pub small_grow :
    Calls → (ptr old_class new_size : ℕ) → (new_class : Option ℕ) → Store → Reallocated
small_grow c ptr old_class new_size none s =
    move_to (c.rs_alloc new_size) ptr (min (class_size old_class) new_size) s
small_grow c ptr old_class new_size (some new_class) s =
    if old_class == new_class
    then returned (some ptr) s
    else if grows_inplace c s (ptr - header_size) old_class new_class
    then returned (some ptr) (grow_inplace s ptr new_class)
    else move_to (c.rs_alloc new_size) ptr (min (class_size old_class) new_size) s

-- `small_realloc`
unfoldable pub small_realloc : Calls → (ptr new_size : ℕ) → Store → Reallocated
small_realloc c ptr new_size s =
    let old_class = (s.headers (ptr - header_size)).class in
    if not (ltb old_class num_size_classes)
    then panic
    else if leb new_size (class_size old_class)
    then returned (some ptr) s
    else small_grow c ptr old_class new_size (match_size_class new_size) s

abbrev pub observed_alignment : ℕ → ℕ
observed_alignment addr = 2 ^ trailing_zeros addr

-- Where `usable_size` of a pointer with its block has no result: `MemoryCorruption` for a large block
-- without metadata, else the panic on its class.
abbrev pub usable_failure : World → (searched : ℕ) → Reallocated
usable_failure w searched =
    if (w.headers (searched - header_size)).magic == w.magics.big_magic
    then abort memory_corruption
    else panic

-- The path of a pointer inside a block, with its usable size.
abbrev pub aligned_realloc :
    Calls → (ptr new_size : ℕ) → (failure : Reallocated) → Option ℕ → Store → Reallocated
aligned_realloc c ptr new_size failure none s = failure
aligned_realloc c ptr new_size failure (some old_usable) s =
    if leb new_size old_usable
    then returned (some ptr) s
    else move_to (c.memalign_inner (observed_alignment ptr) new_size) ptr (min old_usable new_size)
        s

abbrev pub realloc_searched :
    World
    → Calls
    → (big_realloc : (ptr new_size : ℕ) → Reallocated) → (ptr new_size : ℕ) → Option ℕ
    → Store
    → Reallocated
realloc_searched w c big_realloc ptr new_size none s = abort (recovery_error w ptr)
realloc_searched w c big_realloc ptr new_size (some searched) s =
    if not (searched == ptr)
    then aligned_realloc c ptr new_size (usable_failure w searched) (usable_size w ptr) s
    else if (w.headers (searched - header_size)).magic == w.magics.big_magic
    then big_realloc searched new_size
    else small_realloc c searched new_size s

abbrev pub realloc_checked :
    World
    → Calls
    → (big_realloc : (ptr new_size : ℕ) → Reallocated) → (ptr new_size : ℕ) → Option Bool
    → Store
    → Reallocated
realloc_checked w c big_realloc ptr new_size none s = abort invalid_pointer
realloc_checked w c big_realloc ptr new_size (some false) s =
    if w.foreign_pointer_abort then abort foreign_pointer else returned none s
realloc_checked w c big_realloc ptr new_size (some true) s =
    realloc_searched w c big_realloc ptr new_size (original_of w ptr) s

-- `rs_realloc`, with the bytes in memory
unfoldable pub rs_realloc :
    World
    → Calls
    → (big_realloc : (ptr new_size : ℕ) → Reallocated) → (ptr new_size : ℕ) → (ℕ → ℕ)
    → Reallocated
rs_realloc w c big_realloc ptr new_size bytes =
    let s = before w c bytes in
    if ptr == 0
    then returned (c.rs_alloc (max new_size 1)) s
    else if new_size == 0
    then returned none (record s { freed = ptr ∷ s.freed })
    else realloc_checked w c big_realloc ptr new_size (w.is_owned ptr) s
