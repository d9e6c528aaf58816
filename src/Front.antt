-- ===== src/Front.antt =====
-- The functions behind `malloc`, `free` and `calloc`: `rs_free` of inner/free.rs, `usable_size` of
-- inner/alloc.rs and `rs_calloc` of inner/calloc.rs, and `init_magic` of core_prim/random.rs. The build
-- is the default one, without the `preload` feature. What they call is an argument or stands in the result.
pub mod Drawn
pub mod Freed
pub mod Placed
pub mod Zeroed
mod Tests
use rsmalloc.Common.{
  ℕ, zero, suc, ◌+◌, ◌-◌, ◌*◌, ◌^◌, ◌<◌, ◌≤◌, min, max, Bool, true, false, not, ◌||◌, ◌&&◌, Option,
  none, some, List, [], ◌∷◌, ◌>>=◌, update, ltb, leb, ◌==◌, if◌then◌else◌,
}
use rsmalloc.Word.{checked_mul}
use rsmalloc.Layout.{header_size}
use rsmalloc.SizeClass.{num_size_classes, class_size, match_size_class}
use rsmalloc.Rbtree.{BigAllocMeta}
use rsmalloc.Align.{Memory, offset_size, find_original_ptr}
use rsmalloc.Bulk.{Header}
use rsmalloc.Large.{allocated_flag, trimmed_flag}

-- `MAGIC`, `FREED_MAGIC` and `BIG_MAGIC`
pub record Magics : Type 0 where
  pub magic : ℕ
  pub freed_magic : ℕ
  pub big_magic : ℕ

abbrev draw : List ℕ → Option (ℕ × List ℕ)
draw [] = none
draw (value ∷ draws) = some (value, draws)

-- A drawn value, and the next ones while it is taken.
unfoldable pub redraw : (taken : ℕ → Bool) → ℕ → List ℕ → Option (ℕ × List ℕ)
redraw taken value [] = if taken value then none else some (value, [])
redraw taken value (next ∷ draws) =
    let later = redraw taken next draws in if taken value then later else some (value, next ∷ draws)

-- `init_magic` on the values of `getrandom`; `none` while there are too few.
unfoldable pub init_magic : List ℕ → Option Magics
init_magic (main ∷ freed ∷ big ∷ draws) = do
  (freed', draws') ← redraw (λ v. v == main) freed draws
  (big', draws'') ← redraw (λ v. (v == freed') || (v == main)) big draws'
  some (record { magic = main; freed_magic = freed'; big_magic = big' })
init_magic draws = none

-- What the functions read: the magic values, `ALIGN_TAG`, `CURRENT_STAMP`, `FOREIGN_POINTER_ABORT`,
-- `RADIX.is_owned` with its abort, the words before payloads, the headers, and `BIG_META_MAP.get`.
pub record World : Type 0 where
  pub magics : Magics
  pub align_tag : ℕ
  pub current_stamp : ℕ
  pub foreign_pointer_abort : Bool
  pub is_owned : ℕ → Option Bool
  pub words : Memory
  pub headers : ℕ → Header
  pub big_meta : ℕ → Option BigAllocMeta

pub data RsMallocError : Type 0 where
  double_free : RsMallocError
  memory_corruption : RsMallocError
  attack_or_corruption : RsMallocError
  foreign_pointer : RsMallocError
  invalid_pointer : RsMallocError

-- What `rs_free` does: nothing, `SLAB_CACHE.push` with the headers before it, `big_free`, or an abort.
pub data Outcome : Type 0 where
  nothing : Outcome
  push : (class header : ℕ) → (ℕ → Header) → Outcome
  big_free : (ptr : ℕ) → Outcome
  abort : RsMallocError → Outcome

abbrev pub holds : Option Bool → Bool
holds none = false
holds (some b) = b

-- `find_original_ptr` of a world; `none` is its abort, which `recovery_error` tells
abbrev pub original_of : World → ℕ → Option ℕ
original_of w ptr = find_original_ptr (λ a. holds (w.is_owned a)) w.align_tag w.words ptr

-- The part of `rs_free` that reads the header of the block.
abbrev pub free_block : World → (searched : ℕ) → Outcome
free_block w searched =
    let header = searched - header_size in
    let h = w.headers header in
    let freed = record h { life_time = w.current_stamp; magic = w.magics.freed_magic } in
    if h.magic == w.magics.magic
    then push h.class header (update w.headers header freed)
    else if h.magic == w.magics.big_magic
    then big_free searched
    else if h.magic == w.magics.freed_magic
    then abort double_free
    else abort attack_or_corruption

-- The abort of `find_original_ptr`: the one of `RADIX.is_owned` on the recovered address, or its own.
abbrev pub unverified : Option Bool → RsMallocError
unverified none = invalid_pointer
unverified (some b) = attack_or_corruption

abbrev pub recovery_error : World → (ptr : ℕ) → RsMallocError
recovery_error w ptr = unverified (w.is_owned (w.words (ptr - offset_size)))

abbrev pub free_searched : World → (ptr : ℕ) → Option ℕ → Outcome
free_searched w ptr none = abort (recovery_error w ptr)
free_searched w ptr (some searched) = free_block w searched

abbrev pub free_checked : World → (ptr : ℕ) → Option Bool → Outcome
free_checked w ptr none = abort invalid_pointer
free_checked w ptr (some false) = if w.foreign_pointer_abort then abort foreign_pointer else nothing
free_checked w ptr (some true) = free_searched w ptr (original_of w ptr)

-- `rs_free`
unfoldable pub rs_free : World → (ptr : ℕ) → Outcome
rs_free w ptr = if ptr == 0 then nothing else free_checked w ptr (w.is_owned ptr)

-- `usable_size` of an owned pointer with its block; `none` is an abort, or the panic on a class that does
-- not exist
abbrev pub usable_big : Option BigAllocMeta → (offset : ℕ) → Option ℕ
usable_big none offset = none
usable_big (some meta) offset = some (meta.size - offset)

abbrev pub usable_class : (class offset : ℕ) → Option ℕ
usable_class class offset =
    if ltb class num_size_classes then some (class_size class - offset) else none

abbrev pub usable_block : World → (ptr : ℕ) → Option ℕ → Option ℕ
usable_block w ptr none = none
usable_block w ptr (some original) =
    let offset = ptr - original in
    let h = w.headers (original - header_size) in
    if h.magic == w.magics.big_magic
    then usable_big (w.big_meta original) offset
    else usable_class h.class offset

abbrev pub usable_checked : World → (ptr : ℕ) → Option Bool → Option ℕ
usable_checked w ptr none = none
usable_checked w ptr (some false) = some 0
usable_checked w ptr (some true) = usable_block w ptr (original_of w ptr)

-- `usable_size`
unfoldable pub usable_size : World → (ptr : ℕ) → Option ℕ
usable_size w ptr = usable_checked w ptr (w.is_owned ptr)

-- A block of `rs_alloc`: its payload, the flags of its header, and its size in `BIG_META_MAP`.
pub record Given : Type 0 where
  pub ptr : ℕ
  pub flags : ℕ
  pub big_size : Option ℕ

-- What `rs_calloc` does: null, an abort, or a pointer and the bytes in memory.
pub data Callocated : Type 0 where
  null : Callocated
  abort : RsMallocError → Callocated
  callocated : (ptr : ℕ) → (bytes : ℕ → ℕ) → Callocated

-- `zero`
abbrev pub zeroed : (pointer len : ℕ) → (ℕ → ℕ) → ℕ → ℕ
zeroed pointer len bytes a = if leb pointer a && ltb a (pointer + len) then 0 else bytes a

-- `calloc_zero!`
abbrev pub calloc_zero : Given → (actual_size effective_size : ℕ) → (ℕ → ℕ) → ℕ → ℕ
calloc_zero g actual_size effective_size bytes =
    if (g.flags == allocated_flag) || (g.flags == trimmed_flag)
    then zeroed g.ptr (min actual_size effective_size) bytes
    else bytes

-- The size of the block: of its class, or else from `BIG_META_MAP`.
abbrev pub actual_size_of : Option ℕ → Given → Option ℕ
actual_size_of (some class) g = some (class_size class)
actual_size_of none g = g.big_size

abbrev pub finish_calloc : Given → (effective_size : ℕ) → Option ℕ → (ℕ → ℕ) → Callocated
finish_calloc g effective_size none bytes = abort attack_or_corruption
finish_calloc g effective_size (some actual_size) bytes =
    callocated g.ptr (calloc_zero g actual_size effective_size bytes)

-- `rs_calloc` after `calc_and_get`
abbrev pub calloc_given : Option Given → (effective_size : ℕ) → (ℕ → ℕ) → Callocated
calloc_given none effective_size bytes = null
calloc_given (some g) effective_size bytes =
    finish_calloc g effective_size (actual_size_of (match_size_class effective_size) g) bytes

abbrev pub calloc_total : (rs_alloc : ℕ → Option Given) → Option ℕ → (ℕ → ℕ) → Callocated
calloc_total rs_alloc none bytes = null
calloc_total rs_alloc (some total_size) bytes =
    let effective_size = max total_size 1 in
    calloc_given (rs_alloc effective_size) effective_size bytes

-- `rs_calloc`; `Layout::array` fails over `isize::MAX`
unfoldable pub rs_calloc :
    (rs_alloc : ℕ → Option Given) → (size zero_size : ℕ) → (bytes : ℕ → ℕ) → Callocated
rs_calloc rs_alloc size zero_size bytes =
    if ltb size (2 ^ 63) then calloc_total rs_alloc (checked_mul zero_size size) bytes else null
