-- ===== src/Pages.antt =====
-- backend/page_allocator.rs: per node, arenas of pages that are handed out from the front. The doubly
-- linked list of arenas is a list, the head first, each arena with the address of its header; the
-- pointer `current` is the address of one, `none` where it is null. `arena_size` is `ARENA_SIZE`, and
-- the answer of the one `mmap` that an allocation can make is an argument, `none` for an error.
pub mod Bump
pub mod Serve
pub mod Alloc
pub mod Grow
pub mod Nodes
mod Tests
use rsmalloc.Common.{
  ℕ, zero, suc, ◌+◌, ◌-◌, ◌*◌, ◌/◌, ◌%◌, ◌^◌, min, max, Bool, true, false, not, ◌&&◌, ◌||◌, Option,
  none, some, List, [], ◌∷◌, ltb, leb, ◌==◌, ◌>>=◌, update, if◌then◌else◌,
}
use rsmalloc.Word.{checked_add}
use rsmalloc.Layout.{page_size}
use rsmalloc.SizeClass.{align_to, min_refill_bytes}

-- `struct PageArena`, with the address of the header
pub record PageArena : Type 0 where
  pub addr : ℕ
  pub base : ℕ
  pub limit : ℕ
  pub current : ℕ

-- `struct NodeArenaState`
pub record NodeArenaState : Type 0 where
  pub current : Option ℕ
  pub arenas : List PageArena

-- The arena at an address, and the list with it replaced or taken out.
pub arena_at : ℕ → List PageArena → Option PageArena
arena_at addr [] = none
arena_at addr (a ∷ rest) = if a.addr == addr then some a else arena_at addr rest

pub put_arena : ℕ → PageArena → List PageArena → List PageArena
put_arena addr b [] = []
put_arena addr b (a ∷ rest) = if a.addr == addr then b ∷ rest else a ∷ put_arena addr b rest

pub drop_arena : ℕ → List PageArena → List PageArena
drop_arena addr [] = []
drop_arena addr (a ∷ rest) = if a.addr == addr then rest else a ∷ drop_arena addr rest

head_addr : List PageArena → Option ℕ
head_addr [] = none
head_addr (a ∷ rest) = some a.addr

-- The `next` of the arena at an address.
next_of : ℕ → List PageArena → Option ℕ
next_of addr [] = none
next_of addr (a ∷ rest) = if a.addr == addr then head_addr rest else next_of addr rest

abbrev is_current : Option ℕ → ℕ → Bool
is_current none addr = false
is_current (some c) addr = c == addr

-- `remove_arena`
pub remove_arena : NodeArenaState → ℕ → NodeArenaState
remove_arena s addr = record {
  current = if is_current s.current addr then next_of addr s.arenas else s.current;
  arenas = drop_arena addr s.arenas;
}

-- The arena with `size` more bytes handed out, if they fit.
pub bump : PageArena → ℕ → Option PageArena
bump a size = do
  next ← checked_add a.current size
  if ltb a.limit next then none else some (record a { current = next })

-- An arena that has no room left for the smallest refill is removed.
pub retire : NodeArenaState → PageArena → NodeArenaState
retire s a = if ltb (a.limit - a.current) min_refill_bytes then remove_arena s a.addr else s

-- `allocate_current`
pub allocate_current : NodeArenaState → ℕ → Option ℕ × NodeArenaState
allocate_current s size = elim s.current [
  | none ↦ (none, s)
  | some addr ↦ elim (arena_at addr s.arenas) [
    | none ↦ (none, s)
    | some a ↦ elim (bump a size) [
      | none ↦ (none, s)
      | some b ↦ (some a.current, retire (record s { arenas = put_arena addr b s.arenas }) b)
    ]
  ]
]

-- The arena that served, before and after, and the list after.
abbrev pub Found : Type 0
Found = PageArena × PageArena × List PageArena

-- The same behind one more arena.
abbrev pub behind : PageArena → Found → Option Found
behind a (old, b, rest) = some (old, b, a ∷ rest)

-- The walk of `allocate_search`.
pub search_arenas : Option ℕ → ℕ → List PageArena → Option Found
search_arenas current size [] = none
search_arenas current size (a ∷ rest) =
    let later = search_arenas current size rest >>= behind a in
    if is_current current a.addr
    then later
    else elim (bump a size) [ none ↦ later | some b ↦ some (a, b, b ∷ rest) ]

-- `allocate_search`
pub allocate_search : NodeArenaState → ℕ → Option ℕ × NodeArenaState
allocate_search s size = elim (search_arenas s.current size s.arenas) [
  | none ↦ (none, s)
  | some (old, b, arenas) ↦ (some old.current, retire (record s { arenas = arenas }) b)
]

-- `align_to(size_of::<PageArena>(), PAGE_SIZE)`
abbrev pub header_bytes : ℕ
header_bytes = 4096

pub data_bytes : (arena_size requested : ℕ) → ℕ
data_bytes arena_size requested = align_to (max requested arena_size) page_size

-- `new_arena_locked`; `none` is its failure
pub new_arena_locked :
    (arena_size : ℕ) → Option ℕ → NodeArenaState → (requested : ℕ) → Option NodeArenaState
new_arena_locked arena_size answer s requested = do
  map_size ← checked_add header_bytes (data_bytes arena_size requested)
  mem ← answer
  limit ← checked_add (mem + header_bytes) (data_bytes arena_size requested)
  some (record {
    current = some mem;
    arenas =
        record {
          addr = mem;
          base = mem + header_bytes;
          limit = limit;
          current = mem + header_bytes;
        }
        ∷ s.arenas;
  })

-- `alloc` on the state of the node that it locks: a size that is aligned first
pub alloc_locked : (arena_size : ℕ) → Option ℕ → NodeArenaState → ℕ → Option ℕ × NodeArenaState
alloc_locked arena_size answer s requested =
    let size = align_to (max requested 1) page_size in
    let (first, s1) = allocate_current s size in
    let (second, s2) = allocate_search s size in
    elim first [
      | some ptr ↦ (some ptr, s1)
      | none ↦ elim second [
        | some ptr ↦ (some ptr, s2)
        | none ↦ elim (new_arena_locked arena_size answer s size) [
          | none ↦ (none, s)
          | some s3 ↦ allocate_current s3 size
        ]
      ]
    ]

-- The arena with the block at the address grown: it is the block handed out last, and it fits.
abbrev grow_to : PageArena → (addr old_end new_end : ℕ) → Option PageArena
grow_to a addr old_end new_end =
    if not ((addr - a.base) % page_size == 0) || not (old_end == a.current) || ltb a.limit new_end
    then none
    else some (record a { current = new_end })

pub grow_arena : PageArena → (addr old_size new_size : ℕ) → Option PageArena
grow_arena a addr old_size new_size = do
  old_end ← checked_add addr old_size
  new_end ← checked_add addr new_size
  grow_to a addr old_end new_end

-- The first arena that holds the address, grown; the list after.
pub grow_in : (addr old_size new_size : ℕ) → List PageArena → Option (PageArena × List PageArena)
grow_in addr old_size new_size [] = none
grow_in addr old_size new_size (a ∷ rest) =
    let later = grow_in addr old_size new_size rest >>= λ (b, rest'). some (b, a ∷ rest') in
    let here = grow_arena a addr old_size new_size >>= λ b. some (b, b ∷ rest) in
    if leb a.base addr && ltb addr a.limit then here else later

-- `try_grow_inplace` on the state of the node that it locks, with the sizes aligned
pub grow_locked : NodeArenaState → (addr old_size new_size : ℕ) → Bool × NodeArenaState
grow_locked s addr old_size new_size = elim (grow_in addr old_size new_size s.arenas) [
  | none ↦ (false, s)
  | some (b, arenas) ↦ (true, retire (record s { arenas = arenas }) b)
]

-- The number of the node whose arenas serve a node id, among `node_count`.
abbrev pub node_index : (node_id node_count : ℕ) → ℕ
node_index node_id node_count = if leb node_count node_id then 0 else node_id

-- `PageAllocator::alloc`, over the states of the nodes
pub alloc :
    (arena_size : ℕ)
    → Option ℕ
    → (ℕ → NodeArenaState)
    → (node_count node_id size : ℕ) → Option ℕ × (ℕ → NodeArenaState)
alloc arena_size answer nodes node_count node_id size =
    let node = node_index node_id node_count in
    let (ptr, s) = alloc_locked arena_size answer (nodes node) size in
    if node_count == 0 then (none, nodes) else (ptr, update nodes node s)

-- `PageAllocator::try_grow_inplace`
pub try_grow_inplace :
    (ℕ → NodeArenaState)
    → (node_count node_id ptr old_size new_size : ℕ) → Bool × (ℕ → NodeArenaState)
try_grow_inplace nodes node_count node_id ptr old_size new_size =
    let node = node_index node_id node_count in
    let new' = align_to (max new_size 1) page_size in
    let old' = align_to (max old_size 1) page_size in
    let (grown, s) = grow_locked (nodes node) ptr old' new' in
    if ptr == 0 || leb new_size old_size
    then (false, nodes)
    else if leb new' old'
    then (true, nodes)
    else if node_count == 0
    then (false, nodes)
    else (grown, update nodes node s)
