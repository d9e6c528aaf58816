-- ===== src/Large/Mapped.antt =====
-- A large block in a mapping of its own: big_allocations/big_allocation.rs without the buddy backend.
use rsmalloc.Common.{
  ℕ, ◌+◌, ◌-◌, ◌/◌, ◌%◌, ◌^◌, ◌≤◌, ◌<◌, ◌≡◌, refl, ap, sym, Bool, true, false, ◌&&◌, Option, none,
  some, ◌∷◌, update, ltb, leb, ◌==◌, if◌then◌else◌, if_cases, arith,
}
use rsmalloc.Layout.{header_size}
use rsmalloc.Radix.{Radix, max_addr, set_range, set_single_big, is_owned}
use rsmalloc.Radix.Range.{is_owned-set_range, is_owned-set_single_big}
use rsmalloc.Rbtree.{BigAllocMeta}
use rsmalloc.Rbtree.Shows.{Shows}
use rsmalloc.Rbtree.Refine.{Gives}
use rsmalloc.Large.{
  Config, Globals, Memory, two_mb, zero_flag, estimate_and_align_2mb, buddy_memory, register,
  meta_for, publish, big_malloc_total, big_malloc, release, big_free,
}
use rsmalloc.Large.Rounded.{estimate_and_align_2mb-Rounded}
use rsmalloc.Large.Grants.{published, publish-Shows, big_free-Shows}

-- The memory of an own mapping.
abbrev pub own_mapping : (pointer total : ℕ) → Memory
own_mapping pointer total = record {
  actual_ptr = pointer;
  mapped_total = total;
  buddy_region = 0;
  registered = false;
  flag = zero_flag;
}

-- `big_free` of the radix tree's marks.
abbrev pub disown : (base total : ℕ) → Bool → Radix → Radix
disown base total aligned radix =
    if aligned then set_range radix base total false else set_single_big radix base false

-- Whole pages below the top of the addresses.
record Pages (base total : ℕ) : Type 0 where
  pub some_page : 4096 ≤ total
  pub base_page : base % 4096 ≡ 0
  pub total_page : total % 4096 ≡ 0
  pub top : base + total ≤ max_addr

overwritten :
    (b : Bool) (old : Option Bool)
    → (b ≡ true → old ≡ some false)
    → (if b then some false else if b then some true else old) ≡ old
overwritten b old h =
    if_cases (λ o. o ≡ old) b (some false) (if b then some true else old) (λ e. sym (h e))
      (λ e. rw e refl)

module _ (base total : ℕ) (radix : Radix) (p : Pages base total) where
  -- The page of the pointer is owned, and every page if the block is aligned.
  own_page :
      (aligned : Bool) (a : ℕ)
      → a < max_addr
      → base ≤ a
      → a < base + 4096
      → is_owned (some (register (own_mapping base total) aligned radix)) a ≡ some true
  own_page true a low from to =
      rw (is_owned-set_range radix base total a true (omega (arith, p.some_page)) p.top low)
        (ground (arith, p.base_page, p.total_page, p.some_page))
  own_page false a low from to =
      rw (is_owned-set_single_big radix base a true (omega (arith, p.top, p.some_page)) low)
        (ground (arith, p.base_page))

  own_block :
      (a : ℕ)
      → base ≤ a
      → a < base + total
      → is_owned (some (register (own_mapping base total) true radix)) a ≡ some true
  own_block a from to =
      rw
        (is_owned-set_range radix base total a true (omega (arith, p.some_page)) p.top
          (omega (arith, p.top)))
        (ground (arith, p.base_page, p.total_page, p.some_page))

  -- After the release every page is owned or not as before, if no page of the mapping was owned.
  disown_block :
      (aligned : Bool)
      → ((a : ℕ) → base ≤ a → a < base + total → is_owned (some radix) a ≡ some false)
      → (a : ℕ) → a < max_addr
      → is_owned
          (some (disown base total aligned (register (own_mapping base total) aligned radix)))
          a
        ≡ is_owned (some radix) a
  disown_block true free a low =
      let one : 1 ≤ total = omega (arith, p.some_page) in
      rw
        (
          is_owned-set_range (set_range radix base total true) base total a false one p.top low,
          is_owned-set_range radix base total a true one p.top low,
        )
        (overwritten (leb (base / 4096) (a / 4096) && leb (a / 4096) ((base + total - 1) / 4096))
          (is_owned (some radix) a)
          (λ e.
            free a (ground (arith, e, p.base_page))
              (ground (arith, e, p.base_page, p.total_page, one))))
  disown_block false free a low =
      let below : base < max_addr = omega (arith, p.top, p.some_page) in
      rw
        (
          is_owned-set_single_big (set_single_big radix base true) base a false below low,
          is_owned-set_single_big radix base a true below low,
        )
        (overwritten (base / 4096 == a / 4096) (is_owned (some radix) a) (λ e.
          free a (ground (arith, e, p.base_page)) (ground (arith, e, p.base_page, p.some_page))))

abbrev pub total_of : Config → (size : ℕ) → ℕ
total_of c size = estimate_and_align_2mb c.rs_disable_thp (size + header_size)

-- A block that `big_malloc` mapped at `base`, and that `big_free` then released.
pub record Returned (c : Config) (size : ℕ) (aligned : Bool) (base : ℕ) (before : Globals)
    (m : ℕ → Option BigAllocMeta) (r : Option (Option ℕ × Globals)) : Type 0 where
  pub given : Globals
  pub granted : r ≡ some (some (base + header_size), given)
  pub listed : Shows given.big_map.root (
      update m
        (base + header_size)
        (some (meta_for (own_mapping base (total_of c size)) size aligned)))
  pub owned : is_owned (some given.radix) (base + header_size) ≡ some true
  pub all_owned :
      aligned ≡ true
      → (a : ℕ) → base ≤ a
      → a < base + total_of c size
      → is_owned (some given.radix) a ≡ some true
  pub after : Globals
  pub freed : big_free c (base + header_size) given ≡ some after
  pub unlisted : Shows after.big_map.root m
  pub unmapped : after.unmapped ≡ (base, total_of c size) ∷ before.unmapped
  pub disowned :
      (a : ℕ) → a < max_addr → is_owned (some after.radix) a ≡ is_owned (some before.radix) a

module _ (c : Config) (size : ℕ) (aligned : Bool) (base : ℕ) (g : Globals)
    (m : ℕ → Option BigAllocMeta) (p : Pages base (total_of c size))
    (free : (a : ℕ)
      → base ≤ a
      → a < base + total_of c size
      → is_owned (some g.radix) a ≡ some false)
    (new : m (base + header_size) ≡ none) (shows : Shows g.big_map.root m) where
  publish-Returned :
      (chunk : Option ℕ)
      → Gives g.big_map.free_list chunk
      → Returned c size aligned base g m
          (publish c chunk size aligned (some (own_mapping base (total_of c size))) g)
  unfolding release
  publish-Returned chunk gives =
      let memory = own_mapping base (total_of c size) in
      let (big_map, done, listed) = publish-Shows c chunk size aligned memory g m shows gives in
      let given = published c size aligned memory g big_map in
      let (big_map', freed, unlisted) =
        big_free-Shows c (base + header_size) (meta_for memory size aligned) given m listed new in
      let back : base + header_size - header_size ≡ base = omega arith in
      record {
        given = given;
        granted = done;
        listed = listed;
        owned =
            own_page base (total_of c size) g.radix p aligned (base + header_size)
              (omega (arith, p.top, p.some_page)) (omega arith) (omega arith);
        all_owned = λ e a from to. rw e (own_block base (total_of c size) g.radix p a from to);
        after =
            release c (base + header_size) (meta_for memory size aligned)
              (record given { big_map = big_map' });
        freed = freed;
        unlisted = unlisted;
        unmapped = ap (λ (t : ℕ). (t, total_of c size) ∷ g.unmapped) back;
        disowned =
            λ a low. rw back (disown_block base (total_of c size) g.radix p aligned free a low);
      }

total-Pages :
    (c : Config) (size base : ℕ)
    → size + header_size + two_mb ≤ 2 ^ 64
    → base % 4096 ≡ 0
    → base + total_of c size ≤ max_addr
    → Pages base (total_of c size)
total-Pages c size base fits page below =
    let r = estimate_and_align_2mb-Rounded c.rs_disable_thp (size + header_size) fits in
    record {
      some_page = omega (arith, r.enough, r.pages);
      base_page = page;
      total_page = r.pages;
      top = below;
    }

-- `big_malloc` of a size that does not overflow, where the buddy backend gives nothing and `mmap` gives
-- whole pages that were not owned, at a place without metadata: the pointer is 16 bytes behind the mapping
-- and owned, with all of the mapping if the block is aligned, and the metadata map has the block. A
-- `big_free` of the pointer then does not abort: it gives to `munmap` the mapping, whole, and takes the
-- block out of the metadata map, and every address is owned or not as before.
pub big_free-big_malloc :
    (c : Config) (size : ℕ) (aligned : Bool) (base : ℕ) (chunk : Option ℕ) (g asked : Globals)
    (m : ℕ → Option BigAllocMeta)
    → size + header_size + two_mb ≤ 2 ^ 64
    → buddy_memory c size (total_of c size) g ≡ (none, asked)
    → base % 4096 ≡ 0
    → base + total_of c size ≤ max_addr
    → ((a : ℕ) → base ≤ a → a < base + total_of c size → is_owned (some asked.radix) a ≡ some false)
    → m (base + header_size) ≡ none
    → Shows asked.big_map.root m
    → Gives asked.big_map.free_list chunk
    → Returned c size aligned base asked m (big_malloc c (some base) chunk size aligned g)
unfolding big_malloc big_malloc_total
big_free-big_malloc c size aligned base chunk g asked m fits nothing page below free new shows
      gives =
    let ok : ltb (size + header_size) (2 ^ 64) ≡ true = ground (arith, fits) in
    rw (ok, nothing)
      (publish-Returned c size aligned base asked m (total-Pages c size base fits page below) free
        new shows chunk gives)
