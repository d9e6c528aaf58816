-- ===== src/Large/Tests.antt =====
-- Runs of big_allocations/big_allocation.rs, and witnesses of the theorems on it.
use rsmalloc.Common.{◌-◌, ◌≡◌, refl, ap, Bool, true, false, Option, none, some, [], arith}
use rsmalloc.SizeClass.{align_to}
use rsmalloc.Radix.Range.{is_owned-no_tables}
use rsmalloc.Rbtree.Shows.{Shows}
use rsmalloc.Rbtree.Store
use rsmalloc.Buddy.Allocator
use rsmalloc.Buddy.Allocator.{Machine, Block}
use rsmalloc.Buddy.Allocator.Example.{machine, first, block, serves}
use rsmalloc.Large.{
  Config, Globals, estimate_and_align_2mb, buddy_memory, of_block, own_all, big_malloc,
}
use rsmalloc.Large.Rounded.{Rounded, estimate_and_align_2mb-Rounded}
use rsmalloc.Large.Mapped.{Returned, total_of, big_free-big_malloc}
use rsmalloc.Large.Backed.{GivenBack, big_free-big_malloc_buddy}

abbrev config : Bool → Config
config buddy_init = record {
  buddy_init = buddy_init;
  disable_buddy = false;
  rs_disable_thp = false;
  big_magic = 16978;
  node_id = 0;
  nranges = 0;
}

abbrev start : Globals
start = record {
  buddy = Allocator.new;
  machine = machine;
  radix = λ i. none;
  big_map = Store.new;
  headers = λ a. record { flags = 0; class = 0; magic = 0; life_time = 0 };
  unmapped = [];
}

-- Huge pages where they waste little, else small pages.
estimates :
    (estimate_and_align_2mb false (2097152 - 60000) ≡ 2097152)
    × (estimate_and_align_2mb true (2097152 - 60000) ≡ 2039808)
    × (estimate_and_align_2mb false 2097153 ≡ 2101248)
unfolding estimate_and_align_2mb align_to
estimates = (refl, refl, refl)

estimate_and_align_2mb-Rounded_example :
    Rounded false 3000000 (estimate_and_align_2mb false 3000000)
estimate_and_align_2mb-Rounded_example = estimate_and_align_2mb-Rounded false 3000000 (omega arith)

empty_Shows : Shows start.big_map.root (λ key. none)
empty_Shows = record {
  valid = record { height = 0; root_black = refl; balanced = refl };
  sorted = tt;
  view = λ key. refl;
}

asked_nothing :
    buddy_memory (config false) 3000000 (total_of (config false) 3000000) start ≡ (none, start)
unfolding buddy_memory
asked_nothing = refl

big_free-big_malloc_example :
    Returned
      (config false)
      3000000
      true
      1073741824
      start
      (λ key. none)
      (big_malloc (config false) (some 1073741824) (some 4096) 3000000 true start)
unfolding estimate_and_align_2mb align_to
big_free-big_malloc_example =
    big_free-big_malloc (config false) 3000000 true 1073741824 (some 4096) start start (λ key. none)
      (omega arith) asked_nothing refl (omega arith)
      (λ a from to. is_owned-no_tables a (omega arith)) refl empty_Shows tt

abbrev asked : Globals
asked = record start {
  buddy = first.1;
  machine = first.2;
  radix = own_all start.radix (first.2).owned;
}

asked_buddy :
    buddy_memory (config true) 5001200 (total_of (config true) 5001200) start
    ≡ (of_block (some block), asked)
unfolding buddy_memory estimate_and_align_2mb align_to
asked_buddy =
    ap
      (λ (r : Option Block × Allocator.Allocator × Machine). (
        of_block r.0,
        record start { buddy = r.1; machine = r.2; radix = own_all start.radix r.2.owned },
      ))
      serves

big_free-big_malloc_buddy_example :
    GivenBack
      (config true)
      5001200
      block
      asked
      (λ key. none)
      (big_malloc (config true) none (some 4096) 5001200 false start)
big_free-big_malloc_buddy_example =
    big_free-big_malloc_buddy (config true) none (some 4096) 5001200 false block start asked
      (λ key. none) (omega arith) asked_buddy (omega arith) (λ e. absurd (omega (arith, e))) refl
      empty_Shows tt
