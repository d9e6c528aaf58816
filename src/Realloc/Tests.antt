-- ===== src/Realloc/Tests.antt =====
-- Runs of `rs_realloc` of inner/realloc.rs, and the witness of the theorem on it.
use rsmalloc.Common.{ℕ, List, [], ◌∷◌, true, ◌≡◌, refl, false, none, some, ◌==◌, arith}
use rsmalloc.SizeClass.{class_size, iterations, align_to, block_size}
use rsmalloc.Align.{find_original_ptr}
use rsmalloc.Front.{World, usable_size}
use rsmalloc.Realloc.{Calls, Store, before, Reallocated, returned, panic, small_grow, rs_realloc}
use rsmalloc.Realloc.Kept.{Kept, rs_realloc-Kept}

abbrev no_big_realloc : (ptr new_size : ℕ) → Reallocated
no_big_realloc ptr new_size = panic

-- A block of class 3, that is of 64 bytes, with its header at 4096.
abbrev world : World
world = record {
  magics = record { magic = 7; freed_magic = 9; big_magic = 5 };
  align_tag = 1234;
  current_stamp = 11;
  foreign_pointer_abort = false;
  is_owned = λ a. some (a == 4112);
  words = λ a. 0;
  headers = λ a. record { flags = 2; class = 3; magic = 7; life_time = 0 };
  big_meta = λ a. none;
}

abbrev calls : Calls
calls = record {
  rs_alloc = λ n. some 8208;
  memalign_inner = λ alignment n. none;
  metadata = λ a. record { start = a; end = a; next = a; node_id = 0 };
  try_grow_inplace = λ node_id base old_total new_total. false;
}

usable : usable_size world 4112 ≡ some 64
unfolding usable_size find_original_ptr class_size
usable = refl

rs_realloc-Kept_example :
    Kept calls
      (before world calls (λ a. a))
      4112
      64
      500
      (some 8208)
      (rs_realloc world calls no_big_realloc 4112 500 (λ a. a))
unfolding find_original_ptr
rs_realloc-Kept_example =
    rs_realloc-Kept world calls no_big_realloc 4112 4112 64 500 (λ a. a)
      (λ e. absurd (omega (arith, e))) (λ e. absurd (omega (arith, e))) refl refl
      (λ e. absurd (omega (arith, e))) usable

-- A block of 1 MiB alone behind its metadata at 4096, where the page allocator can grow it to 2 MiB.
abbrev large_block : Store
large_block = record {
  bytes = λ a. 0;
  headers = λ a. record { flags = 2; class = 32; magic = 7; life_time = 0 };
  metadata = λ a. record { start = 4096; end = 1052736; next = 1052736; node_id = 0 };
  published = [];
  freed = [];
}

abbrev growing : Calls
growing = record calls { try_grow_inplace = λ node_id base old_total new_total. true }

abbrev published_by : Reallocated → List (ℕ × ℕ)
published_by (returned ptr s) = s.published
published_by r = []

grows_in_place :
    published_by (small_grow growing 4160 32 2000000 (some 33) large_block) ≡ (4096, 2101248) ∷ []
unfolding iterations class_size align_to block_size
grows_in_place = refl

moves_when_refused : published_by (small_grow calls 4160 32 2000000 (some 33) large_block) ≡ []
unfolding iterations class_size align_to block_size
moves_when_refused = refl
