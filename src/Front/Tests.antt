-- ===== src/Front/Tests.antt =====
-- Runs of the functions behind `malloc`, `free` and `calloc`, and witnesses of the theorems on them.
use rsmalloc.Common.{ℕ, ◌^◌, ◌≡◌, refl, false, none, some, [], ◌∷◌, ◌==◌, arith, update, inl, inr}
use rsmalloc.Align.{Memory, Aligned, placed, posix_align_inner}
use rsmalloc.Bulk.{Header}
use rsmalloc.Front.{redraw, init_magic, World, double_free, push, abort, rs_free, Given, rs_calloc}
use rsmalloc.SizeClass.Match.{match_size_class-none}
use rsmalloc.Front.Freed.{rs_free-double_free}
use rsmalloc.Front.Placed.{AsBlock, posix_align_inner-AsBlock}
use rsmalloc.Front.Zeroed.{Zeroed, Fresh, rs_calloc-Zeroed}

-- The freed magic value is drawn again once, the big one twice.
drawn :
    init_magic (7 ∷ 7 ∷ 7 ∷ 9 ∷ 9 ∷ 5 ∷ [])
    ≡ some (record { magic = 7; freed_magic = 9; big_magic = 5 })
unfolding init_magic redraw
drawn = refl

-- One block of class 3 at 4096, in use, in a page that is owned.
abbrev in_use : Header
in_use = record { flags = 2; class = 3; magic = 7; life_time = 0 }

abbrev world : World
world = record {
  magics = record { magic = 7; freed_magic = 9; big_magic = 5 };
  align_tag = 1234;
  current_stamp = 11;
  foreign_pointer_abort = false;
  is_owned = λ a. some (a == 4112);
  words = λ a. 0;
  headers = λ a. in_use;
  big_meta = λ a. none;
}

abbrev freed_headers : ℕ → Header
freed_headers = update world.headers 4096 (record in_use { magic = 9; life_time = 11 })

frees : rs_free world 4112 ≡ push 3 4096 freed_headers
unfolding rs_free rsmalloc.Align.find_original_ptr
frees = refl

rs_free-double_free_example :
    rs_free (record world { headers = freed_headers }) 4112 ≡ abort double_free
rs_free-double_free_example =
    rs_free-double_free world 4112 3 4096 freed_headers
      (
        (λ e. absurd (omega (arith, e))),
        (λ e. absurd (omega (arith, e))),
        (λ e. absurd (omega (arith, e))),
      )
      frees

posix_align_inner-AsBlock_example :
    AsBlock world 100 4112 (posix_align_inner (λ n. some 4112) 1234 (λ a. 0) 8 (2 ^ 6) 100)
posix_align_inner-AsBlock_example =
    posix_align_inner-AsBlock world (λ n. some 4112) 8 6 100 4112 (omega arith) (omega arith) refl
      (omega arith) (omega arith) refl (λ e. absurd (omega (arith, e)))

-- A block of the caches that was in use: its flag is 2.
abbrev given : Given
given = record { ptr = 4112; flags = 2; big_size = none }

given_Fresh : Fresh (λ a. 77) 60 given
given_Fresh = record {
  large = λ none_fits.
      absurd (let above = (match_size_class-none 60).0 none_fits in omega (arith, above));
  flagged = inr (inl refl);
}

rs_calloc-Zeroed_example : Zeroed (λ a. 77) 60 4112 (rs_calloc (λ n. some given) 20 3 (λ a. 77))
rs_calloc-Zeroed_example =
    rs_calloc-Zeroed (λ n. some given) 20 3 (λ a. 77) given (omega arith) (omega arith) refl
      given_Fresh
