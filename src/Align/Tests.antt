-- ===== src/Align/Tests.antt =====
-- Theorems of the aligned allocations at a concrete block.
use rsmalloc.Common.{ℕ, ◌^◌, refl, Bool, true, Option, some, arith}
use rsmalloc.Align.{Memory, posix_align_inner}
use rsmalloc.Align.Placed.{Inside, posix_align_inner-Inside}

-- An allocator that answers 1 GiB + 16 to each request, and owns every address.
abbrev one_block : ℕ → Option ℕ
one_block size = some 1073741840

abbrev all_owned : ℕ → Bool
all_owned addr = true

abbrev zeroed : Memory
zeroed a = 0

posix_align_inner-Inside_example :
    Inside all_owned 5642838797155782994 zeroed 6 100 1073741840
      (posix_align_inner one_block 5642838797155782994 zeroed 8 (2 ^ 6) 100)
posix_align_inner-Inside_example =
    posix_align_inner-Inside all_owned one_block 5642838797155782994 zeroed 8 6 100 1073741840
      (omega arith) (omega arith) refl (omega arith) refl
