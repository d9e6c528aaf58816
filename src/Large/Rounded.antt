-- ===== src/Large/Rounded.antt =====
-- `estimate_and_align_2mb` of big_allocations/big_allocation.rs: whole pages, whole huge pages where these
-- waste little.
use rsmalloc.Common.{
  ℕ, ◌+◌, ◌-◌, ◌*◌, ◌%◌, ◌^◌, ◌≤◌, ◌<◌, ◌≡◌, Bool, true, not, ◌&&◌, ltb, leb, if_cases, arith,
}
use rsmalloc.SizeClass.{align_to}
use rsmalloc.SizeClass.Align.{align_to_bounds}
use rsmalloc.Large.{two_mb, estimate_and_align_2mb}

-- Whole pages for a size, with at most 64 KiB beyond it; within a page of it without huge pages.
pub record Rounded (rs_disable_thp : Bool) (size total : ℕ) : Type 0 where
  pub enough : size ≤ total
  pub pages : total % 4096 ≡ 0
  pub close : total ≤ size + 64 * 1024
  pub closest : rs_disable_thp ≡ true → total < size + 4096

-- For a size that is at most 2 ^ 64 less one huge page: `estimate_and_align_2mb` gives whole pages that
-- hold the size, at most 64 KiB more than it, and less than a page more when huge pages are disabled.
pub estimate_and_align_2mb-Rounded :
    (rs_disable_thp : Bool) (size : ℕ)
    → size + two_mb ≤ 2 ^ 64
    → Rounded rs_disable_thp size (estimate_and_align_2mb rs_disable_thp size)
unfolding estimate_and_align_2mb
estimate_and_align_2mb-Rounded rs_disable_thp size fits =
    let remainder = size % two_mb in
    let near = ltb 0 remainder && leb (two_mb - remainder) (1024 * 64) && not rs_disable_thp in
    let (huge_above, huge_below, huge_whole) =
      align_to_bounds 21 size (omega arith) (omega (arith, fits)) in
    let (above, below, whole) = align_to_bounds 12 size (omega arith) (omega (arith, fits)) in
    if_cases (Rounded rs_disable_thp size) near (align_to size two_mb) (align_to size 4096)
      (λ e. record {
        enough = huge_above;
        pages = omega (arith, huge_whole);
        close = ground (arith, e, huge_whole, huge_above, huge_below);
        closest = λ off. ground (arith, e, off);
      })
      (λ _. record {
        enough = above;
        pages = whole;
        close = omega (arith, below);
        closest = λ _. below;
      })
