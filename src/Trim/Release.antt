-- ===== src/Trim/Release.antt =====
-- `release_memory` of trim.rs: the range given to `madvise` lies in the payload, on page boundaries.
use rsmalloc.Common.{
  ℕ, ◌+◌, ◌-◌, ◌%◌, ◌^◌, ◌≤◌, ◌<◌, ◌≡◌, Option, none, some, leb, arith, Bool-cases, inl, inr,
  bit_and,
}
use rsmalloc.Common.Bits.{bit_and_not_mask}
use rsmalloc.Layout.{usize_mod, header_size}
use rsmalloc.SizeClass.{align_to}
use rsmalloc.SizeClass.Align.{align_to_bounds}
use rsmalloc.Trim.{released_range}

-- For a block below 2 ^ 63: when `release_memory` releases a range, the range is made of whole pages,
-- is not empty, and lies in the payload of the block, behind its header.
pub released_range-inside :
    {start len : ℕ} (header size : ℕ)
    → header + header_size + size < 2 ^ 63
    → released_range header size ≡ some (start, len)
    → (header + header_size ≤ start)
      × (start + len ≤ header + header_size + size)
      × (1 ≤ len)
      × (start % 4096 ≡ 0)
      × (len % 4096 ≡ 0)
unfolding released_range align_to
released_range-inside {start} {len} header size h e = elim (Bool-cases (leb page_end page_start)) [
  | inl empty ↦
      let no : Path (Option (ℕ × ℕ)) none (some (start, len)) =
        rw (released_range, sum, empty) at e in
      cc
  | inr more ↦
      let found : Path (Option (ℕ × ℕ)) (some (page_start, page_end - page_start))
          (some (start, len)) =
        rw (released_range, sum, more) at e in
      let same : page_start ≡ start = cc in
      let same_len : page_end - page_start ≡ len = cc in
      let (low, high, whole) =
        align_to_bounds 12 (header + header_size) (omega arith) (omega arith) in
      let floor : page_end ≡ user_end - user_end % 2 ^ 12 =
        bit_and_not_mask 64 12 user_end (omega arith) (omega arith) in
      let wide : page_start < page_end = ground arith in
      let down : page_end ≤ user_end = omega (arith, floor) in
      let pages : page_end % 4096 ≡ 0 = omega (arith, floor) in
      rw (← same, ← same_len)
        (
          low,
          omega (arith, down, wide),
          omega (arith, wide),
          whole,
          omega (arith, whole, pages, wide),
        )
]
  where
    sum : header + header_size + 4096 - 1 ≡ header + header_size + (4096 - 1)
    sum = omega arith

    user_end : ℕ
    user_end = header + header_size + size

    page_start : ℕ
    page_start = align_to (header + header_size) 4096

    page_end : ℕ
    page_end = bit_and user_end (usize_mod - 1 - (4096 - 1))
