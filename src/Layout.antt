-- ===== src/Layout.antt =====
-- lib.rs: the sizes that the components share, in the default build
-- (no `extended-header`), on a 64-bit target.
use rsmalloc.Common.{ℕ, ◌^◌}

-- 2 ^ 64: the number of values of a `usize`.
abbrev pub usize_mod : ℕ
usize_mod = 2 ^ 64

abbrev pub page_size : ℕ
page_size = 4096

-- `Header::SIZE`
abbrev pub header_size : ℕ
header_size = 16

-- `size_of::<MetaData>()`: four words and a `u16`, at alignment 16
abbrev pub metadata_size : ℕ
metadata_size = 48
