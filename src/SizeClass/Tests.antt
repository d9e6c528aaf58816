-- ===== src/SizeClass/Tests.antt =====
-- Runs of utility.rs, and its theorems at concrete sizes.
use rsmalloc.Common.{◌≡◌, refl, none, some}
use rsmalloc.Word.{leading_zeros}
use rsmalloc.SizeClass.{reference_match, min_refill_bytes, size_lut, match_size_class}
use rsmalloc.SizeClass.Match.{match_size_class-reference}

matches :
    (match_size_class 0 ≡ some 0)
    × (match_size_class 4097 ≡ some 23)
    × (match_size_class 24577 ≡ some 27)
    × (match_size_class 32769 ≡ some 28)
    × (match_size_class 2097152 ≡ some 33)
    × (match_size_class 2097153 ≡ none)
unfolding match_size_class size_lut leading_zeros
matches = (refl, refl, refl, refl, refl, refl)

least_refill : min_refill_bytes ≡ 12288
unfolding min_refill_bytes
least_refill = refl

finds : match_size_class 5000 ≡ some 23
unfolding match_size_class size_lut leading_zeros
finds = refl

match_size_class-reference_example : match_size_class 5000 ≡ reference_match 5000
match_size_class-reference_example = match_size_class-reference 5000
