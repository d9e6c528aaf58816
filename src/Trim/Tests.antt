-- ===== src/Trim/Tests.antt =====
-- Theorems of the trimmer at concrete states.
use rsmalloc.Common.{◌≡◌, refl, true, some, arith}
use rsmalloc.Trim.{SysInfo, check_memory_pressure, Thresholds, Relief, released_range}
use rsmalloc.Trim.Pressure.{Counted}

abbrev info : SysInfo
info = record { mem_unit = 1; totalram = 16000; freeram = 4000; totalswap = 4000; freeswap = 1000 }

used_three_quarters : check_memory_pressure info ≡ 75
unfolding check_memory_pressure
used_three_quarters = refl

-- The defaults.
abbrev thresholds : Thresholds
thresholds = record { disable = 85; enable = 80 }

abbrev off : Relief
off = record { disabled = true; under_after = 0 }

off-Counted : Counted off
unfolding Counted
off-Counted = omega arith

releases : released_range 1073741824 8192 ≡ some (1073745920, 4096)
unfolding released_range
releases = refl
