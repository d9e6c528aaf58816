-- ===== src/Trim.antt =====
-- trim.rs: memory pressure, the switch of the buddy backend, and which pages of a block are released.
-- What `sysinfo` answers is an argument; unsigned sums and products wrap as in a release build.
pub mod Pressure
pub mod Release
mod Tests
use rsmalloc.Common.{
  ℕ, ◌+◌, ◌-◌, ◌*◌, ◌/◌, ◌%◌, bit_and, Bool, true, false, not, ◌&&◌, Option, none, some, leb, ◌==◌,
  if◌then◌else◌,
}
use rsmalloc.Word.{saturating_mul}
use rsmalloc.Layout.{usize_mod, header_size}

-- The fields of `sysinfo` that are read.
pub record SysInfo : Type 0 where
  pub mem_unit : ℕ
  pub totalram : ℕ
  pub freeram : ℕ
  pub totalswap : ℕ
  pub freeswap : ℕ

-- `check_memory_pressure`
pub check_memory_pressure : SysInfo → ℕ
check_memory_pressure info =
    let total_ram = saturating_mul info.totalram info.mem_unit in
    let free_ram = saturating_mul info.freeram info.mem_unit in
    let total_swap = saturating_mul info.totalswap info.mem_unit in
    let free_swap = saturating_mul info.freeswap info.mem_unit in
    let total_available = (free_ram + free_swap) % usize_mod in
    let total_memory = (total_ram + total_swap) % usize_mod in
    let used = total_memory - total_available in
    if total_memory == 0 then 50 else (used * 100 % usize_mod) / total_memory

-- `BUDDY_DISABLE_PERCENTAGE` and `BUDDY_ENABLE_PERCENTAGE`
pub record Thresholds : Type 0 where
  pub disable : ℕ
  pub enable : ℕ

-- `DISABLE_BUDDY` and `UNDER_AFTER`
pub record Relief : Type 0 where
  pub disabled : Bool
  pub under_after : ℕ

abbrev pub enable_after : ℕ
enable_after = 2

-- `relief_paths` at a pressure: whether `BUDDY_BACKEND.trim(0)` is called, and the state after
pub relief_paths : Thresholds → Relief → ℕ → Bool × Relief
relief_paths t s pressure =
    let under = s.under_after + 1 in
    if leb t.disable pressure && not s.disabled
    then (true, record { disabled = true; under_after = 0 })
    else if s.disabled && leb pressure t.enable
    then (if leb enable_after under
        then (false, record { disabled = false; under_after = 0 })
        else (false, record s { under_after = under }))
    else (false, record s { under_after = 0 })

-- `release_memory`: the start and the length of the range that it gives to `madvise`, if there is one
pub released_range : (header size : ℕ) → Option (ℕ × ℕ)
released_range header size =
    let user_start = header + header_size in
    let user_end = user_start + size in
    let page_mask = usize_mod - 1 - (4096 - 1) in
    let page_start = bit_and ((user_start + 4096 - 1) % usize_mod) page_mask in
    let page_end = bit_and user_end page_mask in
    if leb page_end page_start then none else some (page_start, page_end - page_start)
