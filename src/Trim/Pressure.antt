-- ===== src/Trim/Pressure.antt =====
-- The pressure is a percentage, and the buddy backend is switched with hysteresis.
use rsmalloc.Common.{
  ℕ, ◌+◌, ◌-◌, ◌*◌, ◌/◌, ◌%◌, ◌≤◌, ◌≡◌, true, not, ◌&&◌, leb, ◌==◌, if◌then◌else◌, arith,
  Bool-cases, inl, inr, List, [], ◌∷◌,
}
use native.Mathlib.Nat.{div-le_of_le-mul}
use rsmalloc.Layout.{usize_mod}
use rsmalloc.Word.{saturating_mul}
use rsmalloc.Trim.{SysInfo, check_memory_pressure, Thresholds, Relief, relief_paths}

-- The memory pressure is a percentage, whatever `sysinfo` answers, even where the sums wrap.
pub check_memory_pressure_bounded : (info : SysInfo) → check_memory_pressure info ≤ 100
unfolding check_memory_pressure
check_memory_pressure_bounded info =
    bound
      ((saturating_mul info.totalram info.mem_unit + saturating_mul info.totalswap info.mem_unit)
        % usize_mod)
      ((saturating_mul info.freeram info.mem_unit + saturating_mul info.freeswap info.mem_unit)
        % usize_mod)
  where
    bound :
        (total available : ℕ)
        → (if total == 0 then 50 else ((total - available) * 100 % usize_mod) / total) ≤ 100
    bound total available = elim (Bool-cases (total == 0)) [
      | inl none_there ↦ rw none_there (omega arith)
      | inr some_there ↦ rw some_there (
          div-le_of_le-mul total {m = (total - available) * 100 % usize_mod} {n = 100}
            (omega arith))
    ]

abbrev pub two_steps : Thresholds → Relief → ℕ → ℕ → Relief
two_steps t s p q = (relief_paths t (relief_paths t s p).1 q).1

-- From a state just disabled, two calls of `relief_paths` enable the buddy backend again exactly if
-- both see a pressure of at most the enabling percentage.
pub relief_paths_twice :
    (t : Thresholds) (s : Relief) (p q : ℕ)
    → s.disabled ≡ true
    → s.under_after ≡ 0
    → (two_steps t s p q).disabled ≡ not (leb p t.enable && leb q t.enable)
unfolding relief_paths
relief_paths_twice t s p q on zero = ground arith

-- Several calls of `relief_paths`.
pub run : Thresholds → Relief → List ℕ → Relief
run t s [] = s
run t s (p ∷ rest) = run t (relief_paths t s p).1 rest

-- The count of low pressures is 0 while the backend is enabled, and at most 1 while it is disabled.
unfoldable pub Counted : Relief → Type 0
Counted s = s.under_after ≤ (if s.disabled then 1 else 0)

relief_paths-Counted :
    (t : Thresholds) (s : Relief) (p : ℕ) → Counted s → Counted (relief_paths t s p).1
unfolding relief_paths Counted
relief_paths-Counted t s p h = ground arith

-- After any calls of `relief_paths` from the start, the count of low pressures in a row is below
-- `ENABLE_AFTER`, and 0 while the buddy backend is enabled.
pub run-Counted : (t : Thresholds) (s : Relief) (l : List ℕ) → Counted s → Counted (run t s l)
unfolding run
run-Counted t s [] h = h
run-Counted t s (p ∷ rest) h =
    run-Counted t (relief_paths t s p).1 rest (relief_paths-Counted t s p h)

-- A call of `relief_paths` trims the buddy backend exactly when it disables it.
pub relief_paths_trims :
    (t : Thresholds) (s : Relief) (p : ℕ)
    → (relief_paths t s p).0 ≡ (not s.disabled && (relief_paths t s p).1.disabled)
unfolding relief_paths
relief_paths_trims t s p = ground arith
