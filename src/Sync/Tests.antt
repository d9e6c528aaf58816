-- ===== src/Sync/Tests.antt =====
-- Theorems of the locks at concrete runs of two threads.
use rsmalloc.Common.{ℕ, ◌≤◌, ◌≡◌, ◌≢◌, refl, if◌then◌else◌}
use rsmalloc.Sync.Lock
use rsmalloc.Sync.Lock.{mutual_exclusion, attempt_succeeds}
use rsmalloc.Sync.Once
use rsmalloc.Sync.Once.{runs_once, runner_alone}

-- Thread 0 has the guard, thread 1 is in the loop of `lock`.
abbrev taken : Lock.System
taken = Lock.attempt (Lock.enter Lock.start 0) 0

abbrev contended : Lock.System
contended = Lock.enter taken 1

contended-Reachable : Lock.Reachable contended
unfolding Lock.enter Lock.attempt
contended-Reachable =
    Lock.steps
      (Lock.steps (Lock.steps Lock.starts (Lock.enters Lock.start 0 refl))
        (Lock.attempts (Lock.enter Lock.start 0) 0 refl))
      (Lock.enters taken 1 refl)

zero_holds : contended.phase 0 ≡ Lock.holding
unfolding Lock.enter Lock.attempt
zero_holds = refl

one_waits : contended.phase 1 ≢ Lock.holding
unfolding Lock.enter Lock.attempt
one_waits h = cc

mutual_exclusion_example : Path ℕ 0 0
mutual_exclusion_example = mutual_exclusion 0 0 contended-Reachable zero_holds zero_holds

-- Thread 0 is in the function.
abbrev inside : Once.System
inside = Once.begin (Once.call_once Once.start 0) 0

inside-Reachable : Once.Reachable inside
unfolding Once.call_once Once.begin
inside-Reachable =
    Once.steps (Once.steps Once.starts (Once.calls Once.start 0 refl))
      (Once.begins (Once.call_once Once.start 0) 0 refl)

zero_runs : inside.phase 0 ≡ Once.running
unfolding Once.call_once Once.begin
zero_runs = refl

-- The function has run, and thread 0 has returned.
abbrev done : Once.System
done = Once.wait (Once.finish inside 0) 0

done-Reachable : Once.Reachable done
unfolding Once.call_once Once.begin Once.finish Once.wait
done-Reachable =
    Once.steps (Once.steps inside-Reachable (Once.finishes inside 0 refl))
      (Once.waits (Once.finish inside 0) 0 refl)

runs_once_example :
    (done.runs ≤ 1) × ((if Once.is_returned (done.phase 0) then done.runs else 1) ≡ 1)
runs_once_example = runs_once 0 done-Reachable
