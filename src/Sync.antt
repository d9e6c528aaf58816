-- ===== src/Sync.antt =====
-- internals/lock.rs and internals/once.rs: the spin lock and the one-time initialisation, as steps of
-- any number of threads. Each step is one atomic operation on the state; the order of the steps is
-- any. The counters of the debug features and the resets in the child of a fork are left out.
pub mod Lock
pub mod Once
mod Tests
use rsmalloc.Common.{ℕ, suc, Bool, true, false, ◌≡◌, ◌==◌, update, if◌then◌else◌}

-- `compare_exchange`, and `compare_exchange` on a number: whether it succeeded, and the state after
abbrev pub exchange_flag : Bool → Bool → Bool → Bool × Bool
exchange_flag state false new = if state then (false, state) else (true, new)
exchange_flag state true new = if state then (true, new) else (false, state)

abbrev pub exchange_number : (state expected new : ℕ) → Bool × ℕ
exchange_number state expected new = if state == expected then (true, new) else (false, state)
