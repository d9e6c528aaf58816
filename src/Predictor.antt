-- ===== src/Predictor.antt =====
-- `AdaptiveBatching` of core_prim/predictor.rs: how many blocks are moved at once. The two initial
-- batches are configuration, and so arguments; sums and products wrap as in a release build.
pub mod Bounds
mod Tests
use rsmalloc.Common.{
  ℕ, ◌+◌, ◌*◌, ◌/◌, ◌%◌, min, max, Bool, true, false, List, [], ◌∷◌, ltb, ◌==◌, if◌then◌else◌,
}
use rsmalloc.Layout.{usize_mod}

-- `struct AdaptiveBatching`; `initialized` is the state of `once`
pub record AdaptiveBatching : Type 0 where
  pub batch : ℕ
  pub low_count : ℕ
  pub initialized : Bool
  pub is_fill : Bool

-- `PREDICTOR_INIT_BATCH` and `BULK_FILL_PREDICTOR_INIT_BATCH`
pub record Config : Type 0 where
  pub init_batch : ℕ
  pub bulk_fill_init_batch : ℕ

-- `new`
pub new : Bool → AdaptiveBatching
new fill = record { batch = 1; low_count = 0; initialized = false; is_fill = fill }

-- `update_global_batch_value`
update_global_batch_value : Config → AdaptiveBatching → AdaptiveBatching
update_global_batch_value c p = if p.initialized then p else record p {
  batch = max (if p.is_fill then c.bulk_fill_init_batch else c.init_batch) 1;
  low_count = 0;
  initialized = true;
}

-- `update_refill` after the initial batch is set
refill : AdaptiveBatching → (demand limit : ℕ) → AdaptiveBatching
refill p demand limit =
    let grow = max ((p.batch + p.batch / 2) % usize_mod) demand in
    if ltb p.batch demand
    then record p { batch = min grow limit; low_count = 0 }
    else if ltb (demand * 4 % usize_mod) p.batch
    then (if p.low_count + 1 == 4
        then record p { batch = max (p.batch / 2) 1; low_count = 0 }
        else record p { low_count = p.low_count + 1 })
    else record p { low_count = 0 }

-- `update_refill`
pub update_refill : Config → AdaptiveBatching → (demand limit : ℕ) → AdaptiveBatching
update_refill c p demand limit = refill (update_global_batch_value c p) (max demand 1) limit

-- `batch`
pub batch : Config → AdaptiveBatching → ℕ → ℕ × AdaptiveBatching
batch c p fallback = let p' = update_global_batch_value c p in (min (max p'.batch 1) fallback, p')

-- Several calls of `update_refill`, each a demand and a limit.
pub update_all : Config → AdaptiveBatching → List (ℕ × ℕ) → AdaptiveBatching
update_all c p [] = p
update_all c p ((demand, limit) ∷ rest) = update_all c (update_refill c p demand limit) rest
