-- ===== src/Predictor/Tests.antt =====
-- Theorems of the predictor at concrete demands.
use rsmalloc.Common.{ℕ, true, false, List, [], ◌∷◌}
use rsmalloc.Predictor.{AdaptiveBatching, Config}

-- The defaults.
abbrev config : Config
config = record { init_batch = 128; bulk_fill_init_batch = 384 }

abbrev demands : List (ℕ × ℕ)
demands = (1000, 512) ∷ (3, 512) ∷ (3, 512) ∷ []

abbrev running : AdaptiveBatching
running = record { batch = 128; low_count = 0; initialized = true; is_fill = false }
