-- ===== src/Predictor/Bounds.antt =====
-- The batch stays positive and bounded, reacts to a high demand at once and to low demands in fours.
use rsmalloc.Common.{
  ℕ, ◌+◌, ◌*◌, ◌/◌, ◌%◌, ◌^◌, ◌≤◌, ◌<◌, ◌≡◌, refl, min, max, Bool, true, false, List, [], ◌∷◌, ltb,
  ◌==◌, arith, All,
}
use rsmalloc.Layout.{usize_mod}
use rsmalloc.Predictor.{
  AdaptiveBatching, Config, new, update_global_batch_value, refill, update_refill, update_all,
  batch,
}

-- A batch in range, and a count below four.
pub record Bounded (top : ℕ) (p : AdaptiveBatching) : Type 0 where
  pub positive : 1 ≤ p.batch
  pub below : p.batch ≤ top
  pub counted : p.low_count ≤ 3

-- Limits of updates that are positive and at most `top`.
abbrev pub Limits : ℕ → List (ℕ × ℕ) → Type 0
Limits top l = All (λ (u : ℕ × ℕ). (1 ≤ u.1) × (u.1 ≤ top)) l

update_refill-Bounded :
    (c : Config) (top : ℕ) (p : AdaptiveBatching) (demand limit : ℕ)
    → max c.init_batch c.bulk_fill_init_batch ≤ top
    → 1 ≤ limit
    → limit ≤ top
    → Bounded top p
    → Bounded top (update_refill c p demand limit)
unfolding update_refill refill update_global_batch_value
update_refill-Bounded c top p demand limit hc pos low b =
    ground (arith, b.positive, b.below, b.counted)

update_all-keeps :
    (c : Config) (top : ℕ) (p : AdaptiveBatching) (l : List (ℕ × ℕ))
    → max c.init_batch c.bulk_fill_init_batch ≤ top
    → Limits top l
    → Bounded top p
    → Bounded top (update_all c p l)
unfolding update_all
update_all-keeps c top p [] hc limits b = b
update_all-keeps c top p ((demand, limit) ∷ rest) hc ((pos, low), limits) b =
    update_all-keeps c top (update_refill c p demand limit) rest hc limits
      (update_refill-Bounded c top p demand limit hc pos low b)

-- After any calls of `update_refill` on a new predictor, with limits from 1 to `top` and initial
-- batches of at most `top`: the batch is from 1 to `top` and the count of low demands is at most 3.
pub update_all-Bounded :
    (c : Config) (top : ℕ) (fill : Bool) (l : List (ℕ × ℕ))
    → 1 ≤ top
    → max c.init_batch c.bulk_fill_init_batch ≤ top
    → Limits top l
    → Bounded top (update_all c (new fill) l)
unfolding new
update_all-Bounded c top fill l pos hc limits =
    update_all-keeps c top (new fill) l hc limits
      (record { positive = omega arith; below = omega arith; counted = omega arith })

-- A low demand is counted, up to the third.
low_step :
    (c : Config) (p : AdaptiveBatching) (d limit : ℕ)
    → p.initialized ≡ true
    → p.low_count < 3
    → p.batch < 2 ^ 63
    → max d 1 * 4 < p.batch
    → update_refill c p d limit ≡ record p { low_count = p.low_count + 1 }
unfolding update_refill refill update_global_batch_value
low_step c p d limit on few small low =
    let high : ltb p.batch (max d 1) ≡ false = ground arith in
    let quarter : ltb (max d 1 * 4 % usize_mod) p.batch ≡ true = ground arith in
    let more : (p.low_count + 1 == 4) ≡ false = ground arith in rw (on, high, quarter, more)

-- The fourth low demand halves the batch.
fourth_step :
    (c : Config) (p : AdaptiveBatching) (d limit : ℕ)
    → p.initialized ≡ true
    → p.low_count ≡ 3
    → p.batch < 2 ^ 63
    → max d 1 * 4 < p.batch
    → update_refill c p d limit ≡ record p { batch = max (p.batch / 2) 1; low_count = 0 }
unfolding update_refill refill update_global_batch_value
fourth_step c p d limit on three small low =
    let high : ltb p.batch (max d 1) ≡ false = ground arith in
    let quarter : ltb (max d 1 * 4 % usize_mod) p.batch ≡ true = ground arith in
    let full : (p.low_count + 1 == 4) ≡ true = ground arith in rw (on, high, quarter, full)

-- On a predictor with its initial batch set and no low demand counted: four calls of
-- `update_refill` whose demands are all less than a quarter of the batch halve the batch, to no less
-- than 1, and a count of fewer leaves it.
pub update_refill-halves :
    (c : Config) (p : AdaptiveBatching) (d1 d2 d3 d4 limit : ℕ)
    → p.initialized ≡ true
    → p.low_count ≡ 0
    → p.batch < 2 ^ 63
    → max d1 1 * 4 < p.batch
    → max d2 1 * 4 < p.batch
    → max d3 1 * 4 < p.batch
    → max d4 1 * 4 < p.batch
    → let three = update_all c p ((d1, limit) ∷ (d2, limit) ∷ (d3, limit) ∷ []) in
      (three.batch ≡ p.batch)
      × ((update_refill c three d4 limit).batch ≡ max (p.batch / 2) 1)
      × ((update_refill c three d4 limit).low_count ≡ 0)
unfolding update_all
update_refill-halves c p d1 d2 d3 d4 limit on zero small h1 h2 h3 h4 =
    let p1 : AdaptiveBatching = record p { low_count = p.low_count + 1 } in
    let p2 : AdaptiveBatching = record p { low_count = p.low_count + 1 + 1 } in
    let p3 : AdaptiveBatching = record p { low_count = p.low_count + 1 + 1 + 1 } in
    rw
      (
        low_step c p d1 limit on (omega arith) small h1,
        low_step c p1 d2 limit on (omega arith) small h2,
        low_step c p2 d3 limit on (omega arith) small h3,
        fourth_step c p3 d4 limit on (omega arith) small h4,
      )
      (refl, refl, refl)

-- For a demand above the batch, one call of `update_refill` gives a batch that covers the demand or
-- the limit, whichever is less.
pub update_refill-covers :
    (c : Config) (p : AdaptiveBatching) (demand limit : ℕ)
    → p.initialized ≡ true
    → p.batch < demand
    → min demand limit ≤ (update_refill c p demand limit).batch
unfolding update_refill refill update_global_batch_value
update_refill-covers c p demand limit on high = ground arith

-- The batch that is used is from 1 to the fallback, for a fallback of at least 1, and no more than
-- the batch of a predictor in range; the predictor stays in range.
pub batch-Bounded :
    (c : Config) (top : ℕ) (p : AdaptiveBatching) (fallback : ℕ)
    → 1 ≤ fallback
    → max c.init_batch c.bulk_fill_init_batch ≤ top
    → Bounded top p
    → (1 ≤ (batch c p fallback).0)
      × ((batch c p fallback).0 ≤ min fallback top)
      × Bounded top (batch c p fallback).1
unfolding batch update_global_batch_value
batch-Bounded c top p fallback pos hc b = ground (arith, b.positive, b.below, b.counted)

-- A batch is of at least one block where the limit is.
pub batch-positive :
    (c : Config) (p : AdaptiveBatching) (fallback : ℕ) → 1 ≤ fallback → 1 ≤ (batch c p fallback).0
unfolding batch
batch-positive c p fallback h = omega (arith, h)
