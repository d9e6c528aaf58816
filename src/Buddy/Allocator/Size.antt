-- ===== src/Buddy/Allocator/Size.antt =====
-- `order_for_size` and `normalize_region_size` of buddy.rs: the least order, and whole blocks.
use rsmalloc.Common.{
  ℕ, zero, suc, ◌+◌, ◌-◌, ◌*◌, ◌/◌, inl, inr, ◌%◌, ◌^◌, ◌≤◌, ◌<◌, ◌≡◌, ◌↔◌, refl, max, arith, leb,
  pow-suc, Bool-cases, true,
}
use native.Mathlib.Nat.{pow-le-pow_right, mul-mod_right, mod_self, div-add-mod}
use native.Mathlib.Decide.{dec_le}
use rsmalloc.Word.{checked_next_power_of_two}
use rsmalloc.Word.Log.{order_of, order_of-Reaches, trailing_zeros-pow}
use rsmalloc.Buddy.Region.{max_order}
use rsmalloc.Buddy.Allocator.{max_block_size, order_for_size, normalize_region_size}

pub order_for_size-Least :
    (size : ℕ)
    → size ≤ 2 ^ 63
    → (max size 1 ≤ 2 ^ order_for_size size)
      × ((j : ℕ) → j < order_for_size size → 2 ^ j < max size 1)
unfolding order_for_size
order_for_size-Least size h =
    let n : ℕ = max size 1 in
    let (e, reach, least) = order_of-Reaches n (omega arith) in
    let small : order_of n < 64 = elim (dec_le (order_of n) 63) [
      | yes le ↦ omega arith
      | no big ↦ absurd (omega (arith, least 63 (omega arith)))
    ] in
    rw (e, trailing_zeros-pow (order_of n) small) (reach, least)

-- For every size up to 2 ^ 63 and every order: a block of the order holds the size, where an empty
-- request counts as one byte, exactly if the order is at least `order_for_size` of the size.
pub order_for_size-holds :
    (size j : ℕ) → size ≤ 2 ^ 63 → (max size 1 ≤ 2 ^ j) ↔ (order_for_size size ≤ j)
order_for_size-holds size j h =
    let (reach, least) = order_for_size-Least size h in
    elim (dec_le (order_for_size size) j) [
      | yes le ↦
          let up : 2 ^ order_for_size size ≤ 2 ^ j = pow-le-pow_right {n = 2} (omega arith) le in
          (λ _. le, λ _. omega (arith, reach, up))
      | no more ↦
          let under = least j (omega arith) in
          (λ fits. absurd (omega (arith, under)), λ le. absurd (omega arith))
    ]

-- A power of two is a multiple of a lower one.
pow-mod_pow : (d j : ℕ) → 2 ^ (j + d) % 2 ^ j ≡ 0
pow-mod_pow zero j = let e : j + 0 ≡ j = omega arith in rw e (mod_self (2 ^ j))
pow-mod_pow (suc d) j =
    let e : j + suc d ≡ suc (j + d) = omega arith in
    let k : ℕ = 2 ^ (j + d) / 2 ^ j in
    let whole : 2 ^ (j + d) ≡ 2 ^ j * k =
      omega (arith, div-add-mod (2 ^ (j + d)) (2 ^ j), pow-mod_pow d j) in
    let twice : 2 ^ suc (j + d) ≡ 2 ^ j * (k + k) = grind (arith, whole, pow-suc 2 (j + d)) in
    rw (e, twice) (mul-mod_right (2 ^ j) (k + k))

pub normalize_whole : (size : ℕ) → normalize_region_size size % max_block_size ≡ 0
unfolding normalize_region_size checked_next_power_of_two
normalize_whole size = elim (Bool-cases (leb size (2 ^ 63))) [
  | inr big ↦ rw big refl
  | inl small ↦
      let (e, _, _) = order_of-Reaches size (ground arith) in
      elim (dec_le max_order (order_of size)) [
        | no low ↦
            let le : 2 ^ order_of size ≤ 2 ^ max_order =
              pow-le-pow_right {n = 2} (omega arith) {j = max_order} (omega arith) in
            let top : max (2 ^ order_of size) max_block_size ≡ max_block_size = omega (arith, le) in
            rw (small, e, top) refl
        | yes high ↦
            let le : 2 ^ max_order ≤ 2 ^ order_of size =
              pow-le-pow_right {n = 2} (omega arith) high in
            let top : max (2 ^ order_of size) max_block_size ≡ 2 ^ order_of size =
              omega (arith, le) in
            let sum : max_order + (order_of size - max_order) ≡ order_of size = omega arith in
            rw (small, e, top) (rw sum at (pow-mod_pow (order_of size - max_order) max_order))
      ]
]

-- For a size up to 2 ^ 63 `normalize_region_size` gives whole blocks of the largest order, at least
-- one of them, and no less than the size.
pub normalize_region_size-Whole :
    (size : ℕ)
    → size ≤ 2 ^ 63
    → (normalize_region_size size % max_block_size ≡ 0)
      × (max_block_size ≤ normalize_region_size size)
      × (size ≤ normalize_region_size size)
unfolding normalize_region_size checked_next_power_of_two
normalize_region_size-Whole size h =
    let small : leb size (2 ^ 63) ≡ true = ground arith in
    let (e, reach, _) = order_of-Reaches size h in
    (normalize_whole size, rw (small, e) (omega arith), rw (small, e) (omega (arith, reach)))
