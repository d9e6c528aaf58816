-- ===== src/Word/Log.antt =====
-- Powers of two against the counts of zero bits.
use rsmalloc.Common.{
  ℕ, zero, suc, ◌+◌, ◌/◌, ◌%◌, ◌^◌, ◌≤◌, ◌<◌, ◌≡◌, refl, arith, inl, inr, leb, pow-suc, one-le-pow,
  Bool-cases,
}
use native.Mathlib.Decide.{dec_le, dec_lt}
use rsmalloc.Word.{bit_length, low_zeros, trailing_zeros, next_exponent, next_power_of_two}

bit_length-zero : (f : ℕ) → bit_length f 0 ≡ 0
unfolding bit_length
bit_length-zero zero = refl
bit_length-zero (suc f) = refl

pub bit_length-pow :
    (fuel k n : ℕ) → k < fuel → 2 ^ k ≤ n → n < 2 ^ suc k → bit_length fuel n ≡ suc k
unfolding bit_length
bit_length-pow zero k n hf lo hi = absurd (omega arith)
bit_length-pow (suc fuel) zero n hf lo hi =
    let e : n ≡ 1 = omega arith in rw e (omega (arith, bit_length-zero fuel))
bit_length-pow (suc fuel) (suc k) n hf lo hi = ground (
  arith,
  one-le-pow k 2,
  pow-suc 2 k,
  bit_length-pow fuel k (n / 2) (omega arith) (omega (arith, pow-suc 2 k))
      (omega (arith, pow-suc 2 (suc k))),
)

low_zeros-pow : (fuel k : ℕ) → k < fuel → low_zeros fuel (2 ^ k) ≡ k
unfolding low_zeros
low_zeros-pow zero k h = absurd (omega arith)
low_zeros-pow (suc fuel) zero h = refl
low_zeros-pow (suc fuel) (suc k) h =
    let e : 2 ^ suc k / 2 ≡ 2 ^ k = omega (arith, pow-suc 2 k) in
    let odd : 2 ^ suc k % 2 ≡ 0 = omega (arith, pow-suc 2 k) in
    rw (odd, e) (ground (arith, low_zeros-pow fuel k))

pub trailing_zeros-pow : (k : ℕ) → k < 64 → trailing_zeros (2 ^ k) ≡ k
unfolding trailing_zeros
trailing_zeros-pow k h = low_zeros-pow 64 k h

-- The search stops at the first power that reaches `n`.
abbrev Reaches : ℕ → ℕ → ℕ → Type 0
Reaches k n e = (k ≤ e) × (n ≤ 2 ^ e) × ((j : ℕ) → k ≤ j → j < e → 2 ^ j < n)

next_exponent-Reaches : (fuel k n : ℕ) → n ≤ 2 ^ (k + fuel) → Reaches k n (next_exponent fuel k n)
unfolding next_exponent
next_exponent-Reaches zero k n h =
    let e : k + 0 ≡ k = omega arith in (omega arith, rw e at h, λ j lo hi. absurd (omega arith))
next_exponent-Reaches (suc fuel) k n h = elim (Bool-cases (leb n (2 ^ k))) [
  | inl reached ↦ rw reached (omega arith, ground arith, λ j lo hi. absurd (omega arith))
  | inr short ↦
      let e : k + suc fuel ≡ k + 1 + fuel = omega arith in
      let (far, enough, before) = next_exponent-Reaches fuel (k + 1) n (rw e at h) in
      rw short (
        omega arith,
        enough,
        λ j lo hi. elim (dec_le (k + 1) j) [
          | yes later ↦ before j later hi
          | no here ↦ let same : j ≡ k = omega arith in rw same (ground arith)
        ],
      )
]

-- The order of a size: the exponent of the power of two that `next_power_of_two` gives.
abbrev pub order_of : ℕ → ℕ
order_of n = trailing_zeros (next_power_of_two n)

-- Up to 2 ^ 63, `order_of n` is the least exponent whose power of two reaches `n`.
pub order_of-Reaches :
    (n : ℕ)
    → n ≤ 2 ^ 63
    → (next_power_of_two n ≡ 2 ^ order_of n)
      × (n ≤ 2 ^ order_of n)
      × ((j : ℕ) → j < order_of n → 2 ^ j < n)
unfolding next_power_of_two
order_of-Reaches n h =
    let e : ℕ = next_exponent 64 0 n in
    let (_, enough, before) = next_exponent-Reaches 64 0 n (omega arith) in
    let small : e < 64 = elim (dec_lt e 64) [
      | yes lt ↦ lt
      | no ge ↦ absurd (omega (arith, before 63 (omega arith) (omega arith)))
    ] in
    rw (trailing_zeros-pow e small) (refl, enough, λ j hi. before j (omega arith) hi)
