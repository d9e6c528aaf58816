-- ===== src/Common/Bits.antt =====
-- Binary digits of the native numbers: `&`, `|`, `^` digit by digit, at every width, and the
-- arithmetic of the masks that the allocator builds with shifts and complements.
mod Step
pub use Step.{bit_and_step, bit_or_step, bit_xor_step}
use Prim.Native.Nat.{
  ℕ, zero, suc, ◌+◌, ◌-◌, ◌*◌, ◌/◌, ◌%◌, ◌^◌, ◌≤◌, ◌<◌, min, max, bit_and, bit_or, bit_xor,
}
use mathlib.Core.Path.{◌≡◌, refl, ap, ◌∙◌}
use native.Mathlib.Nat.{
  pow-suc, one-le-pow, div-add-mod, add-mul-mod_self_left, mod-eq_of_lt, mod-lt,
}
use native.Mathlib.Decide.{dec_lt}
use native.Mathlib.Omega.{arith}
use rsmalloc.Common.Tests.{ltb, ◌==◌, if◌then◌else◌}

-- Digit `k` of `n`, the lowest being digit 0.
unfoldable pub digit : ℕ → ℕ → ℕ
digit n zero = n % 2
digit n (suc k) = digit (n / 2) k

pub digit-lt : (n k : ℕ) → digit n k < 2
unfolding digit
digit-lt n zero = omega arith
digit-lt n (suc k) = digit-lt (n / 2) k

pub digit-bit_and : (a b k : ℕ) → digit (bit_and a b) k ≡ min (digit a k) (digit b k)
unfolding digit
digit-bit_and a b zero = omega (arith, bit_and_step a b)
digit-bit_and a b (suc k) =
    let e : bit_and a b / 2 ≡ bit_and (a / 2) (b / 2) = omega (arith, bit_and_step a b) in
    rw e (digit-bit_and (a / 2) (b / 2) k)

pub digit-bit_or : (a b k : ℕ) → digit (bit_or a b) k ≡ max (digit a k) (digit b k)
unfolding digit
digit-bit_or a b zero = omega (arith, bit_or_step a b)
digit-bit_or a b (suc k) =
    let e : bit_or a b / 2 ≡ bit_or (a / 2) (b / 2) = omega (arith, bit_or_step a b) in
    rw e (digit-bit_or (a / 2) (b / 2) k)

pub digit-zero : (k : ℕ) → digit 0 k ≡ 0
unfolding digit
digit-zero zero = refl
digit-zero (suc k) = digit-zero k

-- 2 ^ j has the digit `j` alone.
pub digit-pow : (j k : ℕ) → digit (2 ^ j) k ≡ (if j == k then 1 else 0)
unfolding digit
digit-pow zero zero = refl
digit-pow zero (suc k) = ground (arith, digit-zero k)
digit-pow (suc j) zero = ground (arith, pow-suc 2 j)
digit-pow (suc j) (suc k) =
    let e : 2 ^ suc j / 2 ≡ 2 ^ j = omega (arith, pow-suc 2 j) in
    rw e (ground (arith, digit-pow j k))

-- 2 ^ n - 1 has the digits below `n`.
pub digit_ones : (n k : ℕ) → digit (2 ^ n - 1) k ≡ (if ltb k n then 1 else 0)
unfolding digit
digit_ones zero k = ground (arith, digit-zero k)
digit_ones (suc n) zero = ground (arith, pow-suc 2 n, one-le-pow n 2)
digit_ones (suc n) (suc k) =
    let e : (2 ^ suc n - 1) / 2 ≡ 2 ^ n - 1 = omega (arith, pow-suc 2 n, one-le-pow n 2) in
    rw e (ground (arith, digit_ones n k))

-- The complement on `w` bits flips the digits below `w`.
pub digit_not : (w m k : ℕ) → m < 2 ^ w → k < w → digit (2 ^ w - 1 - m) k + digit m k ≡ 1
unfolding digit
digit_not zero m k hm hk = absurd (omega arith)
digit_not (suc w) m zero hm hk = omega (arith, pow-suc 2 w)
digit_not (suc w) m (suc k) hm hk =
    let e : (2 ^ suc w - 1 - m) / 2 ≡ 2 ^ w - 1 - m / 2 = omega (arith, pow-suc 2 w) in
    rw e (digit_not w (m / 2) k (omega (arith, pow-suc 2 w)) (omega arith))

-- 2 ^ w - 2 ^ f, that is the ones shifted left by `f` and cut to `w` bits.
pub digit_high_ones :
    (w f k : ℕ)
    → f ≤ w
    → digit (2 ^ w - 2 ^ f) k ≡ (if ltb k f then 0 else if ltb k w then 1 else 0)
unfolding digit
digit_high_ones w zero k h = ground (arith, digit_ones w k)
digit_high_ones zero (suc f) k h = absurd (omega arith)
digit_high_ones (suc w) (suc f) zero h = ground (arith, pow-suc 2 w, pow-suc 2 f)
digit_high_ones (suc w) (suc f) (suc k) h =
    let e : (2 ^ suc w - 2 ^ suc f) / 2 ≡ 2 ^ w - 2 ^ f = omega (arith, pow-suc 2 w, pow-suc 2 f) in
    rw e (ground (arith, digit_high_ones w f k))

-- What holds of 0, and of a number if it holds of its half, holds of every number.
module _ (P : ℕ → Type 0) (base : P 0) (double : (n : ℕ) → P (n / 2) → P n) where
  halves_to : (top : ℕ) (n : ℕ) → n < suc top → P n
  halves_to zero n h = let e : n ≡ 0 = omega arith in rw e base
  halves_to (suc top) n h = elim (dec_lt (n / 2) (suc top)) [
    | yes lt ↦ double n (halves_to top (n / 2) lt)
    | no ge ↦ absurd (omega arith)
  ]

  by_halves : (n : ℕ) → P n
  by_halves n = halves_to n n (omega arith)

bit_and-zero : (a : ℕ) → bit_and a 0 ≡ 0
bit_and-zero =
    by_halves (λ a. bit_and a 0 ≡ 0) refl (λ n half. omega (arith, half, bit_and_step n 0))

bit_xor-zero : (a : ℕ) → bit_xor a 0 ≡ a
bit_xor-zero =
    by_halves (λ a. bit_xor a 0 ≡ a) refl (λ n half. ground (arith, half, bit_xor_step n 0))

-- `&` with one bit reads that digit.
pub bit_and-pow : (a k : ℕ) → bit_and a (2 ^ k) ≡ digit a k * 2 ^ k
unfolding digit
bit_and-pow a zero = omega (arith, bit_and_step a 1, bit_and-zero (a / 2))
bit_and-pow a (suc k) =
    let e : 2 ^ suc k / 2 ≡ 2 ^ k = omega (arith, pow-suc 2 k) in
    let s : bit_and a (2 ^ suc k)
        ≡ bit_and (a / 2) (2 ^ suc k / 2) * 2 + min (a % 2) (2 ^ suc k % 2) =
      bit_and_step a (2 ^ suc k) in
    let s' : bit_and a (2 ^ suc k) ≡ bit_and (a / 2) (2 ^ k) * 2 + min (a % 2) (2 ^ suc k % 2) =
      rw e at s in
    omega (
      arith,
      s',
      bit_and-pow (a / 2) k,
      pow-suc 2 k,
      ap (λ (t : ℕ). digit (a / 2) k * t) (pow-suc 2 k),
    )

-- `^` with one bit adds it or takes it away.
pub bit_xor-pow_clear : (a k : ℕ) → digit a k ≡ 0 → bit_xor a (2 ^ k) ≡ a + 2 ^ k
unfolding digit
bit_xor-pow_clear a zero h = omega (arith, bit_xor_step a 1, bit_xor-zero (a / 2))
bit_xor-pow_clear a (suc k) h =
    let e : 2 ^ suc k / 2 ≡ 2 ^ k = omega (arith, pow-suc 2 k) in
    let s = rw e at (bit_xor_step a (2 ^ suc k)) in
    omega (arith, s, bit_xor-pow_clear (a / 2) k h, pow-suc 2 k)

pub bit_xor-pow_set : (a k : ℕ) → digit a k ≡ 1 → bit_xor a (2 ^ k) + 2 ^ k ≡ a
unfolding digit
bit_xor-pow_set a zero h = omega (arith, bit_xor_step a 1, bit_xor-zero (a / 2))
bit_xor-pow_set a (suc k) h =
    let e : 2 ^ suc k / 2 ≡ 2 ^ k = omega (arith, pow-suc 2 k) in
    let s = rw e at (bit_xor_step a (2 ^ suc k)) in
    omega (arith, s, bit_xor-pow_set (a / 2) k h, pow-suc 2 k)

half_mod : (x k : ℕ) → x % 2 ^ suc k ≡ x / 2 % 2 ^ k * 2 + x % 2
half_mod x k =
    ap (λ (t : ℕ). t % 2 ^ suc k) split
    ∙ add-mul-mod_self_left (h % p * 2 + x % 2) (2 ^ suc k) (h / p)
    ∙ mod-eq_of_lt small
  where
    h : ℕ
    h = x / 2

    p : ℕ
    p = 2 ^ k

    whole : p * (h / p) + h % p ≡ h
    whole = div-add-mod h p

    double : 2 ^ suc k * (h / p) ≡ 2 * (p * (h / p))
    double = omega (arith, ap (λ (t : ℕ). t * (h / p)) (pow-suc 2 k))

    split : x ≡ (h % p * 2 + x % 2) + 2 ^ suc k * (h / p)
    split = omega (arith, whole, double)

    small : h % p * 2 + x % 2 < 2 ^ suc k
    small = omega (arith, mod-lt h {m = p} (one-le-pow k 2 (omega arith)), pow-suc 2 k)

-- `&` with the complement of a low mask, on `w` bits, clears the digits below `k`.
pub bit_and_not_mask : (w k x : ℕ) → x < 2 ^ w → k ≤ w → bit_and x (2 ^ w - 2 ^ k) ≡ x - x % 2 ^ k
bit_and_not_mask zero zero x hx hk = omega (arith, bit_and-zero x)
bit_and_not_mask zero (suc k) x hx hk = absurd (omega arith)
bit_and_not_mask (suc w) zero x hx hk =
    let e : (2 ^ suc w - 1) / 2 ≡ 2 ^ w - 2 ^ 0 = omega (arith, pow-suc 2 w, one-le-pow w 2) in
    let s = rw e at (bit_and_step x (2 ^ suc w - 1)) in
    omega (
      arith,
      s,
      bit_and_not_mask w zero (x / 2) (omega (arith, pow-suc 2 w)) (omega arith),
      pow-suc 2 w,
      one-le-pow w 2,
    )
bit_and_not_mask (suc w) (suc k) x hx hk =
    let e : (2 ^ suc w - 2 ^ suc k) / 2 ≡ 2 ^ w - 2 ^ k = omega (arith, pow-suc 2 w, pow-suc 2 k) in
    let s = rw e at (bit_and_step x (2 ^ suc w - 2 ^ suc k)) in
    omega (
      arith,
      s,
      bit_and_not_mask w k (x / 2) (omega (arith, pow-suc 2 w)) (omega arith),
      pow-suc 2 w,
      pow-suc 2 k,
      half_mod x k,
    )

-- `&` with a mask of `k` low ones is the remainder by 2 ^ k.
pub bit_and_low_mask : (k a : ℕ) → bit_and a (2 ^ k - 1) ≡ a % 2 ^ k
bit_and_low_mask zero a = omega (arith, bit_and-zero a)
bit_and_low_mask (suc k) a =
    let e : (2 ^ suc k - 1) / 2 ≡ 2 ^ k - 1 = omega (arith, pow-suc 2 k, one-le-pow k 2) in
    let s = rw e at (bit_and_step a (2 ^ suc k - 1)) in
    omega (arith, s, bit_and_low_mask k (a / 2), half_mod a k, pow-suc 2 k, one-le-pow k 2)

-- One more digit of a remainder.
pub mod-pow-suc : (a k : ℕ) → a % 2 ^ suc k ≡ a % 2 ^ k + digit a k * 2 ^ k
unfolding digit
mod-pow-suc a zero = omega arith
mod-pow-suc a (suc k) = omega (
  arith,
  half_mod a (suc k),
  half_mod a k,
  mod-pow-suc (a / 2) k,
  pow-suc 2 k,
  ap (λ (t : ℕ). digit (a / 2) k * t) (pow-suc 2 k),
)
