-- ===== src/Common/Bits/Step.antt =====
-- How the native `&`, `|` and `^` compute the lowest binary digit and the others.
use Prim.Native.Nat.{
  ℕ, zero, suc, ◌+◌, ◌-◌, ◌*◌, ◌/◌, ◌%◌, ◌≤◌, ◌<◌, min, max, differ, digits, bitwise, bit_and,
  bit_or, bit_xor, bit_and-bitwise, bit_or-bitwise, bit_xor-bitwise,
}
use mathlib.Core.Path.{◌≡◌, refl}
use native.Mathlib.Omega.{arith}

module _ (rest : ℕ → ℕ) (digit : ℕ → ℕ → ℕ) where
  -- More fuel than the first number needs changes nothing.
  spare :
      (fuel extra x y : ℕ)
      → x ≤ fuel
      → digits rest digit (fuel + extra) x y ≡ digits rest digit fuel x y
  spare fuel zero x y enough = let e : fuel + 0 ≡ fuel = omega arith in rw e
  spare zero (suc extra) zero y enough = let e : 0 + suc extra ≡ suc extra = omega arith in rw e
  spare zero (suc extra) (suc x) y enough = absurd (omega arith)
  spare (suc fuel) (suc extra) zero y enough =
      let e : suc fuel + suc extra ≡ suc (fuel + suc extra) = omega arith in rw e
  spare (suc fuel) (suc extra) (suc x) y enough =
      let e : suc fuel + suc extra ≡ suc (fuel + suc extra) = omega arith in
      let less : suc x / 2 ≤ fuel = omega arith in
      rw (e, spare fuel (suc extra) (suc x / 2) (y / 2) less)

  -- The lowest digit is computed apart from the others.
  lowest :
      (x y : ℕ)
      → bitwise rest digit (suc x) y
        ≡ digit (suc x % 2) (y % 2) + 2 * bitwise rest digit (suc x / 2) (y / 2)
  lowest x y =
      let h : ℕ = suc x / 2 in
      let sum : h + (x - h) ≡ x = omega arith in
      let drop : digits rest digit (h + (x - h)) h (y / 2) ≡ digits rest digit h h (y / 2) =
        spare h (x - h) h (y / 2) (omega arith) in
      omega (arith, rw sum at drop)

pub bit_and_step : (a b : ℕ) → bit_and a b ≡ bit_and (a / 2) (b / 2) * 2 + min (a % 2) (b % 2)
bit_and_step zero b = let e = bit_and-bitwise in simp e (omega arith)
bit_and_step (suc x) y =
    let low = lowest (λ k. 0) min x y in simp bit_and-bitwise (omega (arith, low))

pub bit_or_step : (a b : ℕ) → bit_or a b ≡ bit_or (a / 2) (b / 2) * 2 + max (a % 2) (b % 2)
bit_or_step zero y = let e = bit_or-bitwise in simp e (omega arith)
bit_or_step (suc x) y =
    let low = lowest (λ k. k) max x y in simp bit_or-bitwise (omega (arith, low))

differ_lem : (x y : ℕ) → x < 2 → y < 2 → differ x y ≡ (x + y) % 2
differ_lem zero y hx hy = omega arith
differ_lem (suc zero) zero hx hy = refl
differ_lem (suc zero) (suc zero) hx hy = refl
differ_lem (suc zero) (suc (suc y)) hx hy = absurd (omega arith)
differ_lem (suc (suc x)) y hx hy = absurd (omega arith)

xor_digits : (a b : ℕ) → bit_xor a b ≡ bit_xor (a / 2) (b / 2) * 2 + differ (a % 2) (b % 2)
xor_digits zero y = let e = bit_xor-bitwise in simp e (omega arith)
xor_digits (suc x) y =
    let low = lowest (λ k. k) differ x y in simp bit_xor-bitwise (omega (arith, low))

pub bit_xor_step : (a b : ℕ) → bit_xor a b ≡ bit_xor (a / 2) (b / 2) * 2 + (a % 2 + b % 2) % 2
bit_xor_step a b =
    omega (arith, xor_digits a b, differ_lem (a % 2) (b % 2) (omega arith) (omega arith))
