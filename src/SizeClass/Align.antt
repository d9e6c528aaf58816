-- ===== src/SizeClass/Align.antt =====
-- `align_to` of utility.rs as arithmetic, for an alignment that is a power of two.
use rsmalloc.Common.{ℕ, ◌+◌, ◌-◌, ◌*◌, ◌/◌, ◌%◌, ◌^◌, ◌≤◌, ◌<◌, ◌≡◌, arith, one-le-pow}
use rsmalloc.Common.Bits.{bit_and_not_mask}
use native.Mathlib.Nat.{mod-eq_of_lt, mod-lt, div-add-mod, mul-mod_right, pow-le-pow_right}
use rsmalloc.Layout.{usize_mod}
use rsmalloc.SizeClass.{align_to}

module _ (k size : ℕ) (hk : k ≤ 64) (fits : size + (2 ^ k - 1) < usize_mod) where
  pow_pos : 0 < 2 ^ k
  pow_pos = one-le-pow k 2 (omega arith)

  abbrev top : ℕ
  top = size + (2 ^ k - 1)

  pow-le : 2 ^ k ≤ usize_mod
  pow-le = pow-le-pow_right {n = 2} (omega arith) hk

  align_to-sub_mod : align_to size (2 ^ k) ≡ top - top % 2 ^ k
  unfolding align_to
  align_to-sub_mod =
      let wrap : (size + (2 ^ k - 1)) % usize_mod ≡ size + (2 ^ k - 1) = mod-eq_of_lt fits in
      let mask : usize_mod - 1 - (2 ^ k - 1) ≡ 2 ^ 64 - 2 ^ k = omega (arith, pow_pos, pow-le) in
      rw (wrap, mask) (bit_and_not_mask 64 k (size + (2 ^ k - 1)) fits hk)

  -- The result is the quotient times the alignment.
  pub align_to-mul : align_to size (2 ^ k) ≡ 2 ^ k * (top / 2 ^ k)
  align_to-mul = omega (arith, align_to-sub_mod, div-add-mod top (2 ^ k))

  -- `align_to` by 2 ^ k, where the sum does not wrap, is a multiple of 2 ^ k, at least `size`, and
  -- less than one alignment above it.
  pub align_to_bounds :
      (size ≤ align_to size (2 ^ k))
      × (align_to size (2 ^ k) < size + 2 ^ k)
      × (align_to size (2 ^ k) % 2 ^ k ≡ 0)
  align_to_bounds = (
    omega (arith, align_to-sub_mod, mod-lt top {m = 2 ^ k} pow_pos),
    omega (arith, align_to-sub_mod, pow_pos),
    rw align_to-mul (mul-mod_right (2 ^ k) (top / 2 ^ k)),
  )
