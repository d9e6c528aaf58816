-- ===== src/Slab/Tag.antt =====
-- `pack` and `unpack_ptr`: a pointer with a tag that counts the updates, against reuse of the pointer.
use rsmalloc.Common.{
  ℕ, zero, suc, refl, pow-suc, ◌+◌, ◌-◌, ◌*◌, ◌/◌, ◌%◌, ◌^◌, ◌<◌, ◌≡◌, ◌∙◌, bit_and, bit_or, arith,
}
use rsmalloc.Common.Bits.{bit_or_step, bit_and_low_mask, bit_and_not_mask}
use rsmalloc.Layout.{usize_mod}

abbrev pub tag_step : ℕ
tag_step = 2 ^ 56

abbrev pub tag_mask : ℕ
tag_mask = 2 ^ 64 - 2 ^ 56

abbrev pub ptr_mask : ℕ
ptr_mask = usize_mod - 1 - tag_mask

unfoldable pub pack : (ptr old_tag : ℕ) → ℕ
pack ptr old_tag =
    bit_or (bit_and ptr ptr_mask) (bit_and ((old_tag + tag_step) % usize_mod) tag_mask)

unfoldable pub unpack_ptr : (word : ℕ) → ℕ × ℕ
unpack_ptr word = (bit_and word ptr_mask, word)

bit_or_zero : (n b : ℕ) → b < 2 ^ n → bit_or 0 b ≡ b
bit_or_zero zero b h = let e : b ≡ 0 = omega arith in rw e refl
bit_or_zero (suc n) b h =
    omega (arith, bit_or_step 0 b, bit_or_zero n (b / 2) (omega (arith, pow-suc 2 n)))

-- Digits below 2 ^ k, and digits from there on.
bit_or_parts : (n k a b : ℕ) → b < 2 ^ n → a < 2 ^ k → bit_or a (b * 2 ^ k) ≡ a + b * 2 ^ k
bit_or_parts n zero a b h low =
    let e : a ≡ 0 = omega arith in rw e (omega (arith, bit_or_zero n (b * 1) (omega arith)))
bit_or_parts n (suc k) a b h low =
    let twice : b * 2 ^ suc k ≡ 2 * (b * 2 ^ k) = rw (pow-suc 2 k) (grind arith) in
    let half = bit_or_parts n k (a / 2) b h (omega (arith, pow-suc 2 k)) in
    let halved : 2 * (b * 2 ^ k) / 2 ≡ b * 2 ^ k = omega arith in
    let rest : bit_or (a / 2) (2 * (b * 2 ^ k) / 2) ≡ a / 2 + b * 2 ^ k = rw halved half in
    rw twice (omega (arith, bit_or_step a (2 * (b * 2 ^ k)), rest))

-- For a pointer below 2 ^ 56: unpacking gives the pointer back, and the tag is the old one and 1, after
-- 255 it is 0.
pub unpack_ptr-pack :
    (ptr old_tag : ℕ)
    → ptr < tag_step
    → old_tag < usize_mod
    → ((unpack_ptr (pack ptr old_tag)).0 ≡ ptr)
      × (pack ptr old_tag / tag_step ≡ (old_tag / tag_step + 1) % 256)
unfolding unpack_ptr pack
unpack_ptr-pack ptr old_tag h g =
    let tag = (old_tag + tag_step) % usize_mod in
    let low = bit_and_low_mask 56 ptr in
    let high = bit_and_not_mask 64 56 tag (omega arith) (omega arith) in
    let shifted : tag - tag % 2 ^ 56 ≡ (tag / 2 ^ 56) * 2 ^ 56 = omega arith in
    let parts = bit_or_parts 64 56 (ptr % 2 ^ 56) (tag / 2 ^ 56) (omega arith) (omega arith) in
    let packed : pack ptr old_tag ≡ ptr + (tag / 2 ^ 56) * 2 ^ 56 =
      rw (pack, low, high, shifted, parts) (omega arith) in
    (bit_and_low_mask 56 (pack ptr old_tag) ∙ omega (arith, packed), omega (arith, packed))
